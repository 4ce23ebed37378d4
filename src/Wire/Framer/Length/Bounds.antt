-- ===== src/Wire/Framer/Length/Bounds.antt =====
-- wire/framer.go: how long a frame is.
use a2kit.Common.{ℕ, ◌+◌, ◌≤◌, ◌≡◌, refl, Bool, true, false, List, arith, length}
use a2kit.Wire.Varint.{Varint, short, bad, value, uvarint}
use a2kit.Wire.Varint.Prefix.{uvarint_width}
use a2kit.Wire.Framer.State.{max_frame}
use a2kit.Wire.Framer.Length.{whole, length_of, frame_len}

length_of-whole :
    (known_only : Bool) (p : List ℕ) (trust : Bool) (t : Varint) (n head : ℕ)
    → uvarint p ≡ t
    → length_of known_only p trust t ≡ whole n head
    → (1 ≤ head) × (head ≤ 5) × (head + 2 ≤ n) × (n ≤ length p) × (n ≤ max_frame)
unfolding length_of
length_of-whole known_only p trust short n head u e = cc
length_of-whole known_only p trust bad n head u e = cc
length_of-whole known_only p true (value v w) n head u e = ground (arith, uvarint_width p v w u)
length_of-whole known_only p false (value v w) n head u e = ground (arith, uvarint_width p v w u)

-- A frame that frameLen accepts has a varint of one to five bytes, room for an opcode, and lies
-- within the bytes and within maxFrame.
pub frame_len-whole :
    (known_only : Bool) (p : List ℕ) (trust : Bool) (n head : ℕ)
    → frame_len known_only p trust ≡ whole n head
    → (1 ≤ head) × (head ≤ 5) × (head + 2 ≤ n) × (n ≤ length p) × (n ≤ max_frame)
unfolding frame_len
frame_len-whole known_only p trust n head e =
    length_of-whole known_only p trust (uvarint p) n head refl e
