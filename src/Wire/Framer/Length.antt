-- ===== src/Wire/Framer/Length.antt =====
-- wire/framer.go: where a frame ends, and what may begin one. Each function takes knownOnly and the
-- bytes.
pub mod Bounds
pub mod Encoded
use a2kit.Common.{
  ℕ, ◌+◌, ◌-◌, Bool, false, not, ◌&&◌, ◌||◌, List, [], ◌∷◌, ltb, leb, ◌==◌, if◌then◌else◌, length,
  drop, byte_at,
}
use a2kit.Wire.Opcode.{opcode, known, in_family}
use a2kit.Wire.Varint.{Varint, short, bad, value, uvarint}
use a2kit.Wire.Scan.{Verdict}
use a2kit.Wire.Framer.State.{max_frame, stall_limit, min_bundle}

-- frameLen's answer: n is -1, n is 0 with the varint's width, or n and the width
pub data Length : Type 0 where
  invalid : Length
  partial : ℕ → Length
  whole : ℕ → ℕ → Length

unfoldable pub plausible : Bool → List ℕ → ℕ → Bool
plausible known_only b size =
    if byte_at b 0 == 0xFF && byte_at b 1 == 0xFF
    then leb min_bundle size
    else if leb 0xF0 (byte_at b 0) && ltb (byte_at b 0) 0xFF && byte_at b 1 == 0xFF
    then ltb min_bundle size && (ltb (length b) 3 || byte_at b 2 == 0xFF)
    else if known_only
    then known (opcode b)
    else in_family (byte_at b 1)

-- frameLen after the checks on the opcode
complete : List ℕ → ℕ → ℕ → Length
complete p n head = if ltb (length p) n then partial head else whole n head

-- frameLen on a varint of `v` that fits
fitting : Bool → List ℕ → Bool → ℕ → ℕ → Length
unfolding complete
fitting known_only p trust n head =
    if trust
    then complete p n head
    else if ltb (length p) (head + 2)
    then partial head
    else if not (plausible known_only (drop head p) (n - head))
    then invalid
    else if ltb (length p) n && ltb stall_limit n
    then invalid
    else complete p n head

length_of : Bool → List ℕ → Bool → Varint → Length
unfolding fitting
length_of known_only p trust short = partial 0
length_of known_only p trust bad = invalid
length_of known_only p trust (value v head) =
    if ltb v 6
    then invalid
    else if ltb max_frame (v + head - 4)
    then invalid
    else fitting known_only p trust (v + head - 4) head

-- frameLen
unfoldable pub frame_len : Bool → List ℕ → Bool → Length
unfolding length_of
frame_len known_only p trust = length_of known_only p trust (uvarint p)

accepts_as : List ℕ → Length → Verdict
accepts_as p invalid = Verdict.no
accepts_as p (partial head) =
    if head == 0 || ltb (length p) (head + 2) then Verdict.maybe else Verdict.yes
accepts_as p (whole n head) =
    if head == 0 || ltb (length p) (head + 2) then Verdict.maybe else Verdict.yes

unfoldable pub accepts : Bool → List ℕ → Verdict
unfolding accepts_as
accepts known_only p = accepts_as p (frame_len known_only p false)

begins_as : Bool → List ℕ → Varint → Verdict
begins_as known_only p short = Verdict.maybe
begins_as known_only p bad = Verdict.no
begins_as known_only p (value v head) =
    if ltb v 6 || ltb max_frame (v + head - 4)
    then Verdict.no
    else if ltb (length p) (head + 2)
    then Verdict.maybe
    else if plausible known_only (drop head p) (v - 4)
    then Verdict.yes
    else Verdict.no

unfoldable pub begins : Bool → List ℕ → Verdict
unfolding begins_as
begins known_only p = begins_as known_only p (uvarint p)

-- bytes.TrimLeft(p, "\x00"), and the loop over padding
unfoldable pub trim_padding : List ℕ → List ℕ
trim_padding [] = []
trim_padding (b ∷ p) = if b == 0 then trim_padding p else b ∷ p

as_verdict : Length → Verdict
as_verdict invalid = Verdict.no
as_verdict (partial head) = Verdict.maybe
as_verdict (whole n head) = Verdict.yes

second : Bool → List ℕ → Length → Verdict
unfolding as_verdict
second known_only p invalid = Verdict.no
second known_only p (partial head) = Verdict.maybe
second known_only p (whole n head) =
    as_verdict (frame_len known_only (trim_padding (drop n p)) false)

unfoldable pub pair : Bool → List ℕ → ℕ → Verdict
unfolding second
pair known_only p i = second known_only (drop i p) (frame_len known_only (drop i p) false)
