-- ===== src/Wire/Framer/Length/Encoded.antt =====
-- A frame as the game sends it, and how the framer's tests answer on it.
use a2kit.Common.{
  ℕ, zero, suc, ◌+◌, ◌-◌, ◌≤◌, ◌<◌, ◌≡◌, ◌≢◌, ◌∙◌, refl, ap, Bool, true, List, [], ◌∷◌, ◌++◌, arith,
  length, drop, length-append, drop-length_append, append_assoc, if◌then◌else◌, ltb, Bool-cases,
  inl, inr, ◌%◌, ◌/◌,
}
use a2kit.Wire.Opcode.{known, in_family, opcode}
use a2kit.Wire.Varint.{value, uvarint, leb128}
use a2kit.Wire.Varint.Encoding.{uvarint-leb128}
use a2kit.Wire.Scan.{Verdict}
use a2kit.Wire.Framer.State.{max_frame}
use a2kit.Wire.Framer.Length.{whole, plausible, frame_len, begins}

-- A message with two opcode bytes and a payload of one byte at least.
pub record Message : Type 0 where
  pub op0 : ℕ
  pub op1 : ℕ
  pub first : ℕ
  pub rest : List ℕ

abbrev pub body : Message → List ℕ
body m = m.op0 ∷ m.op1 ∷ m.first ∷ m.rest

-- Its varint counts the body and four bytes more.
abbrev pub size : Message → ℕ
size m = length (body m) + 4

abbrev pub prefix : Message → List ℕ
prefix m = leb128 4 (size m)

abbrev pub encode : Message → List ℕ
encode m = prefix m ++ body m

-- It is no bundle, its opcode is plausible, and its frame is no longer than maxFrame.
pub record IsSent (known_only : Bool) (m : Message) : Type 0 where
  pub no_bundle : m.op1 ≢ 0xFF
  pub is_plausible : (if known_only then known (opcode (body m)) else in_family m.op1) ≡ true
  pub fits : length (prefix m) + length (body m) ≤ max_frame

module _ (known_only : Bool) (m : Message) (sent : IsSent known_only m) (more : List ℕ) where
  pub uvarint-encode : uvarint (encode m ++ more) ≡ value (size m) (length (prefix m))
  uvarint-encode =
      ap uvarint (append_assoc (prefix m) (body m) more)
      ∙ uvarint-leb128 (size m) (body m ++ more) (omega (arith, sent.fits))

  pub drop-encode : drop (length (prefix m)) (encode m ++ more) ≡ body m ++ more
  drop-encode =
      rw (append_assoc (prefix m) (body m) more) (drop-length_append (prefix m) (body m ++ more))

  pub length-encode : length (encode m ++ more) ≡ length (prefix m) + length (body m) + length more
  length-encode = omega (arith, length-append (encode m) more, length-append (prefix m) (body m))

  -- What frameLen adds up.
  whole-size : size m + length (prefix m) - 4 ≡ length (prefix m) + length (body m)
  whole-size = omega arith

  plausible-encode : (n : ℕ) → plausible known_only (body m ++ more) n ≡ true
  unfolding plausible opcode
  plausible-encode n = ground (arith, sent.is_plausible)

  pub begins-encode : begins known_only (encode m ++ more) ≡ Verdict.yes
  unfolding begins
  begins-encode =
      rw (uvarint-encode, drop-encode, plausible-encode (size m - 4))
        (ground (arith, sent.fits, length-encode))

  pub frame_len-encode :
      frame_len known_only (encode m ++ more) true
      ≡ whole (length (prefix m) + length (body m)) (length (prefix m))
  unfolding frame_len
  frame_len-encode = rw (uvarint-encode, whole-size) (ground (arith, sent.fits, length-encode))

-- The first byte of a frame is no padding.
leb128-ne_zero : (k v : ℕ) → 0 < v → (c : ℕ) × (rest : List ℕ) × (leb128 k v ≡ c ∷ rest) × (c ≢ 0)
unfolding leb128
leb128-ne_zero zero v h = (v, [], refl, λ e. omega arith)
leb128-ne_zero (suc k) v h = elim (Bool-cases (ltb v 128)) [
  | inl small ↦ (v, [], rw small, λ e. omega arith)
  | inr big ↦ (v % 128 + 128, leb128 k (v / 128), rw big, λ e. omega arith)
]

pub encode-ne_zero : (m : Message) → (c : ℕ) × (rest : List ℕ) × (encode m ≡ c ∷ rest) × (c ≢ 0)
encode-ne_zero m =
    let (c, rest, e, n) = leb128-ne_zero 4 (size m) (omega arith) in (c, rest ++ body m, rw e, n)
