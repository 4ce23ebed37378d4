-- ===== src/Wire/Opcode/Text.antt =====
-- wire/opcode.go: an opcode's bytes and text, both ways.
use a2kit.Common.{ℕ, ◌+◌, ◌*◌, ◌/◌, ◌%◌, ◌^◌, ◌<◌, ◌≡◌, ◌∙◌, ap, none, some, arith, List, ◌++◌}
use a2kit.Wire.Opcode.{hex_digit, from_hex, hex_byte, bytes, opcode, to_text, from_text}

from_hex-hex_digit : (d : ℕ) → d < 16 → from_hex (hex_digit d) ≡ some d
unfolding from_hex hex_digit
from_hex-hex_digit d h = ground arith

hex_byte-hex_digit :
    (h l : ℕ) → h < 16 → l < 16 → hex_byte (hex_digit h) (hex_digit l) ≡ some (16 * h + l)
unfolding hex_byte
hex_byte-hex_digit h l a b = ground (arith, from_hex-hex_digit h a, from_hex-hex_digit l b)

-- UnmarshalText reads back the text of any 16-bit opcode, and a body that begins with an opcode's
-- bytes has that opcode.
pub from_text-to_text :
    (o : ℕ) (p : List ℕ)
    → o < 2 ^ 16
    → (from_text (to_text o) ≡ some o) × (opcode (bytes o ++ p) ≡ o)
unfolding from_text to_text opcode bytes
from_text-to_text o p small = (
  ap
        (λ u. elim u [
          | none ↦ none
          | some x ↦
              elim (hex_byte (hex_digit (o / 2 ^ 8 % 256 / 16)) (hex_digit (o / 2 ^ 8 % 16))) [
                | none ↦ none
                | some y ↦ some (x + 256 * y)
              ]
        ])
        (hex_byte-hex_digit (o % 256 / 16) (o % 16) (omega arith) (omega arith))
      ∙ ap (λ u. elim u [ none ↦ none | some y ↦ some (16 * (o % 256 / 16) + o % 16 + 256 * y) ])
          (hex_byte-hex_digit (o / 2 ^ 8 % 256 / 16) (o / 2 ^ 8 % 16) (omega arith) (omega arith))
      ∙ ap some (omega arith),
  omega arith,
)
