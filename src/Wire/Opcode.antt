-- ===== src/Wire/Opcode.antt =====
-- wire/opcode.go: the two bytes that begin a frame's body.
pub mod Text
use a2kit.Common.{
  ℕ, ◌+◌, ◌-◌, ◌*◌, ◌/◌, ◌%◌, ◌^◌, bit_or, Bool, ◌||◌, ◌&&◌, List, [], ◌∷◌, Option, none, some, ltb,
  leb, ◌==◌, if◌then◌else◌, contains, bit_at, u16_le,
}

unfoldable pub opcode : List ℕ → ℕ
opcode b = u16_le b

-- Bytes: byte(o), byte(o >> 8)
unfoldable pub bytes : ℕ → List ℕ
bytes o = o % 256 ∷ o / 2 ^ 8 % 256 ∷ []

-- A digit of %02X
hex_digit : ℕ → ℕ
hex_digit d = if ltb d 10 then b'0' + d else b'7' + d

-- String: "%02X %02X" of the two bytes
unfoldable pub to_text : ℕ → List ℕ
unfolding hex_digit
to_text o =
    hex_digit (o % 256 / 16)
    ∷ hex_digit (o % 16)
    ∷ b' '
    ∷ hex_digit (o / 2 ^ 8 % 256 / 16)
    ∷ hex_digit (o / 2 ^ 8 % 16)
    ∷ []

-- A digit as hex.Decode reads it, in either case
from_hex : ℕ → Option ℕ
from_hex c =
    if leb b'0' c && leb c b'9'
    then some (c - b'0')
    else if leb b'a' c && leb c b'f'
    then some (c - b'a' + 10)
    else if leb b'A' c && leb c b'F'
    then some (c - b'A' + 10)
    else none

hex_byte : ℕ → ℕ → Option ℕ
unfolding from_hex
hex_byte a b = elim (from_hex a) [
  | none ↦ none
  | some h ↦ elim (from_hex b) [ none ↦ none | some l ↦ some (16 * h + l) ]
]

-- UnmarshalText, `none` for an error
unfoldable pub from_text : List ℕ → Option ℕ
unfolding hex_byte
from_text (a ∷ b ∷ s ∷ c ∷ d ∷ []) =
    if s == b' '
    then elim (hex_byte a b) [
      | none ↦ none
      | some x ↦ elim (hex_byte c d) [ none ↦ none | some y ↦ some (x + 256 * y) ]
    ]
    else none
from_text _ = none

abbrev pub known_opcodes : List ℕ
known_opcodes =
    0x3804 ∷ 0x3805 ∷ 0x3802 ∷ 0x3806 ∷ 0x3822 ∷ 0x382A ∷ 0x382B ∷ 0x382C ∷ 0x3835 ∷ 0x3847 ∷ 0x3817
    ∷ 0x3603 ∷ 0x361A ∷ 0x3623 ∷ 0x3633 ∷ 0x3634 ∷ 0x3640 ∷ 0x3641 ∷ 0x3642 ∷ 0x3645 ∷ 0x3646
    ∷ 0x3647 ∷ 0x3649 ∷ 0x364A ∷ 0x3656 ∷ 0x3600 ∷ 0x371A ∷ 0x371B ∷ 0x371C ∷ 0x561D ∷ 0x8D00
    ∷ 0x8D04 ∷ 0x8D21 ∷ 0x921B ∷ 0x9200 ∷ 0x920D ∷ 0x3901 ∷ 0x3903 ∷ 0x3906 ∷ 0x3909 ∷ 0x390B
    ∷ 0x390D ∷ 0x390F ∷ []

-- knownBits[j], after the loop over known: bits[o>>6] |= 1 << (o & 63)
known_word : List ℕ → ℕ → ℕ
known_word [] j = 0
known_word (o ∷ rest) j =
    let w = known_word rest j in if o / 2 ^ 6 == j then bit_or w (2 ^ (o % 64)) else w

unfoldable pub known : ℕ → Bool
unfolding known_word
known o = bit_at (known_word known_opcodes (o / 2 ^ 6)) (o % 64)

unfoldable pub in_family : ℕ → Bool
in_family b = contains (0x36 ∷ 0x37 ∷ 0x38 ∷ 0x39 ∷ 0x56 ∷ 0x8A ∷ 0x8D ∷ 0x92 ∷ 0x96 ∷ 0x97 ∷ []) b

unfoldable pub combat : ℕ → Bool
combat o = o == 0x3804 || o == 0x3805
