-- ===== src/Game/Std.antt =====
-- What game/reader.go and game/parse.go use of Go's standard library: binary.Uvarint,
-- utf8.Valid and strings.Cut.
pub mod Width
use a2kit.Common.{
  ℕ, ◌+◌, ◌*◌, ◌%◌, ◌^◌, bit_or, Bool, true, false, ◌&&◌, List, [], ◌∷◌, Option, none, some, ltb,
  leb, ◌==◌, if◌then◌else◌,
}

-- binary.Uvarint: `i` is the index of the next byte and `s` the shift. `none` is a width of 0 or
-- less, for an input that ends inside the number or a number past 64 bits.
uvarint_loop : List ℕ → ℕ → ℕ → ℕ → Option (ℕ × ℕ)
uvarint_loop [] i s x = none
uvarint_loop (b ∷ rest) i s x =
    let more = uvarint_loop rest (i + 1) (s + 7) (bit_or x (b % 128 * 2 ^ s % 2 ^ 64)) in
    if i == 10
    then none
    else if ltb b 128
    then (if i == 9 && ltb 1 b then none else some (bit_or x (b * 2 ^ s % 2 ^ 64), i + 1))
    else more

unfoldable pub uvarint : List ℕ → Option (ℕ × ℕ)
unfolding uvarint_loop
uvarint p = uvarint_loop p 0 0 0

-- utf8.Valid: what a lead byte asks of the bytes after it, each as a range.
abbrev Range : Type 0
Range = ℕ × ℕ

abbrev tail_range : Range
tail_range = (0x80, 0xBF)

within : ℕ → ℕ → ℕ → Bool
within lo hi b = leb lo b && leb b hi

lead : ℕ → Option (List Range)
lead b =
    if ltb b 0x80
    then some []
    else if within 0xC2 0xDF b
    then some (tail_range ∷ [])
    else if b == 0xE0
    then some ((0xA0, 0xBF) ∷ tail_range ∷ [])
    else if b == 0xED
    then some ((0x80, 0x9F) ∷ tail_range ∷ [])
    else if within 0xE1 0xEF b
    then some (tail_range ∷ tail_range ∷ [])
    else if b == 0xF0
    then some ((0x90, 0xBF) ∷ tail_range ∷ tail_range ∷ [])
    else if within 0xF1 0xF3 b
    then some (tail_range ∷ tail_range ∷ tail_range ∷ [])
    else if b == 0xF4
    then some ((0x80, 0x8F) ∷ tail_range ∷ tail_range ∷ [])
    else none

utf8_from : List Range → List ℕ → Bool
utf8_from [] [] = true
utf8_from (r ∷ rs) [] = false
utf8_from [] (b ∷ p) = elim (lead b) [ none ↦ false | some rs ↦ utf8_from rs p ]
utf8_from ((lo, hi) ∷ rs) (b ∷ p) = within lo hi b && utf8_from rs p

unfoldable pub utf8_valid : List ℕ → Bool
unfolding utf8_from lead within
utf8_valid p = utf8_from [] p

-- strings.Cut(s, sep) for a separator of one byte
unfoldable pub cut : ℕ → List ℕ → List ℕ × List ℕ × Bool
cut sep [] = ([], [], false)
cut sep (b ∷ s) =
    let (before, after, found) = cut sep s in
    if b == sep then ([], s, true) else (b ∷ before, after, found)
