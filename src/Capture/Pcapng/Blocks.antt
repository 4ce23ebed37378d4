-- ===== src/Capture/Pcapng/Blocks.antt =====
-- capture/pcapng.go: readBlock on a block as pcapng lays it out.
use a2kit.Common.{
  ℕ, ◌+◌, ◌-◌, ◌%◌, ◌^◌, ◌<◌, ◌≤◌, ◌≡◌, ◌≢◌, ◌∙◌, refl, ap, false, List, ◌++◌, some, arith, length,
  take, drop, length-append, take-length_append, drop-length_append, drop-past, append_assoc,
  u32_le, ◌==◌,
}
use a2kit.Capture.Order.{Order, little, big, u32, u32_bytes, u32_bytes_be}
use a2kit.Capture.Packet.{got, ok}
use a2kit.Capture.Pcapng.{Pcapng, Block, sized, ordered, read_block, ng_section, max_block}

abbrev pub word : Order → ℕ → List ℕ
word little v = u32_bytes v
word big v = u32_bytes_be v

abbrev pub size_of : Block → ℕ
size_of b = 12 + length b.body

-- type | length | body | length
abbrev pub encode : Order → Block → List ℕ
encode o b = word o b.typ ++ (word o (size_of b) ++ (b.body ++ word o (size_of b)))

-- A block that is no section header, padded to 32 bits, and not too long
pub record IsBlock (b : Block) : Type 0 where
  pub typ : b.typ < 2 ^ 32
  pub plain : b.typ ≢ ng_section
  pub padded : length b.body % 4 ≡ 0
  pub size : size_of b ≤ max_block

word-length : (o : Order) (v : ℕ) → length (word o v) ≡ 4
word-length little v = refl
word-length big v = refl

u32-word : (o : Order) (v : ℕ) (p : List ℕ) → v < 2 ^ 32 → u32 o (word o v ++ p) ≡ v
u32-word little v p h = omega arith
u32-word big v p h = omega arith

-- The bytes of a block and what follows it, from its body on
abbrev after_head : Order → Block → List ℕ → List ℕ
after_head o b rest = b.body ++ (word o (size_of b) ++ rest)

abbrev head : Order → Block → List ℕ
head o b = word o b.typ ++ word o (size_of b)

-- A reader at a block, and past it
abbrev pub at_block : Order → Pcapng → List ℕ → Pcapng
at_block o n rest = record n { rest = rest; order = some o }

module _ (b : Block) (fits : IsBlock b) (rest : List ℕ) where
  encode-after_head : (o : Order) → encode o b ++ rest ≡ head o b ++ after_head o b rest
  encode-after_head little =
      ap (λ l. head little b ++ l) (append_assoc b.body (word little (size_of b)) rest)
  encode-after_head big =
      ap (λ l. head big b ++ l) (append_assoc b.body (word big (size_of b)) rest)

  length-head : (o : Order) → length (head o b) ≡ 8
  length-head little = refl
  length-head big = refl

  u32-head : (o : Order) (q : List ℕ) → u32 o (head o b ++ q) ≡ b.typ
  u32-head little q = omega (arith, fits.typ)
  u32-head big q = omega (arith, fits.typ)

  size-head : (o : Order) (q : List ℕ) → u32 o (drop 4 (head o b ++ q)) ≡ size_of b
  size-head little q = omega (arith, fits.size)
  size-head big q = omega (arith, fits.size)

  drop-head : (o : Order) (q : List ℕ) (k : ℕ) → drop (8 + k) (head o b ++ q) ≡ drop k q
  drop-head o q k =
      drop-past (head o b) q (8 + k) (omega (arith, length-head o))
      ∙ ap (λ j. drop j q) (omega (arith, length-head o))

  trailer : (o : Order) → u32 o (drop (size_of b - 4) (head o b ++ after_head o b rest)) ≡ size_of b
  trailer o =
      ap (λ k. u32 o (drop k (head o b ++ after_head o b rest))) (omega arith)
      ∙ ap (u32 o) (
          drop-head o (after_head o b rest) (length b.body)
          ∙ drop-length_append b.body (word o (size_of b) ++ rest))
      ∙ u32-word o (size_of b) rest (omega (arith, fits.size))

  past : (o : Order) → drop (size_of b) (head o b ++ after_head o b rest) ≡ rest
  past o =
      ap (λ k. drop k (head o b ++ after_head o b rest)) (omega arith)
      ∙ drop-head o (after_head o b rest) (length b.body + 4)
      ∙ drop-past b.body (word o (size_of b) ++ rest) (length b.body + 4) (omega arith)
      ∙ ap (λ k. drop k (word o (size_of b) ++ rest)) {y = 4} (omega arith)
      ∙ four o
    where
      four : (o : Order) → drop 4 (word o (size_of b) ++ rest) ≡ rest
      four little = refl
      four big = refl

  body-block :
      (o : Order) → take (size_of b - 12) (drop 8 (head o b ++ after_head o b rest)) ≡ b.body
  body-block o =
      ap (take (size_of b - 12)) (drop-head o (after_head o b rest) 0)
      ∙ ap (λ k. take k (after_head o b rest)) (omega arith)
      ∙ take-length_append b.body (word o (size_of b) ++ rest)

  whole-length : (o : Order) → length (head o b ++ after_head o b rest) ≡ size_of b + length rest
  whole-length o = omega (
    arith,
    length-append (head o b) (after_head o b rest),
    length-head o,
    length-append b.body (word o (size_of b) ++ rest),
    length-append (word o (size_of b)) rest,
    word-length o (size_of b),
  )

  module _ (n : Pcapng) where
    sized-block :
        (o : Order)
        → sized false (at_block o n (head o b ++ after_head o b rest)) o (size_of b)
          ≡ got b (at_block o n rest)
    unfolding sized
    sized-block o =
        rw (trailer o, past o, body-block o, u32-head o (after_head o b rest))
          (ground (arith, fits.padded, fits.size, whole-length o))

    not_section : (o : Order) (q : List ℕ) → (u32_le (head o b ++ q) == ng_section) ≡ false
    not_section little q = ground (arith, fits.typ, fits.plain)
    not_section big q = ground (arith, fits.typ, fits.plain)

    ordered-block :
        (o : Order)
        → ordered false (ok (at_block o n (head o b ++ after_head o b rest)))
          ≡ got b (at_block o n rest)
    unfolding ordered
    ordered-block o = rw (size-head o (after_head o b rest)) (sized-block o)

    read_block-head :
        (o : Order)
        → read_block (at_block o n (head o b ++ after_head o b rest)) ≡ got b (at_block o n rest)
    unfolding read_block
    read_block-head o =
        rw (not_section o (after_head o b rest)) (ground (arith, whole-length o, ordered-block o))

    -- In either byte order, readBlock reads back the type and the body of a block that is laid out
    -- as pcapng says, and leaves what follows it. The block is no section header, its body is
    -- padded to 32 bits, and it is no longer than maxBlock.
    pub read_block-encode :
        (o : Order) → read_block (at_block o n (encode o b ++ rest)) ≡ got b (at_block o n rest)
    read_block-encode o =
        ap (λ p. read_block (at_block o n p)) (encode-after_head o) ∙ read_block-head o
