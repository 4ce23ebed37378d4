-- ===== src/Analyze/Detail.antt =====
-- analyze.go: Type, one type's messages, position by position.
use a2kit.Common.{
  ℕ, zero, suc, ◌+◌, ◌-◌, not, ◌&&◌, List, [], ◌∷◌, Option, none, some, ltb, ◌==◌, if◌then◌else◌,
  length, contains, map, max, min, get_elem?,
}
use a2kit.Messages.{Message}
use a2kit.Game.Std.{uvarint}
use a2kit.Common.Sort.{sort_by}
use a2kit.Analyze.Packets.{distinct}
use a2kit.Analyze.Bursts.{Count}

abbrev pub detail_bytes : ℕ
detail_bytes = 32

-- The messages of a type
of_type : ℕ → List Message → List Message
of_type op [] = []
of_type op (m ∷ ms) = let rest = of_type op ms in if m.frame.opcode == op then m ∷ rest else rest

-- The longest payload
longest : List Message → ℕ
longest [] = 0
longest (m ∷ ms) = max (length m.frame.payload) (longest ms)

-- A map from numbers to counts, which adds one to a key's
counted : ℕ → List (ℕ × ℕ) → List (ℕ × ℕ)
counted k [] = (k, 1) ∷ []
counted k ((j, n) ∷ m) = let rest = counted k m in if j == k then (j, n + 1) ∷ m else (j, n) ∷ rest

sizes : List Message → List (ℕ × ℕ) → List (ℕ × ℕ)
unfolding counted
sizes [] m = m
sizes (x ∷ xs) m = sizes xs (counted (length x.frame.payload) m)

counted_at : Option ℕ → List (ℕ × ℕ) → List (ℕ × ℕ)
unfolding counted
counted_at none m = m
counted_at (some b) m = counted b m

-- How often a position took each value
values_at : ℕ → List Message → List (ℕ × ℕ) → List (ℕ × ℕ)
unfolding counted_at
values_at i [] m = m
values_at i (x ∷ xs) m = values_at i xs (counted_at (get_elem? x.frame.payload i) m)

-- The loop over the first positions, `k` of them from `i` on
positions : ℕ → ℕ → List Message → List (List (ℕ × ℕ))
unfolding values_at
positions zero i ms = []
positions (suc k) i ms = values_at i ms [] ∷ positions k (i + 1) ms

first_varint : Option (ℕ × ℕ) → List ℕ → List ℕ
first_varint none vs = vs
first_varint (some (v, n)) vs = v ∷ vs

-- The values of the first varints of a type's payloads
begins : List Message → List ℕ
unfolding first_varint uvarint
begins [] = []
begins (m ∷ ms) = first_varint (uvarint m.frame.payload) (begins ms)

-- How many of the values of one type are another's
common : List ℕ → List ℕ → ℕ
common ids [] = 0
common ids (v ∷ vs) = let rest = common ids vs in if contains ids v then rest + 1 else rest

-- Another type's count, if it shares a value
shared_with : ℕ → List ℕ → List Message → ℕ → List Count → List Count
unfolding common distinct begins of_type
shared_with op ids messages o cs =
    let n = common ids (distinct (begins (of_type o messages))) in
    if not (o == op) && ltb 0 n then record { type = o; n = n } ∷ cs else cs

shared : ℕ → List ℕ → List Message → List ℕ → List Count
unfolding shared_with
shared op ids messages [] = []
shared op ids messages (o ∷ os) = shared_with op ids messages o (shared op ids messages os)

-- The order of Shared: the most first, and types of one count by their number
by_count : List Count → List Count
unfolding sort_by
by_count cs = let top = most cs in sort_by (λ c. top - c.n) (sort_by (λ c. c.type) cs)
  where
    most : List Count → ℕ
    most [] = 0
    most (c ∷ cs) = max c.n (most cs)

-- Bytes is the field bytes, and Values the field values.
pub record Detail : Type 0 where
  pub messages : List Message
  pub sizes_of : List (ℕ × ℕ)
  pub longest_n : ℕ
  pub bytes : List (List (ℕ × ℕ))
  pub values : ℕ
  pub shared_with_n : List Count

-- Type
unfoldable pub type_of : ℕ → List Message → Detail
unfolding of_type sizes longest positions begins distinct shared by_count
type_of op messages =
    let ms = of_type op messages in
    let ids = distinct (begins ms) in
    record {
      messages = ms;
      sizes_of = sizes ms [];
      longest_n = longest ms;
      bytes = positions (min (longest ms) detail_bytes) 0 ms;
      values = length ids;
      shared_with_n =
          by_count (shared op ids messages (distinct (map (λ m. m.frame.opcode) messages)));
    }
