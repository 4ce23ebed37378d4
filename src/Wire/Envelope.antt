-- ===== src/Wire/Envelope.antt =====
-- wire/envelope.go: the u32le length headers of a stream whose frames come in envelopes.
pub mod Feed
pub mod Strip
pub mod Progress
use a2kit.Common.{
  ℕ, zero, suc, ◌+◌, ◌-◌, min, Bool, true, false, not, ◌&&◌, List, [], ◌∷◌, ◌++◌, ltb, leb,
  if◌then◌else◌, length, take, drop, u32_le,
}
use a2kit.Wire.Scan.{Scan, new_scan, Verdict}

abbrev pub min_envelope : ℕ
min_envelope = 8

abbrev pub max_envelope : ℕ
max_envelope = 1000000

-- `head` is the header bytes received so far, and its length is the field have.
pub record Envelopes : Type 0 where
  pub on : Bool
  pub lost : Bool
  pub left : ℕ
  pub head : List ℕ
  pub search : Scan

abbrev pub no_envelopes : Envelopes
no_envelopes = record { on = false; lost = false; left = 0; head = []; search = new_scan }

unfoldable pub believable : ℕ → Bool
believable n = leb min_envelope n && leb n max_envelope

unfoldable pub skip : ℕ → Envelopes → Envelopes
skip n e =
    if not e.lost && leb n e.left
    then record e { left = e.left - n }
    else record e { lost = true; left = 0; head = []; search = new_scan }

-- What a header asks for, once its four bytes are there.
abbrev on_header : Envelopes → Envelopes
on_header e = record e { left = u32_le e.head; head = [] }

-- strip's loop: the bytes left, the bytes put out, and whether the envelopes ended. A round takes a
-- byte at least, so as many rounds as bytes are enough.
unfoldable pub strip_loop : ℕ → Envelopes → List ℕ → List ℕ → List ℕ × Bool × Envelopes
strip_loop k e out [] = (out, false, e)
strip_loop zero e out (b ∷ p) = (out, false, e)
strip_loop (suc k) e out (b ∷ p) =
    let n = min (length (b ∷ p)) e.left in
    let body =
      strip_loop k (record e { left = e.left - n }) (out ++ take n (b ∷ p)) (drop n (b ∷ p)) in
    let e' = record e { head = e.head ++ (b ∷ []) } in
    let more = strip_loop k e' out p in
    let next = strip_loop k (on_header e') out p in
    if ltb 0 e.left
    then body
    else if ltb (length e'.head) 4
    then more
    else if believable (u32_le e'.head)
    then next
    else (out ++ e'.head ++ p, true, record e' { on = false; head = [] })

unfoldable pub strip : Envelopes → List ℕ → List ℕ × Bool × Envelopes
unfolding strip_loop believable
strip e p = strip_loop (length p) e [] p

-- chain's loop, with the rounds left first
chain_loop : ℕ → List ℕ → ℕ → ℕ → Verdict
chain_loop zero p h far = Verdict.yes
chain_loop (suc k) p h far =
    let h' = h + 4 + u32_le (drop h p) in
    let next = chain_loop k p h' far in
    if ltb far (h' + 4)
    then Verdict.no
    else if ltb (length p) (h' + 4)
    then Verdict.maybe
    else if not (believable (u32_le (drop h' p)))
    then Verdict.no
    else next

unfoldable pub chain : List ℕ → ℕ → ℕ → Verdict
unfolding chain_loop believable
chain p h far = chain_loop 2 p h far
