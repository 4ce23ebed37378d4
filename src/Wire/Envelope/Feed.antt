-- ===== src/Wire/Envelope/Feed.antt =====
-- wire/envelope.go: the envelopes read one byte at a time, and strip beside that.
use a2kit.Common.{
  ℕ, zero, suc, ◌-◌, ◌≤◌, ◌<◌, ◌≡◌, refl, Bool, true, false, List, [], ◌∷◌, ◌++◌, arith, ltb,
  if◌then◌else◌, length, take, drop, u32_le, Bool-cases, inl, inr, append_assoc, append-nil, min,
  lt→ltb, ltb→lt, length-drop, sym, ◌∙◌,
}
use a2kit.Wire.Envelope.{Envelopes, believable, on_header, strip_loop, strip}

abbrev pub Stripped : Type 0
Stripped = List ℕ × Bool × Envelopes

abbrev pub prepend : List ℕ → Stripped → Stripped
prepend out r = (out ++ r.0, r.1, r.2)

-- The envelopes with one more byte of a header.
abbrev pub grow : Envelopes → ℕ → Envelopes
grow e b = record e { head = e.head ++ (b ∷ []) }

-- The reference: a body byte is kept, a header byte is not, and a header that is not believable
-- ends the envelopes and is kept with all that follows.
unfoldable pub feed : Envelopes → List ℕ → Stripped
feed e [] = ([], false, e)
feed e (b ∷ p) =
    let body = prepend (b ∷ []) (feed (record e { left = e.left - 1 }) p) in
    let more = feed (grow e b) p in
    let next = feed (on_header (grow e b)) p in
    if ltb 0 e.left
    then body
    else if ltb (length (grow e b).head) 4
    then more
    else if believable (u32_le (grow e b).head)
    then next
    else ((grow e b).head ++ p, true, record e { on = false; head = [] })

prepend_assoc : (xs ys : List ℕ) (r : Stripped) → prepend xs (prepend ys r) ≡ prepend (xs ++ ys) r
prepend_assoc xs ys r = ground (arith, append_assoc xs ys r.0)

abbrev pub after : ℕ → Envelopes → Envelopes
after n e = record e { left = e.left - n }

after-suc : (n : ℕ) (e : Envelopes) → after n (after 1 e) ≡ after (suc n) e
after-suc n e = ground arith

feed-body :
    (e : Envelopes) (b : ℕ) (p : List ℕ)
    → 0 < e.left
    → feed e (b ∷ p) ≡ prepend (b ∷ []) (feed (after 1 e) p)
unfolding feed
feed-body e b p h = rw (lt→ltb 0 e.left h)

pub feed_body :
    (n : ℕ) (e : Envelopes) (p : List ℕ)
    → n ≤ e.left
    → n ≤ length p
    → feed e p ≡ prepend (take n p) (feed (after n e) (drop n p))
feed_body zero e p h g = ground arith
feed_body (suc n) e [] h g = absurd (omega arith)
feed_body (suc n) e (b ∷ p) h g =
    rw
      (
        feed-body e b p (omega arith),
        feed_body n (after 1 e) p (omega arith) (omega arith),
        after-suc n e,
      )
      refl

-- How many bytes of the body a round takes.
abbrev part : Envelopes → List ℕ → ℕ
part e p = min (length p) e.left

strip_loop-body :
    (k : ℕ) (e : Envelopes) (out : List ℕ) (b : ℕ) (p : List ℕ)
    → 0 < e.left
    → strip_loop (suc k) e out (b ∷ p)
      ≡ strip_loop k
          (after (part e (b ∷ p)) e)
          (out ++ take (part e (b ∷ p)) (b ∷ p))
          (drop (part e (b ∷ p)) (b ∷ p))
unfolding strip_loop
strip_loop-body k e out b p h = rw (lt→ltb 0 e.left h)

feed-part :
    (e : Envelopes) (out p : List ℕ)
    → prepend (out ++ take (part e p) p) (feed (after (part e p) e) (drop (part e p) p))
      ≡ prepend out (feed e p)
feed-part e out p =
    rw (feed_body (part e p) e p (omega arith) (omega arith)) (sym (prepend_assoc out _ _))

-- A round at a header, if the rounds after it agree.
strip_loop-head :
    (k : ℕ) (e : Envelopes) (out : List ℕ) (b : ℕ) (p : List ℕ)
    → ltb 0 e.left ≡ false
    → strip_loop k (grow e b) out p ≡ prepend out (feed (grow e b) p)
    → strip_loop k (on_header (grow e b)) out p ≡ prepend out (feed (on_header (grow e b)) p)
    → strip_loop (suc k) e out (b ∷ p) ≡ prepend out (feed e (b ∷ p))
unfolding strip_loop feed
strip_loop-head k e out b p h f g = ground (arith, append_assoc out (grow e b).head p)

strip_loop-feed :
    (k : ℕ) (e : Envelopes) (out p : List ℕ)
    → length p ≤ k
    → strip_loop k e out p ≡ prepend out (feed e p)
strip_loop-feed k e out [] h = unfold strip_loop feed in ground (arith, append-nil out)
strip_loop-feed zero e out (b ∷ p) h = absurd (omega arith)
strip_loop-feed (suc k) e out (b ∷ p) h = elim (Bool-cases (ltb 0 e.left)) [
  | inl body ↦
      strip_loop-body k e out b p (ltb→lt 0 e.left body)
      ∙ strip_loop-feed k (after (part e (b ∷ p)) e) (out ++ take (part e (b ∷ p)) (b ∷ p))
          (drop (part e (b ∷ p)) (b ∷ p))
          (omega (arith, length-drop (part e (b ∷ p)) (b ∷ p), ltb→lt 0 e.left body))
      ∙ feed-part e out (b ∷ p)
  | inr head ↦
      strip_loop-head k e out b p head (strip_loop-feed k (grow e b) out p (omega arith))
        (strip_loop-feed k (on_header (grow e b)) out p (omega arith))
]

-- strip does to its bytes, in pieces, what the reference does to them one by one.
pub strip-feed : (e : Envelopes) (p : List ℕ) → strip e p ≡ feed e p
unfolding strip
strip-feed e p = strip_loop-feed (length p) e [] p (omega arith)
