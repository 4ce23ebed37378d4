-- ===== src/Wire/Envelope/Strip.antt =====
-- wire/envelope.go: strip on a stream cut into writes, and on envelopes put together.
use a2kit.Common.{
  ℕ, ◌-◌, ◌/◌, ◌%◌, ◌^◌, ◌≤◌, ◌≡◌, refl, sym, ◌∙◌, Bool, true, false, List, [], ◌∷◌, ◌++◌, arith,
  length, u32_le, append_assoc, All, length-append, take-length_append, drop-length_append,
}
use mathlib.Core.Path.{subst}
use a2kit.Wire.Scan.{Scan}
use a2kit.Wire.Envelope.{Envelopes, believable, min_envelope, max_envelope, strip, on_header}
use a2kit.Wire.Envelope.Feed.{Stripped, prepend, grow, feed, strip-feed, feed_body}

-- Two writes, one after the other: once the envelopes have ended, bytes are kept as they are.
abbrev pub then_strip : Stripped → List ℕ → Stripped
then_strip (out, true, e) q = (out ++ q, true, e)
then_strip (out, false, e) q = prepend out (strip e q)

then_strip-prepend :
    (xs q : List ℕ) (r : Stripped) → then_strip (prepend xs r) q ≡ prepend xs (then_strip r q)
then_strip-prepend xs q (out, true, e) = ground (arith, append_assoc xs out q)
then_strip-prepend xs q (out, false, e) = ground (arith, append_assoc xs out (strip e q).0)

feed-append : (e : Envelopes) (p q : List ℕ) → feed e (p ++ q) ≡ then_strip (feed e p) q
unfolding feed
feed-append e [] q = sym (strip-feed e q)
feed-append e (b ∷ p) q = ground (
  arith,
  feed-append (record e { left = e.left - 1 }) p q,
  feed-append (grow e b) p q,
  feed-append (on_header (grow e b)) p q,
  then_strip-prepend (b ∷ []) q (feed (record e { left = e.left - 1 }) p),
  append_assoc (grow e b).head p q,
)

-- Stripping a stream gives the same bytes and the same state wherever it is cut in two writes.
pub strip-append : (e : Envelopes) (p q : List ℕ) → strip e (p ++ q) ≡ then_strip (strip e p) q
strip-append e p q = rw (strip-feed e (p ++ q), strip-feed e p) (feed-append e p q)

-- The four bytes of a u32le.
abbrev pub u32_bytes : ℕ → List ℕ
u32_bytes v = v % 256 ∷ v / 2 ^ 8 % 256 ∷ v / 2 ^ 16 % 256 ∷ v / 2 ^ 24 % 256 ∷ []

-- Bodies, each behind a header with its length.
abbrev pub wrap : List (List ℕ) → List ℕ
wrap [] = []
wrap (b ∷ bs) = (u32_bytes (length b) ++ b) ++ wrap bs

abbrev pub join : List (List ℕ) → List ℕ
join [] = []
join (b ∷ bs) = b ++ join bs

-- Between two envelopes.
abbrev pub IsBetween : Envelopes → Type 0
IsBetween e = (e.left ≡ 0) × (e.head ≡ [])

abbrev pub Fits : List ℕ → Type 0
Fits b = (min_envelope ≤ length b) × (length b ≤ max_envelope)

abbrev at_header : Bool → Bool → ℕ → Scan → Envelopes
at_header on lost left search = record {
  on = on;
  lost = lost;
  left = left;
  head = [];
  search = search;
}

feed-header :
    (on lost : Bool) (search : Scan) (a b c d : ℕ) (p : List ℕ)
    → believable (u32_le (a ∷ b ∷ c ∷ d ∷ [])) ≡ true
    → feed (at_header on lost 0 search) (a ∷ b ∷ c ∷ d ∷ p)
      ≡ feed (at_header on lost (u32_le (a ∷ b ∷ c ∷ d ∷ [])) search) p
unfolding feed
feed-header on lost search a b c d p h = rw h

u32_le-u32_bytes : (v : ℕ) → v ≤ max_envelope → u32_le (u32_bytes v) ≡ v
u32_le-u32_bytes v h = omega arith

Fits-believable : (b : List ℕ) → Fits b → believable (length b) ≡ true
unfolding believable
Fits-believable b h = ground arith

feed-wrap_one :
    (on lost : Bool) (search : Scan) (b rest : List ℕ)
    → Fits b
    → feed (at_header on lost 0 search) ((u32_bytes (length b) ++ b) ++ rest)
      ≡ prepend b (feed (at_header on lost 0 search) rest)
feed-wrap_one on lost search b rest h =
    let n = length b in
    let e = u32_le-u32_bytes n h.1 in
    let none_left : n - n ≡ 0 = omega arith in
    feed-header on lost search (n % 256) (n / 2 ^ 8 % 256) (n / 2 ^ 16 % 256) (n / 2 ^ 24 % 256)
      (b ++ rest) (rw e (Fits-believable b h))
    ∙ rw
        (
          e,
          feed_body n (at_header on lost n search) (b ++ rest) (omega arith)
              (omega (arith, length-append b rest)),
          take-length_append b rest,
          drop-length_append b rest,
        )
        (rw none_left)

feed-wrap :
    (on lost : Bool) (search : Scan) (bs : List (List ℕ))
    → All Fits bs
    → feed (at_header on lost 0 search) (wrap bs) ≡ (join bs, false, at_header on lost 0 search)
feed-wrap on lost search [] h = unfold feed in refl
feed-wrap on lost search (b ∷ bs) h =
    feed-wrap_one on lost search b (wrap bs) h.0 ∙ rw (feed-wrap on lost search bs h.1)

-- Bodies of 8 to 1000000 bytes, each put behind a header with its length, come out of strip one
-- after the other, with no header left, and the stream is between two envelopes again.
pub strip-wrap :
    (e : Envelopes) (bs : List (List ℕ))
    → IsBetween e
    → All Fits bs
    → strip e (wrap bs) ≡ (join bs, false, e)
strip-wrap e bs (left, head) h =
    let same : at_header e.on e.lost 0 e.search ≡ e = ground arith in
    subst (λ x. strip x (wrap bs) ≡ (join bs, false, x)) same
      (strip-feed (at_header e.on e.lost 0 e.search) (wrap bs)
        ∙ feed-wrap e.on e.lost e.search bs h)
