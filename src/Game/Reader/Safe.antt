-- ===== src/Game/Reader/Safe.antt =====
-- Reads that stay within the payload and stop at the first failure, and the rules that build them.
use a2kit.Common.{
  ℕ, zero, suc, ◌≤◌, ◌≡◌, refl, ◌∙◌, Bool, true, false, ◌∷◌, Option, none, some, arith, length,
  length-drop, if◌then◌else◌, drop,
}
use a2kit.Game.Std.{uvarint}
use a2kit.Game.Std.Width.{uvarint_width}
use a2kit.Game.Reader.{
  Reader, Read, pure, ◌>>=◌, fail_if, end, take_bytes, skip, peek, u8, u16, u32, u64, times,
  remaining, u32s, pos, accept_varint, varint, small, name,
}

-- From a reader within its payload: the payload stays, the index never goes back or past the end,
-- and after a failure nothing moves.
pub record Follows (r s : Reader) : Type 0 where
  pub same : s.p ≡ r.p
  pub onward : r.i ≤ s.i
  pub inside : s.i ≤ length r.p
  pub stays_bad : r.bad ≡ true → s.bad ≡ true
  pub stays_put : r.bad ≡ true → s.i ≡ r.i

pub record IsSafe {ℓ} {A : Type ℓ} (m : Read A) : Type ℓ where
  pub at : (r : Reader) → r.i ≤ length r.p → Follows r (m r).1

Follows-refl : (r : Reader) → r.i ≤ length r.p → Follows r r
Follows-refl r h = ground arith

Follows-trans : {r s t : Reader} → Follows r s → Follows s t → Follows r t
Follows-trans {r} {s} {t} f g = record {
  same = g.same ∙ f.same;
  onward = omega arith;
  inside = rw (f.same) at g.inside;
  stays_bad = λ b. g.stays_bad (f.stays_bad b);
  stays_put = λ b. g.stays_put (f.stays_bad b) ∙ f.stays_put b;
}

module _ {ℓ} {A : Type ℓ} where
  pub pure-IsSafe : (a : A) → IsSafe (pure a)
  unfolding pure
  pure-IsSafe a = record { at = λ r h. Follows-refl r h }

  pub if-IsSafe : (b : Bool) (m n : Read A) → IsSafe m → IsSafe n → IsSafe (if b then m else n)
  if-IsSafe true m n hm hn = hm
  if-IsSafe false m n hm hn = hn

module _ {ℓ} {A B : Type ℓ} where
  pub bind-IsSafe :
      (m : Read A) (f : A → Read B) → IsSafe m → ((a : A) → IsSafe (f a)) → IsSafe (m >>= f)
  unfolding ◌>>=◌
  bind-IsSafe m f hm hf = record {
    at = λ r h.
        let s : Follows r (m r).1 = hm.at r h in
        Follows-trans s ((hf (m r).0).at (m r).1 (rw s.same s.inside));
  }

pub fail_if-IsSafe : (b : Bool) → IsSafe (fail_if b)
unfolding fail_if
fail_if-IsSafe b = record { at = λ r h. ground arith }

pub end-IsSafe : IsSafe end
unfolding end
end-IsSafe = record { at = λ r h. ground arith }

pub take_bytes-IsSafe : (n : ℕ) → IsSafe (take_bytes n)
unfolding take_bytes
take_bytes-IsSafe n = record { at = λ r h. ground arith }

pub peek-IsSafe : (n : ℕ) → IsSafe (peek n)
unfolding peek
peek-IsSafe n = record { at = λ r h. ground arith }

pub remaining-IsSafe : IsSafe remaining
unfolding remaining
remaining-IsSafe = record { at = λ r h. ground arith }

accept_varint-Follows :
    (r : Reader) (o : Option (ℕ × ℕ))
    → uvarint (drop r.i r.p) ≡ o
    → r.i ≤ length r.p
    → r.bad ≡ false
    → Follows r (accept_varint o r).1
unfolding accept_varint
accept_varint-Follows r none e h g = ground arith
accept_varint-Follows r (some (v, n)) e h g =
    ground (arith, uvarint_width (drop r.i r.p) v n e, length-drop r.i r.p)

pub varint-IsSafe : IsSafe varint
unfolding varint
varint-IsSafe = record {
  at = λ r h.
      ground (arith, Follows-refl r h, accept_varint-Follows r (uvarint (drop r.i r.p)) refl h);
}

pub ruleset base = (pure-IsSafe, bind-IsSafe, if-IsSafe, fail_if-IsSafe, take_bytes-IsSafe)

pub skip-IsSafe : (n : ℕ) → IsSafe (skip n)
unfolding skip
skip-IsSafe n = search base

pub u8-IsSafe : IsSafe u8
unfolding u8
u8-IsSafe = search base

pub u16-IsSafe : IsSafe u16
unfolding u16
u16-IsSafe = search base

pub u32-IsSafe : IsSafe u32
unfolding u32
u32-IsSafe = search base

pub u64-IsSafe : IsSafe u64
unfolding u64
u64-IsSafe = search base

pub small-IsSafe : IsSafe small
unfolding small
small-IsSafe = search (base, varint-IsSafe)

pub name-IsSafe : IsSafe name
unfolding name
name-IsSafe = search (base, u8-IsSafe)

pub times-IsSafe {ℓ} : {A : Type ℓ} (n : ℕ) (m : Read A) → IsSafe m → IsSafe (times n m)
unfolding times
times-IsSafe zero m h = search base
times-IsSafe (suc n) m h =
    bind-IsSafe _ _ h (λ a. bind-IsSafe _ _ (times-IsSafe n m h) (λ rest. pure-IsSafe (a ∷ rest)))

pub ruleset safe_rules = (
  base, end-IsSafe, peek-IsSafe, remaining-IsSafe, varint-IsSafe, skip-IsSafe, u8-IsSafe,
  u16-IsSafe, u32-IsSafe, u64-IsSafe, small-IsSafe, name-IsSafe,
)

pub u32s-IsSafe : IsSafe u32s
unfolding u32s
u32s-IsSafe = search (safe_rules, times-IsSafe)

pub pos-IsSafe : IsSafe pos
unfolding pos
pos-IsSafe = search safe_rules
