-- ===== src/Game/Reader/Exact.antt =====
-- Reads that accept a payload only if they took all of it, and the rules that build them.
use a2kit.Common.{◌≡◌, Bool, true, false, Option, none, some, arith, length, if◌then◌else◌}
use a2kit.Game.Reader.{Reader, Read, pure, ◌>>=◌, end}

pub record IsExact {A : Type 0} (m : Read (Option A)) : Type 0 where
  pub at :
      (r : Reader) (a : A) → (m r).0 ≡ some a → (m r).1.bad ≡ false → (m r).1.i ≡ length (m r).1.p

module _ {A : Type 0} where
  pub none-IsExact : IsExact (pure {A = Option A} none)
  unfolding pure
  none-IsExact = record { at = λ r a e g. cc }

  pub end-IsExact : (a : Option A) → IsExact (end >>= λ _. pure a)
  unfolding ◌>>=◌ end pure
  end-IsExact a = record { at = λ r b e g. ground arith }

  pub if-IsExact :
      (b : Bool) (m n : Read (Option A)) → IsExact m → IsExact n → IsExact (if b then m else n)
  if-IsExact true m n hm hn = hm
  if-IsExact false m n hm hn = hn

  pub bind-IsExact :
      {B : Type 0} (m : Read B) (f : B → Read (Option A))
      → ((b : B) → IsExact (f b))
      → IsExact (m >>= f)
  unfolding ◌>>=◌
  bind-IsExact m f h = record { at = λ r a e g. (h (m r).0).at (m r).1 a e g }

pub ruleset exact_rules = (end-IsExact, none-IsExact, if-IsExact, bind-IsExact)
