-- ===== src/Wire/Decoder/Table/Orderly.antt =====
-- wire/decoder.go: the keys in the table, and the streams that no longer hunt. `anchor` is the server
-- of the lock, or of the one before.
use a2kit.Common.{
  ℕ, ◌+◌, ◌≤◌, ◌≡◌, refl, Bool, true, false, ◌||◌, List, [], ◌∷◌, Option, none, some, All, arith,
  if_cases, if◌then◌else◌, ◌==◌, ◌⊎◌, inl, inr,
}
use a2kit.Wire.Frame.{same_addr}
use a2kit.Wire.Decoder.State.{Key, reverse, same_key, Stream, Decoder, count}
use a2kit.Wire.Decoder.Early.{payloads}
use a2kit.Wire.Decoder.Table.{
  lookup, remove, is_srv, unlock_all, unlock, forget, drop, drop_all, expired, keys_if, sweep,
}

-- 1 for a key that is `j`
abbrev pub times : Key → Key → ℕ
times j k = if same_key k j then 1 else 0

-- The streams with a key
unfoldable pub with_key : Key → List Stream → ℕ
with_key j [] = 0
with_key j (st ∷ sts) = times j st.key + with_key j sts

-- Of the pair of a server
abbrev pub in_pair : Key → Key → Bool
in_pair s k = same_key s k || same_key s (reverse k)

-- A stream that hunts, or is of the pair
abbrev pub Placed : Key → Key → ℕ → Type 0
Placed s k dir = dir == 0 || in_pair s k ≡ true

-- The same, with the bytes of its early frames counted
abbrev pub Fits : Key → Stream → Type 0
Fits s st = Placed s st.key st.dir × (st.early_bytes ≡ payloads st.early)

-- A lock on no other server than `s`
abbrev pub IsAt : Key → Option Key → Type 0
IsAt s none = Unit
IsAt s (some t) = s ≡ t

-- A table with each key once, in which all streams hunt but for the pair of one server, which is the
-- lock's if there is a lock
pub record IsOrderly (sts : List Stream) (srv : Option Key) : Type 0 where
  pub once : (j : Key) → with_key j sts ≤ 1
  pub anchor : Key
  pub fits : All (Fits anchor) sts
  pub at : IsAt anchor srv

pub same_key→eq : (j k : Key) → same_key j k ≡ true → j ≡ k
unfolding same_key same_addr
same_key→eq j k h = ground arith

pub same_key_refl : (k : Key) → same_key k k ≡ true
unfolding same_key same_addr
same_key_refl k = ground arith

pub same_key-true : (j k : Key) → same_key j k ≡ true → same_key k j ≡ true
same_key-true j k h = rw (same_key→eq j k h) (same_key_refl k)

pub or_true : (a b : Bool) → a || b ≡ true → (a ≡ true) ⊎ (b ≡ true)
or_true true b h = inl refl
or_true false b h = inr h

-- A key of the pair is one of the two.
pub in_pair-times : (s k : Key) → in_pair s k ≡ true → 1 ≤ times s k + times (reverse s) k
in_pair-times s k h = elim (or_true (same_key s k) (same_key s (reverse k)) h) [
  | inl y ↦ rw (same_key-true s k y) (omega arith)
  | inr n ↦ rw (same_key→eq s (reverse k) n, same_key_refl k) (omega arith)
]

or_swap : (a b : Bool) → a || b ≡ true → b || a ≡ true
or_swap a b h = ground arith

pub in_pair-reverse : (s k : Key) → in_pair s (reverse k) ≡ true → in_pair s k ≡ true
in_pair-reverse s k h = or_swap (same_key s (reverse k)) (same_key s k) h

-- A stream that unlock resets
abbrev pub reset : Stream → Stream
reset st = record st { fr = record st.fr { resyncs = 0 }; dir = 0; frames = 0 }

-- A decoder with no other streams than before, some of them reset, and the lock or none
pub record Shrunk (d e : Decoder) : Type 1 where
  pub fewer : (j : Key) → with_key j e.streams ≤ with_key j d.streams
  pub left :
      (P : Stream → Type 0)
      → ((st : Stream) → P st → P (reset st))
      → All P d.streams
      → All P e.streams
  pub lock : (R : Option Key → Type 0) → R none → R d.srv → R e.srv

pub shrunk : (d : Decoder) → Shrunk d d
shrunk d = record { fewer = λ j. omega arith; left = λ P r h. h; lock = λ R n h. h }

pub Shrunk-trans : (a b c : Decoder) → Shrunk a b → Shrunk b c → Shrunk a c
Shrunk-trans a b c f g = record {
  fewer = λ j. omega (arith, f.fewer j, g.fewer j);
  left = λ P r h. g.left P r (f.left P r h);
  lock = λ R n h. g.lock R n (f.lock R n h);
}

pub Shrunk-IsOrderly :
    (d e : Decoder) → Shrunk d e → IsOrderly d.streams d.srv → IsOrderly e.streams e.srv
Shrunk-IsOrderly d e f h = record {
  once = λ j. omega (arith, f.fewer j, h.once j);
  anchor = h.anchor;
  fits = f.left (Fits h.anchor) (λ st g. (refl, g.1)) h.fits;
  at = f.lock (IsAt h.anchor) tt h.at;
}

pub with_key-remove : (j k : Key) (sts : List Stream) → with_key j (remove k sts) ≤ with_key j sts
unfolding with_key remove
with_key-remove j k [] = omega arith
with_key-remove j k (st ∷ sts) =
    if_cases (λ l. with_key j l ≤ with_key j (st ∷ sts)) (same_key st.key k) (remove k sts)
      (st ∷ remove k sts) (λ _. omega (arith, with_key-remove j k sts))
      λ _. omega (arith, with_key-remove j k sts)

pub remove-Every :
    (P : Stream → Type 0) (k : Key) (sts : List Stream) → All P sts → All P (remove k sts)
unfolding remove
remove-Every P k [] h = tt
remove-Every P k (st ∷ sts) (h, hs) =
    if_cases (All P) (same_key st.key k) (remove k sts) (st ∷ remove k sts)
      (λ _. remove-Every P k sts hs) λ _. (h, remove-Every P k sts hs)

-- Of a stream, if there is one
abbrev pub IfAny : (Stream → Type 0) → Option Stream → Type 0
IfAny P none = Unit
IfAny P (some st) = P st

pub lookup-IfAny :
    (P : Stream → Type 0) (k : Key) (sts : List Stream) → All P sts → IfAny P (lookup k sts)
unfolding lookup
lookup-IfAny P k [] h = tt
lookup-IfAny P k (st ∷ sts) (h, hs) =
    if_cases (IfAny P) (same_key st.key k) (some st) (lookup k sts) (λ _. h)
      λ _. lookup-IfAny P k sts hs

-- What lookup answers for a key
abbrev pub Looked : Key → List Stream → Option Stream → Type 0
Looked k sts none = with_key k sts ≡ 0
Looked k sts (some st) =
    (st.key ≡ k) × ((j : Key) → times j st.key + with_key j (remove k sts) ≤ with_key j sts)

Looked-next :
    (k : Key) (x : Stream) (sts : List Stream) (o : Option Stream)
    → same_key x.key k ≡ false
    → Looked k sts o
    → Looked k (x ∷ sts) o
unfolding with_key remove
Looked-next k x sts none n h = rw n (omega (arith, h))
Looked-next k x sts (some st) n h = (h.0, λ j. rw n (omega (arith, h.1 j)))

pub lookup-Looked : (k : Key) (sts : List Stream) → Looked k sts (lookup k sts)
unfolding lookup with_key remove
lookup-Looked k [] = refl
lookup-Looked k (st ∷ sts) =
    if_cases (Looked k (st ∷ sts)) (same_key st.key k) (some st) (lookup k sts)
      (λ y. (same_key→eq st.key k y, λ j. rw y (omega (arith, with_key-remove j k sts))))
      λ n. Looked-next k st sts (lookup k sts) n (lookup-Looked k sts)

with_key-unlock_all :
    (j : Key) (sts : List Stream) (d : Decoder)
    → with_key j (unlock_all sts d).streams ≡ with_key j sts
unfolding with_key unlock_all
with_key-unlock_all j [] d = refl
with_key-unlock_all j (st ∷ sts) d =
    omega (arith, with_key-unlock_all j sts (record d { stats = count st d.stats }))

unlock_all-All :
    (P : Stream → Type 0) (r : (st : Stream) → P st → P (reset st)) (sts : List Stream)
    (d : Decoder)
    → All P sts
    → All P (unlock_all sts d).streams
unfolding unlock_all
unlock_all-All P r [] d h = tt
unlock_all-All P r (st ∷ sts) d (h, hs) =
    (r st h, unlock_all-All P r sts (record d { stats = count st d.stats }) hs)

unlock_all-srv : (sts : List Stream) (d : Decoder) → (unlock_all sts d).srv ≡ d.srv
unfolding unlock_all
unlock_all-srv [] d = refl
unlock_all-srv (st ∷ sts) d = unlock_all-srv sts (record d { stats = count st d.stats })

pub unlock-srv : (d : Decoder) → (unlock d).srv ≡ none
unfolding unlock
unlock-srv d = unlock_all-srv d.streams (record d { srv = none })

pub unlock-Shrunk : (d : Decoder) → Shrunk d (unlock d)
unfolding unlock
unlock-Shrunk d =
    let e : Decoder = record d { srv = none } in
    record {
      fewer = λ j. omega (arith, with_key-unlock_all j d.streams e);
      left = λ P r h. unlock_all-All P r d.streams e h;
      lock = λ R n h. rw (unlock_all-srv d.streams e) n;
    }

forget-Shrunk : (st : Stream) (d : Decoder) → Shrunk d (forget st d)
unfolding forget
forget-Shrunk st d = record {
  fewer = λ j. with_key-remove j st.key d.streams;
  left = λ P r h. remove-Every P st.key d.streams h;
  lock = λ R n h. h;
}

pub drop-Shrunk : (k : Key) (d : Decoder) → Shrunk d (drop k d)
unfolding drop
drop-Shrunk k d = found (lookup k d'.streams)
  where
    d' : Decoder
    d' = if is_srv k d.srv then unlock d else d

    first : Shrunk d d'
    first = if_cases (Shrunk d) (is_srv k d.srv) (unlock d) d (λ _. unlock-Shrunk d) λ _. shrunk d

    found :
        (o : Option Stream)
        → Shrunk d (elim o as (λ x. Decoder) [ none ↦ d' | some st ↦ forget st d' ])
    found none = first
    found (some st) = Shrunk-trans d d' (forget st d') first (forget-Shrunk st d')

pub drop_all-Shrunk : (ks : List Key) (d : Decoder) → Shrunk d (drop_all ks d)
unfolding drop_all
drop_all-Shrunk [] d = shrunk d
drop_all-Shrunk (k ∷ ks) d =
    Shrunk-trans d (drop k d) (drop_all ks (drop k d)) (drop-Shrunk k d)
      (drop_all-Shrunk ks (drop k d))

pub sweep-Shrunk : (t : ℕ) (d : Decoder) → Shrunk d (sweep t d)
unfolding sweep
sweep-Shrunk t d =
    if_cases (Shrunk d) (d.closing == 0) d _ (λ _. shrunk d)
      λ _. drop_all-Shrunk (keys_if (expired t) d.streams) d
