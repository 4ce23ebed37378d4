-- ===== src/Wire/Decoder/Lock/Pair.antt =====
-- wire/decoder.go: the drop of every stream but a pair.
use a2kit.Common.{
  ℕ, ◌+◌, ◌≡◌, refl, Bool, true, false, ◌||◌, List, [], ◌∷◌, Option, none, some, All, All-map,
  arith, if_cases, if◌then◌else◌,
}
use a2kit.Wire.Decoder.State.{Key, same_key, Stream, Decoder}
use a2kit.Wire.Decoder.Table.{lookup, remove, is_srv, unlock, forget, drop, drop_all}
use a2kit.Wire.Decoder.Table.Orderly.{
  with_key, Looked, lookup-Looked, unlock-Shrunk, same_key_refl, same_key→eq,
}
use a2kit.Wire.Decoder.Lock.{keys_but}

mem_key : Key → List Key → Bool
mem_key k [] = false
mem_key k (j ∷ js) = same_key k j || mem_key k js

-- A stream of key `q`, or of one of the keys to drop
abbrev Among : Key → List Key → Stream → Type 0
Among q ks st = same_key st.key q || mem_key st.key ks ≡ true

or_weak : (a b c : Bool) → a || c ≡ true → a || (b || c) ≡ true
or_weak a b c h = ground arith

or_drop : (a b c : Bool) → b ≡ false → a || (b || c) ≡ true → a || c ≡ true
or_drop a b c n h = ground arith

or_first : (a b : Bool) → a ≡ true → a || b ≡ true
or_first a b h = ground arith

none_of : (b : Bool) (n : ℕ) → (if b then 1 else 0) + n ≡ 0 → b ≡ false
none_of true n h = absurd (omega (arith, h))
none_of false n h = refl

absent-Among :
    (q k : Key) (ks : List Key) (sts : List Stream)
    → with_key k sts ≡ 0
    → All (Among q (k ∷ ks)) sts
    → All (Among q ks) sts
unfolding with_key mem_key
absent-Among q k ks [] z h = tt
absent-Among q k ks (st ∷ sts) z (h, hs) = (
  or_drop (same_key st.key q) (same_key st.key k) (mem_key st.key ks)
      (none_of (same_key st.key k) (with_key k sts) z) h,
  absent-Among q k ks sts (omega (arith, z)) hs,
)

remove-Among :
    (q k : Key) (ks : List Key) (sts : List Stream)
    → All (Among q (k ∷ ks)) sts
    → All (Among q ks) (remove k sts)
unfolding remove mem_key
remove-Among q k ks [] h = tt
remove-Among q k ks (st ∷ sts) (h, hs) =
    if_cases (All (Among q ks)) (same_key st.key k) (remove k sts) (st ∷ remove k sts)
      (λ _. remove-Among q k ks sts hs)
      λ n. (
        or_drop (same_key st.key q) (same_key st.key k) (mem_key st.key ks) n h,
        remove-Among q k ks sts hs,
      )

drop-Among :
    (q k : Key) (ks : List Key) (d : Decoder)
    → All (Among q (k ∷ ks)) d.streams
    → All (Among q ks) (drop k d).streams
unfolding drop forget
drop-Among q k ks d h = found (lookup k d'.streams) (lookup-Looked k d'.streams)
  where
    d' : Decoder
    d' = if is_srv k d.srv then unlock d else d

    first : All (Among q (k ∷ ks)) d'.streams
    first =
        if_cases (λ e. All (Among q (k ∷ ks)) e.streams) (is_srv k d.srv) (unlock d) d
          (λ _. (unlock-Shrunk d).left (Among q (k ∷ ks)) (λ st g. g) h) λ _. h

    found :
        (o : Option Stream)
        → Looked k d'.streams o
        → All (Among q ks) (elim o as (λ x. Decoder) [ none ↦ d' | some st ↦ forget st d' ]).streams
    found none z = absent-Among q k ks d'.streams z first
    found (some st) (e, l) = rw e (remove-Among q k ks d'.streams first)

drop_all-Among :
    (q : Key) (ks : List Key) (d : Decoder)
    → All (Among q ks) d.streams
    → All (Among q []) (drop_all ks d).streams
unfolding drop_all
drop_all-Among q [] d h = h
drop_all-Among q (k ∷ ks) d h = drop_all-Among q ks (drop k d) (drop-Among q k ks d h)

keys_but-Among : (q : Key) (sts : List Stream) → All (Among q (keys_but q sts)) sts
unfolding keys_but mem_key
keys_but-Among q [] = tt
keys_but-Among q (st ∷ sts) =
    if_cases (λ ks. All (Among q ks) (st ∷ sts)) (same_key st.key q) (keys_but q sts)
      (st.key ∷ keys_but q sts)
      (λ y.
        (or_first (same_key st.key q) (mem_key st.key (keys_but q sts)) y, keys_but-Among q sts))
      λ n. (
        rw (n, same_key_refl st.key) refl,
        All-map (Among q (keys_but q sts)) (Among q (st.key ∷ keys_but q sts))
            (λ s g.
              or_weak (same_key s.key q) (same_key s.key st.key) (mem_key s.key (keys_but q sts)) g)
            sts (keys_but-Among q sts),
      )

one_key : (q : Key) (st : Stream) → Among q [] st → st.key ≡ q
unfolding mem_key
one_key q st h = same_key→eq st.key q (ground arith)

-- What is left has the one key.
pub drop_all-keys_but :
    (q : Key) (d : Decoder) → All (λ st. st.key ≡ q) (drop_all (keys_but q d.streams) d).streams
drop_all-keys_but q d =
    All-map (Among q []) (λ st. st.key ≡ q) (one_key q) _
      (drop_all-Among q (keys_but q d.streams) d (keys_but-Among q d.streams))
