-- ===== src/Wire/Decoder/Table/Room.antt =====
-- wire/decoder.go: stream, which finds room in the table, and admit.
use a2kit.Common.{
  ℕ, ◌+◌, ◌≤◌, ◌≡◌, refl, Bool, true, false, ◌||◌, List, [], ◌∷◌, Option, none, some, All, arith,
  if_cases, length, leb, ltb, if◌then◌else◌, ◌==◌, Bool-cases, inl, inr, leb→le,
}
use a2kit.Common.Results.{◌>>=◌}
use a2kit.Wire.Frame.{Frame, from_client}
use a2kit.Wire.Decoder.State.{Key, reverse, same_key, Stream, Decoder, is_set, max_streams}
use a2kit.Wire.Decoder.Early.{payloads}
use a2kit.Wire.Decoder.Reassembly.Held.{IsHeld}
use a2kit.Wire.Decoder.Table.Streams.{AllHeld, BothHeld, remove-All, drop-AllHeld}
use a2kit.Wire.Decoder.Table.{
  Focus, lookup, remove, drop, staler, older, stalest, make_room, add, stream, unlock, sweep,
  admit_locked, admit,
}
use a2kit.Wire.Decoder.Table.Orderly.{
  times, with_key, in_pair, Placed, Fits, IsAt, IsOrderly, Shrunk-IsOrderly, drop-Shrunk,
  unlock-Shrunk, unlock-srv, sweep-Shrunk, same_key→eq, remove-Every, IfAny, lookup-IfAny,
  in_pair-times, Looked, lookup-Looked,
}

-- A key that admit lets in
abbrev pub Admits : Key → Option Key → Type 0
Admits k none = Unit
Admits k (some s) = in_pair s k ≡ true

-- A stream of key `q` out of an orderly table, by its parts; `R` is what else holds of the lock.
pub record Sound (q : Key) (R : Option Key → Type 0) (k : Key) (dir : ℕ) (early : List Frame)
    (early_bytes : ℕ) (sts : List Stream) (srv : Option Key) : Type 0 where
  pub key : k ≡ q
  pub once : (j : Key) → times j k + with_key j sts ≤ 1
  pub anchor : Key
  pub here : Placed anchor k dir
  pub counted : early_bytes ≡ payloads early
  pub there : All (Fits anchor) sts
  pub at : IsAt anchor srv
  pub more : R srv

abbrev pub IsSound : Key → (Option Key → Type 0) → Focus → Type 0
IsSound q R f = Sound q R f.st.key f.st.dir f.st.early f.st.early_bytes f.d.streams f.d.srv

abbrev IsSome : Option Stream → Type 0
IsSome none = ⊥
IsSome (some st) = Unit

staler-IsSome : (st : Stream) (o : Option Stream) → IsSome (staler st o)
unfolding staler
staler-IsSome st none = tt
staler-IsSome st (some old) = if_cases IsSome (older st old) (some st) (some old) (λ _. tt) λ _. tt

all_in_pair : (b c : Bool) → b ≡ false → b || c ≡ true → c ≡ true
all_in_pair b c n h = ground arith

-- Streams of a pair alone are few, and among others one hunts.
stalest-IsSome :
    (s : Key) (sts : List Stream)
    → All (Fits s) sts
    → with_key s sts + with_key (reverse s) sts + 1 ≤ length sts
    → IsSome (stalest sts)
unfolding stalest with_key
stalest-IsSome s [] h l = absurd (omega arith)
stalest-IsSome s (st ∷ sts) (h, hs) l =
    if_cases IsSome (st.dir == 0) (staler st (stalest sts)) (stalest sts)
      (λ _. staler-IsSome st (stalest sts))
      λ n.
        let two = in_pair-times s st.key (all_in_pair (st.dir == 0) (in_pair s st.key) n h.0) in
        stalest-IsSome s sts hs (omega (arith, l, two))

module _ (R : Option Key → Type 0) (r0 : R none) where
  -- A decoder with room, as orderly as the one before
  abbrev Roomy : Decoder → Option Decoder → Type 0
  Roomy d none = ⊥
  Roomy d (some e) =
      ((j : Key) → with_key j e.streams ≤ with_key j d.streams)
      × IsOrderly e.streams e.srv
      × R e.srv
      × AllHeld e

  make_room-Roomy :
      (d : Decoder) → IsOrderly d.streams d.srv → R d.srv → AllHeld d → Roomy d (make_room d)
  unfolding make_room
  make_room-Roomy d o r h =
      if_cases (Roomy d) (leb max_streams (length d.streams)) _ (some d)
        (λ full. found (stalest d.streams) (
          stalest-IsSome o.anchor d.streams o.fits (
            omega (
              arith,
              leb→le max_streams (length d.streams) full,
              o.once o.anchor,
              o.once (reverse o.anchor),
            ))))
        λ _. ((λ j. omega arith), o, r, h)
    where
      found :
          (x : Option Stream)
          → IsSome x
          → Roomy d
              (elim x as (λ y. Option Decoder) [ none ↦ none | some old ↦ some (drop old.key d) ])
      found none g = g
      found (some old) g =
          let f = drop-Shrunk old.key d in
          (
            f.fewer,
            Shrunk-IsOrderly d (drop old.key d) f o,
            f.lock R r0 r,
            drop-AllHeld old.key d h,
          )

  -- A stream found or made, with the rest of the table
  abbrev pub Out : Key → Option Focus → Type 0
  Out q none = ⊥
  Out q (some f) = BothHeld f × IsSound q R f

new_place :
    (s k : Key) (srv : Option Key)
    → IsAt s srv
    → Admits k srv
    → Placed s k (if is_set srv then from_client else 0)
new_place s k none a h = refl
new_place s k (some t) a h = rw a h

module _ (R : Option Key → Type 0) (r0 : R none) (k : Key)
    (open_to : (o : Option Key) → R o → Admits k o) where
  add-Out :
      (t : ℕ) (d : Decoder) (o : Option Decoder)
      → with_key k d.streams ≡ 0
      → Roomy R r0 d o
      → Out R r0 k (o >>= λ e. some (add k t e))
  unfolding add
  add-Out t d none z h = h
  add-Out t d (some e) z (l, o, r, held) = (
    (
      record {
        quiet = record { at_rest = λ _. refl; no_head = λ _. refl; not_lost = λ _. refl };
        few = omega arith;
        counted = refl;
        room = omega arith;
      },
      held,
    ),
    record {
      key = refl;
      once = λ j. alone j;
      anchor = o.anchor;
      here = new_place o.anchor k e.srv o.at (open_to e.srv r);
      counted = refl;
      there = o.fits;
      at = o.at;
      more = r;
    },
  )
    where
      alone : (j : Key) → times j k + with_key j e.streams ≤ 1
      alone j = elim (Bool-cases (same_key k j)) [
        | inl y ↦ rw (y, ← same_key→eq k j y) (omega (arith, l k, z))
        | inr n ↦ rw n (omega (arith, o.once j))
      ]

  pub stream-Out :
      (t : ℕ) (d : Decoder)
      → IsOrderly d.streams d.srv
      → R d.srv
      → AllHeld d
      → Out R r0 k (stream k t d)
  unfolding stream
  stream-Out t d o r h =
      found (lookup k d.streams) (lookup-Looked k d.streams)
        (lookup-IfAny (λ st. IsHeld st × Fits o.anchor st) k d.streams (both d.streams h o.fits))
    where
      both :
          (sts : List Stream)
          → All IsHeld sts
          → All (Fits o.anchor) sts
          → All (λ st. IsHeld st × Fits o.anchor st) sts
      both [] a b = tt
      both (st ∷ sts) (a, aa) (b, bb) = ((a, b), both sts aa bb)

      found :
          (x : Option Stream)
          → Looked k d.streams x
          → IfAny (λ st. IsHeld st × Fits o.anchor st) x
          → Out R r0 k (elim x as (λ y. Option Focus) [
            | none ↦ make_room d >>= λ e. some (add k t e)
            | some st ↦ some (record { st = st; d = record d { streams = remove k d.streams } })
          ])
      found none z g = add-Out t d (make_room d) z (make_room-Roomy R r0 d o r h)
      found (some st) (e, l) (g, f) = (
        (g, remove-All k d.streams h),
        record {
          key = e;
          once = λ j. omega (arith, l j, o.once j);
          anchor = o.anchor;
          here = f.0;
          counted = f.1;
          there = remove-Every (Fits o.anchor) k d.streams o.fits;
          at = o.at;
          more = r;
        },
      )

-- What admit leaves: an orderly table, and a lock that lets the key in if it says so
abbrev pub Admitted : Key → Bool × Decoder → Type 0
Admitted k r = IsOrderly r.1.streams r.1.srv × (r.0 ≡ true → Admits k r.1.srv)

pub admit-Admitted :
    (k : Key) (t : ℕ) (d : Decoder) → IsOrderly d.streams d.srv → Admitted k (admit k t d)
unfolding admit admit_locked
admit-Admitted k t d o = by_lock (sweep t d).srv refl
  where
    e : Decoder
    e = sweep t d

    orderly : IsOrderly e.streams e.srv
    orderly = Shrunk-IsOrderly d e (sweep-Shrunk t d) o

    by_lock :
        (x : Option Key)
        → e.srv ≡ x
        → Admitted k (elim x as (λ y. Bool × Decoder) [
          | none ↦ (true, e)
          | some srv ↦ admit_locked k t srv e
        ])
    by_lock none g = (orderly, λ _. rw g tt)
    by_lock (some srv) g =
        if_cases (Admitted k) (same_key srv k || same_key srv (reverse k)) _ _
          (λ y.
            if_cases (λ z. Admitted k (true, z)) (ltb e.lock_at t) (record e { lock_at = t }) e
              (λ _. (orderly, λ _. rw g y)) λ _. (orderly, λ _. rw g y))
          λ _.
            if_cases (Admitted k) (ltb (e.lock_at + e.config.lock_idle) t) (true, unlock e)
              (false, e)
              (λ _. (
                Shrunk-IsOrderly e (unlock e) (unlock-Shrunk e) orderly,
                λ _. rw (unlock-srv e) tt,
              ))
              λ _. (orderly, λ f. absurd (ground arith))
