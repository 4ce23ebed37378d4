-- ===== src/Wire/Decoder/Table/Streams.antt =====
-- wire/decoder.go: the streams in the table, as the table's functions keep them.
use a2kit.Common.{
  ℕ, Bool, true, false, List, [], ◌∷◌, Option, none, some, All, if_cases, ltb, ◌+◌, if◌then◌else◌,
  ◌==◌, ◌||◌,
}
use a2kit.Wire.Decoder.State.{Key, reverse, same_key, Stream, Decoder, count}
use a2kit.Wire.Decoder.Reassembly.Held.{IsHeld}
use a2kit.Wire.Decoder.Table.Orderly.{IfAny, lookup-IfAny, remove-Every}
use a2kit.Wire.Decoder.Table.{
  Focus, lookup, remove, is_srv, unlock_all, unlock, forget, drop, drop_all, expired, keys_if,
  sweep, admit_locked, admit,
}

-- A decoder whose streams are all within their limits
abbrev pub AllHeld : Decoder → Type 0
AllHeld d = All IsHeld d.streams

-- A stream out of the table and the rest of it, within their limits
abbrev pub BothHeld : Focus → Type 0
BothHeld f = IsHeld f.st × AllHeld f.d

abbrev pub IfHeld : Option Stream → Type 0
IfHeld o = IfAny IsHeld o

pub lookup-IfHeld : (k : Key) (sts : List Stream) → All IsHeld sts → IfHeld (lookup k sts)
lookup-IfHeld k sts h = lookup-IfAny IsHeld k sts h

pub remove-All : (k : Key) (sts : List Stream) → All IsHeld sts → All IsHeld (remove k sts)
remove-All k sts h = remove-Every IsHeld k sts h

unlock_all-AllHeld : (sts : List Stream) (d : Decoder) → All IsHeld sts → AllHeld (unlock_all sts d)
unfolding unlock_all
unlock_all-AllHeld [] d h = tt
unlock_all-AllHeld (st ∷ sts) d (h, hs) = (
  record { quiet = h.quiet; few = h.few; counted = h.counted; room = h.room },
  unlock_all-AllHeld sts (record d { stats = count st d.stats }) hs,
)

unlock-AllHeld : (d : Decoder) → AllHeld d → AllHeld (unlock d)
unfolding unlock
unlock-AllHeld d h = unlock_all-AllHeld d.streams (record d { srv = none }) h

pub drop-AllHeld : (k : Key) (d : Decoder) → AllHeld d → AllHeld (drop k d)
unfolding drop forget
drop-AllHeld k d h = found (lookup k d'.streams)
  where
    d' : Decoder
    d' = if is_srv k d.srv then unlock d else d

    held : AllHeld d'
    held = if_cases AllHeld (is_srv k d.srv) (unlock d) d (λ _. unlock-AllHeld d h) λ _. h

    found :
        (o : Option Stream)
        → AllHeld (elim o as (λ x. Decoder) [ none ↦ d' | some st ↦ forget st d' ])
    found none = held
    found (some st) = remove-All st.key d'.streams held

pub drop_all-AllHeld : (ks : List Key) (d : Decoder) → AllHeld d → AllHeld (drop_all ks d)
unfolding drop_all
drop_all-AllHeld [] d h = h
drop_all-AllHeld (k ∷ ks) d h = drop_all-AllHeld ks (drop k d) (drop-AllHeld k d h)

sweep-AllHeld : (t : ℕ) (d : Decoder) → AllHeld d → AllHeld (sweep t d)
unfolding sweep
sweep-AllHeld t d h =
    if_cases AllHeld (d.closing == 0) d _ (λ _. h)
      λ _. drop_all-AllHeld (keys_if (expired t) d.streams) d h

pub admit-AllHeld : (k : Key) (t : ℕ) (d : Decoder) → AllHeld d → AllHeld (admit k t d).1
unfolding admit admit_locked
admit-AllHeld k t d h = by_lock (sweep t d).srv
  where
    e : Decoder
    e = sweep t d

    held : AllHeld e
    held = sweep-AllHeld t d h

    Fits : Bool × Decoder → Type 0
    Fits r = AllHeld r.1

    by_lock :
        (o : Option Key)
        → Fits (elim o as (λ x. Bool × Decoder) [
          | none ↦ (true, e)
          | some srv ↦ admit_locked k t srv e
        ])
    by_lock none = held
    by_lock (some srv) =
        if_cases Fits (same_key srv k || same_key srv (reverse k))
          (true, if ltb e.lock_at t then record e { lock_at = t } else e) _
          (λ _.
            if_cases AllHeld (ltb e.lock_at t) (record e { lock_at = t }) e (λ _. held) λ _. held)
          λ _.
            if_cases Fits (ltb (e.lock_at + e.config.lock_idle) t) (true, unlock e) (false, e)
              (λ _. unlock-AllHeld e held) λ _. held
