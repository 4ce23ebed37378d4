-- ===== src/Wire/Decoder/Table.antt =====
-- wire/decoder.go: the table of streams, and who is let in. The order of the table stands for the
-- order in which Go ranges over the map.
pub mod Streams
pub mod Orderly
pub mod Room
use a2kit.Common.{
  ℕ, ◌+◌, ◌-◌, Bool, true, false, ◌&&◌, ◌||◌, List, [], ◌∷◌, Option, none, some, ltb, leb, ◌==◌,
  if◌then◌else◌, length,
}
use a2kit.Common.Results.{◌>>=◌}
use a2kit.Wire.Frame.{from_client}
use a2kit.Wire.Framer.State.{new_framer}
use a2kit.Wire.Decoder.State.{
  Key, reverse, same_key, Stream, Decoder, count, is_set, max_streams, close_grace,
}

unfoldable pub lookup : Key → List Stream → Option Stream
unfolding same_key
lookup k [] = none
lookup k (st ∷ sts) = if same_key st.key k then some st else lookup k sts

unfoldable pub remove : Key → List Stream → List Stream
unfolding same_key
remove k [] = []
remove k (st ∷ sts) = let rest = remove k sts in if same_key st.key k then rest else st ∷ rest

unfoldable pub is_srv : Key → Option Key → Bool
is_srv k none = false
is_srv k (some s) = same_key s k

-- fold on every stream, and unlock's reset of it
unlock_all : List Stream → Decoder → Decoder
unfolding count
unlock_all [] d = record d { streams = [] }
unlock_all (st ∷ sts) d =
    let d' = unlock_all sts (record d { stats = count st d.stats }) in
    record d' {
      streams = record st { fr = record st.fr { resyncs = 0 }; dir = 0; frames = 0 } ∷ d'.streams;
    }

unfoldable pub unlock : Decoder → Decoder
unfolding unlock_all
unlock d = unlock_all d.streams (record d { srv = none })

-- drop, past the unlock
unfoldable pub forget : Stream → Decoder → Decoder
unfolding remove count
forget st d = record d {
  stats = count st d.stats;
  closing = if is_set st.closed then d.closing - 1 else d.closing;
  held = d.held - length st.held;
  streams = remove st.key d.streams;
}

-- drop
unfoldable pub drop : Key → Decoder → Decoder
unfolding unlock lookup forget is_srv
drop k d =
    let d' = if is_srv k d.srv then unlock d else d in
    elim (lookup k d'.streams) [ none ↦ d' | some st ↦ forget st d' ]

unfoldable pub drop_all : List Key → Decoder → Decoder
unfolding drop
drop_all [] d = d
drop_all (k ∷ ks) d = drop_all ks (drop k d)

-- Whether sweep drops a stream
expired : ℕ → Stream → Bool
expired t st = elim st.closed [ none ↦ false | some c ↦ leb (c + close_grace) t ]

keys_if : (Stream → Bool) → List Stream → List Key
keys_if P [] = []
keys_if P (st ∷ sts) = let rest = keys_if P sts in if P st then st.key ∷ rest else rest

unfoldable pub sweep : ℕ → Decoder → Decoder
unfolding drop_all keys_if expired
sweep t d = if d.closing == 0 then d else drop_all (keys_if (expired t) d.streams) d

-- Whether stalest takes `st` rather than `old`
pub older : Stream → Stream → Bool
older st old = ltb st.last old.last || st.last == old.last && ltb st.born old.born

-- The least of two candidates
pub staler : Stream → Option Stream → Option Stream
unfolding older
staler st none = some st
staler st (some old) = if older st old then some st else some old

pub stalest : List Stream → Option Stream
unfolding staler
stalest [] = none
stalest (st ∷ sts) = let rest = stalest sts in if st.dir == 0 then staler st rest else rest

-- Room in a table that is full. Without a hunting stream the source panics, which is `none`.
pub make_room : Decoder → Option Decoder
unfolding stalest drop
make_room d =
    if leb max_streams (length d.streams)
    then elim (stalest d.streams) [ none ↦ none | some old ↦ some (drop old.key d) ]
    else some d

-- A stream taken out of the table, and the decoder without it.
pub record Focus : Type 0 where
  pub st : Stream
  pub d : Decoder

abbrev pub store : Focus → Decoder
store f = record f.d { streams = f.st ∷ f.d.streams }

-- The literal in stream
abbrev pub new_stream : Key → ℕ → Decoder → Stream
new_stream k t d = record {
  key = k;
  dir = if is_set d.srv then from_client else 0;
  last = t;
  at = 0;
  closed = none;
  fr = new_framer d.config.known_only;
  born = d.born;
  frames = 0;
  synced = false;
  next = 0;
  syn = 0;
  held_bytes = 0;
  held = [];
  early = [];
  early_bytes = 0;
}

pub add : Key → ℕ → Decoder → Focus
add k t d = record { st = new_stream k t d; d = record d { born = d.born + 1 } }

-- stream
unfoldable pub stream : Key → ℕ → Decoder → Option Focus
unfolding lookup remove make_room add
stream k t d = elim (lookup k d.streams) [
  | none ↦ make_room d >>= λ e. some (add k t e)
  | some st ↦ some (record { st = st; d = record d { streams = remove k d.streams } })
]

-- admit, while locked
pub admit_locked : Key → ℕ → Key → Decoder → Bool × Decoder
unfolding same_key unlock
admit_locked k t srv d =
    if same_key srv k || same_key srv (reverse k)
    then (true, if ltb d.lock_at t then record d { lock_at = t } else d)
    else if ltb (d.lock_at + d.config.lock_idle) t
    then (true, unlock d)
    else (false, d)

-- admit
unfoldable pub admit : Key → ℕ → Decoder → Bool × Decoder
unfolding sweep admit_locked
admit k t d =
    let d' = sweep t d in elim d'.srv [ none ↦ (true, d') | some srv ↦ admit_locked k t srv d' ]
