-- ===== src/Game/Parse/Combat.antt =====
-- game/parse.go: hits, casts, kills, deaths and falls.
pub mod Safe
use mathlib.Core.Bool.{xor}
use a2kit.Common.{
  ℕ, ◌%◌, Bool, true, false, not, ◌&&◌, ◌||◌, List, [], ◌∷◌, Option, none, some, ltb, ◌==◌,
  if◌then◌else◌, bit_at, and_not,
}
use a2kit.Game.Reader.{
  Read, Pos, pure, ◌>>=◌, ◌>>◌, fail_if, end, skip, u8, u16, u32, u32s, times, remaining, varint,
  small, name, pos,
}
use a2kit.Game.Events.{Event, Hit}

-- A read made only if a flag asks for it.
abbrev pub when {ℓ} : {A : Type ℓ} → Bool → A → Read A → Read A
when b d m = if b then m else pure d

-- hit, from the Effects on
unfoldable pub hit_end : Hit → ℕ → Read (Option Event)
hit_end h sw = do
  effects ← when (bit_at h.form 0) [] u32s
  buffs ← when (bit_at sw 6) [] u32s
  skip 1
  z ← u8
  fail_if (not (z == 0))
  tail ← when (bit_at h.form 2) 0 varint
  when (bit_at h.form 4 && sw % 16 == 4) tt (skip 1)
  end
  pure (some (Event.hit (record h { effects = effects; buffs = buffs; tail = tail })))

-- hit, from the Effect on
unfoldable pub hit_rest : Hit → ℕ → Read (Option Event)
unfolding hit_end
hit_rest h sw = do
  effect ← u32
  count ← u32
  fail_if (ltb 255 count)
  speed ← varint
  damage ← when (not (sw % 16 == 0)) 0 varint
  when (sw % 32 == 0x14) tt (skip 1)
  let g = record h { effect = effect; speed = speed; damage = damage }
  if bit_at sw 5
      then (do
        n ← varint
        l ← remaining
        if ltb l n
            then (do fail_if true; pure none)
            else (do extra ← times n varint; hit_end (record g { extra = extra }) sw))
      else hit_end g sw

abbrev new_hit : ℕ → ℕ → ℕ → ℕ → ℕ → Hit
new_hit target form actor skill type = record {
  actor = actor;
  target = target;
  skill = skill;
  effect = 0;
  damage = 0;
  extra = [];
  type = type;
  speed = 0;
  mods = 0;
  direction = 0;
  form = form;
  tail = 0;
  effects = [];
  buffs = [];
}

unfoldable pub hit : Read (Option Event)
unfolding hit_rest
hit = do
  target ← varint
  sw ← varint
  form ← varint
  if not (and_not form 0x15 == 0) then pure none else (do
    actor ← varint
    skill ← u32
    skip 1
    type ← small
    let h = new_hit target form actor skill type
    if sw % 16 == 0 || sw % 16 == 4
        then hit_rest h sw
        else if sw % 16 == 6
        then (do
          mods ← u8
          _ ← varint
          direction ← u8
          hit_rest (record h { mods = mods; direction = direction }) sw)
        else pure none)

unfoldable pub death : Read (Option Event)
death = do
  entity ← varint
  z ← varint
  fail_if (not (z == 0))
  flag ← small
  end
  pure (some (Event.death (record { entity = entity; flag = flag })))

unfoldable pub fall : Read (Option Event)
fall = do
  entity ← varint
  damage ← varint
  end
  pure (some (Event.fall (record { entity = entity; damage = damage })))

abbrev pub is_empty : List ℕ → Bool
is_empty [] = true
is_empty (b ∷ s) = false

unfoldable pub kill : Read (Option Event)
kill = do
  entity ← varint
  skill ← u32
  actor ← varint
  server ← u16
  who ← name
  legion ← name
  marked ← u16
  fail_if (xor (not (marked == 0)) (not (is_empty legion)))
  npc ← varint
  skip 4
  credited ← u8
  fail_if (xor (credited == 1) (not (actor == 0) || not (skill == 0)))
  skip 1
  end
  pure (
      some (
        Event.kill (record {
          entity = entity;
          actor = actor;
          skill = skill;
          server = server;
          name = who;
          legion = legion;
          npc = npc;
        })))

abbrev no_pos : Pos
no_pos = record { x = 0; y = 0; z = 0 }

unfoldable pub cast : Read (Option Event)
cast = do
  actor ← varint
  flags ← u8
  if not (and_not flags 0xC == 0) then pure none else (do
    skill ← u32
    skip 1
    placed ← u8
    target ← varint
    skip 4
    at ← when (placed == 2) no_pos pos
    _ ← varint
    skip 1
    _ ← varint
    count ← when (bit_at flags 2) 0 u8
    tail ← when (bit_at flags 3) 0 varint
    end
    pure (
        some (
          Event.cast (record {
            actor = actor;
            target = target;
            skill = skill;
            pos = at;
            count = count;
            tail = tail;
          }))))

unfoldable pub cast_end : Read (Option Event)
cast_end = do
  actor ← varint
  skill ← u32
  skip 2
  end
  pure (some (Event.cast_end (record { actor = actor; skill = skill })))
