-- ===== src/Trace/Step.antt =====
-- trace.go: on, instant, entity, and what add does with an event.
pub mod Waiting
pub mod Casts
use Prim.Native.String.{String}
use text.Mathlib.Text.{◌==◌ as str_eq}
use a2kit.Common.{
  ℕ, zero, suc, ◌+◌, ◌-◌, ◌*◌, ◌/◌, ◌^◌, Bool, true, false, ◌&&◌, ◌||◌, List, [], ◌∷◌, ◌++◌, Option,
  none, some, ltb, leb, ◌==◌, if◌then◌else◌, length, contains, map, ℤ, pos, negsuc, bit_at,
}
use a2kit.Common.Sort.{sort_by}
use a2kit.Wire.Frame.{Frame}
use a2kit.Game.Events.{
  Event, hit, cast, cast_end, spawn, player, kill, death, move, tick, ping, fall, object, zone,
  name_check, stats, gear_score, combat_power, gauges, servers, lobby_ping, redirect, account,
  characters,
}
use a2kit.Game.Parse.{Parsed, event, unread, layout, name_of}
use a2kit.Messages.{Message}
use a2kit.Trace.Entry.{
  by_opcode, by_entity, client_track, Label, word, code, client_code, code_name, bytes, npc_number,
  entity_number, Fault, not_read, not_fitting, no_json, Args, no_args, of_event, payload, name,
  sort_index, TraceEvent, Entity, Key, same_key, Trace, no_trace,
}

unfoldable pub emit : TraceEvent → Trace → Trace
emit e t = record t { out = t.out ++ (e ∷ []) }

has_entity : ℕ → List (ℕ × Entity) → Bool
has_entity id [] = false
has_entity id ((j, en) ∷ ens) = if j == id then true else has_entity id ens

-- entity
opened : ℕ → Trace → Trace
unfolding has_entity
opened id t =
    let fresh : Entity = record { sort = length t.entities; name = []; npc = 0 } in
    if has_entity id t.entities then t else record t { entities = t.entities ++ ((id, fresh) ∷ []) }

instant_event : ℕ → Label → ℤ → Args → TraceEvent
instant_event id label ts args = record {
  label = label;
  ph = "i";
  ts = ts;
  dur = pos 0;
  pid = by_entity;
  tid = id;
  on_track = true;
  args = args;
}

-- on
on : ℕ → String → ℤ → Args → Trace → Trace
unfolding emit opened instant_event
on id w ts args t = emit (instant_event id (word w) ts args) (opened id t)

-- t.entity(id), changed
changed : ℕ → (Entity → Entity) → List (ℕ × Entity) → List (ℕ × Entity)
changed id f [] = []
changed id f ((j, en) ∷ ens) =
    let rest = changed id f ens in if j == id then (j, f en) ∷ ens else (j, en) ∷ rest

with_entity : ℕ → (Entity → Entity) → Trace → Trace
unfolding opened changed
with_entity id f t = let t' = opened id t in record t' { entities = changed id f t'.entities }

pub cast_of : Key → List (Key × TraceEvent) → Option TraceEvent
cast_of k [] = none
cast_of k ((j, c) ∷ casts) = let rest = cast_of k casts in if same_key j k then some c else rest

-- delete
pub without : Key → List (Key × TraceEvent) → List (Key × TraceEvent)
without k [] = []
without k ((j, c) ∷ casts) =
    let rest = without k casts in if same_key j k then rest else (j, c) ∷ rest

abbrev cast_event : ℕ → ℤ → Args → TraceEvent
cast_event id ts args = record {
  label = word "Cast";
  ph = "i";
  ts = ts;
  dur = pos 0;
  pid = by_entity;
  tid = id;
  on_track = true;
  args = args;
}

emit_old : Option TraceEvent → Trace → Trace
unfolding emit
emit_old none t = t
emit_old (some c) t = emit c t

-- A Cast, with the one before of its key
on_cast : Key → ℤ → Args → Option TraceEvent → Trace → Trace
unfolding emit_old opened without
on_cast (actor, skill) ts args old t =
    let t' = opened actor (emit_old old t) in
    record t' {
      casts = ((actor, skill), cast_event actor ts args) ∷ without (actor, skill) t'.casts;
    }

-- a - b on int64
unfoldable pub negated : ℕ → ℤ
negated zero = pos 0
negated (suc n) = negsuc n

less : ℕ → ℕ → ℤ
unfolding negated
less a b = if leb b a then pos (a - b) else negated (b - a)

minus : ℤ → ℤ → ℤ
unfolding less
minus (pos a) (pos b) = less a b
minus (pos a) (negsuc b) = pos (a + b + 1)
minus (negsuc a) (pos b) = negsuc (a + b)
minus (negsuc a) (negsuc b) = less b a

-- A CastEnd, with the Cast of its key
on_cast_end : Key → ℤ → Args → Option TraceEvent → Trace → Trace
unfolding emit on without minus
on_cast_end (actor, skill) ts args none t = on actor "CastEnd" ts args t
on_cast_end (actor, skill) ts args (some c) t =
    emit (record c { ph = "X"; on_track = false; dur = minus ts c.ts })
      (record t { casts = without (actor, skill) t.casts })

unfoldable pub is_empty : List ℕ → Bool
is_empty [] = true
is_empty (b ∷ n) = false

-- add's switch on the event
unfoldable pub on_event : Event → ℤ → Args → Trace → Trace
unfolding on on_cast on_cast_end cast_of with_entity is_empty
on_event (hit e) ts args t = on e.target "Hit taken" ts args (on e.actor "Hit" ts args t)
on_event (cast e) ts args t =
    on_cast (e.actor, e.skill) ts args (cast_of (e.actor, e.skill) t.casts) t
on_event (cast_end e) ts args t =
    on_cast_end (e.actor, e.skill) ts args (cast_of (e.actor, e.skill) t.casts) t
on_event (spawn e) ts args t =
    with_entity e.entity (λ en. record en { npc = e.npc }) (on e.entity "Spawn" ts args t)
on_event (player e) ts args t =
    let t' = on e.entity "Player" ts args t in
    if is_empty e.name then t' else with_entity e.entity (λ en. record en { name = e.name }) t'
on_event (kill e) ts args t =
    let t' = on e.entity "Kill" ts args t in
    if e.actor == 0 then t' else with_entity e.actor (λ en. record en { name = e.name }) t'
on_event (death e) ts args t = on e.entity "Death" ts args t
on_event (move e) ts args t = on e.entity "Move" ts args t
on_event e ts args t = t
