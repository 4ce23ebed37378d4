-- ===== src/Trace/Finish.antt =====
-- trace.go: end, and the names of the tracks.
pub mod Once
use Prim.Native.String.{String}
use text.Mathlib.Text.{◌==◌ as str_eq}
use a2kit.Common.{
  ℕ, zero, suc, ◌+◌, ◌-◌, ◌*◌, ◌/◌, ◌^◌, Bool, true, false, ◌&&◌, ◌||◌, List, [], ◌∷◌, ◌++◌, Option,
  none, some, ltb, leb, ◌==◌, if◌then◌else◌, length, contains, map, ℤ, pos, negsuc, bit_at,
}
use a2kit.Common.Sort.{sort_by}
use a2kit.Wire.Frame.{Frame}
use a2kit.Game.Events.{
  Event, hit, cast, cast_end, spawn, player, kill, death, move, tick, ping, fall, object, zone,
  name_check, stats, gear_score, combat_power, gauges, servers, lobby_ping, redirect, account,
  characters,
}
use a2kit.Game.Parse.{Parsed, event, unread, layout, name_of}
use a2kit.Messages.{Message}
use a2kit.Trace.Entry.{
  by_opcode, by_entity, client_track, Label, word, code, client_code, code_name, bytes, npc_number,
  entity_number, Fault, not_read, not_fitting, no_json, Args, no_args, of_event, payload, name,
  sort_index, TraceEvent, Entity, Key, same_key, Trace, no_trace,
}
use a2kit.Trace.Add.{add_all}
use a2kit.Trace.Step.{emit, negated, is_empty, on_event}

-- The order of int64, as one of numbers
pub order_of : ℤ → ℕ
order_of (pos n) = 2 ^ 63 + n
order_of (negsuc n) = 2 ^ 63 - n - 1

pub meta : ℕ → ℕ → Args → TraceEvent
meta pid tid args = record {
  label = word "thread_name";
  ph = "M";
  ts = pos 0;
  dur = pos 0;
  pid = pid;
  tid = tid;
  on_track = false;
  args = args;
}

abbrev ordered : TraceEvent → TraceEvent
ordered e = record e { label = word "thread_sort_index" }

-- The name of an opcode's track
op_label : ℕ → Label
op_label tid = if leb client_track tid then client_code (tid - client_track) else code_name tid

pub op_metas : List ℕ → List TraceEvent
unfolding meta op_label
op_metas [] = []
op_metas (tid ∷ tids) =
    meta by_opcode tid (name (op_label tid))
    ∷ ordered (meta by_opcode tid (sort_index tid))
    ∷ op_metas tids

-- label
entity_label : ℕ → Entity → Label
unfolding is_empty
entity_label id en =
    if is_empty en.name
    then (if en.npc == 0 then entity_number id else npc_number en.npc)
    else bytes en.name

pub entity_metas : List (ℕ × Entity) → List TraceEvent
unfolding meta entity_label
entity_metas [] = []
entity_metas ((id, en) ∷ ens) =
    meta by_entity id (name (entity_label id en))
    ∷ ordered (meta by_entity id (sort_index en.sort))
    ∷ entity_metas ens

pub process : ℕ → String → TraceEvent
unfolding meta
process pid w = record (meta pid 0 (name (word w))) { label = word "process_name" }

-- The casts that never ended, by their time; those of one time are in the order of the list here,
-- and in any order there.
pub left_over : List (Key × TraceEvent) → List TraceEvent
unfolding sort_by order_of
left_over casts = sort_by (λ e. order_of e.ts) (map (λ p. p.1) casts)

-- end, as the whole output
unfoldable pub finished : Trace → List TraceEvent
unfolding left_over op_metas entity_metas process
finished t =
    t.out
    ++ (left_over t.casts
        ++ (process by_opcode "by opcode"
            ∷ process by_entity "by entity"
            ∷ (op_metas (sort_by (λ n. n) t.ops) ++ entity_metas (sort_by (λ p. p.0) t.entities))))

-- WriteTrace, for messages that end without an error
unfoldable pub write_trace : (Event → Bool) → List Message → List TraceEvent
unfolding finished
write_trace marshals ms = finished (add_all marshals ms no_trace)
