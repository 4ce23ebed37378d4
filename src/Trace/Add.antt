-- ===== src/Trace/Add.antt =====
-- trace.go: add.
pub mod Kept
use Prim.Native.String.{String}
use text.Mathlib.Text.{◌==◌ as str_eq}
use a2kit.Common.{
  ℕ, zero, suc, ◌+◌, ◌-◌, ◌*◌, ◌/◌, ◌^◌, Bool, true, false, ◌&&◌, ◌||◌, List, [], ◌∷◌, ◌++◌, Option,
  none, some, ltb, leb, ◌==◌, if◌then◌else◌, length, contains, map, ℤ, pos, negsuc, bit_at,
}
use a2kit.Common.Sort.{sort_by}
use a2kit.Wire.Frame.{Frame}
use a2kit.Game.Events.{
  Event, hit, cast, cast_end, spawn, player, kill, death, move, tick, ping, fall, object, zone,
  name_check, stats, gear_score, combat_power, gauges, servers, lobby_ping, redirect, account,
  characters,
}
use a2kit.Game.Parse.{Parsed, event, unread, layout, name_of}
use a2kit.Messages.{Message}
use a2kit.Trace.Entry.{
  by_opcode, by_entity, client_track, Label, word, code, client_code, code_name, bytes, npc_number,
  entity_number, Fault, not_read, not_fitting, no_json, Args, no_args, of_event, payload, name,
  sort_index, TraceEvent, Entity, Key, same_key, Trace, no_trace,
}
use a2kit.Trace.Step.{emit, negated, is_empty, on_event}

-- The microseconds from one time to another, towards zero
pub micros : ℕ → ℕ → ℤ
unfolding negated
micros t t0 = if leb t0 t then pos ((t - t0) / 1000) else negated ((t0 - t) / 1000)

pub with_op : ℕ → List ℕ → List ℕ
with_op tid ops = if contains ops tid then ops else tid ∷ ops

pub begun : ℕ → Trace → Trace
begun t tr = elim tr.t0 [ none ↦ record tr { t0 = some t } | some t0 ↦ tr ]

pub since : ℕ → Option ℕ → ℤ
unfolding micros
since t none = pos 0
since t (some t0) = micros t t0

label_of : Frame → Label
label_of f =
    if bit_at f.flags 1 || str_eq (name_of f.opcode) ""
    then code f.opcode
    else word (name_of f.opcode)

pub track_of : Frame → ℕ
track_of f = if bit_at f.flags 1 then f.opcode + client_track else f.opcode

-- `marshals` says whether encoding/json writes an event: a number that is none has no JSON.
module _ (marshals : Event → Bool) where
  pub args_of : Message → Args
  args_of m = elim m.read [
    | event e ↦ if marshals e then of_event e else payload m.frame.payload no_json
    | unread ↦ payload m.frame.payload not_read
    | layout i n ↦ payload m.frame.payload (not_fitting i n)
  ]

  pub opcode_event : Message → ℤ → TraceEvent
  unfolding label_of track_of args_of
  opcode_event m ts = record {
    label = label_of m.frame;
    ph = "i";
    ts = ts;
    dur = pos 0;
    pid = by_opcode;
    tid = track_of m.frame;
    on_track = true;
    args = args_of m;
  }

  -- add's switch, on what was read
  pub on_read : Parsed → ℤ → Args → Trace → Trace
  unfolding on_event
  on_read (event e) ts args t = if marshals e then on_event e ts args t else t
  on_read unread ts args t = t
  on_read (layout i n) ts args t = t

  unfoldable pub add : Message → Trace → Trace
  unfolding begun with_op since emit opcode_event on_read track_of args_of
  add m t =
      let b = begun m.frame.time t in
      let t' = record b { ops = with_op (track_of m.frame) b.ops } in
      let ts = since m.frame.time t'.t0 in
      on_read m.read ts (args_of m) (emit (opcode_event m ts) t')

  unfoldable pub add_all : List Message → Trace → Trace
  unfolding add
  add_all [] t = t
  add_all (m ∷ ms) t = add_all ms (add m t)
