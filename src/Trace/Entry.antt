-- ===== src/Trace/Entry.antt =====
-- trace.go: the entries of a trace, and its state. The output is the list of its entries, and a text is
-- kept as what it is made of.
use Prim.Native.String.{String}
use a2kit.Common.{ℕ, Bool, ◌&&◌, List, [], Option, none, ◌==◌, ℤ}
use a2kit.Game.Events.{Event}

abbrev pub by_opcode : ℕ
by_opcode = 1

abbrev pub by_entity : ℕ
by_entity = 2

abbrev pub client_track : ℕ
client_track = 65536

-- The texts: a word, an opcode's text, that of the client's track, an opcode with its name, a name
-- that was read, a number of an NPC, and one of an entity
pub data Label : Type 0 where
  word : String → Label
  code : ℕ → Label
  client_code : ℕ → Label
  code_name : ℕ → Label
  bytes : List ℕ → Label
  npc_number : ℕ → Label
  entity_number : ℕ → Label

-- Why a payload is shown: it is not read, it does not fit, or its event has no JSON
pub data Fault : Type 0 where
  not_read : Fault
  not_fitting : ℕ → ℕ → Fault
  no_json : Fault

-- The field Args: nothing, an event, a payload with why, a name, or a number
pub data Args : Type 0 where
  no_args : Args
  of_event : Event → Args
  payload : List ℕ → Fault → Args
  name : Label → Args
  sort_index : ℕ → Args

-- traceEvent; `on_track` is whether S is t.
pub record TraceEvent : Type 0 where
  pub label : Label
  pub ph : String
  pub ts : ℤ
  pub dur : ℤ
  pub pid : ℕ
  pub tid : ℕ
  pub on_track : Bool
  pub args : Args

pub record Entity : Type 0 where
  pub sort : ℕ
  pub name : List ℕ
  pub npc : ℕ

-- The key of a cast: its actor and its skill
abbrev pub Key : Type 0
Key = ℕ × ℕ

abbrev pub same_key : Key → Key → Bool
same_key (a, s) (b, r) = a == b && s == r

-- `out` is what emit wrote, in order, so that n is its length. `t0` is the time of the first message,
-- which is not the zero of time.Time.
pub record Trace : Type 0 where
  pub ops : List ℕ
  pub entities : List (ℕ × Entity)
  pub casts : List (Key × TraceEvent)
  pub t0 : Option ℕ
  pub out : List TraceEvent

abbrev pub no_trace : Trace
no_trace = record { ops = []; entities = []; casts = []; t0 = none; out = [] }
