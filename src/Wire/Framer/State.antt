-- ===== src/Wire/Framer/State.antt =====
-- wire/framer.go: the framer's state and limits. A call of emit adds to a list, which the decoder
-- goes through after the write; the framer never reads the decoder's state.
use a2kit.Common.{ℕ, ◌^◌, Bool, false, ◌&&◌, List, [], ◌==◌}
use a2kit.Wire.Scan.{Scan, new_scan}
use a2kit.Wire.Envelope.{Envelopes, no_envelopes}

abbrev pub max_frame : ℕ
max_frame = 2 ^ 20

abbrev pub max_buf : ℕ
max_buf = 2 ^ 20

abbrev pub probation_frames : ℕ
probation_frames = 2

abbrev pub stall_limit : ℕ
stall_limit = 2 ^ 14

abbrev pub max_depth : ℕ
max_depth = 4

abbrev pub max_plain : ℕ
max_plain = 8000000

abbrev pub min_bundle : ℕ
min_bundle = 7

abbrev pub max_growth : ℕ
max_growth = 255

-- A call of emit: a frame's body and flags, and whether the framer was trusted at the call.
pub record Emission : Type 0 where
  pub body : List ℕ
  pub flags : ℕ
  pub trusted : Bool

pub record Framer : Type 0 where
  pub known_only : Bool
  pub buf : List ℕ
  pub begun : Bool
  pub over : Bool
  pub aligned : Bool
  pub probation : ℕ
  pub skipped : ℕ
  pub resync : Bool
  pub resyncs : ℕ
  pub env : Envelopes
  pub waiting : Bool
  pub ahead : Scan

abbrev pub new_framer : Bool → Framer
new_framer known_only = record {
  known_only = known_only;
  buf = [];
  begun = false;
  over = false;
  aligned = false;
  probation = 0;
  skipped = 0;
  resync = false;
  resyncs = 0;
  env = no_envelopes;
  waiting = false;
  ahead = new_scan;
}

abbrev pub trusted : Framer → Bool
trusted f = f.aligned && f.probation == 0
