-- ===== src/Analyze/Tests.antt =====
-- Runs of the analysis on small inputs.
use a2kit.Common.{ℕ, ◌≡◌, refl, Bool, false, List, [], ◌∷◌, Option, none, some, arith}
use a2kit.Wire.Frame.{AddrPort}
use a2kit.Wire.Decoder.State.{Stats}
use a2kit.Game.Parse.{unread}
use a2kit.Messages.{Message, Summary, no_summary}
use a2kit.Analyze.Packets.{Packet, no_tee}
use a2kit.Analyze.Windows.{windows}
use a2kit.Analyze.Windows.Cover.{in_windows, in_marks, AreApart, windows-AreApart}
use a2kit.Analyze.Bursts.{Action, bursts, unusual, actions}
use a2kit.Analyze.Bursts.Parted.{packets_of, AreBursts, bursts-AreBursts}
use a2kit.Analyze.Bursts.Answered.{AreAnswered, actions-AreAnswered}
use a2kit.Analyze.Analysis.{Analysis, analysis}
use a2kit.Analyze.Analysis.Bounds.{IsBounded, analysis-IsBounded}

abbrev server : AddrPort
server = record { bits = 32; addr = 1; port = 7777 }

abbrev client : AddrPort
client = record { bits = 32; addr = 2; port = 50000 }

abbrev message : ℕ → Message
message time = record {
  frame = record {
    time = time;
    src = server;
    dst = client;
    opcode = 0x3642;
    flags = 1;
    if_index = 0;
    payload = [];
  };
  read = unread;
}

abbrev at : ℕ → ℕ → Packet
at t size = record { t = t; size = size }

-- Two marks whose windows overlap, and one apart
windows-AreApart_example :
    ((t : ℕ) → in_windows t (windows (50 ∷ 10 ∷ 15 ∷ []) 10) ≡ in_marks t 10 (50 ∷ 10 ∷ 15 ∷ []))
    × AreApart (windows (50 ∷ 10 ∷ 15 ∷ []) 10)
windows-AreApart_example = windows-AreApart (50 ∷ 10 ∷ 15 ∷ []) 10

abbrev sent : List Packet
sent = at 1000000000 7 ∷ at 1100000000 9 ∷ at 1200000000 7 ∷ at 2000000000 8 ∷ []

bursts-AreBursts_example :
    (packets_of (bursts (9 ∷ []) sent) ≡ unusual (9 ∷ []) sent) × AreBursts (bursts (9 ∷ []) sent)
bursts-AreBursts_example = bursts-AreBursts (9 ∷ []) sent

abbrev answers : List Message
answers = message 1000000001 ∷ message 2000000005 ∷ []

actions-AreAnswered_example :
    (acts : List Action) × (actions answers sent (9 ∷ []) [] 500000000 ≡ some acts)
    × AreAnswered answers [] 500000000 (bursts (9 ∷ []) sent) acts
actions-AreAnswered_example =
    actions-AreAnswered answers sent (9 ∷ []) [] 500000000 ((omega arith, tt), (tt, tt))
      (
        (omega arith, (omega arith, (omega arith, tt))),
        ((omega arith, (omega arith, tt)), ((omega arith, tt), (tt, tt))),
      )

-- Packets whose times go back: the first burst's answers would end before they begin.
actions_back :
    actions
      (message 500000000 ∷ [])
      (at 1000000000 7 ∷ at 0 7 ∷ at 300000000 7 ∷ [])
      []
      []
      500000000
    ≡ none
unfolding actions
actions_back = refl

abbrev summary : Summary × (Bool × Stats)
summary = (
  no_summary,
  (false, record { locks = 0; resyncs = 0; client_resyncs = 0; server = none; client = none }),
)

abbrev nothing : Analysis
nothing = record {
  server = server;
  client = client;
  pairs = 0;
  start = 0;
  first = 0;
  last = 0;
  messages = [];
  packets = 0;
  usual = [];
  background = [];
  summary = summary;
  sent = [];
}

-- What an analysis is, or the analysis of nothing in its place
abbrev or_none : Option Analysis → Analysis
or_none none = nothing
or_none (some a) = a

abbrev found : Analysis
found = or_none (analysis answers summary no_tee)

found-analysis : analysis answers summary no_tee ≡ some found
unfolding analysis
found-analysis = refl

analysis-IsBounded_example : IsBounded found
analysis-IsBounded_example = analysis-IsBounded answers summary no_tee found found-analysis
