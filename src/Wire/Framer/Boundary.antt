-- ===== src/Wire/Framer/Boundary.antt =====
-- wire/framer.go: envelope, follows and resume, which look past a frame.
pub mod Header
use a2kit.Common.{
  ℕ, min, Bool, true, false, ◌&&◌, ◌||◌, List, Option, none, some, ltb, ◌==◌, if◌then◌else◌, length,
  take, drop, u32_le,
}
use a2kit.Wire.Scan.{Verdict, Scan, new_scan, find}
use a2kit.Wire.Envelope.{min_envelope, max_envelope, chain}
use a2kit.Wire.Framer.State.{stall_limit}
use a2kit.Wire.Framer.Length.{accepts, begins, trim_padding, pair}

is_yes : Verdict → Bool
is_yes Verdict.yes = true
is_yes Verdict.no = false
is_yes Verdict.maybe = false

-- What envelope makes of accepts.
after_accepts : Bool → List ℕ → Verdict → Verdict
after_accepts after_frame p Verdict.no = Verdict.no
after_accepts after_frame p Verdict.maybe = Verdict.maybe
after_accepts after_frame p Verdict.yes = if after_frame then Verdict.yes else chain p 0 stall_limit

-- envelope. u32_le reads the bytes that are not there as zeros.
unfoldable pub envelope : Bool → List ℕ → Bool → Verdict
unfolding is_yes after_accepts
envelope known_only p after_frame =
    let n = min (length p) 4 in
    let l = u32_le (take 4 p) in
    if ltb max_envelope l || n == 4 && ltb l min_envelope
    then Verdict.no
    else if ltb n 4
    then Verdict.maybe
    else if is_yes (begins known_only (trim_padding p))
    then Verdict.no
    else after_accepts after_frame p (accepts known_only (drop 4 p))

unless_no : Verdict → Verdict → Verdict
unless_no Verdict.no v = v
unless_no Verdict.maybe v = Verdict.maybe
unless_no Verdict.yes v = Verdict.yes

-- follows, with whether the stream is in envelopes
unfoldable pub follows : Bool → Bool → List ℕ → Verdict
unfolding unless_no
follows known_only on p =
    unless_no (if on then Verdict.no else envelope known_only p true)
      (begins known_only (trim_padding p))

or_zero : Option ℕ → ℕ
or_zero none = 0
or_zero (some i) = i

-- resume, and the search after it
unfoldable pub resume : Bool → List ℕ → Bool → Scan → ℕ × Scan
unfolding or_zero
resume known_only p kept ahead =
    let (i, s) = find (pair known_only p) 1 (length p) (if kept then ahead else new_scan) in
    (or_zero i, s)
