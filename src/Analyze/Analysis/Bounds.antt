-- ===== src/Analyze/Analysis/Bounds.antt =====
-- analyze.go: the first and the last time of an analysis.
use a2kit.Common.{
  ℕ, ◌≤◌, Bool, ◌≡◌, List, [], ◌∷◌, Option, none, some, All, All-map, arith, ltb, if_cases,
  if◌then◌else◌, length, ◌==◌,
}
use mathlib.Core.Path.{subst}
use a2kit.Common.Sort.{sort_by, sort_by-IsSorted, IsSorted}
use a2kit.Wire.Decoder.State.{Stats}
use a2kit.Messages.{Message, Summary}
use a2kit.Analyze.Packets.{Flow, Packet, Tee, sent_on}
use a2kit.Analyze.Between.HalfOpen.{time_of}
use a2kit.Analyze.Analysis.{
  earliest, latest, last_time, Analysis, chosen, analysis, locked, busiest, messages_on, no_flow,
}

-- A time that is in the recording
abbrev pub IsIn : Analysis → ℕ → Type 0
IsIn a t = (a.first ≤ t) × (t ≤ a.last)

earliest-le : (t : ℕ) (ps : List Packet) → (earliest t ps ≤ t) × All (λ p. earliest t ps ≤ p.t) ps
unfolding earliest
earliest-le t [] = (omega arith, tt)
earliest-le t (p ∷ ps) =
    let (a, h) = earliest-le (if ltb p.t t then p.t else t) ps in (least a, (least' a, h))
  where
    least : {e : ℕ} → e ≤ (if ltb p.t t then p.t else t) → e ≤ t
    least h = ground arith

    least' : {e : ℕ} → e ≤ (if ltb p.t t then p.t else t) → e ≤ p.t
    least' h = ground arith

latest-ge : (t : ℕ) (ps : List Packet) → (t ≤ latest t ps) × All (λ p. p.t ≤ latest t ps) ps
unfolding latest
latest-ge t [] = (omega arith, tt)
latest-ge t (p ∷ ps) =
    let (a, h) = latest-ge (if ltb t p.t then p.t else t) ps in (most a, (most' a, h))
  where
    most : {e : ℕ} → (if ltb t p.t then p.t else t) ≤ e → t ≤ e
    most h = ground arith

    most' : {e : ℕ} → (if ltb t p.t then p.t else t) ≤ e → p.t ≤ e
    most' h = ground arith

last_time-ge :
    (t : ℕ) (ms : List Message)
    → All (λ m. t ≤ time_of m) ms
    → IsSorted time_of ms
    → (t ≤ last_time t ms) × All (λ m. time_of m ≤ last_time t ms) ms
unfolding last_time
last_time-ge t [] h s = (omega arith, tt)
last_time-ge t (m ∷ ms) (h, hs) (l, s) =
    let (a, k) = last_time-ge (time_of m) ms l s in (omega arith, (a, k))

-- What an analysis says of its times
abbrev pub IsBounded : Analysis → Type 0
IsBounded a =
    All (λ m. IsIn a (time_of m)) a.messages
    × All (λ p. IsIn a p.t) a.sent
    × IsSorted time_of a.messages

abbrev IfBounded : Option Analysis → Type 0
IfBounded none = Unit
IfBounded (some a) = IsBounded a

both :
    {A : Type 0} (key : A → ℕ) (lo hi : ℕ) (xs : List A)
    → All (λ x. lo ≤ key x) xs
    → All (λ x. key x ≤ hi) xs
    → All (λ x. (lo ≤ key x) × (key x ≤ hi)) xs
both key lo hi [] h g = tt
both key lo hi (x ∷ xs) (h, hs) (g, gs) = ((h, g), both key lo hi xs hs gs)

chosen-IfBounded :
    (srv : Flow) (pairs start : ℕ) (ms : List Message) (sent : List Packet)
    (sum : Summary × (Bool × Stats))
    → IsSorted time_of ms
    → IfBounded (chosen srv pairs start ms sent sum)
unfolding chosen
chosen-IfBounded srv pairs start [] sent sum s = tt
chosen-IfBounded srv pairs start (m ∷ ms) sent sum (l, s) =
    let (e, es) = earliest-le (time_of m) sent in
    let (b, bs) = last_time-ge (time_of m) ms l s in
    let (g, gs) = latest-ge (last_time (time_of m) ms) sent in
    (
      both time_of _ _ (m ∷ ms) (e, All-map _ _ (λ n h. omega (arith, e, h)) ms l)
          (All-map _ _ (λ n h. omega (arith, h, g)) (m ∷ ms) (b, bs)),
      both (λ p. p.t) _ _ sent es gs,
      (l, s),
    )

analysis-IfBounded :
    (ms : List Message) (sum : Summary × (Bool × Stats)) (tee : Tee)
    → IfBounded (analysis ms sum tee)
unfolding analysis
analysis-IfBounded [] sum tee = tt
analysis-IfBounded (m ∷ ms) sum tee =
    let pairs = locked (m ∷ ms) [] in
    let srv = busiest pairs no_flow (m ∷ ms) in
    let back : Flow = record { src = srv.dst; dst = srv.src; if_index = srv.if_index } in
    let on = sort_by time_of (messages_on srv (m ∷ ms)) in
    if_cases IfBounded (length pairs == 0) none _ (λ _. tt)
      λ _.
        chosen-IfBounded srv (length pairs) (time_of m) on (sent_on back tee.segs) sum
          (sort_by-IsSorted time_of (messages_on srv (m ∷ ms)))

-- An analysis bounds its recording: each of its messages and of the client's packets is at First, at
-- Last or between them, and its messages are sorted by time, if there is one, for any messages and
-- whatever the tee kept.
pub analysis-IsBounded :
    (ms : List Message) (sum : Summary × (Bool × Stats)) (tee : Tee) (a : Analysis)
    → analysis ms sum tee ≡ some a
    → IsBounded a
analysis-IsBounded ms sum tee a e = subst IfBounded e (analysis-IfBounded ms sum tee)
