-- ===== src/Messages/Counted.antt =====
-- a2kit.go: the counts of a summary.
use a2kit.Common.{arith, ℕ, ◌+◌, Bool, List, [], ◌∷◌, ◌≡◌, refl, length, if◌then◌else◌, map, ap}
use a2kit.Game.Parse.{Parsed, event, unread, layout}
use a2kit.Wire.Frame.{Frame}
use a2kit.Messages.{Message, message_of, Summary, no_summary, failed, decoded, add, messages}

-- The messages that a test holds of
abbrev pub count_if : (Message → Bool) → List Message → ℕ
count_if P [] = 0
count_if P (m ∷ ms) = (if P m then 1 else 0) + count_if P ms

abbrev all_of : Summary → ℕ
all_of s = s.decoded_n + s.unread_n + s.failed_n

-- What one message adds to each count
record Adds (m : Message) (s t : Summary) : Type 0 where
  all : t.messages ≡ s.messages + 1
  decodes : t.decoded_n ≡ s.decoded_n + (if decoded m then 1 else 0)
  fails : t.failed_n ≡ s.failed_n + (if failed m then 1 else 0)
  parts : all_of t ≡ all_of s + 1

add-Adds : (m : Message) (s : Summary) → Adds m s (add m s)
unfolding add decoded failed
add-Adds m s = by_read m.read
  where
    by_read : (r : Parsed) → Adds (record m { read = r }) s (add (record m { read = r }) s)
    by_read (event e) = record {
      all = refl;
      decodes = refl;
      fails = omega arith;
      parts = omega arith;
    }
    by_read unread = record {
      all = refl;
      decodes = omega arith;
      fails = omega arith;
      parts = omega arith;
    }
    by_read (layout at n) = record {
      all = refl;
      decodes = omega arith;
      fails = refl;
      parts = omega arith;
    }

record Totals (fs : List Frame) (s t : Summary) (ms : List Message) : Type 0 where
  all : t.messages ≡ s.messages + length fs
  decodes : t.decoded_n ≡ s.decoded_n + count_if decoded ms
  fails : t.failed_n ≡ s.failed_n + count_if failed ms
  parts : all_of t ≡ all_of s + length fs

messages-Totals : (fs : List Frame) (s : Summary) → Totals fs s (messages fs s).1 (messages fs s).0
unfolding messages
messages-Totals [] s = record {
  all = omega arith;
  decodes = omega arith;
  fails = omega arith;
  parts = omega arith;
}
messages-Totals (f ∷ fs) s =
    let a = add-Adds (message_of f) s in
    let t = messages-Totals fs (add (message_of f) s) in
    record {
      all = omega (arith, a.all, t.all);
      decodes = omega (arith, a.decodes, t.decodes);
      fails = omega (arith, a.fails, t.fails);
      parts = omega (arith, a.parts, t.parts);
    }

messages-frames :
    (fs : List Frame) (s : Summary) → map (λ (m : Message). m.frame) (messages fs s).0 ≡ fs
unfolding messages
messages-frames [] s = refl
messages-frames (f ∷ fs) s =
    ap (λ (gs : List Frame). f ∷ gs) (messages-frames fs (add (message_of f) s))

length-messages : (fs : List Frame) (s : Summary) → length (messages fs s).0 ≡ length fs
unfolding messages
length-messages [] s = refl
length-messages (f ∷ fs) s = omega (arith, length-messages fs (add (message_of f) s))

-- A summary's counts agree with the messages: there is one message for each frame, in order, Messages
-- is their number, Decoded the number of those that have an event, Failed the number of those whose
-- bytes do not fit, and Decoded, Unread and Failed add up to Messages.
pub messages-Summary :
    (fs : List Frame)
    → let (ms, sum) = messages fs no_summary in
      (map (λ (m : Message). m.frame) ms ≡ fs)
      × (sum.messages ≡ length ms)
      × (sum.decoded_n ≡ count_if decoded ms)
      × (sum.failed_n ≡ count_if failed ms)
      × (sum.decoded_n + sum.unread_n + sum.failed_n ≡ sum.messages)
messages-Summary fs =
    let t = messages-Totals fs no_summary in
    let e = messages-frames fs no_summary in
    (
      e,
      omega (arith, t.all, length-messages fs no_summary),
      omega (arith, t.decodes),
      omega (arith, t.fails),
      omega (arith, t.all, t.parts),
    )
