-- ===== src/Wire/Tests.antt =====
-- Runs of the wire package on small inputs.
use a2kit.Common.{
  none, All, ◌==◌, if◌then◌else◌, ℕ, ◌+◌, ◌≤◌, ◌≡◌, ◌≢◌, refl, true, false, List, [], ◌∷◌, ◌++◌,
  map, Option, some, arith, take, length, IsU32,
}
use a2kit.Wire.Opcode.{in_family}
use a2kit.Wire.Opcode.{opcode, bytes, to_text, from_text}
use a2kit.Wire.Opcode.Text.{from_text-to_text}
use a2kit.Wire.Frame.{names, from_names}
use a2kit.Wire.Frame.Names.{from_names-names}
use a2kit.Wire.Varint.{value, uvarint, leb128, short}
use a2kit.Wire.Varint.Encoding.{uvarint-leb128}
use a2kit.Wire.Varint.Canonical.{uvarint_canonical}
use a2kit.Wire.Varint.Prefix.{uvarint-append}
use a2kit.Wire.Scan.{Verdict, Scan, new_scan, find}
use a2kit.Wire.Scan.Answers.{find-none}
use a2kit.Wire.Envelope.{Envelopes, no_envelopes, strip}
use a2kit.Wire.Envelope.Feed.{feed, strip-feed}
use a2kit.Wire.Envelope.Strip.{then_strip, strip-append, wrap, join, strip-wrap}
use a2kit.Wire.Framer.State.{Framer, Emission, new_framer, max_frame}
use a2kit.Wire.Framer.Length.{whole, frame_len}
use a2kit.Wire.Framer.Length.Bounds.{frame_len-whole}
use a2kit.Wire.Framer.Length.Encoded.{Message, IsSent}
use a2kit.Wire.Framer.Pump.{pump}
use a2kit.Wire.Framer.Pump.Frames.{plain, encode_all}
use a2kit.Wire.Framer.Pump.Progress.{Pumped, pump-Pumped}
use a2kit.Wire.Framer.Write.{write}
use a2kit.Wire.Framer.Write.Frames.{empty, write-frames}
use a2kit.Wire.Framer.Write.Total.{write-returns}
use a2kit.Wire.Envelope.Progress.{IsQuiet}

-- A stand-in for the decompressor: a block is its own plaintext.
abbrev stored : List ℕ → ℕ → Option (List ℕ)
stored block n = some (take n block)

-- A tick and a ping
abbrev tick : Message
tick = record { op0 = 0x00; op1 = 0x36; first = 7; rest = 8 ∷ [] }

abbrev ping : Message
ping = record { op0 = 0x03; op1 = 0x36; first = 1; rest = [] }

abbrev fresh : Framer
fresh = new_framer false

-- The bytes of both, behind padding
abbrev padded : List ℕ
padded = 0 ∷ encode_all (tick ∷ ping ∷ [])

-- A stream at a header
abbrev in_envelopes : Envelopes
in_envelopes = record no_envelopes { on = true }

abbrev bodies : List (List ℕ)
bodies = (1 ∷ 2 ∷ 3 ∷ 4 ∷ 5 ∷ 6 ∷ 7 ∷ 8 ∷ []) ∷ (9 ∷ 9 ∷ 9 ∷ 9 ∷ 9 ∷ 9 ∷ 9 ∷ 9 ∷ 9 ∷ []) ∷ []

tick-IsSent : IsSent false tick
unfolding leb128 in_family
tick-IsSent = record { no_bundle = λ e. omega arith; is_plausible = refl; fits = omega arith }

ping-IsSent : IsSent false ping
unfolding leb128 in_family
ping-IsSent = record { no_bundle = λ e. omega arith; is_plausible = refl; fits = omega arith }

small : length (encode_all (tick ∷ ping ∷ [])) ≤ max_frame
unfolding leb128
small = omega arith

quiet : IsQuiet no_envelopes
quiet = ground arith

write-frames_example :
    write stored (encode_all (tick ∷ ping ∷ [])) (empty fresh)
    ≡ some (empty fresh, map plain (tick ∷ ping ∷ []))
write-frames_example =
    write-frames stored fresh (tick ∷ ping ∷ []) (tick-IsSent, (ping-IsSent, tt)) small

write-returns_example :
    (g : Framer) × (frames : List Emission) × (write stored padded fresh ≡ some (g, frames))
    × IsQuiet g.env
write-returns_example = write-returns stored padded fresh quiet

pump-Pumped_example :
    Pumped (record fresh { buf = padded }) (pump stored (record fresh { buf = padded }))
pump-Pumped_example = pump-Pumped stored (record fresh { buf = padded }) quiet

strip-append_example :
    strip in_envelopes ((8 ∷ 0 ∷ []) ++ (0 ∷ 0 ∷ 5 ∷ []))
    ≡ then_strip (strip in_envelopes (8 ∷ 0 ∷ [])) (0 ∷ 0 ∷ 5 ∷ [])
strip-append_example = strip-append in_envelopes (8 ∷ 0 ∷ []) (0 ∷ 0 ∷ 5 ∷ [])

strip-feed_example : strip in_envelopes (wrap bodies) ≡ feed in_envelopes (wrap bodies)
strip-feed_example = strip-feed in_envelopes (wrap bodies)

strip-wrap_example : strip in_envelopes (wrap bodies) ≡ (join bodies, false, in_envelopes)
strip-wrap_example =
    strip-wrap in_envelopes bodies (refl, refl)
      ((omega arith, omega arith), ((omega arith, omega arith), tt))

uvarint-leb128_example : uvarint (leb128 4 300 ++ (5 ∷ [])) ≡ value 300 (length (leb128 4 300))
uvarint-leb128_example = uvarint-leb128 300 (5 ∷ []) (omega arith)

three_hundred : uvarint (0xAC ∷ 2 ∷ 5 ∷ []) ≡ value 300 2
unfolding uvarint
three_hundred = refl

uvarint_canonical_example :
    (rest : List ℕ) × ((0xAC ∷ 2 ∷ 5 ∷ []) ≡ leb128 4 300 ++ rest)
    × (2 ≡ length (leb128 4 300))
    × IsU32 300
uvarint_canonical_example =
    uvarint_canonical (0xAC ∷ 2 ∷ 5 ∷ []) 300 2 (omega arith, (omega arith, (omega arith, tt)))
      three_hundred

decided : uvarint (0xAC ∷ 2 ∷ []) ≢ short
unfolding uvarint
decided e = cc

uvarint-append_example : uvarint ((0xAC ∷ 2 ∷ []) ++ (5 ∷ [])) ≡ uvarint (0xAC ∷ 2 ∷ [])
uvarint-append_example = uvarint-append (0xAC ∷ 2 ∷ []) (5 ∷ []) decided

six_bytes : frame_len false (9 ∷ 0x00 ∷ 0x36 ∷ 7 ∷ 8 ∷ 9 ∷ []) true ≡ whole 6 1
unfolding frame_len uvarint
six_bytes = refl

frame_len-whole_example : (1 ≤ 1) × (1 ≤ 5) × (1 + 2 ≤ 6) × (6 ≤ 6) × (6 ≤ max_frame)
frame_len-whole_example =
    frame_len-whole false (9 ∷ 0x00 ∷ 0x36 ∷ 7 ∷ 8 ∷ 9 ∷ []) true 6 1 six_bytes

from_text-to_text_example :
    (from_text (to_text 0x3804) ≡ some 0x3804) × (opcode (bytes 0x3804 ++ (1 ∷ [])) ≡ 0x3804)
from_text-to_text_example = from_text-to_text 0x3804 (1 ∷ []) (omega arith)

from_names-names_example : from_names (names 21) ≡ 21
from_names-names_example = from_names-names 21 (omega arith)

-- A question that only the offset 3 answers yes, and 1 leaves open
abbrev third : ℕ → Verdict
third i = if i == 3 then Verdict.yes else if i == 1 then Verdict.maybe else Verdict.no

finds_third : find third 0 9 new_scan ≡ (some 3, record { done = 3; pending = 1 ∷ [] })
unfolding find
finds_third = refl

abbrev half_way : Scan
half_way = record { done = 2; pending = 1 ∷ [] }

finds_nothing : find third 0 3 half_way ≡ (none, record half_way { done = 3 })
unfolding find
finds_nothing = refl

find-none_example : All (λ j. third j ≢ Verdict.yes) (1 ∷ []) × (third 2 ≢ Verdict.yes)
find-none_example =
    find-none third 0 3 half_way (record half_way { done = 3 }) 2 finds_nothing (omega arith)
      (omega arith)
