-- ===== src/Capture/Record/RoundTrip.antt =====
-- capture/record.go and capture/pcap.go: what is recorded, read back.
use mathlib.Core.Path.{subst}
use a2kit.Common.{
  ℕ, ◌^◌, ◌<◌, ◌≤◌, ◌≡◌, refl, List, [], ◌∷◌, ◌++◌, All, some, arith, length, take, length-append,
  take-length_append, drop-length_append, append_assoc, append-nil, ◌-◌, ap, ◌∙◌, length-take,
  Bool-cases, ltb, inl, inr, take-past,
}
use a2kit.Capture.Order.{little, u32_bytes}
use a2kit.Capture.Packet.{Packet, Read, got, eof, failed, truncated}
use a2kit.Capture.Classic.{Classic, new_classic, next, max_snap}
use a2kit.Capture.Record.{file_header, record_of}

-- A file that the recorder wrote, from `rest` on
abbrev pub recorded : ℕ → List ℕ → Classic
recorded link_type rest = record { rest = rest; order = little; tick = 1; link_type = link_type }

-- A time within the seconds of a record, and a packet that a reader takes
pub record Fits (p : Packet) : Type 0 where
  pub sec : p.time.sec < 2 ^ 32
  pub ns : p.time.ns < 1000000000
  pub orig : p.orig < 2 ^ 32
  pub size : length p.bytes ≤ max_snap
  pub adapter : p.if_index ≡ 0

new_classic-file_header :
    (link_type : ℕ) (rest : List ℕ)
    → link_type < 2 ^ 26
    → new_classic (file_header link_type ++ rest) ≡ some (recorded link_type rest)
unfolding new_classic file_header
new_classic-file_header link_type rest h = ground arith

next-record_of :
    (link_type : ℕ) (p : Packet) (rest : List ℕ)
    → Fits p
    → p.link_type ≡ link_type
    → next (recorded link_type (record_of p.time p.bytes p.orig ++ rest))
      ≡ got p (recorded link_type rest)
unfolding next record_of
next-record_of link_type p rest h l = ground (
  arith,
  length-append p.bytes rest,
  take-length_append p.bytes rest,
  drop-length_append p.bytes rest,
)

-- A reader that gives `ps` one after the other, and then answers `r`
abbrev pub Reads : Classic → List Packet → Read Packet Classic → Type 0
Reads c [] r = next c ≡ r
Reads c (p ∷ ps) r = (d : Classic) × (next c ≡ got p d) × Reads d ps r

abbrev pub records : List Packet → List ℕ
records [] = []
records (p ∷ ps) = record_of p.time p.bytes p.orig ++ records ps

-- Packets that are recorded on one adapter
abbrev pub IsRecorded : ℕ → Packet → Type 0
IsRecorded link_type p = Fits p × (p.link_type ≡ link_type)

records-Reads :
    (link_type : ℕ) (ps : List Packet) (tail : List ℕ) (r : Read Packet Classic)
    → All (IsRecorded link_type) ps
    → next (recorded link_type tail) ≡ r
    → Reads (recorded link_type (records ps ++ tail)) ps r
records-Reads link_type [] tail r h e = e
records-Reads link_type (p ∷ ps) tail r h e = (
  recorded link_type (records ps ++ tail),
  ap (λ l. next (recorded link_type l))
        (append_assoc (record_of p.time p.bytes p.orig) (records ps) tail)
      ∙ next-record_of link_type p (records ps ++ tail) h.0.0 h.0.1,
  records-Reads link_type ps tail r h.1 e,
)

-- The bytes of a record before its packet's
abbrev head_of : Packet → List ℕ
head_of p =
    u32_bytes p.time.sec ++ u32_bytes p.time.ns ++ u32_bytes (length p.bytes) ++ u32_bytes p.orig

next-cut_body :
    (link_type : ℕ) (p : Packet) (q : List ℕ)
    → Fits p
    → length q < length p.bytes
    → next (recorded link_type (head_of p ++ q)) ≡ failed truncated
unfolding next
next-cut_body link_type p q h l = ground arith

-- A record that is cut before its end
next-cut :
    (link_type : ℕ) (p : Packet) (k : ℕ)
    → Fits p
    → 0 < k
    → k < length (record_of p.time p.bytes p.orig)
    → next (recorded link_type (take k (record_of p.time p.bytes p.orig))) ≡ failed truncated
unfolding next record_of
next-cut link_type p k h lo hi = elim (Bool-cases (ltb k 16)) [
  | inl head ↦ ground (arith, length-take k (record_of p.time p.bytes p.orig))
  | inr body ↦
      let far : 16 ≤ k = ground arith in
      ap (λ l. next (recorded link_type l)) (take-past (head_of p) p.bytes k far)
      ∙ next-cut_body link_type p (take (k - 16) p.bytes) h
          (omega (arith, length-take (k - 16) p.bytes))
]

next-end : (link_type : ℕ) → next (recorded link_type []) ≡ eof
unfolding next
next-end link_type = refl

-- A recording is read back: the packets recorded on one adapter, each with its time, bytes and
-- length on the wire, in order, and then the end of the file. The times are below 2^32 seconds,
-- and no packet is longer than a reader takes.
pub recording-Reads :
    (link_type : ℕ) (ps : List Packet)
    → link_type < 2 ^ 26
    → All (IsRecorded link_type) ps
    → (c : Classic) × (new_classic (file_header link_type ++ records ps) ≡ some c) × Reads c ps eof
recording-Reads link_type ps h all = (
  recorded link_type (records ps),
  new_classic-file_header link_type (records ps) h,
  subst (λ l. Reads (recorded link_type l) ps eof) (append-nil (records ps))
      (records-Reads link_type ps [] eof all (next-end link_type)),
)

-- A recording whose last record was cut, anywhere after its first byte, is read back up to the
-- record before, and then fails as truncated.
pub recording_cut-Reads :
    (link_type : ℕ) (ps : List Packet) (p : Packet) (k : ℕ)
    → link_type < 2 ^ 26
    → All (IsRecorded link_type) ps
    → IsRecorded link_type p
    → 0 < k
    → k < length (record_of p.time p.bytes p.orig)
    → (c : Classic) × (new_classic
          (file_header link_type ++ (records ps ++ take k (record_of p.time p.bytes p.orig)))
        ≡ some c)
      × Reads c ps (failed truncated)
recording_cut-Reads link_type ps p k h all last lo hi =
    let tail = take k (record_of p.time p.bytes p.orig) in
    (
      recorded link_type (records ps ++ tail),
      new_classic-file_header link_type (records ps ++ tail) h,
      records-Reads link_type ps tail (failed truncated) all (next-cut link_type p k last.0 lo hi),
    )
