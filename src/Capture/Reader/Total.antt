-- ===== src/Capture/Reader/Total.antt =====
-- capture/capture.go: the rounds of ReadSegment.
use a2kit.Common.{
  ℕ, zero, suc, ◌+◌, ◌≤◌, ◌<◌, ◌≡◌, refl, Option, none, some, arith, length, drop, length-drop,
  if_cases, ltb, ◌==◌, List, false,
}
use a2kit.Wire.Frame.{Segment}
use a2kit.Capture.Packet.{Packet, Read, got, eof, failed, truncated, packet_length}
use a2kit.Capture.Order.{u32}
use a2kit.Capture.Peel.{peel}
use a2kit.Capture.Classic.{Classic, max_snap}
use a2kit.Capture.Classic.{next as next_classic}
use a2kit.Capture.Pcapng.{Pcapng}
use a2kit.Capture.Pcapng.{next as next_pcapng}
use a2kit.Capture.Pcapng.Total.{Answers, next-Answers}
use a2kit.Capture.Reader.{
  Container, classic, pcapng, Reader, with_container, of_pcapng, next, rest_of, on_packet, round,
  read_loop, read_segment, stamped, cut_by,
}

-- An answer of a container, which leaves fewer than `k` bytes if it is a packet
abbrev Gives : ℕ → Option (Read Packet Container) → Type 0
Gives k none = ⊥
Gives k (some (got p c)) = length (rest_of c) + 1 ≤ k
Gives k (some eof) = Unit
Gives k (some (failed e)) = Unit

-- A read of a classic file, which leaves fewer than `k` bytes if it is a packet
abbrev Left : ℕ → Read Packet Classic → Type 0
Left k (got p c) = length c.rest + 1 ≤ k
Left k eof = Unit
Left k (failed e) = Unit

drop-Less :
    (p : List ℕ) (n : ℕ) → ltb (length p) (16 + n) ≡ false → length (drop (16 + n) p) + 1 ≤ length p
drop-Less p n h = ground (arith, length-drop (16 + n) p)

classic-Left : (c : Classic) → Left (length c.rest) (next_classic c)
unfolding next_classic
classic-Left c =
    let n = u32 c.order (drop 8 c.rest) in
    if_cases (Left (length c.rest)) (length c.rest == 0) eof _ (λ _. tt)
      λ _.
        if_cases (Left (length c.rest)) (ltb (length c.rest) 16) (failed truncated) _ (λ _. tt)
          λ _.
            if_cases (Left (length c.rest)) (ltb max_snap n) (failed (packet_length n)) _ (λ _. tt)
              λ _.
                if_cases (Left (length c.rest)) (ltb (length c.rest) (16 + n)) (failed truncated) _
                  (λ _. tt) λ there. drop-Less c.rest n there

classic-Gives :
    (k : ℕ) (r : Read Packet Classic) → Left k r → Gives k (some (with_container classic r))
unfolding with_container
classic-Gives k (got p c) h = h
classic-Gives k eof h = tt
classic-Gives k (failed e) h = tt

of_pcapng-Gives : (k : ℕ) (o : Option (Read Packet Pcapng)) → Answers k o → Gives k (of_pcapng o)
unfolding of_pcapng with_container
of_pcapng-Gives k none h = h
of_pcapng-Gives k (some (got p m)) h = omega arith
of_pcapng-Gives k (some eof) h = tt
of_pcapng-Gives k (some (failed e)) h = tt

next-Gives : (c : Container) → Gives (length (rest_of c)) (next c)
unfolding next
next-Gives (classic c) = classic-Gives (length c.rest) (next_classic c) (classic-Left c)
next-Gives (pcapng n) = of_pcapng-Gives (length n.rest) (next_pcapng n) (next-Answers n)

abbrev Returns : Option (Read Segment Reader) → Type 0
Returns o = (s : Read Segment Reader) × (o ≡ some s)

round-Returns :
    (again : Reader → Option (Read Segment Reader)) (cut k : ℕ) (o : Option (Read Packet Container))
    → ((r : Reader) → length (rest_of r.c) + 1 ≤ k → Returns (again r))
    → Gives k o
    → Returns (round again cut o)
unfolding round on_packet
round-Returns again cut k none rec h = absurd h
round-Returns again cut k (some eof) rec h = (eof, refl)
round-Returns again cut k (some (failed e)) rec h = (failed e, refl)
round-Returns again cut k (some (got p c)) rec h = by_peel (peel p.link_type p.bytes)
  where
    r : Reader
    r = record { c = c; cut = cut }

    by_peel :
        (o : Option Segment)
        → Returns (elim o as (λ x. Option (Read Segment Reader)) [
          | none ↦ again r
          | some s ↦ some (got (stamped p s) (cut_by p r))
        ])
    by_peel none = rec r h
    by_peel (some s) = (got (stamped p s) (cut_by p r), refl)

read_loop-Returns :
    (fuel : ℕ) (r : Reader) → length (rest_of r.c) < fuel → Returns (read_loop fuel r)
unfolding read_loop
read_loop-Returns zero r h = absurd (omega arith)
read_loop-Returns (suc fuel) r h =
    round-Returns (λ s. read_loop fuel s) r.cut (length (rest_of r.c)) (next r.c)
      (λ s l. read_loop-Returns fuel s (omega arith)) (next-Gives r.c)

-- ReadSegment returns for every reader, of either format and whatever its bytes are: its loop over
-- packets ends, and so does the loop over the blocks of a pcapng file.
pub read_segment-returns : (r : Reader) → (s : Read Segment Reader) × (read_segment r ≡ some s)
unfolding read_segment
read_segment-returns r = read_loop-Returns (suc (length (rest_of r.c))) r (omega arith)
