-- ===== src/Capture/Pcapng/Total.antt =====
-- capture/pcapng.go: the rounds of next.
use a2kit.Common.{
  ℕ, zero, suc, ◌+◌, ◌-◌, ◌%◌, ◌≤◌, ◌≡◌, refl, none, some, Bool, true, false, not, ◌&&◌, ◌||◌,
  Option, none, some, arith, length, drop, take, length-drop, ltb, ◌==◌, if◌then◌else◌, if_cases,
  u32_le,
}
use a2kit.Capture.Order.{Order, u16, u32}
use a2kit.Capture.Packet.{
  Packet, Read, got, eof, failed, truncated, no_section, block_length, lengths_disagree, version,
  Result, ok, err,
}
use a2kit.Capture.Pcapng.Interface.{Iface, iface}
use a2kit.Capture.Pcapng.{
  Pcapng, Block, max_block, sized, ordered, start_section, read_block, Turn, answer, go_on,
  answer_of, described, on_block, turn, next_loop, next, ng_section, packet_block, simple_block,
  ng_interface, ng_enhanced, ng_obsolete, ng_simple,
}

-- A read that leaves 12 bytes fewer than `k`, if it gives a value
abbrev Shorter : {A : Type 0} → ℕ → Read A Pcapng → Type 0
Shorter k (got a m) = length m.rest + 12 ≤ k
Shorter k eof = Unit
Shorter k (failed e) = Unit

sized-Shorter :
    (section : Bool) (n : Pcapng) (o : Order) (size : ℕ)
    → Shorter (length n.rest) (sized section n o size)
unfolding sized
sized-Shorter section n o size =
    let body = take (size - 12) (drop 8 n.rest) in
    if_cases (Shorter (length n.rest)) (ltb size 12 || not (size % 4 == 0) || ltb max_block size)
      (failed (block_length size)) _ (λ _. tt)
      λ big.
        if_cases (Shorter (length n.rest)) (ltb (length n.rest) size) (failed truncated) _ (λ _. tt)
          λ there.
            if_cases (Shorter (length n.rest)) (not (u32 o (drop (size - 4) n.rest) == size))
              (failed lengths_disagree) _ (λ _. tt)
              λ _.
                if_cases (Shorter (length n.rest))
                  (section && (ltb (length body) 16 || not (u16 o (drop 4 body) == 1)))
                  (failed version) _ (λ _. tt) λ _. ground (arith, length-drop size n.rest)

ordered-Shorter :
    (section : Bool) (n : Pcapng) (k : ℕ) → length n.rest ≡ k → Shorter k (ordered section (ok n))
unfolding ordered
ordered-Shorter section n k h = by_order n.order refl
  where
    by_order :
        (o : Option Order) → n.order ≡ o → Shorter k (ordered section (ok (record n { order = o })))
    by_order none e = tt
    by_order (some o) e =
        rw (← h) (sized-Shorter section (record n { order = some o }) o (u32 o (drop 4 n.rest)))

-- A section header set, if it could be, by a reader that has `k` bytes left
abbrev Keeps : ℕ → Result Pcapng → Type 0
Keeps k (ok n) = length n.rest ≡ k
Keeps k (err e) = Unit

start_section-Keeps : (n : Pcapng) → Keeps (length n.rest) (start_section n)
unfolding start_section
start_section-Keeps n = ground arith

result-Shorter :
    (section : Bool) (k : ℕ) (r : Result Pcapng) → Keeps k r → Shorter k (ordered section r)
result-Shorter section k (ok n) h = ordered-Shorter section n k h
result-Shorter section k (err e) h = unfold ordered in tt

read_block-Shorter : (n : Pcapng) → Shorter (length n.rest) (read_block n)
unfolding read_block
read_block-Shorter n =
    let section = u32_le n.rest == ng_section in
    if_cases (Shorter (length n.rest)) (length n.rest == 0) eof _ (λ _. tt)
      λ _.
        if_cases (Shorter (length n.rest)) (ltb (length n.rest) 8) (failed truncated) _ (λ _. tt)
          λ _. result-Shorter section (length n.rest) (if section then start_section n else ok n) (
            if_cases (Keeps (length n.rest)) section (start_section n) (ok n)
              (λ _. start_section-Keeps n) λ _. refl)

-- What a round leaves of `k` bytes
abbrev Leaves : ℕ → Turn → Type 0
Leaves k (answer (got p m)) = length m.rest + 12 ≤ k
Leaves k (answer eof) = Unit
Leaves k (answer (failed e)) = Unit
Leaves k (go_on m) = length m.rest + 12 ≤ k

answer_of-Leaves :
    (k : ℕ) (n : Pcapng) (r : Result Packet) → length n.rest + 12 ≤ k → Leaves k (answer_of n r)
unfolding answer_of
answer_of-Leaves k n (ok p) h = h
answer_of-Leaves k n (err e) h = tt

described-Leaves :
    (k : ℕ) (n : Pcapng) (r : Result Iface) → length n.rest + 12 ≤ k → Leaves k (described n r)
unfolding described
described-Leaves k n (ok i) h = h
described-Leaves k n (err e) h = tt

on_block-Leaves :
    (k : ℕ) (o : Order) (b : Block) (n : Pcapng)
    → length n.rest + 12 ≤ k
    → Leaves k (on_block o b n)
unfolding on_block
on_block-Leaves k o b n h =
    if_cases (Leaves k) (b.typ == ng_interface) (described n (iface o b.body)) _
      (λ _. described-Leaves k n (iface o b.body) h)
      λ _.
        if_cases (Leaves k) (b.typ == ng_enhanced)
          (answer_of n (packet_block o n.ifaces b.body false)) _
          (λ _. answer_of-Leaves k n (packet_block o n.ifaces b.body false) h)
          λ _.
            if_cases (Leaves k) (b.typ == ng_obsolete)
              (answer_of n (packet_block o n.ifaces b.body true)) _
              (λ _. answer_of-Leaves k n (packet_block o n.ifaces b.body true) h)
              λ _.
                if_cases (Leaves k) (b.typ == ng_simple)
                  (answer_of n (simple_block o n.ifaces b.body)) (go_on n)
                  (λ _. answer_of-Leaves k n (simple_block o n.ifaces b.body) h) λ _. h

turn-Leaves : (k : ℕ) (r : Read Block Pcapng) → Shorter k r → Leaves k (turn r)
unfolding turn
turn-Leaves k eof h = tt
turn-Leaves k (failed e) h = tt
turn-Leaves k (got b n) h = by_order n.order
  where
    by_order :
        (o : Option Order)
        → Leaves k
            (elim o as (λ x. Turn) [ none ↦ answer (failed no_section) | some o ↦ on_block o b n ])
    by_order none = tt
    by_order (some o) = on_block-Leaves k o b n h

-- An answer of next, which leaves fewer than `k` bytes if it is a packet
abbrev pub Answers : ℕ → Option (Read Packet Pcapng) → Type 0
Answers k none = ⊥
Answers k (some (got p m)) = length m.rest + 12 ≤ k
Answers k (some eof) = Unit
Answers k (some (failed e)) = Unit

Answers-mono : (j k : ℕ) (o : Option (Read Packet Pcapng)) → j ≤ k → Answers j o → Answers k o
Answers-mono j k none l h = h
Answers-mono j k (some (got p m)) l h = omega arith
Answers-mono j k (some eof) l h = tt
Answers-mono j k (some (failed e)) l h = tt

next_loop-Answers : (fuel k : ℕ) (t : Turn) → k ≤ fuel → Leaves k t → Answers k (next_loop fuel t)
unfolding next_loop
next_loop-Answers fuel k (answer (got p m)) l h = h
next_loop-Answers fuel k (answer eof) l h = tt
next_loop-Answers fuel k (answer (failed e)) l h = tt
next_loop-Answers zero k (go_on n) l h = absurd (omega arith)
next_loop-Answers (suc fuel) k (go_on n) l h = Answers-mono (length n.rest) k _ (omega arith) (
    next_loop-Answers fuel (length n.rest) (turn (read_block n)) (omega arith)
      (turn-Leaves (length n.rest) (read_block n) (read_block-Shorter n)))

pub next-Answers : (n : Pcapng) → Answers (length n.rest) (next n)
unfolding next next_loop
next-Answers n =
    next_loop-Answers (length n.rest) (length n.rest) (turn (read_block n)) (omega arith)
      (turn-Leaves (length n.rest) (read_block n) (read_block-Shorter n))
