-- ===== src/Game/Parse/Safe.antt =====
-- game/parse.go: the readers in the table of opcodes, and the error that Parse returns.
use a2kit.Common.{
  ℕ, ◌≤◌, ◌≡◌, true, false, List, [], ◌∷◌, Option, none, some, arith, All, Bool-cases, inl, inr,
  length, bit_at, ◌==◌, ==_iff, ap,
}
use a2kit.Wire.Frame.{Frame}
use a2kit.Game.Reader.{Read, Reader}
use a2kit.Game.Reader.Safe.{IsSafe, Follows}
use a2kit.Game.Events.{Event}
use a2kit.Game.Parse.{Op, opcodes, op_of, seen, layout, conclude, run_op, parse}
use a2kit.Game.Parse.Combat.Safe.{
  hit-IsSafe, death-IsSafe, fall-IsSafe, kill-IsSafe, cast-IsSafe, cast_end-IsSafe,
}
use a2kit.Game.Parse.World.Safe.{
  spawn-IsSafe, object-IsSafe, player-IsSafe, self-IsSafe, move_a-IsSafe, move_b-IsSafe,
  tick-IsSafe, ping-IsSafe, zone-IsSafe, name_check-IsSafe,
}
use a2kit.Game.Parse.Tables.Safe.{
  sheet-IsSafe, sheet_update-IsSafe, gauges-IsSafe, gear_score-IsSafe, combat_power-IsSafe,
}
use a2kit.Game.Parse.Lobby.Safe.{
  servers-IsSafe, redirect-IsSafe, account-IsSafe, characters-IsSafe, lobby_ping-IsSafe,
}

-- Of an op's reader, if it has one.
abbrev pub OnRead : (Read (Option Event) → Type 0) → Option (Read (Option Event)) → Type 0
OnRead P none = Unit
OnRead P (some m) = P m

pub op_of-All :
    (Q : ℕ → Op → Type 0) (table : List (ℕ × Op)) (o : ℕ)
    → Q o (seen "")
    → All (λ e. Q e.0 e.1) table
    → Q o (op_of table o)
unfolding op_of
op_of-All Q [] o d h = d
op_of-All Q ((k, v) ∷ table) o d h = elim (Bool-cases (k == o)) [
  | inl e ↦ rw (e, ← (==_iff k o).0 e) h.0
  | inr e ↦ rw e (op_of-All Q table o d h.1)
]

opcodes-IsSafe : All (λ e. OnRead IsSafe e.1.read) opcodes
unfolding opcodes
opcodes-IsSafe = assumption (
  hit-IsSafe, death-IsSafe, fall-IsSafe, kill-IsSafe, cast-IsSafe, cast_end-IsSafe, spawn-IsSafe,
  object-IsSafe, player-IsSafe, self-IsSafe, move_a-IsSafe, move_b-IsSafe, tick-IsSafe, ping-IsSafe,
  zone-IsSafe, name_check-IsSafe, sheet-IsSafe, sheet_update-IsSafe, gauges-IsSafe,
  gear_score-IsSafe, combat_power-IsSafe, servers-IsSafe, redirect-IsSafe, account-IsSafe,
  characters-IsSafe, lobby_ping-IsSafe, tt,
)

pub op_of-IsSafe : (o : ℕ) → OnRead IsSafe (op_of opcodes o).read
op_of-IsSafe o = op_of-All (λ _ p. OnRead IsSafe p.read) opcodes o tt opcodes-IsSafe

-- Every reader in the table of opcodes, from an index within the payload, leaves the payload as it
-- is, and does not move the index back or past the payload's end.
pub read_inside :
    (o : ℕ) (m : Read (Option Event)) (r : Reader)
    → (op_of opcodes o).read ≡ some m
    → r.i ≤ length r.p
    → ((m r).1.p ≡ r.p) × (r.i ≤ (m r).1.i) × ((m r).1.i ≤ length r.p)
read_inside o m r e h =
    let s : IsSafe m = rw e at (op_of-IsSafe o) in
    let f : Follows r (m r).1 = s.at r h in (f.same, f.onward, f.inside)

-- Every reader in the table of opcodes, once a read has failed, stays failed and does not move
-- from its index within the payload.
pub read_after_failure :
    (o : ℕ) (m : Read (Option Event)) (r : Reader)
    → (op_of opcodes o).read ≡ some m
    → r.bad ≡ true
    → r.i ≤ length r.p
    → ((m r).1.bad ≡ true) × ((m r).1.i ≡ r.i)
read_after_failure o m r e b h =
    let s : IsSafe m = rw e at (op_of-IsSafe o) in
    let f : Follows r (m r).1 = s.at r h in (f.stays_bad b, f.stays_put b)

conclude-layout :
    (e : Option Event) (r : Reader) (i n : ℕ)
    → conclude (e, r) ≡ layout i n
    → (r.i ≡ i) × (length r.p ≡ n) × (r.bad ≡ true)
unfolding conclude
conclude-layout e r i n h = ground arith

run_op-layout :
    (m : Option (Read (Option Event))) (p : List ℕ) (i n : ℕ)
    → OnRead IsSafe m
    → run_op m p ≡ layout i n
    → (n ≡ length p) × (i ≤ n)
unfolding run_op
run_op-layout none p i n s h = cc
run_op-layout (some m) p i n s h =
    let r : Reader = record { p = p; i = 0; bad = false } in
    let f : Follows r (m r).1 = s.at r (omega arith) in
    let c = conclude-layout (m r).0 (m r).1 i n h in
    let same : length (m r).1.p ≡ length p = ap length f.same in
    let inside : (m r).1.i ≤ length p = f.inside in omega (arith, c.0, c.1, same, inside)

-- When parse fails on the layout, the error names the payload's length and a byte within it.
pub parse-layout : (f : Frame) (i n : ℕ) → parse f ≡ layout i n → (n ≡ length f.payload) × (i ≤ n)
unfolding parse
parse-layout f i n h = elim (Bool-cases (bit_at f.flags 1)) [
  | inl e ↦ cc (rw e at h)
  | inr e ↦ run_op-layout _ f.payload i n (op_of-IsSafe f.opcode) (rw e at h)
]
