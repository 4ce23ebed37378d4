-- ===== src/Game/Parse/Exact.antt =====
-- game/parse.go: how much of a payload a reader has read when it returns an event.
use a2kit.Common.{Option, some, length, ℕ, ◌≡◌, false, List, [], ◌∷◌, All, contains}
use a2kit.Game.Reader.Exact.{IsExact, exact_rules}
use a2kit.Game.Events.{Event, Hit, Stats}
use a2kit.Game.Reader.{Reader, Read}
use a2kit.Game.Parse.{Op, opcodes, op_of}
use a2kit.Game.Parse.Safe.{OnRead, op_of-All}
use a2kit.Game.Parse.Combat.{hit_end, hit_rest, hit, death, fall, kill, cast, cast_end}
use a2kit.Game.Parse.World.{object, tick, ping, name_check}
use a2kit.Game.Parse.Tables.{rows, sheet, sheet_update, gauges, gear_score, combat_power}
use a2kit.Game.Parse.Lobby.{servers, redirect, account, characters, lobby_ping}

hit_end-IsExact : (h : Hit) (sw : ℕ) → IsExact (hit_end h sw)
unfolding hit_end
hit_end-IsExact h sw = search exact_rules depth 40

hit_rest-IsExact : (h : Hit) (sw : ℕ) → IsExact (hit_rest h sw)
unfolding hit_rest
hit_rest-IsExact h sw = search (exact_rules, hit_end-IsExact) depth 40

hit-IsExact : IsExact hit
unfolding hit
hit-IsExact = search (exact_rules, hit_rest-IsExact) depth 40

rows-IsExact : (s : Stats) → IsExact (rows s)
unfolding rows
rows-IsExact s = search exact_rules depth 40

death-IsExact : IsExact death
unfolding death
death-IsExact = search exact_rules depth 60

fall-IsExact : IsExact fall
unfolding fall
fall-IsExact = search exact_rules depth 60

kill-IsExact : IsExact kill
unfolding kill
kill-IsExact = search exact_rules depth 60

cast-IsExact : IsExact cast
unfolding cast
cast-IsExact = search exact_rules depth 60

cast_end-IsExact : IsExact cast_end
unfolding cast_end
cast_end-IsExact = search exact_rules depth 60

object-IsExact : IsExact object
unfolding object
object-IsExact = search exact_rules depth 60

tick-IsExact : IsExact tick
unfolding tick
tick-IsExact = search exact_rules depth 60

ping-IsExact : IsExact ping
unfolding ping
ping-IsExact = search exact_rules depth 60

name_check-IsExact : IsExact name_check
unfolding name_check
name_check-IsExact = search exact_rules depth 60

gauges-IsExact : IsExact gauges
unfolding gauges
gauges-IsExact = search exact_rules depth 60

gear_score-IsExact : IsExact gear_score
unfolding gear_score
gear_score-IsExact = search exact_rules depth 60

combat_power-IsExact : IsExact combat_power
unfolding combat_power
combat_power-IsExact = search exact_rules depth 60

servers-IsExact : IsExact servers
unfolding servers
servers-IsExact = search exact_rules depth 60

redirect-IsExact : IsExact redirect
unfolding redirect
redirect-IsExact = search exact_rules depth 60

account-IsExact : IsExact account
unfolding account
account-IsExact = search exact_rules depth 60

characters-IsExact : IsExact characters
unfolding characters
characters-IsExact = search exact_rules depth 60

lobby_ping-IsExact : IsExact lobby_ping
unfolding lobby_ping
lobby_ping-IsExact = search exact_rules depth 60

sheet-IsExact : IsExact sheet
unfolding sheet
sheet-IsExact = search (exact_rules, rows-IsExact) depth 60

sheet_update-IsExact : IsExact sheet_update
unfolding sheet_update
sheet_update-IsExact = search (exact_rules, rows-IsExact) depth 60

-- Zone, Self, Spawn, Player and the three forms of Move, whose readers leave bytes unread.
abbrev pub loose : List ℕ
loose = 0x3623 ∷ 0x3633 ∷ 0x3641 ∷ 0x3645 ∷ 0x371A ∷ 0x371B ∷ 0x371C ∷ []

abbrev ExactOp : ℕ → Op → Type 0
ExactOp o v = contains loose o ≡ false → OnRead IsExact v.read

opcodes-ExactOp : All (λ e. ExactOp e.0 e.1) opcodes
unfolding opcodes
opcodes-ExactOp = (
  λ _. tick-IsExact,
  (
    λ _. ping-IsExact,
    (
      λ _. tt,
      (
        λ _. tt,
        (
          λ _. name_check-IsExact,
          (
            λ e. cc,
            (
              λ e. cc,
              (
                λ _. object-IsExact,
                (
                  λ _. tt,
                  (
                    λ e. cc,
                    (
                      λ _. death-IsExact,
                      (
                        λ e. cc,
                        (
                          λ _. sheet-IsExact,
                          (
                            λ _. sheet_update-IsExact,
                            (
                              λ _. tt,
                              (
                                λ _. lobby_ping-IsExact,
                                (
                                  λ _. account-IsExact,
                                  (
                                    λ _. servers-IsExact,
                                    (
                                      λ _. characters-IsExact,
                                      (
                                        λ _. tt,
                                        (
                                          λ _. redirect-IsExact,
                                          (
                                            λ e. cc,
                                            (
                                              λ e. cc,
                                              (
                                                λ e. cc,
                                                (
                                                  λ _. tt,
                                                  (
                                                    λ _. tt,
                                                    (
                                                      λ _. cast-IsExact,
                                                      (
                                                        λ _. hit-IsExact,
                                                        (
                                                          λ _. tt,
                                                          (
                                                            λ _. cast_end-IsExact,
                                                            (
                                                            λ _. fall-IsExact,
                                                            (
                                                            λ _. gear_score-IsExact,
                                                            (
                                                            λ _. tt,
                                                            (
                                                            λ _. tt,
                                                            (
                                                            λ _. combat_power-IsExact,
                                                            (
                                                            λ _. gauges-IsExact,
                                                            (
                                                            λ _. kill-IsExact,
                                                            (λ _. tt, (λ _. tt, (λ _. tt, tt))),
                                                            ),
                                                            ),
                                                            ),
                                                            ),
                                                            ),
                                                            ),
                                                            ),
                                                          ),
                                                        ),
                                                      ),
                                                    ),
                                                  ),
                                                ),
                                              ),
                                            ),
                                          ),
                                        ),
                                      ),
                                    ),
                                  ),
                                ),
                              ),
                            ),
                          ),
                        ),
                      ),
                    ),
                  ),
                ),
              ),
            ),
          ),
        ),
      ),
    ),
  ),
)

op_of-IsExact : (o : ℕ) → contains loose o ≡ false → OnRead IsExact (op_of opcodes o).read
op_of-IsExact o = op_of-All ExactOp opcodes o (λ _. tt) opcodes-ExactOp

-- But for Zone, Self, Spawn, Player and Move, a reader in the table of opcodes that returns an event
-- without failing has read the payload to its end.
pub read_exact :
    (o : ℕ) (m : Read (Option Event)) (r : Reader) (v : Event)
    → contains loose o ≡ false
    → (op_of opcodes o).read ≡ some m
    → (m r).0 ≡ some v
    → (m r).1.bad ≡ false
    → (m r).1.i ≡ length (m r).1.p
read_exact o m r v l e h b = let s : IsExact m = rw e at (op_of-IsExact o l) in s.at r v h b
