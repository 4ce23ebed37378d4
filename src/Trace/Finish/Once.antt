-- ===== src/Trace/Finish/Once.antt =====
-- trace.go: the casts in the whole output.
use a2kit.Common.{ℕ, Bool, ◌≡◌, ◌∙◌, refl, List, [], ◌∷◌, ◌++◌, arith, map, if_cases, leb, ℤ}
use a2kit.Common.Sort.{insert_by, sort_by}
use a2kit.Game.Events.{Event}
use a2kit.Messages.{Message}
use a2kit.Trace.Entry.{by_opcode, by_entity, Args, TraceEvent, Entity, Key, Trace, no_trace}
use a2kit.Trace.Step.Waiting.{is_cast, casts_in, one, waiting_in, casts_in-append}
use a2kit.Trace.Step.Casts.{casts_of}
use a2kit.Trace.Add.{add_all}
use a2kit.Trace.Add.Kept.{cast_messages, casts_of-add_all}
use a2kit.Trace.Finish.{
  order_of, meta, op_metas, entity_metas, process, left_over, finished, write_trace,
}

module _ (P : ℕ → ℤ → Args → Bool) where
  casts_in-insert_by :
      (key : TraceEvent → ℕ) (e : TraceEvent) (es : List TraceEvent)
      → casts_in P (insert_by key e es) ≡ casts_in P (e ∷ es)
  unfolding insert_by casts_in
  casts_in-insert_by key e [] = refl
  casts_in-insert_by key e (g ∷ gs) =
      if_cases (λ l. casts_in P l ≡ casts_in P (e ∷ g ∷ gs)) (leb (key e) (key g)) (e ∷ g ∷ gs)
        (g ∷ insert_by key e gs) (λ _. refl) λ _. omega (arith, casts_in-insert_by key e gs)

  casts_in-sort_by :
      (key : TraceEvent → ℕ) (es : List TraceEvent) → casts_in P (sort_by key es) ≡ casts_in P es
  unfolding sort_by casts_in
  casts_in-sort_by key [] = refl
  casts_in-sort_by key (e ∷ es) =
      omega (arith, casts_in-insert_by key e (sort_by key es), casts_in-sort_by key es)

  casts_in-waiting :
      (casts : List (Key × TraceEvent)) → casts_in P (map (λ p. p.1) casts) ≡ waiting_in P casts
  unfolding casts_in waiting_in
  casts_in-waiting [] = refl
  casts_in-waiting ((k, c) ∷ casts) = omega (arith, casts_in-waiting casts)

  casts_in-op_metas : (tids : List ℕ) → casts_in P (op_metas tids) ≡ 0
  unfolding op_metas meta casts_in one is_cast
  casts_in-op_metas [] = refl
  casts_in-op_metas (tid ∷ tids) = omega (arith, casts_in-op_metas tids)

  casts_in-entity_metas : (ens : List (ℕ × Entity)) → casts_in P (entity_metas ens) ≡ 0
  unfolding entity_metas meta casts_in one is_cast
  casts_in-entity_metas [] = refl
  casts_in-entity_metas ((id, en) ∷ ens) = omega (arith, casts_in-entity_metas ens)

  pub casts_in-finished : (t : Trace) → casts_in P (finished t) ≡ casts_of P t
  unfolding finished left_over process meta casts_in one is_cast
  casts_in-finished t =
      let waiting = map (λ p. p.1) t.casts in
      let ops = op_metas (sort_by (λ n. n) t.ops) in
      let ens = entity_metas (sort_by (λ p. p.0) t.entities) in
      let tracks = process by_opcode "by opcode" ∷ process by_entity "by entity" ∷ (ops ++ ens) in
      let left = left_over t.casts in
      omega (
        arith,
        casts_in-append P t.out (left ++ tracks),
        casts_in-append P left tracks,
        casts_in-append P ops ens,
        casts_in-sort_by (λ e. order_of e.ts) waiting,
        casts_in-waiting t.casts,
        casts_in-op_metas (sort_by (λ n. n) t.ops),
        casts_in-entity_metas (sort_by (λ p. p.0) t.entities),
      )

-- In the trace of a sequence of messages, each cast is written once: for any choice `P` of casts by
-- their actor, their time since the first message and their event, there are as many entries for a
-- cast with such a track, time and args as there are messages that read as such a cast that JSON can
-- hold. So a cast that is cast again before its end, one that has its end, and one that never ended
-- each have one entry, with their own time and event, and no other cast has one.
pub casts_in-write_trace :
    (P : ℕ → ℤ → Args → Bool) (marshals : Event → Bool) (ms : List Message)
    → casts_in P (write_trace marshals ms) ≡ cast_messages P marshals ms
unfolding write_trace
casts_in-write_trace P marshals ms =
    casts_in-finished P (add_all marshals ms no_trace) ∙ casts_of-add_all P marshals ms
