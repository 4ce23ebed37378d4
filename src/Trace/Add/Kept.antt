-- ===== src/Trace/Add/Kept.antt =====
-- trace.go: the casts that add brings.
use mathlib.Core.Path.{subst}
use a2kit.Common.{
  ℕ, ◌+◌, Bool, ◌≡◌, ◌∙◌, ap, sym, refl, Option, List, [], ◌∷◌, some, arith, if◌then◌else◌,
  Bool-cases, inl, inr, ℤ,
}
use a2kit.Wire.Frame.{Frame}
use a2kit.Game.Events.{Event}
use a2kit.Game.Parse.{Parsed, event, unread, layout}
use a2kit.Messages.{Message}
use a2kit.Trace.Entry.{Args, of_event, Trace, no_trace}
use a2kit.Trace.Step.{emit}
use a2kit.Trace.Step.Waiting.{is_cast, AreWaiting, casts_in, waiting_in}
use a2kit.Trace.Step.Casts.{
  casts_of, Brings, cast_count, emit-plain, Brings-trans, Brings-after, nothing-Brings,
  on_event-Brings,
}
use a2kit.Trace.Add.{
  begun, with_op, since, track_of, args_of, opcode_event, micros, on_read, add, add_all,
}

module _ (P : ℕ → ℤ → Args → Bool) (marshals : Event → Bool) where
  -- 1 for a cast that JSON can hold and that is picked, at a time
  unfoldable pub read_casts : Parsed → ℤ → ℕ
  unfolding cast_count
  read_casts (event e) ts = if marshals e then cast_count P e ts (of_event e) else 0
  read_casts unread ts = 0
  read_casts (layout i n) ts = 0

  -- The messages that are such a cast, their times counted from `t0`
  unfoldable pub casts_since : ℕ → List Message → ℕ
  unfolding read_casts micros
  casts_since t0 [] = 0
  casts_since t0 (m ∷ ms) = read_casts m.read (micros m.frame.time t0) + casts_since t0 ms

  -- The same, counted from the first message
  unfoldable pub cast_messages : List Message → ℕ
  unfolding casts_since
  cast_messages [] = 0
  cast_messages (m ∷ ms) = casts_since m.frame.time (m ∷ ms)

  on_read-Brings :
      (f : Frame) (r : Parsed) (ts : ℤ) (t : Trace)
      → AreWaiting t.casts
      → Brings P
          (read_casts r ts)
          t
          (on_read marshals r ts (args_of marshals (record { frame = f; read = r })) t)
  unfolding on_read read_casts args_of
  on_read-Brings f (event e) ts t w = elim (Bool-cases (marshals e)) [
    | inl y ↦ rw y (on_event-Brings P e ts (of_event e) t w)
    | inr n ↦ rw n (nothing-Brings P t w)
  ]
  on_read-Brings f unread ts t w = nothing-Brings P t w
  on_read-Brings f (layout i n) ts t w = nothing-Brings P t w

  begun_add-Brings :
      (m : Message) (t : Trace) (t0 : ℕ)
      → AreWaiting t.casts
      → Brings P
          (read_casts m.read (micros m.frame.time t0))
          (record t { t0 = some t0 })
          (add marshals m (record t { t0 = some t0 }))
  unfolding add opcode_event is_cast begun since
  begun_add-Brings m t t0 w =
      let t1 : Trace = record t { ops = with_op (track_of m.frame) t.ops; t0 = some t0 } in
      let ts = micros m.frame.time t0 in
      let e = opcode_event marshals m ts in
      let t2 = emit e t1 in
      let shown : Brings P 0 (record t { t0 = some t0 }) t2 = emit-plain P e t1 refl w in
      Brings-after P (read_casts m.read ts) (record t { t0 = some t0 }) t2
        (on_read marshals m.read ts (args_of marshals m) t2) shown
        (on_read-Brings m.frame m.read ts t2 shown.0)

  add-Brings :
      (m : Message) (t : Trace) (t0 : ℕ)
      → t.t0 ≡ some t0
      → AreWaiting t.casts
      → Brings P (read_casts m.read (micros m.frame.time t0)) t (add marshals m t)
  add-Brings m t t0 h w =
      subst
        (λ (o : Option ℕ).
          Brings P (read_casts m.read (micros m.frame.time t0)) (record t { t0 = o })
            (add marshals m (record t { t0 = o })))
        (sym h) (begun_add-Brings m t t0 w)

  pub add_all-Brings :
      (ms : List Message) (t : Trace) (t0 : ℕ)
      → t.t0 ≡ some t0
      → AreWaiting t.casts
      → Brings P (casts_since t0 ms) t (add_all marshals ms t)
  unfolding add_all casts_since
  add_all-Brings [] t t0 h w = nothing-Brings P t w
  add_all-Brings (m ∷ ms) t t0 h w =
      let u = add marshals m t in
      let first = add-Brings m t t0 h w in
      Brings-trans P (read_casts m.read (micros m.frame.time t0)) (casts_since t0 ms) t u
        (add_all marshals ms u) first (add_all-Brings ms u t0 (first.2 ∙ h) first.0)

  add-begun :
      (m : Message)
      → add marshals m no_trace ≡ add marshals m (record no_trace { t0 = some m.frame.time })
  unfolding add begun
  add-begun m = refl

  -- From the first message on
  pub casts_of-add_all :
      (ms : List Message) → casts_of P (add_all marshals ms no_trace) ≡ cast_messages ms
  unfolding add_all cast_messages casts_in waiting_in
  casts_of-add_all [] = refl
  casts_of-add_all (m ∷ ms) =
      let b : Trace = record no_trace { t0 = some m.frame.time } in
      ap (λ (u : Trace). casts_of P (add_all marshals ms u)) (add-begun m)
      ∙ ((add_all-Brings (m ∷ ms) b m.frame.time refl tt).1 ∙ omega arith)
