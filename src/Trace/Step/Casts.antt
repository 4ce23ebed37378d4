-- ===== src/Trace/Step/Casts.antt =====
-- trace.go: the casts that a step writes, or lets wait.
use Prim.Native.String.{String}
use text.Mathlib.Text.{◌==◌ as str_eq}
use a2kit.Common.{
  ℕ, ◌+◌, Bool, false, ◌≡◌, refl, ◌∙◌, ap, List, [], ◌∷◌, ◌++◌, Option, none, some, arith, ◌==◌,
  if◌then◌else◌, if_cases, ℤ,
}
use a2kit.Game.Events.{
  Event, hit, cast, cast_end, spawn, player, kill, death, move, tick, ping, fall, object, zone,
  name_check, stats, gear_score, combat_power, gauges, servers, lobby_ping, redirect, account,
  characters,
}
use a2kit.Trace.Entry.{word, Args, TraceEvent, Entity, Key, Trace}
use a2kit.Trace.Step.{
  emit, opened, on, instant_event, has_entity, with_entity, cast_of, without, emit_old, minus,
  on_cast, on_cast_end, is_empty, on_event,
}
use a2kit.Trace.Step.Waiting.{
  is_word_cast, is_cast, AreWaiting, one, casts_in, casts_in-append, waiting_in, held,
  cast_of-without, without-AreWaiting, waiting_in-without,
}

module _ (P : ℕ → ℤ → Args → Bool) where
  -- The casts that are written or wait, and are picked
  abbrev pub casts_of : Trace → ℕ
  casts_of t = casts_in P t.out + waiting_in P t.casts

  -- A step that brings `n` of them more, and leaves the time of the first message
  abbrev pub Brings : ℕ → Trace → Trace → Type 0
  Brings n t t' = AreWaiting t'.casts × (casts_of t' ≡ casts_of t + n) × (t'.t0 ≡ t.t0)

  casts_in-last :
      (es : List TraceEvent) (e : TraceEvent)
      → casts_in P (es ++ (e ∷ [])) ≡ casts_in P es + one P e
  unfolding casts_in
  casts_in-last es e = omega (arith, casts_in-append P es (e ∷ []))

  one-plain : (e : TraceEvent) → is_cast e ≡ false → one P e ≡ 0
  unfolding one
  one-plain e h = rw h refl

  pub emit-plain :
      (e : TraceEvent) (t : Trace) → is_cast e ≡ false → AreWaiting t.casts → Brings 0 t (emit e t)
  unfolding emit
  emit-plain e t h w = (w, omega (arith, casts_in-last t.out e, one-plain e h), refl)

  pub Brings-trans : (m n : ℕ) (a b c : Trace) → Brings m a b → Brings n b c → Brings (m + n) a c
  Brings-trans m n a b c (w, e, s) (v, f, u) = (v, omega (arith, e, f), u ∙ s)

  pub Brings-after : (n : ℕ) (a b c : Trace) → Brings 0 a b → Brings n b c → Brings n a c
  Brings-after n a b c (w, e, s) (v, f, u) = (v, omega (arith, e, f), u ∙ s)

  pub nothing-Brings : (t : Trace) → AreWaiting t.casts → Brings 0 t t
  nothing-Brings t w = (w, omega arith, refl)

  opened-Brings : (id : ℕ) (t : Trace) → AreWaiting t.casts → Brings 0 t (opened id t)
  unfolding opened
  opened-Brings id t w =
      if_cases (Brings 0 t) (has_entity id t.entities) t _ (λ _. nothing-Brings t w)
        λ _. (w, omega arith, refl)

  with_entity-Brings :
      (id : ℕ) (f : Entity → Entity) (t : Trace)
      → AreWaiting t.casts
      → Brings 0 t (with_entity id f t)
  unfolding with_entity
  with_entity-Brings id f t w = opened-Brings id t w

  on-Brings :
      (id : ℕ) (w : String) (ts : ℤ) (args : Args) (t : Trace)
      → str_eq w "Cast" ≡ false
      → AreWaiting t.casts
      → Brings 0 t (on id w ts args t)
  unfolding on instant_event is_cast is_word_cast
  on-Brings id w ts args t h a =
      let e = instant_event id (word w) ts args in
      Brings-trans 0 0 t (opened id t) (emit e (opened id t)) (opened-Brings id t a)
        (emit-plain e (opened id t) h (opened-Brings id t a).0)

  emit_old-Brings :
      (o : Option TraceEvent) (t : Trace) → AreWaiting t.casts → Brings (held P o) t (emit_old o t)
  unfolding emit_old emit
  emit_old-Brings none t w = (w, omega arith, refl)
  emit_old-Brings (some c) t w = (w, omega (arith, casts_in-last t.out c), refl)

  opened-casts : (id : ℕ) (t : Trace) → (opened id t).casts ≡ t.casts
  unfolding opened
  opened-casts id t =
      if_cases (λ u. u.casts ≡ t.casts) (has_entity id t.entities) t _ (λ _. refl) λ _. refl

  emit_old-casts : (o : Option TraceEvent) (t : Trace) → (emit_old o t).casts ≡ t.casts
  unfolding emit_old emit
  emit_old-casts none t = refl
  emit_old-casts (some c) t = refl

  waiting_in-out :
      (k : Key) (casts : List (Key × TraceEvent)) (o : Option TraceEvent)
      → cast_of k casts ≡ o
      → AreWaiting casts
      → waiting_in P (without k casts) + held P o ≡ waiting_in P casts
  waiting_in-out k casts o e w = rw (← e) (waiting_in-without P k casts w)

  on_cast-Brings :
      (k : Key) (ts : ℤ) (args : Args) (o : Option TraceEvent) (t : Trace)
      → cast_of k t.casts ≡ o
      → AreWaiting t.casts
      → Brings (if P k.0 ts args then 1 else 0) t (on_cast k ts args o t)
  unfolding on_cast waiting_in one is_cast is_word_cast
  on_cast-Brings (actor, skill) ts args o t e w =
      let k : Key = (actor, skill) in
      let t1 = emit_old o t in
      let t' = opened actor t1 in
      let same : t'.casts ≡ t.casts = opened-casts actor t1 ∙ emit_old-casts o t in
      let (w1, old, s1) = emit_old-Brings o t w in
      let (w', new, s2) = opened-Brings actor t1 w1 in
      let out = waiting_in-out k t'.casts o (ap (cast_of k) same ∙ e) w' in
      (
        (cast_of-without k t'.casts, without-AreWaiting k t'.casts w'),
        omega (arith, old, new, out),
        s2 ∙ s1,
      )

  on_cast_end-Brings :
      (k : Key) (ts : ℤ) (args : Args) (o : Option TraceEvent) (t : Trace)
      → cast_of k t.casts ≡ o
      → AreWaiting t.casts
      → Brings 0 t (on_cast_end k ts args o t)
  unfolding on_cast_end emit one is_cast is_word_cast
  on_cast_end-Brings (actor, skill) ts args none t e w = on-Brings actor "CastEnd" ts args t refl w
  on_cast_end-Brings (actor, skill) ts args (some c) t e w =
      let k : Key = (actor, skill) in
      let d : TraceEvent = record c { ph = "X"; on_track = false; dur = minus ts c.ts } in
      let out = waiting_in-out k t.casts (some c) e w in
      (without-AreWaiting k t.casts w, omega (arith, casts_in-last t.out d, out), refl)

  -- 1 for a cast that is picked
  unfoldable pub cast_count : Event → ℤ → Args → ℕ
  cast_count (cast e) ts args = if P e.actor ts args then 1 else 0
  cast_count e ts args = 0

  named-Brings :
      (b : Bool) (id : ℕ) (f : Entity → Entity) (t u : Trace)
      → Brings 0 t u
      → Brings 0 t (if b then u else with_entity id f u)
  named-Brings b id f t u h =
      if_cases (Brings 0 t) b u (with_entity id f u) (λ _. h)
        λ _. Brings-trans 0 0 t u (with_entity id f u) h (with_entity-Brings id f u h.0)

  pub on_event-Brings :
      (e : Event) (ts : ℤ) (args : Args) (t : Trace)
      → AreWaiting t.casts
      → Brings (cast_count e ts args) t (on_event e ts args t)
  unfolding on_event cast_count
  on_event-Brings (hit e) ts args t w =
      let t1 = on e.actor "Hit" ts args t in
      let b1 = on-Brings e.actor "Hit" ts args t refl w in
      Brings-trans 0 0 t t1 (on e.target "Hit taken" ts args t1) b1
        (on-Brings e.target "Hit taken" ts args t1 refl b1.0)
  on_event-Brings (cast e) ts args t w = on_cast-Brings (e.actor, e.skill) ts args _ t refl w
  on_event-Brings (cast_end e) ts args t w =
      on_cast_end-Brings (e.actor, e.skill) ts args _ t refl w
  on_event-Brings (spawn e) ts args t w =
      let t1 = on e.entity "Spawn" ts args t in
      let b1 = on-Brings e.entity "Spawn" ts args t refl w in
      let f : Entity → Entity = λ en. record en { npc = e.npc } in
      Brings-trans 0 0 t t1 (with_entity e.entity f t1) b1 (with_entity-Brings e.entity f t1 b1.0)
  on_event-Brings (player e) ts args t w =
      let t1 = on e.entity "Player" ts args t in
      let b1 = on-Brings e.entity "Player" ts args t refl w in
      named-Brings (is_empty e.name) e.entity (λ en. record en { name = e.name }) t t1 b1
  on_event-Brings (kill e) ts args t w =
      let t1 = on e.entity "Kill" ts args t in
      let b1 = on-Brings e.entity "Kill" ts args t refl w in
      named-Brings (e.actor == 0) e.actor (λ en. record en { name = e.name }) t t1 b1
  on_event-Brings (death e) ts args t w = on-Brings e.entity "Death" ts args t refl w
  on_event-Brings (move e) ts args t w = on-Brings e.entity "Move" ts args t refl w
  on_event-Brings (tick e0) ts args t w = nothing-Brings t w
  on_event-Brings (ping e0) ts args t w = nothing-Brings t w
  on_event-Brings (fall e0) ts args t w = nothing-Brings t w
  on_event-Brings (object e0) ts args t w = nothing-Brings t w
  on_event-Brings (zone e0) ts args t w = nothing-Brings t w
  on_event-Brings (name_check e0) ts args t w = nothing-Brings t w
  on_event-Brings (stats e0) ts args t w = nothing-Brings t w
  on_event-Brings (gear_score e0) ts args t w = nothing-Brings t w
  on_event-Brings (combat_power e0) ts args t w = nothing-Brings t w
  on_event-Brings (gauges e0) ts args t w = nothing-Brings t w
  on_event-Brings (servers e0) ts args t w = nothing-Brings t w
  on_event-Brings (lobby_ping e0) ts args t w = nothing-Brings t w
  on_event-Brings (redirect e0) ts args t w = nothing-Brings t w
  on_event-Brings (account e0) ts args t w = nothing-Brings t w
  on_event-Brings (characters e0) ts args t w = nothing-Brings t w
