-- ===== src/CircuitBreaker/Machine.antt =====
-- The breaker as a state machine: what holds after any sequence of events, and when it is closed.
use onto_ontological_context.Prelude.{
  ℕ, suc, ◌+◌, ◌-◌, ◌≤◌, ◌<◌, ◌≡◌, refl, ◌∙◌, ap, ◌↔◌, ◌⊎◌, inl, inr, true, false, none, some, List,
  [], ◌∷◌, arith, ltb, leb, Bool-cases,
}
use onto_ontological_context.CircuitBreaker.{
  state_closed, state_open, state_half_open, Breaker, closed_breaker, Answer, proceed, circuit_open,
  Event, called, succeeded, failed, was_reset, remaining, before_call_in, before_call, on_success,
  on_failure, reset, step, run,
}

-- The failures since the last success or reset, on top of those there were before.
abbrev pub failures_after : ℕ → List Event → ℕ
failures_after n [] = n
failures_after n (called now ∷ es) = failures_after n es
failures_after n (succeeded ∷ es) = failures_after 0 es
failures_after n (failed now ∷ es) = failures_after (suc n) es
failures_after n (was_reset ∷ es) = failures_after 0 es

module _ (failure_threshold recovery_seconds : ℕ) where
  -- What the fields are in each state.
  abbrev pub IsClosed : Breaker → Type 0
  IsClosed b =
      (b.state ≡ state_closed)
      × (b.consecutive_failures < failure_threshold)
      × (b.opened_at ≡ none)
      × (b.probe_in_flight ≡ false)

  abbrev pub IsOpen : Breaker → Type 0
  IsOpen b =
      (b.state ≡ state_open)
      × (failure_threshold ≤ b.consecutive_failures)
      × ((t : ℕ) × (b.opened_at ≡ some t))
      × (b.probe_in_flight ≡ false)

  abbrev pub IsHalfOpen : Breaker → Type 0
  IsHalfOpen b =
      (b.state ≡ state_half_open)
      × (failure_threshold ≤ b.consecutive_failures)
      × ((t : ℕ) × (b.opened_at ≡ some t))
      × (b.probe_in_flight ≡ true)

  abbrev pub IsSound : Breaker → Type 0
  IsSound b = IsClosed b ⊎ IsOpen b ⊎ IsHalfOpen b

  abbrev pub asked : ℕ → Breaker → Answer × Breaker
  asked now b = before_call failure_threshold recovery_seconds now b

  asked_closed : (now : ℕ) (b : Breaker) → b.state ≡ state_closed → asked now b ≡ (proceed, b)
  unfolding before_call before_call_in
  asked_closed now b e = rw e

  pub asked_early :
      (now t : ℕ) (b : Breaker)
      → b.state ≡ state_open
      → b.opened_at ≡ some t
      → now < t + recovery_seconds
      → asked now b ≡ (circuit_open (t + recovery_seconds - now), b)
  unfolding before_call before_call_in remaining
  asked_early now t b e o h =
      let left : ltb 0 (t + recovery_seconds - now) ≡ true = ground arith in rw (e, o, left)

  pub asked_late :
      (now t : ℕ) (b : Breaker)
      → b.state ≡ state_open
      → b.opened_at ≡ some t
      → t + recovery_seconds ≤ now
      → asked now b ≡ (proceed, record b { state = state_half_open; probe_in_flight = true })
  unfolding before_call before_call_in remaining
  asked_late now t b e o h =
      let over : ltb 0 (t + recovery_seconds - now) ≡ false = ground arith in rw (e, o, over)

  pub asked_probing :
      (now : ℕ) (b : Breaker)
      → b.state ≡ state_half_open
      → b.probe_in_flight ≡ true
      → asked now b ≡ (circuit_open 0, b)
  unfolding before_call before_call_in
  asked_probing now b e p = rw (e, p)

  before_call-IsSound : (now : ℕ) (b : Breaker) → IsSound b → IsSound (asked now b).1
  before_call-IsSound now b (inl (e, few, o, p)) = rw (asked_closed now b e) (inl (e, few, o, p))
  before_call-IsSound now b (inr (inl (e, full, (t, o), p))) =
      elim (Bool-cases (ltb now (t + recovery_seconds))) [
        | inl early ↦ rw (asked_early now t b e o (ground arith)) (inr (inl (e, full, (t, o), p)))
        | inr late ↦
            rw (asked_late now t b e o (ground arith)) (inr (inr (refl, full, (t, o), refl)))
      ]
  before_call-IsSound now b (inr (inr (e, full, o, p))) =
      rw (asked_probing now b e p) (inr (inr (e, full, o, p)))

  on_failure-IsSound :
      (now : ℕ) (b : Breaker)
      → IsSound b
      → IsSound (on_failure failure_threshold recovery_seconds now b)
  unfolding on_failure
  on_failure-IsSound now b (inl (e, few, o, p)) =
      elim (Bool-cases (leb failure_threshold (b.consecutive_failures + 1))) [
        | inl trips ↦ rw (e, trips) (inr (inl (refl, ground arith, (now, refl), refl)))
        | inr stays ↦ rw (e, stays) (inl (refl, ground arith, o, refl))
      ]
  on_failure-IsSound now b (inr (inl (e, full, o, p))) =
      rw e (inr (inl (refl, omega arith, o, refl)))
  on_failure-IsSound now b (inr (inr (e, full, o, p))) =
      let trips : leb failure_threshold (b.consecutive_failures + 1) ≡ true = ground arith in
      rw (e, trips) (inr (inl (refl, omega arith, (now, refl), refl)))

  pub closed-IsSound : 0 < failure_threshold → IsSound closed_breaker
  closed-IsSound pos = inl (refl, pos, refl, refl)

  step-IsSound :
      (e : Event) (b : Breaker)
      → 0 < failure_threshold
      → IsSound b
      → IsSound (step failure_threshold recovery_seconds e b)
  unfolding step on_success reset
  step-IsSound (called now) b pos sound = before_call-IsSound now b sound
  step-IsSound succeeded b pos sound = closed-IsSound pos
  step-IsSound (failed now) b pos sound = on_failure-IsSound now b sound
  step-IsSound was_reset b pos sound = closed-IsSound pos

  pub run-IsSound :
      (es : List Event) (b : Breaker)
      → 0 < failure_threshold
      → IsSound b
      → IsSound (run failure_threshold recovery_seconds es b)
  unfolding run
  run-IsSound [] b pos sound = sound
  run-IsSound (e ∷ es) b pos sound = run-IsSound es _ pos (step-IsSound e b pos sound)

  asked-consecutive_failures :
      (now : ℕ) (b : Breaker) → (asked now b).1.consecutive_failures ≡ b.consecutive_failures
  unfolding before_call before_call_in
  asked-consecutive_failures now b = ground arith

  on_failure-consecutive_failures :
      (now : ℕ) (b : Breaker)
      → (on_failure failure_threshold recovery_seconds now b).consecutive_failures
        ≡ suc b.consecutive_failures
  unfolding on_failure
  on_failure-consecutive_failures now b = ground arith

  run-failures_after :
      (es : List Event) (b : Breaker)
      → (run failure_threshold recovery_seconds es b).consecutive_failures
        ≡ failures_after b.consecutive_failures es
  unfolding run step on_success reset
  run-failures_after [] b = refl
  run-failures_after (called now ∷ es) b =
      run-failures_after es (asked now b).1
      ∙ ap (λ n. failures_after n es) (asked-consecutive_failures now b)
  run-failures_after (succeeded ∷ es) b = run-failures_after es closed_breaker
  run-failures_after (failed now ∷ es) b =
      run-failures_after es (on_failure failure_threshold recovery_seconds now b)
      ∙ ap (λ n. failures_after n es) (on_failure-consecutive_failures now b)
  run-failures_after (was_reset ∷ es) b = run-failures_after es closed_breaker

  -- The breaker after the events.
  abbrev pub after : List Event → Breaker
  after es = run failure_threshold recovery_seconds es closed_breaker

  -- Whatever happened to a new breaker, it is closed exactly while the failures since the last success
  -- or reset are fewer than the threshold, which is above 0, and its counter says how many they are.
  run_closed_iff :
      (es : List Event)
      → 0 < failure_threshold
      → (((after es).state ≡ state_closed) ↔ (failures_after 0 es < failure_threshold))
        × ((after es).consecutive_failures ≡ failures_after 0 es)
  run_closed_iff es pos =
      let count = run-failures_after es closed_breaker in
      elim (run-IsSound es closed_breaker pos (closed-IsSound pos)) [
        | inl (e, few, o, p) ↦ ((λ c. omega arith, λ few'. e), count)
        | inr (inl (e, full, o, p)) ↦
            ((λ c. absurd (cc (c, e)), λ few. absurd (omega arith)), count)
        | inr (inr (e, full, o, p)) ↦
            ((λ c. absurd (cc (c, e)), λ few. absurd (omega arith)), count)
      ]
