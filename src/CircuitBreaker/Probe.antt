-- ===== src/CircuitBreaker/Probe.antt =====
-- What an open breaker does: it refuses, then lets a single probe through and waits for its outcome.
use onto_ontological_context.Prelude.{
  ℕ, ◌+◌, ◌-◌, ◌≤◌, ◌<◌, ◌≡◌, refl, ◌∙◌, ap, inl, inr, true, some, List, [], ◌∷◌, arith, leb,
}
use onto_ontological_context.CircuitBreaker.{
  state_open, state_half_open, Breaker, closed_breaker, Answer, proceed, circuit_open, Event,
  called, on_success, on_failure, step, run,
}
use onto_ontological_context.CircuitBreaker.Machine.{
  IsSound, asked, asked_early, asked_late, asked_probing, closed-IsSound, run-IsSound, after,
}

-- the calls at the given times
abbrev pub calls : List ℕ → List Event
calls [] = []
calls (now ∷ times) = called now ∷ calls times

module _ (failure_threshold recovery_seconds : ℕ) where
  waiting :
      (times : List ℕ) (b : Breaker)
      → b.state ≡ state_half_open
      → b.probe_in_flight ≡ true
      → run failure_threshold recovery_seconds (calls times) b ≡ b
  unfolding run step
  waiting [] b e p = refl
  waiting (now ∷ times) b e p =
      ap (run failure_threshold recovery_seconds (calls times)) (
        ap (λ (r : Answer × Breaker). r.1)
          (asked_probing failure_threshold recovery_seconds now b e p))
      ∙ waiting times b e p

  on_failure_probing :
      (now : ℕ) (b : Breaker)
      → b.state ≡ state_half_open
      → failure_threshold ≤ b.consecutive_failures
      → ((on_failure failure_threshold recovery_seconds now b).state ≡ state_open)
        × ((on_failure failure_threshold recovery_seconds now b).opened_at ≡ some now)
  unfolding on_failure
  on_failure_probing now b e full =
      let trips : leb failure_threshold (b.consecutive_failures + 1) ≡ true = ground arith in
      rw (e, trips) (refl, refl)

  full_of_open :
      (b : Breaker)
      → IsSound failure_threshold recovery_seconds b
      → b.state ≡ state_open
      → failure_threshold ≤ b.consecutive_failures
  full_of_open b (inl (e, few, o, p)) h = absurd (cc (e, h))
  full_of_open b (inr (inl (e, full, o, p))) h = full
  full_of_open b (inr (inr (e, full, o, p))) h = full

  -- A breaker that was opened at a time refuses every call before the end of its recovery window, and
  -- stays as it is.
  open_refuses :
      (es : List Event) (t now : ℕ)
      → (after failure_threshold recovery_seconds es).state ≡ state_open
      → (after failure_threshold recovery_seconds es).opened_at ≡ some t
      → now < t + recovery_seconds
      → asked failure_threshold recovery_seconds now (after failure_threshold recovery_seconds es)
        ≡ (circuit_open (t + recovery_seconds - now), after failure_threshold recovery_seconds es)
  open_refuses es t now e o early =
      asked_early failure_threshold recovery_seconds now t
        (after failure_threshold recovery_seconds es) e o early

  -- An open breaker lets one call through at the end of its recovery window. Any number of calls can
  -- come then: all are refused until the outcome of that probe. A success closes the breaker, and a
  -- failure opens it anew, from the time of the failure on. The threshold is above 0.
  pub single_probe :
      (es : List Event) (t now later : ℕ) (times : List ℕ)
      → 0 < failure_threshold
      → (after failure_threshold recovery_seconds es).state ≡ state_open
      → (after failure_threshold recovery_seconds es).opened_at ≡ some t
      → t + recovery_seconds ≤ now
      → ((asked failure_threshold recovery_seconds now
            (after failure_threshold recovery_seconds es)).0
          ≡ proceed)
        × ((asked failure_threshold recovery_seconds later (
              run failure_threshold recovery_seconds
                (calls times)
                (asked failure_threshold recovery_seconds now
                  (after failure_threshold recovery_seconds es)).1)).0
            ≡ circuit_open 0)
        × (on_success
              (asked failure_threshold recovery_seconds now
                (after failure_threshold recovery_seconds es)).1
            ≡ closed_breaker)
        × ((on_failure failure_threshold recovery_seconds later
              (asked failure_threshold recovery_seconds now
                (after failure_threshold recovery_seconds es)).1).state
            ≡ state_open)
        × ((on_failure failure_threshold recovery_seconds later
              (asked failure_threshold recovery_seconds now
                (after failure_threshold recovery_seconds es)).1).opened_at
            ≡ some later)
  unfolding on_success
  single_probe es t now later times pos e o late =
      let b = after failure_threshold recovery_seconds es in
      let full =
        full_of_open b
          (run-IsSound failure_threshold recovery_seconds es closed_breaker pos
            (closed-IsSound failure_threshold recovery_seconds pos))
          e in
      let probing : Breaker = record b { state = state_half_open; probe_in_flight = true } in
      let gone = asked_late failure_threshold recovery_seconds now t b e o late in
      let reopened = on_failure_probing later probing refl full in
      rw gone (
        refl,
        ap (λ c. (asked failure_threshold recovery_seconds later c).0)
              (waiting times probing refl refl)
            ∙ ap (λ (r : Answer × Breaker). r.0)
                (asked_probing failure_threshold recovery_seconds later probing refl refl),
        refl,
        reopened.0,
        reopened.1,
      )
