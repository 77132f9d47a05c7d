-- ===== src/Federation/Resilience/Calls.antt =====
-- When `resilient_call` returns the value of a call.
use onto_ontological_context.Prelude.{
  ℕ, zero, suc, ◌+◌, ◌<◌, ◌≡◌, refl, sym, ◌∙◌, ap, true, false, Option, none, some, arith, leb,
}
use onto_ontological_context.CircuitBreaker.{
  state_closed, Breaker, closed_breaker, proceed, before_call_in, before_call, on_success,
  on_failure,
}
use onto_ontological_context.Federation.Resilience.{
  Outcome, returned, raised, Attempt, Result, answered, Peer, Policy, should_retry, after_failure,
  settle, after_answer, try_from, resilient_call,
}

-- A closed breaker lets a call pass and stays as it is.
before_call-closed :
    (threshold recovery now : ℕ) (b : Breaker)
    → b.state ≡ state_closed
    → before_call threshold recovery now b ≡ (proceed, b)
unfolding before_call before_call_in
before_call-closed threshold recovery now b h = rw h refl

-- Below the threshold a failure is counted and leaves a closed breaker closed.
on_failure-closed :
    (threshold recovery now : ℕ) (b : Breaker)
    → b.state ≡ state_closed
    → b.consecutive_failures + 1 < threshold
    → ((on_failure threshold recovery now b).state ≡ state_closed)
      × ((on_failure threshold recovery now b).consecutive_failures ≡ b.consecutive_failures + 1)
unfolding on_failure
on_failure-closed threshold recovery now b h few =
    let below : leb threshold (b.consecutive_failures + 1) ≡ false = ground arith in
    rw h (rw below (refl, refl))

module _ {ℓ} {A E : Type ℓ} (p : Policy) (calls : ℕ → Attempt A E) where
  -- The attempts from one on raise exceptions, so many of them.
  abbrev pub Fails : ℕ → ℕ → Type ℓ
  Fails attempt zero = Unit
  Fails attempt (suc k) = ((e : E) × ((calls attempt).outcome ≡ raised e)) × Fails (suc attempt) k

  at_attempt : (i j : ℕ) → i ≡ j → (o : Outcome A E) → (calls i).outcome ≡ o → (calls j).outcome ≡ o
  at_attempt i j same o h = ap (λ n. (calls n).outcome) (sym same) ∙ h

  retry_left :
      (attempt left k : ℕ)
      → attempt + suc left ≡ p.max_attempts + 1
      → suc k < suc left
      → should_retry p attempt ≡ true
  unfolding should_retry
  retry_left attempt left k sum more = ground arith

  -- One turn of the loop with a closed breaker.
  turn :
      (left attempt : ℕ) (last : Option E) (peer : Peer) (o : Outcome A E)
      → peer.breaker.state ≡ state_closed
      → (calls attempt).outcome ≡ o
      → try_from p calls (suc left) attempt last peer
        ≡ settle p calls attempt peer.breaker peer
            (λ e.
              try_from p calls left
                (suc attempt)
                (some e)
                (after_failure p (calls attempt).ended_at peer.breaker peer))
            o
  unfolding try_from
  turn left attempt last peer o closed same =
      ap
        (after_answer p calls attempt peer (λ b e.
          try_from p calls left (suc attempt) (some e)
            (after_failure p (calls attempt).ended_at b peer)))
        (before_call-closed p.failure_threshold p.recovery_seconds (calls attempt).asked_at
          peer.breaker closed)
      ∙ ap
          (settle p calls attempt peer.breaker peer (λ e.
            try_from p calls left (suc attempt) (some e)
              (after_failure p (calls attempt).ended_at peer.breaker peer)))
          same

  -- A value was returned, and the breaker is closed without failures.
  abbrev pub Succeeds : A → Result A E × Peer → Type ℓ
  Succeeds a out = (out.0 ≡ answered a) × (out.1.breaker ≡ closed_breaker)

  transfer : (a : A) (x y : Result A E × Peer) → x ≡ y → Succeeds a y → Succeeds a x
  transfer a x y same h = rw same h

  try_from-answered :
      (k left attempt : ℕ) (last : Option E) (peer : Peer) (a : A)
      → peer.breaker.state ≡ state_closed
      → peer.breaker.consecutive_failures + k < p.failure_threshold
      → attempt + left ≡ p.max_attempts + 1
      → k < left
      → Fails attempt k
      → (calls (attempt + k)).outcome ≡ returned a
      → Succeeds a (try_from p calls left attempt last peer)
  unfolding on_success
  try_from-answered zero (suc left) attempt last peer a closed few sum more fails there =
      transfer a (try_from p calls (suc left) attempt last peer)
        (settle p calls attempt peer.breaker peer
          (λ e.
            try_from p calls left (suc attempt) (some e)
              (after_failure p (calls attempt).ended_at peer.breaker peer))
          (returned a))
        (turn left attempt last peer (returned a) closed
          (at_attempt (attempt + 0) attempt (omega arith) (returned a) there))
        (refl, refl)
  try_from-answered zero zero attempt last peer a closed few sum more fails there = ground arith
  try_from-answered (suc k) zero attempt last peer a closed few sum more fails there = ground arith
  try_from-answered (suc k) (suc left) attempt last peer a closed few sum more ((e, fails), later)
        there =
      let (still, counted) =
        on_failure-closed p.failure_threshold p.recovery_seconds (calls attempt).ended_at
          peer.breaker closed (omega arith) in
      let again : should_retry p attempt ≡ true = retry_left attempt left k sum more in
      let next =
        try_from p calls left (suc attempt) (some e)
          (after_failure p (calls attempt).ended_at peer.breaker peer) in
      transfer a (try_from p calls (suc left) attempt last peer) next
        (turn left attempt last peer (raised e) closed fails ∙ rw again refl)
        (try_from-answered k left (suc attempt) (some e)
          (after_failure p (calls attempt).ended_at peer.breaker peer) a still
          (omega (arith, counted)) (omega arith) (omega arith) later
          (at_attempt (attempt + suc k) (suc attempt + k) (omega arith) (returned a) there))

  -- If the breaker is closed, the first k calls raise, the next one returns, and neither the attempts nor
  -- the failures up to the threshold are used up by then, then resilient_call returns that value and
  -- leaves the breaker closed without failures.
  pub resilient_call-answered :
      (k : ℕ) (peer : Peer) (a : A)
      → peer.breaker.state ≡ state_closed
      → peer.breaker.consecutive_failures + k < p.failure_threshold
      → k < p.max_attempts
      → Fails 1 k
      → (calls (1 + k)).outcome ≡ returned a
      → Succeeds a (resilient_call p calls peer)
  unfolding resilient_call
  resilient_call-answered k peer a closed few enough fails there =
      try_from-answered k p.max_attempts 1 none peer a closed few (omega arith) enough fails there
