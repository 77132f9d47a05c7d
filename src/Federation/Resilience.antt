-- ===== src/Federation/Resilience.antt =====
-- api/federation/network_resilience.py: the metrics of a peer and `resilient_call`. Round trips and
-- times are ticks of one clock. What the function that is called does, and the time each attempt takes,
-- is given by the number of the attempt. The pauses between attempts, which are random, and the
-- timeouts handed to the function do not change the state and are left out.
pub mod Calls
mod Tests
use onto_ontological_context.Prelude.{
  ℕ, zero, suc, ◌+◌, ◌-◌, Bool, true, false, Option, none, some, List, [], ◌∷◌, ◌++◌, length, ltb,
  if◌then◌else◌,
}
use onto_ontological_context.CircuitBreaker.{
  Breaker, Answer, proceed, circuit_open, before_call, on_success, on_failure,
}

pub record Metrics : Type 0 where
  pub rtt_samples : List ℕ
  pub jitter_samples : List ℕ
  pub last_rtt : Option ℕ
  pub attempts : ℕ
  pub failures : ℕ

abbrev pub no_metrics : Metrics
no_metrics = record {
  rtt_samples = [];
  jitter_samples = [];
  last_rtt = none;
  attempts = 0;
  failures = 0;
}

-- what is left of a list without so many of its first elements
abbrev drop_first : ℕ → List ℕ → List ℕ
drop_first zero xs = xs
drop_first (suc n) [] = []
drop_first (suc n) (x ∷ xs) = drop_first n xs

-- `append` to a `deque(maxlen=window)`, which drops elements at the front
unfoldable pub push : ℕ → ℕ → List ℕ → List ℕ
push window x xs = drop_first (length (xs ++ x ∷ []) - window) (xs ++ x ∷ [])

-- `abs(m - n)`
abbrev pub distance : ℕ → ℕ → ℕ
distance m n = (m - n) + (n - m)

abbrev pub push_jitter : ℕ → ℕ → Option ℕ → List ℕ → List ℕ
push_jitter window rtt none samples = samples
push_jitter window rtt (some last) samples = push window (distance rtt last) samples

unfoldable pub record_success : ℕ → ℕ → Metrics → Metrics
record_success window rtt m = record m {
  attempts = m.attempts + 1;
  rtt_samples = push window rtt m.rtt_samples;
  jitter_samples = push_jitter window rtt m.last_rtt m.jitter_samples;
  last_rtt = some rtt;
}

unfoldable pub record_failure : Metrics → Metrics
record_failure m = record m { attempts = m.attempts + 1; failures = m.failures + 1 }

-- What the function does: it returns a value or raises an exception.
pub data Outcome {ℓ} (A E : Type ℓ) : Type ℓ where
  returned : A → Outcome A E
  raised : E → Outcome A E

pub record Attempt {ℓ} (A E : Type ℓ) : Type ℓ where
  pub asked_at : ℕ
  pub ended_at : ℕ
  pub rtt : ℕ
  pub outcome : Outcome A E

-- The result of `resilient_call`; `raise None` is an error of its own.
pub data Result {ℓ} (A E : Type ℓ) : Type ℓ where
  answered : A → Result A E
  exhausted : E → Result A E
  refused : ℕ → Result A E
  nothing_to_raise : Result A E

-- The breaker and the metrics of a peer.
pub record Peer : Type 0 where
  pub breaker : Breaker
  pub metrics : Metrics

pub record Policy : Type 0 where
  pub max_attempts : ℕ
  pub window : ℕ
  pub failure_threshold : ℕ
  pub recovery_seconds : ℕ

unfoldable pub should_retry : Policy → ℕ → Bool
should_retry p attempt = ltb attempt p.max_attempts

-- the state after a call that returned, and after one that raised
abbrev pub after_success : Policy → ℕ → Breaker → Peer → Peer
after_success p rtt b peer = record {
  breaker = on_success b;
  metrics = record_success p.window rtt peer.metrics;
}

abbrev pub after_failure : Policy → ℕ → Breaker → Peer → Peer
after_failure p now b peer = record {
  breaker = on_failure p.failure_threshold p.recovery_seconds now b;
  metrics = record_failure peer.metrics;
}

module _ {ℓ} {A E : Type ℓ} (p : Policy) (calls : ℕ → Attempt A E) where
  abbrev pub last_raised : Option E → Result A E
  last_raised none = nothing_to_raise
  last_raised (some e) = exhausted e

  -- an attempt whose call was made, with what the loop does after an exception
  abbrev pub settle : ℕ → Breaker → Peer → (E → Result A E × Peer) → Outcome A E → Result A E × Peer
  settle attempt b peer rest (returned a) = (answered a, after_success p (calls attempt).rtt b peer)
  settle attempt b peer rest (raised e) =
      let next = rest e in
      if should_retry p attempt
      then next
      else (exhausted e, after_failure p (calls attempt).ended_at b peer)

  -- an attempt after the breaker's answer
  abbrev pub after_answer :
      ℕ → Peer → (Breaker → E → Result A E × Peer) → Answer × Breaker → Result A E × Peer
  after_answer attempt peer rest (circuit_open wait, b) =
      (refused wait, record peer { breaker = b })
  after_answer attempt peer rest (proceed, b) =
      settle attempt b peer (rest b) (calls attempt).outcome

  -- the loop from an attempt on, with the attempts that are left
  unfoldable pub try_from : ℕ → ℕ → Option E → Peer → Result A E × Peer
  try_from zero attempt last_exc peer = (last_raised last_exc, peer)
  try_from (suc left) attempt last_exc peer =
      after_answer attempt peer
        (λ b e.
          try_from left (suc attempt) (some e) (after_failure p (calls attempt).ended_at b peer))
        (before_call p.failure_threshold p.recovery_seconds (calls attempt).asked_at peer.breaker)

  unfoldable pub resilient_call : Peer → Result A E × Peer
  resilient_call peer = try_from p.max_attempts 1 none peer
