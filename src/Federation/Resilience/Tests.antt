-- ===== src/Federation/Resilience/Tests.antt =====
-- Runs of the model of api/federation/network_resilience.py, and its theorems at concrete inputs.
use onto_ontological_context.Prelude.{ℕ, ◌+◌, ◌*◌, refl, arith, String, ◌==◌, if◌then◌else◌}
use onto_ontological_context.CircuitBreaker.{closed_breaker}
use onto_ontological_context.Federation.Resilience.{
  no_metrics, returned, raised, Attempt, Peer, Policy, resilient_call,
}
use onto_ontological_context.Federation.Resilience.Calls.{Succeeds, resilient_call-answered}

-- The third call returns, all others raise.
abbrev calls : ℕ → Attempt String String
calls n = record {
  asked_at = 10 * n;
  ended_at = 10 * n + 5;
  rtt = 5;
  outcome = if n == 3 then returned "pong" else raised "timeout";
}

abbrev policy : Policy
policy = record { max_attempts = 4; window = 20; failure_threshold = 5; recovery_seconds = 60 }

abbrev peer : Peer
peer = record { breaker = closed_breaker; metrics = no_metrics }

resilient_call-answered_example : Succeeds policy calls "pong" (resilient_call policy calls peer)
resilient_call-answered_example =
    resilient_call-answered policy calls 2 peer "pong" refl (omega arith) (omega arith)
      (("timeout", refl), (("timeout", refl), tt)) refl
