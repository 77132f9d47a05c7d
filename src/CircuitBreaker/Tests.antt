-- ===== src/CircuitBreaker/Tests.antt =====
-- A breaker that opens after two failures, for ten ticks.
use onto_ontological_context.Prelude.{◌≡◌, refl, String, some, List, [], ◌∷◌, arith}
use onto_ontological_context.CircuitBreaker.{
  state_open, closed_breaker, proceed, circuit_open, Event, called, succeeded, failed,
  before_call_in, before_call, on_success, on_failure, step, run,
}
use onto_ontological_context.CircuitBreaker.Machine.{after, asked}
use onto_ontological_context.CircuitBreaker.Probe.{calls, single_probe}

abbrev events : List Event
events = failed 1 ∷ succeeded ∷ called 2 ∷ failed 3 ∷ failed 5 ∷ []

single_probe_example :
    ((asked 2 10 15 (after 2 10 events)).0 ≡ proceed)
    × ((asked 2 10 30 (run 2 10 (calls (16 ∷ 17 ∷ [])) (asked 2 10 15 (after 2 10 events)).1)).0
        ≡ circuit_open 0)
    × (on_success (asked 2 10 15 (after 2 10 events)).1 ≡ closed_breaker)
    × ((on_failure 2 10 30 (asked 2 10 15 (after 2 10 events)).1).state ≡ state_open)
    × ((on_failure 2 10 30 (asked 2 10 15 (after 2 10 events)).1).opened_at ≡ some 30)
unfolding run step on_failure on_success before_call before_call_in
single_probe_example =
    single_probe 2 10 events 5 15 30 (16 ∷ 17 ∷ []) (omega arith) refl refl (omega arith)

abbrev traffic : List (String × Event)
traffic = ("p", failed 1) ∷ ("q", failed 2) ∷ ("p", failed 3) ∷ []
