-- ===== src/Federation/Audit/Tests.antt =====
-- Runs of the model of api/federation/audit.py, and its theorems at concrete inputs.
use onto_ontological_context.Prelude.{◌*◌, ◌≡◌, refl, [], ◌∷◌, All}
use onto_ontological_context.Prelude.Dict
use onto_ontological_context.Ratelimit.{second}
use onto_ontological_context.Federation.Audit.{
  RateState, rate_ok, in_backoff, rate_exceeded, check_rate_limit, escalate_backoff, find_level,
  recent,
}
use onto_ontological_context.Federation.Audit.Backoff.{calls_at, IsFlat, calls_at-IsFlat}

abbrev quiet : RateState
quiet = record { rate_state = []; backoff_state = [] }

-- two messages a minute: the third call is refused, and so is the next one while the backoff lasts
calls_at_test :
    calls_at 2 "peer" (1 * second ∷ 2 * second ∷ 3 * second ∷ 23 * second ∷ []) quiet
    ≡ rate_ok ∷ rate_ok ∷ rate_exceeded 2 120 ∷ in_backoff (100 * second) ∷ []
unfolding calls_at check_rate_limit escalate_backoff find_level recent Dict.get_or Dict.set
calls_at_test = refl

calls_at-IsFlat_example :
    All IsFlat (calls_at 2 "peer" (1 * second ∷ 2 * second ∷ 3 * second ∷ []) quiet)
calls_at-IsFlat_example = calls_at-IsFlat 2 "peer" (1 * second ∷ 2 * second ∷ 3 * second ∷ []) quiet
