-- ===== src/Ratelimit/Tests.antt =====
-- Limiters of two and three calls in ten seconds.
use onto_ontological_context.Prelude.{ℕ, ◌*◌, ◌≤◌, ◌≡◌, List, [], ◌∷◌, arith, length, select}
use onto_ontological_context.Ratelimit.{second}
use onto_ontological_context.Ratelimit.Spec.{Ascending, ideal_run, run, within}
use onto_ontological_context.Ratelimit.Bound.{run-ideal_run, run-within}

abbrev calls : List ℕ
calls = 1 * second ∷ 2 * second ∷ 3 * second ∷ 12 * second ∷ []

calls-Ascending : Ascending 0 calls (12 * second)
calls-Ascending = ground arith

run-ideal_run_example : run 2 10 [] [] calls ≡ ideal_run 2 10 [] calls
run-ideal_run_example = run-ideal_run 2 10 calls (12 * second) calls-Ascending

run-within_example : length (select (within 2 10 (2 * second)) (run 2 10 [] [] calls)) ≤ 2
run-within_example = run-within 2 10 calls (12 * second) (2 * second) (omega arith) calls-Ascending

abbrev waiting : List ℕ
waiting = 1 * second ∷ 3 * second ∷ []
