-- ===== src/Crdt/VectorClock.antt =====
-- api/federation/crdt.py: `VectorClock`, `vclock_compare`, `vclock_merge` and `detect_conflict`.
pub mod Order
pub mod Compare
use onto_ontological_context.Prelude.{
  ℕ, suc, ◌+◌, max, String, Bool, true, false, not, ◌&&◌, ◌||◌, Option, none, some, List, [], ◌∷◌,
  ltb, leb, ◌==◌, if◌then◌else◌, all_of, str_eq,
}
use onto_ontological_context.Prelude.Dict
use onto_ontological_context.Prelude.Dict.{Dict, keys, tabulate}
use onto_ontological_context.Prelude.Texts.{union}

-- `VectorClock._clock`; `to_dict` and `from_dict` copy it.
abbrev pub VectorClock : Type 0
VectorClock = Dict ℕ

-- `self._clock.get(n, 0)`
unfoldable pub at : VectorClock → String → ℕ
at c n = Dict.get_or n 0 c

unfoldable pub increment : String → VectorClock → VectorClock
increment node_id c = Dict.set node_id (at c node_id + 1) c

-- `set(self._clock) | set(other._clock)`
unfoldable pub all_nodes : VectorClock → VectorClock → List String
all_nodes a b = union (keys a) (keys b)

unfoldable pub merge : VectorClock → VectorClock → VectorClock
merge a b = tabulate (λ n. max (at a n) (at b n)) (all_nodes a b)

-- The loop of `dominates` over the nodes, with its flag.
unfoldable pub dominates_over : VectorClock → VectorClock → Bool → List String → Bool
dominates_over a b at_least_one_greater [] = at_least_one_greater
dominates_over a b at_least_one_greater (n ∷ ns) =
    let rest = dominates_over a b (ltb (at b n) (at a n) || at_least_one_greater) ns in
    if ltb (at a n) (at b n) then false else rest

unfoldable pub dominates : VectorClock → VectorClock → Bool
dominates a b = dominates_over a b false (all_nodes a b)

unfoldable pub is_concurrent_with : VectorClock → VectorClock → Bool
is_concurrent_with a b = not (dominates a b) && not (dominates b a)

-- `__eq__`
unfoldable pub equals : VectorClock → VectorClock → Bool
equals a b = all_of (λ n. at a n == at b n) (all_nodes a b)

pub data Comparison : Type 0 where
  equal a_dominates b_dominates concurrent : Comparison

unfoldable pub vclock_compare : VectorClock → VectorClock → Comparison
vclock_compare a b =
    if equals a b
    then equal
    else if dominates a b
    then a_dominates
    else if dominates b a
    then b_dominates
    else concurrent

pub data Outcome : Type 0 where
  local_wins remote_wins conflict : Outcome

-- `conflict` stands for the answer "concurrent".
unfoldable pub detect_conflict : VectorClock → VectorClock → ℕ → ℕ → Outcome
detect_conflict local_vclock remote_vclock local_ts remote_ts =
    if equals local_vclock remote_vclock
    then (if leb remote_ts local_ts then local_wins else remote_wins)
    else if dominates local_vclock remote_vclock
    then local_wins
    else if dominates remote_vclock local_vclock
    then remote_wins
    else conflict

-- `vclock_from_json`, where `json_loads` parses an object with integer values, and gives none for a
-- text on which the parser or `int` raises
unfoldable pub vclock_from_json : (String → Option VectorClock) → Option String → VectorClock
vclock_from_json json_loads none = []
vclock_from_json json_loads (some s) =
    if str_eq s "" then [] else elim (json_loads s) [ none ↦ [] | some c ↦ c ]
