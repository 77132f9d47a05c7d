-- ===== src/Crdt/Tests.antt =====
-- The replicated data types at concrete clocks, sets and entries.
use mathlib.Core.List.{Permᴰ}
use onto_ontological_context.Prelude.{
  ℕ, ◌≡◌, ◌↔◌, refl, inr, String, true, Option, some, [], ◌∷◌, arith, str_eq, if◌then◌else◌,
}
use onto_ontological_context.Prelude.Dict
use onto_ontological_context.Prelude.Dict.{Dict}
use onto_ontological_context.Prelude.Texts.{member, union}
use onto_ontological_context.Crdt.VectorClock
use onto_ontological_context.Crdt.VectorClock.{
  VectorClock, at, all_nodes, equals, dominates, dominates_over, is_concurrent_with, equal,
  b_dominates, concurrent, vclock_compare, local_wins, detect_conflict, vclock_from_json,
}
use onto_ontological_context.Crdt.OrSet.{OrSet, empty, add, remove, contains}
use onto_ontological_context.Crdt.OrSet.Converge.{receive, Survives, receive_converges}
use onto_ontological_context.Crdt.Registers.{LwwRegister, PnCounter}
use onto_ontological_context.Crdt.MergeSets.{Data, compare_data, merge_edge_weights}
use onto_ontological_context.Crdt.MergeSets.Agree.{edges_agree}

abbrev left : VectorClock
left = ("a", 2) ∷ ("b", 1) ∷ []

abbrev right : VectorClock
right = ("a", 1) ∷ ("b", 3) ∷ []

abbrev above : VectorClock
above = VectorClock.merge left right

abbrev held : OrSet
held = add "water" "t1" empty

abbrev gone : OrSet
gone = remove "water" held

abbrev fresh : OrSet
fresh = add "salt" "t2" empty

receive_converges_example :
    ((contains "water" (receive held (gone ∷ fresh ∷ [])) ≡ true)
      ↔ Survives "water" (held ∷ gone ∷ fresh ∷ []))
    × (contains "water" (receive held (gone ∷ fresh ∷ []))
        ≡ contains "water" (receive gone (held ∷ fresh ∷ [])))
receive_converges_example =
    receive_converges held gone (gone ∷ fresh ∷ []) (held ∷ fresh ∷ []) "water"
      ∣ Permᴰ.swap refl refl ∣₁

abbrev weight : String → ℕ → LwwRegister String
weight value ts = record { value = value; ts = ts }

abbrev counter : PnCounter
counter = record { positive = ("a", 3) ∷ []; negative = [] }

abbrev json_loads : String → Option VectorClock
json_loads s =
    if str_eq s "left"
    then some left
    else if str_eq s "right"
    then some right
    else some (("a", 2) ∷ ("b", 3) ∷ [])

abbrev entry : String → ℕ → Data ℕ
entry clock time = record {
  vector_clock = some clock;
  weight = some 1;
  last_reinforced = some time;
  others = [];
}

abbrev ours : Dict (Data ℕ)
ours = ("k", entry "left" 3) ∷ []

abbrev theirs : Dict (Data ℕ)
theirs = ("k", entry "right" 8) ∷ []

apart : compare_data json_loads (entry "left" 3) (entry "right" 8) ≡ concurrent
unfolding compare_data vclock_from_json vclock_compare equals dominates dominates_over all_nodes at
    Dict.get_or union member
apart = refl

ahead : compare_data json_loads (entry "left" 3) (entry "both" 9) ≡ b_dominates
unfolding compare_data vclock_from_json vclock_compare equals dominates dominates_over all_nodes at
    Dict.get_or union member
ahead = refl

abbrev newer : Dict (Data ℕ)
newer = ("k", entry "both" 9) ∷ []

edges_agree_example :
    Dict.get "k" (merge_edge_weights json_loads ours theirs).entries
    ≡ Dict.get "k" (merge_edge_weights json_loads theirs ours).entries
unfolding member Dict.get
edges_agree_example =
    edges_agree json_loads ours theirs "k" (refl, tt) (refl, tt) (λ e. cc (e, apart))
      (inr (λ e. omega (arith, e)))
