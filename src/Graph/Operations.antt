-- ===== src/Graph/Operations.antt =====
-- modules/graph.py: sequences of the operations that write the graph.
use onto_ontological_context.Prelude.{ℕ, List, [], ◌∷◌}
use onto_ontological_context.Graph.{Graph}
use onto_ontological_context.Graph.Relate.{Language, Config, Package, relate}
use onto_ontological_context.Graph.Maintain.{Formulas, prune, decay, wipe}

-- The operations that write the graph, with their readings of the clock.
pub data Operation : Type 0 where
  do_relate : ℕ → Package → Operation
  do_prune do_decay : ℕ → ℕ → Operation
  do_wipe : Operation

module _ (l : Language) (c : Config) (f : Formulas) where
  unfoldable pub operate : Operation → Graph → Graph
  operate (do_relate now input) g = (relate l c now input g).1
  operate (do_prune threshold now) g = (prune f threshold now g).1
  operate (do_decay threshold now) g = (decay f threshold now g).1
  operate do_wipe g = (wipe g).1

  unfoldable pub operate_all : List Operation → Graph → Graph
  operate_all [] g = g
  operate_all (o ∷ os) g = operate_all os (operate o g)
