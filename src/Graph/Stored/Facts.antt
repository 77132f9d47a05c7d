-- ===== src/Graph/Stored/Facts.antt =====
-- What the nodes of a graph hold: no phrases of a crisis, and weights within bounds.
use onto_ontological_context.Prelude.{
  ℕ, ◌+◌, ◌-◌, ◌*◌, ◌≤◌, min, ◌≡◌, String, false, List, [], ◌∷◌, arith, All,
}
use native.Mathlib.Nat.{mul-le-mul_left}
use onto_ontological_context.Graph.{
  Node, empty_graph, month, spacing_increment, reinforce_node, new_node,
}
use onto_ontological_context.Graph.Relate.{Language, Config, contains_crisis}
use onto_ontological_context.Graph.Maintain.{Formulas}
use onto_ontological_context.Graph.Operations.{Operation, operate_all}
use onto_ontological_context.Graph.Stored.{operate_all-All}

-- No operation stores a phrase of a crisis: if the extractor finds none in a text that contains none,
-- no node has a concept that contains one, after any sequence of operations on the empty graph.
pub operate_all-no_crisis :
    (l : Language) (c : Config) (f : Formulas) (start : ℕ) (os : List Operation)
    → ((text : String)
        → contains_crisis l text ≡ false
        → All (λ concept. contains_crisis l concept ≡ false) (l.extract_concepts text))
    → All
        (λ (n : Node). contains_crisis l n.concept ≡ false)
        (operate_all l c f os (empty_graph start)).nodes
unfolding reinforce_node new_node
operate_all-no_crisis l c f start os faithful =
    operate_all-All (λ (n : Node). contains_crisis l n.concept ≡ false)
      (λ concept. contains_crisis l concept ≡ false) c (λ id concept now sensitive provenance q. q)
      (λ now n h. h) l f os (empty_graph start) faithful tt

-- The weight is between the base reinforcement per sighting and twice that.
abbrev pub Weighs : ℕ → Node → Type 0
Weighs base n =
    (100 * base * month * n.times_seen ≤ n.weight)
    × (n.weight ≤ 2 * (100 * base * month) * n.times_seen)

spacing_increment-bounds :
    (base elapsed : ℕ)
    → (base * month ≤ spacing_increment base elapsed)
      × (spacing_increment base elapsed ≤ 2 * (base * month))
unfolding spacing_increment
spacing_increment-bounds base elapsed =
    let factor_low : month ≤ min (2 * month) (month + elapsed) = omega arith in
    let factor_high : min (2 * month) (month + elapsed) ≤ 2 * month = omega arith in
    let low = mul-le-mul_left base factor_low in
    let high = mul-le-mul_left base factor_high in (low, omega (arith, high))

reinforce_node-Weighs :
    (base now : ℕ) (n : Node) → Weighs base n → Weighs base (reinforce_node base now n)
unfolding reinforce_node
reinforce_node-Weighs base now n (low, high) =
    let (least, most) = spacing_increment-bounds base (now - n.last_reinforced) in
    (omega (arith, least, low), omega (arith, most, high))

every_concept : (concepts : List String) → All {0, 0} (λ concept. Unit) concepts
every_concept [] = tt
every_concept (concept ∷ concepts) = (tt, every_concept concepts)

-- After any sequence of operations on the empty graph, the weight of each node is between one and two
-- base reinforcements for each time that its concept was seen.
operate_all-Weighs :
    (l : Language) (c : Config) (f : Formulas) (start : ℕ) (os : List Operation)
    → All (Weighs c.base_reinforcement) (operate_all l c f os (empty_graph start)).nodes
unfolding new_node
operate_all-Weighs l c f start os =
    operate_all-All (Weighs c.base_reinforcement) (λ concept. Unit) c
      (λ id concept now sensitive provenance q. (omega arith, omega arith))
      (reinforce_node-Weighs c.base_reinforcement) l f os (empty_graph start)
      (λ text safe. every_concept (l.extract_concepts text)) tt
