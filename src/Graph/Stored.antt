-- ===== src/Graph/Stored.antt =====
-- What the nodes hold after any sequence of operations.
pub mod Facts
use onto_ontological_context.Prelude.{
  ℕ, suc, ◌+◌, ◌-◌, ◌*◌, ◌≤◌, min, ◌≡◌, ◌∙◌, refl, inl, inr, String, Bool, true, false, not, Option,
  none, some, List, [], ◌∷◌, ◌++◌, map, arith, select, All, All-append, any_of, ◌==◌, if◌then◌else◌,
  Bool-cases,
}
use onto_ontological_context.Prelude.Unique.{All-map, All-select}
use onto_ontological_context.Graph.{
  Node, Edge, Counter, Graph, month, spacing_increment, find_node, reinforce_node, update_node,
  new_node, write_node, upsert_node, upsert_edge,
}
use onto_ontological_context.Graph.Relate.{Language, Config, contains_crisis, update_ppmi_counters}
use onto_ontological_context.Graph.Maintain.{
  Formulas, is_faded, is_orphan, touches, remove_orphans, decay_counters, prune, decay, wipe,
}
use onto_ontological_context.Graph.Operations.{
  Operation, do_relate, do_prune, do_decay, do_wipe, operate, operate_all,
}
use onto_ontological_context.Graph.Keeps.{relate-keeps}
use onto_ontological_context.Graph.Well.Writes.{upsert_edge-nodes}

-- A predicate on nodes that new nodes for admitted concepts have and reinforcement keeps.
module _ (R : Node → Type 0) (Q : String → Type 0) (c : Config)
    (fresh : (id : ℕ) (concept : String) (now : ℕ) (sensitive : Bool) (provenance : ℕ)
      → Q concept
      → R (new_node c.base_reinforcement id concept now sensitive provenance))
    (reinforced : (now : ℕ) (n : Node) → R n → R (reinforce_node c.base_reinforcement now n)) where
  update_node-All :
      (now id : ℕ) (nodes : List Node)
      → All R nodes
      → All R (update_node id (reinforce_node c.base_reinforcement now) nodes)
  unfolding update_node
  update_node-All now id nodes all =
      All-map R (λ (n : Node). if n.id == id then reinforce_node c.base_reinforcement now n else n)
        nodes
        (λ n h. elim (Bool-cases (n.id == id)) [
          | inl e ↦ rw e (reinforced now n h)
          | inr e ↦ rw e h
        ])
        all

  write_node-All :
      (concept : String) (now : ℕ) (sensitive : Bool) (provenance : ℕ) (o : Option Node) (g : Graph)
      → Q concept
      → All R g.nodes
      → All R (write_node c.base_reinforcement concept now sensitive provenance o g).2.nodes
  unfolding write_node
  write_node-All concept now sensitive provenance none g q all =
      All-append R g.nodes
        (new_node c.base_reinforcement g.next_node_id concept now sensitive provenance ∷ []) all
        (fresh g.next_node_id concept now sensitive provenance q, tt)
  write_node-All concept now sensitive provenance (some n) g q all =
      update_node-All now n.id g.nodes all

  remove_orphans-All :
      (orphans : List Node) (removed : ℕ) (g : Graph)
      → All R g.nodes
      → All R (remove_orphans orphans removed g).1.nodes
  unfolding remove_orphans
  remove_orphans-All [] removed g all = all
  remove_orphans-All (n ∷ ns) removed g all = elim (Bool-cases (any_of (touches n.id) g.edges)) [
    | inl e ↦ rw e all
    | inr e ↦ rw e (
        remove_orphans-All ns (removed + 1)
          (record g {
            nodes = select (λ (m : Node). not (m.id == n.id)) g.nodes;
            counters = select (λ (k : Counter). not (k.node_id == n.id)) g.counters;
          })
          (All-select R (λ (m : Node). not (m.id == n.id)) g.nodes all))
  ]

  decay-All :
      (f : Formulas) (threshold now : ℕ) (g : Graph)
      → All R g.nodes
      → All R (decay f threshold now g).1.nodes
  unfolding decay decay_counters
  decay-All f threshold now g all =
      let kept : Graph = record g {
        edges = select (λ e. not (is_faded f threshold now e)) g.edges;
      } in
      let orphans = select (is_orphan kept.edges) kept.nodes in
      elim (Bool-cases ((remove_orphans orphans 0 kept).2)) [
        | inl e ↦ rw e all
        | inr e ↦ rw e (remove_orphans-All orphans 0 kept all)
      ]

  pub operate_all-All :
      (l : Language) (f : Formulas) (os : List Operation) (g : Graph)
      → ((text : String) → contains_crisis l text ≡ false → All Q (l.extract_concepts text))
      → All R g.nodes
      → All R (operate_all l c f os g).nodes
  unfolding operate_all operate prune wipe upsert_node
  operate_all-All l f [] g admitted all = all
  operate_all-All l f (do_relate now input ∷ os) g admitted all =
      operate_all-All l f os (operate l c f (do_relate now input) g) admitted (
        relate-keeps (λ nodes edges. All R nodes) Q c
          (λ concept at sensitive provenance h q known.
            write_node-All concept at sensitive provenance (find_node concept h.nodes) h q known)
          (λ source target at r sensitive provenance h known.
            rw (upsert_edge-nodes source target at r sensitive provenance h) known)
          l now input g admitted all)
  operate_all-All l f (do_prune threshold now ∷ os) g admitted all =
      operate_all-All l f os (operate l c f (do_prune threshold now) g) admitted all
  operate_all-All l f (do_decay threshold now ∷ os) g admitted all =
      operate_all-All l f os (operate l c f (do_decay threshold now) g) admitted
        (decay-All f threshold now g all)
  operate_all-All l f (do_wipe ∷ os) g admitted all =
      operate_all-All l f os (operate l c f do_wipe g) admitted tt
