-- ===== src/Graph/Well/Upkeep.antt =====
-- `prune`, `decay` and `wipe` keep the constraints of the schema.
use onto_ontological_context.Prelude.{
  ℕ, ◌+◌, ◌<◌, ◌≡◌, inl, inr, Bool, true, false, not, List, [], ◌∷◌, map, arith, any_of, select,
  All, ◌==◌, if◌then◌else◌, Bool-cases,
}
use onto_ontological_context.Prelude.Unique.{select-IsUnique, All-select}
use onto_ontological_context.Graph.{Node, Edge, Counter, Graph}
use onto_ontological_context.Graph.Maintain.{
  Formulas, refresh_ppmi, soft_delete, prune, is_faded, touches, is_orphan, remove_orphans,
  forget_ppmi, decay_counters, decay, wipe,
}
use onto_ontological_context.Graph.Well.{same_node, has_node, Joined, IsWell}
use onto_ontological_context.Graph.Well.Edges.{
  map-EdgesWell, select-EdgesWell, refresh_ppmi-KeepsKeys, soft_delete-KeepsKeys,
  forget_ppmi-KeepsKeys,
}

pub prune-IsWell :
    (f : Formulas) (threshold now : ℕ) (g : Graph) → IsWell g → IsWell (prune f threshold now g).1
unfolding prune IsWell
prune-IsWell f threshold now g (nodes, edges) = (
  nodes,
  map-EdgesWell (soft_delete threshold) g.nodes g.next_edge_id (map (refresh_ppmi f now g) g.edges)
      (soft_delete-KeepsKeys threshold)
      (map-EdgesWell (refresh_ppmi f now g) g.nodes g.next_edge_id g.edges
        (refresh_ppmi-KeepsKeys f now g) edges),
)

has_node-select :
    (id gone : ℕ) (nodes : List Node)
    → has_node id nodes ≡ true
    → (id == gone) ≡ false
    → has_node id (select (λ (m : Node). not (m.id == gone)) nodes) ≡ true
unfolding has_node
has_node-select id gone [] h differs = ground arith
has_node-select id gone (n ∷ ns) h differs = ground (arith, has_node-select id gone ns)

-- Edges that do not touch a node stay joined without it.
untouched-Joined :
    (gone : ℕ) (nodes : List Node) (edges : List Edge)
    → any_of (touches gone) edges ≡ false
    → All (Joined nodes) edges
    → All (Joined (select (λ (m : Node). not (m.id == gone)) nodes)) edges
unfolding touches
untouched-Joined gone nodes [] free joined = tt
untouched-Joined gone nodes (e ∷ es) free joined = (
  (
    has_node-select e.source_node_id gone nodes joined.0.0 (ground arith),
    has_node-select e.target_node_id gone nodes joined.0.1 (ground arith),
  ),
  untouched-Joined gone nodes es (ground arith) joined.1,
)

remove_orphans-IsWell :
    (orphans : List Node) (removed : ℕ) (g : Graph)
    → IsWell g
    → IsWell (remove_orphans orphans removed g).1
unfolding remove_orphans IsWell
remove_orphans-IsWell [] removed g well = well
remove_orphans-IsWell (n ∷ ns) removed g ((unique, below), edges) =
    elim (Bool-cases (any_of (touches n.id) g.edges)) [
      | inl e ↦ rw e ((unique, below), edges)
      | inr e ↦ rw e (
          remove_orphans-IsWell ns (removed + 1)
            (record g {
              nodes = select (λ (m : Node). not (m.id == n.id)) g.nodes;
              counters = select (λ (c : Counter). not (c.node_id == n.id)) g.counters;
            })
            (
              (
                select-IsUnique same_node (λ (m : Node). not (m.id == n.id)) g.nodes unique,
                All-select (λ (m : Node). m.id < g.next_node_id) (λ (m : Node). not (m.id == n.id))
                    g.nodes below,
              ),
              (edges.0, edges.1, untouched-Joined n.id g.nodes g.edges e edges.2),
            ))
    ]

decay_counters-IsWell :
    (f : Formulas) (now : ℕ) (g : Graph) → IsWell g → IsWell (decay_counters f now g)
unfolding decay_counters IsWell
decay_counters-IsWell f now g (nodes, edges) =
    (nodes, map-EdgesWell forget_ppmi g.nodes g.next_edge_id g.edges forget_ppmi-KeepsKeys edges)

-- A transaction leaves one of two tables.
either-IsWell : (b : Bool) (g h : Graph) → IsWell g → IsWell h → IsWell (if b then g else h)
either-IsWell true g h hg hh = hg
either-IsWell false g h hg hh = hh

select_edges-IsWell :
    (p : Edge → Bool) (g : Graph) → IsWell g → IsWell (record g { edges = select p g.edges })
unfolding IsWell
select_edges-IsWell p g (nodes, edges) =
    (nodes, select-EdgesWell p g.nodes g.next_edge_id g.edges edges)

pub decay-IsWell :
    (f : Formulas) (threshold now : ℕ) (g : Graph) → IsWell g → IsWell (decay f threshold now g).1
unfolding decay
decay-IsWell f threshold now g well =
    let kept : Graph = record g {
      edges = select (λ e. not (is_faded f threshold now e)) g.edges;
    } in
    let orphans = select (is_orphan kept.edges) kept.nodes in
    let pruned = (remove_orphans orphans 0 kept).1 in
    either-IsWell (remove_orphans orphans 0 kept).2 g (decay_counters f now pruned) well (
      decay_counters-IsWell f now pruned (
        remove_orphans-IsWell orphans 0 kept
          (select_edges-IsWell (λ e. not (is_faded f threshold now e)) g well)))

pub wipe-IsWell : (g : Graph) → IsWell g → IsWell (wipe g).1
unfolding wipe IsWell
wipe-IsWell g well = ((tt, tt), (tt, tt, tt))
