-- ===== src/Graph/Deleted/Stays.antt =====
-- Edges that are marked as deleted stay so.
use onto_ontological_context.Prelude.{
  ℕ, ◌+◌, ◌≡◌, refl, ◌∙◌, inl, inr, String, Bool, true, false, not, ◌&&◌, Option, none, some, List,
  [], ◌∷◌, map, arith, any_of, select, ◌==◌, if◌then◌else◌, Bool-cases, All,
}
use onto_ontological_context.Prelude.Unique.{any_of-append}
use onto_ontological_context.Graph.{
  Node, Edge, Counter, Graph, find_node, find_edge, new_edge, reinforce_edge, update_edge,
  upsert_node, write_edge, upsert_edge,
}
use onto_ontological_context.Graph.Relate.{Language, Config, clear_ppmi, update_ppmi_counters}
use onto_ontological_context.Graph.Maintain.{
  Formulas, refresh_ppmi, soft_delete, prune, is_faded, touches, is_orphan, remove_orphans,
  forget_ppmi, decay_counters, decay,
}
use onto_ontological_context.Graph.Operations.{
  Operation, do_relate, do_prune, do_decay, do_wipe, operate, operate_all,
}
use onto_ontological_context.Graph.Keeps.{relate-keeps}
use onto_ontological_context.Graph.Well.Writes.{write_node-edges}

-- the edge with an id, if it is marked as deleted
abbrev pub is_marked : ℕ → Edge → Bool
is_marked id e = (e.id == id) && e.is_deleted

abbrev pub Marked : ℕ → List Edge → Type 0
Marked id edges = any_of (is_marked id) edges ≡ true

map-Marked :
    (id : ℕ) (f : Edge → Edge) (edges : List Edge)
    → ((e : Edge) → is_marked id e ≡ true → is_marked id (f e) ≡ true)
    → Marked id edges
    → Marked id (map f edges)
map-Marked id f [] keeps there = there
map-Marked id f (e ∷ es) keeps there = elim (Bool-cases (is_marked id e)) [
  | inl h ↦ rw (keeps e h) refl
  | inr h ↦ ground (arith, map-Marked id f es keeps (ground (arith, there, h)))
]

select-Marked :
    (id : ℕ) (p : Edge → Bool) (edges : List Edge)
    → ((e : Edge) → is_marked id e ≡ true → p e ≡ true)
    → Marked id edges
    → Marked id (select p edges)
select-Marked id p [] keeps there = there
select-Marked id p (e ∷ es) keeps there = elim (Bool-cases (is_marked id e)) [
  | inl h ↦ rw (keeps e h) (rw h refl)
  | inr h ↦ ground (arith, select-Marked id p es keeps (ground (arith, there, h)))
]

write_edge-Marked :
    (id source target now reinforcement : ℕ) (sensitive : Bool) (provenance : ℕ) (o : Option Edge)
    (g : Graph)
    → Marked id g.edges
    → Marked id (write_edge source target now reinforcement sensitive provenance o g).1.edges
unfolding write_edge update_edge reinforce_edge
write_edge-Marked id source target now reinforcement sensitive provenance none g there =
    let e = new_edge g.next_edge_id source target now reinforcement sensitive provenance in
    any_of-append (is_marked id) g.edges (e ∷ []) ∙ rw there refl
write_edge-Marked id source target now reinforcement sensitive provenance (some e) g there =
    map-Marked id (λ (d : Edge). if d.id == e.id then reinforce_edge reinforcement now d else d)
      g.edges (λ d h. ground arith) there

remove_orphans-edges :
    (orphans : List Node) (removed : ℕ) (g : Graph)
    → (remove_orphans orphans removed g).1.edges ≡ g.edges
unfolding remove_orphans
remove_orphans-edges [] removed g = refl
remove_orphans-edges (n ∷ ns) removed g = elim (Bool-cases (any_of (touches n.id) g.edges)) [
  | inl e ↦ rw e refl
  | inr e ↦ rw e (
      remove_orphans-edges ns (removed + 1) (record g {
        nodes = select (λ (m : Node). not (m.id == n.id)) g.nodes;
        counters = select (λ (c : Counter). not (c.node_id == n.id)) g.counters;
      }))
]

decay-Marked :
    (id : ℕ) (f : Formulas) (threshold now : ℕ) (g : Graph)
    → Marked id g.edges
    → Marked id (decay f threshold now g).1.edges
unfolding decay decay_counters forget_ppmi is_faded
decay-Marked id f threshold now g there =
    let kept : Graph = record g {
      edges = select (λ e. not (is_faded f threshold now e)) g.edges;
    } in
    let orphans = select (is_orphan kept.edges) kept.nodes in
    let marked : Marked id (remove_orphans orphans 0 kept).1.edges =
      rw (remove_orphans-edges orphans 0 kept) (
        select-Marked id (λ e. not (is_faded f threshold now e)) g.edges (λ e h. ground arith)
          there) in
    elim (Bool-cases ((remove_orphans orphans 0 kept).2)) [
      | inl e ↦ rw e there
      | inr e ↦ rw e (
          map-Marked id forget_ppmi (remove_orphans orphans 0 kept).1.edges (λ d h. ground arith)
            marked)
    ]

prune-Marked :
    (id : ℕ) (f : Formulas) (threshold now : ℕ) (g : Graph)
    → Marked id g.edges
    → Marked id (prune f threshold now g).1.edges
unfolding prune refresh_ppmi soft_delete
prune-Marked id f threshold now g there =
    map-Marked id (soft_delete threshold) (map (refresh_ppmi f now g) g.edges) (λ e h. ground arith)
      (map-Marked id (refresh_ppmi f now g) g.edges (λ e h. ground arith) there)

abbrev pub is_wipe : Operation → Bool
is_wipe (do_relate now input) = false
is_wipe (do_prune threshold now) = false
is_wipe (do_decay threshold now) = false
is_wipe do_wipe = true

any_concept : (concepts : List String) → All {0, 0} (λ concept. Unit) concepts
any_concept [] = tt
any_concept (concept ∷ concepts) = (tt, any_concept concepts)

-- An edge that is marked as deleted stays marked under any sequence of relate, prune and decay: no
-- later occurrence of its two concepts makes it visible again.
pub operate_all-Marked :
    (l : Language) (c : Config) (f : Formulas) (id : ℕ) (os : List Operation) (g : Graph)
    → any_of is_wipe os ≡ false
    → Marked id g.edges
    → Marked id (operate_all l c f os g).edges
unfolding operate_all operate update_ppmi_counters clear_ppmi upsert_edge upsert_node
operate_all-Marked l c f id [] g kept there = there
operate_all-Marked l c f id (do_relate now input ∷ os) g kept there =
    operate_all-Marked l c f id os (operate l c f (do_relate now input) g) kept (
      relate-keeps (λ nodes edges. Marked id edges) (λ concept. Unit) c
        (λ concept at sensitive provenance h q marked.
          rw
            ((write_node-edges c.base_reinforcement concept at sensitive provenance
              (find_node concept h.nodes) h).0)
            marked)
        (λ source target at r sensitive provenance h marked.
          map-Marked id
            (λ (e : Edge).
              if (e.source_node_id == source) && (e.target_node_id == target)
              then clear_ppmi e
              else e)
            (upsert_edge source target at r sensitive provenance h).1.edges (λ e m. ground arith)
            (write_edge-Marked id source target at r sensitive provenance
              (find_edge source target h.edges) h marked))
        l now input g (λ text safe. any_concept (l.extract_concepts text)) there)
operate_all-Marked l c f id (do_prune threshold now ∷ os) g kept there =
    operate_all-Marked l c f id os (operate l c f (do_prune threshold now) g) kept
      (prune-Marked id f threshold now g there)
operate_all-Marked l c f id (do_decay threshold now ∷ os) g kept there =
    operate_all-Marked l c f id os (operate l c f (do_decay threshold now) g) kept
      (decay-Marked id f threshold now g there)
operate_all-Marked l c f id (do_wipe ∷ os) g kept there = ground arith
