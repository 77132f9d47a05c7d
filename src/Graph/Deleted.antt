-- ===== src/Graph/Deleted.antt =====
-- Edges that `prune` has marked as deleted: `relate` does not bring them back, and `decay` cannot
-- remove a node that has no others.
pub mod Stays
use onto_ontological_context.Prelude.{
  ℕ, suc, ◌+◌, ◌≡◌, refl, ap, ◌∙◌, inl, inr, Bool, true, false, not, ◌&&◌, ◌||◌, Option, none, some,
  List, [], ◌∷◌, ◌++◌, map, arith, any_of, select, ◌==◌, if◌then◌else◌, Bool-cases,
}
use onto_ontological_context.Prelude.Unique.{any_of-select}
use onto_ontological_context.Graph.{Node, Edge, Counter, Graph}
use onto_ontological_context.Graph.Maintain.{
  Formulas, is_faded, touches, is_orphan, remove_orphans, decay_counters, decay,
}

touches_same :
    (i j : ℕ) (edges : List Edge)
    → (i == j) ≡ true
    → any_of (touches i) edges ≡ any_of (touches j) edges
touches_same i j edges h =
    let same : i ≡ j = ground arith in ap (λ k. any_of (touches k) edges) same

-- One node whose deletion the foreign key of an edge forbids makes the loop fail.
remove_orphans-fails :
    (id : ℕ) (orphans : List Node) (removed : ℕ) (g : Graph)
    → any_of (λ (n : Node). n.id == id) orphans ≡ true
    → any_of (touches id) g.edges ≡ true
    → (remove_orphans orphans removed g).2 ≡ true
unfolding remove_orphans
remove_orphans-fails id [] removed g there touched = ground arith
remove_orphans-fails id (n ∷ ns) removed g there touched =
    elim (Bool-cases (any_of (touches n.id) g.edges)) [
      | inl e ↦ rw e refl
      | inr e ↦ rw e (
          remove_orphans-fails id ns (removed + 1)
            (record g {
              nodes = select (λ (m : Node). not (m.id == n.id)) g.nodes;
              counters = select (λ (c : Counter). not (c.node_id == n.id)) g.counters;
            })
            (ground (arith, touches_same n.id id g.edges)) touched)
    ]

-- The query for orphaned nodes finds a node by its id.
orphan_found :
    (id : ℕ) (edges : List Edge) (nodes : List Node)
    → any_of (λ (n : Node). n.id == id) nodes ≡ true
    → any_of (λ (e : Edge). touches id e && not e.is_deleted) edges ≡ false
    → any_of (λ (n : Node). n.id == id) (select (is_orphan edges) nodes) ≡ true
unfolding is_orphan
orphan_found id edges [] there alone = there
orphan_found id edges (n ∷ ns) there alone = elim (Bool-cases (n.id == id)) [
  | inl e ↦
      let same : n.id ≡ id = ground arith in
      let orphan : not (any_of (λ (e : Edge). touches n.id e && not e.is_deleted) edges) ≡ true =
        rw same (rw alone refl) in
      rw orphan (ground arith)
  | inr e ↦ ground (arith, orphan_found id edges ns)
]

-- Deleted edges are neither live nor faded.
none_live :
    (f : Formulas) (threshold now id : ℕ) (edges : List Edge)
    → any_of (λ (e : Edge). touches id e && not e.is_deleted) edges ≡ false
    → any_of
        (λ (e : Edge). touches id e && not e.is_deleted)
        (select (λ e. not (is_faded f threshold now e)) edges)
      ≡ false
none_live f threshold now id edges h =
    any_of-select (λ (e : Edge). touches id e && not e.is_deleted)
      (λ e. not (is_faded f threshold now e)) edges h

still_touched :
    (f : Formulas) (threshold now id : ℕ) (edges : List Edge)
    → any_of (λ (e : Edge). touches id e && e.is_deleted) edges ≡ true
    → any_of (touches id) (select (λ e. not (is_faded f threshold now e)) edges) ≡ true
unfolding is_faded
still_touched f threshold now id [] h = ground arith
still_touched f threshold now id (e ∷ es) h = ground (arith, still_touched f threshold now id es)

-- If all edges of some node are marked as deleted and it has one, then decay changes nothing at all,
-- at any time and with any threshold: neither edges that have faded, nor other nodes, nor counters.
pub decay-stuck :
    (f : Formulas) (threshold now id : ℕ) (g : Graph)
    → any_of (λ (n : Node). n.id == id) g.nodes ≡ true
    → any_of (λ (e : Edge). touches id e && not e.is_deleted) g.edges ≡ false
    → any_of (λ (e : Edge). touches id e && e.is_deleted) g.edges ≡ true
    → (decay f threshold now g).1 ≡ g
unfolding decay
decay-stuck f threshold now id g there alone marked =
    let left = select (λ e. not (is_faded f threshold now e)) g.edges in
    let failed =
      remove_orphans-fails id (select (is_orphan left) g.nodes) 0 (record g { edges = left })
        (orphan_found id left g.nodes there (none_live f threshold now id g.edges alone))
        (still_touched f threshold now id g.edges marked) in
    rw failed refl
