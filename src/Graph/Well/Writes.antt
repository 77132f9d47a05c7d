-- ===== src/Graph/Well/Writes.antt =====
-- The loops of `relate` keep the constraints of the schema.
use onto_ontological_context.Prelude.{
  ℕ, ◌≡◌, refl, inl, inr, String, Bool, true, ◌&&◌, Option, none, some, List, [], ◌∷◌, All,
  All-append, ◌==◌, str_eq, if◌then◌else◌, Bool-cases,
}
use onto_ontological_context.Prelude.Texts.{member}
use onto_ontological_context.Prelude.Dict
use onto_ontological_context.Prelude.Dict.{Dict}
use onto_ontological_context.Prelude.Unique.{All-weaken}
use onto_ontological_context.Graph.{
  Node, Edge, Graph, find_node, find_edge, write_node, upsert_node, upsert_edge,
}
use onto_ontological_context.Graph.Relate.{
  Config, Progress, Pair, sensitive_concepts, clear_ppmi, update_ppmi_counters, relate_concept,
  relate_concepts, pairs_with, concept_pairs,
}
use onto_ontological_context.Graph.Well.{has_node, Joined, IsWell, write_node_lem}
use onto_ontological_context.Graph.Well.Edges.{
  map-EdgesWell, clear_ppmi-KeepsKeys, write_edge-EdgesWell, write_edge-nodes,
}

pub write_node-edges :
    (base : ℕ) (concept : String) (now : ℕ) (sensitive : Bool) (provenance : ℕ) (o : Option Node)
    (g : Graph)
    → ((write_node base concept now sensitive provenance o g).2.edges ≡ g.edges)
      × ((write_node base concept now sensitive provenance o g).2.next_edge_id ≡ g.next_edge_id)
unfolding write_node
write_node-edges base concept now sensitive provenance none g = (refl, refl)
write_node-edges base concept now sensitive provenance (some n) g = (refl, refl)

-- A graph that meets the constraints, with ids of nodes that exist.
abbrev pub HasIds : Graph → Dict ℕ → Type 0
HasIds g ids = All (λ (i : String × ℕ). has_node (i.1) g.nodes ≡ true) ids

set-All :
    (P : ℕ → Type 0) (k : String) (v : ℕ) (d : Dict ℕ)
    → P v
    → All (λ (i : String × ℕ). P (i.1)) d
    → All (λ (i : String × ℕ). P (i.1)) (Dict.set k v d)
unfolding Dict.set
set-All P k v [] h all = (h, tt)
set-All P k v ((j, w) ∷ d) h all = elim (Bool-cases (str_eq j k)) [
  | inl e ↦ rw e (h, all.1)
  | inr e ↦ rw e (all.0, set-All P k v d h all.1)
]

relate_concept-Well :
    (c : Config) (now provenance : ℕ) (concept : String) (p : Progress)
    → IsWell p.graph
    → HasIds p.graph p.node_ids
    → IsWell (relate_concept c now provenance concept p).graph
      × HasIds
          (relate_concept c now provenance concept p).graph
          (relate_concept c now provenance concept p).node_ids
unfolding relate_concept upsert_node IsWell
relate_concept-Well c now provenance concept p (nodes, edges) ids =
    let g = p.graph in
    let sensitive = member concept sensitive_concepts in
    let o = find_node concept g.nodes in
    let (well, found, kept) =
      write_node_lem c.base_reinforcement concept now sensitive provenance o g refl nodes in
    let (same_edges, same_next) =
      write_node-edges c.base_reinforcement concept now sensitive provenance o g in
    (
      (
        well,
        rw (same_edges, same_next)
            (
              edges.0,
              edges.1,
              All-weaken (Joined g.nodes) g.edges
                  (λ e h. (kept e.source_node_id h.0, kept e.target_node_id h.1)) edges.2,
            ),
      ),
      set-All
          (λ id.
            has_node id
              (write_node c.base_reinforcement concept now sensitive provenance o g).2.nodes
            ≡ true)
          concept (write_node c.base_reinforcement concept now sensitive provenance o g).0
          p.node_ids found
          (All-weaken (λ (i : String × ℕ). has_node (i.1) g.nodes ≡ true) p.node_ids
            (λ i h. kept (i.1) h) ids),
    )

pub relate_concepts-Well :
    (c : Config) (now provenance : ℕ) (concepts : List String) (p : Progress)
    → IsWell p.graph
    → HasIds p.graph p.node_ids
    → IsWell (relate_concepts c now provenance concepts p).graph
      × HasIds
          (relate_concepts c now provenance concepts p).graph
          (relate_concepts c now provenance concepts p).node_ids
unfolding relate_concepts
relate_concepts-Well c now provenance [] p well ids = (well, ids)
relate_concepts-Well c now provenance (concept ∷ concepts) p well ids =
    let (w, i) = relate_concept-Well c now provenance concept p well ids in
    relate_concepts-Well c now provenance concepts (relate_concept c now provenance concept p) w i

-- The ends of a pair exist.
abbrev pub Ends : List Node → Pair → Type 0
Ends nodes (src_concept, src_id, tgt_concept, tgt_id) =
    (has_node src_id nodes ≡ true) × (has_node tgt_id nodes ≡ true)

pairs_with-Ends :
    (nodes : List Node) (concept : String) (id : ℕ) (items : Dict ℕ)
    → has_node id nodes ≡ true
    → All (λ (i : String × ℕ). has_node (i.1) nodes ≡ true) items
    → All (Ends nodes) (pairs_with concept id items)
pairs_with-Ends nodes concept id [] h all = tt
pairs_with-Ends nodes concept id ((k, v) ∷ items) h all =
    ((h, all.0), pairs_with-Ends nodes concept id items h all.1)

pub concept_pairs-Ends :
    (nodes : List Node) (items : Dict ℕ)
    → All (λ (i : String × ℕ). has_node (i.1) nodes ≡ true) items
    → All (Ends nodes) (concept_pairs items)
unfolding concept_pairs
concept_pairs-Ends nodes [] all = tt
concept_pairs-Ends nodes ((k, v) ∷ items) all =
    All-append (Ends nodes) (pairs_with k v items) (concept_pairs items)
      (pairs_with-Ends nodes k v items all.0 all.1) (concept_pairs-Ends nodes items all.1)

pub upsert_edge-IsWell :
    (source target now reinforcement : ℕ) (sensitive : Bool) (provenance : ℕ) (g : Graph)
    → has_node source g.nodes ≡ true
    → has_node target g.nodes ≡ true
    → IsWell g
    → IsWell (upsert_edge source target now reinforcement sensitive provenance g).1
unfolding upsert_edge IsWell
upsert_edge-IsWell source target now reinforcement sensitive provenance g hs ht (nodes, edges) =
    let o = find_edge source target g.edges in
    let (same_nodes, same_next) =
      write_edge-nodes source target now reinforcement sensitive provenance o g in
    (
      rw (same_nodes, same_next) nodes,
      write_edge-EdgesWell source target now reinforcement sensitive provenance o g refl hs ht
          edges,
    )

pub update_ppmi_counters-IsWell :
    (source target : ℕ) (g : Graph) → IsWell g → IsWell (update_ppmi_counters source target g)
unfolding update_ppmi_counters IsWell
update_ppmi_counters-IsWell source target g (nodes, edges) = (
  nodes,
  map-EdgesWell
      (λ (e : Edge).
        if (e.source_node_id == source) && (e.target_node_id == target) then clear_ppmi e else e)
      g.nodes g.next_edge_id g.edges (clear_ppmi-KeepsKeys source target) edges,
)

pub upsert_edge-nodes :
    (source target now reinforcement : ℕ) (sensitive : Bool) (provenance : ℕ) (g : Graph)
    → (update_ppmi_counters source target
        (upsert_edge source target now reinforcement sensitive provenance g).1).nodes
      ≡ g.nodes
unfolding upsert_edge update_ppmi_counters
upsert_edge-nodes source target now reinforcement sensitive provenance g =
    (write_edge-nodes source target now reinforcement sensitive provenance
      (find_edge source target g.edges) g).0
