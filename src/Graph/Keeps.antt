-- ===== src/Graph/Keeps.antt =====
-- What the two steps of the loops of `relate` keep, `relate` keeps.
use onto_ontological_context.Prelude.{
  ℕ, String, Bool, false, ◌≡◌, inl, inr, ◌||◌, Option, List, [], ◌∷◌, All, Bool-cases,
  if◌then◌else◌,
}
use onto_ontological_context.Prelude.Texts.{member}
use onto_ontological_context.Graph.{Node, Edge, Graph, upsert_node, upsert_edge}
use onto_ontological_context.Graph.Relate.{
  Language, Config, Package, Progress, Pair, sensitive_concepts, contains_crisis,
  contains_sensitive, package_text, create_provenance, update_ppmi_counters, relate_concept,
  relate_concepts, concept_pairs, relate_pair, relate_pairs, progress_at, write_concepts,
  relate_extracted, relate,
}

-- A predicate on the nodes and the edges, which the step for a concept keeps if the concept is
-- admitted, and the step for a pair keeps.
module _ (P : List Node → List Edge → Type 0) (Q : String → Type 0) (c : Config)
    (node_step : (concept : String) (now : ℕ) (sensitive : Bool) (provenance : ℕ) (g : Graph)
      → Q concept
      → P g.nodes g.edges
      → P
          (upsert_node c.base_reinforcement concept now sensitive provenance g).2.nodes
          (upsert_node c.base_reinforcement concept now sensitive provenance g).2.edges)
    (edge_step : (source target now reinforcement : ℕ) (sensitive : Bool) (provenance : ℕ)
        (g : Graph)
      → P g.nodes g.edges
      → P
          (update_ppmi_counters source target
            (upsert_edge source target now reinforcement sensitive provenance g).1).nodes
          (update_ppmi_counters source target
            (upsert_edge source target now reinforcement sensitive provenance g).1).edges) where
  relate_concepts-keeps :
      (now provenance : ℕ) (concepts : List String) (p : Progress)
      → All Q concepts
      → P p.graph.nodes p.graph.edges
      → P
          (relate_concepts c now provenance concepts p).graph.nodes
          (relate_concepts c now provenance concepts p).graph.edges
  unfolding relate_concepts relate_concept
  relate_concepts-keeps now provenance [] p q h = h
  relate_concepts-keeps now provenance (concept ∷ concepts) p q h =
      relate_concepts-keeps now provenance concepts (relate_concept c now provenance concept p) q.1
        (node_step concept now (member concept sensitive_concepts) provenance p.graph q.0 h)

  relate_pairs-keeps :
      (now provenance : ℕ) (sensitive : Bool) (pairs : List Pair) (p : Progress)
      → P p.graph.nodes p.graph.edges
      → P
          (relate_pairs c now provenance sensitive pairs p).graph.nodes
          (relate_pairs c now provenance sensitive pairs p).graph.edges
  unfolding relate_pairs relate_pair
  relate_pairs-keeps now provenance sensitive [] p h = h
  relate_pairs-keeps now provenance sensitive ((sc, s, tc, t) ∷ pairs) p h =
      let is_sensitive =
        member sc sensitive_concepts || member tc sensitive_concepts || sensitive in
      relate_pairs-keeps now provenance sensitive pairs
        (relate_pair c now provenance sensitive (sc, s, tc, t) p)
        (edge_step s t now
          (if is_sensitive then c.sensitive_reinforcement else c.base_reinforcement) is_sensitive
          provenance p.graph h)

  relate_extracted-keeps :
      (now : ℕ) (session : Option String) (sensitive : Bool) (concepts : List String) (g : Graph)
      → All Q concepts
      → P g.nodes g.edges
      → P
          (relate_extracted c now session sensitive concepts g).1.nodes
          (relate_extracted c now session sensitive concepts g).1.edges
  unfolding relate_extracted write_concepts create_provenance
  relate_extracted-keeps now session sensitive [] g q h = h
  relate_extracted-keeps now session sensitive (concept ∷ concepts) g q h =
      let (id, g1) = create_provenance now session g in
      let p = relate_concepts c now id (concept ∷ concepts) (progress_at g1) in
      relate_pairs-keeps now id sensitive (concept_pairs p.node_ids) p
        (relate_concepts-keeps now id (concept ∷ concepts) (progress_at g1) q h)

  -- The concepts of a text without crisis phrases are admitted.
  pub relate-keeps :
      (l : Language) (now : ℕ) (input : Package) (g : Graph)
      → ((text : String) → contains_crisis l text ≡ false → All Q (l.extract_concepts text))
      → P g.nodes g.edges
      → P (relate l c now input g).1.nodes (relate l c now input g).1.edges
  unfolding relate
  relate-keeps l now input g admitted h = elim (Bool-cases (l.is_blank (package_text input))) [
    | inl e ↦ rw e h
    | inr e ↦ rw e (elim (Bool-cases (contains_crisis l (package_text input))) [
      | inl k ↦ rw k h
      | inr k ↦ rw k (
          relate_extracted-keeps now input.session_hash (contains_sensitive l (package_text input))
            (l.extract_concepts (package_text input)) g (admitted (package_text input) k) h)
    ])
  ]
