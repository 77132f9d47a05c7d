-- ===== src/Graph/Well/Run.antt =====
-- Every operation keeps the constraints of the schema.
use onto_ontological_context.Prelude.{
  ℕ, ◌≡◌, inl, inr, String, Bool, ◌||◌, Option, List, [], ◌∷◌, All, if◌then◌else◌, Bool-cases,
}
use onto_ontological_context.Prelude.Texts.{member}
use onto_ontological_context.Graph.{Graph, upsert_edge}
use onto_ontological_context.Graph.Relate.{
  Config, Progress, Pair, sensitive_concepts, create_provenance, relate_concepts, concept_pairs,
  relate_pair, relate_pairs, progress_at, write_concepts, Language, Package, package_text,
  contains_crisis, contains_sensitive, relate_extracted, relate,
}
use onto_ontological_context.Graph.Maintain.{Formulas}
use onto_ontological_context.Graph.Well.{IsWell}
use onto_ontological_context.Graph.Well.Writes.{
  relate_concepts-Well, Ends, concept_pairs-Ends, upsert_edge-IsWell, update_ppmi_counters-IsWell,
  upsert_edge-nodes,
}
use onto_ontological_context.Graph.Operations.{
  Operation, do_relate, do_prune, do_decay, do_wipe, operate, operate_all,
}
use onto_ontological_context.Graph.Well.Upkeep.{prune-IsWell, decay-IsWell, wipe-IsWell}

relate_pair-IsWell :
    (c : Config) (now provenance : ℕ) (sensitive : Bool) (pair : Pair) (p : Progress)
    → IsWell p.graph
    → Ends p.graph.nodes pair
    → IsWell (relate_pair c now provenance sensitive pair p).graph
      × ((relate_pair c now provenance sensitive pair p).graph.nodes ≡ p.graph.nodes)
unfolding relate_pair
relate_pair-IsWell c now provenance sensitive (sc, s, tc, t) p well ends =
    let is_sensitive = member sc sensitive_concepts || member tc sensitive_concepts || sensitive in
    let r = if is_sensitive then c.sensitive_reinforcement else c.base_reinforcement in
    (
      update_ppmi_counters-IsWell s t (upsert_edge s t now r is_sensitive provenance p.graph).1
          (upsert_edge-IsWell s t now r is_sensitive provenance p.graph ends.0 ends.1 well),
      upsert_edge-nodes s t now r is_sensitive provenance p.graph,
    )

relate_pairs-IsWell :
    (c : Config) (now provenance : ℕ) (sensitive : Bool) (pairs : List Pair) (p : Progress)
    → IsWell p.graph
    → All (Ends p.graph.nodes) pairs
    → IsWell (relate_pairs c now provenance sensitive pairs p).graph
unfolding relate_pairs
relate_pairs-IsWell c now provenance sensitive [] p well ends = well
relate_pairs-IsWell c now provenance sensitive (pair ∷ pairs) p well ends =
    let (w, same) = relate_pair-IsWell c now provenance sensitive pair p well ends.0 in
    relate_pairs-IsWell c now provenance sensitive pairs
      (relate_pair c now provenance sensitive pair p) w (rw same (ends.1))

write_concepts-IsWell :
    (c : Config) (now : ℕ) (session : Option String) (sensitive : Bool) (concepts : List String)
    (g : Graph)
    → IsWell g
    → IsWell (write_concepts c now session sensitive concepts g).1
unfolding write_concepts create_provenance IsWell
write_concepts-IsWell c now session sensitive concepts g well =
    let (id, g1) = create_provenance now session g in
    let (w, ids) = relate_concepts-Well c now id concepts (progress_at g1) well tt in
    let p = relate_concepts c now id concepts (progress_at g1) in
    relate_pairs-IsWell c now id sensitive (concept_pairs p.node_ids) p w
      (concept_pairs-Ends p.graph.nodes p.node_ids ids)

relate_extracted-IsWell :
    (c : Config) (now : ℕ) (session : Option String) (sensitive : Bool) (concepts : List String)
    (g : Graph)
    → IsWell g
    → IsWell (relate_extracted c now session sensitive concepts g).1
unfolding relate_extracted
relate_extracted-IsWell c now session sensitive [] g well = well
relate_extracted-IsWell c now session sensitive (concept ∷ concepts) g well =
    write_concepts-IsWell c now session sensitive (concept ∷ concepts) g well

relate-IsWell :
    (l : Language) (c : Config) (now : ℕ) (input : Package) (g : Graph)
    → IsWell g
    → IsWell (relate l c now input g).1
unfolding relate
relate-IsWell l c now input g well = elim (Bool-cases (l.is_blank (package_text input))) [
  | inl e ↦ rw e well
  | inr e ↦ rw e (elim (Bool-cases (contains_crisis l (package_text input))) [
    | inl k ↦ rw k well
    | inr k ↦ rw k (
        relate_extracted-IsWell c now input.session_hash (contains_sensitive l (package_text input))
          (l.extract_concepts (package_text input)) g well)
  ])
]

module _ (l : Language) (c : Config) (f : Formulas) where
  operate-IsWell : (o : Operation) (g : Graph) → IsWell g → IsWell (operate l c f o g)
  unfolding operate
  operate-IsWell (do_relate now input) g well = relate-IsWell l c now input g well
  operate-IsWell (do_prune threshold now) g well = prune-IsWell f threshold now g well
  operate-IsWell (do_decay threshold now) g well = decay-IsWell f threshold now g well
  operate-IsWell do_wipe g well = wipe-IsWell g well

  -- From tables that meet the constraints of the schema (unique ids, concepts and pairs of endpoints,
  -- ids below the counters, endpoints that exist), any sequence of relate, prune, decay and wipe leads
  -- to such tables.
  pub operate_all-IsWell :
      (os : List Operation) (g : Graph) → IsWell g → IsWell (operate_all l c f os g)
  unfolding operate_all
  operate_all-IsWell [] g well = well
  operate_all-IsWell (o ∷ os) g well =
      operate_all-IsWell os (operate l c f o g) (operate-IsWell o g well)
