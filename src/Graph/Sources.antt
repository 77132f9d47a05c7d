-- ===== src/Graph/Sources.antt =====
-- The rows of provenance that `relate` of modules/graph.py writes.
use onto_ontological_context.Prelude.{
  ℕ, ◌≡◌, refl, ◌∙◌, ap, sym, ◌++◌, inl, inr, String, Bool, Option, none, some, List, [], ◌∷◌, All,
  All-append, Bool-cases,
}
use mathlib.Core.List.{append_assoc, append-nil}
use onto_ontological_context.Prelude.Texts.{member}
use onto_ontological_context.Graph.{
  Graph, Node, Edge, Provenance, find_node, find_edge, write_node, write_edge, upsert_node,
  upsert_edge,
}
use onto_ontological_context.Graph.Relate.{
  Language, Config, Package, Progress, Pair, sensitive_concepts, package_text, relate,
  contains_crisis, contains_sensitive, create_provenance, relate_concept, relate_concepts,
  relate_pair, relate_pairs, concept_pairs, progress_at, write_concepts, relate_extracted,
  update_ppmi_counters,
}

-- A source that is taken for a human, with the trust for one, in hundredths.
abbrev pub IsHuman : Provenance → Type 0
IsHuman p = (p.source_type ≡ "human") × (p.trust_score ≡ 95)

write_node-provenance :
    (base : ℕ) (concept : String) (now : ℕ) (sensitive : Bool) (id : ℕ) (o : Option Node)
    (g : Graph)
    → (write_node base concept now sensitive id o g).2.provenance ≡ g.provenance
unfolding write_node
write_node-provenance base concept now sensitive id none g = refl
write_node-provenance base concept now sensitive id (some n) g = refl

write_edge-provenance :
    (source target now reinforcement : ℕ) (sensitive : Bool) (id : ℕ) (o : Option Edge) (g : Graph)
    → (write_edge source target now reinforcement sensitive id o g).1.provenance ≡ g.provenance
unfolding write_edge
write_edge-provenance source target now reinforcement sensitive id none g = refl
write_edge-provenance source target now reinforcement sensitive id (some e) g = refl

relate_concepts-provenance :
    (c : Config) (now id : ℕ) (concepts : List String) (p : Progress)
    → (relate_concepts c now id concepts p).graph.provenance ≡ p.graph.provenance
unfolding relate_concepts relate_concept upsert_node
relate_concepts-provenance c now id [] p = refl
relate_concepts-provenance c now id (concept ∷ concepts) p =
    relate_concepts-provenance c now id concepts (relate_concept c now id concept p)
    ∙ write_node-provenance c.base_reinforcement concept now (member concept sensitive_concepts) id
        (find_node concept p.graph.nodes) p.graph

relate_pairs-provenance :
    (c : Config) (now id : ℕ) (sensitive : Bool) (pairs : List Pair) (p : Progress)
    → (relate_pairs c now id sensitive pairs p).graph.provenance ≡ p.graph.provenance
unfolding relate_pairs relate_pair upsert_edge update_ppmi_counters
relate_pairs-provenance c now id sensitive [] p = refl
relate_pairs-provenance c now id sensitive ((sc, s, tc, t) ∷ pairs) p =
    relate_pairs-provenance c now id sensitive pairs
      (relate_pair c now id sensitive (sc, s, tc, t) p)
    ∙ write_edge-provenance s t now _ _ id (find_edge s t p.graph.edges) p.graph

-- The rows before stay, and those that are added are humans.
abbrev pub AddsHumans : List Provenance → List Provenance → Type 0
AddsHumans before after = (added : List Provenance) × (after ≡ before ++ added) × All IsHuman added

pub AddsHumans-refl : (rows : List Provenance) → AddsHumans rows rows
AddsHumans-refl rows = ([], sym (append-nil rows), tt)

pub AddsHumans-trans : (a b c : List Provenance) → AddsHumans a b → AddsHumans b c → AddsHumans a c
AddsHumans-trans a b c (xs, e, h) (ys, f, k) =
    (xs ++ ys, f ∙ ap (λ rows. rows ++ ys) e ∙ append_assoc a xs ys, All-append IsHuman xs ys h k)

relate_extracted-AddsHumans :
    (c : Config) (now : ℕ) (session : Option String) (sensitive : Bool) (concepts : List String)
    (g : Graph)
    → AddsHumans g.provenance (relate_extracted c now session sensitive concepts g).1.provenance
unfolding relate_extracted write_concepts create_provenance
relate_extracted-AddsHumans c now session sensitive [] g = AddsHumans-refl g.provenance
relate_extracted-AddsHumans c now session sensitive (concept ∷ concepts) g =
    let (id, g1) = create_provenance now session g in
    let p = relate_concepts c now id (concept ∷ concepts) (progress_at g1) in
    let same =
      relate_pairs-provenance c now id sensitive (concept_pairs p.node_ids) p
      ∙ relate_concepts-provenance c now id (concept ∷ concepts) (progress_at g1) in
    (_, same, ((refl, refl), tt))

pub relate-AddsHumans :
    (l : Language) (c : Config) (now : ℕ) (x : Package) (g : Graph)
    → AddsHumans g.provenance (relate l c now x g).1.provenance
unfolding relate
relate-AddsHumans l c now x g = elim (Bool-cases (l.is_blank (package_text x))) [
  | inl e ↦ rw e (AddsHumans-refl g.provenance)
  | inr e ↦ rw e (elim (Bool-cases (contains_crisis l (package_text x))) [
    | inl k ↦ rw k (AddsHumans-refl g.provenance)
    | inr k ↦ rw k (
        relate_extracted-AddsHumans c now x.session_hash (contains_sensitive l (package_text x))
          (l.extract_concepts (package_text x)) g)
  ])
]
