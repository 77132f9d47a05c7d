-- ===== src/Graph/Counts.antt =====
-- The counts that `relate` reports.
use onto_ontological_context.Prelude.{
  ℕ, suc, ◌+◌, ◌≡◌, refl, ◌∙◌, ap, inl, inr, String, Bool, true, false, ◌&&◌, ◌||◌, Option, none,
  some, List, [], ◌∷◌, map, ◌==◌, arith, length, length-append, if◌then◌else◌, Bool-cases,
}
use onto_ontological_context.Prelude.Texts.{member}
use onto_ontological_context.Graph.{
  Node, Edge, Graph, find_node, find_edge, update_node, reinforce_node, update_edge, reinforce_edge,
  new_node, new_edge, write_node, upsert_node, write_edge, upsert_edge,
}
use onto_ontological_context.Graph.Relate.{
  Config, Progress, Pair, RelateResult, sensitive_concepts, Language, Package, package_text,
  contains_crisis, contains_sensitive, create_provenance, update_ppmi_counters, clear_ppmi,
  relate_concept, relate_concepts, concept_pairs, relate_pair, relate_pairs, progress_at,
  write_concepts, relate_extracted, relate,
}
use onto_ontological_context.Graph.Well.Writes.{write_node-edges, upsert_edge-nodes}

pub length-map {ℓ} : {A B : Type ℓ} (f : A → B) (xs : List A) → length (map f xs) ≡ length xs
length-map f [] = refl
length-map f (x ∷ xs) = ap suc (length-map f xs)

-- 1 for a row that was created
abbrev pub one_if : Bool → ℕ
one_if true = 1
one_if false = 0

length-write_node :
    (base : ℕ) (concept : String) (now : ℕ) (sensitive : Bool) (provenance : ℕ) (o : Option Node)
    (g : Graph)
    → length (write_node base concept now sensitive provenance o g).2.nodes
      ≡ length g.nodes + one_if (write_node base concept now sensitive provenance o g).1
unfolding write_node update_node
length-write_node base concept now sensitive provenance none g =
    length-append g.nodes (new_node base g.next_node_id concept now sensitive provenance ∷ [])
length-write_node base concept now sensitive provenance (some n) g = omega (
  arith,
  length-map (λ (m : Node). if m.id == n.id then reinforce_node base now m else m) g.nodes,
)

length-write_edge :
    (source target now reinforcement : ℕ) (sensitive : Bool) (provenance : ℕ) (o : Option Edge)
    (g : Graph)
    → length (write_edge source target now reinforcement sensitive provenance o g).1.edges
      ≡ length g.edges
        + one_if (write_edge source target now reinforcement sensitive provenance o g).0
unfolding write_edge update_edge
length-write_edge source target now reinforcement sensitive provenance none g =
    length-append g.edges
      (new_edge g.next_edge_id source target now reinforcement sensitive provenance ∷ [])
length-write_edge source target now reinforcement sensitive provenance (some e) g = omega (
  arith,
  length-map (λ (d : Edge). if d.id == e.id then reinforce_edge reinforcement now d else d) g.edges,
)

count_one :
    (b : Bool) (n m : ℕ)
    → ((if b then n + 1 else n) + (if b then m else m + 1) ≡ n + m + 1)
      × ((if b then n + 1 else n) ≡ n + one_if b)
count_one true n m = (omega arith, refl)
count_one false n m = (omega arith, omega arith)

-- The first loop counts the concepts and the nodes.
relate_concepts-counts :
    (c : Config) (now provenance : ℕ) (concepts : List String) (p : Progress)
    → ((relate_concepts c now provenance concepts p).nodes_created
          + (relate_concepts c now provenance concepts p).nodes_reinforced
        ≡ p.nodes_created + p.nodes_reinforced + length concepts)
      × (length (relate_concepts c now provenance concepts p).graph.nodes + p.nodes_created
          ≡ length p.graph.nodes + (relate_concepts c now provenance concepts p).nodes_created)
      × ((relate_concepts c now provenance concepts p).graph.edges ≡ p.graph.edges)
      × ((relate_concepts c now provenance concepts p).edges_created ≡ p.edges_created)
unfolding relate_concepts relate_concept upsert_node
relate_concepts-counts c now provenance [] p = (omega arith, refl, refl, refl)
relate_concepts-counts c now provenance (concept ∷ concepts) p =
    let sensitive = member concept sensitive_concepts in
    let o = find_node concept p.graph.nodes in
    let longer =
      length-write_node c.base_reinforcement concept now sensitive provenance o p.graph in
    let created = (write_node c.base_reinforcement concept now sensitive provenance o p.graph).1 in
    let (sum, more) = count_one created p.nodes_created p.nodes_reinforced in
    let (sums, lengths, edges, created_edges) =
      relate_concepts-counts c now provenance concepts
        (relate_concept c now provenance concept p) in
    (
      omega (arith, sum, sums),
      omega (arith, longer, more, lengths),
      edges ∙ (write_node-edges c.base_reinforcement concept now sensitive provenance o p.graph).0,
      created_edges,
    )

length-update_ppmi_counters :
    (source target : ℕ) (g : Graph)
    → length (update_ppmi_counters source target g).edges ≡ length g.edges
unfolding update_ppmi_counters
length-update_ppmi_counters source target g =
    length-map
      (λ (e : Edge).
        if (e.source_node_id == source) && (e.target_node_id == target) then clear_ppmi e else e)
      g.edges

-- The second loop counts the edges, and leaves the nodes and their counts.
relate_pairs-counts :
    (c : Config) (now provenance : ℕ) (sensitive : Bool) (pairs : List Pair) (p : Progress)
    → (length (relate_pairs c now provenance sensitive pairs p).graph.edges + p.edges_created
        ≡ length p.graph.edges + (relate_pairs c now provenance sensitive pairs p).edges_created)
      × ((relate_pairs c now provenance sensitive pairs p).graph.nodes ≡ p.graph.nodes)
      × ((relate_pairs c now provenance sensitive pairs p).nodes_created ≡ p.nodes_created)
      × ((relate_pairs c now provenance sensitive pairs p).nodes_reinforced ≡ p.nodes_reinforced)
unfolding relate_pairs relate_pair upsert_edge
relate_pairs-counts c now provenance sensitive [] p = (refl, refl, refl, refl)
relate_pairs-counts c now provenance sensitive ((sc, s, tc, t) ∷ pairs) p =
    let is_sensitive = member sc sensitive_concepts || member tc sensitive_concepts || sensitive in
    let r = if is_sensitive then c.sensitive_reinforcement else c.base_reinforcement in
    let o = find_edge s t p.graph.edges in
    let written = write_edge s t now r is_sensitive provenance o p.graph in
    let longer = length-write_edge s t now r is_sensitive provenance o p.graph in
    let same = length-update_ppmi_counters s t written.1 in
    let (sum, more) = count_one written.0 p.edges_created p.edges_reinforced in
    let (lengths, nodes, created, reinforced) =
      relate_pairs-counts c now provenance sensitive pairs
        (relate_pair c now provenance sensitive (sc, s, tc, t) p) in
    (
      omega (arith, longer, same, more, lengths),
      nodes ∙ upsert_edge-nodes s t now r is_sensitive provenance p.graph,
      created,
      reinforced,
    )

-- The counts of a result fit the two graphs.
abbrev pub Fits : RelateResult → Graph → Graph → Type 0
Fits r before after =
    (r.nodes_created + r.nodes_reinforced ≡ length r.concepts)
    × (length after.nodes ≡ length before.nodes + r.nodes_created)
    × (length after.edges ≡ length before.edges + r.edges_created)

relate_extracted-Fits :
    (c : Config) (now : ℕ) (session : Option String) (sensitive : Bool) (concepts : List String)
    (g : Graph)
    → Fits
        (relate_extracted c now session sensitive concepts g).0
        g
        (relate_extracted c now session sensitive concepts g).1
unfolding relate_extracted write_concepts create_provenance
relate_extracted-Fits c now session sensitive [] g = (refl, omega arith, omega arith)
relate_extracted-Fits c now session sensitive (concept ∷ concepts) g =
    let (id, g1) = create_provenance now session g in
    let p = relate_concepts c now id (concept ∷ concepts) (progress_at g1) in
    let (sums, lengths, before, none_yet) =
      relate_concepts-counts c now id (concept ∷ concepts) (progress_at g1) in
    let (edges, nodes, created, reinforced) =
      relate_pairs-counts c now id sensitive (concept_pairs p.node_ids) p in
    (
      omega (arith, sums, created, reinforced),
      omega (arith, lengths, created, ap length nodes),
      omega (arith, edges, ap length before, none_yet),
    )

-- For every input, the result of relate counts the nodes and edges that were added, and the nodes
-- created and reinforced are together as many as its concepts.
relate-Fits :
    (l : Language) (c : Config) (now : ℕ) (input : Package) (g : Graph)
    → Fits (relate l c now input g).0 g (relate l c now input g).1
unfolding relate
relate-Fits l c now input g = elim (Bool-cases (l.is_blank (package_text input))) [
  | inl e ↦ rw e (refl, omega arith, omega arith)
  | inr e ↦ rw e (elim (Bool-cases (contains_crisis l (package_text input))) [
    | inl k ↦ rw k (refl, omega arith, omega arith)
    | inr k ↦ rw k (
        relate_extracted-Fits c now input.session_hash (contains_sensitive l (package_text input))
          (l.extract_concepts (package_text input)) g)
  ])
]
