-- ===== src/Graph/Navigate.antt =====
-- modules/graph.py: `navigate`, with the breadth-first search and the ranking of a PageRank vector.
-- The formulas over floating-point numbers, the PageRank vector and the order in which Python walks a
-- set of numbers are parameters, and so is the answer of the consent gate.
pub mod Sound
pub mod Explore
pub mod Ranked
use onto_ontological_context.Prelude.{
  ℕ, zero, suc, ◌+◌, ◌-◌, min, String, Bool, true, false, not, ◌&&◌, ◌||◌, Option, none, some, List,
  [], ◌∷◌, ◌++◌, map, length, select, any_of, ltb, leb, ◌==◌, if◌then◌else◌,
}
use onto_ontological_context.Graph.{Node, Edge, Graph, find_node}
use onto_ontological_context.Graph.Relate.{Language}
use onto_ontological_context.Graph.Maintain.{is_zero, touches}

-- A result; its source is always the text "graph".
pub record Context : Type 0 where
  pub concept : String
  pub effective_weight : ℕ
  pub times_seen : ℕ
  pub inputs_seen : ℕ
  pub elapsed : ℕ
  pub complexity : ℕ
  pub is_sensitive : Bool

-- `one` is the weight 1.0. The product of the axes is taken of the edge's weight, the time elapsed, the
-- node's two counts, the number of inputs, the degree, whether the edge is sensitive, and its count.
pub record Scoring : Type 0 where
  pub one : ℕ
  pub combined : ℕ → ℕ → ℕ → ℕ → ℕ → ℕ → Bool → ℕ → ℕ
  pub round_weight : ℕ → ℕ

pub record Bounds : Type 0 where
  pub max_depth : ℕ
  pub max_results : ℕ

-- `_effective_weight`
unfoldable pub effective_weight : Scoring → ℕ → ℕ → Node → ℕ → ℕ → Bool → ℕ → ℕ
effective_weight s weight elapsed n total_inputs degree is_sensitive count =
    if is_zero weight
    then 0
    else min s.one (
        s.combined weight elapsed n.times_seen n.inputs_seen total_inputs degree is_sensitive count)

-- `SELECT ... FROM graph_nodes WHERE id = ?`
unfoldable pub node_by_id : ℕ → List Node → Option Node
node_by_id id [] = none
node_by_id id (n ∷ ns) = if n.id == id then some n else node_by_id id ns

unfoldable pub member_id : ℕ → List ℕ → Bool
member_id i ids = any_of (λ j. j == i) ids

-- the number of live edges at a node
unfoldable pub degree_of : ℕ → List Edge → ℕ
degree_of id edges = length (select (λ (e : Edge). touches id e && not e.is_deleted) edges)

unfoldable pub other_end : ℕ → Edge → ℕ
other_end id e = if e.source_node_id == id then e.target_node_id else e.source_node_id

-- the live edges at a node, joined with the nodes at their other ends
abbrev pub with_node : Edge → Option Node → List (Edge × Node) → List (Edge × Node)
with_node e none rows = rows
with_node e (some n) rows = (e, n) ∷ rows

unfoldable pub rows_at : ℕ → List Node → List Edge → List (Edge × Node)
rows_at id nodes [] = []
rows_at id nodes (e ∷ es) =
    if touches id e && not e.is_deleted
    then with_node e (node_by_id (other_end id e) nodes) (rows_at id nodes es)
    else rows_at id nodes es

abbrev pub Results : Type 0
Results = List (ℕ × Context)

-- `results.get(id)`, the weight only
unfoldable pub found_weight : ℕ → Results → Option ℕ
found_weight id [] = none
found_weight id ((i, k) ∷ results) =
    if i == id then some k.effective_weight else found_weight id results

unfoldable pub put_result : ℕ → Context → Results → Results
put_result id context [] = (id, context) ∷ []
put_result id context ((i, k) ∷ results) =
    if i == id then (i, context) ∷ results else (i, k) ∷ put_result id context results

-- `existing is None or ew > existing["effective_weight"]`
abbrev pub improves : ℕ → Option ℕ → Bool
improves weight none = true
improves weight (some old) = ltb old weight

-- the result for a node
unfoldable pub context_of : Node → ℕ → ℕ → ℕ → Context
context_of n weight elapsed degree = record {
  concept = n.concept;
  effective_weight = weight;
  times_seen = n.times_seen;
  inputs_seen = n.inputs_seen;
  elapsed = elapsed;
  complexity = degree;
  is_sensitive = n.is_sensitive;
}

-- The variables of the loops of `_navigate_bfs`.
pub record Search : Type 0 where
  pub visited : List ℕ
  pub next_frontier : List ℕ
  pub results : Results

-- the loop over the rows of one node
unfoldable pub visit_row : Scoring → Bool → ℕ → Graph → ℕ → Edge × Node → Search → Search
visit_row sc include_sensitive now g node_id (e, n) s =
    let neighbor_id = other_end node_id e in
    let degree = degree_of neighbor_id g.edges in
    let elapsed = now - e.last_reinforced in
    let ew =
      effective_weight sc e.weight elapsed n g.total_inputs_processed degree e.is_sensitive
        e.times_seen in
    let context = context_of n (sc.round_weight ew) elapsed degree in
    if member_id neighbor_id s.visited || not include_sensitive && n.is_sensitive || is_zero ew
    then s
    else record {
      visited = neighbor_id ∷ s.visited;
      next_frontier = neighbor_id ∷ s.next_frontier;
      results =
          if improves ew (found_weight neighbor_id s.results)
          then put_result neighbor_id context s.results
          else s.results;
    }

unfoldable pub visit_rows : Scoring → Bool → ℕ → Graph → ℕ → List (Edge × Node) → Search → Search
visit_rows sc include_sensitive now g node_id [] s = s
visit_rows sc include_sensitive now g node_id (row ∷ rows) s =
    visit_rows sc include_sensitive now g node_id rows
      (visit_row sc include_sensitive now g node_id row s)

unfoldable pub visit_frontier : Scoring → Bool → ℕ → Graph → List ℕ → Search → Search
visit_frontier sc include_sensitive now g [] s = s
visit_frontier sc include_sensitive now g (id ∷ ids) s =
    visit_frontier sc include_sensitive now g ids
      (visit_rows sc include_sensitive now g id (rows_at id g.nodes g.edges) s)

-- the loop over the depths that are left; `iterate` lists a set in the order Python walks it
unfoldable pub search_from :
    Scoring → (List ℕ → List ℕ) → Bool → ℕ → Graph → ℕ → List ℕ → Search → Search
search_from sc iterate include_sensitive now g zero frontier s = s
search_from sc iterate include_sensitive now g (suc depth) frontier s =
    let reached =
      visit_frontier sc include_sensitive now g (iterate frontier)
        (record s { next_frontier = [] }) in
    search_from sc iterate include_sensitive now g depth reached.next_frontier reached

-- `sorted(..., key=effective_weight, reverse=True)`, which keeps the order of equal weights
unfoldable pub insert_ranked : Context → List Context → List Context
insert_ranked k [] = k ∷ []
insert_ranked k (j ∷ js) =
    if leb j.effective_weight k.effective_weight then k ∷ j ∷ js else j ∷ insert_ranked k js

unfoldable pub rank_contexts : List Context → List Context
rank_contexts [] = []
rank_contexts (k ∷ ks) = insert_ranked k (rank_contexts ks)

-- `ranked[:n]`
unfoldable pub take_first : ℕ → List Context → List Context
take_first zero ks = []
take_first (suc n) [] = []
take_first (suc n) (k ∷ ks) = k ∷ take_first n ks

abbrev pub contexts_of : Results → List Context
contexts_of [] = []
contexts_of ((i, k) ∷ results) = k ∷ contexts_of results

unfoldable pub navigate_bfs :
    Scoring → Bounds → (List ℕ → List ℕ) → List ℕ → Bool → ℕ → Graph → List Context
navigate_bfs sc b iterate seed_ids include_sensitive now g =
    let found =
      search_from sc iterate include_sensitive now g b.max_depth seed_ids
        (record { visited = seed_ids; next_frontier = []; results = [] }) in
    take_first b.max_results (rank_contexts (contexts_of found.results))

-- the loop of `_navigate_ppr` over the vector, with its ids and scores
abbrev pub with_score : Scoring → Bool → ℕ → Graph → ℕ → Option Node → List Context → List Context
with_score sc include_sensitive now g score none rest = rest
with_score sc include_sensitive now g score (some n) rest =
    if not include_sensitive && n.is_sensitive
    then rest
    else context_of n (sc.round_weight (min sc.one score)) (now - n.last_reinforced)
        (degree_of n.id g.edges)
      ∷ rest

unfoldable pub score_contexts : Scoring → Bool → ℕ → Graph → List (ℕ × ℕ) → List Context
score_contexts sc include_sensitive now g [] = []
score_contexts sc include_sensitive now g ((id, score) ∷ scores) =
    with_score sc include_sensitive now g score (node_by_id id g.nodes)
      (score_contexts sc include_sensitive now g scores)

unfoldable pub navigate_ppr :
    Scoring → Bounds → (List ℕ → List ℕ) → List (ℕ × ℕ) → List ℕ → Bool → ℕ → Graph → List Context
navigate_ppr sc b iterate [] seed_ids include_sensitive now g =
    navigate_bfs sc b iterate seed_ids include_sensitive now g
navigate_ppr sc b iterate (entry ∷ scores) seed_ids include_sensitive now g =
    take_first b.max_results
      (rank_contexts (score_contexts sc include_sensitive now g (entry ∷ scores)))

-- What `consent_gate.decide` leads to, if it is asked: an exception is dropped.
pub data Gate : Type 0 where
  not_asked gate_raised gate_allows gate_blocks gate_checkpoint : Gate

pub data Answer : Type 0 where
  contexts : List Context → Answer
  consent_required : Answer

-- `PageRank`: whether the library is there, and its vector for some seeds, of at most `top_k` entries
pub record PageRank : Type 0 where
  pub available : Bool
  pub vector : List ℕ → Graph → List (ℕ × ℕ)

unfoldable pub seeds_of : List String → List Node → List ℕ
seeds_of [] nodes = []
seeds_of (concept ∷ concepts) nodes = elim (find_node concept nodes) [
  | none ↦ seeds_of concepts nodes
  | some n ↦ n.id ∷ seeds_of concepts nodes
]

-- the choice between the two searches, for the seeds that were found
unfoldable pub search :
    Scoring → Bounds → (List ℕ → List ℕ) → PageRank → List ℕ → Bool → ℕ → Graph → List Context
search sc b iterate r [] include_sensitive now g = []
search sc b iterate r (id ∷ ids) include_sensitive now g =
    if r.available && leb 200 (length g.nodes)
    then navigate_ppr sc b iterate (r.vector (id ∷ ids) g) (id ∷ ids) include_sensitive now g
    else navigate_bfs sc b iterate (id ∷ ids) include_sensitive now g

unfoldable pub navigate :
    Language
    → Scoring
    → Bounds
    → (List ℕ → List ℕ)
    → PageRank
    → Gate
    → String
    → Bool
    → ℕ
    → Graph
    → Answer
navigate l sc b iterate r gate text include_sensitive now g =
    let seeds = seeds_of (l.extract_concepts text) g.nodes in
    let found = contexts (search sc b iterate r seeds include_sensitive now g) in
    if l.is_blank text then contexts [] else elim gate [
      | not_asked ↦ found
      | gate_raised ↦ found
      | gate_allows ↦ found
      | gate_blocks ↦ contexts []
      | gate_checkpoint ↦ consent_required
    ]
