-- ===== src/Graph/Tests.antt =====
-- Runs of the model of modules/graph.py, and its theorems at concrete inputs.
use onto_ontological_context.Prelude.{
  ℕ, ◌+◌, ◌-◌, ◌*◌, ◌/◌, ◌≡◌, refl, String, Bool, true, false, none, some, List, [], ◌∷◌, length,
  All, str_eq,
}
use onto_ontological_context.Graph.{Node, Edge, Graph, empty_graph}
use onto_ontological_context.Graph.Relate.{Language, Config, Package, contains_crisis}
use onto_ontological_context.Graph.Maintain.{Formulas, touches, decay}
use onto_ontological_context.Graph.Operations.{
  Operation, do_relate, do_prune, do_decay, operate_all,
}
use onto_ontological_context.Graph.Well.{IsWell}
use onto_ontological_context.Graph.Well.Run.{operate_all-IsWell}
use onto_ontological_context.Graph.Deleted.{decay-stuck}
use onto_ontological_context.Graph.Deleted.Stays.{Marked, operate_all-Marked}
use onto_ontological_context.Graph.Navigate.{
  Scoring, Bounds, PageRank, navigate_bfs, search_from, visit_frontier, visit_rows, visit_row,
  rows_at, node_by_id, other_end, member_id, degree_of, effective_weight, context_of, found_weight,
  put_result, rank_contexts, insert_ranked, take_first,
}
use onto_ontological_context.Graph.Navigate.Sound.{IsSound}
use onto_ontological_context.Graph.Navigate.Ranked.{navigate_bfs-IsSound}

abbrev plain : Language
plain = record {
  lower = λ text. text;
  contains = λ phrase text. str_eq phrase text;
  words = λ text. text ∷ [];
  is_blank = λ text. str_eq text "";
  extract_concepts = λ text. "tea" ∷ "cup" ∷ "grief" ∷ [];
}

abbrev usual : Config
usual = record { base_reinforcement = 8; sensitive_reinforcement = 2 }

abbrev formulas : Formulas
formulas = record {
  log_ratio = λ weight a b total. weight;
  power_law = λ weight elapsed sensitive. weight - elapsed;
  times_lambda = λ count. count * 95 / 100;
}

abbrev morning : Package
morning = record { clean = some "a cup of tea"; raw = none; session_hash = none }

abbrev day : List Operation
day = do_relate 10 morning ∷ do_relate 20 morning ∷ do_prune 1 30 ∷ do_decay 1 40 ∷ []

-- tea and cup, whose only edge is marked as deleted, and two nodes with a live edge
abbrev node_at : ℕ → String → Node
node_at id concept = record {
  id = id;
  concept = concept;
  weight = 5;
  times_seen = 1;
  inputs_seen = 1;
  is_sensitive = false;
  created_at = 0;
  last_reinforced = 0;
  provenance_id = 1;
}

abbrev edge_at : ℕ → ℕ → ℕ → Bool → Edge
edge_at id source target is_deleted = record {
  id = id;
  source_node_id = source;
  target_node_id = target;
  weight = 5;
  times_seen = 1;
  is_sensitive = false;
  last_reinforced = 0;
  provenance_id = 1;
  ppmi_weight = none;
  ppmi_at = none;
  is_deleted = is_deleted;
}

abbrev table : Graph
table = record {
  nodes = node_at 1 "tea" ∷ node_at 2 "cup" ∷ node_at 3 "pot" ∷ node_at 4 "milk" ∷ [];
  next_node_id = 5;
  edges = edge_at 1 1 2 true ∷ edge_at 2 3 4 false ∷ edge_at 3 4 2 false ∷ [];
  next_edge_id = 4;
  provenance = [];
  next_provenance_id = 2;
  counters = [];
  total_co_occurrences = 3000;
  total_inputs_processed = 2;
}

abbrev scoring : Scoring
scoring = record {
  one = 1000000;
  combined =
      λ weight elapsed times inputs total degree sensitive count. weight * 1000 / (degree + 1);
  round_weight = λ weight. weight;
}

abbrev bounds : Bounds
bounds = record { max_depth = 2; max_results = 20 }

abbrev ranks : PageRank
ranks = record { available = true; vector = λ ids g. (3, 7) ∷ [] }

-- From the pot, the milk and then the cup are found; the tea is not.
found_test : length (navigate_bfs scoring bounds (λ ids. ids) (3 ∷ []) false 50 table) ≡ 2
unfolding navigate_bfs search_from visit_frontier visit_rows visit_row rows_at node_by_id other_end
    touches member_id degree_of effective_weight context_of found_weight put_result rank_contexts
    insert_ranked take_first
found_test = refl

empty_graph-IsWell : IsWell (empty_graph 0)
unfolding IsWell
empty_graph-IsWell = ((tt, tt), (tt, tt, tt))

operate_all-IsWell_example : IsWell (operate_all plain usual formulas day (empty_graph 0))
operate_all-IsWell_example =
    operate_all-IsWell plain usual formulas day (empty_graph 0) empty_graph-IsWell

no_phrases :
    (text : String)
    → contains_crisis plain text ≡ false
    → All (λ concept. contains_crisis plain concept ≡ false) (plain.extract_concepts text)
unfolding contains_crisis
no_phrases text safe = (refl, (refl, (refl, tt)))

decay-stuck_example : (decay formulas 9 100 table).1 ≡ table
unfolding touches
decay-stuck_example = decay-stuck formulas 9 100 1 table refl refl refl

operate_all-Marked_example : Marked 1 (operate_all plain usual formulas day table).edges
operate_all-Marked_example = operate_all-Marked plain usual formulas 1 day table refl refl

navigate_bfs-IsSound_example :
    All
      (IsSound table (3 ∷ []) false 2)
      (navigate_bfs scoring bounds (λ ids. ids) (3 ∷ []) false 50 table)
navigate_bfs-IsSound_example =
    navigate_bfs-IsSound scoring bounds (λ ids. ids) (3 ∷ []) false 50 table (λ ids i h. h)
