-- ===== src/Graph.antt =====
-- modules/graph.py: the tables of the graph and `relate`, which writes them. Times are microseconds;
-- `relate` reads the clock once. Reinforcements are hundredths, and a weight counts in units of one
-- hundredth of a hundredth over the microseconds of 30 days, in which the spacing effect is exact.
-- The uuid of a node and columns with one value only are left out. The extractor of concepts and Python's operations on texts are parameters.
pub mod Relate
pub mod Maintain
pub mod Navigate
pub mod Well
pub mod Operations
pub mod Keeps
pub mod Deleted
pub mod Counts
pub mod Sources
pub mod Stored
mod Tests
use onto_ontological_context.Prelude.{
  ℕ, zero, suc, ◌+◌, ◌-◌, ◌*◌, min, String, Bool, true, false, ◌&&◌, ◌||◌, Option, none, some, List,
  [], ◌∷◌, ◌++◌, map, any_of, ◌==◌, str_eq, if◌then◌else◌,
}
use onto_ontological_context.Prelude.Texts.{member}
use onto_ontological_context.Ratelimit.{second}

pub record Node : Type 0 where
  pub id : ℕ
  pub concept : String
  pub weight : ℕ
  pub times_seen : ℕ
  pub inputs_seen : ℕ
  pub is_sensitive : Bool
  pub created_at : ℕ
  pub last_reinforced : ℕ
  pub provenance_id : ℕ

pub record Edge : Type 0 where
  pub id : ℕ
  pub source_node_id : ℕ
  pub target_node_id : ℕ
  pub weight : ℕ
  pub times_seen : ℕ
  pub is_sensitive : Bool
  pub last_reinforced : ℕ
  pub provenance_id : ℕ
  pub ppmi_weight : Option ℕ
  pub ppmi_at : Option ℕ
  pub is_deleted : Bool

pub record Provenance : Type 0 where
  pub id : ℕ
  pub source_type : String
  pub session_hash : Option String
  pub trust_score : ℕ
  pub created_at : ℕ

-- A row of `ppmi_counters`. Counts are thousandths.
pub record Counter : Type 0 where
  pub node_id : ℕ
  pub marginal_count : ℕ
  pub last_decay_at : Option ℕ

-- The tables with their `AUTOINCREMENT` counters, and the rows of `ppmi_global` and
-- `graph_metadata` that change.
pub record Graph : Type 0 where
  pub nodes : List Node
  pub next_node_id : ℕ
  pub edges : List Edge
  pub next_edge_id : ℕ
  pub provenance : List Provenance
  pub next_provenance_id : ℕ
  pub counters : List Counter
  pub total_co_occurrences : ℕ
  pub total_inputs_processed : ℕ

-- the row that `_backfill_provenance` inserts
abbrev pub backfill : ℕ → Provenance
backfill now = record {
  id = 1;
  source_type = "system";
  session_hash = none;
  trust_score = 90;
  created_at = now;
}

-- What `initialize` makes of an empty database, at the time `now`.
abbrev pub empty_graph : ℕ → Graph
empty_graph now = record {
  nodes = [];
  next_node_id = 1;
  edges = [];
  next_edge_id = 1;
  provenance = backfill now ∷ [];
  next_provenance_id = 2;
  counters = [];
  total_co_occurrences = 0;
  total_inputs_processed = 0;
}

abbrev pub month : ℕ
month = 2592000 * second

-- `_spacing_increment`, with the factor in units of one over `month`
unfoldable pub spacing_increment : ℕ → ℕ → ℕ
spacing_increment base_weight elapsed = base_weight * min (2 * month) (month + elapsed)

-- `SELECT ... FROM graph_nodes WHERE concept = ?`
unfoldable pub find_node : String → List Node → Option Node
find_node concept [] = none
find_node concept (n ∷ ns) = if str_eq n.concept concept then some n else find_node concept ns

-- `SELECT ... FROM graph_edges WHERE source_node_id = ? AND target_node_id = ?`
unfoldable pub find_edge : ℕ → ℕ → List Edge → Option Edge
find_edge source target [] = none
find_edge source target (e ∷ es) =
    if (e.source_node_id == source) && (e.target_node_id == target)
    then some e
    else find_edge source target es

unfoldable pub reinforce_node : ℕ → ℕ → Node → Node
reinforce_node base now n = record n {
  weight = n.weight + 100 * spacing_increment base (now - n.last_reinforced);
  times_seen = n.times_seen + 1;
  inputs_seen = n.inputs_seen + 1;
  last_reinforced = now;
}

unfoldable pub update_node : ℕ → (Node → Node) → List Node → List Node
update_node id change = map (λ (n : Node). if n.id == id then change n else n)

unfoldable pub new_node : ℕ → ℕ → String → ℕ → Bool → ℕ → Node
new_node base id concept now is_sensitive provenance_id = record {
  id = id;
  concept = concept;
  weight = 100 * base * month;
  times_seen = 1;
  inputs_seen = 1;
  is_sensitive = is_sensitive;
  created_at = now;
  last_reinforced = now;
  provenance_id = provenance_id;
}

-- `_upsert_node` with the row it found: the id of the node, whether it was created, and the tables
unfoldable pub write_node : ℕ → String → ℕ → Bool → ℕ → Option Node → Graph → ℕ × Bool × Graph
write_node base concept now is_sensitive provenance_id (some n) g =
    (n.id, false, record g { nodes = update_node n.id (reinforce_node base now) g.nodes })
write_node base concept now is_sensitive provenance_id none g = (
  g.next_node_id,
  true,
  record g {
    nodes = g.nodes ++ new_node base g.next_node_id concept now is_sensitive provenance_id ∷ [];
    next_node_id = suc g.next_node_id;
  },
)

unfoldable pub upsert_node : ℕ → String → ℕ → Bool → ℕ → Graph → ℕ × Bool × Graph
upsert_node base concept now is_sensitive provenance_id g =
    write_node base concept now is_sensitive provenance_id (find_node concept g.nodes) g

unfoldable pub reinforce_edge : ℕ → ℕ → Edge → Edge
reinforce_edge reinforcement now e = record e {
  weight = e.weight + reinforcement * spacing_increment reinforcement (now - e.last_reinforced);
  times_seen = e.times_seen + 1;
  last_reinforced = now;
}

unfoldable pub update_edge : ℕ → (Edge → Edge) → List Edge → List Edge
update_edge id change = map (λ (e : Edge). if e.id == id then change e else e)

unfoldable pub new_edge : ℕ → ℕ → ℕ → ℕ → ℕ → Bool → ℕ → Edge
new_edge id source target now reinforcement is_sensitive provenance_id = record {
  id = id;
  source_node_id = source;
  target_node_id = target;
  weight = 100 * reinforcement * month;
  times_seen = 1;
  is_sensitive = is_sensitive;
  last_reinforced = now;
  provenance_id = provenance_id;
  ppmi_weight = none;
  ppmi_at = none;
  is_deleted = false;
}

-- `_upsert_edge` with the row it found: whether the edge was created, and the tables
unfoldable pub write_edge : ℕ → ℕ → ℕ → ℕ → Bool → ℕ → Option Edge → Graph → Bool × Graph
write_edge source target now reinforcement is_sensitive provenance_id (some e) g =
    (false, record g { edges = update_edge e.id (reinforce_edge reinforcement now) g.edges })
write_edge source target now reinforcement is_sensitive provenance_id none g = (
  true,
  record g {
    edges =
        g.edges
        ++ new_edge g.next_edge_id source target now reinforcement is_sensitive provenance_id ∷ [];
    next_edge_id = suc g.next_edge_id;
  },
)

unfoldable pub upsert_edge : ℕ → ℕ → ℕ → ℕ → Bool → ℕ → Graph → Bool × Graph
upsert_edge source target now reinforcement is_sensitive provenance_id g =
    write_edge source target now reinforcement is_sensitive provenance_id
      (find_edge source target g.edges) g
