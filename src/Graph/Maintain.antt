-- ===== src/Graph/Maintain.antt =====
-- modules/graph.py: `prune`, `decay` and `wipe`. The formulas over floating-point numbers are
-- parameters. A failure of a statement is the violation of a foreign key; it ends the transaction.
use onto_ontological_context.Prelude.{
  ℕ, zero, suc, ◌+◌, ◌-◌, ◌*◌, Bool, true, false, not, ◌&&◌, ◌||◌, Option, none, some, List, [],
  ◌∷◌, map, length, select, any_of, ltb, ◌==◌, if◌then◌else◌,
}
use onto_ontological_context.Ratelimit.{second}
use onto_ontological_context.Graph.{Node, Edge, Counter, Graph}

-- The logarithm of `_compute_ppmi` from the weight, the two counts and the total, the power law of
-- `decay` from the weight, the time elapsed and whether the edge is sensitive, and the product of a
-- count with the active profile's lambda.
pub record Formulas : Type 0 where
  pub log_ratio : ℕ → ℕ → ℕ → ℕ → ℕ
  pub power_law : ℕ → ℕ → Bool → ℕ
  pub times_lambda : ℕ → ℕ

unfoldable pub marginal_count : ℕ → List Counter → Option ℕ
marginal_count node_id [] = none
marginal_count node_id (c ∷ cs) =
    if c.node_id == node_id then some c.marginal_count else marginal_count node_id cs

abbrev pub is_zero : ℕ → Bool
is_zero zero = true
is_zero (suc n) = false

-- `_compute_ppmi` from the two marginal counts
abbrev pub ppmi_of : Formulas → ℕ → ℕ → Option ℕ → Option ℕ → ℕ
ppmi_of f total weight (some a) (some b) =
    if is_zero a || is_zero b || is_zero weight then 0 else f.log_ratio weight a b total
ppmi_of f total weight none b = 0
ppmi_of f total weight (some a) none = 0

unfoldable pub compute_ppmi : Formulas → Graph → Edge → ℕ
compute_ppmi f g e =
    if is_zero g.total_co_occurrences
    then 0
    else ppmi_of f g.total_co_occurrences e.weight (marginal_count e.source_node_id g.counters)
        (marginal_count e.target_node_id g.counters)

abbrev pub is_none {ℓ} : {A : Type ℓ} → Option A → Bool
is_none none = true
is_none (some a) = false

-- the loop of `prune` over the stale edges
unfoldable pub refresh_ppmi : Formulas → ℕ → Graph → Edge → Edge
refresh_ppmi f now g e =
    if (is_none e.ppmi_weight || is_none e.ppmi_at) && not e.is_deleted
    then record e { ppmi_weight = some (compute_ppmi f g e); ppmi_at = some now }
    else e

-- `ppmi_weight < ? AND is_deleted = 0`
unfoldable pub is_below : ℕ → Edge → Bool
is_below threshold e = elim e.ppmi_weight [
  | none ↦ false
  | some w ↦ ltb w threshold && not e.is_deleted
]

unfoldable pub soft_delete : ℕ → Edge → Edge
soft_delete threshold e = if is_below threshold e then record e { is_deleted = true } else e

-- the number of edges pruned, and the tables
unfoldable pub prune : Formulas → ℕ → ℕ → Graph → ℕ × Graph
prune f threshold now g =
    let refreshed = map (refresh_ppmi f now g) g.edges in
    (
      length (select (is_below threshold) refreshed),
      record g { edges = map (soft_delete threshold) refreshed },
    )

-- The edge is live and its decayed weight is below the threshold.
unfoldable pub is_faded : Formulas → ℕ → ℕ → Edge → Bool
is_faded f threshold now e =
    not e.is_deleted
    && ltb (f.power_law e.weight (now - e.last_reinforced) e.is_sensitive) threshold

unfoldable pub touches : ℕ → Edge → Bool
touches id e = (e.source_node_id == id) || (e.target_node_id == id)

-- the condition of the query for orphaned nodes
unfoldable pub is_orphan : List Edge → Node → Bool
is_orphan edges n = not (any_of (λ (e : Edge). touches n.id e && not e.is_deleted) edges)

-- the loop of `decay` over the orphaned nodes: the nodes deleted before the first violation, the
-- tables, and whether there was one
unfoldable pub remove_orphans : List Node → ℕ → Graph → ℕ × Graph × Bool
remove_orphans [] removed g = (removed, g, false)
remove_orphans (n ∷ ns) removed g =
    let removed_counter : Graph = record g {
      counters = select (λ (c : Counter). not (c.node_id == n.id)) g.counters;
    } in
    let rest =
      remove_orphans ns (removed + 1)
        (record removed_counter { nodes = select (λ (m : Node). not (m.id == n.id)) g.nodes }) in
    if any_of (touches n.id) g.edges then (removed, removed_counter, true) else rest

-- `WHERE last_decay_at IS NULL OR last_decay_at < ? - 86400`
abbrev is_due : ℕ → Option ℕ → Bool
is_due now none = true
is_due now (some last) = ltb (last + 86400 * second) now

unfoldable pub decay_counter : Formulas → ℕ → Counter → Counter
decay_counter f now c =
    if is_due now c.last_decay_at
    then record c { marginal_count = f.times_lambda c.marginal_count; last_decay_at = some now }
    else c

-- `SET ppmi_weight = NULL, ppmi_at = NULL WHERE ppmi_weight IS NOT NULL`
unfoldable pub forget_ppmi : Edge → Edge
forget_ppmi e = if is_none e.ppmi_weight then e else record e { ppmi_weight = none; ppmi_at = none }

-- the second transaction of `decay`
unfoldable pub decay_counters : Formulas → ℕ → Graph → Graph
decay_counters f now g = record g {
  counters = map (decay_counter f now) g.counters;
  total_co_occurrences = f.times_lambda g.total_co_occurrences;
  edges = map forget_ppmi g.edges;
}

pub record DecayResult : Type 0 where
  pub edges_pruned : ℕ
  pub nodes_pruned : ℕ

unfoldable pub decay : Formulas → ℕ → ℕ → Graph → DecayResult × Graph
decay f threshold now g =
    let kept : Graph = record g {
      edges = select (λ e. not (is_faded f threshold now e)) g.edges;
    } in
    let (removed, pruned, failed) =
      remove_orphans (select (is_orphan kept.edges) kept.nodes) 0 kept in
    (
      record {
        edges_pruned = length (select (is_faded f threshold now) g.edges);
        nodes_pruned = removed;
      },
      if failed then g else decay_counters f now pruned,
    )

pub record WipeResult : Type 0 where
  pub nodes_deleted : ℕ
  pub edges_deleted : ℕ

unfoldable pub wipe : Graph → WipeResult × Graph
wipe g = (
  record { nodes_deleted = length g.nodes; edges_deleted = length g.edges },
  record g {
    counters = [];
    edges = [];
    nodes = [];
    total_inputs_processed = 0;
    total_co_occurrences = 0;
  },
)
