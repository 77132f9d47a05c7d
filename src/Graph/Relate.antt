-- ===== src/Graph/Relate.antt =====
-- modules/graph.py: `relate`.
use onto_ontological_context.Prelude.{
  ℕ, suc, ◌+◌, String, Bool, true, false, ◌&&◌, ◌||◌, Option, none, some, List, [], ◌∷◌, ◌++◌, map,
  any_of, ◌==◌, str_eq, if◌then◌else◌,
}
use onto_ontological_context.Prelude.Texts.{member}
use onto_ontological_context.Prelude.Dict
use onto_ontological_context.Prelude.Dict.{Dict}
use onto_ontological_context.Graph.{Edge, Counter, Graph, upsert_node, upsert_edge}

abbrev pub sensitive_concepts : List String
sensitive_concepts =
    "anxiety" ∷ "anxious" ∷ "depressed" ∷ "depression" ∷ "sad" ∷ "sadness" ∷ "hopeless"
    ∷ "hopelessness" ∷ "worthless" ∷ "failure" ∷ "shame" ∷ "guilt" ∷ "trauma" ∷ "panic" ∷ "lonely"
    ∷ "loneliness" ∷ "grief" ∷ "loss" ∷ "abuse" ∷ "addiction" ∷ "relapse" ∷ "overdose" ∷ "purge"
    ∷ "restrict" ∷ "cutting" ∷ "hurt" ∷ "pain" ∷ "suffering" ∷ "fear" ∷ "worry" ∷ "stress"
    ∷ "burnout" ∷ "exhausted" ∷ "overwhelmed" ∷ []

abbrev pub crisis_concepts : List String
crisis_concepts =
    "suicide" ∷ "suicidal" ∷ "kill myself" ∷ "kill yourself" ∷ "end my life" ∷ "end it all"
    ∷ "no reason to live" ∷ "give up on life" ∷ "goodbye forever" ∷ "self harm" ∷ "self-harm"
    ∷ "cut myself" ∷ "hurt myself" ∷ "hurt yourself" ∷ "want to die" ∷ "going to die"
    ∷ "planning to die" ∷ []

-- Python's operations on texts, and the active extractor with its limit of concepts.
pub record Language : Type 0 where
  pub lower : String → String
  pub contains : String → String → Bool
  pub words : String → List String
  pub is_blank : String → Bool
  pub extract_concepts : String → List String

pub record Config : Type 0 where
  pub base_reinforcement : ℕ
  pub sensitive_reinforcement : ℕ

-- The keys of a package that `relate` reads.
pub record Package : Type 0 where
  pub clean : Option String
  pub raw : Option String
  pub session_hash : Option String

pub record RelateResult : Type 0 where
  pub concepts : List String
  pub nodes_created : ℕ
  pub nodes_reinforced : ℕ
  pub edges_created : ℕ
  pub edges_reinforced : ℕ
  pub crisis_detected : Bool
  pub sensitive_detected : Bool
  pub provenance_id : Option ℕ

abbrev pub empty_relate_result : RelateResult
empty_relate_result = record {
  concepts = [];
  nodes_created = 0;
  nodes_reinforced = 0;
  edges_created = 0;
  edges_reinforced = 0;
  crisis_detected = false;
  sensitive_detected = false;
  provenance_id = none;
}

unfoldable pub contains_crisis : Language → String → Bool
contains_crisis l text = any_of (λ phrase. l.contains phrase (l.lower text)) crisis_concepts

unfoldable pub contains_sensitive : Language → String → Bool
contains_sensitive l text = any_of (λ w. member w sensitive_concepts) (l.words (l.lower text))

-- the text of an optional key, where an empty text counts as missing
abbrev pub or_else : Option String → String → String
or_else none default = default
or_else (some text) default = if str_eq text "" then default else text

-- `package.get("clean") or package.get("raw") or ""`
unfoldable pub package_text : Package → String
package_text p = or_else p.clean (or_else p.raw "")

-- `_create_provenance` for the source type "human"
unfoldable pub create_provenance : ℕ → Option String → Graph → ℕ × Graph
create_provenance now session_hash g = (
  g.next_provenance_id,
  record g {
    provenance =
        g.provenance
        ++ (record {
          id = g.next_provenance_id;
          source_type = "human";
          session_hash = session_hash;
          trust_score = 95;
          created_at = now;
        }
            ∷ []);
    next_provenance_id = suc g.next_provenance_id;
  },
)

-- the insertion with `ON CONFLICT(node_id) DO UPDATE`
unfoldable pub bump_counter : ℕ → List Counter → List Counter
bump_counter node_id [] =
    record { node_id = node_id; marginal_count = 1000; last_decay_at = none } ∷ []
bump_counter node_id (c ∷ cs) =
    if c.node_id == node_id
    then record c { marginal_count = c.marginal_count + 1000 } ∷ cs
    else c ∷ bump_counter node_id cs

unfoldable pub clear_ppmi : Edge → Edge
clear_ppmi e = record e { ppmi_weight = none; ppmi_at = none }

unfoldable pub update_ppmi_counters : ℕ → ℕ → Graph → Graph
update_ppmi_counters source target g = record g {
  counters = bump_counter target (bump_counter source g.counters);
  total_co_occurrences = g.total_co_occurrences + 1000;
  edges =
      map
        (λ (e : Edge).
          if (e.source_node_id == source) && (e.target_node_id == target) then clear_ppmi e else e)
        g.edges;
}

-- The variables of the two loops of `relate`.
pub record Progress : Type 0 where
  pub graph : Graph
  pub node_ids : Dict ℕ
  pub nodes_created : ℕ
  pub nodes_reinforced : ℕ
  pub edges_created : ℕ
  pub edges_reinforced : ℕ

unfoldable pub relate_concept : Config → ℕ → ℕ → String → Progress → Progress
relate_concept c now provenance_id concept p =
    let (node_id, created, g) =
      upsert_node c.base_reinforcement concept now (member concept sensitive_concepts) provenance_id
        p.graph in
    record p {
      graph = g;
      node_ids = Dict.set concept node_id p.node_ids;
      nodes_created = if created then p.nodes_created + 1 else p.nodes_created;
      nodes_reinforced = if created then p.nodes_reinforced else p.nodes_reinforced + 1;
    }

unfoldable pub relate_concepts : Config → ℕ → ℕ → List String → Progress → Progress
relate_concepts c now provenance_id [] p = p
relate_concepts c now provenance_id (concept ∷ concepts) p =
    relate_concepts c now provenance_id concepts (relate_concept c now provenance_id concept p)

-- A pair of `_concept_pairs`: two items of the dict, in its order.
abbrev pub Pair : Type 0
Pair = String × ℕ × String × ℕ

abbrev pub pairs_with : String → ℕ → Dict ℕ → List Pair
pairs_with src_concept src_id [] = []
pairs_with src_concept src_id ((tgt_concept, tgt_id) ∷ items) =
    (src_concept, src_id, tgt_concept, tgt_id) ∷ pairs_with src_concept src_id items

unfoldable pub concept_pairs : Dict ℕ → List Pair
concept_pairs [] = []
concept_pairs ((concept, id) ∷ items) = pairs_with concept id items ++ concept_pairs items

-- One pair of `relate`. Its test of the share of a source reads tables that `initialize` does not
-- create, so the query raises, the exception is dropped, and the reinforcement stays.
unfoldable pub relate_pair : Config → ℕ → ℕ → Bool → Pair → Progress → Progress
relate_pair c now provenance_id sensitive_detected (src_concept, src_id, tgt_concept, tgt_id) p =
    let edge_is_sensitive =
      member src_concept sensitive_concepts
      || member tgt_concept sensitive_concepts
      || sensitive_detected in
    let reinforcement =
      if edge_is_sensitive then c.sensitive_reinforcement else c.base_reinforcement in
    let (created, g) =
      upsert_edge src_id tgt_id now reinforcement edge_is_sensitive provenance_id p.graph in
    record p {
      graph = update_ppmi_counters src_id tgt_id g;
      edges_created = if created then p.edges_created + 1 else p.edges_created;
      edges_reinforced = if created then p.edges_reinforced else p.edges_reinforced + 1;
    }

unfoldable pub relate_pairs : Config → ℕ → ℕ → Bool → List Pair → Progress → Progress
relate_pairs c now provenance_id sensitive_detected [] p = p
relate_pairs c now provenance_id sensitive_detected (pair ∷ pairs) p =
    relate_pairs c now provenance_id sensitive_detected pairs
      (relate_pair c now provenance_id sensitive_detected pair p)

abbrev pub progress_at : Graph → Progress
progress_at g = record {
  graph = g;
  node_ids = [];
  nodes_created = 0;
  nodes_reinforced = 0;
  edges_created = 0;
  edges_reinforced = 0;
}

-- the transaction of `relate`, for concepts that were extracted
unfoldable pub write_concepts :
    Config → ℕ → Option String → Bool → List String → Graph → RelateResult × Graph
write_concepts c now session_hash sensitive_detected concepts g =
    let (provenance_id, g1) = create_provenance now session_hash g in
    let p = relate_concepts c now provenance_id concepts (progress_at g1) in
    let q = relate_pairs c now provenance_id sensitive_detected (concept_pairs p.node_ids) p in
    (
      record {
        concepts = concepts;
        nodes_created = q.nodes_created;
        nodes_reinforced = q.nodes_reinforced;
        edges_created = q.edges_created;
        edges_reinforced = q.edges_reinforced;
        crisis_detected = false;
        sensitive_detected = sensitive_detected;
        provenance_id = some provenance_id;
      },
      record q.graph { total_inputs_processed = suc q.graph.total_inputs_processed },
    )

-- the rest of `relate`, once the concepts are extracted
unfoldable pub relate_extracted :
    Config → ℕ → Option String → Bool → List String → Graph → RelateResult × Graph
relate_extracted c now session_hash sensitive_detected [] g =
    (record empty_relate_result { sensitive_detected = sensitive_detected }, g)
relate_extracted c now session_hash sensitive_detected (concept ∷ concepts) g =
    write_concepts c now session_hash sensitive_detected (concept ∷ concepts) g

unfoldable pub relate : Language → Config → ℕ → Package → Graph → RelateResult × Graph
relate l c now input g =
    let text = package_text input in
    if l.is_blank text
    then (empty_relate_result, g)
    else if contains_crisis l text
    then (record empty_relate_result { crisis_detected = true }, g)
    else relate_extracted c now input.session_hash (contains_sensitive l text)
        (l.extract_concepts text) g
