-- ===== src/Crdt/MergeSets.antt =====
-- api/federation/crdt.py: `merge_node_sets` and `merge_edge_weights`, which differ in the type of
-- their conflicts and in the tiebreaker. A weight is only copied, and its type is a parameter.
pub mod Resolve
pub mod Agree
use onto_ontological_context.Prelude.{
  ℕ, String, Bool, true, false, Option, none, some, List, [], ◌∷◌, ◌++◌, ltb, if◌then◌else◌,
}
use onto_ontological_context.Prelude.Dict
use onto_ontological_context.Prelude.Dict.{Dict}
use onto_ontological_context.Crdt.VectorClock.{
  VectorClock, Comparison, equal, a_dominates, b_dominates, concurrent, vclock_compare,
  vclock_from_json,
}

-- The dict of a node or an edge: the keys that are read, and the others.
pub record Data (Weight : Type 0) : Type 0 where
  pub vector_clock : Option String
  pub weight : Option Weight
  pub last_reinforced : Option ℕ
  pub others : Dict String

pub data ConflictType : Type 0 where
  node_weight edge_weight : ConflictType

pub record ConflictInfo (Weight : Type 0) : Type 0 where
  pub conflict_type : ConflictType
  pub entity_id : String
  pub local_value : Option Weight
  pub remote_value : Option Weight
  pub local_vclock : VectorClock
  pub remote_vclock : VectorClock

-- The loop variables.
pub record Merged (Weight : Type 0) : Type 0 where
  pub entries : Dict (Data Weight)
  pub conflicts : List (ConflictInfo Weight)

-- `data.get("last_reinforced", 0.0)`
abbrev pub reinforced : {Weight : Type 0} → Data Weight → ℕ
reinforced d = elim d.last_reinforced [ none ↦ 0 | some t ↦ t ]

module _ (json_loads : String → Option VectorClock) {Weight : Type 0} where
  unfoldable pub compare_data : Data Weight → Data Weight → Comparison
  compare_data local remote =
      vclock_compare (vclock_from_json json_loads local.vector_clock)
        (vclock_from_json json_loads remote.vector_clock)

  abbrev pub conflict_info : ConflictType → String → Data Weight → Data Weight → ConflictInfo Weight
  conflict_info type key local remote = record {
    conflict_type = type;
    entity_id = key;
    local_value = local.weight;
    remote_value = remote.weight;
    local_vclock = vclock_from_json json_loads local.vector_clock;
    remote_vclock = vclock_from_json json_loads remote.vector_clock;
  }

  -- what one round does with an entry that both sides have, by the answer of the comparison;
  -- `takes` is the tiebreaker
  unfoldable pub on_result :
      ConflictType
      → (Data Weight → Data Weight → Bool)
      → String
      → Data Weight
      → Data Weight
      → Comparison
      → Merged Weight
      → Merged Weight
  on_result type takes key local remote b_dominates m = record m {
    entries = Dict.set key remote m.entries;
  }
  on_result type takes key local remote concurrent m = record m {
    entries = if takes local remote then Dict.set key remote m.entries else m.entries;
    conflicts = m.conflicts ++ conflict_info type key local remote ∷ [];
  }
  on_result type takes key local remote equal m = m
  on_result type takes key local remote a_dominates m = m

  -- one round of the loop over `remote.items()`
  unfoldable pub merge_entry :
      ConflictType
      → (Data Weight → Data Weight → Bool)
      → Dict (Data Weight)
      → String
      → Data Weight
      → Merged Weight
      → Merged Weight
  merge_entry type takes locals key remote m = elim (Dict.get key locals) [
    | none ↦ record m { entries = Dict.set key remote m.entries }
    | some local ↦ on_result type takes key local remote (compare_data local remote) m
  ]

  unfoldable pub merge_entries :
      ConflictType
      → (Data Weight → Data Weight → Bool)
      → Dict (Data Weight)
      → Dict (Data Weight)
      → Merged Weight
      → Merged Weight
  merge_entries type takes locals [] m = m
  merge_entries type takes locals ((key, remote) ∷ rest) m =
      merge_entries type takes locals rest (merge_entry type takes locals key remote m)

  -- keep the local one until the operator decides
  abbrev pub keep_local : Data Weight → Data Weight → Bool
  keep_local local remote = false

  abbrev pub later_reinforced : Data Weight → Data Weight → Bool
  later_reinforced local remote = ltb (reinforced local) (reinforced remote)

  unfoldable pub merge_node_sets : Dict (Data Weight) → Dict (Data Weight) → Merged Weight
  merge_node_sets local_nodes remote_nodes =
      merge_entries node_weight keep_local local_nodes remote_nodes
        (record { entries = local_nodes; conflicts = [] })

  unfoldable pub merge_edge_weights : Dict (Data Weight) → Dict (Data Weight) → Merged Weight
  merge_edge_weights local_edges remote_edges =
      merge_entries edge_weight later_reinforced local_edges remote_edges
        (record { entries = local_edges; conflicts = [] })
