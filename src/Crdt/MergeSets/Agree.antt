-- ===== src/Crdt/MergeSets/Agree.antt =====
-- The two merges as the federation uses them: the outcome for each key, the conflicts, and agreement.
use onto_ontological_context.Prelude.{
  ◌≡◌, refl, ◌≢◌, ◌⊎◌, sym, ◌∙◌, String, false, Option, none, some, arith,
}
use onto_ontological_context.Prelude.Dict
use onto_ontological_context.Prelude.Dict.{Dict}
use onto_ontological_context.Prelude.Keys.{IsDict}
use onto_ontological_context.Prelude.Texts.{member}
use onto_ontological_context.Crdt.VectorClock.{VectorClock, equal, concurrent}
use onto_ontological_context.Crdt.VectorClock.Compare.{swapped, vclock_compare-swap}
use onto_ontological_context.Crdt.MergeSets.{
  Data, node_weight, edge_weight, reinforced, compare_data, keep_local, later_reinforced,
  merge_node_sets, merge_edge_weights,
}
use onto_ontological_context.Crdt.MergeSets.Resolve.{
  entities, resolve, in_conflict, get-merge_entries, member-merge_entries,
}

module _ (json_loads : String → Option VectorClock) {Weight : Type 0} where
  -- Every key of the merged nodes has what `resolve` says, and the conflicts name exactly the keys
  -- that both sides have with clocks in conflict. The remote nodes have distinct keys.
  merge_node_sets-resolve :
      (locals remotes : Dict (Data Weight)) (k : String)
      → IsDict remotes
      → (Dict.get k (merge_node_sets json_loads locals remotes).entries
          ≡ resolve json_loads (keep_local json_loads) (Dict.get k locals) (Dict.get k remotes))
        × (member k (entities (merge_node_sets json_loads locals remotes).conflicts)
            ≡ in_conflict json_loads (Dict.get k locals) (Dict.get k remotes))
  unfolding merge_node_sets
  merge_node_sets-resolve locals remotes k d = (
    get-merge_entries json_loads node_weight (keep_local json_loads) locals k remotes _ d,
    member-merge_entries json_loads node_weight (keep_local json_loads) locals k remotes _ d
        ∙ unfold member in refl,
  )

  -- Every key of the merged edges has what `resolve` says, where on a conflict the remote edge wins if
  -- it was reinforced later, and the conflicts name exactly the keys that both sides have with clocks in
  -- conflict. The remote edges have distinct keys.
  merge_edge_weights-resolve :
      (locals remotes : Dict (Data Weight)) (k : String)
      → IsDict remotes
      → (Dict.get k (merge_edge_weights json_loads locals remotes).entries
          ≡ resolve json_loads
              (later_reinforced json_loads)
              (Dict.get k locals)
              (Dict.get k remotes))
        × (member k (entities (merge_edge_weights json_loads locals remotes).conflicts)
            ≡ in_conflict json_loads (Dict.get k locals) (Dict.get k remotes))
  unfolding merge_edge_weights
  merge_edge_weights-resolve locals remotes k d = (
    get-merge_entries json_loads edge_weight (later_reinforced json_loads) locals k remotes _ d,
    member-merge_entries json_loads edge_weight (later_reinforced json_loads) locals k remotes _ d
        ∙ unfold member in refl,
  )

  compare_data-swap :
      (a b : Data Weight) → compare_data json_loads b a ≡ swapped (compare_data json_loads a b)
  unfolding compare_data
  compare_data-swap a b = vclock_compare-swap _ _

  -- Entries with equal clocks are the same write.
  abbrev pub SameWrite : Option (Data Weight) → Option (Data Weight) → Type 0
  SameWrite (some a) (some b) = compare_data json_loads a b ≡ equal → a ≡ b
  SameWrite none b = Unit
  SameWrite (some a) none = Unit

  -- The clocks are not in conflict, or the times of the last reinforcement differ.
  abbrev pub Tiebroken : Option (Data Weight) → Option (Data Weight) → Type 0
  Tiebroken (some a) (some b) =
      (compare_data json_loads a b ≢ concurrent) ⊎ (reinforced a ≢ reinforced b)
  Tiebroken none b = Unit
  Tiebroken (some a) none = Unit

  node_agree :
      (a b : Option (Data Weight))
      → SameWrite a b
      → in_conflict json_loads a b ≡ false
      → resolve json_loads (keep_local json_loads) a b
        ≡ resolve json_loads (keep_local json_loads) b a
  node_agree none none s c = refl
  node_agree none (some b) s c = refl
  node_agree (some a) none s c = refl
  node_agree (some a) (some b) s c = ground (arith, compare_data-swap a b)

  edge_agree :
      (a b : Option (Data Weight))
      → SameWrite a b
      → Tiebroken a b
      → resolve json_loads (later_reinforced json_loads) a b
        ≡ resolve json_loads (later_reinforced json_loads) b a
  edge_agree none none s c = refl
  edge_agree none (some b) s c = refl
  edge_agree (some a) none s c = refl
  edge_agree (some a) (some b) s c = ground (arith, compare_data-swap a b)

  -- Two nodes that merge each other's nodes have the same entry at every key whose clocks are not in
  -- conflict. Entries with equal clocks are taken to be the same write, and keys to be distinct on
  -- either side.
  nodes_agree :
      (a b : Dict (Data Weight)) (k : String)
      → IsDict a
      → IsDict b
      → SameWrite (Dict.get k a) (Dict.get k b)
      → in_conflict json_loads (Dict.get k a) (Dict.get k b) ≡ false
      → Dict.get k (merge_node_sets json_loads a b).entries
        ≡ Dict.get k (merge_node_sets json_loads b a).entries
  nodes_agree a b k da db same clear =
      (merge_node_sets-resolve a b k db).0
      ∙ node_agree (Dict.get k a) (Dict.get k b) same clear
      ∙ sym (merge_node_sets-resolve b a k da).0

  -- Two nodes that merge each other's edges have the same entry at every key whose clocks are not in
  -- conflict, and also where they are, if the times of the last reinforcement differ. Entries with
  -- equal clocks are taken to be the same write, and keys to be distinct on either side.
  pub edges_agree :
      (a b : Dict (Data Weight)) (k : String)
      → IsDict a
      → IsDict b
      → SameWrite (Dict.get k a) (Dict.get k b)
      → Tiebroken (Dict.get k a) (Dict.get k b)
      → Dict.get k (merge_edge_weights json_loads a b).entries
        ≡ Dict.get k (merge_edge_weights json_loads b a).entries
  edges_agree a b k da db same broken =
      (merge_edge_weights-resolve a b k db).0
      ∙ edge_agree (Dict.get k a) (Dict.get k b) same broken
      ∙ sym (merge_edge_weights-resolve b a k da).0
