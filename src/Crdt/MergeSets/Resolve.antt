-- ===== src/Crdt/MergeSets/Resolve.antt =====
-- The two merges entry by entry: what each key ends with, which keys are in conflict, and when two
-- nodes that merge each other's entries agree.
use onto_ontological_context.Prelude.{
  ◌≡◌, refl, inl, inr, ap, ◌∙◌, String, Bool, true, false, ◌&&◌, ◌||◌, Option, none, some, List, [],
  ◌∷◌, ◌++◌, arith, str_eq, eq_iff, Bool-cases, Option-cases, if◌then◌else◌,
}
use onto_ontological_context.Prelude.Dict
use onto_ontological_context.Prelude.Dict.{Dict, keys, get-set, get_absent}
use onto_ontological_context.Prelude.Keys.{IsDict}
use onto_ontological_context.Prelude.Texts.{member}
use onto_ontological_context.Crdt.VectorClock.{
  VectorClock, Comparison, equal, a_dominates, b_dominates, concurrent,
}
use onto_ontological_context.Crdt.MergeSets.{
  Data, ConflictType, ConflictInfo, Merged, compare_data, conflict_info, on_result, merge_entry,
  merge_entries,
}

abbrev pub is_concurrent : Comparison → Bool
is_concurrent concurrent = true
is_concurrent equal = false
is_concurrent a_dominates = false
is_concurrent b_dominates = false

module _ {Weight : Type 0} where
  -- What a key has after its round, from what the two sides have there, the answer of the comparison
  -- and what it had before.
  abbrev settle :
      (Data Weight → Data Weight → Bool)
      → Data Weight
      → Data Weight
      → Comparison
      → Option (Data Weight)
      → Option (Data Weight)
  settle takes local remote b_dominates now = some remote
  settle takes local remote concurrent now = if takes local remote then some remote else now
  settle takes local remote equal now = now
  settle takes local remote a_dominates now = now

  abbrev pub entities : List (ConflictInfo Weight) → List String
  entities [] = []
  entities (c ∷ cs) = c.entity_id ∷ entities cs

  member-entities-append :
      (k : String) (cs : List (ConflictInfo Weight)) (c : ConflictInfo Weight)
      → member k (entities (cs ++ c ∷ [])) ≡ (member k (entities cs) || str_eq c.entity_id k)
  unfolding member
  member-entities-append k [] c = ground arith
  member-entities-append k (x ∷ cs) c = ground (arith, member-entities-append k cs c)

module _ (json_loads : String → Option VectorClock) {Weight : Type 0} where
  abbrev round :
      (Data Weight → Data Weight → Bool)
      → Option (Data Weight)
      → Option (Data Weight)
      → Option (Data Weight)
      → Option (Data Weight)
  round takes local none now = now
  round takes none (some remote) now = some remote
  round takes (some local) (some remote) now =
      settle takes local remote (compare_data json_loads local remote) now

  -- What a key ends with: what the one side has that has it; of two entries the remote one if its
  -- clock is ahead, or if the clocks are in conflict and the tiebreaker takes it, else the local one.
  abbrev pub resolve :
      (Data Weight → Data Weight → Bool)
      → Option (Data Weight)
      → Option (Data Weight)
      → Option (Data Weight)
  resolve takes local remote = round takes local remote local

  abbrev pub in_conflict : Option (Data Weight) → Option (Data Weight) → Bool
  in_conflict none remote = false
  in_conflict (some local) none = false
  in_conflict (some local) (some remote) = is_concurrent (compare_data json_loads local remote)

  nothing : (local : Option (Data Weight)) → in_conflict local none ≡ false
  nothing none = refl
  nothing (some local) = refl

  module _ (type : ConflictType) (takes : Data Weight → Data Weight → Bool) where
    get-on_result :
        (k key : String) (local remote : Data Weight) (r : Comparison) (m : Merged Weight)
        → Dict.get k (on_result json_loads type takes key local remote r m).entries ≡ (
            if str_eq key k
            then settle takes local remote r (Dict.get k m.entries)
            else Dict.get k m.entries)
    unfolding on_result
    get-on_result k key local remote b_dominates m = ground (arith, get-set k key remote m.entries)
    get-on_result k key local remote concurrent m = ground (arith, get-set k key remote m.entries)
    get-on_result k key local remote equal m = ground arith
    get-on_result k key local remote a_dominates m = ground arith

    member-on_result :
        (k key : String) (local remote : Data Weight) (r : Comparison) (m : Merged Weight)
        → member k (entities (on_result json_loads type takes key local remote r m).conflicts)
          ≡ (member k (entities m.conflicts) || (str_eq key k && is_concurrent r))
    unfolding on_result
    member-on_result k key local remote concurrent m = ground (
      arith,
      member-entities-append k m.conflicts (conflict_info json_loads type key local remote),
    )
    member-on_result k key local remote b_dominates m = ground arith
    member-on_result k key local remote equal m = ground arith
    member-on_result k key local remote a_dominates m = ground arith

    module _ (locals : Dict (Data Weight)) where
      get-merge_entry :
          (k key : String) (remote : Data Weight) (m : Merged Weight)
          → Dict.get k (merge_entry json_loads type takes locals key remote m).entries ≡ (
              if str_eq key k
              then round takes (Dict.get key locals) (some remote) (Dict.get k m.entries)
              else Dict.get k m.entries)
      unfolding merge_entry
      get-merge_entry k key remote m = elim (Option-cases (Dict.get key locals)) [
        | inl e ↦ rw (e, merge_entry) (get-set k key remote m.entries)
        | inr (local, e) ↦
            rw (e, merge_entry)
              (get-on_result k key local remote (compare_data json_loads local remote) m)
      ]

      member-merge_entry :
          (k key : String) (remote : Data Weight) (m : Merged Weight)
          → member k (entities (merge_entry json_loads type takes locals key remote m).conflicts)
            ≡ (member k (entities m.conflicts)
                || (str_eq key k && in_conflict (Dict.get key locals) (some remote)))
      unfolding merge_entry
      member-merge_entry k key remote m = elim (Option-cases (Dict.get key locals)) [
        | inl e ↦ rw (e, merge_entry) (ground arith)
        | inr (local, e) ↦
            rw (e, merge_entry)
              (member-on_result k key local remote (compare_data json_loads local remote) m)
      ]

      pub get-merge_entries :
          (k : String) (remotes : Dict (Data Weight)) (m : Merged Weight)
          → IsDict remotes
          → Dict.get k (merge_entries json_loads type takes locals remotes m).entries
            ≡ round takes (Dict.get k locals) (Dict.get k remotes) (Dict.get k m.entries)
      unfolding merge_entries Dict.get
      get-merge_entries k [] m d = refl
      get-merge_entries k ((key, remote) ∷ rest) m d = elim (Bool-cases (str_eq key k)) [
        | inl same ↦
            let e : key ≡ k = (eq_iff key k).0 same in
            get-merge_entries k rest _ d.1
            ∙ ap
                (λ o.
                  round takes (Dict.get k locals) o
                    (Dict.get k (merge_entry json_loads type takes locals key remote m).entries))
                (get_absent k rest (rw e at d.0))
            ∙ get-merge_entry k key remote m
            ∙ rw (same, e)
        | inr other ↦ get-merge_entries k rest _ d.1 ∙ rw (get-merge_entry, other)
      ]

      pub member-merge_entries :
          (k : String) (remotes : Dict (Data Weight)) (m : Merged Weight)
          → IsDict remotes
          → member k (entities (merge_entries json_loads type takes locals remotes m).conflicts) ≡ (
              member k (entities m.conflicts)
              || in_conflict (Dict.get k locals) (Dict.get k remotes))
      unfolding merge_entries Dict.get
      member-merge_entries k [] m d = ground (arith, nothing (Dict.get k locals))
      member-merge_entries k ((key, remote) ∷ rest) m d = elim (Bool-cases (str_eq key k)) [
        | inl same ↦
            let e : key ≡ k = (eq_iff key k).0 same in
            member-merge_entries k rest _ d.1
            ∙ ap
                (λ o.
                  member k
                    (entities (merge_entry json_loads type takes locals key remote m).conflicts)
                  || in_conflict (Dict.get k locals) o)
                (get_absent k rest (rw e at d.0))
            ∙ ground (arith, member-merge_entry k key remote m, nothing (Dict.get k locals), e)
        | inr other ↦
            member-merge_entries k rest _ d.1 ∙ ground (arith, member-merge_entry k key remote m)
      ]
