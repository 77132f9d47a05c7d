-- ===== src/Memory/Evidence.antt =====
-- What `verify_chain` shows of a table that was changed behind the program's back.
use onto_ontological_context.Prelude.{
  ℕ, ◌≡◌, refl, ◌≢◌, ◌⊎◌, true, false, some, List, [], ◌∷◌, ◌++◌, arith, ap, sym, ◌∙◌,
}
use mathlib.Core.Path.{subst}
use mathlib.Core.Option.{some-injective}
use onto_ontological_context.Memory.{Event, Content, Entry, empty_db, content, record_all}
use onto_ontological_context.Memory.Chain.{
  Walk, payload_null, visit_all, no_gaps, first_digest, verify_chain,
}
use onto_ontological_context.Memory.Linked.{
  IsLinked, IsLinked-middle, IsLinked-drop, visit_all-linked, record_all-IsLinked, verify_chain_iff,
}
use onto_ontological_context.Memory.Ids.{
  Within, IsAscending-neighbours, IsAscending-heads, record_all-IsAscending,
}
use onto_ontological_context.Memory.Walks.{gap_at, changed_gap, walk_past, visit_pruned}

module _ {Hash : Type 0} (dec : Discrete Hash) (digest : Content → Hash) where
  module _ (digest_injective : (a b : Content) → digest a ≡ digest b → a ≡ b)
      (calls : List (ℕ × Entry)) (pre : List (Event Hash)) (r s : Event Hash)
      (post : List (Event Hash))
      (recorded : (record_all digest calls empty_db).events ≡ pre ++ r ∷ s ∷ post) where
    stored_link : s.chain_hash ≡ some (digest (content r))
    stored_link =
        IsLinked-middle digest pre r s post
          (subst (λ es. IsLinked digest es) recorded (record_all-IsLinked digest calls empty_db tt))

    -- Take a recorded history, any record of it but the last, and put another record in its place
    -- whose hashed fields differ, the context by the value that is read from it. If the next record has a payload, and the new record has one or
    -- does not store the digest of the old one, `verify_chain` no longer reports the chain intact.
    -- The digest is assumed to have no collisions.
    pub changed_record-detected :
        (r' : Event Hash)
        → content r' ≢ content r
        → (payload_null r' ≡ false) ⊎ (r'.chain_hash ≢ some (digest (content r)))
        → payload_null s ≡ false
        → (verify_chain dec digest (pre ++ r' ∷ s ∷ post)).intact ≡ false
    changed_record-detected r' other guard payload =
        changed_gap dec digest pre r' s post (digest (content r)) stored_link
          (λ e. other (digest_injective (content r') (content r) e)) guard payload

  module _ (digest_injective : (a b : Content) → digest a ≡ digest b → a ≡ b)
      (calls : List (ℕ × Entry)) where
    pub history_links :
        (es : List (Event Hash))
        → (record_all digest calls empty_db).events ≡ es
        → IsLinked digest es
    history_links es e =
        subst (λ xs. IsLinked digest xs) e (record_all-IsLinked digest calls empty_db tt)

    pub history_ids :
        (es : List (Event Hash))
        → (record_all digest calls empty_db).events ≡ es
        → Within 0 (record_all digest calls empty_db).next_id es
    history_ids es e =
        subst (λ xs. Within 0 (record_all digest calls empty_db).next_id xs) e
          (record_all-IsAscending digest calls empty_db (omega arith))

    -- Neighbours have different digests, since their ids differ.
    distinct :
        (pre : List (Event Hash)) (p r : Event Hash) (post : List (Event Hash))
        → (record_all digest calls empty_db).events ≡ pre ++ p ∷ r ∷ post
        → digest (content p) ≢ digest (content r)
    distinct pre p r post recorded e =
        let same : p.id ≡ r.id =
          ap (λ (c : Content). c.id) (digest_injective (content p) (content r) e) in
        omega (
          arith,
          IsAscending-neighbours (record_all digest calls empty_db) pre p r post
              (history_ids _ recorded),
        )

    -- Take a recorded history and delete from it one record that is neither the first nor the last.
    -- If the record after it has a payload, `verify_chain` no longer reports the chain intact. The
    -- digest is assumed to have no collisions.
    deleted_record-detected :
        (pre : List (Event Hash)) (p r s : Event Hash) (post : List (Event Hash))
        → (record_all digest calls empty_db).events ≡ pre ++ p ∷ r ∷ s ∷ post
        → payload_null s ≡ false
        → (verify_chain dec digest (pre ++ p ∷ s ∷ post)).intact ≡ false
    unfolding verify_chain
    deleted_record-detected pre p r s post recorded payload =
        let linked = history_links _ recorded in
        rw (walk_past dec digest pre p (r ∷ s ∷ post) (s ∷ post) linked) (
          gap_at dec digest _ s post (digest (content r))
            (IsLinked-drop digest pre (p ∷ r ∷ s ∷ post) linked).1.0
            (λ e. distinct pre p r (s ∷ post) recorded (some-injective _ _ e)) payload)

    heads_distinct :
        (x : Event Hash) (pre : List (Event Hash)) (r : Event Hash) (post : List (Event Hash))
        → (record_all digest calls empty_db).events ≡ (x ∷ pre) ++ r ∷ post
        → digest (content x) ≢ digest (content r)
    heads_distinct x pre r post recorded e =
        let same : x.id ≡ r.id =
          ap (λ (c : Content). c.id) (digest_injective (content x) (content r) e) in
        omega (
          arith,
          IsAscending-heads (record_all digest calls empty_db) x pre r post
              (history_ids _ recorded),
        )

    -- Delete any number of records from the front of a recorded history, but not all: `verify_chain`
    -- still reports the chain intact with no pruned record, and only `first_record_hash` differs from
    -- that of the whole history. The digest is assumed to have no collisions.
    dropped_front-first_record_hash :
        (x : Event Hash) (pre : List (Event Hash)) (r : Event Hash) (post : List (Event Hash))
        → (record_all digest calls empty_db).events ≡ (x ∷ pre) ++ r ∷ post
        → ((verify_chain dec digest (r ∷ post)).intact ≡ true)
          × ((verify_chain dec digest (r ∷ post)).pruned ≡ 0)
          × ((verify_chain dec digest (r ∷ post)).first_record_hash
              ≢ (verify_chain dec digest
                  (record_all digest calls empty_db).events).first_record_hash)
    unfolding verify_chain
    dropped_front-first_record_hash x pre r post recorded =
        let (i, n) =
          (verify_chain_iff dec digest (r ∷ post)).1
            (IsLinked-drop digest (x ∷ pre) (r ∷ post) (history_links _ recorded)) in
        (
          i,
          n,
          λ e.
              heads_distinct x pre r post recorded
                (some-injective _ _ (sym (e ∙ ap (first_digest dec digest) recorded))),
        )

    -- A record of a history that is neither the first nor the last can be replaced unnoticed: by any
    -- record without payload that stores the digest of the old one in place of the link to the record
    -- before. `verify_chain` takes it for a pruned record and still reports the chain intact. The
    -- digest is assumed to have no collisions.
    pub replaced_record-unnoticed :
        (pre : List (Event Hash)) (p r s : Event Hash) (post : List (Event Hash))
        → (record_all digest calls empty_db).events ≡ pre ++ p ∷ r ∷ s ∷ post
        → (r' : Event Hash) → payload_null r' ≡ true
        → r'.chain_hash ≡ some (digest (content r))
        → (verify_chain dec digest (pre ++ p ∷ r' ∷ s ∷ post)).intact ≡ true
    unfolding verify_chain visit_all
    replaced_record-unnoticed pre p r s post recorded r' payload link =
        let linked = history_links _ recorded in
        let start : Walk Hash = record {
          prev_hash = some (digest (content p));
          gaps = [];
          pruned_count = 0;
        } in
        let step =
          visit_pruned dec digest start r' (digest (content p)) (digest (content r)) refl link
            (λ e. distinct pre p r (s ∷ post) recorded (sym e)) payload in
        ap no_gaps (
          ap (λ w. w.gaps) (walk_past dec digest pre p (r ∷ s ∷ post) (r' ∷ s ∷ post) linked)
          ∙ ap (λ w. (visit_all dec digest w (s ∷ post)).gaps) step
          ∙ (visit_all-linked dec digest (s ∷ post) _ (digest (content r)) refl
              (IsLinked-drop digest pre (p ∷ r ∷ s ∷ post) linked).1).0)
