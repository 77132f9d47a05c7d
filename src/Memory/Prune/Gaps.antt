-- ===== src/Memory/Prune/Gaps.antt =====
-- modules/memory.py: what pruning keeps, and what `verify_chain` says after it.
use mathlib.Core.Option.{some-injective}
use mathlib.Core.Path.{subst}
use onto_ontological_context.Prelude.{
  ℕ, suc, ◌<◌, ◌≡◌, refl, ◌≢◌, inr, String, true, false, Option, none, All, All-append, some, List,
  [], ◌∷◌, ◌++◌, arith, ap, sym, ◌∙◌, lt→ltb, map,
}
use onto_ontological_context.Memory.{
  Event, Content, Entry, Json, dumped, Db, empty_db, content, context_value, compute_chain_hash,
  new_event, insert_event, record_event, record_all,
}
use onto_ontological_context.Memory.Chain.{is_none, payload_null, walk, verify_chain}
use onto_ontological_context.Memory.Linked.{IsLinked, LinkedFrom, IsLinked-middle}
use onto_ontological_context.Memory.Ids.{Within}
use onto_ontological_context.Memory.Walks.{changed_gap, gap_at}
use onto_ontological_context.Memory.Evidence.{history_links, history_ids}
use onto_ontological_context.Memory.Prune.{
  cutoff, nullified, columns_null, is_due, prune_row, prune_rows, count_due, prune_payload_by_age,
}

module _ {Hash : Type 0} where
  count_due-pos :
      (limit : ℕ) (pre : List (Event Hash)) (r : Event Hash) (post : List (Event Hash))
      → is_due limit r ≡ true
      → 0 < count_due limit (pre ++ r ∷ post)
  unfolding count_due
  count_due-pos limit [] r post due = rw due (omega arith)
  count_due-pos limit (x ∷ pre) r post due = ground (arith, count_due-pos limit pre r post due)

  -- No row has a text in the column `context` that is read as None.
  abbrev AllRead : List (Event Hash) → Type 0
  AllRead es = All (λ (e : Event Hash). payload_null e ≡ columns_null e) es

  -- A pruned record has other contents.
  nullified-content :
      (limit : ℕ) (r : Event Hash)
      → payload_null r ≡ columns_null r
      → is_due limit r ≡ true
      → content (nullified r) ≢ content r
  unfolding is_due payload_null
  nullified-content limit r read due e =
      let i : none ≡ r.input = ap (λ (c : Content). c.input) e in
      let c : none ≡ context_value r.context = ap (λ (c : Content). c.context) e in
      let o : none ≡ r.output = ap (λ (c : Content). c.output) e in
      let n : none ≡ r.notes = ap (λ (c : Content). c.notes) e in ground arith

  prune_row-due : (limit : ℕ) (e : Event Hash) → is_due limit (prune_row limit e) ≡ false
  unfolding prune_row is_due
  prune_row-due limit e = ground arith

  prune_row-nullified : (limit : ℕ) (e : Event Hash) → nullified (prune_row limit e) ≡ nullified e
  unfolding prune_row
  prune_row-nullified limit e = ground arith

  prune_row-stays :
      (limit : ℕ) (e : Event Hash) → prune_row limit (prune_row limit e) ≡ prune_row limit e
  unfolding prune_row is_due
  prune_row-stays limit e = ground arith

  -- Pruning changes nothing but payloads: up to these the rows are those before, in their order. A
  -- second pruning with the same limit finds no row that is due, and changes nothing.
  prune_rows_lem :
      (limit : ℕ) (es : List (Event Hash))
      → (map nullified (prune_rows limit es) ≡ map nullified es)
        × (count_due limit (prune_rows limit es) ≡ 0)
        × (prune_rows limit (prune_rows limit es) ≡ prune_rows limit es)
  unfolding count_due prune_rows
  prune_rows_lem limit [] = (refl, refl, refl)
  prune_rows_lem limit (e ∷ es) =
      let (shell, count, again) = prune_rows_lem limit es in
      (
        cc (prune_row-nullified limit e, shell),
        ground (arith, prune_row-due limit e, count),
        cc (again, prune_row-stays limit e),
      )

  prune_row_if_due :
      (limit : ℕ) (e : Event Hash) → is_due limit e ≡ true → prune_row limit e ≡ nullified e
  unfolding prune_row
  prune_row_if_due limit e due = rw due

  prune_row_if_not_due :
      (limit : ℕ) (e : Event Hash) → is_due limit e ≡ false → prune_row limit e ≡ e
  unfolding prune_row
  prune_row_if_not_due limit e kept = rw kept

  prune_rows-middle :
      (limit : ℕ) (pre : List (Event Hash)) (r s : Event Hash) (post rest : List (Event Hash))
      → is_due limit r ≡ true
      → is_due limit s ≡ false
      → prune_rows limit (pre ++ r ∷ s ∷ post) ++ rest
        ≡ prune_rows limit pre ++ nullified r ∷ s ∷ (prune_rows limit post ++ rest)
  unfolding prune_rows
  prune_rows-middle limit [] r s post rest due kept =
      rw (prune_row_if_due limit r due, prune_row_if_not_due limit s kept)
  prune_rows-middle limit (x ∷ pre) r s post rest due kept =
      ap (◌∷◌ (prune_row limit x)) (prune_rows-middle limit pre r s post rest due kept)

module _ {Hash : Type 0} (digest : Content → Hash) where
  -- A pruning that found something to do has recorded itself.
  events-prune_payload_by_age :
      (now days : ℕ) (note : String) (db : Db Hash)
      → 0 < count_due (cutoff now days) db.events
      → (x : Event Hash) × ((prune_payload_by_age digest now days note db).0.events
          ≡ prune_rows (cutoff now days) db.events ++ x ∷ [])
        × ((prune_payload_by_age digest now days note db).1 ≡ count_due (cutoff now days) db.events)
  unfolding prune_payload_by_age record_event
  events-prune_payload_by_age now days note db due =
      rw (lt→ltb 0 (count_due (cutoff now days) db.events) due) (_, refl, refl)

module _ {Hash : Type 0} (dec : Discrete Hash) (digest : Content → Hash)
    (digest_injective : (a b : Content) → digest a ≡ digest b → a ≡ b) where
  own_link :
      (low high : ℕ) (p : Event Hash) (pre : List (Event Hash)) (r : Event Hash)
      (post : List (Event Hash))
      → Within low high (p ∷ pre ++ r ∷ post)
      → LinkedFrom digest (digest (content p)) (pre ++ r ∷ post)
      → r.chain_hash ≢ some (digest (content r))
  own_link low high p [] r post w l e =
      let same : p.id ≡ r.id =
        ap (λ (c : Content). c.id)
          (digest_injective (content p) (content r) (some-injective _ _ (sym l.0 ∙ e))) in
      omega arith
  own_link low high p (x ∷ pre) r post w l e = own_link (suc p.id) high x pre r post w.1 l.1 e

  dumped-read : (o : Option Json) → is_none (context_value (dumped o)) ≡ is_none (dumped o)
  dumped-read none = refl
  dumped-read (some j) = refl

  new_event-read :
      (now : ℕ) (e : Entry) (previous : Option Hash) (db : Db Hash)
      → payload_null (new_event now e previous db) ≡ columns_null (new_event now e previous db)
  unfolding payload_null columns_null new_event
  new_event-read now e previous db = ground (arith, dumped-read e.context)

  record_all-AllRead :
      (calls : List (ℕ × Entry)) (db : Db Hash)
      → AllRead db.events
      → AllRead (record_all digest calls db).events
  unfolding record_all record_event insert_event
  record_all-AllRead [] db h = h
  record_all-AllRead ((now, e) ∷ calls) db h =
      record_all-AllRead calls (record_event digest now e db).0 (
        All-append _ db.events _ h
          (new_event-read now e (compute_chain_hash digest db.events) db, tt))

  AllRead-middle :
      (pre : List (Event Hash)) (r : Event Hash) (post : List (Event Hash))
      → AllRead (pre ++ r ∷ post)
      → payload_null r ≡ columns_null r
  AllRead-middle [] r post h = h.0
  AllRead-middle (x ∷ pre) r post h = AllRead-middle pre r post h.1

  pruned_gap :
      (low high limit : ℕ) (pre : List (Event Hash)) (r s : Event Hash)
      (post rest : List (Event Hash))
      → IsLinked digest (pre ++ r ∷ s ∷ post)
      → Within low high (pre ++ r ∷ s ∷ post)
      → payload_null r ≡ columns_null r
      → is_due limit r ≡ true
      → payload_null s ≡ false
      → (verify_chain dec digest (prune_rows limit pre ++ nullified r ∷ s ∷ rest)).intact ≡ false
  pruned_gap low high limit [] r s post rest l w read due payload =
      unfold prune_rows verify_chain walk in
      gap_at dec digest
        (record { prev_hash = some (digest (content (nullified r))); gaps = []; pruned_count = 0 })
        s rest (digest (content r)) l.0
        (λ e. nullified-content limit r read due (digest_injective _ _ (some-injective _ _ e)))
        payload
  pruned_gap low high limit (x ∷ pre) r s post rest l w read due payload =
      changed_gap dec digest (prune_rows limit (x ∷ pre)) (nullified r) s rest (digest (content r))
        (IsLinked-middle digest (x ∷ pre) r s post l)
        (λ e. nullified-content limit r read due (digest_injective _ _ e))
        (inr (own_link low high x pre r (s ∷ post) w l)) payload

  -- the table after the call, on a recorded history
  abbrev after_pruning : List (ℕ × Entry) → ℕ → ℕ → String → List (Event Hash)
  after_pruning calls now days note =
      (prune_payload_by_age digest now days note (record_all digest calls empty_db)).0.events

  -- Take a recorded history with two neighbours of which the first is old enough to be pruned and
  -- has a payload, and the second has a payload and is too new. After `prune_payload_by_age`, which
  -- reports at least one pruned record, `verify_chain` does not report the chain intact. The digest
  -- is assumed to have no collisions.
  pub prune_payload_by_age-gap :
      (calls : List (ℕ × Entry)) (pre : List (Event Hash)) (r s : Event Hash)
      (post : List (Event Hash))
      → (record_all digest calls empty_db).events ≡ pre ++ r ∷ s ∷ post
      → (now days : ℕ) (note : String) → is_due (cutoff now days) r ≡ true
      → is_due (cutoff now days) s ≡ false
      → payload_null s ≡ false
      → ((verify_chain dec digest (after_pruning calls now days note)).intact ≡ false)
        × (0 < (prune_payload_by_age digest now days note (record_all digest calls empty_db)).1)
  prune_payload_by_age-gap calls pre r s post recorded now days note due kept payload =
      let limit = cutoff now days in
      let db = record_all digest calls empty_db in
      let some_due : 0 < count_due limit db.events =
        rw recorded (count_due-pos limit pre r (s ∷ post) due) in
      let (x, events, count) = events-prune_payload_by_age digest now days note db some_due in
      let shape =
        events
        ∙ ap (λ es. prune_rows limit es ++ x ∷ []) recorded
        ∙ prune_rows-middle limit pre r s post (x ∷ []) due kept in
      (
        rw shape (
            pruned_gap 0 db.next_id limit pre r s post (prune_rows limit post ++ x ∷ [])
              (history_links dec digest digest_injective calls _ recorded)
              (history_ids dec digest digest_injective calls _ recorded)
              (AllRead-middle pre r (s ∷ post)
                (subst AllRead recorded (record_all-AllRead calls empty_db tt)))
              due payload),
        rw count some_due,
      )
