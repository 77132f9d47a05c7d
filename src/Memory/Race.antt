-- ===== src/Memory/Race.antt =====
-- Two calls of `record` of modules/memory.py at once.
use onto_ontological_context.Prelude.{
  ℕ, ◌≡◌, ◌≢◌, refl, ◌∙◌, ap, String, false, Option, none, some, List, [], ◌∷◌, ◌++◌, arith,
}
use mathlib.Core.Option.{some-injective}
use onto_ontological_context.Memory.{
  Event, Content, Entry, Db, empty_db, content, new_event, insert_event, record_all,
}
use onto_ontological_context.Memory.Chain.{Walk, is_none, payload_null, verify_chain}
use onto_ontological_context.Memory.Linked.{visit_all-hit}
use onto_ontological_context.Memory.Ids.{Within-last}
use onto_ontological_context.Memory.Evidence.{history_links, history_ids}
use onto_ontological_context.Memory.Walks.{gap_at, walk_past}

is_none-false : (o : Option String) → o ≢ none → is_none o ≡ false
is_none-false none h = absurd (h refl)
is_none-false (some s) h = refl

module _ {Hash : Type 0} (dec : Discrete Hash) (digest : Content → Hash) where
  has_payload :
      (now : ℕ) (f : Entry) (previous : Option Hash) (db : Db Hash)
      → f.input_data ≢ none
      → payload_null (new_event now f previous db) ≡ false
  unfolding payload_null new_event
  has_payload now f previous db h = ground (arith, is_none-false f.input_data h)

  two_more :
      (pre : List (Event Hash)) (p x y : Event Hash)
      → ((pre ++ p ∷ []) ++ x ∷ []) ++ y ∷ [] ≡ pre ++ p ∷ x ∷ y ∷ []
  two_more [] p x y = refl
  two_more (q ∷ pre) p x y = ap (◌∷◌ q) (two_more pre p x y)

  -- the rows after two calls that have both read the newest record before either inserts
  abbrev pub raced : ℕ → Entry → ℕ → Entry → Event Hash → Db Hash → List (Event Hash)
  raced now e later f newest db =
      let hash = some (digest (content newest)) in
      (insert_event later f hash (insert_event now e hash db).0).0.events

  -- Take a recorded history and two calls of record that both read the newest record before either
  -- inserts its own. If the second has an input, verify_chain does not report the chain intact,
  -- although nothing was changed. The digest is assumed to have no collisions.
  pub insert_event-raced :
      ((a b : Content) → digest a ≡ digest b → a ≡ b)
      → (calls : List (ℕ × Entry)) (pre : List (Event Hash)) (newest : Event Hash)
      → (record_all digest calls empty_db).events ≡ pre ++ newest ∷ []
      → (now later : ℕ) (e f : Entry) → f.input_data ≢ none
      → (verify_chain dec digest
          (raced now e later f newest (record_all digest calls empty_db))).intact
        ≡ false
  unfolding verify_chain insert_event
  insert_event-raced injective calls pre newest recorded now later e f payload =
      let db = record_all digest calls empty_db in
      let hash = digest (content newest) in
      let one = new_event now e (some hash) db in
      let next = (insert_event now e (some hash) db).0 in
      let two = new_event later f (some hash) next in
      let start : Walk Hash = record { prev_hash = some hash; gaps = []; pruned_count = 0 } in
      let linked = history_links dec digest injective calls _ recorded in
      let newer =
        Within-last 0 db.next_id pre newest (history_ids dec digest injective calls _ recorded) in
      let shape : raced now e later f newest db ≡ pre ++ newest ∷ one ∷ two ∷ [] =
        ap (λ es. (es ++ one ∷ []) ++ two ∷ []) recorded ∙ two_more pre newest one two in
      let clean =
        walk_past dec digest pre newest [] (one ∷ two ∷ []) linked
        ∙ visit_all-hit dec digest start one (two ∷ []) hash refl refl in
      rw (shape, clean)
        (gap_at dec digest (record start { prev_hash = some (digest (content one)) }) two [] hash
          refl
          (λ same.
            let ids : one.id ≡ newest.id =
              ap (λ (c : Content). c.id)
                (injective (content one) (content newest) (some-injective _ _ same)) in
            omega (arith, newer))
          (has_payload later f (some hash) next payload))
