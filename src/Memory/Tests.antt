-- ===== src/Memory/Tests.antt =====
-- The audit trail at concrete inputs. The digest is the content itself, which has no collisions.
use native.Mathlib.Decide.{ℕ_discrete}
use onto_ontological_context.Prelude.{
  ℕ, ◌*◌, ◌≡◌, ◌≢◌, ◌<◌, refl, inl, inr, ap, String, true, false, Option, none, some, List, [], ◌∷◌,
  arith, eq_iff, str_eq, length, Bool-cases,
}
use onto_ontological_context.Memory.{
  Event, Content, Entry, Db, empty_db, content, record_event, record_all,
}
use onto_ontological_context.Memory.Chain.{payload_null, verify_chain}
use onto_ontological_context.Memory.Linked.{record_all-intact}
use onto_ontological_context.Memory.Evidence.{changed_record-detected, replaced_record-unnoticed}
use onto_ontological_context.Memory.Race.{raced, insert_event-raced}
use onto_ontological_context.Memory.Prune.{cutoff, is_due, nullified, prune_payload_by_age}
use onto_ontological_context.Memory.Prune.Gaps.{prune_payload_by_age-gap}
use onto_ontological_context.Memory.Trigger.{erased, prevent_update_allows, prevent_update-bypassed}

String_discrete : Discrete String
String_discrete a b = elim (Bool-cases (str_eq a b)) [
  | inl e ↦ yes ((eq_iff a b).0 e)
  | inr e ↦ no (λ p. ground (arith, eq_iff a b))
]

Content_discrete : Discrete Content
Content_discrete = hlevel (ℕ_discrete, String_discrete)

abbrev digest : Content → Content
digest c = c

injective : (a b : Content) → digest a ≡ digest b → a ≡ b
injective a b e = e

abbrev note : String → Entry
note text = record {
  event_type = "INTAKE";
  input_data = some text;
  context = none;
  output = none;
  confidence = none;
  human_decision = none;
  notes = none;
  classification = 0;
  signature_algorithm = "Ed25519";
}

abbrev day : ℕ
day = 86400000000

abbrev calls : List (ℕ × Entry)
calls = (day, note "a") ∷ (2 * day, note "b") ∷ (40 * day, note "c") ∷ []

abbrev row : ℕ → ℕ → String → Option Content → Event Content
row id now text chain_hash = record {
  id = id;
  timestamp = now;
  event_type = "INTAKE";
  input = some text;
  context = none;
  output = none;
  confidence = none;
  human_decision = none;
  notes = none;
  chain_hash = chain_hash;
  signature_algorithm = some "Ed25519";
  classification = some 0;
}

abbrev first : Event Content
first = row 1 day "a" none

abbrev second : Event Content
second = row 2 (2 * day) "b" (some (content first))

abbrev third : Event Content
third = row 3 (40 * day) "c" (some (content second))

recorded : (record_all digest calls empty_db).events ≡ first ∷ second ∷ third ∷ []
unfolding record_all record_event
recorded = refl

third-payload : payload_null third ≡ false
unfolding payload_null
third-payload = refl

record_all-intact_example :
    ((verify_chain Content_discrete digest (record_all digest calls empty_db).events).intact ≡ true)
    × ((verify_chain Content_discrete digest (record_all digest calls empty_db).events).pruned ≡ 0)
    × ((verify_chain Content_discrete digest (record_all digest calls empty_db).events).total
        ≡ length calls)
record_all-intact_example = record_all-intact Content_discrete digest calls

changed_record-detected_example :
    (verify_chain Content_discrete digest
      (first ∷ record second { confidence = some 1 } ∷ third ∷ [])).intact
    ≡ false
unfolding payload_null
changed_record-detected_example =
    changed_record-detected Content_discrete digest injective calls (first ∷ []) second third []
      recorded (record second { confidence = some 1 })
      (λ e. other (ap (λ (c : Content). c.confidence) e)) (inl refl) third-payload
  where
    other : ◌≢◌ {A = Option ℕ} (some 1) none
    other = λ e. cc

abbrev forged : Event Content
forged = record (nullified second) { event_type = "CHECKPOINT"; chain_hash = some (content second) }

replaced_record-unnoticed_example :
    (verify_chain Content_discrete digest (first ∷ forged ∷ third ∷ [])).intact ≡ true
unfolding payload_null
replaced_record-unnoticed_example =
    replaced_record-unnoticed Content_discrete digest injective calls [] first second third []
      recorded forged refl refl

abbrev retained : Db Content × ℕ
retained = prune_payload_by_age digest (41 * day) 30 "pruned" (record_all digest calls empty_db)

prune_payload_by_age-gap_example :
    ((verify_chain Content_discrete digest retained.0.events).intact ≡ false) × (0 < retained.1)
unfolding is_due cutoff
prune_payload_by_age-gap_example =
    prune_payload_by_age-gap Content_discrete digest injective calls (first ∷ []) second third []
      recorded (41 * day) 30 "pruned" refl refl third-payload

prevent_update-bypassed_example :
    (prevent_update_allows Content_discrete second (erased Content_discrete second) ≡ true)
    × (prevent_update_allows Content_discrete
          (erased Content_discrete second)
          (record second { input = some "forged"; chain_hash = some (content third) })
        ≡ true)
prevent_update-bypassed_example =
    prevent_update-bypassed Content_discrete second
      (record second { input = some "forged"; chain_hash = some (content third) }) refl refl refl

insert_event-raced_example :
    (verify_chain Content_discrete digest (
      raced Content_discrete digest
        (41 * day)
        (note "d")
        (41 * day)
        (note "e")
        third
        (record_all digest calls empty_db))).intact
    ≡ false
insert_event-raced_example =
    insert_event-raced Content_discrete digest injective calls (first ∷ second ∷ []) third recorded
      (41 * day) (41 * day) (note "d") (note "e") (λ e. cc)
