-- ===== src/Memory/Prune.antt =====
-- modules/memory.py: `prune_payload_by_age`, which nullifies the payload of old records.
pub mod Gaps
use onto_ontological_context.Prelude.{
  ℕ, zero, suc, ◌+◌, ◌-◌, ◌*◌, ◌/◌, String, Bool, not, ◌&&◌, ◌<◌, Option, none, some, List, [], ◌∷◌,
  ltb, if◌then◌else◌, map, length, select, ◌==◌,
}
use onto_ontological_context.Memory.{Event, Content, Db, record_event}
use onto_ontological_context.Memory.Chain.{is_none}

abbrev pub microseconds_per_second : ℕ
microseconds_per_second = 1000000

abbrev pub microseconds_per_day : ℕ
microseconds_per_day = 86400 * microseconds_per_second

-- `(now - timedelta(days=days)).replace(microsecond=0)`
unfoldable pub cutoff : ℕ → ℕ → ℕ
cutoff now days =
    (now - days * microseconds_per_day) / microseconds_per_second * microseconds_per_second

module _ {Hash : Type 0} where
  abbrev pub nullified : Event Hash → Event Hash
  nullified e = record e { input = none; context = none; output = none; notes = none }

  -- the columns of the payload are NULL
  unfoldable pub columns_null : Event Hash → Bool
  columns_null e = is_none e.input && is_none e.context && is_none e.output && is_none e.notes

  -- the `WHERE` clause of the update
  unfoldable pub is_due : ℕ → Event Hash → Bool
  unfolding columns_null
  is_due limit e = ltb e.timestamp limit && not (columns_null e)

  unfoldable pub prune_row : ℕ → Event Hash → Event Hash
  unfolding is_due
  prune_row limit e = if is_due limit e then nullified e else e

  unfoldable pub prune_rows : ℕ → List (Event Hash) → List (Event Hash)
  unfolding prune_row
  prune_rows limit [] = []
  prune_rows limit (e ∷ es) = prune_row limit e ∷ prune_rows limit es

  -- `cursor.rowcount`
  unfoldable pub count_due : ℕ → List (Event Hash) → ℕ
  unfolding is_due
  count_due limit es = length (select (is_due limit) es)

module _ {Hash : Type 0} (digest : Content → Hash) where
  -- `prune_payload_by_age` at the time `now`, for `days` that is not negative (it raises for the
  -- others); `note` is the text of the RETENTION_PRUNED event.
  unfoldable pub prune_payload_by_age : ℕ → ℕ → String → Db Hash → Db Hash × ℕ
  unfolding prune_rows count_due cutoff record_event
  prune_payload_by_age now days note db =
      let pruned : Db Hash = record db { events = prune_rows (cutoff now days) db.events } in
      let pruned_count = count_due (cutoff now days) db.events in
      if ltb 0 pruned_count
      then (
        (record_event digest now
            (record {
              event_type = "RETENTION_PRUNED";
              input_data = none;
              context = none;
              output = none;
              confidence = none;
              human_decision = none;
              notes = some note;
              classification = 0;
              signature_algorithm = "Ed25519";
            })
            pruned).0,
        pruned_count,
      )
      else (pruned, pruned_count)
