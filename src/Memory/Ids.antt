-- ===== src/Memory/Ids.antt =====
-- The ids of the audit trail ascend, since each record takes the next one.
use onto_ontological_context.Prelude.{ℕ, suc, ◌≤◌, ◌<◌, ◌≡◌, List, [], ◌∷◌, ◌++◌, arith}
use onto_ontological_context.Memory.{
  Event, Content, Entry, Db, compute_chain_hash, new_event, record_event, record_all,
}

module _ {Hash : Type 0} where
  -- The ids ascend, from `low` on and below `high`.
  abbrev pub Within : ℕ → ℕ → List (Event Hash) → Type 0
  Within low high [] = low ≤ high
  Within low high (e ∷ es) = (low ≤ e.id) × Within (suc e.id) high es

  abbrev pub IsAscending : Db Hash → Type 0
  IsAscending db = Within 0 db.next_id db.events

  Within-append :
      (low high : ℕ) (es : List (Event Hash)) (x : Event Hash)
      → Within low high es
      → x.id ≡ high
      → Within low (suc high) (es ++ x ∷ [])
  Within-append low high [] x h e = omega arith
  Within-append low high (y ∷ es) x h e = (h.0, Within-append (suc y.id) high es x h.1 e)

  Within-le : (low high : ℕ) (es : List (Event Hash)) → Within low high es → low ≤ high
  Within-le low high [] h = h
  Within-le low high (e ∷ es) h = omega (arith, Within-le (suc e.id) high es h.1)

  Within-neighbours :
      (low high : ℕ) (pre : List (Event Hash)) (p r : Event Hash) (post : List (Event Hash))
      → Within low high (pre ++ p ∷ r ∷ post)
      → p.id < r.id
  Within-neighbours low high [] p r post h = h.1.0
  Within-neighbours low high (x ∷ pre) p r post h =
      Within-neighbours (suc x.id) high pre p r post h.1

  Within-later :
      (low high : ℕ) (pre : List (Event Hash)) (r : Event Hash) (post : List (Event Hash))
      → Within low high (pre ++ r ∷ post)
      → low ≤ r.id
  Within-later low high [] r post h = h.0
  Within-later low high (x ∷ pre) r post h =
      omega (arith, Within-later (suc x.id) high pre r post h.1)

  pub IsAscending-neighbours :
      (db : Db Hash) (pre : List (Event Hash)) (p r : Event Hash) (post : List (Event Hash))
      → Within 0 db.next_id (pre ++ p ∷ r ∷ post)
      → p.id < r.id
  IsAscending-neighbours db pre p r post h = Within-neighbours 0 db.next_id pre p r post h

  pub IsAscending-heads :
      (db : Db Hash) (x : Event Hash) (pre : List (Event Hash)) (r : Event Hash)
      (post : List (Event Hash))
      → Within 0 db.next_id ((x ∷ pre) ++ r ∷ post)
      → x.id < r.id
  IsAscending-heads db x pre r post h = Within-later (suc x.id) db.next_id pre r post h.1

  pub Within-last :
      (low high : ℕ) (pre : List (Event Hash)) (r : Event Hash)
      → Within low high (pre ++ r ∷ [])
      → r.id < high
  Within-last low high [] r h = h.1
  Within-last low high (x ∷ pre) r h = Within-last (suc x.id) high pre r h.1

module _ {Hash : Type 0} (digest : Content → Hash) where
  pub record_all-IsAscending :
      (calls : List (ℕ × Entry)) (db : Db Hash)
      → IsAscending db
      → IsAscending (record_all digest calls db)
  unfolding record_all record_event
  record_all-IsAscending [] db h = h
  record_all-IsAscending ((now, e) ∷ calls) db h =
      record_all-IsAscending calls (record_event digest now e db).0 (
        Within-append 0 db.next_id db.events
          (new_event now e (compute_chain_hash digest db.events) db) h
          (unfold new_event in omega arith))
