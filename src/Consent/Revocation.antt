-- ===== src/Consent/Revocation.antt =====
-- What a revocation reaches.
use onto_ontological_context.Prelude.{
  ℕ, ◌≡◌, refl, inl, inr, String, Bool, true, false, ◌&&◌, ◌||◌, List, [], ◌∷◌, map, arith, select,
  All, str_eq, eq_iff, Bool-cases,
}
use onto_ontological_context.Prelude.Texts.{member}
use onto_ontological_context.Prelude.Unique.{All-weaken}
use onto_ontological_context.Consent.Ledger.{
  ConsentRecord, Ledger, mark_row, mark_revoked, is_text, is_active_child, ids_of, revoke_children,
  status_of, is_open, revoke,
}

-- The record of the consent, or one that was delegated from it.
abbrev pub is_reached : String → ConsentRecord → Bool
is_reached id r = str_eq r.consent_id id || is_text r.delegated_from id

-- A record that is reached and active is among those that are still to be marked.
abbrev IsPending : String → List String → ConsentRecord → Type 0
IsPending id ids r =
    (is_reached id r && str_eq r.status "active") ≡ true → member r.consent_id ids ≡ true

-- A record with the id is not active.
abbrev IsClosed : String → ConsentRecord → Type 0
IsClosed id r = str_eq r.consent_id id ≡ true → str_eq r.status "active" ≡ false

mark_row-IsPending :
    (now : ℕ) (reason kind id first : String) (rest : List String) (r : ConsentRecord)
    → IsPending id (first ∷ rest) r
    → IsPending id rest (mark_row now reason kind first r)
unfolding mark_row member
mark_row-IsPending now reason kind id first rest r h =
    elim (Bool-cases (str_eq r.consent_id first)) [
      | inl e ↦ rw e (λ active. ground arith)
      | inr e ↦
          rw e (λ active.
            ground (arith, h active, eq_iff first r.consent_id, eq_iff r.consent_id first))
    ]

map-All :
    (P Q : ConsentRecord → Type 0) (f : ConsentRecord → ConsentRecord) (rs : List ConsentRecord)
    → ((r : ConsentRecord) → P r → Q (f r))
    → All P rs
    → All Q (map f rs)
map-All P Q f [] h all = tt
map-All P Q f (r ∷ rs) h all = (h r all.0, map-All P Q f rs h all.1)

revoke_children-IsPending :
    (now : ℕ) (reason kind id : String) (ids : List String) (rs : List ConsentRecord)
    → All (IsPending id ids) rs
    → All (IsPending id []) (revoke_children now reason kind ids rs)
unfolding revoke_children mark_revoked
revoke_children-IsPending now reason kind id [] rs h = h
revoke_children-IsPending now reason kind id (first ∷ rest) rs h =
    revoke_children-IsPending now reason kind id rest (mark_revoked now reason kind first rs) (
      map-All (IsPending id (first ∷ rest)) (IsPending id rest) (mark_row now reason kind first) rs
        (λ r k. mark_row-IsPending now reason kind id first rest r k) h)

-- More ids are no harm.
IsPending-more :
    (id more : String) (ids : List String) (r : ConsentRecord)
    → IsPending id ids r
    → IsPending id (more ∷ ids) r
unfolding member
IsPending-more id more ids r h = λ active. ground (arith, h active)

same_ids :
    (id : String) (ids others : List String) (rs : List ConsentRecord)
    → others ≡ ids
    → All (IsPending id ids) rs
    → All (IsPending id others) rs
same_ids id ids others rs same h = rw same h

mark_row-IsClosed :
    (now : ℕ) (reason kind id : String) (r : ConsentRecord)
    → IsClosed id (mark_row now reason kind id r)
unfolding mark_row
mark_row-IsClosed now reason kind id r = elim (Bool-cases (str_eq r.consent_id id)) [
  | inl e ↦ rw e (λ own. refl)
  | inr e ↦ rw e (λ own. ground (arith, own, e))
]

mark_revoked-IsClosed :
    (now : ℕ) (reason kind id : String) (rs : List ConsentRecord)
    → All (IsClosed id) (mark_revoked now reason kind id rs)
unfolding mark_revoked
mark_revoked-IsClosed now reason kind id [] = tt
mark_revoked-IsClosed now reason kind id (r ∷ rs) =
    (mark_row-IsClosed now reason kind id r, mark_revoked-IsClosed now reason kind id rs)

child_first :
    (id : String) (ids : List String) (r : ConsentRecord) → IsPending id (r.consent_id ∷ ids) r
unfolding member
child_first id ids r = λ active. ground (arith, eq_iff r.consent_id r.consent_id)

no_child :
    (id : String) (ids : List String) (r : ConsentRecord)
    → IsClosed id r
    → is_active_child id r ≡ false
    → IsPending id ids r
unfolding is_active_child
no_child id ids r closed h = λ active. ground (arith, closed)

-- If the record itself is closed, the active records that are reached are the active children.
children-IsPending :
    (id : String) (rs : List ConsentRecord)
    → All (IsClosed id) rs
    → All (IsPending id (ids_of (select (is_active_child id) rs))) rs
children-IsPending id [] h = tt
children-IsPending id (r ∷ rs) h =
    let ids = ids_of (select (is_active_child id) rs) in
    elim (Bool-cases (is_active_child id r)) [
      | inl e ↦
          let longer : ids_of (select (is_active_child id) (r ∷ rs)) ≡ r.consent_id ∷ ids =
            rw e refl in
          same_ids id (r.consent_id ∷ ids) (ids_of (select (is_active_child id) (r ∷ rs))) (r ∷ rs)
            longer
            (
              child_first id ids r,
              All-weaken (IsPending id ids) rs (λ s k. IsPending-more id r.consent_id ids s k)
                  (children-IsPending id rs h.1),
            )
      | inr e ↦
          let same : ids_of (select (is_active_child id) (r ∷ rs)) ≡ ids = rw e refl in
          same_ids id ids (ids_of (select (is_active_child id) (r ∷ rs))) (r ∷ rs) same
            (no_child id ids r h.0 e, children-IsPending id rs h.1)
    ]

-- If revoke says yes, then afterwards neither the consent nor any consent that was delegated from it
-- directly is active.
pub revoke-reaches :
    (cascade : String → String) (now : ℕ) (id reason kind : String) (l : Ledger)
    → (revoke cascade now id reason kind l).0 ≡ true
    → All
        (λ (r : ConsentRecord). (is_reached id r && str_eq r.status "active") ≡ false)
        (revoke cascade now id reason kind l).1.records
unfolding revoke member
revoke-reaches cascade now id reason kind l h =
    let marked = mark_revoked now reason kind id l.records in
    let children = ids_of (select (is_active_child id) marked) in
    elim (Bool-cases (is_open (status_of id l.records))) [
      | inl e ↦ rw e (
          All-weaken (IsPending id []) (revoke_children now (cascade reason) kind children marked)
            (λ r pending. ground (arith, pending))
            (revoke_children-IsPending now (cascade reason) kind id children marked
              (children-IsPending id marked (mark_revoked-IsClosed now reason kind id l.records))))
      | inr e ↦ ground (arith, h, e)
    ]
