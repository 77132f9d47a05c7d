-- ===== src/Federation/Consent/Revoked.antt =====
-- A revoked consent stays revoked.
use onto_ontological_context.Prelude.{
  ℕ, ◌≡◌, refl, inl, inr, String, Bool, true, false, Option, none, some, List, [], ◌∷◌, ◌++◌, arith,
  Bool-cases,
}
use onto_ontological_context.Federation.Consent.{
  Consent, find_consent, is_some, update_consent, is_live, revoke, reconfirm, Validity, valid,
  not_found, wrong_recipient, revoked, expired, validity_of, is_valid, grant, Call, do_grant,
  do_revoke, do_reconfirm, perform, perform_all,
}

-- The row with an id is there and revoked.
abbrev pub holds_revoked : Option Consent → Bool
holds_revoked none = false
holds_revoked (some c) = is_some c.revoked_at

abbrev pub IsRevoked : String → List Consent → Type 0
IsRevoked id ledger = holds_revoked (find_consent id ledger) ≡ true

append-IsRevoked :
    (id : String) (ledger new : List Consent) → IsRevoked id ledger → IsRevoked id (ledger ++ new)
unfolding find_consent
append-IsRevoked id [] new h = ground arith
append-IsRevoked id (c ∷ cs) new h = ground (arith, append-IsRevoked id cs new)

-- An update that keeps ids and revocations keeps a revoked row.
update-IsRevoked :
    (id other : String) (change : Consent → Consent) (ledger : List Consent)
    → ((c : Consent) → (change c).consent_id ≡ c.consent_id)
    → ((c : Consent) → is_some c.revoked_at ≡ true → is_some (change c).revoked_at ≡ true)
    → IsRevoked id ledger
    → IsRevoked id (update_consent other change ledger)
unfolding find_consent update_consent
update-IsRevoked id other change [] ids keeps h = h
update-IsRevoked id other change (c ∷ cs) ids keeps h =
    ground (arith, update-IsRevoked id other change cs ids keeps, ids c, keeps c)

mark-IsRevoked :
    (id : String) (change : Consent → Consent) (ledger : List Consent)
    → ((c : Consent) → (change c).consent_id ≡ c.consent_id)
    → ((c : Consent) → is_some (change c).revoked_at ≡ true)
    → is_some (find_consent id ledger) ≡ true
    → IsRevoked id (update_consent id change ledger)
unfolding find_consent update_consent
mark-IsRevoked id change [] ids marks there = there
mark-IsRevoked id change (c ∷ cs) ids marks there =
    ground (arith, mark-IsRevoked id change cs ids marks, ids c, marks c)

not_live : (o : Option Consent) → is_some o ≡ true → is_live o ≡ false → holds_revoked o ≡ true
unfolding is_live
not_live none there dead = there
not_live (some c) there dead = ground arith

abbrev pub permits : Validity → Bool
permits valid = true
permits not_found = false
permits wrong_recipient = false
permits revoked = false
permits expired = false

-- A revocation of a row that is there leaves it revoked, whether it was revoked before or not.
revoke-IsRevoked :
    (now : ℕ) (id reason : String) (ledger : List Consent)
    → is_some (find_consent id ledger) ≡ true
    → IsRevoked id (revoke now id reason ledger).1
unfolding revoke
revoke-IsRevoked now id reason ledger there = elim (Bool-cases (is_live (find_consent id ledger))) [
  | inl e ↦ rw e (
      mark-IsRevoked id (λ c. record c { revoked_at = some now; revocation_reason = some reason })
        ledger (λ c. refl) (λ c. refl) there)
  | inr e ↦ rw e (not_live (find_consent id ledger) there e)
]

revoke-keeps :
    (id : String) (now : ℕ) (other reason : String) (ledger : List Consent)
    → IsRevoked id ledger
    → IsRevoked id (revoke now other reason ledger).1
unfolding revoke
revoke-keeps id now other reason ledger h =
    elim (Bool-cases (is_live (find_consent other ledger))) [
      | inl e ↦ rw e (
          update-IsRevoked id other
            (λ c. record c { revoked_at = some now; revocation_reason = some reason }) ledger
            (λ c. refl) (λ c k. refl) h)
      | inr e ↦ rw e h
    ]

reconfirm-keeps :
    (id : String) (now : ℕ) (other : String) (ledger : List Consent)
    → IsRevoked id ledger
    → IsRevoked id (reconfirm now other ledger).1
unfolding reconfirm
reconfirm-keeps id now other ledger h = elim (Bool-cases (is_live (find_consent other ledger))) [
  | inl e ↦ rw e (
      update-IsRevoked id other (λ c. record c { last_reconfirmed = some now }) ledger (λ c. refl)
        (λ c k. k) h)
  | inr e ↦ rw e h
]

module _ (digest : Option String → String → ℕ → String) where
  perform-IsRevoked :
      (id : String) (c : Call) (ledger : List Consent)
      → IsRevoked id ledger
      → IsRevoked id (perform digest c ledger)
  unfolding perform grant
  perform-IsRevoked id (do_grant now other a) ledger h = append-IsRevoked id ledger _ h
  perform-IsRevoked id (do_revoke now other reason) ledger h =
      revoke-keeps id now other reason ledger h
  perform-IsRevoked id (do_reconfirm now other) ledger h = reconfirm-keeps id now other ledger h

  perform_all-IsRevoked :
      (id : String) (calls : List Call) (ledger : List Consent)
      → IsRevoked id ledger
      → IsRevoked id (perform_all digest calls ledger)
  unfolding perform_all
  perform_all-IsRevoked id [] ledger h = h
  perform_all-IsRevoked id (c ∷ calls) ledger h =
      perform_all-IsRevoked id calls (perform digest c ledger) (perform-IsRevoked id c ledger h)

  not_valid :
      (now : ℕ) (recipient : String) (o : Option Consent)
      → holds_revoked o ≡ true
      → permits (validity_of now recipient o) ≡ false
  unfolding validity_of
  not_valid now recipient none h = refl
  not_valid now recipient (some c) h = ground arith

  -- Revocation is final: after revoke of a consent that the ledger has, is_valid refuses it for every
  -- recipient, at any time, and after any further grants, revocations and reconfirmations.
  pub revoke-final :
      (id reason recipient : String) (now later : ℕ) (calls : List Call) (ledger : List Consent)
      → is_some (find_consent id ledger) ≡ true
      → permits
          (is_valid later id recipient (perform_all digest calls (revoke now id reason ledger).1))
        ≡ false
  unfolding is_valid
  revoke-final id reason recipient now later calls ledger there =
      not_valid later recipient
        (find_consent id (perform_all digest calls (revoke now id reason ledger).1))
        (perform_all-IsRevoked id calls (revoke now id reason ledger).1
          (revoke-IsRevoked now id reason ledger there))
