-- ===== src/Federation/Consent.antt =====
-- api/federation/consent.py: the ledger of consents. Times are microseconds. compute_chain_hash is the
-- digest of a record; SHA-256 over parts joined by bars and the text of a time are parameters, and the
-- operations take the digest as one. So is the random id of a new record. The columns of verifiable
-- credentials are never written and are left out.
pub mod Chain
pub mod Order
pub mod Revoked
mod Tests
use onto_ontological_context.Prelude.{
  ℕ, ◌+◌, ◌*◌, ◌-◌, String, Bool, true, false, not, ◌&&◌, ◌||◌, Option, none, some, List, [], ◌∷◌,
  ◌++◌, map, length, select, ltb, leb, ◌==◌, str_eq, if◌then◌else◌,
}
use onto_ontological_context.Ratelimit.{second}

pub record Consent : Type 0 where
  pub consent_id : String
  pub grantor_session : String
  pub recipient_node : String
  pub data_description : String
  pub data_concept_hash : Option String
  pub classification : ℕ
  pub granted_at : ℕ
  pub expires_at : Option ℕ
  pub last_reconfirmed : Option ℕ
  pub revoked_at : Option ℕ
  pub revocation_reason : Option String
  pub chain_hash : String

-- The arguments of `grant`.
pub record Grant : Type 0 where
  pub session : String
  pub recipient : String
  pub description : String
  pub level : ℕ
  pub concept_hash : Option String
  pub expiry : Option ℕ

unfoldable pub compute_chain_hash :
    (List String → String) → (ℕ → String) → Option String → String → ℕ → String
compute_chain_hash sha256 show (some prev_hash) id granted_at =
    sha256 (prev_hash ∷ id ∷ show granted_at ∷ [])
compute_chain_hash sha256 show none id granted_at = sha256 (id ∷ show granted_at ∷ [])

-- `_get_latest_chain_hash`: the row with the greatest time
unfoldable pub latest : List Consent → Option Consent
latest [] = none
latest (c ∷ cs) = elim (latest cs) [
  | none ↦ some c
  | some d ↦ if ltb c.granted_at d.granted_at then some d else some c
]

abbrev pub hash_of : Option Consent → Option String
hash_of none = none
hash_of (some c) = some c.chain_hash

unfoldable pub latest_chain_hash : List Consent → Option String
latest_chain_hash ledger = hash_of (latest ledger)

-- `SELECT ... WHERE consent_id = ?`, and `get`
unfoldable pub find_consent : String → List Consent → Option Consent
find_consent id [] = none
find_consent id (c ∷ cs) = if str_eq c.consent_id id then some c else find_consent id cs

abbrev pub is_some {ℓ} : {A : Type ℓ} → Option A → Bool
is_some none = false
is_some (some a) = true

unfoldable pub update_consent : String → (Consent → Consent) → List Consent → List Consent
update_consent id change = map (λ (c : Consent). if str_eq c.consent_id id then change c else c)

-- whether a row was found that is not revoked
unfoldable pub is_live : Option Consent → Bool
is_live none = false
is_live (some c) = not (is_some c.revoked_at)

unfoldable pub revoke : ℕ → String → String → List Consent → Bool × List Consent
revoke now id reason ledger =
    if is_live (find_consent id ledger)
    then (
      true,
      update_consent id (λ c. record c { revoked_at = some now; revocation_reason = some reason })
          ledger,
    )
    else (false, ledger)

unfoldable pub reconfirm : ℕ → String → List Consent → Bool × List Consent
reconfirm now id ledger =
    if is_live (find_consent id ledger)
    then (true, update_consent id (λ c. record c { last_reconfirmed = some now }) ledger)
    else (false, ledger)

pub data Validity : Type 0 where
  valid not_found wrong_recipient revoked expired : Validity

-- `expires_at is not None and expires_at < now`
unfoldable pub is_expired : ℕ → Option ℕ → Bool
is_expired now none = false
is_expired now (some t) = ltb t now

-- `is_valid` for the row that was found
unfoldable pub validity_of : ℕ → String → Option Consent → Validity
validity_of now recipient none = not_found
validity_of now recipient (some c) =
    if not (str_eq c.recipient_node recipient)
    then wrong_recipient
    else if is_some c.revoked_at
    then revoked
    else if is_expired now c.expires_at
    then expired
    else valid

unfoldable pub is_valid : ℕ → String → String → List Consent → Validity
is_valid now id recipient ledger = validity_of now recipient (find_consent id ledger)

-- `needs_reconfirmation` for the row that was found
abbrev pub overdue : ℕ → ℕ → Option ℕ → Bool
overdue days now none = true
overdue days now (some last) = leb (days * 86400 * second) (now - last)

unfoldable pub needs_reconfirmation_of : ℕ → ℕ → Option Consent → Bool
needs_reconfirmation_of days now none = false
needs_reconfirmation_of days now (some c) =
    if is_some c.revoked_at || is_some c.expires_at
    then false
    else overdue days now c.last_reconfirmed

unfoldable pub needs_reconfirmation : ℕ → ℕ → String → List Consent → Bool
needs_reconfirmation days now id ledger = needs_reconfirmation_of days now (find_consent id ledger)

-- `ORDER BY granted_at ASC`
unfoldable pub insert_granted : Consent → List Consent → List Consent
insert_granted c [] = c ∷ []
insert_granted c (d ∷ ds) =
    if leb c.granted_at d.granted_at then c ∷ d ∷ ds else d ∷ insert_granted c ds

unfoldable pub by_granted_at : List Consent → List Consent
by_granted_at [] = []
by_granted_at (c ∷ cs) = insert_granted c (by_granted_at cs)

pub record Integrity : Type 0 where
  pub intact : Bool
  pub total : ℕ
  pub broken_at : Option String

-- The calls that write the ledger.
pub data Call : Type 0 where
  do_grant : ℕ → String → Grant → Call
  do_revoke : ℕ → String → String → Call
  do_reconfirm : ℕ → String → Call

module _ (digest : Option String → String → ℕ → String) where
  unfoldable pub grant : ℕ → String → Grant → List Consent → List Consent
  grant now id a ledger =
      ledger
      ++ (record {
        consent_id = id;
        grantor_session = a.session;
        recipient_node = a.recipient;
        data_description = a.description;
        data_concept_hash = a.concept_hash;
        classification = a.level;
        granted_at = now;
        expires_at = a.expiry;
        last_reconfirmed = some now;
        revoked_at = none;
        revocation_reason = none;
        chain_hash = digest (latest_chain_hash ledger) id now;
      }
          ∷ [])

  -- the loop of `verify_chain_integrity`: the id of the first row whose digest is not as expected
  unfoldable pub broken_from : Option String → List Consent → Option String
  broken_from prev_hash [] = none
  broken_from prev_hash (c ∷ cs) =
      let rest = broken_from (some c.chain_hash) cs in
      if str_eq c.chain_hash (digest prev_hash c.consent_id c.granted_at)
      then rest
      else some c.consent_id

  unfoldable pub verify_chain_integrity : List Consent → Integrity
  verify_chain_integrity ledger =
      let broken = broken_from none (by_granted_at ledger) in
      record { intact = not (is_some broken); total = length ledger; broken_at = broken }

  unfoldable pub perform : Call → List Consent → List Consent
  perform (do_grant now id a) ledger = grant now id a ledger
  perform (do_revoke now id reason) ledger = (revoke now id reason ledger).1
  perform (do_reconfirm now id) ledger = (reconfirm now id ledger).1

  unfoldable pub perform_all : List Call → List Consent → List Consent
  perform_all [] ledger = ledger
  perform_all (c ∷ cs) ledger = perform_all cs (perform c ledger)
