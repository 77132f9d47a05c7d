-- ===== src/Consent/Ledger.antt =====
-- api/consent/ledger.py: `ConsentLedger`, with the records of adapter.py. Times are microseconds. The
-- columns that are only stored are left out. The validation of a record by the active profile is a
-- parameter, since it compares texts of the records with regulations.
use onto_ontological_context.Prelude.{
  ℕ, suc, ◌-◌, ◌*◌, String, Bool, true, false, not, ◌&&◌, ◌||◌, Option, none, some, List, [], ◌∷◌,
  ◌++◌, map, select, any_of, ltb, leb, str_eq, if◌then◌else◌,
}
use onto_ontological_context.Prelude.Texts.{member}
use onto_ontological_context.Ratelimit.{second}

pub record ConsentRecord : Type 0 where
  pub consent_id : String
  pub subject_id : String
  pub requester_id : String
  pub purpose : String
  pub legal_basis : String
  pub operations : List String
  pub classification_max : ℕ
  pub granted_at : ℕ
  pub valid_until : Option ℕ
  pub last_reconfirmed : Option ℕ
  pub status : String
  pub revoked_at : Option ℕ
  pub revocation_reason : Option String
  pub revocation_type : Option String
  pub delegated_from : Option String
  pub vc_status_list_idx : Option ℕ

pub record Ledger : Type 0 where
  pub records : List ConsentRecord
  pub next_idx : ℕ

-- The active regulatory profile: the errors it finds in a record, whether it lets everything pass that
-- was not opted out of, and the days after which a standing consent is to be confirmed again.
pub record Profile : Type 0 where
  pub validate_record : ConsentRecord → List String
  pub glba_opt_out_model : Bool
  pub reconfirm_days : ℕ

pub data Reason : Type 0 where
  self_access glba_opt_out_active glba_opt_in_default no_consent_record : Reason
  requires_reconfirmation operation_not_permitted exceeds_ceiling active_consent_found : Reason
  crisis_flag crisis_text consent_disabled gate_enforce_disabled : Reason
  absolute_classification : ℕ → Reason
  audit_only : Reason → Reason

pub record ConsentDecision : Type 0 where
  pub allowed : Bool
  pub consent_id : Option String
  pub reason : Reason
  pub requires_checkpoint : Bool

-- The arguments of `check`.
pub record Request : Type 0 where
  pub subject_id : String
  pub requester_id : String
  pub purpose : String
  pub classification : ℕ
  pub operation : String

abbrev pub is_some {ℓ} : {A : Type ℓ} → Option A → Bool
is_some none = false
is_some (some a) = true

-- `if record.valid_until is None and record.last_reconfirmed is None`
unfoldable pub confirm_standing : ConsentRecord → ConsentRecord
confirm_standing r =
    if is_some r.valid_until || is_some r.last_reconfirmed
    then r
    else record r { last_reconfirmed = some r.granted_at }

-- `grant`: the id, or an exception if the profile finds errors or the id is in use
unfoldable pub insert_record : ConsentRecord → Ledger → Option String × Ledger
insert_record r l =
    if any_of (λ (q : ConsentRecord). str_eq q.consent_id r.consent_id) l.records
    then (none, record l { next_idx = suc l.next_idx })
    else (
      some r.consent_id,
      record {
        records =
            l.records ++ record (confirm_standing r) { vc_status_list_idx = some l.next_idx } ∷ [];
        next_idx = suc l.next_idx;
      },
    )

unfoldable pub grant : Profile → ConsentRecord → Ledger → Option String × Ledger
grant p r l =
    let inserted = insert_record r l in
    elim (p.validate_record r) [ [] ↦ inserted | e ∷ errors ↦ (none, l) ]

-- `valid_until IS NULL OR valid_until > ?`
abbrev pub is_unexpired : ℕ → Option ℕ → Bool
is_unexpired now none = true
is_unexpired now (some t) = ltb now t

-- the condition of the query of `_find_active`
unfoldable pub is_match : ℕ → Request → ConsentRecord → Bool
is_match now q r =
    str_eq r.subject_id q.subject_id
    && str_eq r.requester_id q.requester_id
    && str_eq r.purpose q.purpose
    && str_eq r.status "active"
    && not (is_some r.revoked_at)
    && is_unexpired now r.valid_until

-- the first of the records with the greatest time
unfoldable pub best : ConsentRecord → List ConsentRecord → ConsentRecord
best r [] = r
best r (s ∷ ss) = let b = best s ss in if ltb r.granted_at b.granted_at then b else r

-- `ORDER BY granted_at DESC LIMIT 1`
abbrev pub newest : List ConsentRecord → Option ConsentRecord
newest [] = none
newest (r ∷ rs) = some (best r rs)

unfoldable pub find_active : ℕ → Request → Ledger → Option ConsentRecord
find_active now q l = newest (select (is_match now q) l.records)

unfoldable pub has_opt_out : Request → Ledger → Bool
has_opt_out q l =
    any_of
      (λ (r : ConsentRecord).
        str_eq r.subject_id q.subject_id
        && str_eq r.requester_id q.requester_id
        && str_eq r.purpose q.purpose
        && str_eq r.legal_basis "glba:opt-out"
        && (str_eq r.status "active" || str_eq r.status "opt_out")
        && not (is_some r.revoked_at))
      l.records

-- `days_elapsed >= reconfirm_days`, without a last confirmation always
abbrev pub is_overdue : ℕ → ℕ → Option ℕ → Bool
is_overdue now days none = true
is_overdue now days (some last) = leb (days * 86400 * second) (now - last)

-- `ConsentRecord.needs_reconfirmation`
unfoldable pub needs_reconfirmation : ℕ → ℕ → ConsentRecord → Bool
needs_reconfirmation now days r =
    not (is_some r.valid_until)
    && str_eq r.status "active"
    && is_overdue now days r.last_reconfirmed

abbrev deny : Option String → Reason → Bool → ConsentDecision
deny id reason checkpoint = record {
  allowed = false;
  consent_id = id;
  reason = reason;
  requires_checkpoint = checkpoint;
}

abbrev pub allow : Option String → Reason → ConsentDecision
allow id reason = record {
  allowed = true;
  consent_id = id;
  reason = reason;
  requires_checkpoint = false;
}

-- the rest of `_check_inner`, for the record that was found
unfoldable pub check_record : Profile → ℕ → Request → Option ConsentRecord → ConsentDecision
check_record p now q none = deny none no_consent_record true
check_record p now q (some r) =
    if needs_reconfirmation now p.reconfirm_days r
    then deny (some r.consent_id) requires_reconfirmation true
    else if not (member q.operation r.operations)
    then deny (some r.consent_id) operation_not_permitted true
    else if ltb r.classification_max q.classification
    then deny (some r.consent_id) exceeds_ceiling false
    else allow (some r.consent_id) active_consent_found

unfoldable pub check : Profile → ℕ → Request → Ledger → ConsentDecision
check p now q l =
    if str_eq q.subject_id q.requester_id
    then allow none self_access
    else if p.glba_opt_out_model
    then if has_opt_out q l
      then deny none glba_opt_out_active false
      else allow none glba_opt_in_default
    else check_record p now q (find_active now q l)

-- `UPDATE consent_ledger SET status='revoked', ... WHERE consent_id=?`, for one row and for all
unfoldable pub mark_row : ℕ → String → String → String → ConsentRecord → ConsentRecord
mark_row now reason kind id r =
    if str_eq r.consent_id id
    then record r {
      status = "revoked";
      revoked_at = some now;
      revocation_reason = some reason;
      revocation_type = some kind;
    }
    else r

unfoldable pub mark_revoked : ℕ → String → String → String → List ConsentRecord → List ConsentRecord
mark_revoked now reason kind id = map (mark_row now reason kind id)

abbrev pub is_text : Option String → String → Bool
is_text none id = false
is_text (some parent) id = str_eq parent id

-- `WHERE delegated_from=? AND status='active'`
unfoldable pub is_active_child : String → ConsentRecord → Bool
is_active_child id r = is_text r.delegated_from id && str_eq r.status "active"

abbrev pub ids_of : List ConsentRecord → List String
ids_of [] = []
ids_of (r ∷ rs) = r.consent_id ∷ ids_of rs

-- the loop over the children
unfoldable pub revoke_children :
    ℕ → String → String → List String → List ConsentRecord → List ConsentRecord
revoke_children now reason kind [] rs = rs
revoke_children now reason kind (id ∷ ids) rs =
    revoke_children now reason kind ids (mark_revoked now reason kind id rs)

-- the status of a record, if it is there
unfoldable pub status_of : String → List ConsentRecord → Option String
status_of id [] = none
status_of id (r ∷ rs) = if str_eq r.consent_id id then some r.status else status_of id rs

abbrev pub is_open : Option String → Bool
is_open none = false
is_open (some status) = not (str_eq status "revoked")

-- `revoke`; `cascade` is the text "cascade:" before the reason
unfoldable pub revoke : (String → String) → ℕ → String → String → String → Ledger → Bool × Ledger
revoke cascade now id reason kind l =
    let marked = mark_revoked now reason kind id l.records in
    let children = ids_of (select (is_active_child id) marked) in
    if is_open (status_of id l.records)
    then (true, record l { records = revoke_children now (cascade reason) kind children marked })
    else (false, l)
