-- ===== src/Consent/Tests.antt =====
-- Runs of the model of api/consent, and its theorems at concrete inputs.
use onto_ontological_context.Prelude.{
  ◌≡◌, refl, true, false, not, ◌&&◌, ◌||◌, none, some, List, [], ◌∷◌, ◌++◌, leb, All, str_eq,
}
use onto_ontological_context.Prelude.Texts.{member}
use onto_ontological_context.Graph.Relate.{Language}
use onto_ontological_context.Consent.Ledger.{
  ConsentRecord, Ledger, Profile, Request, check, check_record, find_active, is_match, best,
  needs_reconfirmation, revoke, status_of,
}
use onto_ontological_context.Consent.Gate.{Config, has_crisis, decide, decide-allowed}
use onto_ontological_context.Consent.Covered.{Covers, check-covering}
use onto_ontological_context.Consent.Revocation.{is_reached, revoke-reaches}

abbrev plain : Language
plain = record {
  lower = λ text. text;
  contains = λ phrase text. str_eq phrase text;
  words = λ text. text ∷ [];
  is_blank = λ text. str_eq text "";
  extract_concepts = λ text. text ∷ [];
}

abbrev strict : Config
strict = record { consent_enabled = true; consent_audit_only = false; consent_gate_enforce = true }

abbrev general : Profile
general = record { validate_record = λ r. []; glba_opt_out_model = false; reconfirm_days = 90 }

abbrev consent : ConsentRecord
consent = record {
  consent_id = "c1";
  subject_id = "ann";
  requester_id = "bob";
  purpose = "care";
  legal_basis = "consent";
  operations = "read" ∷ [];
  classification_max = 2;
  granted_at = 5;
  valid_until = some 100;
  last_reconfirmed = none;
  status = "active";
  revoked_at = none;
  revocation_reason = none;
  revocation_type = none;
  delegated_from = none;
  vc_status_list_idx = none;
}

abbrev ledger : Ledger
ledger = record {
  records = consent ∷ record consent { consent_id = "c2"; delegated_from = some "c1" } ∷ [];
  next_idx = 2;
}

abbrev reading : Request
reading = record {
  subject_id = "ann";
  requester_id = "bob";
  purpose = "care";
  classification = 1;
  operation = "read";
}

decide-allowed_example : (decide plain strict general 9 reading false none ledger).allowed ≡ (
    not (false || has_crisis plain none || leb 4 1)
    && (not (true && not false && true) || (check general 9 reading ledger).allowed))
decide-allowed_example = decide-allowed plain strict general 9 reading false none ledger

check-covering_example :
    (pre : List ConsentRecord) × (r : ConsentRecord) × (post : List ConsentRecord) × (ledger.records
      ≡ pre ++ r ∷ post)
    × Covers general 9 reading ledger r
unfolding check check_record find_active is_match best needs_reconfirmation member
check-covering_example = check-covering general 9 reading ledger refl refl refl

revoke-reaches_example :
    All
      (λ (r : ConsentRecord). (is_reached "c1" r && str_eq r.status "active") ≡ false)
      (revoke (λ reason. reason) 9 "c1" "withdrawn" "written" ledger).1.records
unfolding revoke status_of
revoke-reaches_example = revoke-reaches (λ reason. reason) 9 "c1" "withdrawn" "written" ledger refl
