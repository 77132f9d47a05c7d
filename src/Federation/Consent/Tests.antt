-- ===== src/Federation/Consent/Tests.antt =====
-- Runs of the model of api/federation/consent.py, and its theorems at concrete inputs.
use onto_ontological_context.Prelude.{
  ℕ, ◌≡◌, refl, arith, String, true, false, Option, none, List, [], ◌∷◌, length,
}
use onto_ontological_context.Federation.Consent.{
  Grant, compute_chain_hash, find_consent, revoke, is_valid, grant, verify_chain_integrity, Call,
  do_grant, do_revoke, do_reconfirm, perform_all,
}
use onto_ontological_context.Federation.Consent.Chain.{perform_all-intact}
use onto_ontological_context.Federation.Consent.Revoked.{permits, revoke-final}

abbrev first_part : List String → String
first_part [] = ""
first_part (part ∷ parts) = part

abbrev digest : Option String → String → ℕ → String
digest = compute_chain_hash first_part (λ t. "time")

abbrev notes : Grant
notes = record {
  session = "s";
  recipient = "peer";
  description = "notes";
  level = 1;
  concept_hash = none;
  expiry = none;
}

abbrev calls : List Call
calls =
    do_grant 1 "a" notes
    ∷ do_grant 2 "b" notes
    ∷ do_revoke 3 "a" "done"
    ∷ do_reconfirm 4 "b"
    ∷ do_grant 5 "c" notes
    ∷ []

perform_all-intact_example :
    verify_chain_integrity digest (perform_all digest calls [])
    ≡ record { intact = true; total = length (perform_all digest calls []); broken_at = none }
perform_all-intact_example =
    perform_all-intact digest calls 0 (omega arith, (omega arith, (omega arith, tt)))

revoke-final_example :
    permits (
      is_valid 9 "a" "peer"
        (perform_all digest calls (revoke 8 "a" "" (grant digest 7 "a" notes [])).1))
    ≡ false
unfolding grant find_consent
revoke-final_example =
    revoke-final digest "a" "" "peer" 8 9 calls (grant digest 7 "a" notes []) refl
