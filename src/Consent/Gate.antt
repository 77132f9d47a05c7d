-- ===== src/Consent/Gate.antt =====
-- api/consent/enforcement.py: `ConsentGate`. Its entries in the audit trail are left out.
use onto_ontological_context.Prelude.{
  ℕ, String, Bool, false, not, ◌&&◌, ◌||◌, ◌≡◌, Option, none, some, List, [], ◌∷◌, any_of, arith,
  leb, str_eq, if◌then◌else◌,
}
use onto_ontological_context.Graph.Relate.{Language}
use onto_ontological_context.Consent.Ledger.{
  Ledger, Profile, Reason, crisis_flag, crisis_text, consent_disabled, gate_enforce_disabled,
  absolute_classification, audit_only, ConsentDecision, Request, allow, check,
}

abbrev pub crisis_phrases : List String
crisis_phrases =
    "end my life" ∷ "kill myself" ∷ "take my life" ∷ "want to die" ∷ "better off dead"
    ∷ "can't go on" ∷ "no reason to live" ∷ "hurt myself" ∷ "self-harm" ∷ "suicide" ∷ "suicidal"
    ∷ []

pub record Config : Type 0 where
  pub consent_enabled : Bool
  pub consent_audit_only : Bool
  pub consent_gate_enforce : Bool

unfoldable pub contains_crisis : Language → String → Bool
contains_crisis l text = any_of (λ phrase. l.contains phrase (l.lower text)) crisis_phrases

-- `text and _contains_crisis(text)`
unfoldable pub has_crisis : Language → Option String → Bool
has_crisis l none = false
has_crisis l (some text) = not (str_eq text "") && contains_crisis l text

abbrev block : Reason → ConsentDecision
block reason = record {
  allowed = false;
  consent_id = none;
  reason = reason;
  requires_checkpoint = false;
}

-- `_decide_inner`
unfoldable pub decide :
    Language → Config → Profile → ℕ → Request → Bool → Option String → Ledger → ConsentDecision
decide l c p now q is_crisis text ledger =
    let decision = check p now q ledger in
    if is_crisis
    then block crisis_flag
    else if has_crisis l text
    then block crisis_text
    else if leb 4 q.classification
    then block (absolute_classification q.classification)
    else if not c.consent_enabled
    then allow none consent_disabled
    else if c.consent_audit_only
    then allow decision.consent_id (audit_only decision.reason)
    else if not c.consent_gate_enforce
    then allow none gate_enforce_disabled
    else decision

-- The gate allows an operation exactly if there is no absolute barrier (the flag of a crisis, a phrase
-- of a crisis in the text, a classification of 4 or more), and either one of three settings turns the
-- gate off (consent disabled, audit only, not enforced) or the ledger allows it.
pub decide-allowed :
    (l : Language) (c : Config) (p : Profile) (now : ℕ) (q : Request) (is_crisis : Bool)
    (text : Option String) (ledger : Ledger)
    → (decide l c p now q is_crisis text ledger).allowed ≡ (
        not (is_crisis || has_crisis l text || leb 4 q.classification)
        && (not (c.consent_enabled && not c.consent_audit_only && c.consent_gate_enforce)
            || (check p now q ledger).allowed))
unfolding decide
decide-allowed l c p now q is_crisis text ledger = ground arith
