-- ===== src/Federation/Adapter/Tests.antt =====
-- Runs of the model of api/federation/local.py, and its theorems at concrete inputs.
use onto_ontological_context.Prelude.{
  ℕ, ◌≡◌, refl, String, false, Option, none, some, List, [], ◌∷◌, All, str_eq,
}
use onto_ontological_context.Prelude.Dict
use onto_ontological_context.Safety.{
  field, no_fields, list_value, item, no_items, string_value, passed, check_absolute_barriers,
  check_controls,
}
use onto_ontological_context.Graph.{Node, empty_graph}
use onto_ontological_context.Graph.Relate.{Language, contains_crisis}
use onto_ontological_context.Graph.Sources.{AddsHumans}
use onto_ontological_context.Federation.Audit.{no_messages, check_rate_limit, recent}
use onto_ontological_context.Federation.Consent.{Consent, find_consent, validity_of, is_expired}
use onto_ontological_context.Federation.Adapter.{
  Adapter, Inbound, NodeInfo, World, Step, arrives, shares, recall, handle_message, can_share, run,
}
use onto_ontological_context.Federation.Adapter.Recall.{recall-final, retract-final}
use onto_ontological_context.Federation.Adapter.Ingest.{run-no_crisis, run-AddsHumans}

abbrev plain : Language
plain = record {
  lower = λ text. text;
  contains = λ phrase text. str_eq phrase text;
  words = λ text. text ∷ [];
  is_blank = λ text. str_eq text "";
  extract_concepts = λ text. "tea" ∷ "cup" ∷ [];
}

abbrev world : World
world = record {
  language = plain;
  relate_config = record { base_reinforcement = 8; sensitive_reinforcement = 2 };
  safety = record {
    max_share_classification = 2;
    sensitive_trust_threshold = 80;
    inbound_trust = 30;
    data_residency = [];
  };
  rate_limit = 60;
  first_letters = λ did. did;
  characters = λ text. [];
  growth = λ trust. 5;
}

abbrev digest : Option String → String → ℕ → String
digest prev id now = id

abbrev consent : Consent
consent = record {
  consent_id = "c";
  grantor_session = "s";
  recipient_node = "ann";
  data_description = "notes";
  data_concept_hash = none;
  classification = 1;
  granted_at = 1;
  expires_at = none;
  last_reconfirmed = some 1;
  revoked_at = none;
  revocation_reason = none;
  chain_hash = "c";
}

abbrev ann : NodeInfo
ann = record { node_id = "ann"; endpoint = "host"; trust_score = 50; regions = [] }

abbrev node : Adapter
node = record {
  did = "me";
  peers = ("ann", ann) ∷ [];
  trust = [];
  consents = consent ∷ [];
  messages = no_messages;
  rates = record { rate_state = []; backoff_state = [] };
  manifests = [];
  graph = empty_graph 0;
}

-- The first message of a peer, with one concept.
abbrev message : String → List String → Inbound
message kind ids = record {
  message_type = kind;
  message = record {
    sender_did = "bob";
    sequence_id = 1;
    data_fields = field "concepts" (list_value (item (string_value "hot tea") no_items)) no_fields;
    payload_hash = "h";
  };
  consent_ids = ids;
  manifest = none;
}

abbrev steps : List Step
steps = arrives 5 (message "SHARE" []) ∷ shares 6 "ann" no_fields "h" none ∷ []

was_shared : can_share world 3 "tea" 1 false false ann "c" node ≡ passed
unfolding can_share contains_crisis check_absolute_barriers check_controls validity_of find_consent
    is_expired
was_shared = refl

recall-final_example : ¬ (
    can_share world 9 "tea" 1 false false ann "c"
      (run world digest steps (recall world 4 "c" false node).1)
    ≡ passed)
unfolding find_consent
recall-final_example =
    recall-final world digest 4 9 "c" "tea" false false false 1 ann steps node refl

retract-final_example : ¬ (
    can_share world 9 "tea" 1 false false ann "c"
      (run world digest steps (handle_message world 4 (message "RETRACT" ("c" ∷ [])) node).1)
    ≡ passed)
unfolding find_consent check_rate_limit Dict.get_or recent
retract-final_example =
    retract-final world digest 4 9 "c" "tea" [] (message "RETRACT" ("c" ∷ [])) false false 1 ann
      steps node refl refl refl refl refl

run-no_crisis_example :
    All
      (λ (n : Node). contains_crisis plain n.concept ≡ false)
      (run world digest steps node).graph.nodes
unfolding contains_crisis
run-no_crisis_example =
    run-no_crisis world digest steps 0 node refl (λ text safe. (refl, (refl, tt)))

run-AddsHumans_example :
    AddsHumans node.graph.provenance (run world digest steps node).graph.provenance
run-AddsHumans_example = run-AddsHumans world digest steps node
