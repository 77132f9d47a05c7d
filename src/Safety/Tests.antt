-- ===== src/Safety/Tests.antt =====
-- The filter for one peer, with a detector that knows one text.
use onto_ontological_context.Prelude.{◌≤◌, ◌≡◌, ◌↔◌, String, Bool, true, false, [], ◌∷◌, str_eq}
use onto_ontological_context.Safety.{
  string_value, dict_value, other_value, Fields, no_fields, field, Config, Share, passed,
  check_outbound, check_inbound,
}
use onto_ontological_context.Safety.Barriers.{Permitted, check_outbound-Permitted}
use onto_ontological_context.Safety.Inbound.{OccursInFields, Crisis, check_inbound_lem}

abbrev detector : String → Bool
detector t = str_eq t "help"

abbrev config : Config
config = record {
  max_share_classification = 2;
  sensitive_trust_threshold = 95;
  inbound_trust = 30;
  data_residency = "NZ" ∷ [];
}

abbrev share : Share
share = record {
  text = "rain";
  classification = 1;
  is_sensitive = false;
  is_crisis = false;
  peer_trust_score = 50;
  peer_regions = "NZ" ∷ "US" ∷ [];
  has_valid_consent = true;
}

check_outbound-Permitted_example :
    (check_outbound detector config share ≡ passed) ↔ Permitted detector config share
check_outbound-Permitted_example = check_outbound-Permitted detector config share

abbrev payload : Fields
payload =
    field "weight" other_value
      (field "node" (dict_value (field "label" (string_value "help") no_fields)) no_fields)

check_inbound_lem_example :
    (((check_inbound detector config payload 50).0 ≡ false)
      ↔ Crisis detector (λ t. OccursInFields t payload))
    × ((check_inbound detector config payload 50).1 ≤ config.inbound_trust)
    × ((check_inbound detector config payload 50).1 ≤ 50)
check_inbound_lem_example = check_inbound_lem detector config payload 50
