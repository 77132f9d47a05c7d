-- ===== src/Federation/Regulatory/Tests.antt =====
-- Runs of the model of api/federation/regulatory.py and internet.py, and the theorems at concrete
-- inputs.
use onto_ontological_context.Prelude.{
  ◌≡◌, ◌↔◌, refl, false, true, none, some, List, [], ◌∷◌, All, str_eq,
}
use onto_ontological_context.Prelude.Dict
use onto_ontological_context.Prelude.Dict.{Dict}
use onto_ontological_context.Prelude.Texts.{member}
use onto_ontological_context.Graph.{empty_graph}
use onto_ontological_context.Federation.Audit.{no_messages}
use onto_ontological_context.Federation.Adapter.{Adapter, NodeInfo, World, can_share}
use onto_ontological_context.Federation.Regulatory.{
  Scalar, flag_scalar, Peer, Profile, hipaa, gdpr, unsafe_countries, check_outbound, load,
}
use onto_ontological_context.Federation.Regulatory.Complies.{Complies, check_outbound-Complies}
use onto_ontological_context.Federation.Regulatory.Internet.{
  internet_can_share, then_profiles, internet_can_share-can_share,
}

abbrev health_data : Dict Scalar
health_data = ("phi_flag", flag_scalar true) ∷ ("is_personal", flag_scalar true) ∷ []

abbrev clinic : Peer
clinic = record {
  capabilities = ("baa_confirmed", flag_scalar true) ∷ [];
  regions = "US" ∷ "FR" ∷ [];
}

abbrev both : List Profile
both = hipaa ∷ gdpr ∷ []

loaded : load (λ name. name) ("HIPAA" ∷ "none" ∷ "GDPR" ∷ []) ≡ both
unfolding load
loaded = refl

blocked_abroad : check_outbound both health_data clinic ≡ some (hipaa, unsafe_countries ("FR" ∷ []))
unfolding check_outbound Dict.get member
blocked_abroad = refl

check_outbound-Complies_example :
    (check_outbound both health_data clinic ≡ none) ↔ All (λ p. Complies p health_data clinic) both
check_outbound-Complies_example = check_outbound-Complies both health_data clinic

abbrev world : World
world = record {
  language = record {
    lower = λ text. text;
    contains = λ phrase text. str_eq phrase text;
    words = λ text. text ∷ [];
    is_blank = λ text. str_eq text "";
    extract_concepts = λ text. text ∷ [];
  };
  relate_config = record { base_reinforcement = 8; sensitive_reinforcement = 2 };
  safety = record {
    max_share_classification = 2;
    sensitive_trust_threshold = 80;
    inbound_trust = 30;
    data_residency = [];
  };
  rate_limit = 60;
  first_letters = λ did. did;
  characters = λ text. [];
  growth = λ trust. 5;
}

abbrev node : Adapter
node = record {
  did = "me";
  peers = [];
  trust = [];
  consents = [];
  messages = no_messages;
  rates = record { rate_state = []; backoff_state = [] };
  manifests = [];
  graph = empty_graph 0;
}

abbrev abroad : NodeInfo
abroad = record { node_id = "ann"; endpoint = "host"; trust_score = 50; regions = "FR" ∷ [] }

internet_can_share-can_share_example :
    internet_can_share world both 3 "a diagnosis" 2 true false abroad [] "c" node
    ≡ then_profiles (can_share world 3 "a diagnosis" 2 true false abroad "c" node) none
internet_can_share-can_share_example =
    internet_can_share-can_share world both 3 "a diagnosis" 2 true false abroad [] "c" node
