-- ===== src/Federation/Capability/Tests.antt =====
-- Runs of the model of api/federation/capability.py, and its theorem at concrete inputs.
use onto_ontological_context.Prelude.{
  ℕ, ◌≡◌, refl, String, Bool, true, Option, none, some, [], ◌∷◌, ◌==◌, length, arith,
}
use onto_ontological_context.Prelude.Dict
use onto_ontological_context.Graph.{empty_graph}
use onto_ontological_context.Federation.Audit.{no_messages}
use onto_ontological_context.Federation.Identity.{Ed25519, public_key_bytes_to_did}
use onto_ontological_context.Federation.Adapter.{Adapter, NodeInfo}
use onto_ontological_context.Federation.Capability.{
  Codec, Manifest, Site, valid, missing_fields, incompatible_spec_version, invalid_node_id,
  create_manifest, verify_manifest, handshake, verify_peer,
}
use onto_ontological_context.Federation.Capability.Handshake.{handshake-signed}

abbrev toy : Ed25519
toy = record {
  PrivateKey = ℕ;
  public_bytes = λ key. 200 ∷ 7 ∷ [];
  sign_with = λ key message. 1 ∷ [];
  verifies = λ key message signature. length signature == 1;
}

abbrev codec_reading : Option Manifest → Codec
codec_reading m = record {
  jcs_encode = λ body. [];
  urlsafe_b64encode = λ data_bytes. "AQ==";
  urlsafe_b64decode = λ encoded. some (1 ∷ []);
  dumps = λ body. "manifest";
  loads = λ raw. m;
}

abbrev site : Site
site = record {
  version = "1.0.0";
  iso_now = "2026-01-01T00:00:00+00:00";
  stage = "local";
  tools = [];
  edge_types = "related-to" ∷ [];
  used_edge_types = [];
  max_share_classification = 2;
  consent_mode = "explicit";
  sorted_data_residency = "EU" ∷ [];
  max_msgs_per_peer_per_min = 60;
  decay_profile = "standard";
  max_similarity = 40;
  graph = empty_graph 0;
}

abbrev impostor : String
impostor = "did:key:z74NfVY"

abbrev made : Manifest
made = create_manifest toy (codec_reading none) impostor 0 site

abbrev codec : Codec
codec = codec_reading (some made)

abbrev ann : NodeInfo
ann = record { node_id = "did:key:ann"; endpoint = "https://ann"; trust_score = 0; regions = [] }

abbrev node : Adapter
node = record {
  did = "did:key:own";
  peers = ("did:key:ann", ann) ∷ [];
  trust = ("did:key:ann", 75) ∷ [];
  consents = [];
  messages = no_messages;
  rates = record { rate_state = []; backoff_state = [] };
  manifests = [];
  graph = empty_graph 0;
}

missing_run :
    verify_manifest toy codec (record made { signature = none; node_id = none })
    ≡ missing_fields ("node_id" ∷ "signature" ∷ [])
unfolding verify_manifest create_manifest
missing_run = refl

spec_run :
    verify_manifest toy codec (record made { spec_version = some "OTHER-SPEC" })
    ≡ incompatible_spec_version
unfolding verify_manifest create_manifest
spec_run = refl

format_run :
    verify_manifest toy codec (record made { node_id = some "did:web:ann" }) ≡ invalid_node_id
unfolding verify_manifest create_manifest
format_run = refl

abbrev after_handshake : Bool × Adapter
after_handshake = handshake toy codec (λ endpoint ours. some made) 0 site ann node

handshake-signed_example :
    (after_handshake.0 ≡ true)
    × (Dict.get "did:key:ann" after_handshake.1.peers
        ≡ some (record {
          node_id = "did:key:z74NfVY";
          endpoint = "https://ann";
          trust_score = 75;
          regions = "EU" ∷ [];
        }))
    × (verify_peer toy codec ann after_handshake.1 ≡ some valid)
unfolding public_key_bytes_to_did create_manifest Dict.get_or
handshake-signed_example =
    handshake-signed toy codec (λ key. omega arith) (λ key message. refl) (λ key message. refl) 0 0
      impostor site site (λ endpoint ours. some made) ann node refl refl refl
