-- ===== src/Federation/Capability.antt =====
-- api/federation/capability.py, and handshake and verify_peer of api/federation/local.py. JSON, its
-- canonical form, base64, the signatures and the connection to the peer are parameters. A manifest is
-- a record whose values have the types that create_manifest gives them, and a field that is none is
-- not in it. The names of regions are in capitals, without commas. Entries of the audit trail are left out.
pub mod Handshake
mod Tests
use onto_ontological_context.Prelude.{
  ℕ, String, Bool, true, false, not, Option, none, some, List, [], ◌∷◌, if◌then◌else◌, length,
  codes,
}
use onto_ontological_context.Prelude.Dict
use onto_ontological_context.Prelude.Dict.{Dict}
use onto_ontological_context.Graph.{Graph, Edge}
use onto_ontological_context.Federation.Identity.{after, Ed25519, sign_json, verify_json}
use onto_ontological_context.Federation.Adapter.{Adapter, NodeInfo}

pub record Capabilities : Type 0 where
  pub federation_stage : String
  pub tools_available : List String
  pub edge_types_supported : List String
  pub max_classification : ℕ
  pub crisis_barrier : Bool
  pub consent_mode : String
  pub data_residency : List String
  pub rate_limit_per_min : ℕ

pub record VoidDescriptor : Type 0 where
  pub triples : ℕ
  pub nodes : ℕ
  pub predicates : List String

pub record Manifest : Type 0 where
  pub node_id : Option String
  pub onto_version : Option String
  pub spec_version : Option String
  pub signed_at : Option String
  pub capabilities : Option Capabilities
  pub void_descriptor : Option VoidDescriptor
  pub regulatory_profile : Option String
  pub min_peer_trust_score : Option ℕ
  pub max_graph_similarity : Option ℕ
  pub signature : Option String

-- What a manifest is made from: the configuration, the graph with the names of its types of edges,
-- and the time. Scores are in hundredths.
pub record Site : Type 0 where
  pub version : String
  pub iso_now : String
  pub stage : String
  pub tools : List String
  pub edge_types : List String
  pub used_edge_types : List String
  pub max_share_classification : ℕ
  pub consent_mode : String
  pub sorted_data_residency : List String
  pub max_msgs_per_peer_per_min : ℕ
  pub decay_profile : String
  pub max_similarity : ℕ
  pub graph : Graph

-- What is not of this code: JCS, base64 and JSON. The readers give none where they raise, and
-- loads does for an object without fields.
pub record Codec : Type 0 where
  pub jcs_encode : Manifest → List ℕ
  pub urlsafe_b64encode : List ℕ → String
  pub urlsafe_b64decode : String → Option (List ℕ)
  pub dumps : Manifest → String
  pub loads : String → Option Manifest

unfoldable pub live : List Edge → List Edge
live [] = []
live (e ∷ es) = if e.is_deleted then live es else e ∷ live es

unfoldable pub build_void_descriptor : Site → VoidDescriptor
unfolding live
build_void_descriptor site = record {
  triples = length (live site.graph.edges);
  nodes = length site.graph.nodes;
  predicates = site.used_edge_types;
}

unfoldable pub build_manifest_body : String → Site → Manifest
unfolding build_void_descriptor
build_manifest_body node_did site = record {
  node_id = some node_did;
  onto_version = some site.version;
  spec_version = some "FEDERATION-SPEC-001-v1.1";
  signed_at = some site.iso_now;
  capabilities = some (record {
    federation_stage = site.stage;
    tools_available = site.tools;
    edge_types_supported = site.edge_types;
    max_classification = site.max_share_classification;
    crisis_barrier = true;
    consent_mode = site.consent_mode;
    data_residency = site.sorted_data_residency;
    rate_limit_per_min = site.max_msgs_per_peer_per_min;
  });
  void_descriptor = some (build_void_descriptor site);
  regulatory_profile = some site.decay_profile;
  min_peer_trust_score = some 70;
  max_graph_similarity = some site.max_similarity;
  signature = none;
}

-- What `verify_manifest` answers.
pub data Judgement : Type 0 where
  valid incompatible_spec_version invalid_node_id signature_failed : Judgement
  missing_fields : List String → Judgement

unfoldable pub absent : {A : Type 0} → String → Option A → List String → List String
absent name none names = name ∷ names
absent name (some x) names = names

-- `sorted(missing)`
unfoldable pub missing : Manifest → List String
unfolding absent
missing m = absent "capabilities" m.capabilities (
    absent "node_id" m.node_id (
      absent "onto_version" m.onto_version (
        absent "signature" m.signature
          (absent "signed_at" m.signed_at (absent "spec_version" m.spec_version [])))))

unfoldable pub text : Option String → String
text none = ""
text (some s) = s

unfoldable pub starts_with : String → String → Bool
unfolding after
starts_with prefix s = elim (after (codes prefix) (codes s)) [ none ↦ false | some rest ↦ true ]

-- `caps.get("data_residency", [])`
unfoldable pub regions_in : Option Capabilities → List String
regions_in none = []
regions_in (some caps) = caps.data_residency

unfoldable pub extract_node_info : Manifest → String → ℕ → NodeInfo
unfolding text regions_in
extract_node_info m peer_endpoint current_trust = record {
  node_id = text m.node_id;
  endpoint = peer_endpoint;
  trust_score = current_trust;
  regions = regions_in m.capabilities;
}

module _ (lib : Ed25519) (codec : Codec) where
  unfoldable pub create_manifest : String → lib.PrivateKey → Site → Manifest
  unfolding build_manifest_body sign_json
  create_manifest node_did key site =
      let body : Manifest = build_manifest_body node_did site in
      record body {
        signature = some (codec.urlsafe_b64encode (sign_json lib codec.jcs_encode key body));
      }

  unfoldable pub verify_signature : Manifest → Option (List ℕ) → Judgement
  unfolding verify_json text
  verify_signature m none = signature_failed
  verify_signature m (some sig_bytes) =
      if verify_json lib codec.jcs_encode (codes (text m.node_id)) (record m { signature = none })
        sig_bytes
      then valid
      else signature_failed

  unfoldable pub verify_present : List String → Manifest → Judgement
  unfolding starts_with text verify_signature
  verify_present (name ∷ names) m = missing_fields (name ∷ names)
  verify_present [] m =
      if not (starts_with "FEDERATION-SPEC-001" (text m.spec_version))
      then incompatible_spec_version
      else if not (starts_with "did:key:" (text m.node_id))
      then invalid_node_id
      else verify_signature m (codec.urlsafe_b64decode (text m.signature))

  unfoldable pub verify_manifest : Manifest → Judgement
  unfolding missing verify_present
  verify_manifest m = verify_present (missing m) m

  unfoldable pub store_peer_manifest : String → Manifest → Dict String → Dict String
  unfolding Dict.set
  store_peer_manifest peer_did m manifests = Dict.set peer_did (codec.dumps m) manifests

  unfoldable pub get_peer_manifest : String → Dict String → Option Manifest
  unfolding Dict.get
  get_peer_manifest peer_did manifests = elim (Dict.get peer_did manifests) [
    | none ↦ none
    | some raw ↦ codec.loads raw
  ]

  -- `handshake` after the answer was verified
  unfoldable pub concluded : NodeInfo → Manifest → Judgement → Adapter → Bool × Adapter
  unfolding Dict.set Dict.get_or extract_node_info store_peer_manifest
  concluded peer m valid a = (
    true,
    record a {
      peers =
          Dict.set peer.node_id
            (extract_node_info m peer.endpoint (Dict.get_or peer.node_id 0 a.trust)) a.peers;
      manifests = store_peer_manifest peer.node_id m a.manifests;
    },
  )
  concluded peer m incompatible_spec_version a = (false, a)
  concluded peer m invalid_node_id a = (false, a)
  concluded peer m signature_failed a = (false, a)
  concluded peer m (missing_fields names) a = (false, a)

  -- `post` sends our manifest, and gives the one in the answer, or none if there is no answer
  unfoldable pub handshake :
      (String → Manifest → Option Manifest)
      → lib.PrivateKey
      → Site
      → NodeInfo
      → Adapter
      → Bool × Adapter
  unfolding create_manifest verify_manifest concluded
  handshake post key site peer a = elim (post peer.endpoint (create_manifest a.did key site)) [
    | none ↦ (false, a)
    | some m ↦ concluded peer m (verify_manifest m) a
  ]

  -- none if there is no manifest of the peer
  unfoldable pub verify_peer : NodeInfo → Adapter → Option Judgement
  unfolding get_peer_manifest verify_manifest
  verify_peer peer a = elim (get_peer_manifest peer.node_id a.manifests) [
    | none ↦ none
    | some m ↦ some (verify_manifest m)
  ]
