-- ===== src/Federation/Capability/Handshake.antt =====
-- Whom a handshake of api/federation/local.py trusts.
use onto_ontological_context.Prelude.{
  ℕ, ◌≡◌, refl, String, true, Option, some, List, [], codes, eq_iff, arith,
}
use onto_ontological_context.Prelude.Dict
use onto_ontological_context.Prelude.Dict.{Dict}
use onto_ontological_context.Federation.Identity.{
  Ed25519, public_key_bytes_to_did, sign, sign_json, verify_json, after,
}
use onto_ontological_context.Federation.Identity.RoundTrip.{IsBytes}
use onto_ontological_context.Federation.Identity.Names.{verify_json-sign_json}
use onto_ontological_context.Federation.Adapter.{Adapter, NodeInfo}
use onto_ontological_context.Federation.Capability.{
  Codec, Manifest, Site, valid, build_manifest_body, starts_with, create_manifest, verify_signature,
  verify_present, verify_manifest, concluded, get_peer_manifest, store_peer_manifest,
  extract_node_info, handshake, verify_peer, text, regions_in,
}

module _ (lib : Ed25519) (codec : Codec)
    (bytes : (key : lib.PrivateKey) → IsBytes (lib.public_bytes key))
    (signs : (key : lib.PrivateKey) (message : List ℕ)
      → lib.verifies (lib.public_bytes key) message (lib.sign_with key message) ≡ true)
    (base64 : (key : lib.PrivateKey) (message : List ℕ)
      → codec.urlsafe_b64decode (codec.urlsafe_b64encode (lib.sign_with key message))
        ≡ some (lib.sign_with key message)) where
  signed :
      (did : String) (key : lib.PrivateKey) (m : Manifest)
      → codes did ≡ public_key_bytes_to_did (lib.public_bytes key)
      → verify_json lib codec.jcs_encode (codes did) m (sign_json lib codec.jcs_encode key m) ≡ true
  signed did key m named =
      rw named (verify_json-sign_json lib codec.jcs_encode bytes signs key m m []).0

  begins :
      (did : String) (key : lib.PrivateKey)
      → codes did ≡ public_key_bytes_to_did (lib.public_bytes key)
      → starts_with "did:key:" did ≡ true
  unfolding starts_with after public_key_bytes_to_did
  begins did key named = rw (named, starts_with) refl

  verify_manifest-create_manifest :
      (did : String) (key : lib.PrivateKey) (site : Site)
      → codes did ≡ public_key_bytes_to_did (lib.public_bytes key)
      → verify_manifest lib codec (create_manifest lib codec did key site) ≡ valid
  unfolding verify_manifest verify_present verify_signature create_manifest build_manifest_body
      sign_json sign
  verify_manifest-create_manifest did key site named =
      rw
        (
          begins did key named,
          base64 key (codec.jcs_encode (build_manifest_body did site)),
          signed did key (build_manifest_body did site) named,
        )
        refl

  get-stored : {V : Type 0} (k : String) (v : V) (d : Dict V) → Dict.get k (Dict.set k v d) ≡ some v
  get-stored k v d = ground (arith, Dict.get-set k k v d, eq_iff k k)

  handshake-concluded :
      (post : String → Manifest → Option Manifest) (key : lib.PrivateKey) (site : Site)
      (peer : NodeInfo) (a : Adapter) (m : Manifest)
      → post peer.endpoint (create_manifest lib codec a.did key site) ≡ some m
      → verify_manifest lib codec m ≡ valid
      → handshake lib codec post key site peer a ≡ concluded lib codec peer m valid a
  unfolding handshake
  handshake-concluded post key site peer a m answers ok = rw (answers, handshake, ok) refl

  get-store_peer_manifest :
      (peer_did : String) (m : Manifest) (manifests : Dict String)
      → codec.loads (codec.dumps m) ≡ some m
      → get_peer_manifest lib codec peer_did (store_peer_manifest lib codec peer_did m manifests)
        ≡ some m
  unfolding get_peer_manifest store_peer_manifest
  get-store_peer_manifest peer_did m manifests json =
      rw (get-stored peer_did (codec.dumps m) manifests, get_peer_manifest) json

  verify_peer-concluded :
      (peer : NodeInfo) (m : Manifest) (a : Adapter)
      → codec.loads (codec.dumps m) ≡ some m
      → verify_manifest lib codec m ≡ valid
      → verify_peer lib codec peer (concluded lib codec peer m valid a).1 ≡ some valid
  unfolding verify_peer concluded
  verify_peer-concluded peer m a json ok =
      rw (get-store_peer_manifest peer.node_id m a.manifests json, verify_peer, ok) refl

  -- A handshake with a peer that answers with a manifest signed with any key whatever succeeds, if the
  -- library verifies what it signs and the codecs read back what they wrote: the peer is then known under the name that
  -- the manifest gives, with its regions and the trust the peer had, and its manifest verifies.
  pub handshake-signed :
      (key own : lib.PrivateKey) (did : String) (theirs ours : Site)
      (post : String → Manifest → Option Manifest) (peer : NodeInfo) (a : Adapter)
      → codes did ≡ public_key_bytes_to_did (lib.public_bytes key)
      → post peer.endpoint (create_manifest lib codec a.did own ours)
        ≡ some (create_manifest lib codec did key theirs)
      → (let m : Manifest = create_manifest lib codec did key theirs in
          codec.loads (codec.dumps m) ≡ some m)
      → let result = handshake lib codec post own ours peer a in
        (result.0 ≡ true)
        × (Dict.get peer.node_id result.1.peers
            ≡ some (record {
              node_id = did;
              endpoint = peer.endpoint;
              trust_score = Dict.get_or peer.node_id 0 a.trust;
              regions = theirs.sorted_data_residency;
            }))
        × (verify_peer lib codec peer result.1 ≡ some valid)
  unfolding concluded extract_node_info create_manifest build_manifest_body text regions_in
  handshake-signed key own did theirs ours post peer a named answers json =
      let m : Manifest = create_manifest lib codec did key theirs in
      let ok = verify_manifest-create_manifest did key theirs named in
      rw (handshake-concluded post own ours peer a m answers ok) (
        refl,
        get-stored peer.node_id
            (extract_node_info m peer.endpoint (Dict.get_or peer.node_id 0 a.trust)) a.peers,
        verify_peer-concluded peer m a json ok,
      )
