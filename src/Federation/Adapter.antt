-- ===== src/Federation/Adapter.antt =====
-- api/federation/local.py: LocalAdapter with what its operations change, the consents, the messages,
-- the graph and the trust in peers; and handle_message of its HTTP server, which hands a message that
-- arrives to _handle_inbound. Trust is in hundredths; the growth of trust, a formula over floats, is a
-- parameter, and so are the reachability of a peer and the first letters of its name. A manifest is the
-- text that is stored. Entries of the audit trail are left out.
pub mod Effects
pub mod Recall
pub mod Ingest
mod Tests
use Prim.Native.String.{◌++◌ as str_append}
use onto_ontological_context.Prelude.{
  ℕ, ◌+◌, ◌-◌, ◌*◌, min, String, Bool, true, false, ◌||◌, Option, none, some, List, [], ◌∷◌,
  if◌then◌else◌, str_eq, length,
}
use onto_ontological_context.Prelude.Dict
use onto_ontological_context.Prelude.Dict.{Dict}
use onto_ontological_context.Safety
use onto_ontological_context.Safety.{
  Value, string_value, dict_value, list_value, other_value, Fields, no_fields, field, Items,
  no_items, item, Verdict, check_outbound, check_inbound,
}
use onto_ontological_context.Graph.{Graph}
use onto_ontological_context.Graph.Relate
use onto_ontological_context.Graph.Relate.{Language, Package, relate, contains_crisis}
use onto_ontological_context.Federation.Audit.{
  Messages, RateState, RateAnswer, rate_ok, in_backoff, rate_exceeded, check_rate_limit,
  record_inbound,
}
use onto_ontological_context.Federation.Consent
use onto_ontological_context.Federation.Consent.{Consent, find_consent, is_valid, revoke}
use onto_ontological_context.Federation.Consent.Revoked.{permits}
use onto_ontological_context.Federation.Local
use onto_ontological_context.Federation.Local.{
  Message, Received, received_ok, received_duplicate, received_rejected, received_gap, share,
}

-- What is known of a peer; the regions are `data_residency_set`.
pub record NodeInfo : Type 0 where
  pub node_id : String
  pub endpoint : String
  pub trust_score : ℕ
  pub regions : List String

-- The state of the adapter, and the tables that it writes.
pub record Adapter : Type 0 where
  pub did : String
  pub peers : Dict NodeInfo
  pub trust : Dict ℕ
  pub consents : List Consent
  pub messages : Messages
  pub rates : RateState
  pub manifests : Dict String
  pub graph : Graph

-- A message to the HTTP server.
pub record Inbound : Type 0 where
  pub message_type : String
  pub message : Message
  pub consent_ids : List String
  pub manifest : Option String

pub data Reply : Type 0 where
  bad_request too_many_requests reply_ok reply_error rejected raised manifest_sent pong : Reply
  unknown_type : String → Reply
  gap retracted : ℕ → Reply

-- The configuration and the parts that are not of this code.
pub record World : Type 0 where
  pub language : Language
  pub relate_config : Relate.Config
  pub safety : Safety.Config
  pub rate_limit : ℕ
  pub first_letters : String → String
  pub characters : String → List String
  pub growth : ℕ → ℕ

-- `data.get("concepts", [])`
unfoldable pub get_field : String → Fields → Value
get_field key no_fields = list_value no_items
get_field key (field k v rest) = if str_eq k key then v else get_field key rest

unfoldable pub item_texts : Items → List String
item_texts no_items = []
item_texts (item (string_value s) rest) = s ∷ item_texts rest
item_texts (item other rest) = item_texts rest

unfoldable pub field_names : Fields → List String
field_names no_fields = []
field_names (field k v rest) = k ∷ field_names rest

-- the texts that `for concept in concepts` takes; none if it raises
unfoldable pub concept_texts : (String → List String) → Value → Option (List String)
unfolding item_texts field_names
concept_texts characters (list_value items) = some (item_texts items)
concept_texts characters (dict_value fields) = some (field_names fields)
concept_texts characters (string_value s) = some (characters s)
concept_texts characters other_value = none

-- What happens to a node: messages arrive, and the operator grants, recalls, shares and uses the
-- graph.
pub data Step : Type 0 where
  arrives : ℕ → Inbound → Step
  calls : Consent.Call → Step
  recalls : ℕ → String → Bool → Step
  shares : ℕ → String → Fields → String → Option String → Step
  relates : ℕ → Package → Step

module _ (w : World) where
  unfoldable pub ingest : ℕ → String → List String → Graph → Graph
  ingest now session [] g = g
  ingest now session (concept ∷ concepts) g =
      ingest now session concepts
        (relate w.language w.relate_config now
          (record { clean = some concept; raw = some concept; session_hash = some session }) g).1

  -- `receive` after the numbering and the gate, and for the texts that were accepted
  unfoldable pub accept : ℕ → Message → Messages → Option (List String) → Adapter → Reply × Adapter
  accept now msg stored none a = (
    raised,
    record a {
      messages =
          (record_inbound now msg.sender_did "SHARE" msg.sequence_id msg.payload_hash false none
            a.messages).1;
    },
  )
  accept now msg stored (some texts) a = (
    reply_ok,
    record a {
      messages = stored;
      graph = ingest now (str_append "fed:" (w.first_letters msg.sender_did)) texts a.graph;
    },
  )

  unfoldable pub receive_as : ℕ → Message → Received × Messages → Adapter → Reply × Adapter
  unfolding accept concept_texts get_field
  receive_as now msg (received_ok, stored) a =
      accept now msg stored (concept_texts w.characters (get_field "concepts" msg.data_fields)) a
  receive_as now msg (received_duplicate, stored) a = (reply_error, a)
  receive_as now msg (received_gap expected, stored) a = (gap expected, a)
  receive_as now msg (received_rejected, stored) a = (rejected, record a { messages = stored })

  unfoldable pub trust_in : String → Adapter → ℕ
  trust_in sender a = elim (Dict.get sender a.peers) [ none ↦ 0 | some peer ↦ peer.trust_score ]

  -- the name that a sender is known by, which is its own if it is not known
  unfoldable pub known_as : String → Adapter → String
  known_as sender a = elim (Dict.get sender a.peers) [ none ↦ sender | some peer ↦ peer.node_id ]

  unfoldable pub receive : ℕ → Message → Adapter → Reply × Adapter
  unfolding receive_as trust_in known_as Local.receive
  receive now msg a =
      let known : Message = record msg { sender_did = known_as msg.sender_did a } in
      receive_as now known
        (Local.receive (contains_crisis w.language) w.safety now (trust_in msg.sender_did a) known
          a.messages)
        a

  unfoldable pub retract : ℕ → List String → List Consent → List Consent
  unfolding revoke
  retract now [] ledger = ledger
  retract now (id ∷ ids) ledger = retract now ids (revoke now id "remote_retraction" ledger).1

  unfoldable pub store_manifest : String → Option String → Dict String → Dict String
  unfolding Dict.set
  store_manifest sender none manifests = manifests
  store_manifest sender (some manifest) manifests = Dict.set sender manifest manifests

  unfoldable pub handle_inbound : ℕ → Inbound → Adapter → Reply × Adapter
  unfolding receive retract store_manifest
  handle_inbound now i a =
      if str_eq i.message_type "HANDSHAKE"
      then (
        manifest_sent,
        record a { manifests = store_manifest i.message.sender_did i.manifest a.manifests },
      )
      else if str_eq i.message_type "SHARE"
      then receive now i.message a
      else if str_eq i.message_type "RETRACT"
      then (
        retracted (length i.consent_ids),
        record a { consents = retract now i.consent_ids a.consents },
      )
      else if str_eq i.message_type "PING"
      then (pong, a)
      else (unknown_type i.message_type, a)

  -- the rest of `_handle_message`, for the answer of the rate limit
  unfoldable pub limited : ℕ → Inbound → RateAnswer → Adapter → Reply × Adapter
  unfolding handle_inbound
  limited now i rate_ok a = handle_inbound now i a
  limited now i (in_backoff t) a = (too_many_requests, a)
  limited now i (rate_exceeded n t) a = (too_many_requests, a)

  unfoldable pub handle_message : ℕ → Inbound → Adapter → Reply × Adapter
  unfolding limited check_rate_limit
  handle_message now i a =
      let (answer, rates) = check_rate_limit w.rate_limit i.message.sender_did now a.rates in
      if str_eq i.message.sender_did "" || str_eq i.message_type ""
      then (bad_request, a)
      else limited now i answer (record a { rates = rates })

  unfoldable pub can_share : ℕ → String → ℕ → Bool → Bool → NodeInfo → String → Adapter → Verdict
  unfolding is_valid check_outbound
  can_share now text classification is_sensitive is_crisis peer consent_id a =
      check_outbound (contains_crisis w.language) w.safety (record {
        text = text;
        classification = classification;
        is_sensitive = is_sensitive;
        is_crisis = is_crisis;
        peer_trust_score = peer.trust_score;
        peer_regions = peer.regions;
        has_valid_consent = permits (is_valid now consent_id peer.node_id a.consents);
      })

  -- `_promote_trust`
  unfoldable pub promoted : ℕ → ℕ
  promoted current = min 95 (current + w.growth current)

  unfoldable pub set_trust : ℕ → String → Option NodeInfo → Dict NodeInfo → Dict NodeInfo
  unfolding Dict.set
  set_trust score peer_did none peers = peers
  set_trust score peer_did (some info) peers =
      Dict.set peer_did (record info { trust_score = score }) peers

  unfoldable pub promote_trust : String → Adapter → Adapter
  unfolding promoted set_trust Dict.get Dict.set Dict.get_or
  promote_trust peer_did a =
      let score = promoted (Dict.get_or peer_did w.safety.inbound_trust a.trust) in
      record a {
        trust = Dict.set peer_did score a.trust;
        peers = set_trust score peer_did (Dict.get peer_did a.peers) a.peers;
      }

  -- `share`, whose post fails with a reason or succeeds
  unfoldable pub share_with :
      ℕ → String → Fields → String → Option String → Adapter → Message × Adapter
  unfolding share promote_trust
  share_with now recipient data_fields payload_hash failure a =
      let (message, messages) =
        share now a.did recipient data_fields payload_hash failure a.messages in
      let sent : Adapter = record a { messages = messages } in
      (message, elim failure [ none ↦ promote_trust recipient sent | some reason ↦ sent ])

  -- the peers that were told, if the post to them does not fail
  unfoldable pub told : Bool → String → Option NodeInfo → List String
  told reachable recipient none = []
  told reachable recipient (some peer) = if reachable then recipient ∷ [] else []

  unfoldable pub recall : ℕ → String → Bool → Adapter → List String × Adapter
  unfolding find_consent revoke told Dict.get
  recall now consent_id reachable a = elim (find_consent consent_id a.consents) [
    | none ↦ ([], a)
    | some c ↦ (
      told reachable c.recipient_node (Dict.get c.recipient_node a.peers),
      record a { consents = (revoke now consent_id "operator_recall" a.consents).1 },
    )
  ]

  module _ (digest : Option String → String → ℕ → String) where
    unfoldable pub step : Step → Adapter → Adapter
    unfolding handle_message recall share_with Consent.perform relate
    step (arrives now i) a = (handle_message now i a).1
    step (calls c) a = record a { consents = Consent.perform digest c a.consents }
    step (recalls now id reachable) a = (recall now id reachable a).1
    step (shares now recipient data_fields hash failure) a =
        (share_with now recipient data_fields hash failure a).1
    step (relates now input) a = record a {
      graph = (relate w.language w.relate_config now input a.graph).1;
    }

    unfoldable pub run : List Step → Adapter → Adapter
    unfolding step
    run [] a = a
    run (s ∷ steps) a = run steps (step s a)
