-- ===== src/Federation/Local.antt =====
-- api/federation/local.py: the numbering of the messages that `share` sends and `receive` takes, with
-- the gate of safety.py. Whether a message arrives is an argument. What `receive` does with the
-- concepts of an accepted message, which goes to `relate`, and the entries of the audit trail are
-- left out.
pub mod Numbered
pub mod Race
mod Tests
use onto_ontological_context.Prelude.{
  ℕ, ◌+◌, ◌-◌, String, Bool, true, false, not, Option, none, some, List, [], ◌∷◌, if◌then◌else◌,
}
use onto_ontological_context.Safety.{Fields, Config, check_inbound}
use onto_ontological_context.Federation.Audit.{
  Messages, SequenceStatus, sequence_ok, sequence_gap, sequence_duplicate,
  validate_inbound_sequence, record_outbound, mark_sent, mark_failed, record_inbound,
  mark_processed,
}

-- The messages of `share`: the number is the id of the row in the outbox.
pub record Message : Type 0 where
  pub sender_did : String
  pub sequence_id : ℕ
  pub data_fields : Fields
  pub payload_hash : String

-- What `receive` returns.
pub data Received : Type 0 where
  received_ok received_duplicate received_rejected : Received
  received_gap : ℕ → Received

-- `share` of a payload, whose post fails with a reason or succeeds
unfoldable pub share :
    ℕ → String → String → Fields → String → Option String → Messages → Message × Messages
share now did recipient data_fields payload_hash failure m =
    let (outbox_id, recorded) = record_outbound now recipient "SHARE" payload_hash m in
    (
      record {
        sender_did = did;
        sequence_id = outbox_id;
        data_fields = data_fields;
        payload_hash = payload_hash;
      },
      elim failure [
        | none ↦ mark_sent now outbox_id recorded
        | some reason ↦ mark_failed now outbox_id reason recorded
      ],
    )

-- the rest of `receive`, for a number that is in order and the answer of the gate
unfoldable pub store_share : Bool → ℕ → Message → Messages → Received × Messages
store_share true now msg m =
    let (inbox_id, recorded) =
      record_inbound now msg.sender_did "SHARE" msg.sequence_id msg.payload_hash false none m in
    (received_ok, mark_processed now inbox_id recorded)
store_share false now msg m =
    let (inbox_id, recorded) =
      record_inbound now msg.sender_did "SHARE" msg.sequence_id msg.payload_hash true
        (some "safety_gate") m in
    (received_rejected, recorded)

module _ (contains_crisis : String → Bool) (c : Config) where
  -- `receive` for each answer of the numbering
  unfoldable pub receive_as : SequenceStatus → ℕ → ℕ → Message → Messages → Received × Messages
  receive_as sequence_duplicate now trust_score msg m = (received_duplicate, m)
  receive_as sequence_gap now trust_score msg m = (received_gap (msg.sequence_id - 1), m)
  receive_as sequence_ok now trust_score msg m =
      store_share (check_inbound contains_crisis c msg.data_fields trust_score).0 now msg m

  -- `receive`, if no other thread of the server comes between the check of the number and the insert,
  -- which no lock prevents; a thread that others come before goes on with `receive_as`
  unfoldable pub receive : ℕ → ℕ → Message → Messages → Received × Messages
  receive now trust_score msg m =
      receive_as (validate_inbound_sequence msg.sender_did msg.sequence_id m) now trust_score msg m

  -- the messages that arrive and are handled one after another, with the time and the trust score of the sender
  unfoldable pub receive_all : List (ℕ × ℕ × Message) → Messages → Messages
  receive_all [] m = m
  receive_all ((now, trust_score, msg) ∷ arrivals) m =
      receive_all arrivals (receive now trust_score msg m).1
