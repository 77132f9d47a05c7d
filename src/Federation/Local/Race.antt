-- ===== src/Federation/Local/Race.antt =====
-- Two threads that handle copies of one message in `receive` of api/federation/local.py.
use onto_ontological_context.Prelude.{
  ℕ, ◌≡◌, refl, ap, ◌∙◌, String, Bool, true, false, none, [], ◌∷◌, ◌++◌, eq_refl,
}
use mathlib.Core.List.{append_assoc}
use onto_ontological_context.Safety.{Config, check_inbound}
use onto_ontological_context.Federation.Audit.{
  Messages, SequenceStatus, sequence_ok, validate_inbound_sequence, record_inbound, mark_processed,
}
use onto_ontological_context.Federation.Local.{
  Message, Received, received_ok, store_share, receive_as,
}
use onto_ontological_context.Federation.Local.Numbered.{
  accepted_ids, accepted_ids-append, process-keeps,
}

accepted_ids-store_share :
    (now : ℕ) (msg : Message) (m : Messages)
    → accepted_ids msg.sender_did (store_share true now msg m).1.inbox
      ≡ accepted_ids msg.sender_did m.inbox ++ msg.sequence_id ∷ []
unfolding store_share record_inbound mark_processed
accepted_ids-store_share now msg m =
    let (inbox_id, recorded) =
      record_inbound now msg.sender_did "SHARE" msg.sequence_id msg.payload_hash false none m in
    (process-keeps now m.next_inbox_id msg.sender_did recorded.inbox).0
    ∙ accepted_ids-append msg.sender_did m.inbox _
    ∙ ap (λ ids. accepted_ids msg.sender_did m.inbox ++ ids) (rw (eq_refl msg.sender_did) refl)

module _ (contains_crisis : String → Bool) (c : Config) where
  -- what the first thread and then the second do after both have checked the number
  abbrev pub both : ℕ → ℕ → ℕ → Message → Messages → (Received × Received) × Messages
  both now later trust_score msg m =
      let status = validate_inbound_sequence msg.sender_did msg.sequence_id m in
      let (first, between) = receive_as contains_crisis c status now trust_score msg m in
      let (second, after) = receive_as contains_crisis c status later trust_score msg between in
      ((first, second), after)

  accepts :
      (status : SequenceStatus) (now trust_score : ℕ) (msg : Message) (m : Messages)
      → status ≡ sequence_ok
      → (check_inbound contains_crisis c msg.data_fields trust_score).0 ≡ true
      → receive_as contains_crisis c status now trust_score msg m ≡ store_share true now msg m
  unfolding receive_as
  accepts status now trust_score msg m valid allowed = rw (valid, allowed) refl

  -- If a message is in order and passes the gate, two threads that check its number before either
  -- stores it both accept it, and its number is accepted twice.
  pub receive_as-raced :
      (now later trust_score : ℕ) (msg : Message) (m : Messages)
      → validate_inbound_sequence msg.sender_did msg.sequence_id m ≡ sequence_ok
      → (check_inbound contains_crisis c msg.data_fields trust_score).0 ≡ true
      → ((both now later trust_score msg m).0 ≡ (received_ok, received_ok))
        × (accepted_ids msg.sender_did (both now later trust_score msg m).1.inbox
            ≡ accepted_ids msg.sender_did m.inbox ++ msg.sequence_id ∷ msg.sequence_id ∷ [])
  unfolding store_share
  receive_as-raced now later trust_score msg m valid allowed =
      let status = validate_inbound_sequence msg.sender_did msg.sequence_id m in
      let between = (store_share true now msg m).1 in
      let one = accepts status now trust_score msg m valid allowed in
      let two = accepts status later trust_score msg between valid allowed in
      rw (one, two)
        (
          refl,
          accepted_ids-store_share later msg between
              ∙ ap (λ ids. ids ++ msg.sequence_id ∷ []) (accepted_ids-store_share now msg m)
              ∙ append_assoc (accepted_ids msg.sender_did m.inbox) (msg.sequence_id ∷ [])
                  (msg.sequence_id ∷ []),
        )
