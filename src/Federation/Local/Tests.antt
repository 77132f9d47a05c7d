-- ===== src/Federation/Local/Tests.antt =====
-- Runs of the model of api/federation/local.py, and its theorems at concrete inputs.
use onto_ontological_context.Prelude.{ℕ, ◌≡◌, refl, false, List, [], ◌∷◌}
use onto_ontological_context.Safety.{Config, no_fields}
use onto_ontological_context.Federation.Audit.{no_messages, max_seen}
use onto_ontological_context.Federation.Local.{Message, receive_all}
use onto_ontological_context.Federation.Local.Numbered.{accepted_ids, up_to, receive_all-numbered}

abbrev settings : Config
settings = record {
  max_share_classification = 2;
  sensitive_trust_threshold = 80;
  inbound_trust = 30;
  data_residency = [];
}

abbrev message : ℕ → Message
message id = record {
  sender_did = "ann";
  sequence_id = id;
  data_fields = no_fields;
  payload_hash = "h";
}

-- The second message comes early and is lost, then all come in order, and one twice.
abbrev arrivals : List (ℕ × ℕ × Message)
arrivals = (1, 30, message 2) ∷ (2, 30, message 1) ∷ (3, 30, message 2) ∷ (4, 30, message 2) ∷ []

receive_all-numbered_example :
    accepted_ids "ann" (receive_all (λ text. false) settings arrivals no_messages).inbox
    ≡ up_to (max_seen "ann" (receive_all (λ text. false) settings arrivals no_messages).inbox)
unfolding max_seen
receive_all-numbered_example =
    receive_all-numbered (λ text. false) settings arrivals "ann" no_messages refl
