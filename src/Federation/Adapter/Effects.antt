-- ===== src/Federation/Adapter/Effects.antt =====
-- What a message that arrives can change of a node, by api/federation/local.py.
use onto_ontological_context.Prelude.{
  ℕ, ◌≡◌, ◌⊎◌, refl, inl, inr, String, Option, none, some, List, [], ◌||◌, str_eq, Bool-cases,
}
use onto_ontological_context.Federation.Audit.{
  Messages, RateAnswer, rate_ok, in_backoff, rate_exceeded,
}
use onto_ontological_context.Federation.Local.{
  Message, Received, received_ok, received_duplicate, received_rejected, received_gap,
}
use onto_ontological_context.Federation.Adapter.{
  Adapter, Inbound, World, ingest, accept, receive_as, receive, retract, handle_inbound, limited,
  handle_message,
}

module _ (w : World) where
  -- texts are related, and the consents stay
  abbrev pub Ingests : ℕ → Adapter → Adapter → Type 0
  Ingests now a b =
      (b.consents ≡ a.consents)
      × (session : String) × (texts : List String) × (b.graph ≡ ingest w now session texts a.graph)

  -- consents are revoked, and the graph stays
  abbrev pub Retracts : ℕ → Adapter → Adapter → Type 0
  Retracts now a b =
      (b.graph ≡ a.graph) × (ids : List String) × (b.consents ≡ retract w now ids a.consents)

  -- every message does one of these, perhaps with nothing
  abbrev pub Changes : ℕ → Adapter → Adapter → Type 0
  Changes now a b = Ingests now a b ⊎ Retracts now a b

  accept-Ingests :
      (now : ℕ) (msg : Message) (stored : Messages) (texts : Option (List String)) (a : Adapter)
      → Ingests now a (accept w now msg stored texts a).1
  unfolding accept ingest
  accept-Ingests now msg stored none a = (refl, "", [], refl)
  accept-Ingests now msg stored (some texts) a = (refl, _, texts, refl)

  receive_as-Ingests :
      (now : ℕ) (msg : Message) (answer : Received × Messages) (a : Adapter)
      → Ingests now a (receive_as w now msg answer a).1
  unfolding receive_as ingest
  receive_as-Ingests now msg (received_ok, stored) a = accept-Ingests now msg stored _ a
  receive_as-Ingests now msg (received_duplicate, stored) a = (refl, "", [], refl)
  receive_as-Ingests now msg (received_gap expected, stored) a = (refl, "", [], refl)
  receive_as-Ingests now msg (received_rejected, stored) a = (refl, "", [], refl)

  receive-Ingests : (now : ℕ) (msg : Message) (a : Adapter) → Ingests now a (receive w now msg a).1
  unfolding receive
  receive-Ingests now msg a = search receive_as-Ingests

  nothing : (now : ℕ) (a : Adapter) → Changes now a a
  unfolding ingest
  nothing now a = inl (refl, "", [], refl)

  handle_inbound-Changes :
      (now : ℕ) (i : Inbound) (a : Adapter) → Changes now a (handle_inbound w now i a).1
  unfolding handle_inbound
  handle_inbound-Changes now i a = elim (Bool-cases (str_eq i.message_type "HANDSHAKE")) [
    | inl e ↦ rw e (nothing now a)
    | inr e ↦ rw e (elim (Bool-cases (str_eq i.message_type "SHARE")) [
      | inl f ↦ rw f (inl (receive-Ingests now i.message a))
      | inr f ↦ rw f (elim (Bool-cases (str_eq i.message_type "RETRACT")) [
        | inl g ↦ rw g (inr (refl, i.consent_ids, refl))
        | inr g ↦ rw g (elim (Bool-cases (str_eq i.message_type "PING")) [
          | inl h ↦ rw h (nothing now a)
          | inr h ↦ rw h (nothing now a)
        ])
      ])
    ])
  ]

  limited-Changes :
      (now : ℕ) (i : Inbound) (answer : RateAnswer) (a : Adapter)
      → Changes now a (limited w now i answer a).1
  unfolding limited
  limited-Changes now i rate_ok a = handle_inbound-Changes now i a
  limited-Changes now i (in_backoff t) a = nothing now a
  limited-Changes now i (rate_exceeded n t) a = nothing now a

  pub handle_message-Changes :
      (now : ℕ) (i : Inbound) (a : Adapter) → Changes now a (handle_message w now i a).1
  unfolding handle_message
  handle_message-Changes now i a =
      elim (Bool-cases (str_eq i.message.sender_did "" || str_eq i.message_type "")) [
        | inl e ↦ rw e (nothing now a)
        | inr e ↦ rw e (limited-Changes now i _ _)
      ]
