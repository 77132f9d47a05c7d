-- ===== src/Federation/Adapter/Recall.antt =====
-- A consent that was recalled by api/federation/local.py, or retracted by a message, is gone for good.
use onto_ontological_context.Prelude.{
  ℕ, ◌≡◌, refl, ap, sym, ◌∙◌, inl, inr, String, Bool, true, false, Option, none, some, List, [],
  ◌∷◌, ◌++◌, arith, str_eq,
}
use onto_ontological_context.Safety.{passed}
use onto_ontological_context.Safety.Barriers.{check_outbound-Permitted}
use onto_ontological_context.Graph.Relate.{contains_crisis}
use onto_ontological_context.Federation.Audit.{rate_ok, check_rate_limit}
use onto_ontological_context.Federation.Consent
use onto_ontological_context.Federation.Consent.{
  Consent, find_consent, is_some, revoke, is_live, is_valid, do_revoke, perform, perform_all,
}
use onto_ontological_context.Federation.Consent.Revoked.{revoke-final}
use onto_ontological_context.Federation.Adapter.{
  Adapter, Inbound, NodeInfo, World, Step, arrives, calls, recalls, shares, relates, retract,
  recall, share_with, handle_message, handle_inbound, limited, can_share, step, run,
}
use onto_ontological_context.Federation.Adapter.Effects.{handle_message-Changes}

module _ (w : World) (digest : Option String → String → ℕ → String) where
  -- The ledger of a node after what it did, as calls on the ledger.
  abbrev Called : List Consent → List Consent → Type 0
  Called before after = (cs : List Consent.Call) × (after ≡ perform_all digest cs before)

  perform_all-append :
      (cs ds : List Consent.Call) (ledger : List Consent)
      → perform_all digest (cs ++ ds) ledger ≡ perform_all digest ds (perform_all digest cs ledger)
  unfolding perform_all
  perform_all-append [] ds ledger = refl
  perform_all-append (c ∷ cs) ds ledger = perform_all-append cs ds (perform digest c ledger)

  retract-Called :
      (now : ℕ) (ids : List String) (ledger : List Consent)
      → Called ledger (retract w now ids ledger)
  unfolding retract perform_all perform
  retract-Called now [] ledger = ([], refl)
  retract-Called now (id ∷ ids) ledger =
      let (cs, same) = retract-Called now ids (revoke now id "remote_retraction" ledger).1 in
      (do_revoke now id "remote_retraction" ∷ cs, same)

  -- Of a consent that is not there there is nothing to revoke.
  recall-consents :
      (now : ℕ) (id : String) (reachable : Bool) (a : Adapter)
      → (recall w now id reachable a).1.consents ≡ (revoke now id "operator_recall" a.consents).1
  unfolding recall revoke is_live
  recall-consents now id reachable a = ground arith

  recall-Called :
      (now : ℕ) (id : String) (reachable : Bool) (a : Adapter)
      → Called a.consents (recall w now id reachable a).1.consents
  unfolding perform_all perform
  recall-Called now id reachable a =
      (do_revoke now id "operator_recall" ∷ [], recall-consents now id reachable a)

  retract-consents :
      (now : ℕ) (id : String) (ids : List String) (i : Inbound) (a : Adapter)
      → (str_eq i.message.sender_did "") ≡ false
      → (check_rate_limit w.rate_limit i.message.sender_did now a.rates).0 ≡ rate_ok
      → i.message_type ≡ "RETRACT"
      → i.consent_ids ≡ id ∷ ids
      → (handle_message w now i a).1.consents
        ≡ retract w now ids (revoke now id "remote_retraction" a.consents).1
  unfolding handle_message limited handle_inbound retract
  retract-consents now id ids i a sender limit kind named = rw (sender, kind, limit, named) refl

  step-Called : (s : Step) (a : Adapter) → Called a.consents (step w digest s a).consents
  unfolding step share_with perform_all
  step-Called (arrives now i) a = elim (handle_message-Changes w now i a) [
    | inl ingested ↦ ([], ingested.0)
    | inr retracted ↦
        let (cs, same) = retract-Called now retracted.1 a.consents in (cs, retracted.2 ∙ same)
  ]
  step-Called (calls c) a = (c ∷ [], refl)
  step-Called (recalls now id reachable) a = recall-Called now id reachable a
  step-Called (shares now recipient sent hash none) a = ([], refl)
  step-Called (shares now recipient sent hash (some reason)) a = ([], refl)
  step-Called (relates now input) a = ([], refl)

  run-Called : (steps : List Step) (a : Adapter) → Called a.consents (run w digest steps a).consents
  unfolding run perform_all
  run-Called [] a = ([], refl)
  run-Called (s ∷ steps) a =
      let (cs, first) = step-Called s a in
      let (ds, rest) = run-Called steps (step w digest s a) in
      (
        cs ++ ds,
        rest ∙ ap (perform_all digest ds) first ∙ sym (perform_all-append cs ds a.consents),
      )

  -- Nothing is shared under a consent that was revoked, whatever the node does afterwards.
  revoked-refused :
      (now later : ℕ) (id reason text : String) (sensitive crisis : Bool) (level : ℕ)
      (peer : NodeInfo) (cs : List Consent.Call) (ledger : List Consent) (a : Adapter)
      → is_some (find_consent id ledger) ≡ true
      → a.consents ≡ perform_all digest cs (revoke now id reason ledger).1
      → ¬ (can_share w later text level sensitive crisis peer id a ≡ passed)
  unfolding can_share
  revoked-refused now later id reason text sensitive crisis level peer cs ledger a there same
        shared =
      let permitted = (check_outbound-Permitted (contains_crisis w.language) w.safety _).0 shared in
      let final = revoke-final digest id reason peer.node_id now later cs ledger there in
      ground (arith, permitted.consent, final, ap (is_valid later id peer.node_id) same)

  -- After a recall of a consent that the node has, whether its peer is reached or not, nothing is shared
  -- under it any more: can_share refuses it for every peer, text, classification and flags, at any
  -- time, whatever messages arrive afterwards and whatever the operator grants, recalls, shares and
  -- relates.
  pub recall-final :
      (now later : ℕ) (id text : String) (reachable sensitive crisis : Bool) (level : ℕ)
      (peer : NodeInfo) (steps : List Step) (a : Adapter)
      → is_some (find_consent id a.consents) ≡ true
      → ¬ (
          can_share w later text level sensitive crisis peer id
            (run w digest steps (recall w now id reachable a).1)
          ≡ passed)
  recall-final now later id text reachable sensitive crisis level peer steps a there =
      let after : Adapter = (recall w now id reachable a).1 in
      let (cs, same) = run-Called steps after in
      revoked-refused now later id "operator_recall" text sensitive crisis level peer cs a.consents
        (run w digest steps after) there
        (same ∙ ap (perform_all digest cs) (recall-consents now id reachable a))

  -- Any sender can do the same to a consent of the node, without having to do with it: after a message
  -- RETRACT that the rate limit lets through and that names it first, whoever sent it, nothing is
  -- shared under this consent any more.
  pub retract-final :
      (now later : ℕ) (id text : String) (ids : List String) (i : Inbound) (sensitive crisis : Bool)
      (level : ℕ) (peer : NodeInfo) (steps : List Step) (a : Adapter)
      → is_some (find_consent id a.consents) ≡ true
      → (str_eq i.message.sender_did "") ≡ false
      → (check_rate_limit w.rate_limit i.message.sender_did now a.rates).0 ≡ rate_ok
      → i.message_type ≡ "RETRACT"
      → i.consent_ids ≡ id ∷ ids
      → ¬ (
          can_share w later text level sensitive crisis peer id
            (run w digest steps (handle_message w now i a).1)
          ≡ passed)
  retract-final now later id text ids i sensitive crisis level peer steps a there sender limit kind
        named =
      let after : Adapter = (handle_message w now i a).1 in
      let (cs, same) = run-Called steps after in
      let (ds, others) = retract-Called now ids (revoke now id "remote_retraction" a.consents).1 in
      revoked-refused now later id "remote_retraction" text sensitive crisis level peer (ds ++ cs)
        a.consents (run w digest steps after) there
        (same
          ∙ ap (perform_all digest cs)
              (retract-consents now id ids i a sender limit kind named ∙ others)
          ∙ sym (perform_all-append ds cs (revoke now id "remote_retraction" a.consents).1))
