-- ===== src/Federation/PeerStore/Tests.antt =====
-- Runs of the model of api/federation/peer_store.py, and its theorem at concrete inputs.
use onto_ontological_context.Prelude.{◌≡◌, refl, List, [], ◌∷◌, none, String}
use onto_ontological_context.Federation.PeerStore.{
  Call, pin, check, approve, cert_changed, verify_cert, get_peer_cert, perform_all,
}
use onto_ontological_context.Federation.PeerStore.Trusted.{
  judged, trust_of, trusts_all, verify_cert-judged,
}

abbrev digest : String → String
digest pem = pem

-- A second certificate is not pinned; the operator approves a third.
abbrev history : List Call
history =
    pin 1 "ann" "c1" "s" ∷ pin 2 "ann" "c2" "s" ∷ check 3 "ann" "c2" ∷ approve 4 "ann" "c3" "s" ∷ []

second_refused : (verify_cert digest 5 "ann" "c2" (perform_all digest history [])).0 ≡ cert_changed
unfolding verify_cert perform_all
second_refused = refl

verify_cert-judged_example :
    ((verify_cert digest 5 "ann" "c2" (perform_all digest history [])).0
      ≡ judged (digest "c2") (trusts_all digest "ann" history none))
    × (trust_of (get_peer_cert digest "ann" (perform_all digest history []))
        ≡ trusts_all digest "ann" history none)
verify_cert-judged_example = verify_cert-judged digest "ann" history 5 "c2"
