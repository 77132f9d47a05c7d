-- ===== src/Federation/PeerStore/Trusted.antt =====
-- Which certificate of a peer api/federation/peer_store.py takes, after any calls.
use onto_ontological_context.Prelude.{
  ℕ, ◌+◌, ◌≡◌, refl, ap, ◌∙◌, String, Option, none, some, List, [], ◌∷◌, if◌then◌else◌, str_eq,
  arith, eq_iff,
}
use onto_ontological_context.Prelude.Dict
use onto_ontological_context.Prelude.Dict.{Dict, get-set, get-remove}
use onto_ontological_context.Federation.PeerStore.{
  PinnedCert, Status, unknown, valid, cert_changed, compare_hash, pin_cert, verify_cert,
  approve_cert_change, remove_peer, get_peer_cert, Call, pin, check, approve, drop, perform,
  perform_all,
}

-- Trust in a peer: the hash that it is known by, and how often the operator has approved a change.
abbrev pub Trust : Type 0
Trust = Option (String × ℕ)

-- the first certificate is trusted
abbrev pub first_use : String → Trust → Trust
first_use hash none = some (hash, 0)
first_use hash (some t) = some t

abbrev pub rotated : String → Trust → Trust
rotated hash none = none
rotated hash (some (old, n)) = some (hash, n + 1)

-- What a sender's certificate is, by the trust in it.
abbrev pub judged : String → Trust → Status
judged hash none = unknown
judged hash (some (trusted, n)) = if str_eq hash trusted then valid else cert_changed

abbrev pub trust_of : Option PinnedCert → Trust
trust_of none = none
trust_of (some row) = some (row.cert_hash, row.rotation_count)

module _ (sha256 : String → String) (peer : String) where
  -- what a call does to the trust in the peer: only calls about it do anything
  abbrev pub trusts : Call → Trust → Trust
  trusts (pin now other cert session) t = if str_eq other peer then first_use (sha256 cert) t else t
  trusts (check now other cert) t = t
  trusts (approve now other cert session) t =
      if str_eq other peer then rotated (sha256 cert) t else t
  trusts (drop other) t = if str_eq other peer then none else t

  abbrev pub trusts_all : List Call → Trust → Trust
  trusts_all [] t = t
  trusts_all (call ∷ calls) t = trusts_all calls (trusts call t)

  trust_of-perform :
      (call : Call) (store : Dict PinnedCert)
      → trust_of (Dict.get peer (perform sha256 call store))
        ≡ trusts call (trust_of (Dict.get peer store))
  unfolding perform pin_cert verify_cert approve_cert_change remove_peer
  trust_of-perform (pin now other cert session) store =
      grind (arith, eq_iff other peer, get-set {V = PinnedCert} peer other)
  trust_of-perform (check now other cert) store =
      grind (arith, eq_iff other peer, get-set {V = PinnedCert} peer other)
  trust_of-perform (approve now other cert session) store =
      grind (arith, eq_iff other peer, get-set {V = PinnedCert} peer other)
  trust_of-perform (drop other) store =
      grind (arith, eq_iff other peer, get-remove peer other store)

  judged_row :
      (now : ℕ) (cert : String) (store : Dict PinnedCert)
      → (verify_cert sha256 now peer cert store).0
        ≡ judged (sha256 cert) (trust_of (Dict.get peer store))
  unfolding verify_cert compare_hash
  judged_row now cert store = ground arith

  trust_of-perform_all :
      (calls : List Call) (store : Dict PinnedCert)
      → trust_of (Dict.get peer (perform_all sha256 calls store))
        ≡ trusts_all calls (trust_of (Dict.get peer store))
  unfolding perform_all
  trust_of-perform_all [] store = refl
  trust_of-perform_all (call ∷ calls) store =
      trust_of-perform_all calls (perform sha256 call store)
      ∙ ap (trusts_all calls) (trust_of-perform call store)

  -- After any calls on the empty table, a certificate of a peer is judged by the first one that was
  -- pinned since the peer was last removed, or by the last change that was approved after that,
  -- whatever certificates were presented, pinned or approved otherwise; and the row of the peer, if
  -- there is one, counts these approvals.
  pub verify_cert-judged :
      (calls : List Call) (now : ℕ) (cert : String)
      → let store : Dict PinnedCert = perform_all sha256 calls [] in
        let trust : Trust = trusts_all calls none in
        ((verify_cert sha256 now peer cert store).0 ≡ judged (sha256 cert) trust)
        × (trust_of (get_peer_cert sha256 peer store) ≡ trust)
  unfolding get_peer_cert Dict.get
  verify_cert-judged calls now cert =
      let store : Dict PinnedCert = perform_all sha256 calls [] in
      let same = trust_of-perform_all calls [] in
      (judged_row now cert store ∙ ap (judged (sha256 cert)) same, same)
