-- ===== src/Federation/PeerStore.antt =====
-- api/federation/peer_store.py: the table federation_peer_certs, with at most one row for a peer.
-- SHA-256 is a parameter. The entries of the audit trail and errors of the database are left out.
pub mod Trusted
mod Tests
use onto_ontological_context.Prelude.{
  ℕ, ◌+◌, String, Bool, true, false, Option, none, some, List, [], ◌∷◌, if◌then◌else◌, str_eq,
}
use onto_ontological_context.Prelude.Dict
use onto_ontological_context.Prelude.Dict.{Dict}

pub record PinnedCert : Type 0 where
  pub cert_hash : String
  pub pinned_at : ℕ
  pub pinned_by : String
  pub last_seen : ℕ
  pub rotation_count : ℕ

-- The first part of the answer of `verify_cert`.
pub data Status : Type 0 where
  unknown valid cert_changed : Status

unfoldable pub compare_hash : String → String → Status
compare_hash current pinned = if str_eq current pinned then valid else cert_changed

-- The operations, to make sequences of them.
pub data Call : Type 0 where
  pin : ℕ → String → String → String → Call
  check : ℕ → String → String → Call
  approve : ℕ → String → String → String → Call
  drop : String → Call

module _ (sha256 : String → String) where
  -- a first certificate
  unfoldable pub pin_cert : ℕ → String → String → String → Dict PinnedCert → Bool × Dict PinnedCert
  unfolding Dict.get Dict.set
  pin_cert now peer_did cert_pem session_hash store = elim (Dict.get peer_did store) [
    | some existing ↦ (false, store)
    | none ↦ (
      true,
      Dict.set peer_did
          (record {
            cert_hash = sha256 cert_pem;
            pinned_at = now;
            pinned_by = session_hash;
            last_seen = now;
            rotation_count = 0;
          })
          store,
    )
  ]

  -- the status and the hash of the certificate; a peer that is known was seen now
  unfoldable pub verify_cert :
      ℕ → String → String → Dict PinnedCert → Status × Option String × Dict PinnedCert
  unfolding Dict.get Dict.set compare_hash
  verify_cert now peer_did cert_pem store = elim (Dict.get peer_did store) [
    | none ↦ (unknown, none, store)
    | some row ↦ (
      compare_hash (sha256 cert_pem) row.cert_hash,
      some (sha256 cert_pem),
      Dict.set peer_did (record row { last_seen = now }) store,
    )
  ]

  -- a change that the operator has approved
  unfoldable pub approve_cert_change :
      ℕ → String → String → String → Dict PinnedCert → Bool × Dict PinnedCert
  unfolding Dict.get Dict.set
  approve_cert_change now peer_did new_cert_pem session_hash store =
      elim (Dict.get peer_did store) [
        | none ↦ (false, store)
        | some existing ↦ (
          true,
          Dict.set peer_did
              (record existing {
                cert_hash = sha256 new_cert_pem;
                pinned_by = session_hash;
                last_seen = now;
                rotation_count = existing.rotation_count + 1;
              })
              store,
        )
      ]

  unfoldable pub remove_peer : String → Dict PinnedCert → Bool × Dict PinnedCert
  unfolding Dict.get Dict.remove
  remove_peer peer_did store = elim (Dict.get peer_did store) [
    | none ↦ (false, store)
    | some existing ↦ (true, Dict.remove peer_did store)
  ]

  unfoldable pub get_peer_cert : String → Dict PinnedCert → Option PinnedCert
  unfolding Dict.get
  get_peer_cert peer_did store = Dict.get peer_did store

  unfoldable pub perform : Call → Dict PinnedCert → Dict PinnedCert
  unfolding pin_cert verify_cert approve_cert_change remove_peer
  perform (pin now peer cert session) store = (pin_cert now peer cert session store).1
  perform (check now peer cert) store = (verify_cert now peer cert store).2
  perform (approve now peer cert session) store =
      (approve_cert_change now peer cert session store).1
  perform (drop peer) store = (remove_peer peer store).1

  unfoldable pub perform_all : List Call → Dict PinnedCert → Dict PinnedCert
  unfolding perform
  perform_all [] store = store
  perform_all (call ∷ calls) store = perform_all calls (perform call store)
