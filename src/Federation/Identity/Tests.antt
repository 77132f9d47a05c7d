-- ===== src/Federation/Identity/Tests.antt =====
-- Runs of the model of api/federation/node_identity.py, and its theorems at concrete inputs.
use onto_ontological_context.Prelude.{ℕ, ◌≡◌, refl, ◌↔◌, [], ◌∷◌, some, All, arith, codes}
use onto_ontological_context.Federation.Identity.{
  b58_encode, b58_decode, public_key_bytes_to_did, did_to_public_key_bytes,
}
use onto_ontological_context.Federation.Identity.Names.{
  b58_decode-b58_encode_iff, did_to_public_key_bytes_iff,
}

encoded_run : b58_encode (0 ∷ 0 ∷ 97 ∷ 98 ∷ []) ≡ codes "118Qq"
unfolding b58_encode
encoded_run = refl

b58_decode-b58_encode_iff_example :
    (b58_decode (b58_encode (0 ∷ 97 ∷ 98 ∷ [])) ≡ some (0 ∷ 97 ∷ 98 ∷ []))
    ↔ (¬ All {A = ℕ} (λ b. b ≡ 0) (0 ∷ 97 ∷ 98 ∷ []))
b58_decode-b58_encode_iff_example = b58_decode-b58_encode_iff (0 ∷ 97 ∷ 98 ∷ []) (omega arith)

did_to_public_key_bytes_iff_example :
    (did_to_public_key_bytes (codes "did:key:z74NfVY") ≡ some (200 ∷ 7 ∷ []))
    ↔ (codes "did:key:z74NfVY" ≡ public_key_bytes_to_did (200 ∷ 7 ∷ []))
did_to_public_key_bytes_iff_example =
    did_to_public_key_bytes_iff (codes "did:key:z74NfVY") (200 ∷ 7 ∷ []) (omega arith)
