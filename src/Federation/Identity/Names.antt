-- ===== src/Federation/Identity/Names.antt =====
-- The names did:key of api/federation/node_identity.py, and the signatures under them.
use mathlib.Core.Path.{subst}
use onto_ontological_context.Prelude.{
  ℕ, zero, suc, ◌≡◌, ◌≢◌, ◌↔◌, refl, ap, ◌∙◌, inl, inr, true, false, Option-cases, some, List, [],
  ◌∷◌, ◌++◌, All, arith, ◌==◌, ==_iff,
}
use onto_ontological_context.Federation.Identity.{
  repeat, leading, lstrip, b58_encode, b58_decode, after, did_prefix, ed25519_multicodec_prefix,
  public_key_bytes_to_did, did_to_public_key_bytes, Ed25519, verify, sign, sign_json, verify_json,
}
use onto_ontological_context.Federation.Identity.Zeros.{repeat-leading, lstrip-lstrip, lstrip-ne}
use onto_ontological_context.Federation.Identity.RoundTrip.{IsBytes, b58_round_trip, b58_zeros}
use onto_ontological_context.Federation.Identity.Canonical.{b58_decode_canonical}

after-append : (p s : List ℕ) → after p (p ++ s) ≡ some s
unfolding after
after-append [] s = refl
after-append (c ∷ p) s = ground (arith, ==_iff c c, after-append p s)

after_sound : (p s r : List ℕ) → after p s ≡ some r → s ≡ p ++ r
unfolding after
after_sound [] s r h = ground arith
after_sound (c ∷ p) [] r h = cc
after_sound (c ∷ p) (x ∷ s) r h = ground (arith, ==_iff x c, after_sound p s r)

did_steps :
    (did encoded decoded key : List ℕ)
    → after did_prefix did ≡ some encoded
    → b58_decode encoded ≡ some decoded
    → after ed25519_multicodec_prefix decoded ≡ some key
    → did_to_public_key_bytes did ≡ some key
unfolding did_to_public_key_bytes
did_steps did encoded decoded key begins read rest = ground arith

did_decodes :
    (key : List ℕ) → IsBytes key → did_to_public_key_bytes (public_key_bytes_to_did key) ≡ some key
unfolding public_key_bytes_to_did repeat lstrip
did_decodes key h =
    let bytes : List ℕ = ed25519_multicodec_prefix ++ key in
    did_steps _ _ bytes key (after-append did_prefix (b58_encode bytes))
      (b58_round_trip 0 0xed (0x01 ∷ key) (omega arith, (omega arith, h)) refl)
      (after-append ed25519_multicodec_prefix key)

named :
    (key : List ℕ)
    → did_prefix ++ b58_encode (ed25519_multicodec_prefix ++ key) ≡ public_key_bytes_to_did key
unfolding public_key_bytes_to_did
named key = refl

did_canonical :
    (did key : List ℕ) → did_to_public_key_bytes did ≡ some key → did ≡ public_key_bytes_to_did key
unfolding did_to_public_key_bytes
did_canonical did key h = elim (Option-cases (after did_prefix did)) [
  | inl bad ↦ absurd (ground (arith, bad))
  | inr (encoded, begins) ↦ elim (Option-cases (b58_decode encoded)) [
    | inl bad ↦ absurd (ground (arith, begins, bad))
    | inr (decoded, read) ↦
        let rest : after ed25519_multicodec_prefix decoded ≡ some key =
          ground (arith, begins, read) in
        let prefixed = after_sound ed25519_multicodec_prefix decoded key rest in
        after_sound did_prefix did encoded begins
        ∙ ap (λ l. did_prefix ++ l)
            (b58_decode_canonical encoded 0xed (0x01 ∷ key) refl (read ∙ ap (λ l. some l) prefixed))
        ∙ named key
  ]
]

-- A text is decoded to a public key exactly if it is the name of that key.
pub did_to_public_key_bytes_iff :
    (did key : List ℕ)
    → IsBytes key
    → (did_to_public_key_bytes did ≡ some key) ↔ (did ≡ public_key_bytes_to_did key)
did_to_public_key_bytes_iff did key h =
    (did_canonical did key, λ same. ap did_to_public_key_bytes same ∙ did_decodes key h)

verify_lem :
    (lib : Ed25519) (did key message signature : List ℕ)
    → did_to_public_key_bytes did ≡ some key
    → verify lib did message signature ≡ lib.verifies key message signature
unfolding verify
verify_lem lib did key message signature h = rw (h, verify) refl

-- If the library verifies what it signs, the receiver of a signed payload does so under the name of
-- the sender's key, and whatever it verifies under that name the library does with that key.
pub verify_json-sign_json :
    (lib : Ed25519) {Payload : Type 0} (jcs_encode : Payload → List ℕ)
    → ((key : lib.PrivateKey) → IsBytes (lib.public_bytes key))
    → ((key : lib.PrivateKey) (message : List ℕ)
        → lib.verifies (lib.public_bytes key) message (lib.sign_with key message) ≡ true)
    → (key : lib.PrivateKey) (payload other : Payload) (signature : List ℕ)
    → let did : List ℕ = public_key_bytes_to_did (lib.public_bytes key) in
      (verify_json lib jcs_encode did payload (sign_json lib jcs_encode key payload) ≡ true)
      × (verify_json lib jcs_encode did other signature
          ≡ lib.verifies (lib.public_bytes key) (jcs_encode other) signature)
unfolding verify_json sign_json sign
verify_json-sign_json lib jcs_encode bytes signs key payload other signature =
    let did : List ℕ = public_key_bytes_to_did (lib.public_bytes key) in
    let decoded = did_decodes (lib.public_bytes key) (bytes key) in
    (
      verify_lem lib did _ (jcs_encode payload) _ decoded ∙ signs key (jcs_encode payload),
      verify_lem lib did _ (jcs_encode other) signature decoded,
    )

All-zero : (k : ℕ) → All (λ b. b ≡ 0) (repeat 0 k ++ [])
unfolding repeat
All-zero zero = tt
All-zero (suc k) = (refl, All-zero k)

not-All_zero : (k b : ℕ) (l : List ℕ) → (b == 0) ≡ false → ¬ All (λ b. b ≡ 0) (repeat 0 k ++ b ∷ l)
unfolding repeat
not-All_zero zero b l h all = ground arith
not-All_zero (suc k) b l h all = not-All_zero k b l h all.1

one_more : (k : ℕ) → repeat 0 k ++ 0 ∷ [] ≢ repeat 0 k ++ []
unfolding repeat
one_more zero h = cc
one_more (suc k) h = one_more k (ground arith)

IsBytes-rest : (k : ℕ) (l : List ℕ) → IsBytes (repeat 0 k ++ l) → IsBytes l
unfolding repeat
IsBytes-rest zero l h = h
IsBytes-rest (suc k) l h = IsBytes-rest k l h.1

round_trip_split :
    (k : ℕ) (l : List ℕ)
    → lstrip 0 l ≡ l
    → IsBytes (repeat 0 k ++ l)
    → (b58_decode (b58_encode (repeat 0 k ++ l)) ≡ some (repeat 0 k ++ l))
      ↔ (¬ All (λ b. b ≡ 0) (repeat 0 k ++ l))
round_trip_split k [] lead h = (
  λ same. absurd (one_more k (ground (arith, b58_zeros k, same))),
  λ nonzero. absurd (nonzero (All-zero k)),
)
round_trip_split k (b ∷ l) lead h = (
  λ same. not-All_zero k b l (lstrip-ne 0 b l lead),
  λ nonzero. b58_round_trip k b l (IsBytes-rest k (b ∷ l) h) lead,
)

-- The decoding of an encoding gives back the bytes exactly if not all of them are zero.
pub b58_decode-b58_encode_iff :
    (bytes : List ℕ)
    → IsBytes bytes
    → (b58_decode (b58_encode bytes) ≡ some bytes) ↔ (¬ All (λ b. b ≡ 0) bytes)
b58_decode-b58_encode_iff bytes h =
    let split = repeat-leading 0 bytes in
    subst (λ l. IsBytes l → (b58_decode (b58_encode l) ≡ some l) ↔ (¬ All (λ b. b ≡ 0) l)) split
      (round_trip_split (leading 0 bytes) (lstrip 0 bytes) (lstrip-lstrip 0 bytes)) h
