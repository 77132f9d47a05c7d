-- ===== src/Federation/Identity.antt =====
-- api/federation/node_identity.py: base58btc, the names did:key of public keys, and signatures under
-- them. Bytes are numbers below 256 and a text is the list of its character codes. The signatures
-- of Ed25519 and canonical JSON are parameters. Loops have fuel: a number n is divided at most n
-- times.
pub mod Digits
pub mod Letters
pub mod Zeros
pub mod Bytes
pub mod RoundTrip
pub mod Canonical
pub mod Names
mod Tests
use mathlib.Core.List.{reverse}
use onto_ontological_context.Prelude.{
  ℕ, zero, suc, ◌+◌, ◌-◌, ◌*◌, ◌/◌, ◌%◌, max, Bool, true, false, Option, none, some, List, [], ◌∷◌,
  ◌++◌, String, length, ◌==◌, if◌then◌else◌, codes,
}
use onto_ontological_context.Federation.Identity.Digits.{value}

abbrev pub b58_alphabet : List ℕ
b58_alphabet = codes "123456789ABCDEFGHJKLMNPQRSTUVWXYZabcdefghijkmnopqrstuvwxyz"

-- `_B58_ALPHABET[i : i + 1]`, which is empty past the end
unfoldable pub character_at : List ℕ → ℕ → List ℕ
character_at [] i = []
character_at (c ∷ cs) zero = c ∷ []
character_at (c ∷ cs) (suc i) = character_at cs i

-- `alphabet_map.get(c)`; the characters of the alphabet are distinct
unfoldable pub index_of : ℕ → List ℕ → Option ℕ
index_of c [] = none
index_of c (a ∷ cs) =
    if a == c then some 0 else elim (index_of c cs) [ none ↦ none | some i ↦ some (suc i) ]

-- `s.lstrip(c)`
unfoldable pub lstrip : ℕ → List ℕ → List ℕ
lstrip c [] = []
lstrip c (x ∷ xs) = if x == c then lstrip c xs else x ∷ xs

-- `len(s) - len(s.lstrip(c))`
unfoldable pub leading : ℕ → List ℕ → ℕ
unfolding lstrip
leading c xs = length xs - length (lstrip c xs)

unfoldable pub repeat : ℕ → ℕ → List ℕ
repeat c zero = []
repeat c (suc n) = c ∷ repeat c n

-- `while n > 0`
unfoldable pub encode_loop : ℕ → ℕ → List ℕ → List ℕ
unfolding character_at
encode_loop zero n result = result
encode_loop (suc fuel) n result =
    let rest = encode_loop fuel (n / 58) (result ++ character_at b58_alphabet (n % 58)) in
    if n == 0 then result else rest

unfoldable pub b58_encode : List ℕ → List ℕ
unfolding leading repeat value encode_loop
b58_encode data_bytes =
    let n : ℕ = value 256 0 data_bytes in
    repeat b'1' (leading 0 data_bytes) ++ reverse (encode_loop n n [])

-- `int.bit_length`: a halving for each bit
unfoldable pub halvings : ℕ → ℕ → ℕ
halvings zero n = 0
halvings (suc fuel) n = let rest = halvings fuel (n / 2) in if n == 0 then 0 else suc rest

unfoldable pub bit_length : ℕ → ℕ
unfolding halvings
bit_length n = halvings n n

-- `int.to_bytes(length, "big")`
unfoldable pub to_bytes : ℕ → ℕ → List ℕ
to_bytes zero n = []
to_bytes (suc l) n = to_bytes l (n / 256) ++ (n % 256) ∷ []

-- `for char in encoded`, and none if a character is not in the alphabet
unfoldable pub decode_loop : ℕ → List ℕ → Option ℕ
unfolding index_of
decode_loop n [] = some n
decode_loop n (c ∷ cs) = elim (index_of c b58_alphabet) [
  | none ↦ none
  | some i ↦ decode_loop (n * 58 + i) cs
]

unfoldable pub b58_decode : List ℕ → Option (List ℕ)
unfolding decode_loop leading repeat bit_length to_bytes
b58_decode encoded = elim (decode_loop 0 encoded) [
  | none ↦ none
  | some n ↦ some (repeat 0 (leading b'1' encoded) ++ to_bytes (max 1 ((bit_length n + 7) / 8)) n)
]

-- `s[len(p):]` if `s.startswith(p)`, which raises otherwise
unfoldable pub after : List ℕ → List ℕ → Option (List ℕ)
after [] s = some s
after (c ∷ p) [] = none
after (c ∷ p) (x ∷ s) = if x == c then after p s else none

abbrev pub did_prefix : List ℕ
did_prefix = codes "did:key:z"

abbrev pub ed25519_multicodec_prefix : List ℕ
ed25519_multicodec_prefix = 0xed ∷ 0x01 ∷ []

unfoldable pub public_key_bytes_to_did : List ℕ → List ℕ
unfolding b58_encode
public_key_bytes_to_did pubkey_bytes =
    did_prefix ++ b58_encode (ed25519_multicodec_prefix ++ pubkey_bytes)

-- none stands for ValueError
unfoldable pub did_to_public_key_bytes : List ℕ → Option (List ℕ)
unfolding after b58_decode
did_to_public_key_bytes did = elim (after did_prefix did) [
  | none ↦ none
  | some encoded ↦ elim (b58_decode encoded) [
    | none ↦ none
    | some decoded ↦ after ed25519_multicodec_prefix decoded
  ]
]

-- What the library of Ed25519 does: the check of a signature raises on a key or a signature that
-- it does not take.
pub record Ed25519 : Type 1 where
  pub PrivateKey : Type 0
  pub public_bytes : PrivateKey → List ℕ
  pub sign_with : PrivateKey → List ℕ → List ℕ
  pub verifies : List ℕ → List ℕ → List ℕ → Bool

module _ (lib : Ed25519) where
  open lib use {PrivateKey, public_bytes, sign_with, verifies}

  unfoldable pub sign : PrivateKey → List ℕ → List ℕ
  sign key message = sign_with key message

  unfoldable pub verify : List ℕ → List ℕ → List ℕ → Bool
  unfolding did_to_public_key_bytes
  verify did message signature = elim (did_to_public_key_bytes did) [
    | none ↦ false
    | some key ↦ verifies key message signature
  ]

  module _ {Payload : Type 0} (jcs_encode : Payload → List ℕ) where
    unfoldable pub sign_json : PrivateKey → Payload → List ℕ
    unfolding sign
    sign_json key payload = sign key (jcs_encode payload)

    unfoldable pub verify_json : List ℕ → Payload → List ℕ → Bool
    unfolding verify
    verify_json did payload signature = verify did (jcs_encode payload) signature
