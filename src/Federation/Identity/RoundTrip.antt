-- ===== src/Federation/Identity/RoundTrip.antt =====
-- What the encoding and the decoding of api/federation/node_identity.py say of each other, and of
-- signatures.
use mathlib.Core.List.{reverse, reverse-reverse}
use onto_ontological_context.Prelude.{
  ℕ, zero, suc, ◌+◌, ◌*◌, ◌≤◌, ◌<◌, ◌≡◌, refl, ap, ◌∙◌, some, List, [], ◌∷◌, ◌++◌, All, arith,
}
use native.Mathlib.Nat.{le_refl}
use onto_ontological_context.Federation.Identity.{
  repeat, leading, lstrip, b58_encode, b58_decode, decode_loop, to_bytes, bit_length,
}
use onto_ontological_context.Federation.Identity.Digits.{
  value, low_digits, low_value, IsBase-58, IsBase-256, low_digits_lem, low_digits-low_value,
  value-reverse_aux, IsCanonical-All, reverse_aux-All,
}
use onto_ontological_context.Federation.Identity.Letters.{
  spell, IsDigits, reverse_aux-spell, encode_loop_lem, decode_loop-spell,
}
use onto_ontological_context.Federation.Identity.Zeros.{
  leading-repeat, lstrip-spell, value-repeat, lstrip-reverse, reverse-IsCanonical, lstrip-ne,
}
use onto_ontological_context.Federation.Identity.Bytes.{byte_count, to_bytes_lem}

abbrev pub IsBytes : List ℕ → Type 0
IsBytes bytes = All (λ b. b < 256) bytes

-- the digits of a number to base 58, the highest first
abbrev pub digits_58 : ℕ → List ℕ
digits_58 n = reverse (low_digits 58 n n)

digits_58-IsDigits : (n : ℕ) → IsDigits (digits_58 n)
digits_58-IsDigits n =
    reverse_aux-All 58 (low_digits 58 n n) []
      (IsCanonical-All 58 (low_digits 58 n n) (low_digits_lem IsBase-58 n n (le_refl n)).0) tt

-- The encoding: a '1' for each leading zero, and the digits of the number.
pub b58_encode_lem :
    (bytes : List ℕ)
    → b58_encode bytes ≡ repeat b'1' (leading 0 bytes) ++ spell (digits_58 (value 256 0 bytes))
unfolding b58_encode spell
b58_encode_lem bytes =
    let n : ℕ = value 256 0 bytes in
    let digits = (low_digits_lem IsBase-58 n n (le_refl n)).0 in
    ap (λ l. repeat b'1' (leading 0 bytes) ++ l)
      (ap reverse (encode_loop_lem n n [])
        ∙ reverse_aux-spell (low_digits 58 n n) [] (IsCanonical-All 58 (low_digits 58 n n) digits))

decode_loop-repeat : (k : ℕ) (cs : List ℕ) → decode_loop 0 (repeat b'1' k ++ cs) ≡ decode_loop 0 cs
unfolding decode_loop repeat
decode_loop-repeat zero cs = refl
decode_loop-repeat (suc k) cs = decode_loop-repeat k cs

value-digits_58 : (n : ℕ) → value 58 0 (digits_58 n) ≡ n
unfolding value
value-digits_58 n =
    value-reverse_aux 58 (low_digits 58 n n) [] ∙ (low_digits_lem IsBase-58 n n (le_refl n)).1

pub b58_decode_lem :
    (encoded : List ℕ) (n : ℕ)
    → decode_loop 0 encoded ≡ some n
    → b58_decode encoded ≡ some (repeat 0 (leading b'1' encoded) ++ to_bytes (byte_count n) n)
unfolding b58_decode
b58_decode_lem encoded n h = rw (h, b58_decode) refl

-- What is decoded: a zero for each leading zero, and the bytes of the number, at least one.
b58_decode-encode :
    (k : ℕ) (bytes : List ℕ)
    → lstrip 0 bytes ≡ bytes
    → let n : ℕ = value 256 0 bytes in
      b58_decode (b58_encode (repeat 0 k ++ bytes)) ≡ some (repeat 0 k ++ to_bytes (byte_count n) n)
b58_decode-encode k bytes lead =
    let n : ℕ = value 256 0 bytes in
    let ones =
      lstrip-spell (digits_58 n) (digits_58-IsDigits n)
      ∙ ap spell
          (lstrip-reverse 58 (low_digits 58 n n) (low_digits_lem IsBase-58 n n (le_refl n)).0) in
    let read : decode_loop 0 (repeat b'1' k ++ spell (digits_58 n)) ≡ some n =
      decode_loop-repeat k (spell (digits_58 n))
      ∙ decode_loop-spell 0 (digits_58 n) (digits_58-IsDigits n)
      ∙ ap (λ v. some v) (value-digits_58 n) in
    let text : b58_encode (repeat 0 k ++ bytes) ≡ repeat b'1' k ++ spell (digits_58 n) =
      b58_encode_lem (repeat 0 k ++ bytes)
      ∙ rw (leading-repeat 0 k bytes lead, value-repeat 256 k bytes) refl in
    ap b58_decode text
    ∙ b58_decode_lem (repeat b'1' k ++ spell (digits_58 n)) n read
    ∙ ap (λ j. some (repeat 0 j ++ to_bytes (byte_count n) n))
        (leading-repeat b'1' k (spell (digits_58 n)) ones)

value-le : (n : ℕ) (ds : List ℕ) → n ≤ value 256 n ds
unfolding value
value-le n [] = omega arith
value-le n (d ∷ ds) = omega (arith, value-le (n * 256 + d) ds)

-- Bytes with no leading zero make a number above zero.
value-pos :
    (b : ℕ) (bytes : List ℕ) → lstrip 0 (b ∷ bytes) ≡ b ∷ bytes → 0 < value 256 0 (b ∷ bytes)
unfolding value
value-pos b bytes lead = ground (arith, lstrip-ne 0 b bytes lead, value-le (0 * 256 + b) bytes)

-- The digits of a number, turned round, are the bytes that were read.
to_bytes-value :
    (bytes : List ℕ)
    → IsBytes bytes
    → lstrip 0 bytes ≡ bytes
    → 0 < value 256 0 bytes
    → to_bytes (byte_count (value 256 0 bytes)) (value 256 0 bytes) ≡ bytes
to_bytes-value bytes h lead above =
    let (canonical, same) = reverse-IsCanonical IsBase-256 bytes h lead in
    to_bytes_lem (value 256 0 bytes) above
    ∙ ap reverse {x = low_digits 256 (value 256 0 bytes) (value 256 0 bytes)} {y = reverse bytes} (
        rw (← same) (
          low_digits-low_value IsBase-256 (low_value 256 (reverse bytes)) (reverse bytes) canonical
            (le_refl (low_value 256 (reverse bytes)))))
    ∙ reverse-reverse bytes

pub b58_round_trip :
    (k b : ℕ) (bytes : List ℕ)
    → IsBytes (b ∷ bytes)
    → lstrip 0 (b ∷ bytes) ≡ b ∷ bytes
    → b58_decode (b58_encode (repeat 0 k ++ b ∷ bytes)) ≡ some (repeat 0 k ++ b ∷ bytes)
b58_round_trip k b bytes h lead =
    b58_decode-encode k (b ∷ bytes) lead
    ∙ ap (λ l. some (repeat 0 k ++ l)) (to_bytes-value (b ∷ bytes) h lead (value-pos b bytes lead))

-- Only zeros come back with one zero more.
pub b58_zeros : (k : ℕ) → b58_decode (b58_encode (repeat 0 k ++ [])) ≡ some (repeat 0 k ++ 0 ∷ [])
unfolding lstrip value bit_length to_bytes
b58_zeros k = b58_decode-encode k [] refl
