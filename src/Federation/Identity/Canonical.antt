-- ===== src/Federation/Identity/Canonical.antt =====
-- No two texts decode to the same bytes in api/federation/node_identity.py, if these do not begin
-- with a zero.
use mathlib.Core.Path.{subst}
use mathlib.Core.List.{reverse, reverse-reverse}
use native.Mathlib.Nat.{le_refl}
use onto_ontological_context.Prelude.{
  ℕ, zero, suc, ◌<◌, ◌≡◌, refl, ap, sym, ◌∙◌, inl, inr, false, Option-cases, none, some, List, [],
  ◌∷◌, ◌++◌, arith, ◌==◌,
}
use onto_ontological_context.Federation.Identity.{
  repeat, leading, lstrip, b58_encode, b58_decode, decode_loop, to_bytes, bit_length,
}
use onto_ontological_context.Federation.Identity.Digits.{
  value, low_digits, IsBase-58, IsBase-256, low_digits_lem, low_digits-low_value, value-reverse_aux,
}
use onto_ontological_context.Federation.Identity.Letters.{
  spell, IsDigits, letter, decode_loop_sound,
}
use onto_ontological_context.Federation.Identity.Zeros.{
  repeat-leading, leading-repeat, reverse-IsCanonical, lstrip-ne, lstrip_ne,
}
use onto_ontological_context.Federation.Identity.Bytes.{byte_count, to_bytes_lem}
use onto_ontological_context.Federation.Identity.RoundTrip.{
  digits_58, b58_encode_lem, b58_decode_lem,
}

b58_decode-none : (encoded : List ℕ) → decode_loop 0 encoded ≡ none → b58_decode encoded ≡ none
unfolding b58_decode
b58_decode-none encoded h = rw (h, b58_decode) refl

no_zero : (k b : ℕ) (l bytes : List ℕ) → (b == 0) ≡ false → repeat 0 k ++ l ≡ b ∷ bytes → k ≡ 0
unfolding repeat
no_zero zero b l bytes first h = refl
no_zero (suc k) b l bytes first h = ground arith

digits-begin : (ds : List ℕ) → IsDigits ds → lstrip b'1' (spell ds) ≡ spell ds → lstrip 0 ds ≡ ds
unfolding spell lstrip
digits-begin [] h lead = refl
digits-begin (d ∷ ds) (small, h) lead =
    let (c, at, _, one) = letter d small in
    let text : lstrip b'1' (c ∷ spell ds) ≡ c ∷ spell ds = rw at at lead in
    lstrip_ne 0 d ds (sym one ∙ lstrip-ne b'1' c (spell ds) text)

digits_58-value : (ds : List ℕ) → IsDigits ds → lstrip 0 ds ≡ ds → digits_58 (value 58 0 ds) ≡ ds
digits_58-value ds h lead =
    let (canonical, same) = reverse-IsCanonical IsBase-58 ds h lead in
    ap reverse {x = low_digits 58 (value 58 0 ds) (value 58 0 ds)} {y = reverse ds}
      (rw (← same) (low_digits-low_value IsBase-58 _ (reverse ds) canonical (le_refl _)))
    ∙ reverse-reverse ds

drop_none : (c k : ℕ) (l r : List ℕ) → k ≡ 0 → repeat c k ++ l ≡ r → l ≡ r
unfolding repeat
drop_none c k l r none_left h = subst (λ j. repeat c j ++ l ≡ r) none_left h

-- Bytes whose number is that of digits to base 58 are encoded by these digits.
encode_digits :
    (b : ℕ) (bytes ds : List ℕ)
    → (b == 0) ≡ false
    → IsDigits ds
    → lstrip 0 ds ≡ ds
    → value 256 0 (b ∷ bytes) ≡ value 58 0 ds
    → b58_encode (b ∷ bytes) ≡ spell ds
unfolding repeat
encode_digits b bytes ds first h lead number =
    let no_zeros : leading 0 (b ∷ bytes) ≡ 0 =
      leading-repeat 0 0 (b ∷ bytes) (lstrip_ne 0 b bytes first) in
    b58_encode_lem (b ∷ bytes)
    ∙ ap (λ k. repeat b'1' k ++ spell (digits_58 (value 256 0 (b ∷ bytes)))) no_zeros
    ∙ ap (λ n. spell (digits_58 n)) number
    ∙ ap spell (digits_58-value ds h lead)

not_zero :
    (n b : ℕ) (bytes : List ℕ) → (b == 0) ≡ false → to_bytes (byte_count n) n ≡ b ∷ bytes → 0 < n
unfolding to_bytes bit_length
not_zero zero b bytes first h = ground arith
not_zero (suc n) b bytes first h = omega arith

value-to_bytes : (n : ℕ) → 0 < n → value 256 0 (to_bytes (byte_count n) n) ≡ n
unfolding value
value-to_bytes n above =
    ap (value 256 0) (to_bytes_lem n above)
    ∙ value-reverse_aux 256 (low_digits 256 n n) []
    ∙ (low_digits_lem IsBase-256 n n (le_refl n)).1

-- A text whose bytes do not begin with a zero is the encoding of these bytes.
pub b58_decode_canonical :
    (encoded : List ℕ) (b : ℕ) (bytes : List ℕ)
    → (b == 0) ≡ false
    → b58_decode encoded ≡ some (b ∷ bytes)
    → encoded ≡ b58_encode (b ∷ bytes)
b58_decode_canonical encoded b bytes first h = elim (Option-cases (decode_loop 0 encoded)) [
  | inl bad ↦ absurd (ground (arith, b58_decode-none encoded bad))
  | inr (n, read) ↦
      let result : repeat 0 (leading b'1' encoded) ++ to_bytes (byte_count n) n ≡ b ∷ bytes =
        ground (arith, b58_decode_lem encoded n read) in
      let no_ones =
        no_zero (leading b'1' encoded) b (to_bytes (byte_count n) n) bytes first result in
      let written : to_bytes (byte_count n) n ≡ b ∷ bytes =
        drop_none 0 _ _ (b ∷ bytes) no_ones result in
      let begins : lstrip b'1' encoded ≡ encoded =
        drop_none b'1' _ _ encoded no_ones (repeat-leading b'1' encoded) in
      let (ds, same, all, exact) = decode_loop_sound 0 n encoded read in
      let number : value 256 0 (b ∷ bytes) ≡ n =
        rw (← written) (value-to_bytes n (not_zero n b bytes first written)) in
      let lead = digits-begin ds all (rw (← same) begins) in
      same ∙ sym (encode_digits b bytes ds first all lead (number ∙ exact))
]
