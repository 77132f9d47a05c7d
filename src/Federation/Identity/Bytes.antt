-- ===== src/Federation/Identity/Bytes.antt =====
-- `to_bytes` with the length that _b58_decode of api/federation/node_identity.py gives it writes the
-- digits of the number to base 256.
use mathlib.Core.List.{reverse, reverse_aux, append_assoc, append-nil}
use native.Mathlib.Nat.{pow-suc, le_refl}
use onto_ontological_context.Prelude.{
  ℕ, zero, suc, ◌+◌, ◌/◌, ◌%◌, ◌^◌, max, ◌≤◌, ◌<◌, ◌≡◌, refl, ap, sym, ◌∙◌, inl, inr, Bool-cases,
  List, [], ◌∷◌, ◌++◌, arith, ltb, ltb→lt,
}
use onto_ontological_context.Federation.Identity.{halvings, bit_length, to_bytes}
use onto_ontological_context.Federation.Identity.Digits.{low_digits, low_digits_step}

-- More fuel than the number changes nothing.
halvings_enough : (f g n : ℕ) → n ≤ f → n ≤ g → halvings f n ≡ halvings g n
unfolding halvings
halvings_enough zero zero n p q = refl
halvings_enough zero (suc g) zero p q = refl
halvings_enough zero (suc g) (suc n) p q = absurd (omega arith)
halvings_enough (suc f) zero zero p q = refl
halvings_enough (suc f) zero (suc n) p q = absurd (omega arith)
halvings_enough (suc f) (suc g) zero p q = refl
halvings_enough (suc f) (suc g) (suc n) p q =
    ground (arith, halvings_enough f g (suc n / 2) (omega arith) (omega arith))

bit_length_step : (n : ℕ) → 0 < n → bit_length n ≡ suc (bit_length (n / 2))
unfolding bit_length halvings
bit_length_step zero h = absurd (omega arith)
bit_length_step (suc n) h =
    ground (arith, halvings_enough n (suc n / 2) (suc n / 2) (omega arith) (omega arith))

two_halvings : (n : ℕ) → 2 ≤ n → bit_length n ≡ 2 + bit_length (n / 4)
two_halvings n h =
    let quarter : n / 2 / 2 ≡ n / 4 = omega arith in
    omega (arith, bit_length_step n, bit_length_step (n / 2), ap bit_length quarter)

four_halvings : (n : ℕ) → 8 ≤ n → bit_length n ≡ 4 + bit_length (n / 16)
four_halvings n h =
    let part : n / 4 / 4 ≡ n / 16 = omega arith in
    omega (arith, two_halvings n, two_halvings (n / 4), ap bit_length part)

bit_length_byte : (n : ℕ) → 256 ≤ n → bit_length n ≡ 8 + bit_length (n / 256)
bit_length_byte n h =
    let part : n / 16 / 16 ≡ n / 256 = omega arith in
    omega (arith, four_halvings n, four_halvings (n / 16), ap bit_length part)

bit_length-le : (k n : ℕ) → n < 2 ^ k → bit_length n ≤ k
unfolding bit_length
bit_length-le zero n h = let none_left : n ≡ 0 = omega arith in rw none_left (omega arith)
bit_length-le (suc k) zero h = omega arith
bit_length-le (suc k) (suc n) h =
    let half : suc n / 2 < 2 ^ k = omega (arith, pow-suc 2 k) in
    omega (arith, bit_length_step (suc n), bit_length-le k (suc n / 2) half)

-- The number of bytes that _b58_decode asks for.
abbrev pub byte_count : ℕ → ℕ
byte_count n = max 1 ((bit_length n + 7) / 8)

byte_count_small : (n : ℕ) → 0 < n → n < 256 → byte_count n ≡ 1
byte_count_small n h small =
    let short : bit_length n ≤ 8 = bit_length-le 8 n small in omega (arith, bit_length_step n)

byte_count_large : (n : ℕ) → 256 ≤ n → byte_count n ≡ suc (byte_count (n / 256))
byte_count_large n h = omega (arith, bit_length_byte n, bit_length_step (n / 256))

low_digits_zero : (base fuel : ℕ) → low_digits base fuel 0 ≡ []
unfolding low_digits
low_digits_zero base zero = refl
low_digits_zero base (suc fuel) = refl

to_bytes_onto :
    (fuel n : ℕ) (s : List ℕ)
    → 0 < n
    → n ≤ fuel
    → to_bytes (byte_count n) n ++ s ≡ reverse_aux (low_digits 256 fuel n) s
unfolding to_bytes
to_bytes_onto zero n s p h = absurd (omega arith)
to_bytes_onto (suc fuel) n s p h = elim (Bool-cases (ltb n 256)) [
  | inl small ↦
      let none_left : n / 256 ≡ 0 = ground arith in
      rw
        (
          byte_count_small n p (ltb→lt n 256 small),
          low_digits_step 256 fuel n p,
          none_left,
          low_digits_zero 256 fuel,
        )
        refl
  | inr large ↦
      let at_least : 256 ≤ n = ground arith in
      rw (byte_count_large n at_least, low_digits_step 256 fuel n p)
        (append_assoc (to_bytes (byte_count (n / 256)) (n / 256)) ((n % 256) ∷ []) s
          ∙ to_bytes_onto fuel (n / 256) ((n % 256) ∷ s) (omega arith) (omega arith))
]

pub to_bytes_lem : (n : ℕ) → 0 < n → to_bytes (byte_count n) n ≡ reverse (low_digits 256 n n)
to_bytes_lem n p = sym (append-nil (to_bytes (byte_count n) n)) ∙ to_bytes_onto n n [] p (le_refl n)
