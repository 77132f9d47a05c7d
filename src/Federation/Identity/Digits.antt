-- ===== src/Federation/Identity/Digits.antt =====
-- Positional notation to any base, which the two conversions of _b58_encode and _b58_decode in
-- api/federation/node_identity.py share. Digits stand with the lowest first.
use onto_ontological_context.Prelude.{
  ℕ, zero, suc, ◌+◌, ◌*◌, ◌/◌, ◌%◌, ◌≤◌, ◌<◌, ◌≡◌, refl, ap, ◌∙◌, List, [], ◌∷◌, All, arith, ◌==◌,
  if◌then◌else◌,
}
use mathlib.Core.List.{reverse_aux}

-- `n = n * base + d` for each digit, the highest first
unfoldable pub value : ℕ → ℕ → List ℕ → ℕ
value base n [] = n
value base n (d ∷ ds) = value base (n * base + d) ds

pub record IsBase (base : ℕ) : Type 0 where
  pub quotient : (n d : ℕ) → d < base → (n * base + d) / base ≡ n
  pub remainder : (n d : ℕ) → d < base → (n * base + d) % base ≡ d
  pub join : (n : ℕ) → n / base * base + n % base ≡ n
  pub mod_lt : (n : ℕ) → n % base < base
  pub div_lt : (n : ℕ) → 0 < n → n / base < n

pub IsBase-58 : IsBase 58
IsBase-58 = record {
  quotient = λ n d h. omega arith;
  remainder = λ n d h. omega arith;
  join = λ n. omega arith;
  mod_lt = λ n. omega arith;
  div_lt = λ n h. omega arith;
}

pub IsBase-256 : IsBase 256
IsBase-256 = record {
  quotient = λ n d h. omega arith;
  remainder = λ n d h. omega arith;
  join = λ n. omega arith;
  mod_lt = λ n. omega arith;
  div_lt = λ n h. omega arith;
}

-- the number that digits spell, the lowest first
abbrev pub low_value : ℕ → List ℕ → ℕ
low_value base [] = 0
low_value base (d ∷ r) = low_value base r * base + d

-- the digits of a number, the lowest first; `n` rounds are enough
unfoldable pub low_digits : ℕ → ℕ → ℕ → List ℕ
low_digits base zero n = []
low_digits base (suc fuel) n =
    let rest = low_digits base fuel (n / base) in if n == 0 then [] else (n % base) ∷ rest

-- No digit is too large and the highest is not zero.
abbrev pub IsCanonical : ℕ → List ℕ → Type 0
IsCanonical base [] = Unit
IsCanonical base (d ∷ r) = (d < base) × (0 < low_value base (d ∷ r)) × IsCanonical base r

pub low_digits_step :
    (base fuel n : ℕ)
    → 0 < n
    → low_digits base (suc fuel) n ≡ (n % base) ∷ low_digits base fuel (n / base)
unfolding low_digits
low_digits_step base fuel n h = ground arith

module _ {base : ℕ} (b : IsBase base) where
  -- `low_digits` writes a number, in canonical form, and nothing else does.
  pub low_digits_lem :
      (fuel n : ℕ)
      → n ≤ fuel
      → IsCanonical base (low_digits base fuel n) × (low_value base (low_digits base fuel n) ≡ n)
  unfolding low_digits
  low_digits_lem zero n h = (tt, omega arith)
  low_digits_lem (suc fuel) zero h = (tt, refl)
  low_digits_lem (suc fuel) (suc n) h =
      let (canonical, same) =
        low_digits_lem fuel (suc n / base) (omega (arith, b.div_lt (suc n) (omega arith))) in
      let exact : low_value base (low_digits base fuel (suc n / base)) * base + suc n % base
          ≡ suc n =
        ap (λ v. v * base + suc n % base) same ∙ b.join (suc n) in
      rw (low_digits_step base fuel (suc n) (omega arith))
        ((b.mod_lt (suc n), omega (arith, exact), canonical), exact)

  pub low_digits-low_value :
      (fuel : ℕ) (r : List ℕ)
      → IsCanonical base r
      → low_value base r ≤ fuel
      → low_digits base fuel (low_value base r) ≡ r
  unfolding low_digits
  low_digits-low_value zero [] c h = refl
  low_digits-low_value (suc fuel) [] c h = refl
  low_digits-low_value zero (d ∷ r) c h = absurd (omega arith)
  low_digits-low_value (suc fuel) (d ∷ r) (small, p, c) h =
      let shift = b.quotient (low_value base r) d small in
      low_digits_step base fuel (low_value base (d ∷ r)) p
      ∙ rw (b.remainder (low_value base r) d small, shift)
          (ap (λ l. d ∷ l) (low_digits-low_value fuel r c (omega (arith, shift, b.div_lt _ p))))

  -- Digits behind a number above zero, the highest first, keep it canonical.
  pub reverse_aux-IsCanonical :
      (ds r : List ℕ)
      → All (λ d. d < base) ds
      → IsCanonical base r
      → 0 < low_value base r
      → IsCanonical base (reverse_aux ds r)
        × (low_value base (reverse_aux ds r) ≡ value base (low_value base r) ds)
  unfolding value
  reverse_aux-IsCanonical [] r h c p = (c, refl)
  reverse_aux-IsCanonical (d ∷ ds) r (small, h) c p =
      let more : 0 < low_value base (d ∷ r) = grind arith in
      reverse_aux-IsCanonical ds (d ∷ r) h (small, more, c) more

-- The value of digits that are turned round.
pub value-reverse_aux :
    (base : ℕ) (r s : List ℕ) → value base 0 (reverse_aux r s) ≡ value base (low_value base r) s
unfolding value
value-reverse_aux base [] s = refl
value-reverse_aux base (d ∷ r) s = value-reverse_aux base r (d ∷ s)

pub IsCanonical-All : (base : ℕ) (r : List ℕ) → IsCanonical base r → All (λ d. d < base) r
IsCanonical-All base [] c = tt
IsCanonical-All base (d ∷ r) c = (c.0, IsCanonical-All base r c.2)

pub reverse_aux-All :
    (base : ℕ) (r s : List ℕ)
    → All (λ d. d < base) r
    → All (λ d. d < base) s
    → All (λ d. d < base) (reverse_aux r s)
reverse_aux-All base [] s h k = k
reverse_aux-All base (d ∷ r) s h k = reverse_aux-All base r (d ∷ s) h.1 (h.0, k)
