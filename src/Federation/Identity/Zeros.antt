-- ===== src/Federation/Identity/Zeros.antt =====
-- The leading zeros that _b58_encode and _b58_decode of api/federation/node_identity.py count apart.
use mathlib.Core.List.{reverse, reverse_aux}
use onto_ontological_context.Prelude.{
  ℕ, zero, suc, ◌+◌, ◌-◌, ◌*◌, ◌≤◌, ◌<◌, ◌≡◌, refl, ap, sym, ◌∙◌, inl, inr, false, Bool-cases, List,
  [], ◌∷◌, ◌++◌, All, length, arith, ◌==◌, ==_iff,
}
use onto_ontological_context.Federation.Identity.{lstrip, leading, repeat}
use onto_ontological_context.Federation.Identity.Digits.{
  value, IsBase, IsCanonical, low_value, reverse_aux-IsCanonical,
}
use onto_ontological_context.Federation.Identity.Letters.{spell, IsDigits, letter}

length-lstrip-le : (c : ℕ) (xs : List ℕ) → length (lstrip c xs) ≤ length xs
unfolding lstrip
length-lstrip-le c [] = omega arith
length-lstrip-le c (x ∷ xs) = ground (arith, length-lstrip-le c xs)

nothing : (n : ℕ) → suc n - suc n ≡ 0
nothing n = omega arith

-- What is counted and what is left make up the list.
pub repeat-leading : (c : ℕ) (xs : List ℕ) → repeat c (leading c xs) ++ lstrip c xs ≡ xs
unfolding leading repeat lstrip
repeat-leading c [] = refl
repeat-leading c (x ∷ xs) = elim (Bool-cases (x == c)) [
  | inl same ↦
      let count : suc (length xs) - length (lstrip c xs) ≡ suc (leading c xs) =
        unfold leading in omega (arith, length-lstrip-le c xs) in
      rw (same, count) (rw ((==_iff x c).0 same) (ap (λ l. c ∷ l) (repeat-leading c xs)))
  | inr other ↦ rw other (ap (λ k. repeat c k ++ x ∷ xs) (nothing (length xs)))
]

pub lstrip-lstrip : (c : ℕ) (xs : List ℕ) → lstrip c (lstrip c xs) ≡ lstrip c xs
unfolding lstrip
lstrip-lstrip c [] = refl
lstrip-lstrip c (x ∷ xs) = elim (Bool-cases (x == c)) [
  | inl same ↦ rw same (lstrip-lstrip c xs)
  | inr other ↦ rw other (rw other refl)
]

lstrip-repeat : (c k : ℕ) (xs : List ℕ) → lstrip c (repeat c k ++ xs) ≡ lstrip c xs
unfolding lstrip repeat
lstrip-repeat c zero xs = refl
lstrip-repeat c (suc k) xs = ground (arith, ==_iff c c, lstrip-repeat c k xs)

length-repeat : (c k : ℕ) (xs : List ℕ) → length (repeat c k ++ xs) ≡ k + length xs
unfolding repeat
length-repeat c zero xs = omega arith
length-repeat c (suc k) xs = omega (arith, length-repeat c k xs)

pub leading-repeat : (c k : ℕ) (xs : List ℕ) → lstrip c xs ≡ xs → leading c (repeat c k ++ xs) ≡ k
unfolding leading
leading-repeat c k xs h = omega (arith, length-repeat c k xs, ap length (lstrip-repeat c k xs ∙ h))

-- A list that does not change begins with another element.
pub lstrip-ne : (c x : ℕ) (xs : List ℕ) → lstrip c (x ∷ xs) ≡ x ∷ xs → (x == c) ≡ false
unfolding lstrip
lstrip-ne c x xs h = elim (Bool-cases (x == c)) [
  | inl same ↦
      let short : lstrip c xs ≡ x ∷ xs = rw same at h in
      absurd (omega (arith, ap length short, length-lstrip-le c xs))
  | inr other ↦ other
]

pub lstrip_ne : (c x : ℕ) (xs : List ℕ) → (x == c) ≡ false → lstrip c (x ∷ xs) ≡ x ∷ xs
unfolding lstrip
lstrip_ne c x xs h = rw h refl

pub lstrip-spell : (ds : List ℕ) → IsDigits ds → lstrip b'1' (spell ds) ≡ spell (lstrip 0 ds)
unfolding lstrip spell
lstrip-spell [] h = refl
lstrip-spell (d ∷ ds) (small, h) =
    let (c, at, _, one) = letter d small in
    elim (Bool-cases (d == 0)) [
      | inl is_zero ↦ rw (at, one, is_zero) (lstrip-spell ds h)
      | inr other ↦ rw (at, one, other) (ap (λ l. l ++ spell ds) (sym at))
    ]

pub value-repeat : (base k : ℕ) (ds : List ℕ) → value base 0 (repeat 0 k ++ ds) ≡ value base 0 ds
unfolding value repeat
value-repeat base zero ds = refl
value-repeat base (suc k) ds =
    let nil : 0 * base + 0 ≡ 0 = omega arith in
    ap (λ n. value base n (repeat 0 k ++ ds)) nil ∙ value-repeat base k ds

-- A canonical number has no leading zero when its digits are turned round.
lstrip-reverse_aux :
    (base d : ℕ) (r s : List ℕ)
    → IsCanonical base (d ∷ r)
    → lstrip 0 (reverse_aux r (d ∷ s)) ≡ reverse_aux r (d ∷ s)
lstrip-reverse_aux base d [] s c = lstrip_ne 0 d s (ground arith)
lstrip-reverse_aux base d (e ∷ r) s c = lstrip-reverse_aux base e r (d ∷ s) c.2

pub lstrip-reverse : (base : ℕ) (r : List ℕ) → IsCanonical base r → lstrip 0 (reverse r) ≡ reverse r
unfolding lstrip
lstrip-reverse base [] c = refl
lstrip-reverse base (d ∷ r) c = lstrip-reverse_aux base d r [] c

-- Conversely, digits with no leading zero are canonical when they are turned round.
pub reverse-IsCanonical :
    {base : ℕ} (b : IsBase base) (ds : List ℕ)
    → All (λ d. d < base) ds
    → lstrip 0 ds ≡ ds
    → IsCanonical base (reverse ds) × (low_value base (reverse ds) ≡ value base 0 ds)
unfolding value
reverse-IsCanonical b [] h lead = (tt, refl)
reverse-IsCanonical {base} b (d ∷ ds) (small, h) lead =
    let other = lstrip-ne 0 d ds lead in
    let above : 0 < 0 * base + d = ground arith in
    reverse_aux-IsCanonical b ds (d ∷ []) h (small, above, tt) above
