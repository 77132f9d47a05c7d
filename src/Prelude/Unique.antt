-- ===== src/Prelude/Unique.antt =====
-- Lists whose elements differ pairwise by a test, and what updates of a table keep of them.
use mathlib.Core.Path.{◌≡◌, refl, ◌∙◌}
use mathlib.Core.Bool.{Bool, false, ◌||◌}
use mathlib.Core.List.{List, [], ◌∷◌, ◌++◌, map}
use mathlib.Core.Logic.{inl, inr}
use native.Mathlib.Omega.{arith}
use onto_ontological_context.Prelude.Tests.{Bool-cases}
use onto_ontological_context.Prelude.Lists.{select, any_of, All}

module _ {ℓ} {A : Type ℓ} where
  pub any_of-append :
      (p : A → Bool) (xs ys : List A) → any_of p (xs ++ ys) ≡ (any_of p xs || any_of p ys)
  any_of-append p [] ys = refl
  any_of-append p (x ∷ xs) ys = ground (arith, any_of-append p xs ys)

  -- An update that turns one test into another turns its result too.
  pub any_of-map :
      (p q : A → Bool) (f : A → A) (xs : List A)
      → ((x : A) → p (f x) ≡ q x)
      → any_of p (map f xs) ≡ any_of q xs
  any_of-map p q f [] h = refl
  any_of-map p q f (x ∷ xs) h = rw (h x, any_of-map p q f xs h)

  -- What a test does not find it does not find after a deletion.
  pub any_of-select :
      (p q : A → Bool) (xs : List A) → any_of p xs ≡ false → any_of p (select q xs) ≡ false
  any_of-select p q [] h = refl
  any_of-select p q (x ∷ xs) h = ground (arith, any_of-select p q xs)

  module _ (same : A → A → Bool) where
    -- No element is the same as a later one.
    abbrev pub IsUnique : List A → Type 0
    IsUnique [] = Unit
    IsUnique (x ∷ xs) = (any_of (same x) xs ≡ false) × IsUnique xs

    pub append-IsUnique :
        (xs : List A) (y : A)
        → any_of (λ x. same x y) xs ≡ false
        → IsUnique xs
        → IsUnique (xs ++ y ∷ [])
    append-IsUnique [] y absent u = (refl, tt)
    append-IsUnique (x ∷ xs) y absent u = (
      ground (arith, any_of-append (same x) xs (y ∷ []), u.0),
      append-IsUnique xs y (ground arith) u.1,
    )

    pub map-IsUnique :
        (f : A → A) (xs : List A)
        → ((x y : A) → same (f x) (f y) ≡ same x y)
        → IsUnique xs
        → IsUnique (map f xs)
    map-IsUnique f [] h u = tt
    map-IsUnique f (x ∷ xs) h u =
        (any_of-map (same (f x)) (same x) f xs (h x) ∙ u.0, map-IsUnique f xs h u.1)

    pub select-IsUnique : (q : A → Bool) (xs : List A) → IsUnique xs → IsUnique (select q xs)
    select-IsUnique q [] u = tt
    select-IsUnique q (x ∷ xs) u = elim (Bool-cases (q x)) [
      | inl e ↦ rw e (any_of-select (same x) q xs u.0, select-IsUnique q xs u.1)
      | inr e ↦ rw e (select-IsUnique q xs u.1)
    ]

module _ {ℓ κ} {A : Type ℓ} (P : A → Type κ) where
  pub All-map : (f : A → A) (xs : List A) → ((x : A) → P x → P (f x)) → All P xs → All P (map f xs)
  All-map f [] h all = tt
  All-map f (x ∷ xs) h all = (h x all.0, All-map f xs h all.1)

  pub All-select : (q : A → Bool) (xs : List A) → All P xs → All P (select q xs)
  All-select q [] all = tt
  All-select q (x ∷ xs) all = elim (Bool-cases (q x)) [
    | inl e ↦ rw e (all.0, All-select q xs all.1)
    | inr e ↦ rw e (All-select q xs all.1)
  ]

  pub All-weaken {μ} : {Q : A → Type μ} (xs : List A) → ((x : A) → P x → Q x) → All P xs → All Q xs
  All-weaken [] h all = tt
  All-weaken (x ∷ xs) h all = (h x all.0, All-weaken xs h all.1)
