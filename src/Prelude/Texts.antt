-- ===== src/Prelude/Texts.antt =====
-- Texts are compared whole. A set of texts is a list with a membership test.
use Prim.Native.Nat.{ℕ}
use Prim.Native.Char.{code}
use Prim.Native.String.{String}
use mathlib.Core.Path.{◌≡◌, refl}
use mathlib.Core.Bool.{Bool, false, not, ◌&&◌, ◌||◌}
use mathlib.Core.List.{List, [], ◌∷◌, ◌++◌}
use native.Mathlib.Omega.{arith}
use text.Mathlib.Text.{◌==◌}
use text.Mathlib.TextEquality.{eq_iff}
use onto_ontological_context.Prelude.Lists.{select}

-- The code points of a text.
abbrev pub codes : String → List ℕ
codes String.[] = []
codes (String.◌∷◌ c s) = code c ∷ codes s

-- `x in s`
unfoldable pub member : String → List String → Bool
member x [] = false
member x (y ∷ ys) = y == x || member x ys

-- `s | t`: what `t` adds stands behind `s`
unfoldable pub union : List String → List String → List String
union s t = s ++ select (λ x. not (member x s)) t

-- `s - t`
unfoldable pub difference : List String → List String → List String
difference s t = select (λ x. not (member x t)) s

pub member-append :
    (x : String) (s t : List String) → member x (s ++ t) ≡ (member x s || member x t)
unfolding member
member-append x [] t = refl
member-append x (y ∷ s) t = ground (arith, member-append x s t)

pub member-select :
    (x : String) (p : String → Bool) (s : List String) → member x (select p s) ≡ (member x s && p x)
unfolding member
member-select x p [] = refl
member-select x p (y ∷ s) = ground (arith, member-select x p s, eq_iff y x)

pub member-union :
    (x : String) (s t : List String) → member x (union s t) ≡ (member x s || member x t)
unfolding union
member-union x s t = ground (
  arith,
  member-append x s (select (λ y. not (member y s)) t),
  member-select x (λ y. not (member y s)) t,
)

pub member-difference :
    (x : String) (s t : List String) → member x (difference s t) ≡ (member x s && not (member x t))
unfolding difference
member-difference x s t = member-select x (λ y. not (member y t)) s

pub ruleset set_laws = (member-append, member-union, member-difference)
