-- ===== src/Prelude/Dict.antt =====
-- Python's `dict` with string keys, as an association list in the order of insertion. An
-- assignment to a key that is there keeps its place.
use Prim.Native.String.{String}
use mathlib.Core.Path.{◌≡◌, refl}
use mathlib.Core.Bool.{true, false}
use mathlib.Core.Option.{Option, none, some}
use mathlib.Core.List.{List, [], ◌∷◌}
use mathlib.Core.Logic.{inl, inr}
use native.Mathlib.Omega.{arith}
use text.Mathlib.Text.{◌==◌}
use text.Mathlib.TextEquality.{eq_iff}
use onto_ontological_context.Prelude.Tests.{if◌then◌else◌, Bool-cases}
use onto_ontological_context.Prelude.Texts.{member}

abbrev pub Dict {ℓ} : Type ℓ → Type ℓ
Dict V = List (String × V)

module _ {ℓ} {V : Type ℓ} where
  -- `d.get(k)`
  unfoldable pub get : String → Dict V → Option V
  get k [] = none
  get k ((j, v) ∷ d) = if j == k then some v else get k d

  -- `d.get(k, default)`
  unfoldable pub get_or : String → V → Dict V → V
  get_or k default [] = default
  get_or k default ((j, v) ∷ d) = if j == k then v else get_or k default d

  -- `d[k] = v`
  unfoldable pub set : String → V → Dict V → Dict V
  set k v [] = (k, v) ∷ []
  set k v ((j, w) ∷ d) = if j == k then (j, v) ∷ d else (j, w) ∷ set k v d

  -- `d.pop(k, None)` and `del d[k]`
  unfoldable pub remove : String → Dict V → Dict V
  remove k [] = []
  remove k ((j, v) ∷ d) = if j == k then remove k d else (j, v) ∷ remove k d

  -- `d.keys()`
  abbrev pub keys : Dict V → List String
  keys [] = []
  keys ((k, v) ∷ d) = k ∷ keys d

  -- `d.values()`
  abbrev pub values : Dict V → List V
  values [] = []
  values ((k, v) ∷ d) = v ∷ values d

  -- `{k: f(k) for k in ks}`
  abbrev pub tabulate : (String → V) → List String → Dict V
  tabulate f [] = []
  tabulate f (k ∷ ks) = (k, f k) ∷ tabulate f ks

  pub get-set :
      (j k : String) (v : V) (d : Dict V) → get j (set k v d) ≡ (if k == j then some v else get j d)
  unfolding get set
  get-set j k v [] = refl
  get-set j k v ((i, w) ∷ d) = ground (arith, eq_iff k j, eq_iff i k, eq_iff i j, get-set j k v d)

  pub get-remove :
      (j k : String) (d : Dict V) → get j (remove k d) ≡ (if k == j then none else get j d)
  unfolding get remove
  get-remove j k [] = ground arith
  get-remove j k ((i, w) ∷ d) = ground (arith, eq_iff k j, eq_iff i k, eq_iff i j, get-remove j k d)

  pub get_or-set :
      (j k : String) (v default : V) (d : Dict V)
      → get_or j default (set k v d) ≡ (if k == j then v else get_or j default d)
  unfolding get_or set
  get_or-set j k v default [] = refl
  get_or-set j k v default ((i, w) ∷ d) =
      ground (arith, eq_iff k j, eq_iff i k, eq_iff i j, get_or-set j k v default d)

  pub get-tabulate :
      (j : String) (f : String → V) (ks : List String)
      → get j (tabulate f ks) ≡ (if member j ks then some (f j) else none)
  unfolding get member
  get-tabulate j f [] = refl
  get-tabulate j f (k ∷ ks) = ground (arith, eq_iff k j, get-tabulate j f ks)

  pub get_or-tabulate :
      (j : String) (default : V) (f : String → V) (ks : List String)
      → get_or j default (tabulate f ks) ≡ (if member j ks then f j else default)
  unfolding get_or member
  get_or-tabulate j default f [] = refl
  get_or-tabulate j default f (k ∷ ks) = ground (arith, eq_iff k j, get_or-tabulate j default f ks)

  -- A key that is not there reads as the default.
  pub get_or_absent :
      (j : String) (default : V) (d : Dict V)
      → member j (keys d) ≡ false
      → get_or j default d ≡ default
  unfolding get_or member
  get_or_absent j default [] h = refl
  get_or_absent j default ((i, w) ∷ d) h = ground (arith, get_or_absent j default d)

  pub get_absent : (j : String) (d : Dict V) → member j (keys d) ≡ false → get j d ≡ none
  unfolding get member
  get_absent j [] h = refl
  get_absent j ((i, w) ∷ d) h = ground (arith, get_absent j d)

  get_present : (j : String) (d : Dict V) → member j (keys d) ≡ true → (v : V) × (get j d ≡ some v)
  unfolding get member
  get_present j [] h = ground arith
  get_present j ((i, w) ∷ d) h = elim (Bool-cases (i == j)) [
    | inl e ↦ (w, rw e)
    | inr e ↦ rw e (get_present j d (ground arith))
  ]

pub ruleset dict_laws = (get-set, get-remove, get_or-set, get-tabulate, get_or-tabulate)
