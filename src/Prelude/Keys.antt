-- ===== src/Prelude/Keys.antt =====
-- A dict has distinct keys. What `set` and `remove` do to the keys and to their number.
use Prim.Native.Nat.{suc, ◌+◌, ◌≤◌}
use Prim.Native.String.{String}
use mathlib.Core.Path.{◌≡◌, refl}
use mathlib.Core.Bool.{true, false, not, ◌&&◌, ◌||◌}
use mathlib.Core.Option.{some}
use mathlib.Core.List.{[], ◌∷◌}
use mathlib.Core.Logic.{inl, inr}
use native.Mathlib.Omega.{arith}
use text.Mathlib.Text.{◌==◌}
use text.Mathlib.TextEquality.{eq_iff}
use onto_ontological_context.Prelude.Tests.{if◌then◌else◌, Bool-cases}
use onto_ontological_context.Prelude.Lists.{length}
use onto_ontological_context.Prelude.Texts.{member}
use onto_ontological_context.Prelude.Dict
use onto_ontological_context.Prelude.Dict.{Dict, keys}

module _ {ℓ} {V : Type ℓ} where
  abbrev pub IsDict : Dict V → Type 0
  IsDict [] = Unit
  IsDict ((k, v) ∷ d) = (member k (keys d) ≡ false) × IsDict d

  pub member-keys-set :
      (j k : String) (v : V) (d : Dict V)
      → member j (keys (Dict.set k v d)) ≡ (k == j || member j (keys d))
  unfolding Dict.set member
  member-keys-set j k v [] = ground arith
  member-keys-set j k v ((i, w) ∷ d) =
      ground (arith, eq_iff k j, eq_iff i k, eq_iff i j, member-keys-set j k v d)

  pub member-keys-remove :
      (j k : String) (d : Dict V)
      → member j (keys (Dict.remove k d)) ≡ (not (k == j) && member j (keys d))
  unfolding Dict.remove member
  member-keys-remove j k [] = ground arith
  member-keys-remove j k ((i, w) ∷ d) =
      ground (arith, eq_iff k j, eq_iff i k, eq_iff i j, member-keys-remove j k d)

  pub set-IsDict : (k : String) (v : V) (d : Dict V) → IsDict d → IsDict (Dict.set k v d)
  unfolding Dict.set member
  set-IsDict k v [] h = (refl, tt)
  set-IsDict k v ((i, w) ∷ d) h = elim (Bool-cases (i == k)) [
    | inl same ↦ rw same h
    | inr other ↦
        rw other
          (ground (arith, eq_iff k i, eq_iff i k, member-keys-set i k v d), set-IsDict k v d h.1)
  ]

  pub remove-IsDict : (k : String) (d : Dict V) → IsDict d → IsDict (Dict.remove k d)
  unfolding Dict.remove
  remove-IsDict k [] h = tt
  remove-IsDict k ((i, w) ∷ d) h = elim (Bool-cases (i == k)) [
    | inl same ↦ rw same (remove-IsDict k d h.1)
    | inr other ↦ rw other (ground (arith, member-keys-remove i k d), remove-IsDict k d h.1)
  ]

  pub length-set :
      (k : String) (v : V) (d : Dict V)
      → length (Dict.set k v d) ≡ length d + (if member k (keys d) then 0 else 1)
  unfolding Dict.set member
  length-set k v [] = refl
  length-set k v ((i, w) ∷ d) = ground (arith, length-set k v d)

  pub length-remove-le : (k : String) (d : Dict V) → length (Dict.remove k d) ≤ length d
  unfolding Dict.remove
  length-remove-le k [] = omega arith
  length-remove-le k ((i, w) ∷ d) = ground (arith, length-remove-le k d)

  -- Removing a key that is there makes the dict shorter.
  pub length-remove-lt :
      (k : String) (d : Dict V)
      → member k (keys d) ≡ true
      → suc (length (Dict.remove k d)) ≤ length d
  unfolding Dict.remove member
  length-remove-lt k [] h = ground arith
  length-remove-lt k ((i, w) ∷ d) h = ground (arith, length-remove-le k d, length-remove-lt k d)

  pub member-keys_iff :
      (k : String) (v : V) (d : Dict V) → Dict.get k d ≡ some v → member k (keys d) ≡ true
  unfolding Dict.get member
  member-keys_iff k v [] h = ground arith
  member-keys_iff k v ((i, w) ∷ d) h = ground (arith, member-keys_iff k v d)
