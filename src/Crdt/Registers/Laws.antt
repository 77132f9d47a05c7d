-- ===== src/Crdt/Registers/Laws.antt =====
-- When the last-writer-wins register converges, and that the grow-only set is a join.
use native.Mathlib.Decide.{ℕ_discrete}
use onto_ontological_context.Prelude.{
  ℕ, ◌≡◌, ap, sym, ◌∙◌, ◌+◌, eq_iff, ◌≢◌, ◌↔◌, ◌⊎◌, inl, inr, String, ◌||◌, [], ◌∷◌, arith, str_eq,
  max, if◌then◌else◌,
}
use onto_ontological_context.Prelude.Dict
use onto_ontological_context.Prelude.Dict.{
  Dict, keys, tabulate, get_or-set, get_or-tabulate, get_or_absent,
}
use onto_ontological_context.Prelude.Texts.{member, union, member-union}
use onto_ontological_context.Crdt.Registers.{
  LwwRegister, merge_registers, GSet, insert, merge_sets, PnCounter, amount, increment, decrement,
  merge_amounts, merge_counters,
}

module _ {A : Type 0} where
  merge_tie : (a b : LwwRegister A) → a.ts ≡ b.ts → merge_registers a b ≡ a
  unfolding merge_registers
  merge_tie a b e = ground arith

  agree_apart :
      (a b : LwwRegister A)
      → merge_registers a b ≡ merge_registers b a
      → (a.ts ≢ b.ts) ⊎ (a.value ≡ b.value)
  agree_apart a b e = elim (ℕ_discrete a.ts b.ts) [
    | yes tie ↦ inr (ap (λ r. r.value) (sym (merge_tie a b tie) ∙ e ∙ merge_tie b a (sym tie)))
    | no apart ↦ inl apart
  ]

  -- Merging registers is associative and idempotent, and the time of a merge is the later one. Two
  -- replicas that merge each other's register agree exactly when the times differ or the values are
  -- the same: on a tie each keeps its own value.
  merge_registers_lem :
      (a b c : LwwRegister A)
      → (merge_registers (merge_registers a b) c ≡ merge_registers a (merge_registers b c))
        × (merge_registers a a ≡ a)
        × ((merge_registers a b).ts ≡ max a.ts b.ts)
        × ((merge_registers a b ≡ merge_registers b a) ↔ ((a.ts ≢ b.ts) ⊎ (a.value ≡ b.value)))
  unfolding merge_registers
  merge_registers_lem a b c =
      (ground arith, ground arith, ground arith, (agree_apart a b, λ h. ground arith))

-- The merge of two sets holds what either holds, and an insertion adds its element alone.
member-merge_sets :
    (x y : String) (a b : GSet)
    → (member x (merge_sets a b) ≡ (member x a || member x b))
      × (member x (insert y a) ≡ (member x a || str_eq y x))
unfolding merge_sets insert
member-merge_sets x y a b =
    (member-union x a b, unfold member in ground (arith, member-union x a (y ∷ [])))

amount-merge_amounts :
    (a b : Dict ℕ) (n : String) → amount n (merge_amounts a b) ≡ max (amount n a) (amount n b)
unfolding amount merge_amounts
amount-merge_amounts a b n = ground (
  arith,
  get_or-tabulate n 0 (λ m. max (Dict.get_or m 0 a) (Dict.get_or m 0 b)) (union (keys a) (keys b)),
  member-union n (keys a) (keys b),
  get_or_absent n 0 a,
  get_or_absent n 0 b,
)

amount-set :
    (m n : String) (v : ℕ) (d : Dict ℕ)
    → amount n (Dict.set m v d) ≡ (if str_eq m n then v else amount n d)
unfolding amount
amount-set m n v d = get_or-set n m v 0 d

-- Two replicas of a counter that count at nodes of their own lose nothing: after the merge every node
-- has what it had, and the two that counted have their new amounts in addition, of increments and of
-- decrements alike.
merge_counters-keeps :
    (c : PnCounter) (m n k : String) (x y : ℕ)
    → m ≢ n
    → (amount k (merge_counters (increment m x c) (increment n y c)).positive
        ≡ amount k c.positive + (if str_eq m k then x else 0) + (if str_eq n k then y else 0))
      × (amount k (merge_counters (decrement m x c) (decrement n y c)).negative
          ≡ amount k c.negative + (if str_eq m k then x else 0) + (if str_eq n k then y else 0))
unfolding merge_counters increment decrement
merge_counters-keeps c m n k x y apart = (kept c.positive, kept c.negative)
  where
    kept :
        (d : Dict ℕ)
        → amount k (merge_amounts (Dict.set m (amount m d + x) d) (Dict.set n (amount n d + y) d))
          ≡ amount k d + (if str_eq m k then x else 0) + (if str_eq n k then y else 0)
    kept d = ground (
      arith,
      amount-merge_amounts (Dict.set m (amount m d + x) d) (Dict.set n (amount n d + y) d) k,
      amount-set m k (amount m d + x) d,
      amount-set n k (amount n d + y) d,
      eq_iff m k,
      eq_iff n k,
    )
