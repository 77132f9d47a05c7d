-- ===== src/Memory/Tail.antt =====
-- modules/memory.py: `verify_chain_tail` finds no gap in a recorded history.
use mathlib.Core.List.{reverse, reverse-append, reverse-reverse}
use onto_ontological_context.Prelude.{
  ℕ, zero, suc, ◌≡◌, refl, ap, sym, ◌∙◌, true, some, List, [], ◌∷◌, ◌++◌, leb, Bool-cases, inl, inr,
  length,
}
use onto_ontological_context.Memory.{Event, Content, Entry, empty_db, content, record_all}
use onto_ontological_context.Memory.Chain.{limit, tail_gaps, tail_records, verify_chain_tail}
use onto_ontological_context.Memory.Linked.{
  IsLinked, IsLinked-drop, record_all-IsLinked, same_hash_iff,
}
use mathlib.Core.Path.{subst}

skip {ℓ} : {A : Type ℓ} → ℕ → List A → List A
skip zero l = l
skip (suc n) [] = []
skip (suc n) (x ∷ l) = skip n l

limit-skip {ℓ} : {A : Type ℓ} (n : ℕ) (l : List A) → limit n l ++ skip n l ≡ l
unfolding skip
limit-skip zero l = refl
limit-skip (suc n) [] = refl
limit-skip (suc n) (x ∷ l) = ap (◌∷◌ x) (limit-skip n l)

-- The last `n` records are what is left behind some first ones.
tail_records-append :
    {Hash : Type 0} (n : ℕ) (rs : List (Event Hash))
    → reverse (skip n (reverse rs)) ++ tail_records n rs ≡ rs
unfolding tail_records
tail_records-append n rs =
    sym (reverse-append (limit n (reverse rs)) (skip n (reverse rs)))
    ∙ ap reverse (limit-skip n (reverse rs))
    ∙ reverse-reverse rs

module _ {Hash : Type 0} (dec : Discrete Hash) (digest : Content → Hash) where
  tail_gaps-linked : (rs : List (Event Hash)) → IsLinked digest rs → tail_gaps dec digest rs ≡ []
  unfolding tail_gaps
  tail_gaps-linked [] l = refl
  tail_gaps-linked (p ∷ []) l = refl
  tail_gaps-linked (p ∷ r ∷ rs) l =
      rw ((same_hash_iff dec r.chain_hash (some (digest (content p)))).1 l.0)
        (tail_gaps-linked (r ∷ rs) l.1)

  -- Of a recorded history `verify_chain_tail` reports every tail intact, with no gap.
  verify_chain_tail-intact :
      (n : ℕ) (calls : List (ℕ × Entry))
      → ((verify_chain_tail dec digest n (record_all digest calls empty_db).events).intact ≡ true)
        × ((verify_chain_tail dec digest n (record_all digest calls empty_db).events).gaps ≡ [])
  unfolding verify_chain_tail
  verify_chain_tail-intact n calls =
      let events = (record_all digest calls empty_db).events in
      let clean = tail_gaps-linked (tail_records n events) (
        IsLinked-drop digest (reverse (skip n (reverse events))) (tail_records n events) (
          subst (λ es. IsLinked digest es) (sym (tail_records-append n events))
            (record_all-IsLinked digest calls empty_db tt))) in
      elim (Bool-cases (leb (length (tail_records n events)) 1)) [
        | inl short ↦ rw short (refl, refl)
        | inr long ↦ rw (long, clean) (refl, refl)
      ]
