-- ===== src/Crdt/OrSet/Converge.antt =====
-- `ORSet` converges: merging is a join of what was observed, additions win over removals that did
-- not see them, and replicas that merged the same states agree.
use mathlib.Core.Bool.{Bool-set}
use mathlib.Core.Logic.{∥∥₁_elim}
use mathlib.Core.List.{Perm, Permᴰ}
use onto_ontological_context.Prelude.{
  ◌≡◌, ◌↔◌, refl, ◌∙◌, ap, sym, inl, inr, String, Bool, true, false, not, ◌&&◌, ◌||◌, List, [], ◌∷◌,
  arith, str_eq, eq_refl, eq_iff, Bool-cases, Bool-eq_of_iff, any_of,
}
use onto_ontological_context.Prelude.Texts.{member}
use onto_ontological_context.Crdt.OrSet.{
  OrSet, empty, tags, is_nonempty, add, remove, contains, merge,
}
use onto_ontological_context.Crdt.OrSet.Laws.{
  has, has-update_tags, has-merge_tags, contains_iff, SameState, SameState-contains,
}

merge-has :
    (a b : OrSet) (e t : String)
    → (has (merge a b).adds e t ≡ (has a.adds e t || has b.adds e t))
      × (has (merge a b).rems e t ≡ (has a.rems e t || has b.rems e t))
unfolding merge
merge-has a b e t = (has-merge_tags a.adds b.adds e t, has-merge_tags a.rems b.rems e t)

-- Merging is commutative, associative and idempotent in all that the set shows of its tags.
merge-SameState :
    (a b c : OrSet)
    → SameState (merge a b) (merge b a)
      × SameState (merge (merge a b) c) (merge a (merge b c))
      × SameState (merge a a) a
merge-SameState a b c = (
  record {
    adds = λ e t. ground (arith, merge-has a b e t, merge-has b a e t);
    rems = λ e t. ground (arith, merge-has a b e t, merge-has b a e t);
  },
  record {
    adds = λ e t. ground (
      arith,
      merge-has a b e t,
      merge-has (merge a b) c e t,
      merge-has b c e t,
      merge-has a (merge b c) e t,
    );
    rems = λ e t. ground (
      arith,
      merge-has a b e t,
      merge-has (merge a b) c e t,
      merge-has b c e t,
      merge-has a (merge b c) e t,
    );
  },
  record {
    adds = λ e t. ground (arith, merge-has a a e t);
    rems = λ e t. ground (arith, merge-has a a e t);
  },
)

has-add :
    (e t e' t' : String) (s : OrSet)
    → has (add e t s).adds e' t' ≡ (has s.adds e' t' || (str_eq e e' && str_eq t t'))
unfolding add member
has-add e t e' t' s = ground (arith, has-update_tags e e' t' (t ∷ []) s.adds)

none_of_empty : (t : String) (s : List String) → is_nonempty s ≡ false → member t s ≡ false
unfolding member
none_of_empty t [] h = refl
none_of_empty t (x ∷ s) h = absurd (ground arith)

-- A removal covers every tag that the element was added with.
has-remove :
    (e e' t : String) (s : OrSet)
    → has (remove e s).rems e' t ≡ (has s.rems e' t || (str_eq e e' && has s.adds e t))
unfolding remove
has-remove e e' t s = elim (Bool-cases (is_nonempty (tags e s.adds))) [
  | inl some_tags ↦
      rw some_tags (has-update_tags e e' t (tags e s.adds) s.rems ∙ unfold has in refl)
  | inr no_tags ↦ rw no_tags (unfold has in ground (arith, none_of_empty t (tags e s.adds)))
]

rems-add : (e t : String) (s : OrSet) → (add e t s).rems ≡ s.rems
unfolding add
rems-add e t s = refl

adds-remove : (e : String) (s : OrSet) → (remove e s).adds ≡ s.adds
unfolding remove
adds-remove e s = ground arith

contains_of_tag :
    (e t : String) (s : OrSet)
    → has s.adds e t ≡ true
    → has s.rems e t ≡ false
    → contains e s ≡ true
contains_of_tag e t s added kept = (contains_iff e s).1 (t, added, kept)

-- An addition with a tag that was not removed puts its element into the set, and changes no other.
contains-add :
    (e t e' : String) (s : OrSet)
    → has s.rems e t ≡ false
    → contains e' (add e t s) ≡ (str_eq e e' || contains e' s)
contains-add e t e' s fresh =
    Bool-eq_of_iff (contains e' (add e t s)) (str_eq e e' || contains e' s) was_there now_there
  where
    was_there : contains e' (add e t s) ≡ true → (str_eq e e' || contains e' s) ≡ true
    was_there h =
        let (u, added, kept) = (contains_iff e' (add e t s)).0 h in
        ground (arith, has-add e t e' u s, rems-add e t s, contains_of_tag e' u s)

    now_there : (str_eq e e' || contains e' s) ≡ true → contains e' (add e t s) ≡ true
    now_there h = elim (Bool-cases (str_eq e e')) [
      | inl same ↦ rw (← (eq_iff e e').0 same) (
          contains_of_tag e t (add e t s) (ground (arith, has-add e t e t s, eq_refl e, eq_refl t))
            (rw rems-add fresh))
      | inr other ↦
          let (u, added, kept) = (contains_iff e' s).0 (ground arith) in
          contains_of_tag e' u (add e t s) (ground (arith, has-add e t e' u s)) (rw rems-add kept)
    ]

-- A removal takes its element out of the set, and changes no other.
contains-remove :
    (e e' : String) (s : OrSet) → contains e' (remove e s) ≡ (not (str_eq e e') && contains e' s)
contains-remove e e' s =
    Bool-eq_of_iff (contains e' (remove e s)) (not (str_eq e e') && contains e' s) was_there
      now_there
  where
    was_there : contains e' (remove e s) ≡ true → (not (str_eq e e') && contains e' s) ≡ true
    was_there h =
        let (u, added, kept) = (contains_iff e' (remove e s)).0 h in
        ground (arith, has-remove e e' u s, adds-remove e s, eq_iff e e', contains_of_tag e' u s)

    now_there : (not (str_eq e e') && contains e' s) ≡ true → contains e' (remove e s) ≡ true
    now_there h =
        let (u, added, kept) = (contains_iff e' s).0 (ground arith) in
        contains_of_tag e' u (remove e s) (rw adds-remove added)
          (ground (arith, has-remove e e' u s))

-- An addition with a tag that is new to both replicas wins over a removal that runs at the other
-- one: after the merge, in either direction, the element is there.
add_wins :
    (e t : String) (a b : OrSet)
    → has a.rems e t ≡ false
    → has b.adds e t ≡ false
    → has b.rems e t ≡ false
    → (contains e (merge (add e t a) (remove e b)) ≡ true)
      × (contains e (merge (remove e b) (add e t a)) ≡ true)
add_wins e t a b fa fb fr = (
  there,
  sym (SameState-contains _ _ (merge-SameState (add e t a) (remove e b) empty).0 e) ∙ there,
)
  where
    there : contains e (merge (add e t a) (remove e b)) ≡ true
    there =
        contains_of_tag e t (merge (add e t a) (remove e b))
          (ground (
            arith,
            merge-has (add e t a) (remove e b) e t,
            has-add e t e t a,
            eq_refl e,
            eq_refl t,
          ))
          (ground
            (arith, merge-has (add e t a) (remove e b) e t, rems-add e t a, has-remove e e t b))

-- A replica that merges the states of others as they arrive.
pub receive : OrSet → List OrSet → OrSet
receive s [] = s
receive s (x ∷ xs) = receive (merge s x) xs

receive-has :
    (s : OrSet) (xs : List OrSet) (e t : String)
    → (has (receive s xs).adds e t ≡ (has s.adds e t || any_of (λ (x : OrSet). has x.adds e t) xs))
      × (has (receive s xs).rems e t
          ≡ (has s.rems e t || any_of (λ (x : OrSet). has x.rems e t) xs))
unfolding receive
receive-has s [] e t = (ground arith, ground arith)
receive-has s (x ∷ xs) e t = (
  ground (arith, merge-has s x e t, receive-has (merge s x) xs e t),
  ground (arith, merge-has s x e t, receive-has (merge s x) xs e t),
)

any_of-perm : (p : OrSet → Bool) {xs ys : List OrSet} → Permᴰ xs ys → any_of p xs ≡ any_of p ys
any_of-perm p Permᴰ.nil = refl
any_of-perm p (Permᴰ.cons e d) = cc (ap p e, any_of-perm p d)
any_of-perm p (Permᴰ.swap e e') = ground (arith, ap p e, ap p e')
any_of-perm p (Permᴰ.trans d d') = any_of-perm p d ∙ any_of-perm p d'

receive_any :
    (s : OrSet) (xs : List OrSet) (e t : String)
    → (has (receive s xs).adds e t ≡ any_of (λ (x : OrSet). has x.adds e t) (s ∷ xs))
      × (has (receive s xs).rems e t ≡ any_of (λ (x : OrSet). has x.rems e t) (s ∷ xs))
receive_any s xs e t = (ground (arith, receive-has s xs e t), ground (arith, receive-has s xs e t))

receive-SameState :
    (a b : OrSet) {xs ys : List OrSet}
    → Permᴰ (a ∷ xs) (b ∷ ys)
    → SameState (receive a xs) (receive b ys)
receive-SameState a b {xs} {ys} d = record {
  adds = λ e t.
      (receive_any a xs e t).0
      ∙ any_of-perm (λ (x : OrSet). has x.adds e t) d
      ∙ sym (receive_any b ys e t).0;
  rems = λ e t.
      (receive_any a xs e t).1
      ∙ any_of-perm (λ (x : OrSet). has x.rems e t) d
      ∙ sym (receive_any b ys e t).1;
}

-- An element was added with a tag by one of the states, and with this tag removed by none.
abbrev pub Survives : String → List OrSet → Type 0
Survives e xs =
    (t : String) × (any_of (λ (x : OrSet). has x.adds e t) xs ≡ true)
    × (any_of (λ (x : OrSet). has x.rems e t) xs ≡ false)

receive-Survives :
    (s : OrSet) (xs : List OrSet) (e : String)
    → (contains e (receive s xs) ≡ true) ↔ Survives e (s ∷ xs)
receive-Survives s xs e = (
  λ inside.
      let (t, added, kept) = (contains_iff e (receive s xs)).0 inside in
      (t, sym (receive_any s xs e t).0 ∙ added, sym (receive_any s xs e t).1 ∙ kept),
  λ (t, added, kept).
      contains_of_tag e t (receive s xs) ((receive_any s xs e t).0 ∙ added)
        ((receive_any s xs e t).1 ∙ kept),
)

-- A replica that has merged states contains an element exactly if one of them, its own included, added
-- it with a tag that none of them removed. So two replicas agree if the states that they started from
-- and merged are the same up to order: each may be the start of one, and arrive at the other.
pub receive_converges :
    (a b : OrSet) (xs ys : List OrSet) (e : String)
    → Perm (a ∷ xs) (b ∷ ys)
    → ((contains e (receive a xs) ≡ true) ↔ Survives e (a ∷ xs))
      × (contains e (receive a xs) ≡ contains e (receive b ys))
receive_converges a b xs ys e p = (
  receive-Survives a xs e,
  ∥∥₁_elim p (Bool-set _ _)
      (λ d. SameState-contains (receive a xs) (receive b ys) (receive-SameState a b d) e),
)
