-- ===== src/Crdt/OrSet/Laws.antt =====
-- `ORSet` by its observations: which tags an element was added and removed with.
use onto_ontological_context.Prelude.{
  ◌≡◌, refl, ◌↔◌, inl, inr, String, Bool, true, false, ◌&&◌, ◌||◌, List, [], ◌∷◌, arith,
  if◌then◌else◌, str_eq, eq_iff, eq_refl, Bool-cases, Bool-eq_of_iff,
}
use onto_ontological_context.Prelude.Dict
use onto_ontological_context.Prelude.Dict.{
  Dict, keys, tabulate, get_or-set, get_or-tabulate, get_or_absent,
}
use onto_ontological_context.Prelude.Texts.{
  member, union, difference, member-union, member-difference, member-select,
}
use onto_ontological_context.Crdt.OrSet.{
  OrSet, tags, is_nonempty, update_tags, contains, elements, merge_tags,
}

-- `tag in d.get(element, set())`
unfoldable pub has : Dict (List String) → String → String → Bool
has d e t = member t (tags e d)

pub has-update_tags :
    (e e' t : String) (new : List String) (d : Dict (List String))
    → has (update_tags e new d) e' t ≡ (has d e' t || (str_eq e e' && member t new))
unfolding has update_tags tags
has-update_tags e e' t new d = ground (
  arith,
  get_or-set e' e (union (Dict.get_or e [] d) new) [] d,
  member-union t (Dict.get_or e [] d) new,
  eq_iff e e',
)

outside_tags :
    (a b : Dict (List String)) (e : String)
    → member e (union (keys a) (keys b)) ≡ false
    → (tags e a ≡ []) × (tags e b ≡ [])
unfolding tags
outside_tags a b e h = (
  get_or_absent e [] a (ground (arith, member-union e (keys a) (keys b))),
  get_or_absent e [] b (ground (arith, member-union e (keys a) (keys b))),
)

tags-tabulate :
    (f : String → List String) (ks : List String) (e : String)
    → tags e (tabulate f ks) ≡ (if member e ks then f e else [])
unfolding tags
tags-tabulate f ks e = get_or-tabulate e [] f ks

pub has-merge_tags :
    (a b : Dict (List String)) (e t : String) → has (merge_tags a b) e t ≡ (has a e t || has b e t)
unfolding has merge_tags member
has-merge_tags a b e t = elim (Bool-cases (member e (union (keys a) (keys b)))) [
  | inl inside ↦
      rw (tags-tabulate (λ k. union (tags k a) (tags k b)) (union (keys a) (keys b)) e, inside)
        (member-union t (tags e a) (tags e b))
  | inr away ↦
      let (na, nb) = outside_tags a b e away in
      rw
        (tags-tabulate (λ k. union (tags k a) (tags k b)) (union (keys a) (keys b)) e, away, na, nb)
]

nonempty_of_member : (t : String) (s : List String) → member t s ≡ true → is_nonempty s ≡ true
unfolding member
nonempty_of_member t [] h = h
nonempty_of_member t (x ∷ s) h = refl

member_of_nonempty : (s : List String) → is_nonempty s ≡ true → (t : String) × (member t s ≡ true)
unfolding member
member_of_nonempty [] h = cc
member_of_nonempty (x ∷ s) h = (x, rw (eq_refl x))

-- An element is in the set exactly when it was added with a tag that was not removed.
pub contains_iff :
    (e : String) (s : OrSet)
    → (contains e s ≡ true) ↔ ((t : String) × (has s.adds e t ≡ true) × (has s.rems e t ≡ false))
unfolding contains has
contains_iff e s = (
  λ h.
      let (t, inside) = member_of_nonempty _ h in
      (
        t,
        ground (arith, member-difference t (tags e s.adds) (tags e s.rems)),
        ground (arith, member-difference t (tags e s.adds) (tags e s.rems)),
      ),
  λ (t, added, kept).
      nonempty_of_member t _ (ground (arith, member-difference t (tags e s.adds) (tags e s.rems))),
)

-- Two states show the same tags.
pub record SameState (a b : OrSet) : Type 0 where
  pub adds : (e t : String) → has a.adds e t ≡ has b.adds e t
  pub rems : (e t : String) → has a.rems e t ≡ has b.rems e t

contains_mono :
    (a b : OrSet) → SameState a b → (e : String) → contains e a ≡ true → contains e b ≡ true
contains_mono a b same e h =
    let (t, added, kept) = (contains_iff e a).0 h in
    (contains_iff e b).1 (t, ground (arith, same.adds e t), ground (arith, same.rems e t))

pub SameState-contains : (a b : OrSet) → SameState a b → (e : String) → contains e a ≡ contains e b
SameState-contains a b same e =
    Bool-eq_of_iff (contains e a) (contains e b) (contains_mono a b same e) (
      contains_mono b a
        (record {
          adds = λ x t. ground (arith, same.adds x t);
          rems = λ x t. ground (arith, same.rems x t);
        })
        e)

-- The elements that the set lists are those that it contains.
member-elements : (e : String) (s : OrSet) → member e (elements s) ≡ contains e s
unfolding elements
member-elements e s = elim (Bool-cases (member e (keys s.adds))) [
  | inl inside ↦ rw (member-select, inside)
  | inr away ↦ rw (member-select, away) (absent e s away)
]
  where
    absent : (e : String) (s : OrSet) → member e (keys s.adds) ≡ false → false ≡ contains e s
    absent e s away = unfold contains tags difference in rw (get_or_absent e [] s.adds away)
