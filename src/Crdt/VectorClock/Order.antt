-- ===== src/Crdt/VectorClock/Order.antt =====
-- Vector clocks by their components: the order, its joins, and what the comparisons decide.
use onto_ontological_context.Prelude.{
  ℕ, ◌+◌, ◌≤◌, ◌<◌, max, ◌≡◌, ◌≢◌, ◌↔◌, ◌⊎◌, inl, inr, String, Bool, true, false, ◌||◌, List, [],
  ◌∷◌, arith, ltb, if◌then◌else◌, str_eq, eq_iff, Bool-cases,
}
use onto_ontological_context.Prelude.Dict.{
  keys, tabulate, get_or-set, get_or-tabulate, get_or_absent,
}
use onto_ontological_context.Prelude.Texts.{member, member-union}
use onto_ontological_context.Crdt.VectorClock.{
  VectorClock, at, increment, all_nodes, merge, dominates_over, dominates,
}

-- No component of the first clock is above that of the second.
abbrev pub Below : VectorClock → VectorClock → Type 0
Below a b = (n : String) → at a n ≤ at b n

-- Some component of the first is under that of the second.
abbrev pub Behind : VectorClock → VectorClock → Type 0
Behind a b = (n : String) × (at a n < at b n)

abbrev pub Same : VectorClock → VectorClock → Type 0
Same a b = (n : String) → at a n ≡ at b n

outside :
    (a b : VectorClock) (n : String)
    → member n (all_nodes a b) ≡ false
    → (at a n ≡ 0) × (at b n ≡ 0)
unfolding all_nodes at
outside a b n h = (
  get_or_absent n 0 a (ground (arith, member-union n (keys a) (keys b))),
  get_or_absent n 0 b (ground (arith, member-union n (keys a) (keys b))),
)

at-tabulate :
    (f : String → ℕ) (ks : List String) (n : String)
    → at (tabulate f ks) n ≡ (if member n ks then f n else 0)
unfolding at
at-tabulate f ks n = get_or-tabulate n 0 f ks

at-merge : (a b : VectorClock) (n : String) → at (merge a b) n ≡ max (at a n) (at b n)
unfolding merge
at-merge a b n =
    ground (arith, at-tabulate (λ m. max (at a m) (at b m)) (all_nodes a b) n, outside a b n)

at-increment :
    (m n : String) (c : VectorClock)
    → at (increment m c) n ≡ (if str_eq m n then at c m + 1 else at c n)
unfolding increment at
at-increment m n c = get_or-set n m (at c m + 1) 0 c

-- The merge of two clocks is above both, and below every clock that is above both.
merge-lub :
    (a b c : VectorClock)
    → Below a c
    → Below b c
    → Below a (merge a b) × Below b (merge a b) × Below (merge a b) c
merge-lub a b c ac bc = (
  λ n. omega (arith, at-merge a b n),
  λ n. omega (arith, at-merge a b n),
  λ n. omega (arith, at-merge a b n, ac n, bc n),
)

-- The loop answers yes exactly when no node of the list is behind, and one is ahead or was before.
dominates_over_sound :
    (a b : VectorClock) (g : Bool) (ns : List String)
    → dominates_over a b g ns ≡ true
    → ((n : String) → member n ns ≡ true → at b n ≤ at a n) × ((g ≡ true) ⊎ Behind b a)
unfolding dominates_over member
dominates_over_sound a b g [] h = (λ n m. absurd (ground arith), inl h)
dominates_over_sound a b g (m ∷ ns) h =
    let (all, some_ahead) =
      dominates_over_sound a b (ltb (at b m) (at a m) || g) ns (ground arith) in
    (
      λ n inside. ground (arith, all n, eq_iff m n),
      elim some_ahead [
        | inl e ↦ elim (Bool-cases g) [ inl was ↦ inl was | inr not_yet ↦ inr (m, ground arith) ]
        | inr ahead ↦ inr ahead
      ],
    )

dominates_over_complete :
    (a b : VectorClock) (g : Bool) (ns : List String)
    → Below b a
    → (g ≡ true) ⊎ ((n : String) × (at b n < at a n) × (member n ns ≡ true))
    → dominates_over a b g ns ≡ true
unfolding dominates_over member
dominates_over_complete a b g [] below e = ground arith
dominates_over_complete a b g (m ∷ ns) below e =
    ground
      (arith, below m, dominates_over_complete a b (ltb (at b m) (at a m) || g) ns below (ahead e))
  where
    ahead :
        (g ≡ true) ⊎ ((n : String) × (at b n < at a n) × (member n (m ∷ ns) ≡ true))
        → ((ltb (at b m) (at a m) || g) ≡ true)
          ⊎ ((n : String) × (at b n < at a n) × (member n ns ≡ true))
    ahead (inl was) = inl (ground arith)
    ahead (inr (n, lt, inside)) = elim (Bool-cases (str_eq m n)) [
      | inl same ↦ inl (let e : m ≡ n = (eq_iff m n).0 same in rw e (ground arith))
      | inr other ↦ inr (n, lt, ground arith)
    ]

-- A clock that is behind somewhere is so at a node of one of the two.
pub inside_of_ne :
    (a b : VectorClock) (n : String) → at a n ≢ at b n → member n (all_nodes a b) ≡ true
inside_of_ne a b n ne = elim (Bool-cases (member n (all_nodes a b))) [
  | inl inside ↦ inside
  | inr away ↦ absurd (omega (arith, outside a b n away))
]

-- `dominates` decides the causal order: it holds exactly when every component is at least the other's
-- and one is greater.
pub dominates_iff : (a b : VectorClock) → (dominates a b ≡ true) ↔ (Below b a × Behind b a)
unfolding dominates
dominates_iff a b = (
  λ h.
      let (all, ahead) = dominates_over_sound a b false (all_nodes a b) h in
      (
        λ n. elim (Bool-cases (member n (all_nodes a b))) [
          | inl inside ↦ all n inside
          | inr away ↦ omega (arith, outside a b n away)
        ],
        elim ahead [ inl e ↦ absurd (ground arith) | inr w ↦ w ],
      ),
  λ h.
      let (n, lt) = h.1 in
      dominates_over_complete a b false (all_nodes a b) h.0
        (inr (n, lt, inside_of_ne a b n (λ e. omega arith))),
)

-- An event at a node moves its clock ahead of where it was.
increment-dominates : (n : String) (c : VectorClock) → dominates (increment n c) c ≡ true
increment-dominates n c = (dominates_iff (increment n c) c).1 (
  λ m. ground (arith, at-increment n m c, eq_iff n m),
  (n, ground (arith, at-increment n n c, eq_iff n n)),
)
