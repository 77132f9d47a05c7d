-- ===== src/Crdt/VectorClock/Compare.antt =====
-- What the answers of `vclock_compare` and `detect_conflict` mean, and what two nodes conclude that
-- compare the same two writes from their own side.
use onto_ontological_context.Prelude.{
  ℕ, ◌≡◌, refl, ◌≢◌, ◌↔◌, ◌⊎◌, inl, inr, String, Bool, true, false, List, [], ◌∷◌, arith, str_eq,
  ◌==◌, ==_iff, all_of, eq_iff, Bool-cases, Bool-eq_of_iff,
}
use onto_ontological_context.Prelude.Texts.{member}
use onto_ontological_context.Crdt.VectorClock.{
  VectorClock, at, all_nodes, dominates, is_concurrent_with, equals, Comparison, equal, a_dominates,
  b_dominates, concurrent, vclock_compare, Outcome, local_wins, remote_wins, conflict,
  detect_conflict,
}
use onto_ontological_context.Crdt.VectorClock.Order.{
  Below, Behind, Same, inside_of_ne, dominates_iff,
}

all_of_sound :
    (p : String → Bool) (ns : List String) (n : String)
    → all_of p ns ≡ true
    → member n ns ≡ true
    → p n ≡ true
unfolding member
all_of_sound p [] n h m = absurd (ground arith)
all_of_sound p (m ∷ ns) n h inside = elim (Bool-cases (str_eq m n)) [
  | inl e ↦ rw (← (eq_iff m n).0 e) (ground arith)
  | inr other ↦ all_of_sound p ns n (ground arith) (ground arith)
]

-- A test that fails somewhere in a list fails at an element of it.
all_of_fails :
    (p : String → Bool) (ns : List String) → all_of p ns ≡ false → (n : String) × (p n ≡ false)
all_of_fails p [] h = absurd (ground arith)
all_of_fails p (m ∷ ns) h = elim (Bool-cases (p m)) [
  | inl holds ↦ all_of_fails p ns (ground arith)
  | inr fails ↦ (m, fails)
]

all_of_everywhere :
    (p : String → Bool) (ns : List String) → ((n : String) → p n ≡ true) → all_of p ns ≡ true
all_of_everywhere p [] h = refl
all_of_everywhere p (m ∷ ns) h = ground (arith, h m, all_of_everywhere p ns h)

equals_iff : (a b : VectorClock) → (equals a b ≡ true) ↔ Same a b
unfolding equals
equals_iff a b = (
  λ h n. elim (Bool-cases (at a n == at b n)) [
    | inl e ↦ (==_iff _ _).0 e
    | inr ne ↦ absurd (
        ground (
          arith,
          all_of_sound (λ m. at a m == at b m) (all_nodes a b) n h
              (inside_of_ne a b n (λ e. ground arith)),
        ))
  ],
  λ same. all_of_everywhere _ (all_nodes a b) (λ n. (==_iff _ _).1 (same n)),
)

differ_somewhere : (a b : VectorClock) → equals a b ≡ false → (n : String) × (at a n ≢ at b n)
unfolding equals
differ_somewhere a b h =
    let (n, ne) = all_of_fails (λ m. at a m == at b m) (all_nodes a b) h in (n, λ e. ground arith)

-- A clock that is not the other, and not ahead of it, is behind it somewhere.
not-Below : (a b : VectorClock) → equals a b ≡ false → dominates b a ≡ false → ¬ Below a b
not-Below a b ne nd below =
    let (n, differ) = differ_somewhere a b ne in
    cc ((dominates_iff b a).1 (below, (n, omega (arith, below n))), nd)

-- What each answer says of the two clocks. The four exclude one another.
abbrev pub Means : Comparison → VectorClock → VectorClock → Type 0
Means equal a b = Same a b
Means a_dominates a b = Below b a × Behind b a
Means b_dominates a b = Below a b × Behind a b
Means concurrent a b = (¬ Below a b) × (¬ Below b a)

equals_sym : (a b : VectorClock) → equals a b ≡ equals b a
equals_sym a b =
    Bool-eq_of_iff (equals a b) (equals b a)
      (λ h. (equals_iff b a).1 (λ n. omega (arith, (equals_iff a b).0 h n)))
      (λ h. (equals_iff a b).1 (λ n. omega (arith, (equals_iff b a).0 h n)))

dominates_asymm : (a b : VectorClock) → dominates a b ≡ true → dominates b a ≡ false
dominates_asymm a b h = elim (Bool-cases (dominates b a)) [
  | inl back ↦
      let (n, lt) = ((dominates_iff a b).0 h).1 in
      absurd (omega (arith, ((dominates_iff b a).0 back).0 n))
  | inr no_back ↦ no_back
]

not_equals_of_dominates : (a b : VectorClock) → dominates a b ≡ true → equals a b ≡ false
not_equals_of_dominates a b h = elim (Bool-cases (equals a b)) [
  | inl same ↦
      let (n, lt) = ((dominates_iff a b).0 h).1 in absurd (omega (arith, (equals_iff a b).0 same n))
  | inr other ↦ other
]

-- `vclock_compare` answers what holds of the two clocks: they agree at every node, or one is at least
-- the other everywhere and ahead somewhere, or each is ahead of the other somewhere.
vclock_compare-Means : (a b : VectorClock) → Means (vclock_compare a b) a b
unfolding vclock_compare
vclock_compare-Means a b = elim (Bool-cases (equals a b)) [
  | inl same ↦ rw same ((equals_iff a b).0 same)
  | inr other ↦ elim (Bool-cases (dominates a b)) [
    | inl ahead ↦ rw (other, ahead) ((dominates_iff a b).0 ahead)
    | inr not_ahead ↦ elim (Bool-cases (dominates b a)) [
      | inl back ↦ rw (other, not_ahead, back) ((dominates_iff b a).0 back)
      | inr not_back ↦
          rw (other, not_ahead, not_back)
            (not-Below a b other not_back, not-Below b a (ground (arith, equals_sym a b)) not_ahead)
    ]
  ]
]

abbrev pub swapped : Comparison → Comparison
swapped equal = equal
swapped a_dominates = b_dominates
swapped b_dominates = a_dominates
swapped concurrent = concurrent

pub vclock_compare-swap : (a b : VectorClock) → vclock_compare b a ≡ swapped (vclock_compare a b)
unfolding vclock_compare
vclock_compare-swap a b = ground (arith, equals_sym a b, dominates_asymm a b, dominates_asymm b a)

abbrev pub mirrored : Outcome → Outcome
mirrored local_wins = remote_wins
mirrored remote_wins = local_wins
mirrored conflict = conflict

not_equals_of_differ : (a b : VectorClock) → ¬ Same a b → equals a b ≡ false
not_equals_of_differ a b differ = elim (Bool-cases (equals a b)) [
  | inl same ↦ absurd (differ ((equals_iff a b).0 same))
  | inr other ↦ other
]

-- Two nodes that compare the same two writes, each from its own side, agree on the winner or on the
-- conflict, if the clocks or the times of the writes differ.
detect_conflict-mirrored :
    (a b : VectorClock) (s t : ℕ)
    → (¬ Same a b) ⊎ (s ≢ t)
    → detect_conflict b a t s ≡ mirrored (detect_conflict a b s t)
unfolding detect_conflict
detect_conflict-mirrored a b s t apart = elim apart [
  | inl differ ↦ ground (
    arith,
    equals_sym a b,
    dominates_asymm a b,
    dominates_asymm b a,
    not_equals_of_differ a b differ,
  )
  | inr times ↦ ground (arith, equals_sym a b, dominates_asymm a b, dominates_asymm b a)
]

-- Of two writes with equal clocks and equal times each node lets its own win.
detect_conflict_tie :
    (a b : VectorClock) (t : ℕ)
    → Same a b
    → (detect_conflict a b t t ≡ local_wins) × (detect_conflict b a t t ≡ local_wins)
unfolding detect_conflict
detect_conflict_tie a b t same = ground (arith, equals_sym a b, (equals_iff a b).1 same)

-- The answer of `is_concurrent_with` is yes for clocks that are ahead of one another, and also for
-- equal ones.
is_concurrent_with_iff :
    (a b : VectorClock)
    → (is_concurrent_with a b ≡ true)
      ↔ ((vclock_compare a b ≡ concurrent) ⊎ (vclock_compare a b ≡ equal))
unfolding is_concurrent_with vclock_compare
is_concurrent_with_iff a b = (
  λ h. ground arith,
  λ h. ground (arith, not_equals_of_dominates a b, not_equals_of_dominates b a, equals_sym a b),
)
