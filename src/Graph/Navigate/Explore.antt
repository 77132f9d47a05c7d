-- ===== src/Graph/Navigate/Explore.antt =====
-- The loops of the breadth-first search return only what is sound.
use onto_ontological_context.Prelude.{
  ℕ, zero, suc, ◌+◌, ◌-◌, ◌≡◌, refl, inl, inr, Bool, true, false, not, ◌&&◌, ◌||◌, List, [], ◌∷◌,
  arith, All, ◌==◌, if◌then◌else◌, Bool-cases,
}
use onto_ontological_context.Prelude.Unique.{All-weaken}
use onto_ontological_context.Graph.{Node, Edge, Graph}
use onto_ontological_context.Graph.Maintain.{is_zero}
use onto_ontological_context.Graph.Navigate.{
  Context, Scoring, effective_weight, member_id, degree_of, other_end, rows_at, Results,
  found_weight, put_result, improves, context_of, Search, visit_row, visit_rows, visit_frontier,
  search_from,
}
use onto_ontological_context.Graph.Navigate.Sound.{Reach, over_edge, IsSound, IsRow, rows_at-IsRow}

-- Where the search stands at a depth.
abbrev pub SearchOk : Graph → List ℕ → Bool → ℕ → Search → Type 0
SearchOk g seed_ids include_sensitive depth s =
    All (λ (r : ℕ × Context). IsSound g seed_ids include_sensitive depth (r.1)) s.results
    × ((i : ℕ) → member_id i s.visited ≡ false → member_id i seed_ids ≡ false)
    × All (λ i. Reach g.edges seed_ids depth i) s.next_frontier

put_result-All :
    (P : Context → Type 0) (id : ℕ) (k : Context) (results : Results)
    → P k
    → All (λ (r : ℕ × Context). P (r.1)) results
    → All (λ (r : ℕ × Context). P (r.1)) (put_result id k results)
unfolding put_result
put_result-All P id k [] h all = (h, tt)
put_result-All P id k ((i, j) ∷ results) h all = elim (Bool-cases (i == id)) [
  | inl e ↦ rw e (h, all.1)
  | inr e ↦ rw e (all.0, put_result-All P id k results h all.1)
]

either-All :
    (P : Context → Type 0) (b : Bool) (x y : Results)
    → All (λ (r : ℕ × Context). P (r.1)) x
    → All (λ (r : ℕ × Context). P (r.1)) y
    → All (λ (r : ℕ × Context). P (r.1)) (if b then x else y)
either-All P true x y hx hy = hx
either-All P false x y hx hy = hy

member_id-tail : (i j : ℕ) (ids : List ℕ) → member_id i (j ∷ ids) ≡ false → member_id i ids ≡ false
unfolding member_id
member_id-tail i j ids h = ground arith

members-of_All :
    (P : ℕ → Type 0) (ids : List ℕ) → All P ids → (i : ℕ) → member_id i ids ≡ true → P i
unfolding member_id
members-of_All P [] all i h = ground arith
members-of_All P (j ∷ ids) all i h = elim (Bool-cases (j == i)) [
  | inl e ↦ let same : i ≡ j = ground arith in rw same all.0
  | inr e ↦ members-of_All P ids all.1 i (ground arith)
]

pub All-of_members :
    (P : ℕ → Type 0) (ids : List ℕ) → ((i : ℕ) → member_id i ids ≡ true → P i) → All P ids
unfolding member_id
All-of_members P [] h = tt
All-of_members P (j ∷ ids) h =
    (h j (ground arith), All-of_members P ids (λ i there. h i (ground arith)))

IsSound-suc :
    (g : Graph) (seed_ids : List ℕ) (include_sensitive : Bool) (depth : ℕ) (k : Context)
    → IsSound g seed_ids include_sensitive depth k
    → IsSound g seed_ids include_sensitive (suc depth) k
unfolding IsSound
IsSound-suc g seed_ids include_sensitive depth k
      (id, n, d, found, same, fresh, allowed, near, reach) =
    (id, n, d, found, same, fresh, allowed, omega arith, reach)

module _ (sc : Scoring) (include_sensitive : Bool) (now : ℕ) (g : Graph) (seed_ids : List ℕ) where
  visit_row-SearchOk :
      (depth node_id : ℕ) (row : Edge × Node) (s : Search)
      → Reach g.edges seed_ids depth node_id
      → IsRow g node_id g.edges row
      → SearchOk g seed_ids include_sensitive (suc depth) s
      → SearchOk g seed_ids include_sensitive
          (suc depth)
          (visit_row sc include_sensitive now g node_id row s)
  unfolding visit_row IsSound context_of
  visit_row-SearchOk depth node_id (e, n) s reach (found, along) (sound, seeds, frontier) =
      let j = other_end node_id e in
      let degree = degree_of j g.edges in
      let ew =
        effective_weight sc e.weight (now - e.last_reinforced) n g.total_inputs_processed degree
          e.is_sensitive e.times_seen in
      let there : Reach g.edges seed_ids (suc depth) j = over_edge depth node_id j reach along in
      elim (Bool-cases
        (member_id j s.visited || not include_sensitive && n.is_sensitive || is_zero ew)) [
          | inl skip ↦ rw skip (sound, seeds, frontier)
          | inr keep ↦
              let fresh : member_id j s.visited ≡ false = ground arith in
              let allowed : include_sensitive || not n.is_sensitive ≡ true = ground arith in
              let k = context_of n (sc.round_weight ew) (now - e.last_reinforced) degree in
              let right : IsSound g seed_ids include_sensitive (suc depth) k =
                (j, n, suc depth, found, refl, seeds j fresh, allowed, omega arith, there) in
              rw keep (
                either-All (IsSound g seed_ids include_sensitive (suc depth))
                    (improves ew (found_weight j s.results)) (put_result j k s.results) s.results
                    (put_result-All (IsSound g seed_ids include_sensitive (suc depth)) j k s.results
                      right sound)
                    sound,
                λ i h. seeds i (member_id-tail i j s.visited h),
                (there, frontier),
              )
        ]

  visit_rows-SearchOk :
      (depth node_id : ℕ) (rows : List (Edge × Node)) (s : Search)
      → Reach g.edges seed_ids depth node_id
      → All (IsRow g node_id g.edges) rows
      → SearchOk g seed_ids include_sensitive (suc depth) s
      → SearchOk g seed_ids include_sensitive
          (suc depth)
          (visit_rows sc include_sensitive now g node_id rows s)
  unfolding visit_rows
  visit_rows-SearchOk depth node_id [] s reach all ok = ok
  visit_rows-SearchOk depth node_id (row ∷ rows) s reach all ok =
      visit_rows-SearchOk depth node_id rows (visit_row sc include_sensitive now g node_id row s)
        reach all.1 (visit_row-SearchOk depth node_id row s reach all.0 ok)

  visit_frontier-SearchOk :
      (depth : ℕ) (ids : List ℕ) (s : Search)
      → All (λ i. Reach g.edges seed_ids depth i) ids
      → SearchOk g seed_ids include_sensitive (suc depth) s
      → SearchOk g seed_ids include_sensitive
          (suc depth)
          (visit_frontier sc include_sensitive now g ids s)
  unfolding visit_frontier
  visit_frontier-SearchOk depth [] s all ok = ok
  visit_frontier-SearchOk depth (id ∷ ids) s all ok =
      visit_frontier-SearchOk depth ids
        (visit_rows sc include_sensitive now g id (rows_at id g.nodes g.edges) s) all.1
        (visit_rows-SearchOk depth id (rows_at id g.nodes g.edges) s all.0
          (rows_at-IsRow g id g.edges) ok)

  pub search_from-IsSound :
      (iterate : List ℕ → List ℕ) (done left total : ℕ) (frontier : List ℕ) (s : Search)
      → done + left ≡ total
      → ((ids : List ℕ) (i : ℕ) → member_id i (iterate ids) ≡ true → member_id i ids ≡ true)
      → All (λ i. Reach g.edges seed_ids done i) frontier
      → All (λ (r : ℕ × Context). IsSound g seed_ids include_sensitive done (r.1)) s.results
      → ((i : ℕ) → member_id i s.visited ≡ false → member_id i seed_ids ≡ false)
      → All
          (λ (r : ℕ × Context). IsSound g seed_ids include_sensitive total (r.1))
          (search_from sc iterate include_sensitive now g left frontier s).results
  unfolding search_from
  search_from-IsSound iterate done zero total frontier s sum walks reach sound seeds =
      let all_done : total ≡ done = omega arith in rw all_done sound
  search_from-IsSound iterate done (suc left) total frontier s sum walks reach sound seeds =
      let next =
        visit_frontier sc include_sensitive now g (iterate frontier)
          (record s { next_frontier = [] }) in
      let (sound1, seeds1, reach1) =
        visit_frontier-SearchOk done (iterate frontier) (record s { next_frontier = [] })
          (All-of_members (λ i. Reach g.edges seed_ids done i) (iterate frontier)
            (λ i h.
              members-of_All (λ i. Reach g.edges seed_ids done i) frontier reach i
                (walks frontier i h)))
          (
            All-weaken (λ (r : ℕ × Context). IsSound g seed_ids include_sensitive done (r.1))
                s.results (λ r h. IsSound-suc g seed_ids include_sensitive done (r.1) h) sound,
            seeds,
            tt,
          ) in
      search_from-IsSound iterate (suc done) left total next.next_frontier next (omega arith) walks
        reach1 sound1 seeds1
