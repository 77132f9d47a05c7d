-- ===== src/Graph/Navigate/Ranked.antt =====
-- The order and the number of the results of `navigate`.
use onto_ontological_context.Prelude.{
  ℕ, zero, suc, ◌≤◌, ◌≡◌, inl, inr, Bool, true, ◌&&◌, List, [], ◌∷◌, arith, All, length, leb,
  Bool-cases,
}
use onto_ontological_context.Prelude.Unique.{All-weaken}
use onto_ontological_context.Graph.{Graph}
use onto_ontological_context.Graph.Navigate.{
  Context, Scoring, Bounds, member_id, Search, search_from, insert_ranked, rank_contexts,
  take_first, contexts_of, Results, navigate_bfs, navigate_ppr, PageRank, search,
}
use onto_ontological_context.Graph.Navigate.Sound.{IsSound, at_seed}
use onto_ontological_context.Graph.Navigate.Explore.{search_from-IsSound, All-of_members}

module _ (P : Context → Type 0) where
  insert_ranked-All :
      (k : Context) (ks : List Context) → P k → All P ks → All P (insert_ranked k ks)
  unfolding insert_ranked
  insert_ranked-All k [] h all = (h, tt)
  insert_ranked-All k (j ∷ js) h all =
      elim (Bool-cases (leb j.effective_weight k.effective_weight)) [
        | inl e ↦ rw e (h, all)
        | inr e ↦ rw e (all.0, insert_ranked-All k js h all.1)
      ]

  rank_contexts-All : (ks : List Context) → All P ks → All P (rank_contexts ks)
  unfolding rank_contexts
  rank_contexts-All [] all = tt
  rank_contexts-All (k ∷ ks) all =
      insert_ranked-All k (rank_contexts ks) all.0 (rank_contexts-All ks all.1)

  take_first-All : (n : ℕ) (ks : List Context) → All P ks → All P (take_first n ks)
  unfolding take_first
  take_first-All zero ks all = tt
  take_first-All (suc n) [] all = tt
  take_first-All (suc n) (k ∷ ks) all = (all.0, take_first-All n ks all.1)

  contexts_of-All :
      (results : Results) → All (λ (r : ℕ × Context). P (r.1)) results → All P (contexts_of results)
  contexts_of-All [] all = tt
  contexts_of-All ((i, k) ∷ results) all = (all.0, contexts_of-All results all.1)

-- The breadth-first search returns contexts of nodes only that live edges connect with a seed within
-- the maximal depth, never a seed, and no sensitive node unless sensitive nodes are asked for, in
-- whatever order Python walks a set.
pub navigate_bfs-IsSound :
    (sc : Scoring) (b : Bounds) (iterate : List ℕ → List ℕ) (seed_ids : List ℕ)
    (include_sensitive : Bool) (now : ℕ) (g : Graph)
    → ((ids : List ℕ) (i : ℕ) → member_id i (iterate ids) ≡ true → member_id i ids ≡ true)
    → All
        (IsSound g seed_ids include_sensitive b.max_depth)
        (navigate_bfs sc b iterate seed_ids include_sensitive now g)
unfolding navigate_bfs
navigate_bfs-IsSound sc b iterate seed_ids include_sensitive now g walks =
    let P = IsSound g seed_ids include_sensitive b.max_depth in
    let start : Search = record { visited = seed_ids; next_frontier = []; results = [] } in
    let found = search_from sc iterate include_sensitive now g b.max_depth seed_ids start in
    take_first-All P b.max_results (rank_contexts (contexts_of found.results)) (
      rank_contexts-All P (contexts_of found.results) (
        contexts_of-All P found.results (
          search_from-IsSound sc include_sensitive now g seed_ids iterate 0 b.max_depth b.max_depth
            seed_ids start (omega arith) walks (All-of_members _ seed_ids (λ i h. at_seed i h)) tt
            (λ i h. h))))

-- The weights do not grow along the list.
abbrev pub IsRanked : List Context → Type 0
IsRanked [] = Unit
IsRanked (k ∷ ks) = All (λ (j : Context). j.effective_weight ≤ k.effective_weight) ks × IsRanked ks

insert_ranked-IsRanked :
    (k : Context) (ks : List Context) → IsRanked ks → IsRanked (insert_ranked k ks)
unfolding insert_ranked
insert_ranked-IsRanked k [] sorted = (tt, tt)
insert_ranked-IsRanked k (j ∷ js) (below, sorted) =
    elim (Bool-cases (leb j.effective_weight k.effective_weight)) [
      | inl e ↦ rw e (
        (
          ground arith,
          All-weaken (λ (i : Context). i.effective_weight ≤ j.effective_weight) js
              (λ i h. ground arith) below,
        ),
        (below, sorted),
      )
      | inr e ↦ rw e (
        insert_ranked-All (λ (i : Context). i.effective_weight ≤ j.effective_weight) k js
            (ground arith) below,
        insert_ranked-IsRanked k js sorted,
      )
    ]

rank_contexts-IsRanked : (ks : List Context) → IsRanked (rank_contexts ks)
unfolding rank_contexts
rank_contexts-IsRanked [] = tt
rank_contexts-IsRanked (k ∷ ks) =
    insert_ranked-IsRanked k (rank_contexts ks) (rank_contexts-IsRanked ks)

take_first-IsRanked :
    (n : ℕ) (ks : List Context)
    → IsRanked ks
    → IsRanked (take_first n ks) × (length (take_first n ks) ≤ n)
unfolding take_first
take_first-IsRanked zero ks sorted = (tt, omega arith)
take_first-IsRanked (suc n) [] sorted = (tt, omega arith)
take_first-IsRanked (suc n) (k ∷ ks) (below, sorted) =
    let (rest, few) = take_first-IsRanked n ks sorted in
    (
      (take_first-All (λ (j : Context). j.effective_weight ≤ k.effective_weight) n ks below, rest),
      omega (arith, few),
    )

navigate_bfs-IsRanked :
    (sc : Scoring) (b : Bounds) (iterate : List ℕ → List ℕ) (seed_ids : List ℕ)
    (include_sensitive : Bool) (now : ℕ) (g : Graph)
    → IsRanked (navigate_bfs sc b iterate seed_ids include_sensitive now g)
      × (length (navigate_bfs sc b iterate seed_ids include_sensitive now g) ≤ b.max_results)
unfolding navigate_bfs
navigate_bfs-IsRanked sc b iterate seed_ids include_sensitive now g =
    take_first-IsRanked b.max_results _ (rank_contexts-IsRanked _)

navigate_ppr-IsRanked :
    (sc : Scoring) (b : Bounds) (iterate : List ℕ → List ℕ) (scores : List (ℕ × ℕ))
    (seed_ids : List ℕ) (include_sensitive : Bool) (now : ℕ) (g : Graph)
    → IsRanked (navigate_ppr sc b iterate scores seed_ids include_sensitive now g)
      × (length (navigate_ppr sc b iterate scores seed_ids include_sensitive now g) ≤ b.max_results)
unfolding navigate_ppr
navigate_ppr-IsRanked sc b iterate [] seed_ids include_sensitive now g =
    navigate_bfs-IsRanked sc b iterate seed_ids include_sensitive now g
navigate_ppr-IsRanked sc b iterate (entry ∷ scores) seed_ids include_sensitive now g =
    take_first-IsRanked b.max_results _ (rank_contexts-IsRanked _)

-- Whichever search runs, there are at most the configured number of results, and their weights do not
-- grow along the list.
search-IsRanked :
    (sc : Scoring) (b : Bounds) (iterate : List ℕ → List ℕ) (r : PageRank) (seed_ids : List ℕ)
    (include_sensitive : Bool) (now : ℕ) (g : Graph)
    → IsRanked (search sc b iterate r seed_ids include_sensitive now g)
      × (length (search sc b iterate r seed_ids include_sensitive now g) ≤ b.max_results)
unfolding search
search-IsRanked sc b iterate r [] include_sensitive now g = (tt, omega arith)
search-IsRanked sc b iterate r (id ∷ ids) include_sensitive now g =
    elim (Bool-cases (r.available && leb 200 (length g.nodes))) [
      | inl e ↦ rw e (
          navigate_ppr-IsRanked sc b iterate (r.vector (id ∷ ids) g) (id ∷ ids) include_sensitive
            now g)
      | inr e ↦ rw e (navigate_bfs-IsRanked sc b iterate (id ∷ ids) include_sensitive now g)
    ]
