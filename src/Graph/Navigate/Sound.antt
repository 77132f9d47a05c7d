-- ===== src/Graph/Navigate/Sound.antt =====
-- What the breadth-first search of `navigate` may return.
use onto_ontological_context.Prelude.{
  ℕ, suc, ◌≤◌, ◌≡◌, refl, inl, inr, Bool, true, false, not, ◌&&◌, ◌||◌, Option, none, some, List,
  [], ◌∷◌, arith, any_of, All, ◌==◌, Bool-cases,
}
use onto_ontological_context.Prelude.Unique.{All-weaken}
use onto_ontological_context.Graph.{Node, Edge, Graph}
use onto_ontological_context.Graph.Maintain.{touches}
use onto_ontological_context.Graph.Navigate.{
  Context, node_by_id, member_id, other_end, with_node, rows_at,
}

-- A path of the given length over live edges from a seed to a node.
pub data Reach (edges : List Edge) (seed_ids : List ℕ) : ℕ → ℕ → Type 0 where
  at_seed : (id : ℕ) → member_id id seed_ids ≡ true → Reach edges seed_ids 0 id
  over_edge :
      (k i j : ℕ)
      → Reach edges seed_ids k i
      → any_of (λ e. touches i e && not e.is_deleted && (other_end i e == j)) edges ≡ true
      → Reach edges seed_ids (suc k) j

-- What a result says is right: it is a node at most `depth` edges from a seed, itself no seed, and not
-- sensitive unless this was asked for.
unfoldable pub IsSound : Graph → List ℕ → Bool → ℕ → Context → Type 0
IsSound g seed_ids include_sensitive depth k =
    (id : ℕ) × (n : Node) × (d : ℕ) × (node_by_id id g.nodes ≡ some n)
    × (k.concept ≡ n.concept)
    × (member_id id seed_ids ≡ false)
    × (include_sensitive || not n.is_sensitive ≡ true)
    × (d ≤ depth)
    × Reach g.edges seed_ids d id

module _ (g : Graph) (node_id : ℕ) where
  -- A row: an edge at the node, which is live, and the node at its other end.
  abbrev pub IsRow : List Edge → Edge × Node → Type 0
  IsRow edges (e, n) =
      (node_by_id (other_end node_id e) g.nodes ≡ some n)
      × (any_of
            (λ d.
              touches node_id d && not d.is_deleted && (other_end node_id d == other_end node_id e))
            edges
          ≡ true)

  with_node-All :
      (e : Edge) (o : Option Node) (rows : List (Edge × Node)) (P : Edge × Node → Type 0)
      → ((n : Node) → o ≡ some n → P (e, n))
      → All P rows
      → All P (with_node e o rows)
  with_node-All e none rows P h all = all
  with_node-All e (some n) rows P h all = (h n refl, all)

  pub rows_at-IsRow : (edges : List Edge) → All (IsRow edges) (rows_at node_id g.nodes edges)
  unfolding rows_at
  rows_at-IsRow [] = tt
  rows_at-IsRow (e ∷ es) =
      let later : All (IsRow (e ∷ es)) (rows_at node_id g.nodes es) =
        All-weaken (IsRow es) (rows_at node_id g.nodes es) (λ r h. (h.0, ground (arith, h.1)))
          (rows_at-IsRow es) in
      elim (Bool-cases (touches node_id e && not e.is_deleted)) [
        | inl live ↦ rw live (
            with_node-All e (node_by_id (other_end node_id e) g.nodes) (rows_at node_id g.nodes es)
              (IsRow (e ∷ es)) (λ n found. (found, ground arith)) later)
        | inr dead ↦ rw dead later
      ]
