-- ===== src/Graph/Well.antt =====
-- The constraints of the schema of modules/graph.py, and that the insertions and updates of one
-- concept keep them.
pub mod Edges
pub mod Writes
pub mod Run
pub mod Upkeep
use onto_ontological_context.Prelude.{
  ℕ, suc, ◌+◌, ◌<◌, ◌≡◌, refl, sym, ap, ◌∙◌, inl, inr, String, Bool, true, false, not, ◌&&◌, ◌||◌,
  Option, none, some, List, [], ◌∷◌, ◌++◌, map, arith, any_of, All, All-append, ◌==◌, ==_iff,
  str_eq, eq_iff, if◌then◌else◌, Bool-cases, Option-cases,
}
use onto_ontological_context.Prelude.Unique.{
  IsUnique, append-IsUnique, map-IsUnique, any_of-append, any_of-map, All-map, All-weaken,
}
use onto_ontological_context.Graph.{
  Node, Edge, Graph, find_node, reinforce_node, update_node, new_node, write_node,
}

-- the two unique columns of `graph_nodes`
abbrev pub same_node : Node → Node → Bool
same_node m n = (m.id == n.id) || str_eq m.concept n.concept

-- the primary key of `graph_edges` and its unique pair of columns
abbrev pub same_edge : Edge → Edge → Bool
same_edge d e =
    (d.id == e.id)
    || (d.source_node_id == e.source_node_id) && (d.target_node_id == e.target_node_id)

unfoldable pub has_node : ℕ → List Node → Bool
has_node id nodes = any_of (λ (n : Node). n.id == id) nodes

abbrev pub NodesWell : Graph → Type 0
NodesWell g = IsUnique same_node g.nodes × All (λ (n : Node). n.id < g.next_node_id) g.nodes

abbrev pub Joined : List Node → Edge → Type 0
Joined nodes e = (has_node e.source_node_id nodes ≡ true) × (has_node e.target_node_id nodes ≡ true)

abbrev pub EdgesWell : List Node → ℕ → List Edge → Type 0
EdgesWell nodes bound edges =
    IsUnique same_edge edges × All (λ (e : Edge). e.id < bound) edges × All (Joined nodes) edges

-- Ids, concepts and pairs of endpoints are unique, ids are below the counters, and the endpoints of
-- every edge exist.
unfoldable pub IsWell : Graph → Type 0
IsWell g = NodesWell g × EdgesWell g.nodes g.next_edge_id g.edges

find_node-some :
    (concept : String) (nodes : List Node) (n : Node)
    → find_node concept nodes ≡ some n
    → has_node n.id nodes ≡ true
unfolding find_node has_node
find_node-some concept [] n h = ground arith
find_node-some concept (m ∷ ms) n h = ground (arith, find_node-some concept ms n)

find_node-none :
    (concept : String) (nodes : List Node)
    → find_node concept nodes ≡ none
    → any_of (λ (n : Node). str_eq n.concept concept) nodes ≡ false
unfolding find_node
find_node-none concept [] h = refl
find_node-none concept (m ∷ ms) h = ground (arith, find_node-none concept ms)

-- Below its bound, no node has an id.
fresh_id :
    (id : ℕ) (nodes : List Node) → All (λ (n : Node). n.id < id) nodes → has_node id nodes ≡ false
unfolding has_node
fresh_id id [] h = refl
fresh_id id (n ∷ ns) h = ground (arith, fresh_id id ns h.1, h.0)

any_of-or :
    (p q : Node → Bool) (nodes : List Node)
    → any_of p nodes ≡ false
    → any_of q nodes ≡ false
    → any_of (λ n. p n || q n) nodes ≡ false
any_of-or p q [] hp hq = refl
any_of-or p q (n ∷ ns) hp hq = ground (arith, any_of-or p q ns)

reinforce-keeps :
    (base now id : ℕ) (n : Node)
    → ((if n.id == id then reinforce_node base now n else n).id ≡ n.id)
      × ((if n.id == id then reinforce_node base now n else n).concept ≡ n.concept)
unfolding reinforce_node
reinforce-keeps base now id n = ground arith

-- An update that keeps ids and concepts keeps the constraints of the nodes.
map_nodes-Well :
    (f : Node → Node) (bound : ℕ) (nodes : List Node)
    → ((n : Node) → (f n).id ≡ n.id)
    → ((n : Node) → (f n).concept ≡ n.concept)
    → IsUnique same_node nodes × All (λ (n : Node). n.id < bound) nodes
    → IsUnique same_node (map f nodes) × All (λ (n : Node). n.id < bound) (map f nodes)
map_nodes-Well f bound nodes ids concepts (unique, below) = (
  map-IsUnique same_node f nodes (λ m n. rw (ids m, ids n, concepts m, concepts n)) unique,
  All-map (λ (n : Node). n.id < bound) f nodes (λ n h. rw (ids n) h) below,
)

map_nodes-has_node :
    (f : Node → Node) (id : ℕ) (nodes : List Node)
    → ((n : Node) → (f n).id ≡ n.id)
    → has_node id (map f nodes) ≡ has_node id nodes
unfolding has_node
map_nodes-has_node f id nodes ids =
    any_of-map (λ (n : Node). n.id == id) (λ (n : Node). n.id == id) f nodes (λ n. rw (ids n))

has_node-append :
    (id : ℕ) (nodes : List Node) (n : Node)
    → has_node id (nodes ++ n ∷ []) ≡ (has_node id nodes || (n.id == id))
unfolding has_node
has_node-append id nodes n = ground (arith, any_of-append (λ (n : Node). n.id == id) nodes (n ∷ []))

node_added :
    (id : ℕ) (nodes : List Node) (n : Node) → n.id ≡ id → has_node id (nodes ++ n ∷ []) ≡ true
node_added id nodes n h = ground (arith, has_node-append id nodes n)

node_kept :
    (id : ℕ) (nodes : List Node) (n : Node)
    → has_node id nodes ≡ true
    → has_node id (nodes ++ n ∷ []) ≡ true
node_kept id nodes n h = ground (arith, has_node-append id nodes n)

update_node-has_node :
    (base now changed id : ℕ) (nodes : List Node)
    → has_node id nodes ≡ true
    → has_node id (update_node changed (reinforce_node base now) nodes) ≡ true
unfolding update_node
update_node-has_node base now changed id nodes h =
    map_nodes-has_node (λ (m : Node). if m.id == changed then reinforce_node base now m else m) id
      nodes (λ m. (reinforce-keeps base now changed m).0)
    ∙ h

-- `write_node` keeps the constraints of the nodes, returns the id of a node, and loses none.
pub write_node_lem :
    (base : ℕ) (concept : String) (now : ℕ) (sensitive : Bool) (provenance : ℕ) (o : Option Node)
    (g : Graph)
    → find_node concept g.nodes ≡ o
    → NodesWell g
    → NodesWell (write_node base concept now sensitive provenance o g).2
      × (has_node
            (write_node base concept now sensitive provenance o g).0
            (write_node base concept now sensitive provenance o g).2.nodes
          ≡ true)
      × ((id : ℕ)
          → has_node id g.nodes ≡ true
          → has_node id (write_node base concept now sensitive provenance o g).2.nodes ≡ true)
unfolding write_node update_node new_node has_node
write_node_lem base concept now sensitive provenance none g found (unique, below) = (
  (
    append-IsUnique same_node g.nodes
        (new_node base g.next_node_id concept now sensitive provenance)
        (any_of-or (λ n. n.id == g.next_node_id) (λ n. str_eq n.concept concept) g.nodes
          (fresh_id g.next_node_id g.nodes below) (find_node-none concept g.nodes found))
        unique,
    All-append (λ (n : Node). n.id < suc g.next_node_id) g.nodes
        (new_node base g.next_node_id concept now sensitive provenance ∷ [])
        (All-weaken (λ (n : Node). n.id < g.next_node_id) g.nodes (λ n h. omega arith) below)
        (omega arith, tt),
  ),
  node_added g.next_node_id g.nodes (new_node base g.next_node_id concept now sensitive provenance)
      refl,
  λ id h. node_kept id g.nodes (new_node base g.next_node_id concept now sensitive provenance) h,
)
write_node_lem base concept now sensitive provenance (some n) g found well = (
  map_nodes-Well (λ (m : Node). if m.id == n.id then reinforce_node base now m else m)
      g.next_node_id g.nodes (λ m. (reinforce-keeps base now n.id m).0)
      (λ m. (reinforce-keeps base now n.id m).1) well,
  update_node-has_node base now n.id n.id g.nodes (find_node-some concept g.nodes n found),
  λ id h. update_node-has_node base now n.id id g.nodes h,
)
