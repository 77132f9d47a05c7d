-- ===== src/Graph/Well/Edges.antt =====
-- The updates of edges keep the constraints of the schema.
use onto_ontological_context.Prelude.{
  ℕ, suc, ◌<◌, ◌≡◌, refl, Bool, true, false, ◌&&◌, ◌||◌, Option, none, some, List, [], ◌∷◌, map,
  arith, any_of, select, All, All-append, ◌==◌, if◌then◌else◌,
}
use onto_ontological_context.Prelude.Unique.{
  append-IsUnique, map-IsUnique, select-IsUnique, All-map, All-weaken, All-select,
}
use onto_ontological_context.Graph.{
  Node, Edge, Graph, find_edge, reinforce_edge, update_edge, new_edge, write_edge,
}
use onto_ontological_context.Graph.Relate.{clear_ppmi}
use onto_ontological_context.Graph.Maintain.{Formulas, refresh_ppmi, soft_delete, forget_ppmi}
use onto_ontological_context.Graph.Well.{same_edge, has_node, Joined, EdgesWell}

find_edge-none :
    (source target : ℕ) (edges : List Edge)
    → find_edge source target edges ≡ none
    → any_of (λ (e : Edge). (e.source_node_id == source) && (e.target_node_id == target)) edges
      ≡ false
unfolding find_edge
find_edge-none source target [] h = refl
find_edge-none source target (e ∷ es) h = ground (arith, find_edge-none source target es)

fresh_edge :
    (bound source target : ℕ) (edges : List Edge)
    → All (λ (e : Edge). e.id < bound) edges
    → any_of (λ (e : Edge). (e.source_node_id == source) && (e.target_node_id == target)) edges
      ≡ false
    → any_of
        (λ (e : Edge).
          (e.id == bound) || (e.source_node_id == source) && (e.target_node_id == target))
        edges
      ≡ false
fresh_edge bound source target [] below absent = refl
fresh_edge bound source target (e ∷ es) below absent =
    ground (arith, fresh_edge bound source target es below.1, below.0)

-- The updates of an edge leave its id and its endpoints alone.
abbrev pub KeepsKeys : (Edge → Edge) → Type 0
KeepsKeys f =
    (e : Edge)
    → ((f e).id ≡ e.id)
      × ((f e).source_node_id ≡ e.source_node_id)
      × ((f e).target_node_id ≡ e.target_node_id)

pub map-EdgesWell :
    (f : Edge → Edge) (nodes : List Node) (bound : ℕ) (edges : List Edge)
    → KeepsKeys f
    → EdgesWell nodes bound edges
    → EdgesWell nodes bound (map f edges)
map-EdgesWell f nodes bound edges keeps (unique, below, joined) = (
  map-IsUnique same_edge f edges
      (λ d e. rw ((keeps d).0, (keeps e).0, (keeps d).1, (keeps e).1, (keeps d).2, (keeps e).2))
      unique,
  All-map (λ (e : Edge). e.id < bound) f edges (λ e h. rw ((keeps e).0) h) below,
  All-map (Joined nodes) f edges (λ e h. rw ((keeps e).1, (keeps e).2) h) joined,
)

pub select-EdgesWell :
    (p : Edge → Bool) (nodes : List Node) (bound : ℕ) (edges : List Edge)
    → EdgesWell nodes bound edges
    → EdgesWell nodes bound (select p edges)
select-EdgesWell p nodes bound edges (unique, below, joined) = (
  select-IsUnique same_edge p edges unique,
  All-select (λ (e : Edge). e.id < bound) p edges below,
  All-select (Joined nodes) p edges joined,
)

reinforce_edge-KeepsKeys :
    (reinforcement now id : ℕ)
    → KeepsKeys (λ (e : Edge). if e.id == id then reinforce_edge reinforcement now e else e)
unfolding reinforce_edge
reinforce_edge-KeepsKeys reinforcement now id e = ground arith

pub clear_ppmi-KeepsKeys :
    (source target : ℕ)
    → KeepsKeys (λ (e : Edge).
      if (e.source_node_id == source) && (e.target_node_id == target) then clear_ppmi e else e)
unfolding clear_ppmi
clear_ppmi-KeepsKeys source target e = ground arith

pub refresh_ppmi-KeepsKeys : (f : Formulas) (now : ℕ) (g : Graph) → KeepsKeys (refresh_ppmi f now g)
unfolding refresh_ppmi
refresh_ppmi-KeepsKeys f now g e = ground arith

pub soft_delete-KeepsKeys : (threshold : ℕ) → KeepsKeys (soft_delete threshold)
unfolding soft_delete
soft_delete-KeepsKeys threshold e = ground arith

pub forget_ppmi-KeepsKeys : KeepsKeys forget_ppmi
unfolding forget_ppmi
forget_ppmi-KeepsKeys e = ground arith

pub write_edge-EdgesWell :
    (source target now reinforcement : ℕ) (sensitive : Bool) (provenance : ℕ) (o : Option Edge)
    (g : Graph)
    → find_edge source target g.edges ≡ o
    → has_node source g.nodes ≡ true
    → has_node target g.nodes ≡ true
    → EdgesWell g.nodes g.next_edge_id g.edges
    → EdgesWell
        (write_edge source target now reinforcement sensitive provenance o g).1.nodes
        (write_edge source target now reinforcement sensitive provenance o g).1.next_edge_id
        (write_edge source target now reinforcement sensitive provenance o g).1.edges
unfolding write_edge update_edge new_edge
write_edge-EdgesWell source target now reinforcement sensitive provenance none g found hs ht
      (unique, below, joined) =
    (
      append-IsUnique same_edge g.edges
          (new_edge g.next_edge_id source target now reinforcement sensitive provenance)
          (fresh_edge g.next_edge_id source target g.edges below
            (find_edge-none source target g.edges found))
          unique,
      All-append (λ (e : Edge). e.id < suc g.next_edge_id) g.edges
          (new_edge g.next_edge_id source target now reinforcement sensitive provenance ∷ [])
          (All-weaken (λ (e : Edge). e.id < g.next_edge_id) g.edges (λ e h. omega arith) below)
          (omega arith, tt),
      All-append (Joined g.nodes) g.edges
          (new_edge g.next_edge_id source target now reinforcement sensitive provenance ∷ []) joined
          ((hs, ht), tt),
    )
write_edge-EdgesWell source target now reinforcement sensitive provenance (some e) g found hs ht
      well =
    map-EdgesWell (λ (d : Edge). if d.id == e.id then reinforce_edge reinforcement now d else d)
      g.nodes g.next_edge_id g.edges (reinforce_edge-KeepsKeys reinforcement now e.id) well

-- `write_edge` writes edges only.
pub write_edge-nodes :
    (source target now reinforcement : ℕ) (sensitive : Bool) (provenance : ℕ) (o : Option Edge)
    (g : Graph)
    → ((write_edge source target now reinforcement sensitive provenance o g).1.nodes ≡ g.nodes)
      × ((write_edge source target now reinforcement sensitive provenance o g).1.next_node_id
          ≡ g.next_node_id)
unfolding write_edge
write_edge-nodes source target now reinforcement sensitive provenance none g = (refl, refl)
write_edge-nodes source target now reinforcement sensitive provenance (some e) g = (refl, refl)
