-- ===== src/Graph/Cooccurrence.antt =====
-- graph/cooccurrence-graph.ts: CooccurrenceGraph, its adjacency as a map of maps. The edges of a
-- node are read again from the adjacency where the source holds on to their map.
use open_interest_clusters.Prelude.{
  ℕ, ◌-◌, String, Bool, not, ◌&&◌, ◌||◌, ◌==◌, List, [], ◌∷◌, Option, none, some, leb, length, take,
  any, map, if◌then◌else◌,
}
use open_interest_clusters.Prelude.Sort.{sort}
use open_interest_clusters.Prelude.Dict.{Dict, lookup, insert, delete}
use open_interest_clusters.Js.Host.{Host}

-- Edge
pub record Edge (N : Type 0) : Type 0 where
  pub weight : N
  pub last_updated : N

-- The adjacency
abbrev pub Graph : Type 0 → Type 0
Graph N = Dict (Dict (Edge N))

-- The fields that the constructor sets. The limit of the edges is a natural number, as its default
-- is; the source's type is any number.
pub record Limits (N : Type 0) : Type 0 where
  pub max_edge_weight : N
  pub decay_factor : N
  pub max_edges_per_node : ℕ

-- `Array.from(new Set(nodes))`: the first of equal texts stays.
unfoldable pub unique_texts : List String → List String → List String
unique_texts seen [] = []
unique_texts seen (node ∷ nodes) =
    let old = unique_texts seen nodes in
    let new = node ∷ unique_texts (node ∷ seen) nodes in
    if any (λ s. s == node) seen then old else new

-- The edges of a node, none where it is no node
abbrev pub edges_of : {N : Type 0} → String → Graph N → Dict (Edge N)
edges_of node g = elim (lookup node g) [ none ↦ [] | some edges ↦ edges ]

module _ {N : Type 0} where
  -- `neighbors.delete(neighbor)`
  unfoldable pub remove_edge : String → String → Graph N → Graph N
  remove_edge node neighbor g = elim (lookup node g) [
    | none ↦ g
    | some edges ↦ insert node (delete neighbor edges) g
  ]

  abbrev pub set_unless_empty : String → Dict (Edge N) → Graph N → Graph N
  set_unless_empty node [] g = delete node g
  set_unless_empty node (e ∷ edges) g = insert node (e ∷ edges) g

  -- The edge from a neighbor back to a node is removed; a neighbor with no edges is no node.
  unfoldable pub drop_reverse : String → String → Graph N → Graph N
  drop_reverse node neighbor g = elim (lookup neighbor g) [
    | none ↦ g
    | some edges ↦ set_unless_empty neighbor (delete node edges) g
  ]

  -- The loop of trimEdgesForNode
  unfoldable pub remove_all : String → Dict (Edge N) → Graph N → Graph N
  remove_all node [] g = g
  remove_all node ((neighbor, e) ∷ rest) g =
      remove_all node rest (drop_reverse node neighbor (remove_edge node neighbor g))

  -- `if (neighbors.size === 0) this.adjacency.delete(node)`
  unfoldable pub drop_if_empty : String → Graph N → Graph N
  drop_if_empty node g = elim (lookup node g) [
    | none ↦ g
    | some edges ↦ set_unless_empty node edges g
  ]

  -- The loop of removeNode over the keys of the node's edges
  unfoldable pub drop_reverses : String → Dict (Edge N) → Graph N → Graph N
  drop_reverses node [] g = g
  drop_reverses node ((neighbor, e) ∷ rest) g =
      drop_reverses node rest (drop_reverse node neighbor g)

  -- removeNode, deleteNode
  unfoldable pub delete_node : String → Graph N → Graph N
  delete_node node g = elim (lookup node g) [
    | none ↦ g
    | some edges ↦ delete node (drop_reverses node edges g)
  ]

  -- The loop of enforceBounds of graph/bounded-graph.ts; an empty text is skipped.
  unfoldable pub delete_nodes : List String → Graph N → Graph N
  delete_nodes [] g = g
  delete_nodes (node ∷ rest) g = delete_nodes rest (if node == "" then g else delete_node node g)

  -- enforceBounds of graph/bounded-graph.ts; a difference below 0 is 0 here and leaves no node over.
  unfoldable pub enforce_bounds : ℕ → Graph N → Graph N
  enforce_bounds max_nodes g =
      delete_nodes (take (length g - max_nodes) (map (λ (node : String × Dict (Edge N)). node.0) g))
        g

module _ (host : Host) (c : Limits host.Number) where
  -- The comparator of trimEdgesForNode is at most 0: `a !== b` where one of `a <= b`, `b <= a` fails
  abbrev pub not_above : host.Number → host.Number → Bool
  not_above a b = host.at_most a b || not (host.at_most b a)

  unfoldable pub lighter_first : String × Edge host.Number → String × Edge host.Number → Bool
  lighter_first (_, a) (_, b) =
      if host.at_most a.weight b.weight && host.at_most b.weight a.weight
      then not_above a.last_updated b.last_updated
      else not_above a.weight b.weight

  -- trimEdgesForNode
  unfoldable pub trim_edges : String → Graph host.Number → Graph host.Number
  trim_edges node g = elim (lookup node g) [
    | none ↦ g
    | some edges ↦
        if leb (length edges) c.max_edges_per_node
        then g
        else drop_if_empty node (
            remove_all node (take (length edges - c.max_edges_per_node) (sort lighter_first edges))
              g)
  ]

  -- The edge that incrementEdge sets
  unfoldable pub next_edge : Option (Edge host.Number) → host.Number → Edge host.Number
  next_edge none now = record { weight = host.one_number; last_updated = now }
  next_edge (some e) now = record {
    weight =
        host.smaller c.max_edge_weight
          (host.plus (host.times e.weight c.decay_factor) host.one_number);
    last_updated = now;
  }

  -- upsertEdge
  unfoldable pub upsert_edge :
      String → String → Edge host.Number → Graph host.Number → Graph host.Number
  upsert_edge node neighbor e g =
      trim_edges node (insert node (insert neighbor e (edges_of node g)) g)

  -- incrementEdge
  unfoldable pub increment_edge :
      String → String → host.Number → Graph host.Number → Graph host.Number
  increment_edge a b now g = upsert_edge a b (next_edge (lookup b (edges_of a g)) now) g

  -- The inner loop of addCooccurrence; an empty text is skipped.
  unfoldable pub add_pairs :
      String → List String → host.Number → Graph host.Number → Graph host.Number
  add_pairs left [] now g = g
  add_pairs left (right ∷ rest) now g = add_pairs left rest now (
      if left == "" || right == ""
      then g
      else increment_edge right left now (increment_edge left right now g))

  -- The outer loop of addCooccurrence
  unfoldable pub add_each : List String → host.Number → Graph host.Number → Graph host.Number
  add_each [] now g = g
  add_each (left ∷ rest) now g = add_each rest now (add_pairs left rest now g)

  -- addCooccurrence; `now` is Date.now(). A single node has no pair.
  unfoldable pub add_cooccurrence :
      List String → host.Number → Graph host.Number → Graph host.Number
  add_cooccurrence nodes now g = add_each (unique_texts [] nodes) now g
