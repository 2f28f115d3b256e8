-- ===== src/Graph/Views.antt =====
-- graph/cooccurrence-graph.ts: snapshots of a graph, a graph of a snapshot, and metrics.
use Prim.Native.Nat.{Ordering}
use open_interest_clusters.Prelude.{
  ℕ, suc, ◌+◌, String, Bool, true, false, ◌&&◌, not, List, [], ◌∷◌, Option, none, some, ltb, nat_eq,
  length, map, if◌then◌else◌,
}
use open_interest_clusters.Prelude.Sort.{sort}
use open_interest_clusters.Prelude.Dict.{Dict}
use open_interest_clusters.Js.Host.{Host}
use open_interest_clusters.Graph.Cooccurrence.{Edge, Graph, Limits, upsert_edge}

-- GraphSnapshot, without the time of its making; a node with its neighbors is a GraphNodeSnapshot.
pub record Snapshot (N : Type 0) : Type 0 where
  pub version : ℕ
  pub limits : Limits N
  pub nodes : List (String × List (String × Edge N))

-- GraphMetrics
pub record Metrics (N : Type 0) : Type 0 where
  pub node_count : ℕ
  pub edge_count : ℕ
  pub max_degree : ℕ
  pub isolated_node_count : ℕ
  pub last_updated_min : Option N
  pub last_updated_max : Option N

module _ (host : Host) where
  -- `left.localeCompare(right)` is at most 0
  unfoldable pub by_name : {V : Type 0} → String × V → String × V → Bool
  by_name (left, _) (right, _) = elim (host.locale_compare left right) [
    | Ordering.gt ↦ false
    | _ ↦ true
  ]

  -- toSnapshot
  unfoldable pub to_snapshot : Limits host.Number → Graph host.Number → Snapshot host.Number
  to_snapshot c g = record {
    version = 1;
    limits = c;
    nodes =
        map (λ (node : String × Dict (Edge host.Number)). (node.0, sort by_name node.1))
          (sort by_name g);
  }

  -- The inner loop of fromSnapshot
  unfoldable pub upsert_all :
      Limits host.Number
      → String
      → List (String × Edge host.Number)
      → Graph host.Number
      → Graph host.Number
  upsert_all c node [] g = g
  upsert_all c node ((neighbor, e) ∷ rest) g =
      upsert_all c node rest (upsert_edge host c node neighbor e g)

  unfoldable pub upsert_nodes :
      Limits host.Number
      → List (String × List (String × Edge host.Number))
      → Graph host.Number
      → Graph host.Number
  upsert_nodes c [] g = g
  upsert_nodes c ((node, neighbors) ∷ rest) g = upsert_nodes c rest (upsert_all c node neighbors g)

  -- fromSnapshot; nothing where it throws, since the version is not supported
  unfoldable pub from_snapshot : Snapshot host.Number → Option (Graph host.Number)
  from_snapshot s = if nat_eq s.version 1 then some (upsert_nodes s.limits s.nodes []) else none

  -- `a < b`
  abbrev pub below : host.Number → host.Number → Bool
  below a b = host.at_most a b && not (host.at_most b a)

  unfoldable pub earliest :
      Option host.Number → List (String × Edge host.Number) → Option host.Number
  earliest least [] = least
  earliest none ((_, e) ∷ rest) = earliest (some e.last_updated) rest
  earliest (some t) ((_, e) ∷ rest) =
      earliest (some (if below e.last_updated t then e.last_updated else t)) rest

  unfoldable pub latest : Option host.Number → List (String × Edge host.Number) → Option host.Number
  latest most [] = most
  latest none ((_, e) ∷ rest) = latest (some e.last_updated) rest
  latest (some t) ((_, e) ∷ rest) =
      latest (some (if below t e.last_updated then e.last_updated else t)) rest

  -- The loop of getMetrics
  unfoldable pub count_nodes : Graph host.Number → Metrics host.Number → Metrics host.Number
  count_nodes [] m = m
  count_nodes ((node, neighbors) ∷ rest) m = count_nodes rest (record {
    node_count = m.node_count;
    edge_count = m.edge_count + length neighbors;
    max_degree = if ltb m.max_degree (length neighbors) then length neighbors else m.max_degree;
    isolated_node_count =
        if nat_eq (length neighbors) 0 then suc m.isolated_node_count else m.isolated_node_count;
    last_updated_min = earliest m.last_updated_min neighbors;
    last_updated_max = latest m.last_updated_max neighbors;
  })

  -- getMetrics
  unfoldable pub get_metrics : Graph host.Number → Metrics host.Number
  get_metrics g = count_nodes g (record {
    node_count = length g;
    edge_count = 0;
    max_degree = 0;
    isolated_node_count = 0;
    last_updated_min = none;
    last_updated_max = none;
  })
