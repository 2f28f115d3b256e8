-- ===== src/Tests/Graph.antt =====
-- Runs of graph/cooccurrence-graph.ts.
use open_interest_clusters.Prelude.{ℕ, ◌≡◌, refl, [], ◌∷◌, none, some, ◌==◌, ◌&&◌, if◌then◌else◌}
use open_interest_clusters.Prelude.Sort.{place, sort}
use open_interest_clusters.Prelude.Dict.{lookup, insert, delete, has}
use open_interest_clusters.Graph.Cooccurrence.{
  Graph, Limits, edges_of, unique_texts, remove_edge, drop_reverse, remove_all, drop_if_empty,
  drop_reverses, delete_node, lighter_first, trim_edges, next_edge, upsert_edge, increment_edge,
  add_pairs, add_each, add_cooccurrence,
}
use open_interest_clusters.Graph.Trim.{IsGraph}
use open_interest_clusters.Graph.Bounds.{IsBounded, adds, Reached, start, next, Reached-IsBounded}
use open_interest_clusters.Graph.Deletion.{edge, delete_node-edge}
use open_interest_clusters.Tests.Samples.{whole_numbers}

-- One edge for each node; in these numbers an edge that occurs again has the largest weight.
abbrev limits : Limits ℕ
limits = record { max_edge_weight = 5; decay_factor = 1; max_edges_per_node = 1 }

abbrev twice : Graph ℕ
twice =
    add_cooccurrence whole_numbers limits ("a" ∷ "b" ∷ []) 2
      (add_cooccurrence whole_numbers limits ("a" ∷ "b" ∷ []) 1 [])

abbrev crowded : Graph ℕ
crowded = add_cooccurrence whole_numbers limits ("a" ∷ "c" ∷ []) 3 twice

crowded-Reached : Reached whole_numbers limits crowded
crowded-Reached =
    next (next (next start (adds ("a" ∷ "b" ∷ []) 1)) (adds ("a" ∷ "b" ∷ []) 2))
      (adds ("a" ∷ "c" ∷ []) 3)

Reached-IsBounded_example : IsBounded whole_numbers limits crowded
Reached-IsBounded_example = Reached-IsBounded whole_numbers limits crowded crowded-Reached

crowded-IsGraph : IsGraph 1 crowded
crowded-IsGraph = Reached-IsBounded whole_numbers limits crowded crowded-Reached

delete_node-edge_example : edge "b" "a" (delete_node "a" crowded) ≡ (
    if "a" == "b"
    then none
    else (if has "b" (edges_of "a" crowded) && "a" == "a" then none else edge "b" "a" crowded))
delete_node-edge_example = delete_node-edge 1 "a" "b" "a" crowded crowded-IsGraph

running : Unit {0}
unfolding lookup insert delete place sort unique_texts remove_edge drop_reverse remove_all
    drop_if_empty drop_reverses delete_node lighter_first trim_edges next_edge upsert_edge
    increment_edge add_pairs add_each add_cooccurrence
running = tt

-- The edge from a to c is trimmed at once, and the edge from c to a is added after it: so c keeps an
-- edge to a when a is deleted.
one_sided : edge "a" "c" crowded ≡ none
unfolding running
one_sided = refl

edge_stays : edge "c" "a" (delete_node "a" crowded) ≡ some (record { weight = 1; last_updated = 3 })
unfolding running
edge_stays = refl
