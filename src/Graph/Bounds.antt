-- ===== src/Graph/Bounds.antt =====
-- graph/cooccurrence-graph.ts: no operation leaves a node with no edge or with more edges than the
-- limit.
use mathlib.Core.Path.{subst}
use open_interest_clusters.Prelude.{
  ℕ, ◌-◌, ◌≤◌, ◌<◌, String, ◌≡◌, refl, sym, ◌∙◌, arith, inl, inr, ◌==◌, ◌||◌, eq_iff, List, [], ◌∷◌,
  some, leb, length, take, Bool-cases, Option-cases,
}
use open_interest_clusters.Prelude.Sort.{sort, length-sort}
use open_interest_clusters.Prelude.Dict.{
  Dict, IsDict, lookup, insert, delete, insert-IsDict, delete-IsDict, lookup-insert, lookup-delete,
}
use open_interest_clusters.Prelude.Each.{delete-IsEach, IsEach-lookup}
use open_interest_clusters.Prelude.Cut.{IsIn-self, lookup-sort, sort-IsDict, take-IsDict}
use open_interest_clusters.Js.Host.{Host}
use open_interest_clusters.Graph.Cooccurrence.{
  Edge, Graph, Limits, edges_of, drop_reverses, remove_all, drop_if_empty, lighter_first,
  trim_edges, upsert_edge, increment_edge, add_pairs, add_each, add_cooccurrence, delete_node,
  delete_nodes, enforce_bounds, unique_texts,
}
use open_interest_clusters.Graph.Trim.{
  IsFine, IsGraph, IsFineBut, IsLoose, loosen, tighten, insert-IsLoose, remove_all-IsLoose,
  drop_reverses-IsLoose, Holds,
}
use open_interest_clusters.Graph.Removal.{length-take, lookup-take-some, remove_all-Holds}

module _ (host : Host) (c : Limits host.Number) where
  -- A graph of these limits
  abbrev pub IsBounded : Graph host.Number → Type 0
  IsBounded g = IsGraph c.max_edges_per_node g

  drop_if_empty-IsBounded :
      (a : String) (left : Dict (Edge host.Number)) (g : Graph host.Number)
      → IsLoose c.max_edges_per_node a g
      → Holds a left g
      → IsDict left
      → length left ≤ c.max_edges_per_node
      → IsBounded (drop_if_empty a g)
  unfolding drop_if_empty
  drop_if_empty-IsBounded a left g h (inr (no_node, empty)) d few =
      rw (drop_if_empty, no_node)
        (tighten c.max_edges_per_node a g h (λ edges found. ground (arith, no_node, found)))
  drop_if_empty-IsBounded a [] g h (inl found) d few =
      rw (drop_if_empty, found)
        (tighten c.max_edges_per_node a (delete a g)
          (record {
            dict = delete-IsDict a g h.dict;
            each = delete-IsEach (IsFineBut c.max_edges_per_node a) a g h.each;
          })
          (λ edges there. ground (arith, lookup-delete a a g h.dict, eq_iff a a)))
  drop_if_empty-IsBounded a (e ∷ es) g h (inl found) d few =
      rw (drop_if_empty, found)
        (tighten c.max_edges_per_node a (insert a (e ∷ es) g)
          (insert-IsLoose c.max_edges_per_node a (e ∷ es) g h d)
          (λ edges there.
            let same : e ∷ es ≡ edges =
              ground (arith, lookup-insert a a (e ∷ es) g, eq_iff a a, there) in
            subst (λ xs. IsFine c.max_edges_per_node xs) same (d, omega arith, few)))

  trim_edges-IsBounded :
      (a : String) (edges : Dict (Edge host.Number)) (g : Graph host.Number)
      → IsLoose c.max_edges_per_node a g
      → lookup a g ≡ some edges
      → IsDict edges
      → 0 < length edges
      → IsBounded (trim_edges host c a g)
  unfolding trim_edges
  trim_edges-IsBounded a edges g h found d some_edge =
      elim (Bool-cases (leb (length edges) c.max_edges_per_node)) [
        | inl fits ↦
            rw (trim_edges, found, fits)
              (tighten c.max_edges_per_node a g h (λ es there.
                let same : edges ≡ es = ground (arith, found, there) in
                let fine : IsFine c.max_edges_per_node edges = (d, some_edge, ground arith) in
                rw same at fine))
        | inr more ↦
            let sorted : Dict (Edge host.Number) = sort (lighter_first host c) edges in
            let n : ℕ = length edges - c.max_edges_per_node in
            let sorted_dict : IsDict sorted = sort-IsDict (lighter_first host c) edges d in
            let cut : length (take n sorted) ≡ n =
              length-take n sorted (omega (arith, length-sort (lighter_first host c) edges)) in
            let (left, holds, count, is) =
              remove_all-Holds a (take n sorted) edges g h.dict d (take-IsDict n sorted sorted_dict)
                (IsIn-self edges (take n sorted) (take-IsDict n sorted sorted_dict) (λ key e there.
                  sym (lookup-sort (lighter_first host c) key edges d)
                  ∙ lookup-take-some key e n sorted sorted_dict there))
                found in
            rw (trim_edges, found, more)
              (drop_if_empty-IsBounded a left (remove_all a (take n sorted) g)
                (remove_all-IsLoose c.max_edges_per_node a (take n sorted) g h) holds is
                (ground (arith, count, cut)))
      ]

  edges_of-IsDict : (a : String) (g : Graph host.Number) → IsBounded g → IsDict (edges_of a g)
  edges_of-IsDict a g h = elim (Option-cases (lookup a g)) [
    | inl absent ↦
        let is_none : [] ≡ edges_of a g = rw (edges_of, absent) refl in
        subst (λ es. IsDict es) is_none tt
    | inr (edges, found) ↦
        let is_some : edges ≡ edges_of a g = rw (edges_of, found) refl in
        subst (λ es. IsDict es) is_some
          (IsEach-lookup (λ node es. IsFine c.max_edges_per_node es) a edges g h.each found).0
  ]

  insert_some :
      {V : Type 0} (key : String) (value : V) (d : Dict V) → 0 < length (insert key value d)
  unfolding insert
  insert_some key value [] = omega arith
  insert_some key value ((at, x) ∷ rest) = ground arith

  upsert_edge-IsBounded :
      (a b : String) (e : Edge host.Number) (g : Graph host.Number)
      → IsBounded g
      → IsBounded (upsert_edge host c a b e g)
  unfolding upsert_edge
  upsert_edge-IsBounded a b e g h =
      let edges : Dict (Edge host.Number) = insert b e (edges_of a g) in
      let d : IsDict edges = insert-IsDict b e (edges_of a g) (edges_of-IsDict a g h) in
      trim_edges-IsBounded a edges (insert a edges g)
        (insert-IsLoose c.max_edges_per_node a edges g (loosen c.max_edges_per_node a g h) d)
        (ground (arith, lookup-insert a a edges g, eq_iff a a)) d (insert_some b e (edges_of a g))

  add_pairs-IsBounded :
      (left : String) (rest : List String) (now : host.Number) (g : Graph host.Number)
      → IsBounded g
      → IsBounded (add_pairs host c left rest now g)
  unfolding add_pairs increment_edge
  add_pairs-IsBounded left [] now g h = h
  add_pairs-IsBounded left (right ∷ rest) now g h = elim (Bool-cases (left == "" || right == "")) [
    | inl skipped ↦ rw skipped (add_pairs-IsBounded left rest now g h)
    | inr joined ↦
        let one : Graph host.Number = increment_edge host c left right now g in
        let two : Graph host.Number = increment_edge host c right left now one in
        let h1 : IsBounded one = upsert_edge-IsBounded left right _ g h in
        let h2 : IsBounded two = upsert_edge-IsBounded right left _ one h1 in
        rw joined (add_pairs-IsBounded left rest now two h2)
  ]

  add_each-IsBounded :
      (nodes : List String) (now : host.Number) (g : Graph host.Number)
      → IsBounded g
      → IsBounded (add_each host c nodes now g)
  unfolding add_each
  add_each-IsBounded [] now g h = h
  add_each-IsBounded (left ∷ rest) now g h =
      add_each-IsBounded rest now (add_pairs host c left rest now g)
        (add_pairs-IsBounded left rest now g h)

  delete_node-IsBounded :
      (a : String) (g : Graph host.Number) → IsBounded g → IsBounded (delete_node a g)
  unfolding delete_node
  delete_node-IsBounded a g h = elim (Option-cases (lookup a g)) [
    | inl absent ↦ rw (delete_node, absent) h
    | inr (edges, found) ↦
        let loose : IsLoose c.max_edges_per_node a (drop_reverses a edges g) =
          drop_reverses-IsLoose c.max_edges_per_node a edges g
            (loosen c.max_edges_per_node a g h) in
        rw (delete_node, found)
          (tighten c.max_edges_per_node a (delete a (drop_reverses a edges g))
            (record {
              dict = delete-IsDict a (drop_reverses a edges g) loose.dict;
              each =
                  delete-IsEach (IsFineBut c.max_edges_per_node a) a (drop_reverses a edges g)
                    loose.each;
            })
            (λ es there.
              ground (arith, lookup-delete a a (drop_reverses a edges g) loose.dict, eq_iff a a)))
  ]

  delete_nodes-IsBounded :
      (nodes : List String) (g : Graph host.Number) → IsBounded g → IsBounded (delete_nodes nodes g)
  unfolding delete_nodes
  delete_nodes-IsBounded [] g h = h
  delete_nodes-IsBounded (node ∷ rest) g h = elim (Bool-cases (node == "")) [
    | inl skipped ↦ rw skipped (delete_nodes-IsBounded rest g h)
    | inr named ↦
        rw named (delete_nodes-IsBounded rest (delete_node node g) (delete_node-IsBounded node g h))
  ]

  -- What a caller does to a graph
  pub data Step : Graph host.Number → Graph host.Number → Type 0 where
    adds :
        {g : Graph host.Number} (nodes : List String) (now : host.Number)
        → Step g (add_cooccurrence host c nodes now g)
    upserts :
        {g : Graph host.Number} (a b : String) (e : Edge host.Number)
        → Step g (upsert_edge host c a b e g)
    deletes : {g : Graph host.Number} (a : String) → Step g (delete_node a g)
    enforces : {g : Graph host.Number} (max_nodes : ℕ) → Step g (enforce_bounds max_nodes g)

  -- A graph that steps reach from the empty one
  pub data Reached : Graph host.Number → Type 0 where
    start : Reached []
    next : {g g' : Graph host.Number} → Reached g → Step g g' → Reached g'

  Step-IsBounded : {g g' : Graph host.Number} → IsBounded g → Step g g' → IsBounded g'
  unfolding add_cooccurrence enforce_bounds
  Step-IsBounded {g} h (adds nodes now) = add_each-IsBounded (unique_texts [] nodes) now g h
  Step-IsBounded {g} h (upserts a b e) = upsert_edge-IsBounded a b e g h
  Step-IsBounded {g} h (deletes a) = delete_node-IsBounded a g h
  Step-IsBounded {g} h (enforces max_nodes) = delete_nodes-IsBounded _ g h

  -- In every graph that additions, edges of a snapshot, deletions of nodes and bounds on their number
  -- reach from the empty graph, each node has an edge, and at most as many as the limit of the
  -- graph.
  pub Reached-IsBounded : (g : Graph host.Number) → Reached g → IsBounded g
  Reached-IsBounded g start = record { dict = tt; each = tt }
  Reached-IsBounded g (next {g = before} reached step) =
      Step-IsBounded (Reached-IsBounded before reached) step
