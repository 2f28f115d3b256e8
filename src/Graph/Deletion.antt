-- ===== src/Graph/Deletion.antt =====
-- graph/cooccurrence-graph.ts, deleteNode: which edges are left.
use open_interest_clusters.Prelude.{
  ℕ, String, ◌≡◌, refl, arith, inl, inr, ◌==◌, ◌&&◌, eq_iff, [], ◌∷◌, Option, none, some,
  Bool-cases, Option-cases, if◌then◌else◌,
}
use open_interest_clusters.Prelude.Dict.{
  Dict, IsDict, lookup, insert, delete, has, lookup-insert, lookup-delete,
}
use open_interest_clusters.Prelude.Each.{IsEach-lookup}
use open_interest_clusters.Graph.Cooccurrence.{
  Edge, Graph, edges_of, set_unless_empty, drop_reverse, drop_reverses, delete_node,
}
use open_interest_clusters.Graph.Trim.{
  IsGraph, IsFineBut, IsLoose, loosen, drop_reverse-IsLoose, drop_reverses-IsLoose,
}

module _ {N : Type 0} where
  -- The edge from a node to another
  abbrev pub edge : String → String → Graph N → Option (Edge N)
  edge from to g = lookup to (edges_of from g)

  edges_of-none : (x : String) (g : Graph N) → lookup x g ≡ none → edges_of x g ≡ []
  edges_of-none x g h = rw (edges_of, h) refl

  edges_of-some :
      (x : String) (es : Dict (Edge N)) (g : Graph N) → lookup x g ≡ some es → edges_of x g ≡ es
  edges_of-some x es g h = rw (edges_of, h) refl

  edges_of-same :
      (x : String) (g g' : Graph N) → lookup x g ≡ lookup x g' → edges_of x g ≡ edges_of x g'
  edges_of-same x g g' h = rw (edges_of, h) refl

  edges_of-set :
      (b x : String) (es : Dict (Edge N)) (g : Graph N)
      → IsDict g
      → edges_of x (set_unless_empty b es g) ≡ (if b == x then es else edges_of x g)
  edges_of-set b x [] g d = elim (Bool-cases (b == x)) [
    | inl same ↦ rw same (edges_of-none x (delete b g) (ground (arith, lookup-delete b x g d)))
    | inr other ↦ rw other (edges_of-same x (delete b g) g (ground (arith, lookup-delete b x g d)))
  ]
  edges_of-set b x (e ∷ es) g d = elim (Bool-cases (b == x)) [
    | inl same ↦ rw same (
        edges_of-some x (e ∷ es) (insert b (e ∷ es) g)
          (ground (arith, lookup-insert b x (e ∷ es) g)))
    | inr other ↦
        rw other
          (edges_of-same x (insert b (e ∷ es) g) g (ground (arith, lookup-insert b x (e ∷ es) g)))
  ]

module _ {N : Type 0} (max : ℕ) (a : String) where
  drop_reverse-edge :
      (b x y : String) (g : Graph N)
      → IsLoose max a g
      → edge x y (drop_reverse a b g) ≡ (if b == x && a == y then none else edge x y g)
  unfolding drop_reverse lookup
  drop_reverse-edge b x y g h = elim (Option-cases (lookup b g)) [
    | inl absent ↦ elim (Bool-cases (b == x)) [
      | inl same ↦
          let nothing : edges_of x g ≡ [] =
            edges_of-none x g (rw ((eq_iff b x).0 same) at absent) in
          rw (drop_reverse, absent, nothing) (ground arith)
      | inr other ↦ rw (drop_reverse, absent, other) refl
    ]
    | inr (es, found) ↦
        let d : IsDict es = (IsEach-lookup (IsFineBut max a) b es g h.each found).0 in
        elim (Bool-cases (b == x)) [
          | inl same ↦
              let these : edges_of x g ≡ es =
                edges_of-some x es g (rw ((eq_iff b x).0 same) at found) in
              rw (drop_reverse, found, edges_of-set b x (delete a es) g h.dict, same, these)
                (lookup-delete a y es d)
          | inr other ↦
              rw (drop_reverse, found, edges_of-set b x (delete a es) g h.dict, other) refl
        ]
  ]

  drop_reverses-edge :
      (x y : String) (records : Dict (Edge N)) (g : Graph N)
      → IsLoose max a g
      → edge x y (drop_reverses a records g)
        ≡ (if has x records && a == y then none else edge x y g)
  unfolding drop_reverses has lookup
  drop_reverses-edge x y [] g h = refl
  drop_reverses-edge x y ((b, e) ∷ rest) g h = ground (
    arith,
    drop_reverses-edge x y rest (drop_reverse a b g) (drop_reverse-IsLoose max a b g h),
    drop_reverse-edge b x y g h,
  )

  -- In a graph within its limits, after the deletion of a node there is no edge from it, and none to
  -- it from a node that it had an edge to; every other edge is as before, so that an edge to the node
  -- from a node that it had no edge to stays.
  pub delete_node-edge :
      (x y : String) (g : Graph N)
      → IsGraph max g
      → edge x y (delete_node a g)
        ≡ (if a == x then none else (if has x (edges_of a g) && a == y then none else edge x y g))
  unfolding delete_node has lookup
  delete_node-edge x y g h = elim (Option-cases (lookup a g)) [
    | inl absent ↦ elim (Bool-cases (a == x)) [
      | inl same ↦
          let nothing : edges_of x g ≡ [] =
            edges_of-none x g (rw ((eq_iff a x).0 same) at absent) in
          rw (delete_node, absent, same, nothing) refl
      | inr other ↦
          let nothing : edges_of a g ≡ [] = edges_of-none a g absent in
          rw (delete_node, absent, other, nothing) refl
    ]
    | inr (es, found) ↦
        let loose : IsLoose max a (drop_reverses a es g) =
          drop_reverses-IsLoose max a es g (loosen max a g h) in
        let these : edges_of a g ≡ es = edges_of-some a es g found in
        elim (Bool-cases (a == x)) [
          | inl same ↦
              rw (delete_node, found, edges_of-set a x [] (drop_reverses a es g) loose.dict, same)
                refl
          | inr other ↦
              rw
                (
                  delete_node,
                  found,
                  edges_of-set a x [] (drop_reverses a es g) loose.dict,
                  other,
                  these,
                )
                (drop_reverses-edge x y es g (loosen max a g h))
        ]
  ]
