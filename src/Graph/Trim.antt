-- ===== src/Graph/Trim.antt =====
-- graph/cooccurrence-graph.ts, trimEdgesForNode: a node that has too many edges for a moment has at
-- most as many as the limit afterwards, and every other node keeps its bounds.
use open_interest_clusters.Prelude.{
  ℕ, ◌≤◌, ◌<◌, String, false, ◌≡◌, ◌⊎◌, refl, arith, inl, inr, ◌==◌, eq_iff, [], ◌∷◌, none, some,
  length, Bool-cases, Option-cases,
}
use open_interest_clusters.Prelude.Dict.{
  Dict, IsDict, lookup, insert, delete, insert-IsDict, delete-IsDict, lookup-insert, lookup-delete,
  length-delete_most, delete_absent,
}
use open_interest_clusters.Prelude.Each.{
  IsEach, insert-IsEach, delete-IsEach, IsEach-lookup, IsEach-of_lookups,
}
use open_interest_clusters.Graph.Cooccurrence.{
  Edge, Graph, remove_edge, set_unless_empty, drop_reverse, drop_reverses, remove_all,
}

module _ {N : Type 0} (max : ℕ) where
  abbrev pub IsFine : Dict (Edge N) → Type 0
  IsFine edges = IsDict edges × (0 < length edges) × (length edges ≤ max)

  -- Each node has an edge, at most as many as the limit, and each neighbor once.
  pub record IsGraph (g : Graph N) : Type 0 where
    pub dict : IsDict g
    pub each : IsEach (λ node edges. IsFine edges) g

  abbrev pub IsFineBut : String → String → Dict (Edge N) → Type 0
  IsFineBut a node edges = IsDict edges × ((node == a) ≡ false → IsFine edges)

  -- Each node but this one is fine.
  pub record IsLoose (a : String) (g : Graph N) : Type 0 where
    pub dict : IsDict g
    pub each : IsEach (IsFineBut a) g

  pub loosen : (a : String) (g : Graph N) → IsGraph g → IsLoose a g
  loosen a g h = record {
    dict = h.dict;
    each = IsEach-of_lookups (IsFineBut a) g h.dict (λ node edges found.
        let fine : IsFine edges =
          IsEach-lookup (λ node edges. IsFine edges) node edges g h.each found in
        (fine.0, λ other. fine));
  }

  pub tighten :
      (a : String) (g : Graph N)
      → IsLoose a g
      → ((edges : Dict (Edge N)) → lookup a g ≡ some edges → IsFine edges)
      → IsGraph g
  tighten a g h fine = record {
    dict = h.dict;
    each =
        IsEach-of_lookups (λ node edges. IsFine edges) g h.dict
          (λ node edges found. elim (Bool-cases (node == a)) [
            | inl same ↦ fine edges (rw ((eq_iff node a).0 same) at found)
            | inr other ↦ (IsEach-lookup (IsFineBut a) node edges g h.each found).1 other
          ]);
  }

  pub insert-IsLoose :
      (a : String) (edges : Dict (Edge N)) (g : Graph N)
      → IsLoose a g
      → IsDict edges
      → IsLoose a (insert a edges g)
  insert-IsLoose a edges g h d = record {
    dict = insert-IsDict a edges g h.dict;
    each = insert-IsEach (IsFineBut a) a edges g h.each (d, λ other. ground (arith, eq_iff a a));
  }

  remove_edge-IsLoose : (a b : String) (g : Graph N) → IsLoose a g → IsLoose a (remove_edge a b g)
  unfolding remove_edge
  remove_edge-IsLoose a b g h = elim (Option-cases (lookup a g)) [
    | inl absent ↦ rw (remove_edge, absent) h
    | inr (edges, found) ↦
        rw (remove_edge, found)
          (insert-IsLoose a (delete b edges) g h
            (delete-IsDict b edges (IsEach-lookup (IsFineBut a) a edges g h.each found).0))
  ]

  set_unless_empty-IsLoose :
      (a b : String) (edges : Dict (Edge N)) (g : Graph N)
      → IsLoose a g
      → IsDict edges
      → ((b == a) ≡ false → length edges ≤ max)
      → IsLoose a (set_unless_empty b edges g)
  set_unless_empty-IsLoose a b [] g h d few = record {
    dict = delete-IsDict b g h.dict;
    each = delete-IsEach (IsFineBut a) b g h.each;
  }
  set_unless_empty-IsLoose a b (e ∷ edges) g h d few = record {
    dict = insert-IsDict b (e ∷ edges) g h.dict;
    each =
        insert-IsEach (IsFineBut a) b (e ∷ edges) g h.each
          (d, λ other. (d, omega arith, few other));
  }

  pub drop_reverse-IsLoose :
      (a b : String) (g : Graph N) → IsLoose a g → IsLoose a (drop_reverse a b g)
  unfolding drop_reverse
  drop_reverse-IsLoose a b g h = elim (Option-cases (lookup b g)) [
    | inl absent ↦ rw (drop_reverse, absent) h
    | inr (edges, found) ↦
        let fine : IsFineBut a b edges = IsEach-lookup (IsFineBut a) b edges g h.each found in
        rw (drop_reverse, found)
          (set_unless_empty-IsLoose a b (delete a edges) g h (delete-IsDict a edges fine.0)
            (λ other. omega (arith, length-delete_most a edges, (fine.1 other).2)))
  ]

  pub remove_all-IsLoose :
      (a : String) (records : Dict (Edge N)) (g : Graph N)
      → IsLoose a g
      → IsLoose a (remove_all a records g)
  unfolding remove_all
  remove_all-IsLoose a [] g h = h
  remove_all-IsLoose a ((b, e) ∷ rest) g h =
      remove_all-IsLoose a rest (drop_reverse a b (remove_edge a b g))
        (drop_reverse-IsLoose a b (remove_edge a b g) (remove_edge-IsLoose a b g h))

  pub drop_reverses-IsLoose :
      (a : String) (records : Dict (Edge N)) (g : Graph N)
      → IsLoose a g
      → IsLoose a (drop_reverses a records g)
  unfolding drop_reverses
  drop_reverses-IsLoose a [] g h = h
  drop_reverses-IsLoose a ((b, e) ∷ rest) g h =
      drop_reverses-IsLoose a rest (drop_reverse a b g) (drop_reverse-IsLoose a b g h)

-- What became of the edges of a node: they are these, or there were none and it is no node.
abbrev pub Holds : {N : Type 0} → String → Dict (Edge N) → Graph N → Type 0
Holds a edges g = (lookup a g ≡ some edges) ⊎ ((lookup a g ≡ none) × (edges ≡ []))

module _ {N : Type 0} where
  pub drop_reverse-Holds :
      (a b : String) (edges : Dict (Edge N)) (g : Graph N)
      → IsDict g
      → lookup b edges ≡ none
      → lookup a g ≡ some edges
      → Holds a edges (drop_reverse a b g)
  unfolding drop_reverse
  drop_reverse-Holds a b edges g d gone found = elim (Bool-cases (b == a)) [
    | inl same ↦
        let is_a : b ≡ a = (eq_iff b a).0 same in
        let kept : delete a edges ≡ edges = delete_absent a edges (rw is_a at gone) in
        rw is_a (rw (drop_reverse, found, kept) (self edges))
    | inr other ↦ elim (Option-cases (lookup b g)) [
      | inl absent ↦ rw (drop_reverse, absent) (inl found)
      | inr (others, there) ↦ rw (drop_reverse, there) (inl (apart (delete a others) other))
    ]
  ]
    where
      self : (es : Dict (Edge N)) → Holds a es (set_unless_empty a es g)
      self [] = inr (ground (arith, lookup-delete a a g d, eq_iff a a), refl)
      self (e ∷ es) = inl (ground (arith, lookup-insert a a (e ∷ es) g, eq_iff a a))

      apart :
          (es : Dict (Edge N)) → (b == a) ≡ false → lookup a (set_unless_empty b es g) ≡ some edges
      apart [] other = ground (arith, lookup-delete b a g d)
      apart (e ∷ es) other = ground (arith, lookup-insert b a (e ∷ es) g)
