-- ===== src/Graph/Removal.antt =====
-- graph/cooccurrence-graph.ts: which edges of a node the loop of trimEdges leaves.
use open_interest_clusters.Prelude.{
  ℕ, zero, suc, ◌+◌, ◌≤◌, String, ◌≡◌, refl, arith, inl, inr, eq_iff, List, [], ◌∷◌, none, some,
  length, take, Option-cases,
}
use open_interest_clusters.Prelude.Dict.{
  Dict, IsDict, lookup, delete, insert-IsDict, delete-IsDict, lookup-insert, lookup-delete,
  length-delete,
}
use open_interest_clusters.Prelude.Cut.{IsIn, IsIn-delete, lookup-take}
use open_interest_clusters.Graph.Cooccurrence.{
  Edge, Graph, remove_edge, set_unless_empty, drop_reverse, remove_all,
}
use open_interest_clusters.Graph.Trim.{Holds, drop_reverse-Holds}

pub length-take : {V : Type 0} (n : ℕ) (d : List V) → n ≤ length d → length (take n d) ≡ n
length-take zero d h = refl
length-take (suc n) [] h = omega arith
length-take (suc n) (x ∷ d) h = omega (arith, length-take n d (omega arith))

nothing_in : {V : Type 0} (records : Dict V) → IsIn [] records → records ≡ []
unfolding lookup
nothing_in [] h = refl
nothing_in ((b, e) ∷ rest) h = ground arith

pub lookup-take-some :
    {V : Type 0} (key : String) (e : V) (n : ℕ) (d : Dict V)
    → IsDict d
    → lookup key (take n d) ≡ some e
    → lookup key d ≡ some e
lookup-take-some key e n d h found = ground (arith, lookup-take key n d h, found)

module _ {N : Type 0} where
  set_unless_empty-IsDict :
      (b : String) (es : Dict (Edge N)) (g : Graph N) → IsDict g → IsDict (set_unless_empty b es g)
  set_unless_empty-IsDict b [] g h = delete-IsDict b g h
  set_unless_empty-IsDict b (e ∷ es) g h = insert-IsDict b (e ∷ es) g h

  drop_reverse-IsDict : (a b : String) (g : Graph N) → IsDict g → IsDict (drop_reverse a b g)
  unfolding drop_reverse
  drop_reverse-IsDict a b g h = elim (Option-cases (lookup b g)) [
    | inl absent ↦ rw (drop_reverse, absent) h
    | inr (es, there) ↦ rw (drop_reverse, there) (set_unless_empty-IsDict b (delete a es) g h)
  ]

  remove_edge-lookup :
      (a b : String) (edges : Dict (Edge N)) (g : Graph N)
      → IsDict g
      → lookup a g ≡ some edges
      → (lookup a (remove_edge a b g) ≡ some (delete b edges)) × IsDict (remove_edge a b g)
  unfolding remove_edge
  remove_edge-lookup a b edges g d found =
      rw (remove_edge, found)
        (
          ground (arith, lookup-insert a a (delete b edges) g, eq_iff a a),
          insert-IsDict a (delete b edges) g d,
        )

  -- The edges that the loop leaves are those that it does not name.
  pub remove_all-Holds :
      (a : String) (records edges : Dict (Edge N)) (g : Graph N)
      → IsDict g
      → IsDict edges
      → IsDict records
      → IsIn edges records
      → lookup a g ≡ some edges
      → (left : Dict (Edge N)) × Holds a left (remove_all a records g)
        × (length left + length records ≡ length edges)
        × IsDict left
  unfolding remove_all
  remove_all-Holds a [] edges g d e k i found = (edges, inl found, omega arith, e)
  remove_all-Holds a ((b, x) ∷ rest) edges g d e k i found =
      let (one_less, d1) = remove_edge-lookup a b edges g d found in
      let gone : lookup b (delete b edges) ≡ none =
        ground (arith, lookup-delete b b edges e, eq_iff b b) in
      let shorter : suc (length (delete b edges)) ≡ length edges = length-delete b x edges i.0 in
      let others : IsIn (delete b edges) rest = IsIn-delete b edges rest e k.0 i.1 in
      elim (drop_reverse-Holds a b (delete b edges) (remove_edge a b g) d1 gone one_less) [
        | inl kept ↦
            let (left, holds, count, is) =
              remove_all-Holds a rest (delete b edges) (drop_reverse a b (remove_edge a b g))
                (drop_reverse-IsDict a b (remove_edge a b g) d1) (delete-IsDict b edges e) k.1
                others kept in
            (left, holds, omega (arith, count, shorter), is)
        | inr (no_node, empty) ↦
            let none_left : rest ≡ [] = nothing_in rest (rw empty at others) in
            ([], rw none_left (inr (no_node, refl)), rw none_left (rw empty at shorter), tt)
      ]
