-- ===== src/Runtime/HashLaws.antt =====
-- runtime/hash.ts: the block loop of sha256Hex ends on the fuel that it is given.
use open_interest_clusters.Prelude.{
  ℕ, zero, suc, ◌-◌, ◌≤◌, ◌≡◌, refl, List, [], ◌∷◌, length, take, drop, arith, leb, false,
  if◌then◌else◌, Bool-cases, inl, inr,
}
use open_interest_clusters.Runtime.Hash.{Words, sha256_k, block_words, rounds, add_words, blocks}

length-drop : {A : Type 0} (n : ℕ) (xs : List A) → length (drop n xs) ≡ length xs - n
length-drop zero xs = omega arith
length-drop (suc n) [] = omega arith
length-drop (suc n) (x ∷ xs) = omega (arith, length-drop n xs)

blocks-fuel :
    (fuel more : ℕ) (bytes : List ℕ) (r : Words)
    → length bytes ≤ fuel
    → length bytes ≤ more
    → blocks fuel bytes r ≡ blocks more bytes r
unfolding blocks
blocks-fuel zero zero bytes r h k = refl
blocks-fuel zero (suc more) bytes r h k = ground arith
blocks-fuel (suc fuel) zero bytes r h k = ground arith
blocks-fuel (suc fuel) (suc more) bytes r h k = elim (Bool-cases (leb (length bytes) 0)) [
  | inl empty ↦ rw empty refl
  | inr some_left ↦ rw some_left (
      blocks-fuel fuel more (drop 64 bytes) _ (ground (arith, length-drop 64 bytes))
        (ground (arith, length-drop 64 bytes)))
]

-- The block loop, on as much fuel as there are bytes, is the loop of the source, which has no fuel:
-- it ends where no byte is left, and otherwise goes on past the next 64 bytes with the words that
-- the block's rounds add. Any larger fuel gives the same.
blocks-loop :
    (bytes : List ℕ) (r : Words) (fuel : ℕ)
    → length bytes ≤ fuel
    → (blocks fuel bytes r ≡ blocks (length bytes) bytes r)
      × (blocks (length bytes) bytes r ≡ (
          if leb (length bytes) 0
          then r
          else blocks
              (length (drop 64 bytes))
              (drop 64 bytes)
              (add_words r (rounds sha256_k r (block_words (take 64 bytes))))))
unfolding blocks
blocks-loop [] r fuel h = (blocks-fuel fuel 0 [] r h (omega arith), refl)
blocks-loop (b ∷ bs) r fuel h =
    let some_left : leb (suc (length bs)) 0 ≡ false = ground arith in
    (
      blocks-fuel fuel (length (b ∷ bs)) (b ∷ bs) r h (omega arith),
      rw some_left (
          blocks-fuel (length bs) (length (drop 63 bs)) (drop 63 bs) _
            (ground (arith, length-drop 63 bs)) (omega arith)),
    )
