-- ===== src/Runtime/Padding.antt =====
-- runtime/hash.ts: the padded message that sha256Hex cuts into blocks.
use open_interest_clusters.Prelude.{
  ℕ, zero, suc, ◌+◌, ◌-◌, ◌*◌, ◌/◌, ◌%◌, ◌<◌, ◌≡◌, refl, ap, ◌∙◌, List, [], ◌∷◌, ◌++◌, All, length,
  arith,
}
use open_interest_clusters.Runtime.Hash.{zeros, pad}

-- The number that bytes spell, the highest first, past the bytes before them.
abbrev pub spelled : ℕ → List ℕ → ℕ
spelled n [] = n
spelled n (b ∷ bs) = spelled (256 * n + b) bs

-- A padded message as FIPS 180-4 has it: the message, a one bit, zeros up to 8 bytes before the end
-- of a block, fewer than a block of them, and the length of the message in bits as eight bytes.
pub record IsPadded (message padded : List ℕ) : Type 0 where
  pub fill : List ℕ
  pub size : List ℕ
  pub parts : padded ≡ message ++ 128 ∷ fill ++ size
  pub blank : All (λ b. b ≡ 0) fill
  pub few : length fill < 64
  pub eight : length size ≡ 8
  pub bytes : All (λ b. b < 256) size
  pub count : spelled 0 size ≡ 8 * length message
  pub blocks : length padded % 64 ≡ 0

zeros-length : (n : ℕ) → length (zeros n) ≡ n
zeros-length zero = refl
zeros-length (suc n) = omega (arith, zeros-length n)

zeros-All : (n : ℕ) → All (λ b. b ≡ 0) (zeros n)
zeros-All zero = tt
zeros-All (suc n) = (refl, zeros-All n)

append-length : (xs ys : List ℕ) → length (xs ++ ys) ≡ length xs + length ys
append-length [] ys = omega arith
append-length (x ∷ xs) ys = omega (arith, append-length xs ys)

abbrev size_of : ℕ → List ℕ
size_of bits =
    ((bits / 72057594037927936) % 256)
    ∷ ((bits / 281474976710656) % 256)
    ∷ ((bits / 1099511627776) % 256)
    ∷ ((bits / 4294967296) % 256)
    ∷ ((bits / 16777216) % 256)
    ∷ ((bits / 65536) % 256)
    ∷ ((bits / 256) % 256)
    ∷ (bits % 256)
    ∷ []

size_of-spelled : (bits : ℕ) → bits < 18446744073709551616 → spelled 0 (size_of bits) ≡ bits
size_of-spelled bits h = omega arith

size_of-bytes : (bits : ℕ) → All (λ b. b < 256) (size_of bits)
size_of-bytes bits = ground arith

whole_blocks : (n z t s : ℕ) → z ≡ (119 - n % 64) % 64 → s ≡ 8 → t ≡ n + suc (z + s) → t % 64 ≡ 0
whole_blocks n z t s is_z is_s is_t = omega arith

-- A message of fewer than 2 ^ 61 bytes is padded as FIPS 180-4 has it: it is followed by a one bit, by
-- fewer than 64 zeros, and by its length in bits as eight bytes, the highest first, and the whole is
-- cut into blocks of 64 bytes with nothing left.
pub pad-IsPadded :
    (message : List ℕ) → length message < 2305843009213693952 → IsPadded message (pad message)
unfolding pad
pad-IsPadded message short =
    let n = length message in
    let fill = zeros ((119 - n % 64) % 64) in
    record {
      fill = fill;
      size = size_of (n * 8);
      parts = refl;
      blank = zeros-All ((119 - n % 64) % 64);
      few = omega (arith, zeros-length ((119 - n % 64) % 64));
      eight = refl;
      bytes = size_of-bytes (n * 8);
      count = size_of-spelled (n * 8) (omega arith) ∙ omega arith;
      blocks =
          whole_blocks n (length fill) (length (pad message)) 8 (zeros-length ((119 - n % 64) % 64))
            refl
            (append-length (message ++ (128 ∷ fill)) (size_of (n * 8))
              ∙ ap (λ k. k + 8) (append-length message (128 ∷ fill))
              ∙ omega arith);
    }
