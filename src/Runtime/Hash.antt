-- ===== src/Runtime/Hash.antt =====
-- runtime/hash.ts: sha256Hex. A word of the source is a signed or an unsigned 32-bit integer by
-- turns; here it is the number below 2 ^ 32 with its bits, which is what `>>> 0` makes of both.
use Prim.Native.Char.{code}
use Prim.Native.String
use Prim.Native.Nat.{bit_and, bit_or, bit_xor, ◌^◌, ◌*◌}
use open_interest_clusters.Prelude.{
  ℕ, zero, suc, ◌+◌, ◌-◌, ◌/◌, ◌%◌, String, List, [], ◌∷◌, ◌++◌, leb, length, take, drop,
  if◌then◌else◌, ◌≡◌, refl,
}

abbrev pub word : ℕ
word = 0x100000000

-- SHA256_K
abbrev pub sha256_k : List ℕ
sha256_k =
    0x428a2f98 ∷ 0x71374491 ∷ 0xb5c0fbcf ∷ 0xe9b5dba5 ∷ 0x3956c25b ∷ 0x59f111f1 ∷ 0x923f82a4
    ∷ 0xab1c5ed5 ∷ 0xd807aa98 ∷ 0x12835b01 ∷ 0x243185be ∷ 0x550c7dc3 ∷ 0x72be5d74 ∷ 0x80deb1fe
    ∷ 0x9bdc06a7 ∷ 0xc19bf174 ∷ 0xe49b69c1 ∷ 0xefbe4786 ∷ 0x0fc19dc6 ∷ 0x240ca1cc ∷ 0x2de92c6f
    ∷ 0x4a7484aa ∷ 0x5cb0a9dc ∷ 0x76f988da ∷ 0x983e5152 ∷ 0xa831c66d ∷ 0xb00327c8 ∷ 0xbf597fc7
    ∷ 0xc6e00bf3 ∷ 0xd5a79147 ∷ 0x06ca6351 ∷ 0x14292967 ∷ 0x27b70a85 ∷ 0x2e1b2138 ∷ 0x4d2c6dfc
    ∷ 0x53380d13 ∷ 0x650a7354 ∷ 0x766a0abb ∷ 0x81c2c92e ∷ 0x92722c85 ∷ 0xa2bfe8a1 ∷ 0xa81a664b
    ∷ 0xc24b8b70 ∷ 0xc76c51a3 ∷ 0xd192e819 ∷ 0xd6990624 ∷ 0xf40e3585 ∷ 0x106aa070 ∷ 0x19a4c116
    ∷ 0x1e376c08 ∷ 0x2748774c ∷ 0x34b0bcb5 ∷ 0x391c0cb3 ∷ 0x4ed8aa4a ∷ 0x5b9cca4f ∷ 0x682e6ff3
    ∷ 0x748f82ee ∷ 0x78a5636f ∷ 0x84c87814 ∷ 0x8cc70208 ∷ 0x90befffa ∷ 0xa4506ceb ∷ 0xbef9a3f7
    ∷ 0xc67178f2 ∷ []

-- rightRotate
right_rotate : ℕ → ℕ → ℕ
right_rotate x bits = bit_or (x / 2 ^ bits) ((x * 2 ^ (32 - bits)) % word)

-- The bytes of one code point.
code_point_bytes : ℕ → List ℕ
code_point_bytes c =
    if leb c 0x7f
    then c ∷ []
    else if leb c 0x7ff
    then (0xc0 + c / 64) ∷ (0x80 + c % 64) ∷ []
    else if leb c 0xffff
    then (0xe0 + c / 4096) ∷ (0x80 + c / 64 % 64) ∷ (0x80 + c % 64) ∷ []
    else (0xf0 + c / 262144) ∷ (0x80 + c / 4096 % 64) ∷ (0x80 + c / 64 % 64) ∷ (0x80 + c % 64) ∷ []

-- utf8Bytes
pub utf8_bytes : String → List ℕ
utf8_bytes String.[] = []
utf8_bytes (String.◌∷◌ c s) = code_point_bytes (code c) ++ utf8_bytes s

abbrev pub zeros : ℕ → List ℕ
zeros zero = []
zeros (suc n) = 0 ∷ zeros n

-- The message with its end mark, its zeros up to 56 bytes past a multiple of 64, and its length in
-- bits as eight bytes.
unfoldable pub pad : List ℕ → List ℕ
pad bytes =
    let n = length bytes in
    let bits = n * 8 in
    bytes
    ++ 0x80 ∷ zeros ((119 - n % 64) % 64)
    ++ ((bits / 2 ^ 56) % 256)
      ∷ ((bits / 2 ^ 48) % 256)
      ∷ ((bits / 2 ^ 40) % 256)
      ∷ ((bits / 2 ^ 32) % 256)
      ∷ ((bits / 2 ^ 24) % 256)
      ∷ ((bits / 2 ^ 16) % 256)
      ∷ ((bits / 2 ^ 8) % 256)
      ∷ (bits % 256)
      ∷ []

-- The words of a block.
pub block_words : List ℕ → List ℕ
block_words (a ∷ b ∷ c ∷ d ∷ rest) =
    (a * 0x1000000 + b * 0x10000 + c * 0x100 + d) ∷ block_words rest
block_words _ = []

-- The sixteen words of the schedule's window; the next one goes in at the end.
next_word : List ℕ → ℕ
next_word
      (w0 ∷ w1 ∷ w2 ∷ w3 ∷ w4 ∷ w5 ∷ w6 ∷ w7 ∷ w8 ∷ w9 ∷ w10 ∷ w11 ∷ w12 ∷ w13 ∷ w14 ∷ w15 ∷ _) =
    let s0 = bit_xor (bit_xor (right_rotate w1 7) (right_rotate w1 18)) (w1 / 8) in
    let s1 = bit_xor (bit_xor (right_rotate w14 17) (right_rotate w14 19)) (w14 / 1024) in
    (w0 + s0 + w9 + s1) % word
next_word _ = 0

-- The eight running words: `a` to `h`, or `h0` to `h7`.
pub record Words : Type 0 where
  a : ℕ
  b : ℕ
  c : ℕ
  d : ℕ
  e : ℕ
  f : ℕ
  g : ℕ
  h : ℕ

-- One round of the compression, with its constant and its word of the schedule.
round : Words → ℕ → ℕ → Words
round r k w =
    let s1 = bit_xor (bit_xor (right_rotate r.e 6) (right_rotate r.e 11)) (right_rotate r.e 25) in
    let ch = bit_xor (bit_and r.e r.f) (bit_and (word - 1 - r.e) r.g) in
    let temp1 = (r.h + s1 + ch + k + w) % word in
    let s0 = bit_xor (bit_xor (right_rotate r.a 2) (right_rotate r.a 13)) (right_rotate r.a 22) in
    let maj = bit_xor (bit_xor (bit_and r.a r.b) (bit_and r.a r.c)) (bit_and r.b r.c) in
    let temp2 = (s0 + maj) % word in
    record {
      a = (temp1 + temp2) % word;
      b = r.a;
      c = r.b;
      d = r.c;
      e = (r.d + temp1) % word;
      f = r.e;
      g = r.f;
      h = r.g;
    }

abbrev first : List ℕ → ℕ
first [] = 0
first (w ∷ ws) = w

abbrev rest : List ℕ → List ℕ
rest [] = []
rest (w ∷ ws) = ws

-- The 64 rounds. The window holds the schedule's next sixteen words, so that its first is the
-- round's, and the word that the source would store sixteen places on goes in at its end.
pub rounds : List ℕ → Words → List ℕ → Words
rounds [] r window = r
rounds (k ∷ ks) r window =
    rounds ks (round r k (first window)) (rest window ++ next_word window ∷ [])

pub add_words : Words → Words → Words
add_words r s = record {
  a = (r.a + s.a) % word;
  b = (r.b + s.b) % word;
  c = (r.c + s.c) % word;
  d = (r.d + s.d) % word;
  e = (r.e + s.e) % word;
  f = (r.f + s.f) % word;
  g = (r.g + s.g) % word;
  h = (r.h + s.h) % word;
}

-- The loop over the blocks, on as much fuel as there are bytes.
unfoldable pub blocks : ℕ → List ℕ → Words → Words
blocks zero bytes r = r
blocks (suc fuel) bytes r =
    let next =
      blocks fuel (drop 64 bytes) (add_words r (rounds sha256_k r (block_words (take 64 bytes)))) in
    if leb (length bytes) 0 then r else next

abbrev pub initial : Words
initial = record {
  a = 0x6a09e667;
  b = 0xbb67ae85;
  c = 0x3c6ef372;
  d = 0xa54ff53a;
  e = 0x510e527f;
  f = 0x9b05688c;
  g = 0x1f83d9ab;
  h = 0x5be0cd19;
}

abbrev hex_digit : ℕ → String
hex_digit n = String.slice "0123456789abcdef" n (n + 1)

-- `word.toString(16).padStart(8, "0")`
word_hex : ℕ → ℕ → String → String
word_hex zero n text = text
word_hex (suc digits) n text = word_hex digits (n / 16) (String.◌++◌ (hex_digit (n % 16)) text)

-- sha256Hex
unfoldable pub sha256_hex : String → String
unfolding right_rotate code_point_bytes utf8_bytes pad block_words next_word round rounds add_words
    blocks word_hex
sha256_hex value =
    let bytes = pad (utf8_bytes value) in
    let r = blocks (length bytes) bytes initial in
    String.◌++◌ (word_hex 8 r.a "") (
      String.◌++◌ (word_hex 8 r.b "") (
        String.◌++◌ (word_hex 8 r.c "") (
          String.◌++◌ (word_hex 8 r.d "") (
            String.◌++◌ (word_hex 8 r.e "") (
              String.◌++◌ (word_hex 8 r.f "")
                (String.◌++◌ (word_hex 8 r.g "") (word_hex 8 r.h "")))))))

abc_digest : sha256_hex "abc" ≡ "ba7816bf8f01cfea414140de5dae2223b00361a396177a9cb410ff61f20015ad"
unfolding sha256_hex
abc_digest = refl
