-- ===== src/Sha1.antt =====
-- src/sha1.cpp and include/beauty/sha1.hpp. A `uint32_t` is a number below 2 ^ 32: a sum is reduced, a
-- shift is a product or a quotient by a power of two. A stream is the list of its bytes.
pub mod Spec
pub mod Bits
pub mod Schedule
pub mod Rounds
pub mod Stream
pub mod Blocks
pub mod Padding
pub mod Digest
pub mod Tests
use mathlib.Core.List.{flat_map}
use Prim.Native.Nat.{bit_and, bit_or, bit_xor}
use beauty_cl.Prelude.{
  ℕ, zero, suc, ◌+◌, ◌-◌, ◌*◌, ◌/◌, ◌%◌, ◌^◌, Bool, true, false, List, [], ◌∷◌, ◌++◌, Bytes, codes,
  length, get_or, set, take, drop, replicate, ltb, leb, if◌then◌else◌,
}

abbrev pub u32 : ℕ
u32 = 2 ^ 32

-- The macro `rol`.
pub rol : ℕ → ℕ → ℕ
rol value bits = bit_or (value * 2 ^ bits % u32) (value / 2 ^ (32 - bits))

-- `digest_`, and the working variables of `transform`.
pub record Words5 : Type 0 where
  pub a : ℕ
  pub b : ℕ
  pub c : ℕ
  pub d : ℕ
  pub e : ℕ

pub record Sha1 : Type 0 where
  pub digest : Words5
  pub buffer : Bytes
  pub transforms : ℕ

abbrev pub block_ints : ℕ
block_ints = 16

abbrev pub block_bytes : ℕ
block_bytes = 64

abbrev pub initial : Words5
initial = record { a = 0x67452301; b = 0xefcdab89; c = 0x98badcfe; d = 0x10325476; e = 0xc3d2e1f0 }

-- `reset`, which is also the constructor.
pub reset : Sha1
reset = record { digest = initial; buffer = []; transforms = 0 }

-- `block[i]`.
abbrev pub at : List ℕ → ℕ → ℕ
at block i = get_or block i 0

-- The right side of the macro `blk(i)`, and the block after its assignment.
pub blk_value : List ℕ → ℕ → ℕ
blk_value block i =
    rol
      (bit_xor
        (bit_xor (bit_xor (at block ((i + 13) % 16)) (at block ((i + 8) % 16)))
          (at block ((i + 2) % 16)))
        (at block (i % 16)))
      1

pub blk : List ℕ → ℕ → List ℕ
blk block i = set block (i % 16) (blk_value block i)

-- The round functions of `R0` and `R1`, of `R2` and `R4`, and of `R3`.
pub ch_word : ℕ → ℕ → ℕ → ℕ
ch_word w x y = bit_xor (bit_and w (bit_xor x y)) y

pub parity_word : ℕ → ℕ → ℕ → ℕ
parity_word w x y = bit_xor (bit_xor w x) y

pub maj_word : ℕ → ℕ → ℕ → ℕ
maj_word w x y = bit_or (bit_and (bit_or w x) y) (bit_and w x)

-- A round leaves the new `z`, the new `w` and the block.
abbrev pub Round : Type 0
Round = ℕ → ℕ → ℕ → ℕ → ℕ → ℕ → List ℕ → ℕ × ℕ × List ℕ

pub r0 : Round
r0 v w x y z i block =
    ((z + (ch_word w x y + at block i + 0x5a827999 + rol v 5)) % u32, rol w 30, block)

-- `R1` to `R4` differ in the function and the constant.
pub r_blk : (ℕ → ℕ → ℕ → ℕ) → ℕ → Round
r_blk f k v w x y z i block =
    ((z + (f w x y + at (blk block i) (i % 16) + k + rol v 5)) % u32, rol w 30, blk block i)

-- The macro that stands in line `i` of the unrolled loop.
pub round : ℕ → Round
round i v w x y z =
    if ltb i 16
    then r0 v w x y z
    else if ltb i 20
    then r_blk ch_word 0x5a827999 v w x y z
    else if ltb i 40
    then r_blk parity_word 0x6ed9eba1 v w x y z
    else if ltb i 60
    then r_blk maj_word 0x8f1bbcdc v w x y z
    else r_blk parity_word 0xca62c1d6 v w x y z

-- Five lines of the unrolled loop, after which the variables stand in their places again.
pub five : ℕ → Words5 × List ℕ → Words5 × List ℕ
five i (v, block) =
    let (e, b, block1) = round i v.a v.b v.c v.d v.e i block in
    let (d, a, block2) = round (i + 1) e v.a b v.c v.d (i + 1) block1 in
    let (c, e', block3) = round (i + 2) d e a b v.c (i + 2) block2 in
    let (b', d', block4) = round (i + 3) c d e' a b (i + 3) block3 in
    let (a', c', block5) = round (i + 4) b' c d' e' a (i + 4) block4 in
    (record { a = a'; b = b'; c = c'; d = d'; e = e' }, block5)

pub fives : ℕ → ℕ → Words5 × List ℕ → Words5 × List ℕ
fives zero i st = st
fives (suc n) i st = fives n (i + 5) (five i st)

pub add32 : ℕ → ℕ → ℕ
add32 x y = (x + y) % u32

abbrev pub add_words : Words5 → Words5 → Words5
add_words v w = record {
  a = add32 v.a w.a;
  b = add32 v.b w.b;
  c = add32 v.c w.c;
  d = add32 v.d w.d;
  e = add32 v.e w.e;
}

-- `transform` also changes the caller's block.
pub transform : List ℕ → Sha1 → Sha1 × List ℕ
transform block h =
    let (v, block') = fives 16 0 (h.digest, block) in
    (record h { digest = add_words h.digest v; transforms = (h.transforms + 1) % 2 ^ 64 }, block')

-- The word of four bytes, the first one highest.
pub word_of : ℕ → ℕ → ℕ → ℕ → ℕ
word_of p q r s =
    bit_or (bit_or (bit_or (s % 256) (r % 256 * 2 ^ 8)) (q % 256 * 2 ^ 16)) (p % 256 * 2 ^ 24)

pub word_at : Bytes → ℕ → ℕ
word_at buffer i =
    word_of (get_or buffer (4 * i) 0) (get_or buffer (4 * i + 1) 0) (get_or buffer (4 * i + 2) 0)
      (get_or buffer (4 * i + 3) 0)

pub words_from : ℕ → ℕ → Bytes → List ℕ
words_from zero i buffer = []
words_from (suc n) i buffer = word_at buffer i ∷ words_from n (i + 1) buffer

pub buffer_to_block : Bytes → List ℕ
buffer_to_block buffer = words_from block_ints 0 buffer

-- `read`: what was read, what is left, and whether the stream still holds, which it does only if
-- it had all of `max` bytes.
pub read : ℕ → Bytes → Bytes × Bytes × Bool
read max is = (take max is, drop max is, leb max (length is))

-- `while (is)`, with fuel for its rounds.
pub update_loop : ℕ → Sha1 → Bytes → Bool → Sha1
update_loop zero h is good = h
update_loop (suc fuel) h is false = h
update_loop (suc fuel) h is true =
    let h' = (transform (buffer_to_block h.buffer) h).0 in
    update_loop fuel (record h' { buffer = take block_bytes is }) (drop block_bytes is)
      (leb block_bytes (length is))

pub update : Bytes → Sha1 → Sha1
update s h =
    let (rest_of_buffer, is, good) = read (block_bytes - length h.buffer) s in
    update_loop (length s + 1) (record h { buffer = h.buffer ++ rest_of_buffer }) is good

-- `for (i = 0; i < n; i++) block[i] = 0;`
pub zero_first : ℕ → List ℕ → List ℕ
zero_first zero block = block
zero_first (suc n) [] = []
zero_first (suc n) (w ∷ block) = 0 ∷ zero_first n block

pub total_bits : Sha1 → ℕ
total_bits h = (h.transforms * block_bytes + length h.buffer) * 8 % 2 ^ 64

-- The block with the two words of the length at its end.
pub append_bits : ℕ → List ℕ → List ℕ
append_bits bits block =
    set (set block (block_ints - 1) (bits % u32)) (block_ints - 2) (bits / 2 ^ 32 % u32)

pub compute_digest : Sha1 → Sha1
compute_digest h =
    let bits = total_bits h in
    let buffer = h.buffer ++ 0x80 ∷ [] in
    let orig_size = length buffer in
    let padded = buffer ++ replicate (block_bytes - orig_size) 0 in
    let block = buffer_to_block padded in
    let h1 = record h { buffer = padded } in
    if ltb (block_bytes - 8) orig_size
    then (let (h2, used) = transform block h1 in
        (transform (append_bits bits (zero_first (block_ints - 2) used)) h2).0)
    else (transform (append_bits bits block) h1).0

abbrev pub words : Words5 → List ℕ
words v = v.a ∷ v.b ∷ v.c ∷ v.d ∷ v.e ∷ []

pub word_bytes : ℕ → Bytes
word_bytes w = w / 2 ^ 24 % 256 ∷ w / 2 ^ 16 % 256 ∷ w / 2 ^ 8 % 256 ∷ w % 256 ∷ []

pub digest : Sha1 → Bytes × Sha1
digest h = (flat_map word_bytes (words (compute_digest h).digest), reset)

pub hex_digit : ℕ → ℕ
hex_digit n = get_or (codes "0123456789abcdef") n 0

-- `std::hex` with `setw(8)` and `setfill('0')`.
pub hex_word : ℕ → ℕ → Bytes
hex_word zero w = []
hex_word (suc n) w = hex_digit (w / 16 ^ n % 16) ∷ hex_word n w

pub final : Sha1 → Bytes × Sha1
final h = (flat_map (hex_word 8) (words (compute_digest h).digest), reset)

-- To run all this, unfold this.
pub runs : Unit {0}
unfolding rol blk_value blk ch_word parity_word maj_word r0 r_blk round five fives add32 transform
    word_of word_at words_from buffer_to_block read update_loop update zero_first total_bits
    append_bits compute_digest word_bytes digest hex_digit hex_word final reset flat_map
runs = tt
