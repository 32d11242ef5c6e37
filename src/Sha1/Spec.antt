-- ===== src/Sha1/Spec.antt =====
-- SHA-1 as FIPS 180-4 states it: the message schedule, the compression function, the padding.
-- `rol`, `ch_word`, `parity_word` and `maj_word` are the functions of src/sha1.cpp.
use Prim.Native.Nat.{bit_xor}
use beauty_cl.Prelude.{
  ℕ, zero, suc, ◌+◌, ◌-◌, ◌*◌, ◌/◌, ◌%◌, ◌^◌, List, [], ◌∷◌, ◌++◌, Bytes, length, replicate, ltb,
  ◌==◌, if◌then◌else◌,
}
use beauty_cl.Sha1.{
  Words5, Sha1, rol, ch_word, parity_word, maj_word, u32, add_words, at, buffer_to_block,
}

-- W(0) to W(15 + n): 16 words of the block, and then
-- W(t) = ROTL1(W(t-3) xor W(t-8) xor W(t-14) xor W(t-16)), with t = n + 16.
unfoldable pub schedule : ℕ → List ℕ → List ℕ
schedule zero m = m
schedule (suc n) m =
    let w = schedule n m in
    w
    ++ rol (bit_xor (bit_xor (bit_xor (at w (n + 13)) (at w (n + 8))) (at w (n + 2))) (at w n)) 1
      ∷ []

unfoldable pub function_at : ℕ → ℕ → ℕ → ℕ → ℕ
function_at t =
    if ltb t 20
    then ch_word
    else if ltb t 40
    then parity_word
    else if ltb t 60
    then maj_word
    else parity_word

unfoldable pub constant_at : ℕ → ℕ
constant_at t =
    if ltb t 20
    then 0x5a827999
    else if ltb t 40
    then 0x6ed9eba1
    else if ltb t 60
    then 0x8f1bbcdc
    else 0xca62c1d6

-- Step t, with the word W(t).
unfoldable pub step : ℕ → ℕ → Words5 → Words5
step t w v = record {
  a = (rol v.a 5 + function_at t v.b v.c v.d + v.e + constant_at t + w) % u32;
  b = v.a;
  c = rol v.b 30;
  d = v.c;
  e = v.d;
}

-- `n` steps from step `t` on.
unfoldable pub steps : ℕ → ℕ → List ℕ → Words5 → Words5
steps zero t w v = v
steps (suc n) t w v = steps n (t + 1) w (step t (at w t) v)

unfoldable pub compress : List ℕ → Words5 → Words5
compress m v = add_words v (steps 80 0 (schedule 64 m) v)

-- The message bytes one at a time: each 64 of them are a block.
unfoldable pub push : Sha1 → ℕ → Sha1
push h c =
    if length h.buffer == 63
    then record {
      digest = compress (buffer_to_block (h.buffer ++ c ∷ [])) h.digest;
      buffer = [];
      transforms = (h.transforms + 1) % 2 ^ 64;
    }
    else record h { buffer = h.buffer ++ c ∷ [] }

unfoldable pub absorb : Sha1 → Bytes → Sha1
absorb h [] = h
absorb h (c ∷ s) = absorb (push h c) s

-- The 64-bit number, its highest byte first.
unfoldable pub length_bytes : ℕ → Bytes
length_bytes n =
    n / 2 ^ 56 % 256
    ∷ n / 2 ^ 48 % 256
    ∷ n / 2 ^ 40 % 256
    ∷ n / 2 ^ 32 % 256
    ∷ n / 2 ^ 24 % 256
    ∷ n / 2 ^ 16 % 256
    ∷ n / 2 ^ 8 % 256
    ∷ n % 256
    ∷ []

-- The message, a one bit, the fewest zeros that fill a block but for 8 bytes, and the bit count.
unfoldable pub pad : Bytes → Bytes
pad m = m ++ (0x80 ∷ (replicate ((119 - length m % 64) % 64) 0 ++ length_bytes (length m * 8)))

-- H(0).
abbrev start : Sha1
start = record {
  digest = record {
    a = 0x67452301;
    b = 0xefcdab89;
    c = 0x98badcfe;
    d = 0x10325476;
    e = 0xc3d2e1f0;
  };
  buffer = [];
  transforms = 0;
}

unfoldable pub sha1 : Bytes → Words5
sha1 m = (absorb start (pad m)).digest
