-- ===== src/Sha1/Padding.antt =====
-- src/sha1.cpp: the padding in `compute_digest`, and that of FIPS 180-4.
use beauty_cl.Prelude.{
  ℕ, zero, suc, ◌+◌, ◌-◌, ◌*◌, ◌%◌, ◌^◌, ◌≤◌, ◌<◌, ◌≡◌, inl, inr, refl, sym, ap, ◌∙◌, true, false,
  List, [], ◌∷◌, ◌++◌, append_assoc, append-nil, arith, Bytes, length, set, replicate,
  length-append, length-replicate, ltb, ◌==◌, ltb→lt, Bool-cases,
}
use mathlib.Core.Path.{ap₂}
use beauty_cl.Sha1.{
  Sha1, transform, buffer_to_block, words_from, reset, total_bits, append_bits, zero_first,
  compute_digest,
}
use beauty_cl.Sha1.Spec.{compress, push, absorb, pad, length_bytes, sha1}
use beauty_cl.Sha1.Rounds.{transform-compress, length-transform}
use beauty_cl.Sha1.Schedule.{length-set}
use beauty_cl.Sha1.Stream.{
  closed, absorb-append, absorb_block, length-buffer_to_block, push_short, push_last,
}
use beauty_cl.Sha1.Blocks.{length_words, block-length_bytes, block-append_bits, zeroed-append_bits}

-- The number of bytes, by the counter and the buffer.
abbrev pub Counts : Sha1 → ℕ → Type 0
Counts h n = ((h.transforms * 64 + length h.buffer) % 2 ^ 64 ≡ n % 2 ^ 64) × (length h.buffer < 64)

carry :
    (t l n : ℕ)
    → l ≡ 63
    → (t * 64 + l) % 2 ^ 64 ≡ n % 2 ^ 64
    → ((t + 1) % 2 ^ 64 * 64 + 0) % 2 ^ 64 ≡ (n + 1) % 2 ^ 64
carry t l n e c = omega arith

push-Counts : (h : Sha1) (x n : ℕ) → Counts h n → Counts (push h x) (n + 1)
push-Counts h x n (c, lt) = elim (Bool-cases (length h.buffer == 63)) [
  | inl e ↦
      rw (push_last h x (ground arith))
        (carry h.transforms (length h.buffer) n (ground arith) c, omega arith)
  | inr e ↦
      let room : length h.buffer < 63 = ground arith in
      rw (push_short h x room) (
        omega (arith, length-append h.buffer (x ∷ [])),
        omega (arith, length-append h.buffer (x ∷ [])),
      )
]

pub absorb-Counts : (h : Sha1) (s : Bytes) (n : ℕ) → Counts h n → Counts (absorb h s) (n + length s)
unfolding absorb
absorb-Counts h [] n c = (omega arith, c.1)
absorb-Counts h (x ∷ s) n c =
    let (d, lt) = absorb-Counts (push h x) s (n + 1) (push-Counts h x n c) in (d ∙ omega arith, lt)

-- The block that `compute_digest` fills up.
abbrev filled : Sha1 → Bytes
filled h = (h.buffer ++ 0x80 ∷ []) ++ replicate (64 - length (h.buffer ++ 0x80 ∷ [])) 0

length-append_bits : (bits : ℕ) (b : List ℕ) → length (append_bits bits b) ≡ length b
unfolding append_bits
length-append_bits bits b = length-set (set b 15 _) 14 _ ∙ length-set b 15 _

transform_digest :
    (b : List ℕ) (h : Sha1) → length b ≡ 16 → (transform b h).0.digest ≡ compress b h.digest
transform_digest b h e = ap (λ (r : Sha1). r.digest) (transform-compress b h e)

compute_digest-short :
    (h : Sha1)
    → length h.buffer < 56
    → (compute_digest h).digest
      ≡ compress (append_bits (total_bits h) (buffer_to_block (filled h))) h.digest
unfolding compute_digest
compute_digest-short h lt =
    rw fits (transform_digest _ _ (length-append_bits _ _ ∙ length-buffer_to_block _))
  where
    fits : ltb 56 (length (h.buffer ++ 0x80 ∷ [])) ≡ false
    fits = ground (arith, length-append h.buffer (0x80 ∷ []))

compute_digest-long :
    (h : Sha1)
    → 56 ≤ length h.buffer
    → length h.buffer < 64
    → (compute_digest h).digest
      ≡ compress
          (words_from 14 0 (replicate 56 0) ++ length_words (total_bits h))
          (compress (buffer_to_block (filled h)) h.digest)
unfolding compute_digest
compute_digest-long h le lt = rw over (
    transform_digest _ _ (ap length zeroed ∙ size)
    ∙ ap₂ compress zeroed
        (transform_digest (buffer_to_block (filled h)) _ (length-buffer_to_block (filled h))))
  where
    over : ltb 56 (length (h.buffer ++ 0x80 ∷ [])) ≡ true
    over = ground (arith, length-append h.buffer (0x80 ∷ []))

    zeroed :
        append_bits (total_bits h) (
          zero_first 14 (transform (buffer_to_block (filled h)) (record h { buffer = filled h })).1)
        ≡ words_from 14 0 (replicate 56 0) ++ length_words (total_bits h)
    zeroed =
        zeroed-append_bits _ (total_bits h)
          (length-transform _ _ ∙ length-buffer_to_block (filled h))

    size : length (words_from 14 0 (replicate 56 0) ++ length_words (total_bits h)) ≡ 16
    size = unfold words_from in refl

abbrev zeros : ℕ → Bytes
zeros n = replicate n 0

zeros-add : (n k : ℕ) → zeros (n + k) ≡ zeros n ++ zeros k
zeros-add zero k = ap zeros (omega arith)
zeros-add (suc n) k =
    let e : suc n + k ≡ suc (n + k) = omega arith in ap zeros e ∙ ap (λ r. 0 ∷ r) (zeros-add n k)

length-zeros : (n : ℕ) → length (zeros n) ≡ n
length-zeros n = length-replicate n 0

-- The bytes of `filled`, with the zeros in two parts.
filled-split :
    (h : Sha1) (k j : ℕ)
    → length h.buffer + k + j ≡ 63
    → filled h ≡ (h.buffer ++ 0x80 ∷ zeros k) ++ zeros j
filled-split h k j e =
    let n : 64 - length (h.buffer ++ 0x80 ∷ []) ≡ k + j =
      omega (arith, length-append h.buffer (0x80 ∷ [])) in
    ap (λ (r : ℕ). (h.buffer ++ 0x80 ∷ []) ++ zeros r) n
    ∙ ap (λ r. (h.buffer ++ 0x80 ∷ []) ++ r) (zeros-add k j)
    ∙ simp append_assoc

length-length_bytes : (n : ℕ) → length (length_bytes n) ≡ 8
unfolding length_bytes
length-length_bytes n = refl

-- Room for the length in the same block.
padded_short :
    (h : Sha1) (n k : ℕ)
    → length h.buffer + k ≡ 55
    → total_bits h ≡ n % 2 ^ 64
    → (absorb h (0x80 ∷ (zeros k ++ length_bytes n))).digest ≡ (compute_digest h).digest
padded_short h n k e b =
    ap (λ (r : Sha1). r.digest) (absorb_block h 0x80 (zeros k ++ length_bytes n) size)
    ∙ ap (λ w. compress w h.digest) same
    ∙ sym (compute_digest-short h (omega arith))
  where
    p : Bytes
    p = h.buffer ++ 0x80 ∷ zeros k

    length-p : length p ≡ 56
    length-p = omega (arith, length-append h.buffer (0x80 ∷ zeros k), length-zeros k)

    size : length h.buffer + length (0x80 ∷ (zeros k ++ length_bytes n)) ≡ 64
    size =
        omega
          (arith, length-append (zeros k) (length_bytes n), length-zeros k, length-length_bytes n)

    same :
        buffer_to_block (h.buffer ++ 0x80 ∷ (zeros k ++ length_bytes n))
        ≡ append_bits (total_bits h) (buffer_to_block (filled h))
    same =
        ap buffer_to_block (sym (append_assoc h.buffer (0x80 ∷ zeros k) (length_bytes n)))
        ∙ block-length_bytes p n length-p
        ∙ ap (λ bits. words_from 14 0 p ++ length_words bits) (sym b)
        ∙ sym (block-append_bits p (zeros 8) (total_bits h) length-p)
        ∙ ap (λ r. append_bits (total_bits h) (buffer_to_block r))
            (sym (filled-split h k 8 (omega arith)))

-- No room: the padding goes on in a block of its own.
padded_long :
    (h : Sha1) (n a : ℕ)
    → 56 ≤ length h.buffer
    → length h.buffer + a ≡ 63
    → total_bits h ≡ n % 2 ^ 64
    → (absorb h (0x80 ∷ (zeros (a + 56) ++ length_bytes n))).digest ≡ (compute_digest h).digest
padded_long h n a le e b =
    ap (λ (r : Sha1). r.digest)
      (ap (λ z. absorb h (0x80 ∷ (z ++ length_bytes n))) (zeros-add a 56)
        ∙ ap (λ z. absorb h (0x80 ∷ z)) (append_assoc (zeros a) (zeros 56) (length_bytes n))
        ∙ absorb-append h (0x80 ∷ zeros a) (zeros 56 ++ length_bytes n)
        ∙ ap (λ g. absorb g (zeros 56 ++ length_bytes n))
            (absorb_block h 0x80 (zeros a) (omega (arith, length-zeros a)))
        ∙ absorb_block (closed h (h.buffer ++ 0x80 ∷ zeros a)) 0 (zeros 55 ++ length_bytes n)
            (omega (arith, length-length_bytes n)))
    ∙ ap₂ compress
        (block-length_bytes (zeros 56) n refl
          ∙ ap (λ bits. words_from 14 0 (zeros 56) ++ length_words bits) (sym b))
        (ap (λ r. compress (buffer_to_block r) h.digest)
          (sym (append-nil _) ∙ sym (filled-split h a 0 (omega arith))))
    ∙ sym (compute_digest-long h le (omega arith))

-- The digest of a state that has absorbed `m` is the SHA-1 digest of `m`.
pub compute_digest-sha1 : (m : Bytes) → (compute_digest (absorb reset m)).digest ≡ sha1 m
unfolding sha1 pad total_bits reset
compute_digest-sha1 m = sym (ap (λ (r : Sha1). r.digest) (absorb-append reset m _) ∙ padded)
  where
    h : Sha1
    h = absorb reset m

    counted : Counts h (0 + length m)
    counted = absorb-Counts reset m 0 (omega arith, omega arith)

    k : ℕ
    k = (119 - length m % 64) % 64

    padded :
        (absorb h (0x80 ∷ (zeros k ++ length_bytes (length m * 8)))).digest
        ≡ (compute_digest h).digest
    padded = elim (Bool-cases (ltb (length h.buffer) 56)) [
      | inl s ↦
          padded_short h (length m * 8) k (omega (arith, counted, ltb→lt (length h.buffer) 56 s))
            (omega (arith, counted))
      | inr s ↦
          let a : ℕ = 63 - length h.buffer in
          let long : 56 ≤ length h.buffer = ground arith in
          let split : k ≡ a + 56 = omega (arith, counted) in
          ap (λ (r : ℕ). (absorb h (0x80 ∷ (zeros r ++ length_bytes (length m * 8)))).digest) split
          ∙ padded_long h (length m * 8) a long (omega (arith, counted)) (omega (arith, counted))
    ]
