-- ===== src/Sha1/Blocks.antt =====
-- src/sha1.cpp: the words of the last block.
use beauty_cl.Prelude.{
  ℕ, zero, suc, ◌+◌, ◌*◌, ◌/◌, ◌%◌, ◌^◌, ◌≤◌, ◌<◌, ◌≡◌, refl, ap, ◌∙◌, List, [], ◌∷◌, ◌++◌, arith,
  Bytes, length, get_or, set, drop, replicate, length-drop,
}
use mathlib.Core.Path.{ap₂}
use beauty_cl.Sha1.{buffer_to_block, words_from, word_at, word_of, append_bits, zero_first, u32}
use beauty_cl.Sha1.Spec.{length_bytes}
use beauty_cl.Sha1.Bits.{word_of-sum}

-- Words of a buffer and of a part of it.
get_or-append : (xs ys : Bytes) (i : ℕ) → i < length xs → get_or (xs ++ ys) i 0 ≡ get_or xs i 0
get_or-append [] ys i h = elim h [ ]
get_or-append (x ∷ xs) ys zero h = refl
get_or-append (x ∷ xs) ys (suc i) h = get_or-append xs ys i (omega arith)

get_or-append_right : (xs ys : Bytes) (i : ℕ) → get_or (xs ++ ys) (length xs + i) 0 ≡ get_or ys i 0
get_or-append_right [] ys i = ap (λ (r : ℕ). get_or ys r 0) (omega arith)
get_or-append_right (x ∷ xs) ys i =
    ap (λ (r : ℕ). get_or (x ∷ xs ++ ys) r 0) e ∙ get_or-append_right xs ys i
  where
    e : suc (length xs) + i ≡ suc (length xs + i)
    e = omega arith

word_at-append :
    (xs ys : Bytes) (i : ℕ) → 4 * i + 3 < length xs → word_at (xs ++ ys) i ≡ word_at xs i
unfolding word_at
word_at-append xs ys i h =
    rw
      (
        get_or-append xs ys (4 * i) (omega arith),
        get_or-append xs ys (4 * i + 1) (omega arith),
        get_or-append xs ys (4 * i + 2) (omega arith),
        get_or-append xs ys (4 * i + 3) (omega arith),
      )
      refl

words_from-append :
    (n i : ℕ) (xs ys : Bytes)
    → 4 * (i + n) ≤ length xs
    → words_from n i (xs ++ ys) ≡ words_from n i xs
unfolding words_from
words_from-append zero i xs ys h = refl
words_from-append (suc n) i xs ys h =
    rw (word_at-append xs ys i (omega arith), words_from-append n (i + 1) xs ys (omega arith)) refl

words_from-split :
    (n k i : ℕ) (b : Bytes) → words_from (n + k) i b ≡ words_from n i b ++ words_from k (i + n) b
unfolding words_from
words_from-split zero k i b =
    let e : 0 + k ≡ k = omega arith in let f : i + 0 ≡ i = omega arith in rw (e, f) refl
words_from-split (suc n) k i b =
    let e : suc n + k ≡ suc (n + k) = omega arith in
    let f : i + 1 + n ≡ i + suc n = omega arith in
    ap (λ (r : ℕ). words_from r i b) e
    ∙ ap (λ r. word_at b i ∷ r) (words_from-split n k (i + 1) b)
    ∙ ap (λ (r : ℕ). (word_at b i ∷ words_from n (i + 1) b) ++ words_from k r b) f

get_or_behind : (p q : Bytes) (i : ℕ) → length p ≡ 56 → get_or (p ++ q) (56 + i) 0 ≡ get_or q i 0
get_or_behind p q i h =
    let e : 56 + i ≡ length p + i = omega arith in
    ap (λ (r : ℕ). get_or (p ++ q) r 0) e ∙ get_or-append_right p q i

block_behind :
    (p q : Bytes)
    → length p ≡ 56
    → buffer_to_block (p ++ q) ≡ words_from 14 0 p ++ word_at q 0 ∷ word_at q 1 ∷ []
unfolding buffer_to_block words_from word_at
block_behind p q h =
    words_from-split 14 2 0 (p ++ q)
    ∙ ap (λ r. r ++ word_at (p ++ q) 14 ∷ word_at (p ++ q) 15 ∷ [])
        (words_from-append 14 0 p q (omega arith))
    ∙ ap₂ (λ (x y : ℕ). words_from 14 0 p ++ x ∷ y ∷ []) word14 word15
  where
    word14 : word_at (p ++ q) 14 ≡ word_at q 0
    word14 =
        rw (
          get_or_behind p q 0 h,
          get_or_behind p q 1 h,
          get_or_behind p q 2 h,
          get_or_behind p q 3 h,
        )

    word15 : word_at (p ++ q) 15 ≡ word_at q 1
    word15 =
        rw (
          get_or_behind p q 4 h,
          get_or_behind p q 5 h,
          get_or_behind p q 6 h,
          get_or_behind p q 7 h,
        )

length-words_from : (n i : ℕ) (b : Bytes) → length (words_from n i b) ≡ n
unfolding words_from
length-words_from zero i b = refl
length-words_from (suc n) i b = ap suc (length-words_from n (i + 1) b)

set-behind : (xs ys : List ℕ) (i v : ℕ) → set (xs ++ ys) (length xs + i) v ≡ xs ++ set ys i v
set-behind [] ys i v = let e : 0 + i ≡ i = omega arith in rw e refl
set-behind (x ∷ xs) ys i v =
    let e : suc (length xs) + i ≡ suc (length xs + i) = omega arith in
    rw e (ap (λ r. x ∷ r) (set-behind xs ys i v))

-- The two words of the length.
abbrev pub length_words : ℕ → List ℕ
length_words bits = bits / 2 ^ 32 % u32 ∷ bits % u32 ∷ []

append_bits-behind :
    (xs : List ℕ) (x y bits : ℕ)
    → length xs ≡ 14
    → append_bits bits (xs ++ x ∷ y ∷ []) ≡ xs ++ length_words bits
unfolding append_bits
append_bits-behind xs x y bits h =
    let e : ◌≡◌ {A = ℕ} 15 (length xs + 1) = omega arith in
    let f : ◌≡◌ {A = ℕ} 14 (length xs + 0) = omega arith in
    ap (λ (r : ℕ). set (set (xs ++ x ∷ y ∷ []) r (bits % u32)) 14 (bits / 2 ^ 32 % u32)) e
    ∙ ap (λ r. set r 14 (bits / 2 ^ 32 % u32)) (set-behind xs (x ∷ y ∷ []) 1 (bits % u32))
    ∙ ap (λ (r : ℕ). set (xs ++ x ∷ bits % u32 ∷ []) r (bits / 2 ^ 32 % u32)) f
    ∙ set-behind xs (x ∷ bits % u32 ∷ []) 0 (bits / 2 ^ 32 % u32)

pub block-length_bytes :
    (p : Bytes) (n : ℕ)
    → length p ≡ 56
    → buffer_to_block (p ++ length_bytes n) ≡ words_from 14 0 p ++ length_words (n % 2 ^ 64)
block-length_bytes p n h =
    block_behind p (length_bytes n) h ∙ ap₂ (λ (x y : ℕ). words_from 14 0 p ++ x ∷ y ∷ []) high low
  where
    high : word_at (length_bytes n) 0 ≡ n % 2 ^ 64 / 2 ^ 32 % u32
    high = unfold word_at length_bytes in word_of-sum _ _ _ _ ∙ omega arith

    low : word_at (length_bytes n) 1 ≡ n % 2 ^ 64 % u32
    low = unfold word_at length_bytes in word_of-sum _ _ _ _ ∙ omega arith

pub block-append_bits :
    (p q : Bytes) (bits : ℕ)
    → length p ≡ 56
    → append_bits bits (buffer_to_block (p ++ q)) ≡ words_from 14 0 p ++ length_words bits
block-append_bits p q bits h =
    ap (append_bits bits) (block_behind p q h)
    ∙ append_bits-behind (words_from 14 0 p) _ _ bits (length-words_from 14 0 p)

zero_first-drop : (n : ℕ) (l : List ℕ) → n ≤ length l → zero_first n l ≡ replicate n 0 ++ drop n l
unfolding zero_first
zero_first-drop zero l h = refl
zero_first-drop (suc n) [] h = elim h [ ]
zero_first-drop (suc n) (x ∷ l) h = ap (λ r. 0 ∷ r) (zero_first-drop n l (omega arith))

two_of : (l : List ℕ) → length l ≡ 2 → (x : ℕ) × (y : ℕ) × (l ≡ x ∷ y ∷ [])
two_of [] h = absurd (omega arith)
two_of (x ∷ []) h = absurd (omega arith)
two_of (x ∷ y ∷ []) h = (x, y, refl)
two_of (x ∷ y ∷ z ∷ l) h = absurd (omega arith)

last_two :
    (l : List ℕ)
    → length l ≡ 16
    → (x : ℕ) × (y : ℕ) × (zero_first 14 l ≡ words_from 14 0 (replicate 56 0) ++ x ∷ y ∷ [])
unfolding words_from word_at word_of
last_two l h =
    let (x, y, e) = two_of (drop 14 l) (omega (arith, length-drop 14 l)) in
    (x, y, zero_first-drop 14 l (omega arith) ∙ ap (λ r. replicate 14 0 ++ r) e)

pub zeroed-append_bits :
    (l : List ℕ) (bits : ℕ)
    → length l ≡ 16
    → append_bits bits (zero_first 14 l) ≡ words_from 14 0 (replicate 56 0) ++ length_words bits
zeroed-append_bits l bits h =
    let (x, y, e) = last_two l h in
    ap (append_bits bits) e
    ∙ append_bits-behind (words_from 14 0 (replicate 56 0)) x y bits (length-words_from 14 0 _)
