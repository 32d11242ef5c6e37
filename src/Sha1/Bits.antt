-- ===== src/Sha1/Bits.antt =====
-- src/sha1.cpp: the bit operations on words, from their lowest digit.
use Prim.Native.Nat.{
  bit_and, bit_or, bit_xor, digits, bitwise, min, max, differ, bit_and-bitwise, bit_or-bitwise,
  bit_xor-bitwise,
}
use native.Mathlib.Nat.{pow-suc}
use beauty_cl.Prelude.{
  ℕ, zero, suc, ◌+◌, ◌-◌, ◌*◌, ◌/◌, ◌%◌, ◌^◌, ◌≤◌, ◌<◌, ◌≡◌, refl, sym, ap, ◌∙◌, arith,
}
use beauty_cl.Sha1.{ch_word, maj_word, word_of}

-- Fuel beyond the first number changes nothing.
digits_enough :
    (z : ℕ → ℕ) (f : ℕ → ℕ → ℕ) (n m a b : ℕ) → a ≤ n → a ≤ m → digits z f n a b ≡ digits z f m a b
digits_enough z f zero zero a b h k = refl
digits_enough z f (suc n) (suc m) (suc a) b h k =
    ap (λ (r : ℕ). r * 2 + f (suc a % 2) (b % 2))
      (digits_enough z f n m (suc a / 2) (b / 2) (omega arith) (omega arith))
digits_enough z f (suc n) (suc m) zero b h k = refl
digits_enough z f zero (suc m) zero b h k = refl
digits_enough z f (suc n) zero zero b h k = refl
digits_enough z f zero (suc m) (suc a) b h k = elim h [ ]
digits_enough z f (suc n) zero (suc a) b h k = elim k [ ]

lowest :
    (z : ℕ → ℕ) (f : ℕ → ℕ → ℕ) (a b : ℕ)
    → bitwise z f (suc a) b ≡ bitwise z f (suc a / 2) (b / 2) * 2 + f (suc a % 2) (b % 2)
lowest z f a b =
    ap (λ (r : ℕ). r * 2 + f (suc a % 2) (b % 2))
      (digits_enough z f a (suc a / 2) (suc a / 2) (b / 2) (omega arith) (omega arith))

and_step : (a b : ℕ) → bit_and a b ≡ bit_and (a / 2) (b / 2) * 2 + min (a % 2) (b % 2)
and_step zero b = simp bit_and-bitwise (omega arith)
and_step (suc a) b = simp bit_and-bitwise (lowest (λ _. 0) min a b)

or_step : (a b : ℕ) → bit_or a b ≡ bit_or (a / 2) (b / 2) * 2 + max (a % 2) (b % 2)
or_step zero b = simp bit_or-bitwise (omega arith)
or_step (suc a) b = simp bit_or-bitwise (lowest (λ y. y) max a b)

differ_digits : (x y : ℕ) → x < 2 → y < 2 → differ x y ≡ (x + y) % 2
differ_digits zero y h k = omega arith
differ_digits (suc zero) zero h k = refl
differ_digits (suc zero) (suc zero) h k = refl
differ_digits (suc zero) (suc (suc y)) h k = absurd (omega arith)
differ_digits (suc (suc x)) y h k = absurd (omega arith)

xor_step : (a b : ℕ) → bit_xor a b ≡ bit_xor (a / 2) (b / 2) * 2 + (a % 2 + b % 2) % 2
xor_step zero b = simp bit_xor-bitwise (omega arith)
xor_step (suc a) b =
    simp bit_xor-bitwise (lowest (λ y. y) differ a b)
    ∙ ap (λ (r : ℕ). bit_xor (suc a / 2) (b / 2) * 2 + r)
        (differ_digits (suc a % 2) (b % 2) (omega arith) (omega arith))

and_half : (a b : ℕ) → bit_and a b / 2 ≡ bit_and (a / 2) (b / 2)
and_half a b = omega (arith, and_step a b)

and_low : (a b : ℕ) → bit_and a b % 2 ≡ min (a % 2) (b % 2)
and_low a b = omega (arith, and_step a b)

or_half : (a b : ℕ) → bit_or a b / 2 ≡ bit_or (a / 2) (b / 2)
or_half a b = omega (arith, or_step a b)

or_low : (a b : ℕ) → bit_or a b % 2 ≡ max (a % 2) (b % 2)
or_low a b = omega (arith, or_step a b)

xor_half : (a b : ℕ) → bit_xor a b / 2 ≡ bit_xor (a / 2) (b / 2)
xor_half a b = omega (arith, xor_step a b)

xor_low : (a b : ℕ) → bit_xor a b % 2 ≡ (a % 2 + b % 2) % 2
xor_low a b = omega (arith, xor_step a b)

eq_of_halves : (a b : ℕ) → a / 2 ≡ b / 2 → a % 2 ≡ b % 2 → a ≡ b
eq_of_halves a b h k = omega arith

zero-bit_or : (b : ℕ) → bit_or 0 b ≡ b
zero-bit_or b = simp bit_or-bitwise refl

pow_double : (q k : ℕ) → q * 2 ^ suc k ≡ 2 * (q * 2 ^ k)
pow_double q k = omega (arith, ap (λ (t : ℕ). q * t) (pow-suc 2 k))

or_disjoint : (k r q : ℕ) → r < 2 ^ k → bit_or r (q * 2 ^ k) ≡ r + q * 2 ^ k
or_disjoint zero r q h = let e : r ≡ 0 = omega arith in rw e (zero-bit_or (q * 1) ∙ omega arith)
or_disjoint (suc k) r q h =
    let e : q * 2 ^ suc k / 2 ≡ q * 2 ^ k = omega (arith, pow_double q k) in
    or_step r (q * 2 ^ suc k)
    ∙ ap (λ (t : ℕ). bit_or (r / 2) t * 2 + max (r % 2) (q * 2 ^ suc k % 2)) e
    ∙ omega
        (arith, pow_double q k, pow-suc 2 k, or_disjoint k (r / 2) q (omega (arith, pow-suc 2 k)))

-- The word of four bytes as a sum.
pub word_of-sum :
    (p q r s : ℕ)
    → word_of p q r s ≡ p % 256 * 2 ^ 24 + q % 256 * 2 ^ 16 + r % 256 * 2 ^ 8 + s % 256
unfolding word_of
word_of-sum p q r s = rw (or_disjoint 8 (s % 256) (r % 256) (omega arith)) (
    rw (or_disjoint 16 (s % 256 + r % 256 * 2 ^ 8) (q % 256) (omega arith)) (
      rw (or_disjoint 24 (s % 256 + r % 256 * 2 ^ 8 + q % 256 * 2 ^ 16) (p % 256) (omega arith))
        (omega arith)))

-- Ch of FIPS 180-4, with the complement of `n` bits: (x and y) xor (not x and z).
abbrev pub choice : ℕ → ℕ → ℕ → ℕ → ℕ
choice n x y z = bit_xor (bit_and x y) (bit_and (2 ^ n - 1 - x) z)

-- Maj of FIPS 180-4: (x and y) xor (x and z) xor (y and z).
abbrev pub majority : ℕ → ℕ → ℕ → ℕ
majority x y z = bit_xor (bit_xor (bit_and x y) (bit_and x z)) (bit_and y z)

ch_word_half : (w x y : ℕ) → ch_word w x y / 2 ≡ ch_word (w / 2) (x / 2) (y / 2)
unfolding ch_word
ch_word_half w x y =
    rw (xor_half (bit_and w (bit_xor x y)) y, and_half w (bit_xor x y), xor_half x y)

ch_word_low : (w x y : ℕ) → ch_word w x y % 2 ≡ (min (w % 2) ((x % 2 + y % 2) % 2) + y % 2) % 2
unfolding ch_word
ch_word_low w x y = rw (xor_low (bit_and w (bit_xor x y)) y, and_low w (bit_xor x y), xor_low x y)

choice_half :
    (n x y z : ℕ) → x < 2 ^ suc n → choice (suc n) x y z / 2 ≡ choice n (x / 2) (y / 2) (z / 2)
choice_half n x y z h =
    rw
      (
        xor_half (bit_and x y) (bit_and (2 ^ suc n - 1 - x) z),
        and_half x y,
        and_half (2 ^ suc n - 1 - x) z,
      )
      (ap (λ (t : ℕ). bit_xor (bit_and (x / 2) (y / 2)) (bit_and t (z / 2)))
        (omega (arith, pow-suc 2 n)))

choice_low :
    (n x y z : ℕ)
    → x < 2 ^ suc n
    → choice (suc n) x y z % 2 ≡ (min (x % 2) (y % 2) + min (1 - x % 2) (z % 2)) % 2
choice_low n x y z h =
    rw
      (
        xor_low (bit_and x y) (bit_and (2 ^ suc n - 1 - x) z),
        and_low x y,
        and_low (2 ^ suc n - 1 - x) z,
      )
      (ap (λ (t : ℕ). (min (x % 2) (y % 2) + min t (z % 2)) % 2) (omega (arith, pow-suc 2 n)))

-- `((w&(x^y))^y)` is Ch, at every width.
pub ch_word-choice :
    (n w x y : ℕ) → w < 2 ^ n → x < 2 ^ n → y < 2 ^ n → ch_word w x y ≡ choice n w x y
ch_word-choice zero w x y hw hx hy =
    let e : w ≡ 0 = omega arith in
    let f : x ≡ 0 = omega arith in
    let g : y ≡ 0 = omega arith in rw (e, f, g) (unfold ch_word in refl)
ch_word-choice (suc n) w x y hw hx hy =
    eq_of_halves (ch_word w x y) (choice (suc n) w x y)
      (ch_word_half w x y
        ∙ ch_word-choice n (w / 2) (x / 2) (y / 2) (omega (arith, pow-suc 2 n))
            (omega (arith, pow-suc 2 n)) (omega (arith, pow-suc 2 n))
        ∙ sym (choice_half n w x y hw))
      (omega (arith, ch_word_low w x y, choice_low n w x y hw))

maj_word_half : (w x y : ℕ) → maj_word w x y / 2 ≡ maj_word (w / 2) (x / 2) (y / 2)
unfolding maj_word
maj_word_half w x y = rw (
  or_half (bit_and (bit_or w x) y) (bit_and w x),
  and_half (bit_or w x) y,
  or_half w x,
  and_half w x,
)

maj_word_low :
    (w x y : ℕ) → maj_word w x y % 2 ≡ max (min (max (w % 2) (x % 2)) (y % 2)) (min (w % 2) (x % 2))
unfolding maj_word
maj_word_low w x y =
    rw (
      or_low (bit_and (bit_or w x) y) (bit_and w x),
      and_low (bit_or w x) y,
      or_low w x,
      and_low w x,
    )

majority_half : (x y z : ℕ) → majority x y z / 2 ≡ majority (x / 2) (y / 2) (z / 2)
majority_half x y z = rw (
  xor_half (bit_xor (bit_and x y) (bit_and x z)) (bit_and y z),
  xor_half (bit_and x y) (bit_and x z),
  and_half x y,
  and_half x z,
  and_half y z,
)

majority_low :
    (x y z : ℕ)
    → majority x y z % 2
      ≡ ((min (x % 2) (y % 2) + min (x % 2) (z % 2)) % 2 + min (y % 2) (z % 2)) % 2
majority_low x y z = rw (
  xor_low (bit_xor (bit_and x y) (bit_and x z)) (bit_and y z),
  xor_low (bit_and x y) (bit_and x z),
  and_low x y,
  and_low x z,
  and_low y z,
)

-- `(((w|x)&y)|(w&x))` is Maj, at every width.
pub maj_word-majority :
    (n w x y : ℕ) → w < 2 ^ n → x < 2 ^ n → y < 2 ^ n → maj_word w x y ≡ majority w x y
maj_word-majority zero w x y hw hx hy =
    let e : w ≡ 0 = omega arith in
    let f : x ≡ 0 = omega arith in
    let g : y ≡ 0 = omega arith in rw (e, f, g) (unfold maj_word in refl)
maj_word-majority (suc n) w x y hw hx hy =
    eq_of_halves (maj_word w x y) (majority w x y)
      (maj_word_half w x y
        ∙ maj_word-majority n (w / 2) (x / 2) (y / 2) (omega (arith, pow-suc 2 n))
            (omega (arith, pow-suc 2 n)) (omega (arith, pow-suc 2 n))
        ∙ sym (majority_half w x y))
      (omega (arith, maj_word_low w x y, majority_low w x y))
