-- ===== src/Sha1/Schedule.antt =====
-- src/sha1.cpp: the sixteen words that `blk` overwrites in turn, and the message schedule.
use Prim.Native.Nat.{bit_xor}
use beauty_cl.Prelude.{
  ℕ, zero, suc, ◌+◌, ◌%◌, ◌<◌, ◌≡◌, ◌≢◌, inl, inr, refl, sym, ap, ◌∙◌, List, [], ◌∷◌, ◌++◌, arith,
  length, set, length-append, ◌==◌, ==_iff, Bool-cases,
}
use beauty_cl.Sha1.{at, blk, blk_value, rol}
use beauty_cl.Sha1.Spec.{schedule}

length-schedule : (n : ℕ) (m : List ℕ) → length (schedule n m) ≡ length m + n
unfolding schedule
length-schedule zero m = omega arith
length-schedule (suc n) m =
    omega (arith, length-schedule n m, length-append (schedule n m) (_ ∷ []))

at-append_left : (xs ys : List ℕ) (i : ℕ) → i < length xs → at (xs ++ ys) i ≡ at xs i
at-append_left [] ys i h = elim h [ ]
at-append_left (x ∷ xs) ys zero h = refl
at-append_left (x ∷ xs) ys (suc i) h = at-append_left xs ys i (omega arith)

at-append_right : (xs : List ℕ) (x i : ℕ) → i ≡ length xs → at (xs ++ x ∷ []) i ≡ x
at-append_right [] x zero h = refl
at-append_right [] x (suc i) h = absurd (omega arith)
at-append_right (y ∷ xs) x zero h = absurd (omega arith)
at-append_right (y ∷ xs) x (suc i) h = at-append_right xs x i (omega arith)

at-set_self : (xs : List ℕ) (i v : ℕ) → i < length xs → at (set xs i v) i ≡ v
at-set_self [] i v h = elim h [ ]
at-set_self (x ∷ xs) zero v h = refl
at-set_self (x ∷ xs) (suc i) v h = at-set_self xs i v (omega arith)

at-set_ne : (xs : List ℕ) (i j v : ℕ) → i ≢ j → at (set xs i v) j ≡ at xs j
at-set_ne [] i j v h = refl
at-set_ne (x ∷ xs) zero zero v h = absurd (h refl)
at-set_ne (x ∷ xs) zero (suc j) v h = refl
at-set_ne (x ∷ xs) (suc i) zero v h = refl
at-set_ne (x ∷ xs) (suc i) (suc j) v h = at-set_ne xs i j v (λ e. h (ap suc e))

pub length-set : (xs : List ℕ) (i v : ℕ) → length (set xs i v) ≡ length xs
length-set [] i v = refl
length-set (x ∷ xs) zero v = refl
length-set (x ∷ xs) (suc i) v = ap suc (length-set xs i v)

schedule-suc :
    (n j : ℕ) (m : List ℕ) → j < length m + n → at (schedule (suc n) m) j ≡ at (schedule n m) j
unfolding schedule
schedule-suc n j m h = at-append_left _ _ j (omega (arith, length-schedule n m))

schedule_next :
    (n : ℕ) (m : List ℕ)
    → length m ≡ 16
    → let w = schedule n m in
      at (schedule (suc n) m) (n + 16)
      ≡ rol (bit_xor (bit_xor (bit_xor (at w (n + 13)) (at w (n + 8))) (at w (n + 2))) (at w n)) 1
unfolding schedule
schedule_next n m h = at-append_right (schedule n m) _ (n + 16) (omega (arith, length-schedule n m))

-- A word of the schedule never changes as the schedule grows.
pub at-schedule :
    (k n j : ℕ) (m : List ℕ) → j < length m + n → at (schedule (k + n) m) j ≡ at (schedule n m) j
at-schedule zero n j m h = ap (λ (r : ℕ). at (schedule r m) j) (omega arith)
at-schedule (suc k) n j m h =
    ap (λ (r : ℕ). at (schedule r m) j) (omega arith)
    ∙ schedule-suc (k + n) j m (omega arith)
    ∙ at-schedule k n j m h

-- Before line `n + 16` the block holds W(n) to W(n + 15), each at its index modulo 16.
pub record Window (m : List ℕ) (n : ℕ) (block : List ℕ) : Type 0 where
  pub size : length block ≡ 16
  pub word : (j : ℕ) → j < 16 → at block ((n + j) % 16) ≡ at (schedule n m) (n + j)

pub Window-start : (m : List ℕ) → length m ≡ 16 → Window m 0 m
unfolding schedule
Window-start m h = record { size = h; word = λ j lt. ap (at m) (omega arith) }

-- What `blk` computes is the next word.
pub blk_value-schedule :
    (m block : List ℕ) (n : ℕ)
    → length m ≡ 16
    → Window m n block
    → blk_value block (n + 16) ≡ at (schedule (suc n) m) (n + 16)
unfolding blk_value
blk_value-schedule m block n h w =
    rw
      (
        schedule_next n m h,
        word_at 13 (omega arith),
        word_at 8 (omega arith),
        word_at 2 (omega arith),
        word_at0,
      )
      refl
  where
    word_at : (j : ℕ) → j < 16 → at block ((n + 16 + j) % 16) ≡ at (schedule n m) (n + j)
    word_at j lt = ap (at block) (omega arith) ∙ w.word j lt

    word_at0 : at block ((n + 16) % 16) ≡ at (schedule n m) n
    word_at0 =
        ap (at block) (omega arith) ∙ w.word 0 (omega arith) ∙ ap (at (schedule n m)) (omega arith)

pub blk-Window :
    (m block : List ℕ) (n : ℕ)
    → length m ≡ 16
    → Window m n block
    → Window m (suc n) (blk block (n + 16))
unfolding blk
blk-Window m block n h w = record {
  size = length-set block _ _ ∙ w.size;
  word = λ j lt. elim (Bool-cases (j == 15)) [
    | inl e ↦ newest j ((==_iff j 15).0 e)
    | inr e ↦ older j (ground arith)
  ];
}
  where
    newest :
        (j : ℕ)
        → j ≡ 15
        → at (blk block (n + 16)) ((suc n + j) % 16) ≡ at (schedule (suc n) m) (suc n + j)
    newest j e =
        ap (at (blk block (n + 16))) (omega arith)
        ∙ at-set_self block ((n + 16) % 16) _ (omega (arith, w.size))
        ∙ blk_value-schedule m block n h w
        ∙ ap (at (schedule (suc n) m)) (omega arith)

    older :
        (j : ℕ)
        → j < 15
        → at (blk block (n + 16)) ((suc n + j) % 16) ≡ at (schedule (suc n) m) (suc n + j)
    older j lt =
        at-set_ne block ((n + 16) % 16) ((suc n + j) % 16) _ (omega arith)
        ∙ ap (at block) (omega arith)
        ∙ w.word (j + 1) (omega arith)
        ∙ ap (at (schedule n m)) (omega arith)
        ∙ sym (schedule-suc n (suc n + j) m (omega arith))
