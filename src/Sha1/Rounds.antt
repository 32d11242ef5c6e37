-- ===== src/Sha1/Rounds.antt =====
-- src/sha1.cpp: the eighty lines of `transform`, and the steps of the compression function.
use beauty_cl.Prelude.{
  ℕ, zero, suc, ◌+◌, ◌-◌, ◌*◌, ◌%◌, ◌^◌, ◌≤◌, ◌<◌, ◌≡◌, refl, sym, ap, ◌∙◌, List, arith, length,
}
use beauty_cl.Sha1.{Words5, Sha1, at, blk, r0, r_blk, round, five, fives, transform, add_words}
use beauty_cl.Sha1.Spec.{schedule, step, steps, function_at, constant_at, compress}
use beauty_cl.Sha1.Schedule.{Window, Window-start, blk-Window, at-schedule, length-set}

-- One line, with the variables renamed for the next line.
line : ℕ → Words5 × List ℕ → Words5 × List ℕ
line i (v, block) =
    let (z, w, block') = round i v.a v.b v.c v.d v.e i block in
    (record { a = z; b = v.a; c = w; d = v.c; e = v.d }, block')

lines : ℕ → ℕ → Words5 × List ℕ → Words5 × List ℕ
lines zero i st = st
lines (suc n) i st = lines n (i + 1) (line i st)

lines_zero : (i : ℕ) (st : Words5 × List ℕ) → lines 0 i st ≡ st
unfolding lines
lines_zero i st = refl

lines_suc : (n i : ℕ) (st : Words5 × List ℕ) → lines (suc n) i st ≡ lines n (i + 1) (line i st)
unfolding lines
lines_suc n i st = refl

five-lines : (i : ℕ) (st : Words5 × List ℕ) → five i st ≡ lines 5 i st
unfolding five lines line
five-lines i (v, block) =
    let e2 : i + 1 + 1 ≡ i + 2 = omega arith in
    let e3 : i + 2 + 1 ≡ i + 3 = omega arith in
    let e4 : i + 3 + 1 ≡ i + 4 = omega arith in rw (e2, e3, e4)

lines-add : (n k i : ℕ) (st : Words5 × List ℕ) → lines (n + k) i st ≡ lines k (i + n) (lines n i st)
lines-add zero k i st =
    ap (λ (r : ℕ). lines r i st) (omega arith)
    ∙ ap (λ (r : ℕ). lines k r st) (omega arith)
    ∙ ap (lines k (i + 0)) (sym (lines_zero i st))
lines-add (suc n) k i st =
    ap (λ (r : ℕ). lines r i st) (omega arith)
    ∙ lines_suc (n + k) i st
    ∙ lines-add n k (i + 1) (line i st)
    ∙ ap (λ (r : ℕ). lines k r (lines n (i + 1) (line i st))) (omega arith)
    ∙ ap (lines k (i + suc n)) (sym (lines_suc n i st))

fives-lines : (n i : ℕ) (st : Words5 × List ℕ) → fives n i st ≡ lines (5 * n) i st
unfolding fives
fives-lines zero i st = unfold lines in refl
fives-lines (suc n) i st =
    fives-lines n (i + 5) (five i st)
    ∙ ap (lines (5 * n) (i + 5)) (five-lines i st)
    ∙ sym (lines-add 5 (5 * n) i st)
    ∙ ap (λ (r : ℕ). lines r i st) (omega arith)

-- The first sixteen lines take the words of the block as they are.
line_early : (i : ℕ) (v : Words5) (m : List ℕ) → i < 16 → line i (v, m) ≡ (step i (at m i) v, m)
unfolding line round r0 step function_at constant_at
line_early i v m h = ground arith

-- A later line `n + 16` takes the next word of the schedule.
line_late :
    (n : ℕ) (v : Words5) (m block : List ℕ)
    → n < 64
    → length m ≡ 16
    → Window m n block
    → line (n + 16) (v, block)
      ≡ (step (n + 16) (at (schedule (suc n) m) (n + 16)) v, blk block (n + 16))
unfolding line round r_blk step function_at constant_at
line_late n v m block lt h w = ground (arith, newest)
  where
    newest : at (blk block (n + 16)) ((n + 16) % 16) ≡ at (schedule (suc n) m) (n + 16)
    newest =
        ap (at (blk block (n + 16))) (omega arith)
        ∙ (blk-Window m block n h w).word 15 (omega arith)
        ∙ ap (at (schedule (suc n) m)) (omega arith)

steps-suc :
    (n t : ℕ) (w : List ℕ) (v : Words5)
    → steps (suc n) t w v ≡ steps n (t + 1) w (step t (at w t) v)
unfolding steps
steps-suc n t w v = refl

steps-add :
    (n k t : ℕ) (w : List ℕ) (v : Words5) → steps (n + k) t w v ≡ steps k (t + n) w (steps n t w v)
unfolding steps
steps-add zero k t w v = cc (zero_k, zero_t)
  where
    zero_k : 0 + k ≡ k
    zero_k = omega arith

    zero_t : t + 0 ≡ t
    zero_t = omega arith
steps-add (suc n) k t w v =
    let e : suc n + k ≡ suc (n + k) = omega arith in
    ap (λ (r : ℕ). steps r t w v) e
    ∙ steps-suc (n + k) t w v
    ∙ steps-add n k (t + 1) w (step t (at w t) v)
    ∙ ap (λ (r : ℕ). steps k r w (steps n (t + 1) w (step t (at w t) v))) (omega arith)

early_word : (i : ℕ) (m : List ℕ) → i < length m → at m i ≡ at (schedule 64 m) i
unfolding schedule
early_word i m lt = sym (at-schedule 64 0 i m (omega arith))

late_word :
    (n : ℕ) (m : List ℕ)
    → n < 64
    → length m ≡ 16
    → at (schedule (suc n) m) (n + 16) ≡ at (schedule 64 m) (n + 16)
late_word n m lt h =
    sym (at-schedule (63 - n) (suc n) (n + 16) m (omega arith))
    ∙ ap (λ (r : ℕ). at (schedule r m) (n + 16)) (omega arith)

module _ (m : List ℕ) (h : length m ≡ 16) where
  lines_early :
      (k i : ℕ) (v : Words5) → i + k ≤ 16 → lines k i (v, m) ≡ (steps k i (schedule 64 m) v, m)
  lines_early zero i v le = lines_zero i (v, m) ∙ (unfold steps in refl)
  lines_early (suc k) i v le =
      lines_suc k i (v, m)
      ∙ ap (lines k (i + 1)) (line_early i v m (omega arith))
      ∙ lines_early k (i + 1) _ (omega arith)
      ∙ ap (λ (x : ℕ). (steps k (i + 1) (schedule 64 m) (step i x v), m))
          (early_word i m (omega arith))
      ∙ ap (λ r. (r, m)) (sym (steps-suc k i (schedule 64 m) v))

  lines_late :
      (k n : ℕ) (v : Words5) (block : List ℕ)
      → n + k ≤ 64
      → Window m n block
      → (lines k (n + 16) (v, block)).0 ≡ steps k (n + 16) (schedule 64 m) v
  lines_late zero n v block le w =
      ap (λ (r : Words5 × List ℕ). r.0) (lines_zero (n + 16) (v, block)) ∙ (unfold steps in refl)
  lines_late (suc k) n v block le w =
      ap (λ (r : Words5 × List ℕ). r.0)
        (lines_suc k (n + 16) (v, block)
          ∙ ap (lines k (n + 16 + 1)) (line_late n v m block (omega arith) h w)
          ∙ ap
              (λ (r : ℕ).
                lines k r (step (n + 16) (at (schedule (suc n) m) (n + 16)) v, blk block (n + 16)))
              (omega arith))
      ∙ lines_late k (suc n) _ (blk block (n + 16)) (omega arith) (blk-Window m block n h w)
      ∙ ap
          (λ (r : ℕ).
            steps k r (schedule 64 m) (step (n + 16) (at (schedule (suc n) m) (n + 16)) v))
          (omega arith)
      ∙ ap (λ (x : ℕ). steps k (n + 16 + 1) (schedule 64 m) (step (n + 16) x v))
          (late_word n m (omega arith) h)
      ∙ sym (steps-suc k (n + 16) (schedule 64 m) v)

-- A block of 16 words is absorbed as the compression function says, and counted.
pub transform-compress :
    (m : List ℕ) (s : Sha1)
    → length m ≡ 16
    → (transform m s).0
      ≡ record s { digest = compress m s.digest; transforms = (s.transforms + 1) % 2 ^ 64 }
unfolding transform compress
transform-compress m s h =
    ap (λ v. record s { digest = add_words s.digest v; transforms = (s.transforms + 1) % 2 ^ 64 })
      vars
  where
    vars : (fives 16 0 (s.digest, m)).0 ≡ steps 80 0 (schedule 64 m) s.digest
    vars =
        ap (λ (r : Words5 × List ℕ). r.0)
          (fives-lines 16 0 (s.digest, m) ∙ lines-add 16 64 0 (s.digest, m))
        ∙ ap (λ st. (lines 64 16 st).0) (lines_early m h 16 0 s.digest (omega arith))
        ∙ lines_late m h 64 0 (steps 16 0 (schedule 64 m) s.digest) m (omega arith)
            (Window-start m h)
        ∙ sym (steps-add 16 64 0 (schedule 64 m) s.digest)

length-blk : (b : List ℕ) (i : ℕ) → length (blk b i) ≡ length b
unfolding blk
length-blk b i = length-set b (i % 16) _

length-line : (i : ℕ) (st : Words5 × List ℕ) → length (line i st).1 ≡ length st.1
unfolding line round r0 r_blk
length-line i (v, b) = ground (arith, length-blk b i)

length-lines : (n i : ℕ) (st : Words5 × List ℕ) → length (lines n i st).1 ≡ length st.1
unfolding lines
length-lines zero i st = refl
length-lines (suc n) i st = length-lines n (i + 1) (line i st) ∙ length-line i st

-- The block that `transform` leaves behind has the words of the schedule, and its old length.
pub length-transform : (m : List ℕ) (s : Sha1) → length (transform m s).1 ≡ length m
unfolding transform
length-transform m s =
    ap (λ (r : Words5 × List ℕ). length r.1) (fives-lines 16 0 (s.digest, m))
    ∙ length-lines 80 0 (s.digest, m)
