-- ===== src/Sha1/Stream.antt =====
-- src/sha1.cpp: `update` of any text at any state of the buffer.
use beauty_cl.Prelude.{
  ℕ, zero, suc, ◌+◌, ◌-◌, ◌%◌, ◌^◌, ◌≤◌, ◌<◌, ◌≡◌, inl, inr, refl, sym, ap, ◌∙◌, true, false, [],
  ◌∷◌, ◌++◌, append_assoc, append-nil, arith, Bytes, length, take, drop, length-append,
  take-append-drop, length-take, length-drop, leb, leb→le, Bool-cases,
}
use beauty_cl.Sha1.{Sha1, transform, buffer_to_block, words_from, update_loop, update, read}
use beauty_cl.Sha1.Spec.{compress, push, absorb}
use beauty_cl.Sha1.Rounds.{transform-compress}

pub absorb-append : (h : Sha1) (xs ys : Bytes) → absorb h (xs ++ ys) ≡ absorb (absorb h xs) ys
unfolding absorb
absorb-append h [] ys = refl
absorb-append h (x ∷ xs) ys = absorb-append (push h x) xs ys

-- The state after a full block.
abbrev pub closed : Sha1 → Bytes → Sha1
closed h block = record {
  digest = compress (buffer_to_block block) h.digest;
  buffer = [];
  transforms = (h.transforms + 1) % 2 ^ 64;
}

absorb_cons : (h : Sha1) (x : ℕ) (xs : Bytes) → absorb h (x ∷ xs) ≡ absorb (push h x) xs
unfolding absorb
absorb_cons h x xs = refl

pub push_short :
    (h : Sha1) (x : ℕ) → length h.buffer < 63 → push h x ≡ record h { buffer = h.buffer ++ x ∷ [] }
unfolding push
push_short h x lt = ground arith

pub push_last : (h : Sha1) (x : ℕ) → length h.buffer ≡ 63 → push h x ≡ closed h (h.buffer ++ x ∷ [])
unfolding push
push_last h x e = ground arith

pub absorb_short :
    (h : Sha1) (xs : Bytes)
    → length h.buffer + length xs < 64
    → absorb h xs ≡ record h { buffer = h.buffer ++ xs }
unfolding absorb
absorb_short h [] lt = ap (λ b. record h { buffer = b }) (sym (append-nil h.buffer))
absorb_short h (x ∷ xs) lt =
    ap (λ g. absorb g xs) (push_short h x (omega arith))
    ∙ absorb_short (record h { buffer = h.buffer ++ x ∷ [] }) xs
        (omega (arith, length-append h.buffer (x ∷ [])))
    ∙ ap (λ b. record h { buffer = b }) (append_assoc h.buffer (x ∷ []) xs)

pub absorb_block :
    (h : Sha1) (x : ℕ) (xs : Bytes)
    → length h.buffer + length (x ∷ xs) ≡ 64
    → absorb h (x ∷ xs) ≡ closed h (h.buffer ++ x ∷ xs)
unfolding absorb
absorb_block h x [] e = push_last h x (omega arith)
absorb_block h x (y ∷ xs) e =
    ap (λ g. absorb g (y ∷ xs)) (push_short h x (omega arith))
    ∙ absorb_block (record h { buffer = h.buffer ++ x ∷ [] }) y xs
        (omega (arith, length-append h.buffer (x ∷ [])))
    ∙ ap (closed h) (append_assoc h.buffer (x ∷ []) (y ∷ xs))

length-words_from : (n i : ℕ) (b : Bytes) → length (words_from n i b) ≡ n
unfolding words_from
length-words_from zero i b = refl
length-words_from (suc n) i b = ap suc (length-words_from n (i + 1) b)

pub length-buffer_to_block : (b : Bytes) → length (buffer_to_block b) ≡ 16
unfolding buffer_to_block
length-buffer_to_block b = length-words_from 16 0 b

transform_buffer :
    (h : Sha1) (r : Bytes)
    → record ((transform (buffer_to_block h.buffer) h).0) { buffer = r }
      ≡ record (closed h h.buffer) { buffer = r }
transform_buffer h r =
    ap (λ (g : Sha1). record g { buffer = r })
      (transform-compress (buffer_to_block h.buffer) h (length-buffer_to_block h.buffer))

update_loop-stop : (f : ℕ) (h : Sha1) (s : Bytes) → update_loop f h s false ≡ h
unfolding update_loop
update_loop-stop zero h s = refl
update_loop-stop (suc f) h s = refl

update_loop-round :
    (f : ℕ) (h : Sha1) (s : Bytes)
    → update_loop (suc f) h s true
      ≡ update_loop f
          (record (closed h h.buffer) { buffer = take 64 s })
          (drop 64 s)
          (leb 64 (length s))
unfolding update_loop
update_loop-round f h s =
    ap (λ g. update_loop f g (drop 64 s) (leb 64 (length s))) (transform_buffer h (take 64 s))

take_all : (n : ℕ) (s : Bytes) → length s ≤ n → take n s ≡ s
take_all zero [] h = refl
take_all zero (x ∷ s) h = elim h [ ]
take_all (suc n) [] h = refl
take_all (suc n) (x ∷ s) h = ap (λ r. x ∷ r) (take_all n s (omega arith))

absorb_full :
    (h : Sha1) (s : Bytes)
    → length h.buffer < 64
    → length h.buffer + length s ≡ 64
    → absorb h s ≡ closed h (h.buffer ++ s)
absorb_full h [] lt e = absurd (omega arith)
absorb_full h (x ∷ s) lt e = absorb_block h x s e

-- The first bytes fill the buffer, the rest starts a new one.
absorb-take :
    (h : Sha1) (n : ℕ) (s : Bytes)
    → length h.buffer < 64
    → length h.buffer + n ≡ 64
    → n ≤ length s
    → absorb h s ≡ absorb (closed h (h.buffer ++ take n s)) (drop n s)
absorb-take h n s lt e le =
    ap (absorb h) (sym (take-append-drop n s))
    ∙ absorb-append h (take n s) (drop n s)
    ∙ ap (λ g. absorb g (drop n s)) (absorb_full h (take n s) lt (omega (arith, length-take n s)))

last_round :
    (f : ℕ) (h : Sha1) (s : Bytes)
    → length s < 64
    → update_loop f (record (closed h h.buffer) { buffer = take 64 s }) (drop 64 s) false
      ≡ absorb (closed h h.buffer) s
last_round f h s lt =
    update_loop-stop f (record (closed h h.buffer) { buffer = take 64 s }) (drop 64 s)
    ∙ ap (λ b. record (closed h h.buffer) { buffer = b }) (take_all 64 s (omega arith))
    ∙ sym (absorb_short (closed h h.buffer) s (omega arith))

-- The loop, with a full buffer and fuel for every byte that is left.
update_loop-absorb :
    (f : ℕ) (h : Sha1) (s : Bytes)
    → length s ≤ f
    → update_loop (suc f) h s true ≡ absorb (closed h h.buffer) s
update_loop-absorb zero h s le = update_loop-round 0 h s ∙ rw short (last_round 0 h s (omega arith))
  where
    short : leb 64 (length s) ≡ false
    short = ground arith
update_loop-absorb (suc f) h s le =
    update_loop-round (suc f) h s ∙ elim (Bool-cases (leb 64 (length s))) [
      | inl e ↦ rw e (
          update_loop-absorb f (record (closed h h.buffer) { buffer = take 64 s }) (drop 64 s)
            (omega (arith, length-drop 64 s, leb→le 64 (length s) e))
          ∙ sym (
              absorb-take (closed h h.buffer) 64 s (omega arith) (omega arith)
                (leb→le 64 (length s) e)))
      | inr e ↦ rw e (last_round (suc f) h s (ground arith))
    ]

-- `update` absorbs its text byte by byte, whatever the buffer holds.
pub update-absorb : (s : Bytes) (h : Sha1) → length h.buffer < 64 → update s h ≡ absorb h s
unfolding update read
update-absorb s h lt = elim (Bool-cases (leb (64 - length h.buffer) (length s))) [
  | inl e ↦ rw e (
      ap
        (λ (r : ℕ).
          update_loop r (record h { buffer = h.buffer ++ take (64 - length h.buffer) s })
            (drop (64 - length h.buffer) s) true)
        (omega arith)
      ∙ update_loop-absorb (length s) _ (drop (64 - length h.buffer) s)
          (omega (arith, length-drop (64 - length h.buffer) s))
      ∙ sym (absorb-take h (64 - length h.buffer) s lt (omega arith) (leb→le _ _ e)))
  | inr e ↦ rw e (
      update_loop-stop (length s + 1) _ _
      ∙ ap (λ b. record h { buffer = h.buffer ++ b }) (take_all _ s (ground arith))
      ∙ sym (absorb_short h s (ground arith)))
]
