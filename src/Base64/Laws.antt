-- ===== src/Base64/Laws.antt =====
-- include/beauty/base64.hpp: the sizes and the reads of the two directions.
use beauty_cl.Prelude.{
  ℕ, ◌+◌, ◌*◌, ◌/◌, ◌%◌, ◌^◌, ◌≤◌, ◌<◌, ◌≡◌, ◌≢◌, ◌⊎◌, inl, inr, refl, ◌&&◌, [], ◌∷◌, ◌++◌, arith,
  Bytes, is_empty, length, length-append, All, ◌==◌, ==_iff, Bool-cases,
}
use beauty_cl.Base64.{
  encode, Index, outside, invalid, index, index_table, Decoded, read_outside, text, fourth, third,
  leading, octets, decode_from, decode,
}

-- `encode` writes exactly the bytes that it reserves: `res.resize((len + 2) / 3 * 4)`.
pub length-encode : (s : Bytes) → length (encode s) ≡ (length s + 2) / 3 * 4
unfolding encode
length-encode [] = refl
length-encode (a ∷ []) = omega arith
length-encode (a ∷ b ∷ []) = omega arith
length-encode (a ∷ b ∷ c ∷ s) = omega (arith, length-encode s)

pub Index-cases : (x : Index) → (x ≡ outside) ⊎ ((x ≡ invalid) ⊎ ((i : ℕ) × (x ≡ index i)))
Index-cases outside = inl refl
Index-cases invalid = inr (inl refl)
Index-cases (index i) = inr (inr (i, refl))

-- What holds of every way out of a round holds of the round.
module _ {ℓ} (P : Decoded → Type ℓ) (failed : P (text [])) where
  fourth_inv :
      (n d : ℕ) (rest out : Bytes) (full : ℕ → Decoded)
      → (index_table d ≡ outside → P read_outside)
      → P (text (out ++ n / 2 ^ 16 ∷ n / 2 ^ 8 % 256 ∷ []))
      → ((m : ℕ) → P (full m))
      → P (fourth n d rest out full)
  unfolding fourth
  fourth_inv n d rest out full bad padded more = elim (Index-cases (index_table d)) [
    | inl e ↦ rw (e, fourth) (bad e)
    | inr (inl e) ↦
        rw (e, fourth)
          (elim (Bool-cases (d == b'=' && is_empty rest)) [
            | inl t ↦ rw t padded
            | inr t ↦ rw t failed
          ])
    | inr (inr (l, e)) ↦ rw (e, fourth) (more (n + l))
  ]

  third_inv :
      (n c d : ℕ) (rest out : Bytes) (full : ℕ → Decoded)
      → ((index_table c ≡ outside) ⊎ (index_table d ≡ outside) → P read_outside)
      → ((m : ℕ) → P (text (out ++ m ∷ [])))
      → ((m l : ℕ) → P (text (out ++ m ∷ l ∷ [])))
      → ((m : ℕ) → P (full m))
      → P (third n c d rest out full)
  unfolding third
  third_inv n c d rest out full bad one two more = elim (Index-cases (index_table c)) [
    | inl e ↦ rw (e, third) (bad (inl e))
    | inr (inl e) ↦
        rw (e, third)
          (elim (Bool-cases (c == b'=' && (d == b'=' && is_empty rest))) [
            | inl t ↦ rw t (one (n / 2 ^ 16))
            | inr t ↦ rw t failed
          ])
    | inr (inr (k, e)) ↦
        rw (e, third) (fourth_inv _ d rest out full (λ x. bad (inr x)) (two _ _) more)
  ]

  leading_inv :
      (a b : ℕ) (more : ℕ → Decoded)
      → ((index_table a ≡ outside) ⊎ (index_table b ≡ outside) → P read_outside)
      → ((m : ℕ) → P (more m))
      → P (leading a b more)
  unfolding leading
  leading_inv a b more bad next = elim (Index-cases (index_table a)) [
    | inl e ↦ rw (e, leading) (bad (inl e))
    | inr (inl e) ↦ rw (e, leading) failed
    | inr (inr (i, e)) ↦ elim (Index-cases (index_table b)) [
      | inl f ↦ rw (e, f, leading) (bad (inr f))
      | inr (inl f) ↦ rw (e, f, leading) failed
      | inr (inr (j, f)) ↦ rw (e, f, leading) (next _)
    ]
  ]

-- The text that was written has at most `n` bytes.
abbrev pub Fits : ℕ → Decoded → Type 0
Fits n read_outside = Unit
Fits n (text t) = length t ≤ n

decode_from-Fits :
    (s out : Bytes) (n : ℕ) → length out + length s / 4 * 3 ≤ n → Fits n (decode_from s out)
unfolding decode_from
decode_from-Fits [] out n h = omega arith
decode_from-Fits (a ∷ []) out n h = tt
decode_from-Fits (a ∷ b ∷ []) out n h = tt
decode_from-Fits (a ∷ b ∷ c ∷ []) out n h = tt
decode_from-Fits (a ∷ b ∷ c ∷ d ∷ rest) out n h =
    leading_inv (Fits n) (omega arith) a b _ (λ _. tt)
      λ m.
        third_inv (Fits n) (omega arith) m c d rest out _ (λ _. tt)
          (λ x. omega (arith, length-append out (x ∷ [])))
          (λ x y. omega (arith, length-append out (x ∷ y ∷ [])))
          (λ x.
            decode_from-Fits rest (out ++ octets x) n (omega (arith, length-append out (octets x))))

-- `decode` writes no byte behind those that it reserves: `res.resize(len / 4 * 3)`.
pub decode-Fits : (s : Bytes) → Fits (length s / 4 * 3) (decode s)
unfolding decode
decode-Fits s = elim (Bool-cases (length s % 4 == 0)) [
  | inl e ↦ rw e (decode_from-Fits s [] _ (omega arith))
  | inr e ↦ rw e (omega arith)
]

abbrev pub IsAscii : Bytes → Type 0
IsAscii = All (λ c. c < 128)

index_table-inside : (c : ℕ) → c < 128 → index_table c ≢ outside
unfolding index_table
index_table-inside c h = ground arith

decode_from-inside :
    (s out : Bytes) → IsAscii s → length s % 4 ≡ 0 → decode_from s out ≢ read_outside
unfolding decode_from
decode_from-inside [] out h e = λ x. cc
decode_from-inside (a ∷ []) out h e = absurd (omega arith)
decode_from-inside (a ∷ b ∷ []) out h e = absurd (omega arith)
decode_from-inside (a ∷ b ∷ c ∷ []) out h e = absurd (omega arith)
decode_from-inside (a ∷ b ∷ c ∷ d ∷ rest) out (ha, (hb, (hc, (hd, hs)))) e =
    leading_inv (λ r. r ≢ read_outside) (λ x. cc) a b _ (never a b ha hb)
      λ m.
        third_inv (λ r. r ≢ read_outside) (λ x. cc) m c d rest out _ (never c d hc hd) (λ x y. cc)
          (λ x y z. cc) (λ x. decode_from-inside rest (out ++ octets x) hs (omega arith))
  where
    never :
        (x y : ℕ)
        → x < 128
        → y < 128
        → (index_table x ≡ outside) ⊎ (index_table y ≡ outside)
        → read_outside ≢ read_outside
    never x y hx hy (inl q) = absurd (index_table-inside x hx q)
    never x y hx hy (inr q) = absurd (index_table-inside y hy q)

-- On an ASCII text `decode` never reads outside its table or its text.
pub decode-inside : (s : Bytes) → IsAscii s → decode s ≢ read_outside
unfolding decode
decode-inside s h = elim (Bool-cases (length s % 4 == 0)) [
  | inl e ↦ rw e (decode_from-inside s [] h ((==_iff _ _).0 e))
  | inr e ↦ rw e (λ x. cc)
]
