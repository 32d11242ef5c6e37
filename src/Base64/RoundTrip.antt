-- ===== src/Base64/RoundTrip.antt =====
-- include/beauty/base64.hpp: `decode` of what `encode` writes.
use beauty_cl.Prelude.{
  ℕ, ◌+◌, ◌*◌, ◌/◌, ◌%◌, ◌^◌, ◌<◌, ◌≡◌, refl, ap, ◌∙◌, Bool, true, false, [], ◌∷◌, ◌++◌,
  append_assoc, append-nil, arith, Bytes, IsBytes, length, ◌==◌, ==_iff, holds_up_to,
  holds_up_to_sound,
}
use beauty_cl.Base64.Laws.{length-encode}
use beauty_cl.Base64.{
  char_table, encode, Index, outside, invalid, index, index_table, Decoded, text, fourth, third,
  leading, octets, decode_from, decode,
}

is_index : ℕ → Index → Bool
is_index k (index i) = i == k
is_index k _ = false

is_index_lem : (k : ℕ) (x : Index) → is_index k x ≡ true → x ≡ index k
unfolding is_index
is_index_lem k outside h = cc
is_index_lem k invalid h = cc
is_index_lem k (index i) h = ground arith

-- The alphabet is read back as it was written, and holds no padding character.
alphabet_table : holds_up_to (λ k. is_index k (index_table (char_table k))) 63 ≡ true
unfolding holds_up_to is_index index_table char_table
alphabet_table = refl

index_table-char_table : (k : ℕ) → k < 64 → index_table (char_table k) ≡ index k
index_table-char_table k h =
    is_index_lem k _ (holds_up_to_sound _ 63 alphabet_table k (omega arith))

index_table-padding : index_table b'=' ≡ invalid
unfolding index_table
index_table-padding = refl

leading-char_table :
    (i j : ℕ) (more : ℕ → Decoded)
    → i < 64
    → j < 64
    → leading (char_table i) (char_table j) more ≡ more (i * 2 ^ 18 + j * 2 ^ 12)
unfolding leading
leading-char_table i j more h k =
    rw (index_table-char_table i h, index_table-char_table j k, leading)

third-char_table :
    (n k l : ℕ) (rest out : Bytes) (full : ℕ → Decoded)
    → k < 64
    → l < 64
    → third n (char_table k) (char_table l) rest out full ≡ full (n + k * 2 ^ 6 + l)
unfolding third fourth
third-char_table n k l rest out full h g =
    rw (index_table-char_table k h, third) (rw (index_table-char_table l g, fourth))

third_one :
    (n : ℕ) (out : Bytes) (full : ℕ → Decoded)
    → third n b'=' b'=' [] out full ≡ text (out ++ n / 2 ^ 16 ∷ [])
unfolding third
third_one n out full = rw (index_table-padding, third)

third_two :
    (n k : ℕ) (out : Bytes) (full : ℕ → Decoded)
    → k < 64
    → third n (char_table k) b'=' [] out full
      ≡ text (out ++ (n + k * 2 ^ 6) / 2 ^ 16 ∷ (n + k * 2 ^ 6) / 2 ^ 8 % 256 ∷ [])
unfolding third fourth
third_two n k out full h = rw (index_table-char_table k h, third) (rw (index_table-padding, fourth))

bits : ℕ → ℕ → ℕ → ℕ
bits a b c = a % 256 * 2 ^ 16 + b % 256 * 2 ^ 8 + c % 256

sextets_sum :
    (n : ℕ) → n / 2 ^ 18 * 2 ^ 18 + n / 2 ^ 12 % 64 * 2 ^ 12 + n / 2 ^ 6 % 64 * 2 ^ 6 + n % 64 ≡ n
sextets_sum n = omega arith

octets-bits : (a b c : ℕ) → a < 256 → b < 256 → c < 256 → octets (bits a b c) ≡ a ∷ b ∷ c ∷ []
unfolding bits
octets-bits a b c ha hb hc = ground arith

-- One round: four characters of the alphabet, read back into three bytes.
round_full :
    (n : ℕ) (rest out : Bytes)
    → n < 2 ^ 24
    → decode_from
        (char_table (n / 2 ^ 18)
          ∷ char_table (n / 2 ^ 12 % 64)
          ∷ char_table (n / 2 ^ 6 % 64)
          ∷ char_table (n % 64)
          ∷ rest)
        out
      ≡ decode_from rest (out ++ octets n)
round_full n rest out h =
    let full : ℕ → Decoded = λ m. decode_from rest (out ++ octets m) in
    unfold decode_from in
    leading-char_table (n / 2 ^ 18) (n / 2 ^ 12 % 64) _ (omega arith) (omega arith)
    ∙ third-char_table _ (n / 2 ^ 6 % 64) (n % 64) rest out full (omega arith) (omega arith)
    ∙ ap full (sextets_sum n)

round_one :
    (n : ℕ) (out : Bytes)
    → n < 2 ^ 24
    → decode_from (char_table (n / 2 ^ 18) ∷ char_table (n / 2 ^ 12 % 64) ∷ b'=' ∷ b'=' ∷ []) out
      ≡ text (out ++ n / 2 ^ 16 ∷ [])
unfolding decode_from
round_one n out h =
    leading-char_table (n / 2 ^ 18) (n / 2 ^ 12 % 64) _ (omega arith) (omega arith)
    ∙ third_one _ out _
    ∙ ap (λ m. text (out ++ m ∷ [])) (omega arith)

round_two :
    (n : ℕ) (out : Bytes)
    → n < 2 ^ 24
    → n % 64 ≡ 0
    → decode_from
        (char_table (n / 2 ^ 18)
          ∷ char_table (n / 2 ^ 12 % 64)
          ∷ char_table (n / 2 ^ 6 % 64)
          ∷ b'='
          ∷ [])
        out
      ≡ text (out ++ n / 2 ^ 16 ∷ n / 2 ^ 8 % 256 ∷ [])
unfolding decode_from
round_two n out h z =
    leading-char_table (n / 2 ^ 18) (n / 2 ^ 12 % 64) _ (omega arith) (omega arith)
    ∙ third_two _ (n / 2 ^ 6 % 64) out _ (omega arith)
    ∙ ap (λ m. text (out ++ m / 2 ^ 16 ∷ m / 2 ^ 8 % 256 ∷ [])) (omega arith)

decode_from-encode : (s out : Bytes) → IsBytes s → decode_from (encode s) out ≡ text (out ++ s)
unfolding encode bits
decode_from-encode [] out h = unfold decode_from in rw append-nil
decode_from-encode (a ∷ []) out h =
    round_one (a % 256 * 2 ^ 16) out (omega arith) ∙ ap (λ m. text (out ++ m ∷ [])) (omega arith)
decode_from-encode (a ∷ b ∷ []) out h =
    round_two (a % 256 * 2 ^ 16 + b % 256 * 2 ^ 8) out (omega arith) (omega arith)
    ∙ ap (λ m. text (out ++ m)) (ground arith)
decode_from-encode (a ∷ b ∷ c ∷ s) out (ha, (hb, (hc, hs))) =
    round_full (bits a b c) (encode s) out (unfold bits in omega arith)
    ∙ ap (λ m. decode_from (encode s) (out ++ m)) (octets-bits a b c ha hb hc)
    ∙ decode_from-encode s (out ++ a ∷ b ∷ c ∷ []) hs
    ∙ ap text (append_assoc out (a ∷ b ∷ c ∷ []) s)

-- Every byte string comes back from its encoding.
pub decode-encode : (s : Bytes) → IsBytes s → decode (encode s) ≡ text s
unfolding decode
decode-encode s h =
    rw ((==_iff (length (encode s) % 4) 0).1 (omega (arith, length-encode s)))
      (decode_from-encode s [] h)
