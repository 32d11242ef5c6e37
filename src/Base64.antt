-- ===== src/Base64.antt =====
-- include/beauty/base64.hpp. A `uint32_t` here stays below 2 ^ 24, a shift is a product or a quotient,
-- and a mask of ones is a remainder. `char` is signed, as on x86.
pub mod Laws
pub mod RoundTrip
use beauty_cl.Prelude.{
  ℕ, ◌+◌, ◌-◌, ◌*◌, ◌/◌, ◌%◌, ◌^◌, ◌&&◌, [], ◌∷◌, ◌++◌, Bytes, codes, is_empty, length, get_or, leb,
  ◌==◌, if◌then◌else◌,
}

-- `CHAR_TABLE`.
pub char_table : ℕ → ℕ
char_table n = get_or (codes "ABCDEFGHIJKLMNOPQRSTUVWXYZabcdefghijklmnopqrstuvwxyz0123456789+/") n 0

-- The loop takes three bytes a round; `r` is the number of bytes behind it.
pub encode : Bytes → Bytes
encode [] = []
encode (a ∷ []) =
    let n = a % 256 * 2 ^ 16 in
    char_table (n / 2 ^ 18) ∷ char_table (n / 2 ^ 12 % 64) ∷ b'=' ∷ b'=' ∷ []
encode (a ∷ b ∷ []) =
    let n = a % 256 * 2 ^ 16 + b % 256 * 2 ^ 8 in
    char_table (n / 2 ^ 18) ∷ char_table (n / 2 ^ 12 % 64) ∷ char_table (n / 2 ^ 6 % 64) ∷ b'=' ∷ []
encode (a ∷ b ∷ c ∷ s) =
    let n = a % 256 * 2 ^ 16 + b % 256 * 2 ^ 8 + c % 256 in
    char_table (n / 2 ^ 18)
    ∷ char_table (n / 2 ^ 12 % 64)
    ∷ char_table (n / 2 ^ 6 % 64)
    ∷ char_table (n % 64)
    ∷ encode s

-- `INDEX_TABLE[static_cast<size_t>(*first)]`: -1 is `invalid`. A byte above 127 is a negative `char`,
-- and its index lies `outside` the table.
pub data Index : Type 0 where
  outside invalid : Index
  index : ℕ → Index

pub index_table : ℕ → Index
index_table c =
    if leb 128 c
    then outside
    else if c == b'+'
    then index 62
    else if c == b'/'
    then index 63
    else if leb b'0' c && leb c b'9'
    then index (c - b'0' + 52)
    else if leb b'A' c && leb c b'Z'
    then index (c - b'A')
    else if leb b'a' c && leb c b'z'
    then index (c - b'a' + 26)
    else invalid

-- `read_outside`: the code reads outside the table or the text, which C++ leaves undefined.
pub data Decoded : Type 0 where
  read_outside : Decoded
  text : Bytes → Decoded

-- The last character of a round: with padding, two bytes are left.
fourth : ℕ → ℕ → Bytes → Bytes → (ℕ → Decoded) → Decoded
fourth n d rest out full = elim (index_table d) [
  | outside ↦ read_outside
  | invalid ↦
      if d == b'=' && is_empty rest
      then text (out ++ n / 2 ^ 16 ∷ n / 2 ^ 8 % 256 ∷ [])
      else text []
  | index l ↦ full (n + l)
]

-- The third: with two padding characters, one byte is left.
third : ℕ → ℕ → ℕ → Bytes → Bytes → (ℕ → Decoded) → Decoded
third n c d rest out full = elim (index_table c) [
  | outside ↦ read_outside
  | invalid ↦
      if c == b'=' && (d == b'=' && is_empty rest) then text (out ++ n / 2 ^ 16 ∷ []) else text []
  | index k ↦ fourth (n + k * 2 ^ 6) d rest out full
]

-- The first two must be characters of the alphabet.
leading : ℕ → ℕ → (ℕ → Decoded) → Decoded
leading a b more = elim (index_table a) [
  | outside ↦ read_outside
  | invalid ↦ text []
  | index i ↦ elim (index_table b) [
    | outside ↦ read_outside
    | invalid ↦ text []
    | index j ↦ more (i * 2 ^ 18 + j * 2 ^ 12)
  ]
]

abbrev octets : ℕ → Bytes
octets n = n / 2 ^ 16 ∷ n / 2 ^ 8 % 256 ∷ n % 256 ∷ []

-- The rounds of the loop; `out` is what was written through `p`.
decode_from : Bytes → Bytes → Decoded
decode_from [] out = text out
decode_from (a ∷ b ∷ c ∷ d ∷ rest) out =
    leading a b (λ n. third n c d rest out (λ m. decode_from rest (out ++ octets m)))
decode_from _ out = read_outside

pub decode : Bytes → Decoded
decode s = if length s % 4 == 0 then decode_from s [] else text []
