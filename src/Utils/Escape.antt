-- ===== src/Utils/Escape.antt =====
-- `escape` and `unescape` of src/utils.cpp. A regular expression is the test of what it matches, and
-- `toupper` is that of the "C" locale, which leaves the bytes above 127 alone.
pub mod Laws
use Prim.Native.Nat.{bit_or}
use beauty_cl.Prelude.{
  ℕ, ◌+◌, ◌-◌, ◌*◌, ◌/◌, ◌%◌, Bool, not, ◌&&◌, ◌||◌, [], ◌∷◌, ◌++◌, map, Bytes, codes, get_or, ltb,
  leb, ◌==◌, if◌then◌else◌,
}

unfoldable pub is_upper : ℕ → Bool
is_upper c = leb b'A' c && leb c b'Z'

unfoldable pub is_lower : ℕ → Bool
is_lower c = leb b'a' c && leb c b'z'

unfoldable pub is_digit : ℕ → Bool
is_digit c = leb b'0' c && leb c b'9'

-- The class `[^A-Za-z0-9\-\._~]`.
unfoldable pub is_unsafe : ℕ → Bool
is_unsafe c =
    not (is_upper c || is_lower c || is_digit c || c == b'-' || c == b'.' || c == b'_' || c == b'~')

unfoldable pub toupper : ℕ → ℕ
toupper c = if is_lower c then c - 32 else c

unfoldable pub dec2hex : ℕ → ℕ
dec2hex n = get_or (codes "0123456789ABCDEF") n 0

-- What the inner loop appends for one unsafe byte.
unfoldable pub escape_byte : ℕ → Bytes
escape_byte b = let c = toupper b in b'%' ∷ dec2hex (c / 16) ∷ dec2hex (c % 16) ∷ []

unfoldable pub escape : Bytes → Bytes
escape [] = []
escape (c ∷ s) = (if is_unsafe c then escape_byte c else c ∷ []) ++ escape s

-- The result is an `unsigned char`.
unfoldable pub hexdigit_to_num : ℕ → ℕ
hexdigit_to_num c =
    if ltb c b'A' then (c + 256 - b'0') % 256 else (toupper c + 256 - b'A' + 10) % 256

-- The class `[0-9A-Fa-f]`.
unfoldable pub is_hex : ℕ → Bool
is_hex c = is_digit c || (leb b'A' c && leb c b'F') || (leb b'a' c && leb c b'f')

-- `hexdigit_to_num(a) << 4 | hexdigit_to_num(b)`, appended as a `char`.
unfoldable pub unescape_pair : ℕ → ℕ → ℕ
unescape_pair a b = bit_or (hexdigit_to_num a * 16) (hexdigit_to_num b) % 256

unfoldable pub plus_to_space : ℕ → ℕ
plus_to_space c = if c == b'+' then b' ' else c

-- The loop over the matches of `%([0-9A-Fa-f]{2})`, leftmost first.
unfoldable pub unescape_matches : Bytes → Bytes
unescape_matches [] = []
unescape_matches (c ∷ []) = c ∷ []
unescape_matches (c ∷ a ∷ []) = c ∷ a ∷ []
unescape_matches (c ∷ a ∷ b ∷ s) =
    let replaced = unescape_pair a b ∷ unescape_matches s in
    let copied = c ∷ unescape_matches (a ∷ b ∷ s) in
    if (c == b'%') && (is_hex a && is_hex b) then replaced else copied

unfoldable pub unescape : Bytes → Bytes
unescape s = unescape_matches (map plus_to_space s)

-- To run the two functions, unfold this.
unfoldable pub runs : Unit {0}
unfolding escape escape_byte dec2hex unescape unescape_matches unescape_pair hexdigit_to_num toupper
    plus_to_space is_unsafe is_hex is_upper is_lower is_digit
runs = tt
