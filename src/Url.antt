-- ===== src/Url.antt =====
-- src/url.cpp and include/beauty/url.hpp. A view of the text is the bytes that it shows.
pub mod RoundTrip
use beauty_cl.Prelude.{
  ℕ, ◌+◌, ◌-◌, ◌*◌, Bool, true, false, Option, none, some, List, [], ◌∷◌, ◌++◌, Bytes, codes,
  is_empty, bytes_eq, length, drop, leb, ◌==◌, ◌&&◌, ◌||◌, if◌then◌else◌, not,
}
use beauty_cl.Utils.Split.{split}
use beauty_cl.Utils.Escape.{is_digit}
use beauty_cl.Route.{Result, ok, runtime_error, c_string}

pub record Url : Type 0 where
  pub scheme : Bytes
  pub login : Bytes
  pub password : Bytes
  pub host : Bytes
  pub port_view : Bytes
  pub port : ℕ
  pub path : Bytes
  pub query : Bytes

abbrev and_then : {A B : Type 0} → Result A → (A → Result B) → Result B
and_then (ok a) f = f a
and_then (runtime_error e) f = runtime_error e

abbrev invalid : Bytes → Bytes
invalid view = codes "Invalid URL format for [" ++ (view ++ codes "]")

-- `split_pair`, from the parts of the view.
abbrev pub pair_of : Bytes → Bool → List Bytes → Result (Bytes × Bytes)
pair_of view true (a ∷ []) = ok (a, [])
pair_of view false (a ∷ []) = ok ([], a)
pair_of view mandatory_left (a ∷ b ∷ []) = ok (a, b)
pair_of view mandatory_left _ = runtime_error (invalid view)

unfoldable pub split_pair : Bytes → ℕ → Bool → Result (Bytes × Bytes)
split_pair view sep mandatory_left = pair_of view mandatory_left (split view sep)

-- `find`: the bytes before the first such byte, and those behind it.
unfoldable pub find_byte : ℕ → Bytes → Option (Bytes × Bytes)
find_byte c [] = none
find_byte c (d ∷ s) =
    if d == c
    then some ([], s)
    else elim (find_byte c s) [ none ↦ none | some (before, behind) ↦ some (d ∷ before, behind) ]

-- The scheme without a colon at its end.
unfoldable pub strip_colon : Bytes → Bytes
strip_colon [] = []
strip_colon (c ∷ []) = if c == b':' then [] else c ∷ []
strip_colon (c ∷ d ∷ s) = c ∷ strip_colon (d ∷ s)

-- The host and the text of the port, of an IPv6 address or another host.
unfoldable pub parse_ipv6 : Bytes → Bytes → Result (Bytes × Bytes)
parse_ipv6 host inside = elim (find_byte b']' inside) [
  | none ↦ runtime_error (codes "Invalid URL format for IPv6 [" ++ (host ++ codes "]"))
  | some (address, behind) ↦ elim (find_byte b':' behind) [
    | none ↦ ok (address, [])
    | some (between, port) ↦
        if is_empty port
        then runtime_error (codes "Invalid port for IPv6 [" ++ (host ++ codes "]"))
        else ok (address, port)
  ]
]

unfoldable pub parse_host : Bytes → Result (Bytes × Bytes)
parse_host [] = ok ([], [])
parse_host (c ∷ s) = if c == b'[' then parse_ipv6 (c ∷ s) s else split_pair (c ∷ s) b':' true

-- `std::from_chars` to an `unsigned short`: the digits at the beginning, if there are any and their
-- number is below 2 ^ 16.
unfoldable pub read_digits : ℕ → Bytes → ℕ
read_digits n [] = n
read_digits n (c ∷ s) =
    let more = read_digits (n * 10 + (c - b'0')) s in if is_digit c then more else n

unfoldable pub from_chars : Bytes → Option ℕ
from_chars [] = none
from_chars (c ∷ s) =
    if is_digit c && leb (read_digits 0 (c ∷ s)) 65535 then some (read_digits 0 (c ∷ s)) else none

unfoldable pub parse_port : Bytes → Result ℕ
parse_port port_view = if is_empty port_view then ok 0 else elim (from_chars port_view) [
  | none ↦ runtime_error (codes "Invalid port number " ++ port_view)
  | some n ↦ ok n
]

-- The path and the query, with its question mark, from the rest of the text.
unfoldable pub parse_path : Bytes → Bytes × Bytes
parse_path rest = elim (find_byte b'?' rest) [
  | none ↦ (c_string rest, [])
  | some (before, behind) ↦ (before, c_string (b'?' ∷ behind))
]

-- The login and the password.
unfoldable pub parse_user : Bytes → Result (Bytes × Bytes)
parse_user user_info = if is_empty user_info then ok ([], []) else split_pair user_info b':' true

-- The constructor, for the parts of the text between slashes.
unfoldable pub parse_parts : Bytes → List Bytes → Result Url
parse_parts u (s0 ∷ s1 ∷ s2 ∷ parts) =
    if not (is_empty s1) || is_empty s2
    then runtime_error (invalid u)
    else and_then (split_pair s2 b'@' false) (λ pair. and_then (parse_user pair.0) (λ user.
      and_then (parse_host pair.1) (λ host. and_then (parse_port host.1) (λ port.
        let rest = parse_path (drop (length s0 + 1 + length s1 + 1 + length s2) u) in
        ok (record {
          scheme = strip_colon s0;
          login = user.0;
          password = user.1;
          host = host.0;
          port_view = host.1;
          port = port;
          path = rest.0;
          query = rest.1;
        })))))
parse_parts u _ = runtime_error (invalid u)

unfoldable pub parse : Bytes → Result Url
parse u = parse_parts u (split u b'/')

-- `path`, `is_http` and `is_https`.
unfoldable pub url_path : Url → Bytes
url_path u = if is_empty u.path then codes "/" else u.path

unfoldable pub is_http : Url → Bool
is_http u = bytes_eq u.scheme (codes "http")

unfoldable pub is_https : Url → Bool
is_https u = bytes_eq u.scheme (codes "https")

-- `strip_login_password`, with `std::to_string`.
unfoldable pub strip_login_password : (ℕ → Bytes) → Url → Bytes
strip_login_password to_string u =
    u.scheme
    ++ (codes "://"
        ++ (u.host ++ ((if u.port == 0 then [] else codes ":" ++ to_string u.port) ++ url_path u)))

-- To run this, unfold this.
unfoldable pub runs : Unit {0}
unfolding parse parse_parts split split_pair find_byte strip_colon parse_ipv6 parse_host read_digits
    from_chars parse_port parse_path parse_user is_digit c_string
runs = tt
