-- ===== src/Url/RoundTrip.antt =====
-- src/url.cpp: a URL that is written is read back.
use beauty_cl.Prelude.{
  ℕ, zero, suc, ◌+◌, ◌≡◌, ◌≢◌, refl, sym, ap, ◌∙◌, true, false, Option, none, some, List, [], ◌∷◌,
  ◌++◌, append_assoc, append-nil, arith, Bytes, is_empty, length, length-append, drop, ◌==◌,
}
use beauty_cl.Utils.Split.{split, fields}
use beauty_cl.Utils.Split.Laws.{split-fields, Lacks, fields_one}
use beauty_cl.Route.{ok, c_string}
use beauty_cl.Url.{
  split_pair, pair_of, find_byte, strip_colon, parse_host, from_chars, parse_port, parse_path,
  parse_user, parse_parts, parse,
}

-- The query with its question mark, if there is one.
abbrev pub query_text : Option Bytes → Bytes
query_text none = []
query_text (some query) = b'?' ∷ query

-- A URL from its scheme, its host, its port, its path behind the first slash, and its query.
abbrev pub print : Bytes → Bytes → Bytes → Bytes → Option Bytes → Bytes
print scheme host port path query =
    (scheme ++ b':' ∷ [])
    ++ (b'/' ∷ b'/' ∷ ((host ++ b':' ∷ port) ++ (b'/' ∷ (path ++ query_text query))))

Lacks-append : (c : ℕ) (s t : Bytes) → Lacks c s → Lacks c t → Lacks c (s ++ t)
Lacks-append c [] t hs ht = ht
Lacks-append c (d ∷ s) t hs ht = (hs.0, Lacks-append c s t hs.1 ht)

fields-append : (p s : Bytes) (sep : ℕ) → Lacks sep p → fields (p ++ sep ∷ s) sep ≡ p ∷ fields s sep
unfolding fields
fields-append [] s sep h = ground arith
fields-append (c ∷ p) s sep h = ground (arith, fields-append p s sep h.1)

drop-append : (xs ys : Bytes) (n : ℕ) → n ≡ length xs → drop n (xs ++ ys) ≡ ys
drop-append [] ys n e = rw e refl
drop-append (x ∷ xs) ys zero e = absurd (ground arith)
drop-append (x ∷ xs) ys (suc n) e = drop-append xs ys n (omega (arith, e))

c_string_same : (s : Bytes) → Lacks 0 s → c_string s ≡ s
unfolding c_string
c_string_same [] h = refl
c_string_same (c ∷ s) h = ground (arith, c_string_same s h.1)

find_byte_lacking : (c : ℕ) (s : Bytes) → Lacks c s → find_byte c s ≡ none
unfolding find_byte
find_byte_lacking c [] h = refl
find_byte_lacking c (d ∷ s) h = ground (arith, find_byte_lacking c s h.1)

find_byte_first : (c : ℕ) (s t : Bytes) → Lacks c s → find_byte c (s ++ c ∷ t) ≡ some (s, t)
unfolding find_byte
find_byte_first c [] t h = ground arith
find_byte_first c (d ∷ s) t h = ground (arith, find_byte_first c s t h.1)

strip_colon_same : (s : Bytes) → strip_colon (s ++ b':' ∷ []) ≡ s
unfolding strip_colon
strip_colon_same [] = refl
strip_colon_same (c ∷ []) = refl
strip_colon_same (c ∷ d ∷ s) = ap (λ l. c ∷ l) (strip_colon_same (d ∷ s))

not_empty : (s : Bytes) (c : ℕ) (t : Bytes) → is_empty (s ++ c ∷ t) ≡ false
not_empty [] c t = refl
not_empty (d ∷ s) c t = refl

split_lacking : (s : Bytes) (sep : ℕ) → Lacks sep s → split s sep ≡ s ∷ []
split_lacking s sep h = split-fields s sep ∙ fields_one s sep h

split_print :
    (scheme authority rest : Bytes)
    → Lacks b'/' scheme
    → Lacks b'/' authority
    → split ((scheme ++ b':' ∷ []) ++ (b'/' ∷ b'/' ∷ (authority ++ (b'/' ∷ rest)))) b'/'
      ≡ (scheme ++ b':' ∷ []) ∷ [] ∷ authority ∷ fields rest b'/'
split_print scheme authority rest hs ha =
    split-fields _ b'/'
    ∙ fields-append (scheme ++ b':' ∷ []) (b'/' ∷ (authority ++ (b'/' ∷ rest))) b'/'
        (Lacks-append b'/' scheme (b':' ∷ []) hs ((λ e. ground arith), tt))
    ∙ ap (λ l. (scheme ++ b':' ∷ []) ∷ l)
        (fields-append [] (authority ++ (b'/' ∷ rest)) b'/' tt
          ∙ ap (λ l. [] ∷ l) (fields-append authority rest b'/' ha))

parse_path_print :
    (path : Bytes) (query : Option Bytes)
    → Lacks 0 path
    → Lacks b'?' path
    → Lacks 0 (query_text query)
    → parse_path (b'/' ∷ (path ++ query_text query)) ≡ (b'/' ∷ path, query_text query)
unfolding parse_path
parse_path_print path none hz hq hn =
    ap (λ l. parse_path (b'/' ∷ l)) (append-nil path)
    ∙ rw (find_byte_lacking b'?' (b'/' ∷ path) ((λ e. ground arith), hq), parse_path)
        (ap (λ p. (p, [])) (c_string_same (b'/' ∷ path) ((λ e. ground arith), hz)))
parse_path_print path (some query) hz hq hn =
    rw (find_byte_first b'?' (b'/' ∷ path) query ((λ e. ground arith), hq), parse_path)
      (ap (λ q. (b'/' ∷ path, q)) (c_string_same (b'?' ∷ query) hn))

split_pair_print :
    (host port : Bytes)
    → Lacks b':' host
    → Lacks b':' port
    → split_pair (host ++ b':' ∷ port) b':' true ≡ ok (host, port)
unfolding split_pair
split_pair_print host port hh hp = ap (pair_of (host ++ b':' ∷ port) true) (
    split-fields (host ++ b':' ∷ port) b':'
    ∙ fields-append host port b':' hh
    ∙ ap (λ l. host ∷ l) (fields_one port b':' hp))

parse_host_print :
    (c : ℕ) (host port : Bytes)
    → c ≢ b'['
    → Lacks b':' (c ∷ host)
    → Lacks b':' port
    → parse_host ((c ∷ host) ++ b':' ∷ port) ≡ ok (c ∷ host, port)
unfolding parse_host
parse_host_print c host port n hh hp = rw (differs) (split_pair_print (c ∷ host) port hh hp)
  where
    differs : (c == b'[') ≡ false
    differs = ground arith

parts_read :
    (u s0 s2 : Bytes) (parts : List Bytes) (host port rest path query : Bytes) (n : ℕ)
    → is_empty s2 ≡ false
    → split_pair s2 b'@' false ≡ ok ([], s2)
    → parse_host s2 ≡ ok (host, port)
    → parse_port port ≡ ok n
    → drop (length s0 + 1 + 0 + 1 + length s2) u ≡ rest
    → parse_path rest ≡ (path, query)
    → parse_parts u (s0 ∷ [] ∷ s2 ∷ parts)
      ≡ ok (record {
        scheme = strip_colon s0;
        login = [];
        password = [];
        host = host;
        port_view = port;
        port = n;
        path = path;
        query = query;
      })
unfolding parse_parts parse_user
parts_read u s0 s2 parts host port rest path query n e a h p d q = rw (e, a, h, p, d, q) refl

parse_port_print : (port : Bytes) (n : ℕ) → from_chars port ≡ some n → parse_port port ≡ ok n
unfolding parse_port
parse_port_print [] n e = unfold from_chars in cc
parse_port_print (c ∷ port) n e = rw (e, parse_port) refl

split_pair_alone :
    (authority : Bytes)
    → Lacks b'@' authority
    → split_pair authority b'@' false ≡ ok ([], authority)
unfolding split_pair
split_pair_alone authority h = ap (pair_of authority false) (split_lacking authority b'@' h)

start_of_path :
    (s0 s2 rest : Bytes)
    → drop (length s0 + 1 + 0 + 1 + length s2) (s0 ++ (b'/' ∷ b'/' ∷ (s2 ++ rest))) ≡ rest
start_of_path s0 s2 rest =
    ap (drop (length s0 + 1 + 0 + 1 + length s2)) (sym (append_assoc s0 (b'/' ∷ b'/' ∷ s2) rest))
    ∙ drop-append (s0 ++ (b'/' ∷ b'/' ∷ s2)) rest (length s0 + 1 + 0 + 1 + length s2)
        (omega (arith, length-append s0 (b'/' ∷ b'/' ∷ s2)))

-- What `print` can write so that it is read back: no part has a separator of those behind it, and the
-- host is not in brackets.
pub record IsPrintable (scheme host port path : Bytes) (query : Option Bytes) : Type 0 where
  pub scheme_slash : Lacks b'/' scheme
  pub host_slash : Lacks b'/' host
  pub host_at : Lacks b'@' host
  pub host_colon : Lacks b':' host
  pub port_slash : Lacks b'/' port
  pub port_at : Lacks b'@' port
  pub port_colon : Lacks b':' port
  pub path_zero : Lacks 0 path
  pub path_query : Lacks b'?' path
  pub query_zero : Lacks 0 (query_text query)

-- The parser reads back every URL that is written from a scheme, a host that does not begin with a
-- bracket, a port that is a number of 16 bits, a path and a query, none of which has a byte that
-- separates it from another one.
pub parse-print :
    (scheme : Bytes) (c : ℕ) (host port path : Bytes) (query : Option Bytes) (n : ℕ)
    → IsPrintable scheme (c ∷ host) port path query
    → c ≢ b'['
    → from_chars port ≡ some n
    → parse (print scheme (c ∷ host) port path query)
      ≡ ok (record {
        scheme = scheme;
        login = [];
        password = [];
        host = c ∷ host;
        port_view = port;
        port = n;
        path = b'/' ∷ path;
        query = query_text query;
      })
unfolding parse
parse-print scheme c host port path query n h b e =
    let s2 = (c ∷ host) ++ b':' ∷ port in
    let rest = b'/' ∷ (path ++ query_text query) in
    let u = print scheme (c ∷ host) port path query in
    let s0 = scheme ++ b':' ∷ [] in
    ap (parse_parts u) (
      split_print scheme s2 (path ++ query_text query) h.scheme_slash (
        Lacks-append b'/' (c ∷ host) (b':' ∷ port) h.host_slash
          ((λ f. ground arith), h.port_slash)))
    ∙ parts_read u s0 s2 (fields (path ++ query_text query) b'/') (c ∷ host) port rest (b'/' ∷ path)
        (query_text query) n refl
        (split_pair_alone s2
          (Lacks-append b'@' (c ∷ host) (b':' ∷ port) h.host_at ((λ f. ground arith), h.port_at)))
        (parse_host_print c host port b h.host_colon h.port_colon) (parse_port_print port n e)
        (start_of_path s0 s2 rest)
        (parse_path_print path query h.path_zero h.path_query h.query_zero)
    ∙ ap
        (λ s. ok (record {
          scheme = s;
          login = [];
          password = [];
          host = c ∷ host;
          port_view = port;
          port = n;
          path = b'/' ∷ path;
          query = query_text query;
        }))
        (strip_colon_same scheme)
