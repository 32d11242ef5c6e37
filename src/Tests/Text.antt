-- ===== src/Tests/Text.antt =====
-- src/utils.cpp, src/attributes.cpp, src/sha1.cpp and include/beauty/base64.hpp at concrete inputs.
use mathlib.Core.List.{flat_map, flatten}
use beauty_cl.Prelude.{ℕ, ◌≡◌, ◌≢◌, ◌↔◌, refl, List, [], ◌∷◌, arith, Bytes, codes, replicate, All}
use beauty_cl.Utils.Split.{split}
use beauty_cl.Utils.Split.Laws.{Lacks, join, split-eq_iff}
use beauty_cl.Utils.Escape.{escape, unescape}
use beauty_cl.Utils.Escape.Laws.{unescape-escape}
use beauty_cl.Attributes.{find, attributes}
use beauty_cl.Attributes.Laws.{
  pairs_text, is_clean, is_clean_sound, escaped, first_raw, find-attributes_escaped,
}
use beauty_cl.Base64.{encode, decode, text}
use beauty_cl.Base64.RoundTrip.{decode-encode}
use beauty_cl.Sha1.{Sha1, reset, digest, words, word_bytes, initial}
use beauty_cl.Sha1.Spec.{sha1}
use beauty_cl.Sha1.Digest.{update_all, digest-sha1}

abbrev two_pieces : List Bytes
two_pieces = codes "ab" ∷ codes "c" ∷ []

digest-sha1_example :
    digest (update_all reset two_pieces)
    ≡ (flat_map word_bytes (words (sha1 (flatten two_pieces))), reset)
digest-sha1_example = digest-sha1 two_pieces

abbrev counting : List ℕ
counting = 1 ∷ 2 ∷ 3 ∷ 4 ∷ 5 ∷ 6 ∷ 7 ∷ 8 ∷ 9 ∷ 10 ∷ 11 ∷ 12 ∷ 13 ∷ 14 ∷ 15 ∷ 16 ∷ []

abbrev half_full : Sha1
half_full = record { digest = initial; buffer = replicate 32 b'a'; transforms = 0 }

decode-encode_example : decode (encode (codes "ab")) ≡ text (codes "ab")
decode-encode_example = decode-encode (codes "ab") (omega arith, (omega arith, tt))

split-eq_iff_example : (split (codes "a/b/") b'/' ≡ codes "a" ∷ codes "b" ∷ [] ∷ []) ↔ (
    (codes "a" ∷ codes "b" ∷ [] ∷ [] ≢ [])
    × All (Lacks b'/') (codes "a" ∷ codes "b" ∷ [] ∷ [])
    × (join (codes "a" ∷ codes "b" ∷ [] ∷ []) b'/' ≡ codes "a/b/"))
split-eq_iff_example = split-eq_iff (codes "a/b/") b'/' (codes "a" ∷ codes "b" ∷ [] ∷ [])

unescape-escape_example : unescape (escape (codes "a b%")) ≡ codes "a b%"
unescape-escape_example =
    unescape-escape (codes "a b%") (omega arith, (omega arith, (omega arith, (omega arith, tt))))

abbrev two_values : List (Bytes × Bytes)
two_values = (codes "k", codes "a%20b") ∷ (codes "k", codes "c") ∷ []

abbrev raw_values : List (Bytes × Bytes)
raw_values = (codes "k", codes "a=b&") ∷ []

find-attributes_escaped_example :
    find (codes "k") (attributes (pairs_text (escaped raw_values)) b'&')
    ≡ first_raw (codes "k") raw_values
find-attributes_escaped_example =
    find-attributes_escaped (codes "k") raw_values (λ e. cc)
      (
        (
          is_clean_sound (codes "k") (unfold is_clean in refl),
          (omega arith, (omega arith, (omega arith, (omega arith, tt)))),
        ),
        tt,
      )
