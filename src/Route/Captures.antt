-- ===== src/Route/Captures.antt =====
-- src/route.cpp: the attributes of a request after a match.
use beauty_cl.Prelude.{
  ℕ, ◌≡◌, inl, inr, refl, sym, ap, ◌∙◌, Bool, false, some, List, [], ◌∷◌, ◌++◌, map, append_assoc,
  append-nil, Bytes, is_empty, bytes_eq_refl, if◌then◌else◌, Bool-cases,
}
use beauty_cl.Utils.Split.{split}
use beauty_cl.Utils.Split.Laws.{join}
use beauty_cl.Attributes.{Attributes, find, attributes}
use beauty_cl.Attributes.Laws.{pair_text, pairs_text, first_value, CleanPairs, find-attributes}
use beauty_cl.Swagger.{is_parameter, tail_of}
use beauty_cl.Route.{match_segments, match_target, second_of}
use beauty_cl.Route.Matching.{Matches, Matches-length, request_paths, match_target-hit}

-- The parameters of a path with the segments of the request that stand for them.
unfoldable pub captured : List Bytes → List Bytes → List (Bytes × Bytes)
captured (s ∷ ss) (p ∷ ps) =
    let rest = captured ss ps in if is_parameter s then (tail_of s, p) ∷ rest else rest
captured _ _ = []

-- The text of one more pair.
abbrev with_pair : Bytes → Bytes × Bytes → Bytes
with_pair attrs p = attrs ++ ((if is_empty attrs then [] else b'&' ∷ []) ++ pair_text p)

is_empty-append : (s t : Bytes) (c : ℕ) → is_empty (s ++ c ∷ t) ≡ false
is_empty-append [] t c = refl
is_empty-append (d ∷ s) t c = refl

is_empty-pairs_text :
    (q : Bytes × Bytes) (qs : List (Bytes × Bytes)) → is_empty (pairs_text (q ∷ qs)) ≡ false
unfolding pairs_text join
is_empty-pairs_text (k, v) [] = is_empty-append k v b'='
is_empty-pairs_text q (r ∷ qs) =
    is_empty-append (pair_text q) (join (map pair_text (r ∷ qs)) b'&') b'&'

pairs_text-more :
    (q : Bytes × Bytes) (qs : List (Bytes × Bytes)) (p : Bytes × Bytes)
    → pairs_text ((q ∷ qs) ++ p ∷ []) ≡ pairs_text (q ∷ qs) ++ b'&' ∷ pair_text p
unfolding pairs_text join
pairs_text-more q [] p = refl
pairs_text-more q (r ∷ qs) p =
    rw (pairs_text-more r qs p)
      (sym (append_assoc (pair_text q) (b'&' ∷ pairs_text (r ∷ qs)) (b'&' ∷ pair_text p)))

with_pair-pairs_text :
    (qs : List (Bytes × Bytes)) (p : Bytes × Bytes)
    → with_pair (pairs_text qs) p ≡ pairs_text (qs ++ p ∷ [])
with_pair-pairs_text [] p = unfold pairs_text join in refl
with_pair-pairs_text (q ∷ qs) p = rw (is_empty-pairs_text q qs, pairs_text-more q qs p) refl

match_segments-captured :
    (ss ps : List Bytes) (qs : List (Bytes × Bytes))
    → Matches ss ps
    → match_segments ss ps (pairs_text qs) ≡ some (pairs_text (qs ++ captured ss ps))
unfolding match_segments captured
match_segments-captured [] [] qs m = rw (append-nil qs)
match_segments-captured [] (p ∷ ps) qs m = elim m [ ]
match_segments-captured (s ∷ ss) [] qs m = elim m [ ]
match_segments-captured (s ∷ ss) (p ∷ ps) qs (m, ms) =
    elim (Bool-cases (is_parameter s))
      as (λ _.
        match_segments (s ∷ ss) (p ∷ ps) (pairs_text qs)
        ≡ some (pairs_text (qs ++ captured (s ∷ ss) (p ∷ ps)))) [
          | inl h ↦ rw h (
              ap (match_segments ss ps) (with_pair-pairs_text qs (tail_of s, p))
              ∙ match_segments-captured ss ps (qs ++ (tail_of s, p) ∷ []) ms
              ∙ rw (append_assoc qs ((tail_of s, p) ∷ []) (captured ss ps)))
          | inr h ↦ elim m [
            | inl k ↦ cc
            | inr k ↦ rw (h, k, bytes_eq_refl p) (match_segments-captured ss ps qs ms)
          ]
        ]

-- After a match, a key has the decoded value of its first pair in the query string and the captured
-- path parameters, in this order; with neither, the attributes are the old ones. The query string
-- and the captured texts are pairs without `=` and `&` in their keys and values.
pub find-match_target :
    (key : Bytes) (ss : List Bytes) (target : Bytes) (old : Attributes) (qs : List (Bytes × Bytes))
    → Matches ss (request_paths target)
    → second_of (split target b'?') ≡ pairs_text qs
    → CleanPairs (qs ++ captured ss (request_paths target))
    → find key (match_target ss target old).1 ≡ (
        if is_empty (qs ++ captured ss (request_paths target))
        then find key old
        else first_value key (qs ++ captured ss (request_paths target)))
find-match_target key ss target old qs m e c =
    let all = qs ++ captured ss (request_paths target) in
    ap (λ (r : Bool × Attributes). find key r.1)
      (match_target-hit ss target old (pairs_text all) (Matches-length ss (request_paths target) m)
        (rw e (match_segments-captured ss (request_paths target) qs m)))
    ∙ found all c
  where
    found :
        (all : List (Bytes × Bytes))
        → CleanPairs all
        → find key (if is_empty (pairs_text all) then old else attributes (pairs_text all) b'&')
          ≡ (if is_empty all then find key old else first_value key all)
    found [] c = unfold pairs_text join in refl
    found (p ∷ ps) c = rw (is_empty-pairs_text p ps) (find-attributes key (p ∷ ps) (λ e. cc) c)
