-- ===== src/Attributes/Laws.antt =====
-- src/attributes.cpp: the map made from a text of `key=value` pairs.
use beauty_cl.Prelude.{
  ◌&&◌, Bool, true, ◌≡◌, ◌≢◌, ◌⊎◌, inl, inr, refl, ap, ◌∙◌, subst, Option, none, some, List, [],
  ◌∷◌, ◌++◌, map, arith, Bytes, IsBytes, bytes_eq, bytes_eq_iff, All, All-append, if◌then◌else◌,
}
use beauty_cl.Utils.Split.{split}
use beauty_cl.Utils.Split.Laws.{Lacks, lacks, lacks_sound, join, split-eq_iff}
use beauty_cl.Utils.Escape.{escape, unescape, runs}
use beauty_cl.Utils.Escape.Laws.{unescape-escape, escape-IsUnreserved, IsUnreserved}
use beauty_cl.Attributes.{Attributes, find, emplace, insert, insert_pair, insert_all, attributes}

abbrev pub or_else {ℓ} : {A : Type ℓ} → Option A → Option A → Option A
or_else none b = b
or_else (some a) b = some a

-- An entry that is there stays; a new one is found under its key.
pub find-emplace :
    (j k v : Bytes) (m : Attributes)
    → find j (emplace k v m) ≡ or_else (find j m) (if bytes_eq k j then some v else none)
unfolding find emplace
find-emplace j k v [] = ground arith
find-emplace j k v ((i, w) ∷ m) =
    ground (arith, bytes_eq_iff k j, bytes_eq_iff i k, bytes_eq_iff i j, find-emplace j k v m)

-- `key=value` pairs with the values as they stand in the text.
abbrev pub pair_text : Bytes × Bytes → Bytes
pair_text (k, v) = k ++ b'=' ∷ v

abbrev pub Clean : Bytes → Type 0
Clean s = Lacks b'=' s × Lacks b'&' s

unfoldable pub is_clean : Bytes → Bool
unfolding lacks
is_clean s = lacks b'=' s && lacks b'&' s

pub is_clean_sound : (s : Bytes) → is_clean s ≡ true → Clean s
unfolding is_clean
is_clean_sound s e = (lacks_sound b'=' s (ground arith), lacks_sound b'&' s (ground arith))

abbrev pub CleanPairs : List (Bytes × Bytes) → Type 0
CleanPairs = All (λ p. Clean p.0 × Clean p.1)

split_pair : (k v : Bytes) → Lacks b'=' k → Lacks b'=' v → split (k ++ b'=' ∷ v) b'=' ≡ k ∷ v ∷ []
split_pair k v hk hv =
    (split-eq_iff (k ++ b'=' ∷ v) b'=' (k ∷ v ∷ [])).1
      ((λ e. cc), (hk, (hv, tt)), (unfold join in refl))

-- The first value of a key, decoded.
unfoldable pub first_value : Bytes → List (Bytes × Bytes) → Option Bytes
first_value key [] = none
first_value key ((k, v) ∷ ps) = if bytes_eq k key then some (unescape v) else first_value key ps

insert_all-pair :
    (k v : Bytes) (parts : List Bytes) (m : Attributes)
    → Lacks b'=' k
    → Lacks b'=' v
    → insert_all (pair_text (k, v) ∷ parts) m ≡ insert_all parts (emplace k (unescape v) m)
unfolding insert_all insert_pair insert
insert_all-pair k v parts m hk hv = rw (split_pair k v hk hv) refl

find-insert_all :
    (key : Bytes) (ps : List (Bytes × Bytes)) (m : Attributes)
    → CleanPairs ps
    → find key (insert_all (map pair_text ps) m) ≡ or_else (find key m) (first_value key ps)
find-insert_all key [] m h = unfold insert_all first_value in ground arith
find-insert_all key ((k, v) ∷ ps) m (h, hs) =
    ap (find key) (insert_all-pair k v (map pair_text ps) m h.0.0 h.1.0)
    ∙ find-insert_all key ps (emplace k (unescape v) m) hs
    ∙ rw (find-emplace key k (unescape v) m) (unfold first_value in ground arith)

Lacks-pair_text : (p : Bytes × Bytes) → Clean p.0 → Clean p.1 → Lacks b'&' (pair_text p)
Lacks-pair_text (k, v) hk hv = All-append _ k (b'=' ∷ v) hk.1 ((λ e. absurd (omega arith)), hv.1)

map-Lacks : (ps : List (Bytes × Bytes)) → CleanPairs ps → All (Lacks b'&') (map pair_text ps)
map-Lacks [] h = tt
map-Lacks (p ∷ ps) (h, hs) = (Lacks-pair_text p h.0 h.1, map-Lacks ps hs)

-- The text of a list of pairs.
unfoldable pub pairs_text : List (Bytes × Bytes) → Bytes
pairs_text ps = join (map pair_text ps) b'&'

split-pairs_text :
    (ps : List (Bytes × Bytes))
    → ps ≢ []
    → CleanPairs ps
    → split (pairs_text ps) b'&' ≡ map pair_text ps
unfolding pairs_text
split-pairs_text ps n h =
    (split-eq_iff (join (map pair_text ps) b'&') b'&' (map pair_text ps)).1
      (some_pair ps n, map-Lacks ps h, refl)
  where
    some_pair : (ps : List (Bytes × Bytes)) → ps ≢ [] → map pair_text ps ≢ []
    some_pair [] n e = n refl
    some_pair (p ∷ ps) n e = cc

-- From a text of clean pairs a key has the decoded value of its first pair, if it has one.
pub find-attributes :
    (key : Bytes) (ps : List (Bytes × Bytes))
    → ps ≢ []
    → CleanPairs ps
    → find key (attributes (pairs_text ps) b'&') ≡ first_value key ps
unfolding attributes
find-attributes key ps n h =
    rw (split-pairs_text ps n h) (find-insert_all key ps [] h ∙ (unfold find in refl))

Clean-escape : (v : Bytes) → IsBytes v → Clean (escape v)
Clean-escape v h =
    (lacks (escape v) (escape-IsUnreserved v h), lacks' (escape v) (escape-IsUnreserved v h))
  where
    lacks : (s : Bytes) → All (λ c. IsUnreserved c ⊎ (c ≡ b'%')) s → Lacks b'=' s
    lacks [] h = tt
    lacks (c ∷ s) (inl u, h) = ((λ e. unfold runs in cc (subst IsUnreserved e u)), lacks s h)
    lacks (c ∷ s) (inr u, h) = (omega arith, lacks s h)

    lacks' : (s : Bytes) → All (λ c. IsUnreserved c ⊎ (c ≡ b'%')) s → Lacks b'&' s
    lacks' [] h = tt
    lacks' (c ∷ s) (inl u, h) = ((λ e. unfold runs in cc (subst IsUnreserved e u)), lacks' s h)
    lacks' (c ∷ s) (inr u, h) = (omega arith, lacks' s h)

-- A query string as a client writes it: each value escaped.
abbrev pub escaped : List (Bytes × Bytes) → List (Bytes × Bytes)
escaped [] = []
escaped ((k, v) ∷ ps) = (k, escape v) ∷ escaped ps

unfoldable pub first_raw : Bytes → List (Bytes × Bytes) → Option Bytes
first_raw key [] = none
first_raw key ((k, v) ∷ ps) = let rest = first_raw key ps in if bytes_eq k key then some v else rest

abbrev pub CleanKeys : List (Bytes × Bytes) → Type 0
CleanKeys = All (λ p. Clean p.0 × IsBytes p.1)

first_value-escaped :
    (key : Bytes) (ps : List (Bytes × Bytes))
    → CleanKeys ps
    → first_value key (escaped ps) ≡ first_raw key ps
unfolding first_value first_raw
first_value-escaped key [] h = refl
first_value-escaped key ((k, v) ∷ ps) (h, hs) =
    rw (unescape-escape v h.1, first_value-escaped key ps hs) refl

escaped-CleanPairs : (ps : List (Bytes × Bytes)) → CleanKeys ps → CleanPairs (escaped ps)
escaped-CleanPairs [] h = tt
escaped-CleanPairs ((k, v) ∷ ps) (h, hs) = ((h.0, Clean-escape v h.1), escaped-CleanPairs ps hs)

-- Values of any bytes survive the query string: where the keys have neither `=` nor `&` and each value
-- is written with `escape`, a key has the first value that was written for it.
pub find-attributes_escaped :
    (key : Bytes) (ps : List (Bytes × Bytes))
    → ps ≢ []
    → CleanKeys ps
    → find key (attributes (pairs_text (escaped ps)) b'&') ≡ first_raw key ps
find-attributes_escaped key ps n h =
    find-attributes key (escaped ps) (some_pair ps n) (escaped-CleanPairs ps h)
    ∙ first_value-escaped key ps h
  where
    some_pair : (ps : List (Bytes × Bytes)) → ps ≢ [] → escaped ps ≢ []
    some_pair [] n e = n refl
    some_pair (p ∷ ps) n e = cc
