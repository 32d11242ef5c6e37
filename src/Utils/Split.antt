-- ===== src/Utils/Split.antt =====
-- `split` of src/utils.cpp. The read position `begin` is the rest of the text from there on.
pub mod Laws
use beauty_cl.Prelude.{
  ℕ, zero, suc, ◌+◌, ◌≤◌, ◌<◌, ◌≡◌, ◌≢◌, refl, sym, ap, Bool, true, false, ◌||◌, Option, none, some,
  List, [], ◌∷◌, ◌++◌, append-nil, arith, Bytes, codes, is_empty, length, All, ◌==◌, if◌then◌else◌,
  Option-cases, Bool-cases, inl, inr,
}
use mathlib.Core.Option

-- `str.find(sep, begin)`: the bytes before the separator, and those behind it.
find : ℕ → Bytes → Option (Bytes × Bytes)
find sep [] = none
find sep (c ∷ s) =
    if c == sep then some ([], s) else Option.map (λ found. (c ∷ found.0, found.1)) (find sep s)

-- The `while` loop, with fuel for its rounds.
split_loop : ℕ → ℕ → Bytes → List Bytes
split_loop zero sep rest = []
split_loop (suc fuel) sep [] = []
split_loop (suc fuel) sep (c ∷ s) = elim (find sep (c ∷ s)) [
  | none ↦ (c ∷ s) ∷ []
  | some (column, rest) ↦ column ∷ split_loop fuel sep rest
]

-- `*str.rbegin() == sep`, for a text that is not empty.
last_is : ℕ → Bytes → Bool
last_is sep [] = false
last_is sep (c ∷ []) = c == sep
last_is sep (c ∷ d ∷ s) = last_is sep (d ∷ s)

unfoldable pub split : Bytes → ℕ → List Bytes
unfolding find split_loop last_is
split str sep =
    split_loop (length str) sep str ++ (if is_empty str || last_is sep str then [] ∷ [] else [])

-- The specification: the fields between separators, in one pass.
abbrev onto_first : ℕ → List Bytes → List Bytes
onto_first c [] = (c ∷ []) ∷ []
onto_first c (p ∷ ps) = (c ∷ p) ∷ ps

unfoldable pub fields : Bytes → ℕ → List Bytes
fields [] sep = [] ∷ []
fields (c ∷ s) sep = if c == sep then [] ∷ fields s sep else onto_first c (fields s sep)

find-none : (sep : ℕ) (s : Bytes) → find sep s ≡ none → fields s sep ≡ s ∷ []
unfolding find fields
find-none sep [] h = refl
find-none sep (c ∷ s) h = ground (arith, find-none sep s)

find-some :
    (sep : ℕ) (s p r : Bytes)
    → find sep s ≡ some (p, r)
    → (fields s sep ≡ p ∷ fields r sep) × (length r < length s)
unfolding find fields
find-some sep [] p r h = cc
find-some sep (c ∷ s) p r h = elim (Bool-cases (c == sep)) [
  | inl e ↦ ground arith
  | inr e ↦ elim (Option-cases (find sep s)) [
    | inl e2 ↦ cc
    | inr (q, e2) ↦ ground (arith, find-some sep s q.0 q.1)
  ]
]
