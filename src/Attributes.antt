-- ===== src/Attributes.antt =====
-- include/beauty/attribute.hpp, include/beauty/attributes.hpp and src/attributes.cpp. The hash map is
-- the list of its entries, and an attribute is its `_value`.
pub mod Laws
use beauty_cl.Prelude.{
  ℕ, Bool, true, ◌||◌, Option, none, some, List, [], ◌∷◌, Bytes, codes, is_empty, bytes_eq,
  if◌then◌else◌,
}
use beauty_cl.Utils.Split.{split}
use beauty_cl.Utils.Escape.{unescape}

abbrev pub Attributes : Type 0
Attributes = List (Bytes × Bytes)

-- `_attributes.find(key)`.
unfoldable pub find : Bytes → Attributes → Option Bytes
find key [] = none
find key ((k, v) ∷ m) = if bytes_eq k key then some v else find key m

-- `_attributes.emplace(key, value)`, which leaves an entry that is there as it is.
unfoldable pub emplace : Bytes → Bytes → Attributes → Attributes
emplace key value [] = (key, value) ∷ []
emplace key value ((k, v) ∷ m) = if bytes_eq k key then (k, v) ∷ m else (k, v) ∷ emplace key value m

unfoldable pub insert : Bytes → Bytes → Attributes → Attributes
insert key value m = emplace key (unescape value) m

-- One round of the constructor's loop.
unfoldable pub insert_pair : List Bytes → Attributes → Attributes
insert_pair (key ∷ value ∷ []) m = insert key value m
insert_pair _ m = m

unfoldable pub insert_all : List Bytes → Attributes → Attributes
insert_all [] m = m
insert_all (a ∷ parts) m = insert_all parts (insert_pair (split a b'=') m)

-- The constructor.
unfoldable pub attributes : Bytes → ℕ → Attributes
attributes str sep = insert_all (split str sep) []

-- `operator[]`, with the empty attribute for a missing key.
unfoldable pub get : Attributes → Bytes → Bytes
get m key = elim (find key m) [ none ↦ [] | some v ↦ v ]

unfoldable pub as_string : Bytes → Bytes → Bytes
as_string value default_value = if is_empty value then default_value else value

unfoldable pub as_boolean : Bytes → Bool → Bool
as_boolean value default_value =
    if is_empty value
    then default_value
    else bytes_eq value (codes "1") || bytes_eq value (codes "true") || bytes_eq value (codes "yes")

-- `std::stoi`, `std::stod` and the exceptions that they throw are parameters, as the result for a text.
unfoldable pub as_number : {N : Type 0} → (Bytes → N) → Bytes → N → N
as_number parse_number value default_value =
    if is_empty value then default_value else parse_number value
