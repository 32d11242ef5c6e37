-- ===== src/Router.antt =====
-- src/router.cpp and include/beauty/router.hpp. A verb is the number of its `beast::http::verb`, and
-- `sort` stands for `std::sort` of the whole vector with a comparison.
pub mod Order
pub mod Sorted
use beauty_cl.Prelude.{
  ℕ, ◌+◌, ◌*◌, ◌%◌, ◌^◌, Bool, true, false, Option, none, some, List, [], ◌∷◌, ◌++◌, Bytes, length,
  ltb, ◌==◌, if◌then◌else◌,
}
use beauty_cl.Swagger.{is_parameter}
use beauty_cl.Route.{Route}

-- `int`, as the 32 bits of its representation.
abbrev int_bits : ℕ → ℕ
int_bits n = n % 2 ^ 32

abbrev int_lt : ℕ → ℕ → Bool
int_lt a b = ltb ((a + 2 ^ 31) % 2 ^ 32) ((b + 2 ^ 31) % 2 ^ 32)

-- `lh_cost` (or `rh_cost`) and `power` after the loop, which goes from the last segment to the first.
unfoldable pub cost_loop : List Bytes → ℕ × ℕ
cost_loop [] = (0, 1)
cost_loop (s ∷ segments) =
    let rest = cost_loop segments in
    (if is_parameter s then int_bits (rest.0 + rest.1) else rest.0, int_bits (rest.1 * 2))

-- The comparison that `add_route` sorts by.
unfoldable pub less : List Bytes → List Bytes → Bool
less lh rh =
    if ltb (length lh) (length rh)
    then true
    else (if ltb (length rh) (length lh) then false else int_lt (cost_loop lh).0 (cost_loop rh).0)

unfoldable pub route_less : {J C M : Type 0} → Route J C M → Route J C M → Bool
route_less lh rh = less lh.segments rh.segments

pub record Router (J C M : Type 0) : Type 0 where
  pub routes : List (ℕ × List (Route J C M))
  pub middleware : List M

abbrev pub new_router : {J C M : Type 0} → Router J C M
new_router = record { routes = []; middleware = [] }

-- `_routes.find(v)`, with `none` for the end.
unfoldable pub find_verb : {A : Type 0} → ℕ → List (ℕ × A) → Option A
find_verb v [] = none
find_verb v ((w, a) ∷ routes) = if w == v then some a else find_verb v routes

unfoldable pub find : {J C M : Type 0} → Router J C M → ℕ → Option (List (Route J C M))
find router v = find_verb v router.routes

-- What a function makes of `_routes[v]`, which is empty at first.
unfoldable pub change_verb :
    {A : Type 0} → ℕ → (List A → List A) → List (ℕ × List A) → List (ℕ × List A)
change_verb v f [] = (v, f []) ∷ []
change_verb v f ((w, rs) ∷ routes) =
    let rest = change_verb v f routes in if w == v then (w, f rs) ∷ routes else (w, rs) ∷ rest

unfoldable pub add_route :
    {J C M : Type 0}
    → ((Route J C M → Route J C M → Bool) → List (Route J C M) → List (Route J C M))
    → ℕ
    → Route J C M
    → Router J C M
    → Router J C M
add_route sort v r router = record router {
  routes = change_verb v (λ rs. sort route_less (rs ++ r ∷ [])) router.routes;
}

unfoldable pub use_router : {J C M : Type 0} → M → Router J C M → Router J C M
use_router fn router = record router { middleware = router.middleware ++ fn ∷ [] }
