-- ===== src/Tests/Routing.antt =====
-- src/route.cpp and src/router.cpp at concrete inputs.
use beauty_cl.Prelude.{
  ℕ, ◌<◌, ◌≡◌, ◌↔◌, ◌⊎◌, inl, inr, refl, sym, subst, true, false, none, some, List, [], ◌∷◌, ◌++◌,
  arith, Bytes, bytes_eq, codes, length, is_empty, ◌==◌, if◌then◌else◌,
}
use beauty_cl.Utils.Split.{split}
use beauty_cl.Utils.Split.Laws.{join}
use beauty_cl.Attributes.{find}
use beauty_cl.Attributes.Laws.{CleanPairs, pairs_text, first_value, is_clean, is_clean_sound}
use beauty_cl.Swagger.{RouteParameter, is_parameter, swagger_path, swagger_segment}
use beauty_cl.Route.{
  path_parameter, Route, route_cb, is_websocket, match, match_target, empty_info, second_of,
}
use beauty_cl.Route.Matching.{Matches, request_paths, match_iff}
use beauty_cl.Route.Captures.{captured, find-match_target}
use beauty_cl.Router.{Router, new_router, add_route, route_less, less}
use beauty_cl.Router as Router
use beauty_cl.Router.Order.{less_iff, Before}
use beauty_cl.Router.Sorted.{routes_or_empty}
use beauty_cl.Server.{Verb, verb_get, verb_put, verb_post, verb_patch, verb_options, verb_delete}
use beauty_cl.Server.Registration.{registered}
use beauty_cl.Server.Description.{
  object, empty, entry, set_key, describe, to_lower, describe_routes, describe_verbs, find_key,
  all_routes, last_for, describe_verbs-last_for,
}
use beauty_cl.Utils.Escape.{is_upper}

abbrev user_segments : List Bytes
user_segments = [] ∷ codes "user" ∷ codes ":id" ∷ []

abbrev me_segments : List Bytes
me_segments = [] ∷ codes "user" ∷ codes "me" ∷ []

abbrev TestRoute : Type 0
TestRoute = Route (Unit {0}) (Unit {0}) (Unit {0})

abbrev test_route : List Bytes → TestRoute
test_route segments = record {
  path = [];
  segments = segments;
  handler = route_cb tt;
  route_info = empty_info [];
  middleware = [];
}

match_iff_example : ((match (test_route user_segments) (codes "/user/7?x=1") [] false).0 ≡ true) ↔ (
    (false ≡ is_websocket (test_route user_segments).handler)
    × Matches (test_route user_segments).segments (request_paths (codes "/user/7?x=1")))
match_iff_example = match_iff (test_route user_segments) (codes "/user/7?x=1") [] false

abbrev target : Bytes
target = codes "/user/7?x=1"

abbrev query : List (Bytes × Bytes)
query = (codes "x", codes "1") ∷ []

target_segments : request_paths target ≡ [] ∷ codes "user" ∷ codes "7" ∷ []
unfolding split
target_segments = refl

target_query : second_of (split target b'?') ≡ pairs_text query
unfolding split pairs_text join
target_query = refl

target-Matches : Matches user_segments (request_paths target)
target-Matches =
    subst (Matches user_segments) (sym target_segments)
      (inr refl, (inr refl, (inl (unfold is_parameter in refl), tt)))

target_clean : CleanPairs (query ++ captured user_segments (request_paths target))
target_clean =
    subst (λ ps. CleanPairs (query ++ captured user_segments ps)) (sym target_segments)
      (unfold captured is_parameter in
        (
          (
            is_clean_sound (codes "x") (unfold is_clean in refl),
            is_clean_sound (codes "1") (unfold is_clean in refl),
          ),
          (
            (
              is_clean_sound (codes "id") (unfold is_clean in refl),
              is_clean_sound (codes "7") (unfold is_clean in refl),
            ),
            tt,
          ),
        ))

find-match_target_example : find (codes "id") (match_target user_segments target []).1 ≡ (
    if is_empty (query ++ captured user_segments (request_paths target))
    then find (codes "id") []
    else first_value (codes "id") (query ++ captured user_segments (request_paths target)))
find-match_target_example =
    find-match_target (codes "id") user_segments target [] query target-Matches target_query
      target_clean

less_iff_example : (less me_segments user_segments ≡ true) ↔ (
    (length me_segments < length user_segments)
    ⊎ ((length me_segments ≡ length user_segments) × Before me_segments user_segments))
less_iff_example = less_iff me_segments user_segments (omega arith) (omega arith)

abbrev one_router : Router (Unit {0}) (Unit {0}) (Unit {0})
one_router = record { routes = (1, test_route user_segments ∷ []) ∷ []; middleware = [] }

abbrev new_routes : List TestRoute
new_routes = routes_or_empty (Router.find one_router 1) ++ test_route me_segments ∷ []

abbrev verb_number : Verb → ℕ
verb_number verb_get = 1
verb_number verb_put = 4
verb_number verb_post = 3
verb_number verb_patch = 28
verb_number verb_options = 6
verb_number verb_delete = 0

abbrev after_me : TestRoute
after_me = registered (codes "/user/me") (empty_info []) (tt ∷ []) tt

abbrev id_parameter : RouteParameter
id_parameter = path_parameter (codes ":id")

abbrev new_id : RouteParameter
new_id = record {
  name = codes "id";
  location = [];
  description = codes "The user";
  kind = codes "integer";
  format = [];
  required = false;
}

-- A router with two verbs for one path.
abbrev two_verbs : Router (Unit {0}) (Unit {0}) (Unit {0})
two_verbs = record {
  routes = (1, test_route user_segments ∷ []) ∷ (3, test_route user_segments ∷ []) ∷ [];
  middleware = [];
}

abbrev name_of : ℕ → Bytes
name_of verb = if verb == 1 then codes "GET" else codes "POST"

describe_verbs-last_for_example :
    find_key (codes "/user/{id}") (describe_verbs name_of two_verbs.routes empty)
    ≡ last_for name_of (codes "/user/{id}") (all_routes name_of two_verbs.routes) none
describe_verbs-last_for_example = describe_verbs-last_for name_of (codes "/user/{id}") two_verbs

-- Of the two verbs the description has the second one alone.
two_verbs-description :
    find_key (codes "/user/{id}") (describe_verbs name_of two_verbs.routes empty)
    ≡ some (
        object
          (entry (codes "post") (object (describe (test_route user_segments).route_info)) empty))
unfolding find_key describe_verbs describe_routes set_key to_lower swagger_path swagger_segment
    is_parameter is_upper describe bytes_eq
two_verbs-description = refl
