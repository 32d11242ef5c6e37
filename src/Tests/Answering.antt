-- ===== src/Tests/Answering.antt =====
-- A server with two routes.
use mathlib.Core.List.{Memᴰ}
use beauty_cl.Prelude.{
  ℕ, ◌≡◌, ◌≢◌, ◌⊎◌, refl, true, false, Option, some, List, [], ◌∷◌, Bytes, codes,
}
use beauty_cl.Route.{bad_path, empty_info}
use beauty_cl.Router.{add_route, new_router}
use beauty_cl.Middleware.{threw}
use beauty_cl.Session.{
  Request, Reply, respond, handle_request, serve, not_found, bad_request, http_exception,
}
use beauty_cl.Session.Replies.{with_endpoint}
use beauty_cl.Server.{Verb, verb_get, verb_put, verb_post, verb_patch, verb_options, verb_delete}
use beauty_cl.Server.Registration.{register_ok}
use beauty_cl.Server.Registrations.{Registration, route_of, HttpRouter, Built, empty, registers}
use beauty_cl.Server.Answering.{Fits, Best, matched, handle_request-registered}
use beauty_cl.Tests.Sorting.{insertion_sort, insertion_sort-Sorts}

abbrev number_of : Verb → ℕ
number_of verb_get = 1
number_of verb_put = 4
number_of verb_post = 3
number_of verb_patch = 28
number_of verb_options = 6
number_of verb_delete = 0

-- The callback throws a `beauty::exception` of this status.
abbrev page : Bytes → ℕ → Registration (Unit {0})
page path status = record {
  verb = verb_get;
  path = path;
  info = empty_info [];
  middleware = [];
  callback = λ shared. threw (http_exception status (codes "no")) shared;
}

abbrev me_page : Registration (Unit {0})
me_page = page (codes "/user/me") 403

abbrev user_page : Registration (Unit {0})
user_page = page (codes "/user/:id") 404

abbrev added : Registration (Unit {0}) → HttpRouter (Unit {0}) → HttpRouter (Unit {0})
added g router = add_route insertion_sort (number_of g.verb) (route_of g) router

abbrev two_pages : HttpRouter (Unit {0})
two_pages = added me_page (added user_page new_router)

adds :
    (gs : List (Registration (Unit {0}))) (g : Registration (Unit {0}))
    (router : HttpRouter (Unit {0}))
    → bad_path g.path ≡ false
    → Built insertion_sort number_of gs router
    → Built insertion_sort number_of (g ∷ gs) (added g router)
adds gs g router good built = registers g built (
    register_ok insertion_sort-Sorts number_of g.verb g.path g.info g.middleware g.callback router
      good)

two_pages-Built : Built insertion_sort number_of (me_page ∷ user_page ∷ []) two_pages
two_pages-Built =
    adds (user_page ∷ []) me_page (added user_page new_router) (unfold bad_path in refl)
      (adds [] user_page new_router (unfold bad_path in refl) empty)

abbrev me_request : Request
me_request = record {
  method = 1;
  method_string = codes "GET";
  target = codes "/user/me";
  version = 11;
  keep_alive = true;
  body = [];
  attributes = [];
  remote = [];
}

abbrev pages : List (Registration (Unit {0}))
pages = me_page ∷ user_page ∷ []

abbrev page_answer : Option (Reply (Unit {0}))
page_answer = handle_request (codes "1.0") two_pages (codes "::1") false me_request

abbrev FitsPage : Registration (Unit {0}) → Type 0
FitsPage =
    Fits number_of insertion_sort-Sorts pages two_pages (codes "1.0") (codes "::1") me_request

abbrev BestPage : Registration (Unit {0}) → Type 0
BestPage =
    Best number_of insertion_sort-Sorts pages two_pages (codes "1.0") (codes "::1") me_request

handle_request-registered_example :
    (((g : Registration (Unit {0})) → Memᴰ g pages → number_of g.verb ≢ 1)
      × (page_answer
          ≡ some (
              respond (
                bad_request
                  (codes "1.0")
                  (with_endpoint (codes "::1") me_request)
                  (codes "Not supported HTTP-method")))))
    ⊎ (((g : Registration (Unit {0})) × Memᴰ g pages × (number_of g.verb ≡ 1))
        × ((g : Registration (Unit {0})) → ¬ FitsPage g)
        × (page_answer
            ≡ some (respond (not_found (codes "1.0") (with_endpoint (codes "::1") me_request)))))
    ⊎ ∥ (
        (g : Registration (Unit {0})) × BestPage g
        × (page_answer
            ≡ serve (codes "1.0") two_pages (route_of g) (
                matched number_of insertion_sort-Sorts pages two_pages
                  (codes "1.0")
                  (codes "::1")
                  me_request
                  g))) ∥₁
handle_request-registered_example =
    handle_request-registered number_of insertion_sort-Sorts pages two_pages (codes "1.0")
      (codes "::1") me_request two_pages-Built
