-- ===== src/Server.antt =====
-- The routes of src/server.cpp and include/beauty/server.hpp. The number of a verb is Boost's.
pub mod Registration
pub mod Registrations
pub mod Answering
pub mod Listening
pub mod Acceptors
pub mod Failures
pub mod Description
use beauty_cl.Prelude.{ℕ, List, [], ◌∷◌, ◌++◌, Bool, Bytes}
use beauty_cl.Swagger.{RouteInfo}
use beauty_cl.Route.{
  Route, Result, ok, runtime_error, result_map, route_cb, ws_handler, sse_handler, empty_info,
  route, route_with_info, use_middleware,
}
use beauty_cl.Router.{Router, add_route, use_router}

-- The verbs that a server has functions for.
pub data Verb : Type 0 where
  verb_get verb_put verb_post verb_patch verb_options verb_delete : Verb

-- `for (auto &fn : m) r.use(fn);`
unfoldable pub use_all : {J C M : Type 0} → List M → Route J C M → Route J C M
use_all [] r = r
use_all (fn ∷ fns) r = use_all fns (use_middleware fn r)

-- `server_route`, which collects middleware for a path.
pub record ServerRoute (M : Type 0) : Type 0 where
  pub path : Bytes
  pub middleware : List M

unfoldable pub use_server_route : {M : Type 0} → M → ServerRoute M → ServerRoute M
use_server_route fn s = record s { middleware = s.middleware ++ fn ∷ [] }

module _ {J C M : Type 0}
    (sort : (Route J C M → Route J C M → Bool) → List (Route J C M) → List (Route J C M))
    (verb_number : Verb → ℕ) where
  -- What the functions of the six verbs share; an exception leaves the router as it was.
  unfoldable pub register :
      Verb → Bytes → RouteInfo J → List M → C → Router J C M → Result (Router J C M)
  register v path info m cb router =
      result_map (λ r. add_route sort (verb_number v) (use_all m r) router)
        (route_with_info path info cb)

  unfoldable pub get : Bytes → RouteInfo J → List M → C → Router J C M → Result (Router J C M)
  get path info m cb router = register verb_get path info m cb router

  unfoldable pub put : Bytes → RouteInfo J → List M → C → Router J C M → Result (Router J C M)
  put path info m cb router = register verb_put path info m cb router

  unfoldable pub post : Bytes → RouteInfo J → List M → C → Router J C M → Result (Router J C M)
  post path info m cb router = register verb_post path info m cb router

  unfoldable pub patch : Bytes → RouteInfo J → List M → C → Router J C M → Result (Router J C M)
  patch path info m cb router = register verb_patch path info m cb router

  unfoldable pub options : Bytes → RouteInfo J → List M → C → Router J C M → Result (Router J C M)
  options path info m cb router = register verb_options path info m cb router

  unfoldable pub del : Bytes → RouteInfo J → List M → C → Router J C M → Result (Router J C M)
  del path info m cb router = register verb_delete path info m cb router

  -- The overloads without a `route_info`, without both, and without middleware.
  unfoldable pub with_middleware : Verb → Bytes → List M → C → Router J C M → Result (Router J C M)
  with_middleware v path m cb router = register v path (empty_info []) m cb router

  unfoldable pub with_callback : Verb → Bytes → C → Router J C M → Result (Router J C M)
  with_callback v path cb router = with_middleware v path [] cb router

  unfoldable pub with_info : Verb → Bytes → RouteInfo J → C → Router J C M → Result (Router J C M)
  with_info v path info cb router = register v path info [] cb router

  unfoldable pub ws : Bytes → C → Router J C M → Result (Router J C M)
  ws path handler router =
      result_map (λ r. add_route sort (verb_number verb_get) r router)
        (route path (ws_handler handler))

  unfoldable pub sse : Bytes → C → Router J C M → Result (Router J C M)
  sse path handler router =
      result_map (λ r. add_route sort (verb_number verb_get) r router)
        (route path (sse_handler handler))

  -- The functions of `server_route`, without and with a `route_info`.
  unfoldable pub server_route_callback :
      Verb → C → ServerRoute M → Router J C M → Result (Router J C M)
  server_route_callback v cb s router = with_middleware v s.path s.middleware cb router

  unfoldable pub server_route_info :
      Verb → RouteInfo J → C → ServerRoute M → Router J C M → Result (Router J C M)
  server_route_info v info cb s router = register v s.path info s.middleware cb router

  unfoldable pub server_route_ws : C → ServerRoute M → Router J C M → Result (Router J C M)
  server_route_ws handler s router = ws s.path handler router

  unfoldable pub server_route_sse : C → ServerRoute M → Router J C M → Result (Router J C M)
  server_route_sse handler s router = sse s.path handler router
