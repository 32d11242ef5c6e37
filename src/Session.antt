-- ===== src/Session.antt =====
-- include/beauty/session.hpp, request.hpp, response.hpp and exception.hpp, src/exception.cpp, and the
-- responses of src/utils.cpp. `J` is the type of Boost's JSON objects.
pub mod Dispatch
pub mod Replies
pub mod Kinds
pub mod Connection
pub mod Errors
use beauty_cl.Prelude.{
  ℕ, Bool, true, false, not, Option, none, some, List, [], ◌∷◌, ◌++◌, Bytes, codes, is_empty,
  if◌then◌else◌,
}
use beauty_cl.Attributes.{Attributes}
use beauty_cl.Headers.{text_plain}
use beauty_cl.Route.{Handler, route_cb, Route, match, is_sse}
use beauty_cl.Router.{Router, find}
use beauty_cl.Middleware.{Outcome, completed, threw, Middleware, run_chain}

-- `remote` is the text of the endpoint.
pub record Request : Type 0 where
  pub method : ℕ
  pub method_string : Bytes
  pub target : Bytes
  pub version : ℕ
  pub keep_alive : Bool
  pub body : Bytes
  pub attributes : Attributes
  pub remote : Bytes

pub record Response : Type 0 where
  pub status : ℕ
  pub version : ℕ
  pub server : Option Bytes
  pub content_type : Option Bytes
  pub keep_alive : Bool
  pub body : Bytes
  pub is_postponed : Bool

-- `beauty::exception` with `_error_code` and `_message`, or another `std::exception` with its `what()`.
pub data Exception : Type 0 where
  http_exception : ℕ → Bytes → Exception
  std_exception : Bytes → Exception

-- A new response with a status and a version.
abbrev pub new_response : ℕ → ℕ → Response
new_response status version = record {
  status = status;
  version = version;
  server = none;
  content_type = none;
  keep_alive = true;
  body = [];
  is_postponed = false;
}

-- What the four functions share; `BEAUTY_PROJECT_VERSION` comes from the build.
abbrev text_response : Bytes → ℕ → Request → Bytes → Response
text_response project_version status req body = record (new_response status req.version) {
  server = some project_version;
  content_type = some text_plain;
  keep_alive = req.keep_alive;
  body = body;
}

module _ (project_version : Bytes) where
  unfoldable pub bad_request : Request → Bytes → Response
  bad_request req message = text_response project_version 400 req message

  unfoldable pub not_found : Request → Response
  not_found req = text_response project_version 404 req (
      codes "The resource ["
      ++ (req.method_string ++ (codes "] '" ++ (req.target ++ codes "' was not found."))))

  unfoldable pub server_error : Request → Bytes → Response
  server_error req message =
      text_response project_version 500 req (codes "An error occurred: '" ++ (message ++ codes "'"))

  -- The body is empty unless there is a message.
  unfoldable pub create_response : ℕ → Bytes → Request → Response
  create_response error_code message req =
      text_response project_version error_code req (if is_empty message then [] else message)

abbrev pub Shared : Type 0
Shared = Request × Response

abbrev pub Callback : Type 0
Callback = Shared → Outcome Shared Exception

abbrev pub SharedMiddleware : Type 0
SharedMiddleware = Middleware Shared Exception

abbrev pub HttpRoute : Type 0 → Type 0
HttpRoute J = Route J Callback SharedMiddleware

-- `route.execute`, which calls HTTP callbacks only.
unfoldable pub execute : {J : Type 0} → HttpRoute J → Callback
execute r shared = elim r.handler [ route_cb cb ↦ cb shared | _ ↦ completed shared ]

-- What becomes of a request: a response to write, or a session that takes over the socket.
pub data Reply (J : Type 0) : Type 0 where
  respond : Response → Reply J
  websocket_session sse_session : HttpRoute J → Request → Reply J

-- The first route of the loop that matches, with the request that it makes.
unfoldable pub first_match :
    {J : Type 0} → List (HttpRoute J) → Request → Bool → Option (HttpRoute J × Request)
first_match [] req websocket = none
first_match (r ∷ rs) req websocket =
    let m = match r req.target req.attributes websocket in
    let rest = first_match rs (record req { attributes = m.1 }) websocket in
    if m.0 then some (r, record req { attributes = m.1 }) else rest

-- `std::string("beauty-cl/") + BEAUTY_PROJECT_VERSION`, and the `keep_alive` of the request.
unfoldable pub ok_response : Bytes → Request → Response
ok_response project_version req = record (new_response 200 req.version) {
  server = some (codes "beauty-cl/" ++ project_version);
  keep_alive = req.keep_alive;
}

-- The `try` block and what it returns.
unfoldable pub finish : Bytes → Outcome Shared Exception → Response
finish project_version (completed (req, res)) = res
finish project_version (threw (http_exception code message) (req, res)) =
    create_response project_version code message req
finish project_version (threw (std_exception what) (req, res)) =
    server_error project_version req what

-- The chain of a matching route. No fuel left is `none`.
unfoldable pub serve :
    {J : Type 0}
    → Bytes
    → Router J Callback SharedMiddleware
    → HttpRoute J
    → Request
    → Option (Reply J)
serve project_version router r req =
    elim (run_chain router.middleware r.middleware (execute r)
      (req, ok_response project_version req)) [
        | none ↦ none
        | some (chain, out) ↦ some (respond (finish project_version out))
      ]

-- `handle_request`, where `websocket` says whether the request is an upgrade, and `endpoint` is what
-- `remote_endpoint()` returns: where it throws, the coroutine ends without an answer.
unfoldable pub handle_request :
    {J : Type 0}
    → Bytes
    → Router J Callback SharedMiddleware
    → Bytes
    → Bool
    → Request
    → Option (Reply J)
handle_request project_version router endpoint websocket request =
    let req = record request { remote = endpoint } in
    elim (find router req.method) [
      | none ↦ some (respond (bad_request project_version req (codes "Not supported HTTP-method")))
      | some routes ↦ elim (first_match routes req websocket) [
        | none ↦ some (respond (not_found project_version req))
        | some (r, matched) ↦
            if websocket
            then some (websocket_session r matched)
            else (if is_sse r.handler
                then some (sse_session r matched)
                else serve project_version router r matched)
      ]
    ]
