-- ===== src/Session/Replies.antt =====
-- include/beauty/session.hpp: the answer to a request.
use beauty_cl.Prelude.{
  ◌≡◌, refl, ap, ◌∙◌, Bool, false, none, some, List, [], ◌∷◌, ◌++◌, Bytes, codes, All,
  if◌then◌else◌,
}
use beauty_cl.Route.{is_sse}
use beauty_cl.Router.{Router, find}
use beauty_cl.Headers.{text_plain}
use beauty_cl.Middleware.{Chain, Outcome, completed, threw, run_chain}
use beauty_cl.Middleware.Order.{run_chain-InOrder}
use beauty_cl.Middleware.Onion.{Stage, from_stages, onion, run_chain-onion}
use beauty_cl.Session.{
  Request, Response, Exception, Shared, Callback, SharedMiddleware, HttpRoute, respond,
  websocket_session, sse_session, first_match, handle_request, serve, finish, http_exception,
  std_exception, create_response, server_error, execute, ok_response, not_found, bad_request,
}
use beauty_cl.Session.Dispatch.{Serves, first_match-none}

serve_finishes :
    {J : Type 0} (project_version : Bytes) (router : Router J Callback SharedMiddleware)
    (r : HttpRoute J) (matched : Request) (chain : Chain) (out : Outcome Shared Exception)
    → run_chain router.middleware r.middleware
        (execute r)
        (matched, ok_response project_version matched)
      ≡ some (chain, out)
    → serve project_version router r matched ≡ some (respond (finish project_version out))
unfolding serve
serve_finishes project_version router r matched chain out e = rw (e, serve) refl

pub serve_answers :
    {J : Type 0} (project_version : Bytes) (router : Router J Callback SharedMiddleware)
    (r : HttpRoute J) (matched : Request)
    → (res : Response) × (serve project_version router r matched ≡ some (respond res))
serve_answers project_version router r matched =
    let (chain, out, e, hi, order) =
      run_chain-InOrder router.middleware r.middleware (execute r)
        (matched, ok_response project_version matched) in
    (finish project_version out, serve_finishes project_version router r matched chain out e)

serve-onion :
    {J : Type 0} (project_version : Bytes) (router : Router J Callback SharedMiddleware)
    (r : HttpRoute J) (matched : Request) (global local : List (Shared → Stage Shared Exception))
    → router.middleware ≡ from_stages global
    → r.middleware ≡ from_stages local
    → serve project_version router r matched
      ≡ some (
          respond (
            finish project_version
              (onion (global ++ local) (execute r) (matched, ok_response project_version matched))))
serve-onion project_version router r matched global local g l =
    let x : Shared = (matched, ok_response project_version matched) in
    let (chain, e) = run_chain-onion global local (execute r) x in
    serve_finishes project_version router r matched chain (onion (global ++ local) (execute r) x) (
      ap (λ (ms : List SharedMiddleware). run_chain ms r.middleware (execute r) x) g
      ∙ ap (λ (ms : List SharedMiddleware). run_chain (from_stages global) ms (execute r) x) l
      ∙ e)

-- A text for a request.
abbrev pub IsText : Bytes → Request → Response → Type 0
IsText project_version req res =
    (res.content_type ≡ some text_plain)
    × (res.server ≡ some project_version)
    × (res.version ≡ req.version)
    × (res.keep_alive ≡ req.keep_alive)
    × (res.is_postponed ≡ false)

-- How a response answers what a chain has ended with.
abbrev pub Answers : Bytes → Outcome Shared Exception → Response → Type 0
Answers project_version (completed (req, res)) answer = answer ≡ res
Answers project_version (threw (http_exception code message) (req, res)) answer =
    (answer.status ≡ code) × (answer.body ≡ message) × IsText project_version req answer
Answers project_version (threw (std_exception what) (req, res)) answer =
    (answer.status ≡ 500)
    × (answer.body ≡ codes "An error occurred: '" ++ (what ++ codes "'"))
    × IsText project_version req answer

finish-Answers :
    (project_version : Bytes) (out : Outcome Shared Exception)
    → Answers project_version out (finish project_version out)
unfolding finish create_response server_error
finish-Answers project_version (completed (req, res)) = refl
finish-Answers project_version (threw (http_exception code []) (req, res)) =
    (refl, refl, (refl, refl, refl, refl, refl))
finish-Answers project_version (threw (http_exception code (c ∷ message)) (req, res)) =
    (refl, refl, (refl, refl, refl, refl, refl))
finish-Answers project_version (threw (std_exception what) (req, res)) =
    (refl, refl, (refl, refl, refl, refl, refl))

abbrev pub with_endpoint : Bytes → Request → Request
with_endpoint endpoint req = record req { remote = endpoint }

module _ {J : Type 0} (project_version : Bytes) (router : Router J Callback SharedMiddleware)
    (endpoint : Bytes) (websocket : Bool) (request : Request) where
  abbrev req : Request
  req = with_endpoint endpoint request

  -- A request of a verb with routes, none of which serves it, is answered by `not_found`.
  pub handle_request-not_found :
      (rs : List (HttpRoute J))
      → find router request.method ≡ some rs
      → All (λ r. ¬ Serves request websocket r) rs
      → handle_request project_version router endpoint websocket request
        ≡ some (respond (not_found project_version req))
  unfolding handle_request
  handle_request-not_found rs e h =
      rw (e, (first_match-none req websocket rs).1 h, handle_request) refl

  pub handle_request-unsupported :
      find router request.method ≡ none
      → handle_request project_version router endpoint websocket request
        ≡ some (respond (bad_request project_version req (codes "Not supported HTTP-method")))
  unfolding handle_request
  handle_request-unsupported e = rw (e, handle_request) refl

  pub handle_request_found :
      (rs : List (HttpRoute J)) (r : HttpRoute J) (matched : Request)
      → find router request.method ≡ some rs
      → first_match rs req websocket ≡ some (r, matched)
      → handle_request project_version router endpoint websocket request ≡ (
          if websocket
          then some (websocket_session r matched)
          else (if is_sse r.handler
              then some (sse_session r matched)
              else serve project_version router r matched))
  unfolding handle_request
  handle_request_found rs r matched e f = rw (e, f, handle_request) refl

  -- Where the middleware of the router and of the route that serves a plain HTTP request call `next` at
  -- most once, the request is answered as the callback inside them ends, which starts from an `ok`
  -- response: with its response where it completes, and where it throws with a plain text that has the
  -- status and the message of the HTTP exception, or 500 and the text of another exception.
  pub handle_request-onion :
      (rs : List (HttpRoute J)) (r : HttpRoute J) (matched : Request)
      (global local : List (Shared → Stage Shared Exception))
      → find router request.method ≡ some rs
      → first_match rs req websocket ≡ some (r, matched)
      → websocket ≡ false
      → is_sse r.handler ≡ false
      → router.middleware ≡ from_stages global
      → r.middleware ≡ from_stages local
      → (res : Response) × (handle_request project_version router endpoint websocket request
          ≡ some (respond res))
        × Answers project_version
            (onion (global ++ local) (execute r) (matched, ok_response project_version matched))
            res
  handle_request-onion rs r matched global local e f w s g l =
      let out =
        onion (global ++ local) (execute r) (matched, ok_response project_version matched) in
      (
        finish project_version out,
        handle_request_found rs r matched e f
            ∙ rw (w, s) (serve-onion project_version router r matched global local g l),
        finish-Answers project_version out,
      )
