-- ===== src/Tests/Serving.antt =====
-- include/beauty/session.hpp at concrete inputs.
use beauty_cl.Prelude.{
  ◌++◌, Option, ℕ, ◌+◌, ◌≤◌, ◌≡◌, refl, true, false, some, List, [], ◌∷◌, Bytes, codes, length,
  bytes_eq,
}
use beauty_cl.Utils.Split.{split}
use beauty_cl.Swagger.{is_parameter}
use beauty_cl.Route.{route_cb, ws_handler, match, match_target, match_segments, empty_info}
use beauty_cl.Route.Matching.{match_iff, request_paths}
use beauty_cl.Router.{Router, find_verb, find}
use beauty_cl.Middleware.{
  Outcome, completed, threw, ends, awaits_next, Middleware, entered, executed, Chain, middleware_at,
  run, next, run_chain,
}
use beauty_cl.Middleware.Order.{InOrder, run_chain-InOrder}
use beauty_cl.Middleware.Onion.{Stage, forwards, from_stages, onion, run_chain-onion}
use beauty_cl.Middleware.Onion as Onion
use beauty_cl.Session.{
  Response, Shared, Exception, std_exception, Request, HttpRoute, SharedMiddleware, Callback, Reply,
  respond, websocket_session, first_match, handle_request, execute, ok_response, http_exception,
}
use beauty_cl.Session.Dispatch.{Serves}
use beauty_cl.Session.Connection.{
  Connection, new_connection, received, on_read, pending, answers, responses_in_order, starts,
  steps, reads,
}
use beauty_cl.Session.Kinds.{Reaches, handle_request-Reaches}
use beauty_cl.Session.Replies.{Answers, handle_request-onion}

-- A middleware that calls `next` twice, and one that does not call it.
abbrev twice : Middleware ℕ (Unit {0})
twice n = awaits_next n (λ a. awaits_next n (λ b. ends b))

abbrev stops : Middleware ℕ (Unit {0})
stops n = ends (completed n)

run_chain-InOrder_example :
    (chain : Chain) × (out : Outcome ℕ (Unit {0})) × (run_chain
        (twice ∷ [])
        (stops ∷ [])
        completed
        5
      ≡ some (chain, out))
    × (chain.i ≤ length (twice ∷ []) + length (stops ∷ []))
    × InOrder (length (twice ∷ []) + length (stops ∷ [])) chain
run_chain-InOrder_example = run_chain-InOrder (twice ∷ []) (stops ∷ []) completed 5

-- After a middleware that stops, the second call of `next` by the one before it runs the handler.
second_call :
    run_chain (twice ∷ []) (stops ∷ []) completed 5
    ≡ some
        (record { i = 2; last_i = 2; events = entered 0 ∷ entered 1 ∷ executed ∷ [] }, completed 5)
unfolding run_chain next run middleware_at
second_call = refl

abbrev adds : ℕ → Stage ℕ (Unit {0})
adds n = forwards (n + 1) (λ out. out)

run_chain-onion_example :
    (chain : Chain) × (run_chain (from_stages (adds ∷ [])) (from_stages (adds ∷ [])) completed 5
      ≡ some (chain, onion (adds ∷ adds ∷ []) completed 5))
run_chain-onion_example = run_chain-onion (adds ∷ []) (adds ∷ []) completed 5

abbrev request : Request
request = record {
  method = 1;
  method_string = codes "GET";
  target = codes "/user/me";
  version = 11;
  keep_alive = true;
  body = [];
  attributes = [];
  remote = [];
}

abbrev TestRoute : Type 0
TestRoute = HttpRoute (Unit {0})

-- The callback throws a `beauty::exception` of status 403.
abbrev test_route : List Bytes → TestRoute
test_route segments = record {
  path = [];
  segments = segments;
  handler = route_cb (λ shared. threw (http_exception 403 (codes "no")) shared);
  route_info = empty_info [];
  middleware = [];
}

abbrev me : TestRoute
me = test_route ([] ∷ codes "user" ∷ codes "me" ∷ [])

abbrev other : TestRoute
other = test_route ([] ∷ codes "other" ∷ codes "me" ∷ [])

abbrev user : TestRoute
user = test_route ([] ∷ codes "user" ∷ codes ":id" ∷ [])

abbrev router : List TestRoute → Router (Unit {0}) Callback SharedMiddleware
router rs = record { routes = (1, rs) ∷ []; middleware = [] }

me_segments : request_paths request.target ≡ [] ∷ codes "user" ∷ codes "me" ∷ []
unfolding split
me_segments = refl

found_me : first_match (me ∷ user ∷ []) request false ≡ some (me, request)
unfolding first_match match match_target match_segments split is_parameter bytes_eq
found_me = refl

no_match : (match other request.target [] false).0 ≡ false
unfolding match match_target match_segments split is_parameter bytes_eq
no_match = refl

not_other : ¬ Serves request false other
not_other h = let matched = (match_iff other request.target [] false).1 h in cc no_match

abbrev forwarded : Shared → Stage Shared Exception
forwarded shared = forwards shared (λ out. out)

abbrev refused : Shared → Stage Shared Exception
refused shared = Onion.answers (threw (std_exception (codes "refused")) shared)

abbrev guarded : TestRoute
guarded = record me { middleware = from_stages (refused ∷ []) }

found_guarded : first_match (guarded ∷ user ∷ []) request false ≡ some (guarded, request)
unfolding first_match match match_target match_segments split is_parameter bytes_eq
found_guarded = refl

handle_request-onion_example :
    (res : Response) × (handle_request
        (codes "1.0")
        (record (router (guarded ∷ user ∷ [])) { middleware = from_stages (forwarded ∷ []) })
        []
        false
        request
      ≡ some (respond res))
    × Answers
        (codes "1.0")
        (onion
          (forwarded ∷ refused ∷ [])
          (execute guarded)
          (request, ok_response (codes "1.0") request))
        res
handle_request-onion_example =
    handle_request-onion (codes "1.0")
      (record (router (guarded ∷ user ∷ [])) { middleware = from_stages (forwarded ∷ []) }) [] false
      request (guarded ∷ user ∷ []) guarded request (forwarded ∷ []) (refused ∷ [])
      (unfold find find_verb in refl) found_guarded refl refl refl refl

abbrev chat : TestRoute
chat = record me { handler = ws_handler (λ shared. completed shared) }

chat_session :
    handle_request (codes "1.0") (router (chat ∷ [])) [] true request
    ≡ some (websocket_session chat request)
unfolding handle_request find find_verb first_match match match_target match_segments split
    is_parameter bytes_eq
chat_session = refl

handle_request-Reaches_example : Reaches ℕ (websocket_session chat request)
handle_request-Reaches_example =
    handle_request-Reaches ℕ (codes "1.0") (router (chat ∷ [])) [] true request
      (websocket_session chat request) chat_session

abbrev handle_test : Request → Option (Reply (Unit {0}))
handle_test req = handle_request (codes "1.0") (router (me ∷ [])) [] false req

abbrev one_read : Connection
one_read = on_read false handle_test (λ res. false) (received request) (new_connection false)

responses_in_order_example :
    one_read.responses ++ pending false handle_test (λ res. false) one_read.phase
    ≡ answers false handle_test (λ res. false) one_read.requests
responses_in_order_example =
    responses_in_order false handle_test (λ res. false)
      (steps starts
        (reads {c = new_connection false} (received request) (unfold new_connection in refl)))
