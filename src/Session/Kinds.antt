-- ===== src/Session/Kinds.antt =====
-- include/beauty/session.hpp with include/beauty/route.hpp: the kind of the route that a request is given
-- to, and so the alternative of its variant.
use mathlib.Core.Option
use beauty_cl.Prelude.{
  ◌≡◌, inl, inr, refl, sym, ◌∙◌, subst, Bool, true, some, Bytes, if◌then◌else◌, Bool-cases,
  Option-cases,
}
use beauty_cl.Route.{Handler, route_cb, ws_handler, sse_handler, is_websocket, is_sse}
use beauty_cl.Route.Calls.{connect, receive, disconnect, sse_connect, sse_disconnect, sse_error}
use beauty_cl.Router.{Router, find}
use beauty_cl.Session.{
  Request, Callback, SharedMiddleware, HttpRoute, Reply, respond, websocket_session, sse_session,
  first_match, handle_request, serve,
}
use beauty_cl.Session.Dispatch.{first_match-found, first_match-none}
use beauty_cl.Session.Replies.{
  with_endpoint, handle_request_found, handle_request-unsupported, handle_request-not_found,
  serve_answers,
}

holds_websocket :
    {C : Type 0} (handler : Handler C)
    → is_websocket handler ≡ true
    → (h : C) × (handler ≡ ws_handler h)
holds_websocket (ws_handler h) e = (h, refl)
holds_websocket (route_cb h) e = absurd cc
holds_websocket (sse_handler h) e = absurd cc

holds_sse :
    {C : Type 0} (handler : Handler C) → is_sse handler ≡ true → (h : C) × (handler ≡ sse_handler h)
holds_sse (sse_handler h) e = (h, refl)
holds_sse (route_cb h) e = absurd cc
holds_sse (ws_handler h) e = absurd cc

module _ {J : Type 0} (S : Type 0) where
  -- Each call that the session of a reply makes of its route is one of the route's handler.
  abbrev pub Reaches : Reply J → Type 0
  Reaches (respond res) = Unit
  Reaches (websocket_session r matched) =
      (h : Callback) × (r.handler ≡ ws_handler h)
      × ((call : Callback → S → S) (s : S)
          → (connect call r s ≡ call h s)
            × (receive call r s ≡ call h s)
            × (disconnect call r s ≡ call h s))
  Reaches (sse_session r matched) =
      (h : Callback) × (r.handler ≡ sse_handler h)
      × ((call : Callback → S → S) (s : S)
          → (sse_connect call r s ≡ call h s)
            × (sse_disconnect call r s ≡ call h s)
            × (sse_error call r s ≡ call h s))

  websocket-Reaches :
      (r : HttpRoute J) (matched : Request)
      → is_websocket r.handler ≡ true
      → Reaches (websocket_session r matched)
  unfolding connect receive disconnect
  websocket-Reaches r matched e =
      let (h, same) = holds_websocket r.handler e in
      (h, same, λ call s. (rw same refl, rw same refl, rw same refl))

  sse-Reaches :
      (r : HttpRoute J) (matched : Request)
      → is_sse r.handler ≡ true
      → Reaches (sse_session r matched)
  unfolding sse_connect sse_disconnect sse_error
  sse-Reaches r matched e =
      let (h, same) = holds_sse r.handler e in
      (h, same, λ call s. (rw same refl, rw same refl, rw same refl))

  -- Where a request is handed to a WebSocket session or to a stream of events, the route holds a handler of that kind: each call that the session makes of the route is one
  -- of that handler, and none is dropped.
  pub handle_request-Reaches :
      (project_version : Bytes) (router : Router J Callback SharedMiddleware) (endpoint : Bytes)
      (websocket : Bool) (request : Request) (reply : Reply J)
      → handle_request project_version router endpoint websocket request ≡ some reply
      → Reaches reply
  handle_request-Reaches project_version router endpoint websocket request reply e =
      elim (Option-cases (find router request.method)) [
        | inl none_found ↦
            subst Reaches
              (reply_is (
                handle_request-unsupported project_version router endpoint websocket request
                  none_found))
              tt
        | inr (rs, found) ↦ elim (Option-cases (first_match rs req websocket)) [
          | inl n ↦
              subst Reaches
                (reply_is (
                  handle_request-not_found project_version router endpoint websocket request rs
                    found ((first_match-none req websocket rs).0 n)))
                tt
          | inr ((r, matched), f) ↦
              chosen r matched (first_match-found req websocket rs r matched f).2.0 (
                handle_request_found project_version router endpoint websocket request rs r matched
                  found f)
        ]
      ]
    where
      req : Request
      req = with_endpoint endpoint request

      reply_is :
          {other : Reply J}
          → handle_request project_version router endpoint websocket request ≡ some other
          → other ≡ reply
      reply_is h = Option.some-injective _ _ (sym h ∙ e)

      chosen :
          (r : HttpRoute J) (matched : Request)
          → websocket ≡ is_websocket r.handler
          → handle_request project_version router endpoint websocket request ≡ (
              if websocket
              then some (websocket_session r matched)
              else (if is_sse r.handler
                  then some (sse_session r matched)
                  else serve project_version router r matched))
          → Reaches reply
      chosen r matched kind h = elim (Bool-cases websocket) [
        | inl w ↦
            subst Reaches (reply_is {other = websocket_session r matched} (h ∙ rw w refl))
              (websocket-Reaches r matched (sym kind ∙ w))
        | inr w ↦ elim (Bool-cases (is_sse r.handler)) [
          | inl s ↦
              subst Reaches (reply_is {other = sse_session r matched} (h ∙ rw (w, s) refl))
                (sse-Reaches r matched s)
          | inr s ↦
              let (res, answers) = serve_answers project_version router r matched in
              subst Reaches (reply_is {other = respond res} (h ∙ rw (w, s) answers)) tt
        ]
      ]
