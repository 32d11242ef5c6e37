-- ===== src/Client/Requests.antt =====
-- src/client.cpp: what becomes of a request.
use beauty_cl.Prelude.{
  ℕ, suc, ◌≡◌, ◌↔◌, refl, ◌∙◌, Bool, true, false, not, ◌&&◌, Option, none, some, [], ◌∷◌, ◌++◌,
  arith, Bytes, is_empty, ◌==◌, if◌then◌else◌,
}
use beauty_cl.Route.{ok, runtime_error}
use beauty_cl.Url.{Url, url_path, is_https, parse}
use beauty_cl.ClientSession.{
  ClientRequest, RequestContext, ClientSession, held, create_context, call_back, fail, do_write,
  do_resolve, push_request, rearm, run_context, run,
}
use beauty_cl.Client.{
  Client, start_app, session_or_new, is_some, reset_sessions, keep_session, send_to,
  send_request_cb, ws, ws_connect, undefined,
}

module _ {E R : Type 0} (timed_out : E) (user_agent : Bytes)
    (set_host_name : Bytes → Option E) where
  fail_held :
      (i : ℕ) (e : E) (s : ClientSession E R) → (s.contexts i).cb ≡ held → (fail i e s).1 ≡ none
  unfolding fail
  fail_held i e s h = ground arith

  do_resolve_held :
      (ssl : Bool) (s : ClientSession E R) (i : ℕ)
      → s.requests ≡ i ∷ []
      → (s.contexts i).cb ≡ held
      → (do_resolve ssl timed_out user_agent set_host_name s).1 ≡ none
  unfolding do_resolve
  do_resolve_held ssl s i e h = grind (arith, fail_held)

  rearm-none :
      (ssl : Bool) (o : ClientSession E R × Option E)
      → o.1 ≡ none
      → (rearm ssl timed_out user_agent set_host_name o).1 ≡ none
  unfolding rearm
  rearm-none ssl (s, none) e = ground arith
  rearm-none ssl (s, some x) e = cc

  none_thrown :
      (ssl required : Bool) (s : ClientSession E R)
      → (required ≡ true → (do_resolve ssl timed_out user_agent set_host_name s).1 ≡ none)
      → (if required
          then rearm ssl timed_out user_agent set_host_name
              (do_resolve ssl timed_out user_agent set_host_name s)
          else rearm ssl timed_out user_agent set_host_name (s, none)).1
        ≡ none
  none_thrown ssl true s h = rearm-none ssl _ (h refl)
  none_thrown ssl false s h = rearm-none ssl (s, none) refl

  first_pushed :
      (s : ClientSession E R) (is_open : Bool)
      → (is_empty s.requests && not is_open) ≡ true
      → s.requests ++ s.created ∷ [] ≡ s.created ∷ []
  first_pushed s is_open h = ground arith

  pushed_held :
      (c : RequestContext) (s : ClientSession E R)
      → c.cb ≡ held
      → ((push_request c s).contexts s.created).cb ≡ held
  unfolding push_request
  pushed_held c s h = ground arith

  run_held :
      (ssl : Bool) (c : RequestContext) (s : ClientSession E R)
      → c.cb ≡ held
      → (run_context ssl timed_out user_agent set_host_name c s).1 ≡ none
  unfolding run_context
  run_held ssl c s h =
      none_thrown ssl (is_empty s.requests && not s.is_open) (push_request c s) (λ e.
        do_resolve_held ssl (push_request c s) s.created
          (unfold push_request in first_pushed s s.is_open e) (pushed_held c s h))

  run_cb_none :
      (ssl : Bool) (req : ClientRequest) (url : Url) (has_expiry : Bool) (s : ClientSession E R)
      → (run ssl timed_out user_agent set_host_name req url has_expiry true s).1 ≡ none
  unfolding run
  run_cb_none ssl req url has_expiry s =
      run_held ssl (create_context user_agent req url has_expiry true) s
        (unfold create_context in refl)

-- What is the same of a session but for operations, timers and calls.
module _ {E R : Type 0} (k : ℕ) where
  abbrev Same : ClientSession E R → ClientSession E R → Type 0
  Same s t =
      (t.created ≡ s.created)
      × (t.requests ≡ s.requests)
      × ((t.contexts k).request ≡ (s.contexts k).request)
      × ((t.contexts k).url ≡ (s.contexts k).url)

  fail-Same : (i : ℕ) (e : E) (s : ClientSession E R) → Same s (fail i e s).0
  unfolding fail call_back
  fail-Same i e s = ground arith

  do_write-Same : (s : ClientSession E R) → Same s (do_write s)
  unfolding do_write
  do_write-Same s = ground arith

  module _ (ssl : Bool) (timed_out : E) (user_agent : Bytes)
      (set_host_name : Bytes → Option E) where
    do_resolve-Same :
        (s : ClientSession E R) → Same s (do_resolve ssl timed_out user_agent set_host_name s).0
    unfolding do_resolve
    do_resolve-Same s = grind (arith, fail-Same)

    rearm-Same :
        (s : ClientSession E R) (o : ClientSession E R × Option E)
        → Same s o.0
        → Same s (rearm ssl timed_out user_agent set_host_name o).0
    unfolding rearm
    rearm-Same s (t, none) h = grind (arith, do_write-Same t)
    rearm-Same s (t, some e) h = h

    started-Same :
        (required : Bool) (s : ClientSession E R)
        → Same s
            (if required
              then rearm ssl timed_out user_agent set_host_name
                  (do_resolve ssl timed_out user_agent set_host_name s)
              else rearm ssl timed_out user_agent set_host_name (s, none)).0
    started-Same true s = rearm-Same s _ (do_resolve-Same s)
    started-Same false s = rearm-Same s (s, none) (refl, refl, refl, refl)

-- A request with what its context adds, for a URL.
abbrev pub completed : Bytes → Url → ClientRequest → ClientRequest
completed user_agent url req = record req {
  version = 11;
  target = url_path url ++ url.query;
  host = url.host;
  user_agent = user_agent;
}

module _ {E R : Type 0} (has_openssl : Bool) (bad_address timed_out : E) (user_agent : Bytes)
    (set_host_name : Bytes → Option E) where
  keep_none :
      (keep : ClientSession E R → Client E R) (c : Client E R) (o : ClientSession E R × Option E)
      → o.1 ≡ none
      → keep_session has_openssl bad_address timed_out user_agent set_host_name keep c o
        ≡ (keep o.0, none)
  unfolding keep_session
  keep_none keep c (s, none) e = refl
  keep_none keep c (s, some x) e = cc

  -- A session behind a new request, which is the last of its queue.
  abbrev pub Queued : ClientRequest → Url → ClientSession E R → ClientSession E R → Type 0
  Queued req url s t =
      (t.created ≡ suc s.created)
      × (t.requests ≡ s.requests ++ s.created ∷ [])
      × ((t.contexts s.created).request ≡ completed user_agent url req)
      × ((t.contexts s.created).url ≡ url)

  pushed-Queued :
      (req : ClientRequest) (url : Url) (has_expiry : Bool) (s : ClientSession E R)
      → Queued req url s (push_request (create_context user_agent req url has_expiry true) s)
  unfolding create_context push_request
  pushed-Queued req url has_expiry s = ground arith

  run-Queued :
      (ssl : Bool) (req : ClientRequest) (url : Url) (has_expiry : Bool) (s : ClientSession E R)
      → Queued req url s (run ssl timed_out user_agent set_host_name req url has_expiry true s).0
  unfolding run run_context
  run-Queued ssl req url has_expiry s =
      let pushed = push_request (create_context user_agent req url has_expiry true) s in
      let (n, q, r, u) = pushed-Queued req url has_expiry s in
      let (n', q', r', u') =
        started-Same s.created ssl timed_out user_agent set_host_name
          (is_empty s.requests && not s.is_open) pushed in
      (n' ∙ n, q' ∙ q, r' ∙ r, u' ∙ u)

  -- The session for a scheme, and the client that has another one for it.
  abbrev pub session_for : Bool → Client E R → ClientSession E R
  session_for true c = session_or_new c.session_https
  session_for false c = session_or_new c.session_http

  abbrev pub with_session : Bool → Client E R → ClientSession E R → Client E R
  with_session true c s = record c { session_https = some s }
  with_session false c s = record c { session_http = some s }

  send_to_scheme :
      (https : Bool) (req : ClientRequest) (d : ℕ) (url : Url) (c : Client E R)
      → is_https url ≡ https
      → (https && not has_openssl) ≡ false
      → send_to has_openssl bad_address timed_out user_agent set_host_name req d url c
        ≡ keep_session has_openssl bad_address timed_out user_agent set_host_name
            (with_session https c)
            c
            (run https timed_out user_agent set_host_name req url
              (not (d == 0))
              true
              (session_for https c))
  unfolding send_to
  send_to_scheme true req d url c e o = rw (e, has) refl
    where
      has : has_openssl ≡ true
      has = ground arith
  send_to_scheme false req d url c e o = rw e refl

  -- An asynchronous request for a URL that is read, and for which OpenSSL is not missing: the request
  -- waits, with its target and its headers, as the last one of the session for its scheme, which is made
  -- if there was none, whether or not the start of the session fails; nothing is thrown, and the rest of
  -- the client is as it was once the application is started.
  pub send_request_cb-queues :
      (req : ClientRequest) (d : ℕ) (url : Bytes) (u : Url) (c : Client E R)
      → parse url ≡ ok u
      → (is_https u && not has_openssl) ≡ false
      → (t : ClientSession E R) × Queued req u (session_for (is_https u) (start_app c)) t
        × (send_request_cb has_openssl bad_address timed_out user_agent set_host_name req d url c
            ≡ (with_session (is_https u) (start_app c) t, none))
  unfolding send_request_cb
  send_request_cb-queues req d url u c p o =
      let a = start_app c in
      let r =
        run (is_https u) timed_out user_agent set_host_name req u (not (d == 0)) true
          (session_for (is_https u) a) in
      (
        r.0,
        run-Queued (is_https u) req u (not (d == 0)) (session_for (is_https u) a),
        rw (p, send_request_cb)
            (send_to_scheme (is_https u) req d u a refl o
              ∙ keep_none (with_session (is_https u) a) a r (
                  run_cb_none timed_out user_agent set_host_name (is_https u) req u (not (d == 0))
                    (session_for (is_https u) a))),
      )

  -- An asynchronous request for a URL that is not read: the callback is called at once with the error for
  -- a bad address, and the sessions are reset.
  pub send_request_cb-bad :
      (req : ClientRequest) (d : ℕ) (url what : Bytes) (c : Client E R)
      → parse url ≡ runtime_error what
      → send_request_cb has_openssl bad_address timed_out user_agent set_host_name req d url c ≡ (
        reset_sessions has_openssl bad_address timed_out user_agent set_host_name (start_app c),
        some bad_address,
      )
  unfolding send_request_cb
  send_request_cb-bad req d url what c p = rw (p, send_request_cb) refl

  start_app_same :
      (c : Client E R)
      → ((start_app c).session_http ≡ c.session_http) × ((start_app c).websocket ≡ c.websocket)
  unfolding start_app
  start_app_same c = ground arith

  -- `ws` dereferences a null pointer exactly where the client has a session for HTTP requests and no
  -- client for WebSockets.
  pub ws-undefined_iff :
      (url : Bytes) (c : Client E R)
      → ((ws has_openssl bad_address timed_out user_agent set_host_name url c).1 ≡ undefined)
        ↔ ((is_some c.session_http && not (is_some c.websocket)) ≡ true)
  unfolding ws ws_connect
  ws-undefined_iff url c = ground (arith, start_app_same c)
