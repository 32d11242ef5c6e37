-- ===== src/Client.antt =====
-- src/client.cpp and include/beauty/client.hpp. A callback is that it was given, and what it was called
-- with outside of a session is the result. A duration is a number, of milliseconds where the code says.
pub mod Requests
pub mod Verbs
pub mod Answers
use beauty_cl.Prelude.{
  ℕ, Bool, true, false, not, ◌&&◌, Option, none, some, List, [], ◌∷◌, ◌++◌, Bytes, ◌==◌,
  if◌then◌else◌, pos,
}
use beauty_cl.Route.{ok, runtime_error}
use beauty_cl.Server.{Verb, verb_get, verb_put, verb_post, verb_patch, verb_delete}
use beauty_cl.Url.{Url, is_https, parse}
use beauty_cl.Application.{Application, is_started, start}
use beauty_cl.ClientSession.{ClientRequest, ClientSession, run}
use beauty_cl.ClientSession.Steps.{new_session}
use beauty_cl.WebSocket.{WebSocketClient, websocket_client}
use beauty_cl.WebSocket as WebSocket
use beauty_cl.WriteQueue as WriteQueue

pub record Client (E R : Type 0) : Type 0 where
  pub app : Application
  pub session_http : Option (ClientSession E R)
  pub session_https : Option (ClientSession E R)
  pub websocket : Option (WebSocketClient E)

abbrev pub is_some : {A : Type 0} → Option A → Bool
is_some none = false
is_some (some a) = true

-- `if (!_app.is_started()) _app.start();`.
unfoldable pub start_app : {E R : Type 0} → Client E R → Client E R
start_app c = if is_started c.app then c else record c { app = start (pos 1) c.app }

-- A request that is to be completed by its context.
unfoldable pub request_of : Verb → Bytes → ClientRequest
request_of verb body = record {
  method = verb;
  version = 11;
  target = [];
  host = [];
  user_agent = [];
  body = body;
}

-- The session that there is, or a new one.
unfoldable pub session_or_new : {E R : Type 0} → Option (ClientSession E R) → ClientSession E R
session_or_new none = new_session
session_or_new (some s) = s

-- How `ws` ends: `undefined` where it dereferences a null pointer.
pub data WsResult (E : Type 0) : Type 0 where
  connecting undefined : WsResult E
  handler_error : E → Bytes → WsResult E

-- `bad_address` is the error of that name, `has_openssl` whether the library was built with OpenSSL; the
-- others are those of a session.
module _ {E R : Type 0} (has_openssl : Bool) (bad_address timed_out : E) (user_agent : Bytes)
    (set_host_name : Bytes → Option E) where
  -- The sessions are reset after an exception.
  unfoldable pub reset_sessions : Client E R → Client E R
  reset_sessions c = record c { session_http = none; session_https = none }

  -- A session that threw nothing is kept.
  unfoldable pub keep_session :
      (ClientSession E R → Client E R)
      → Client E R
      → ClientSession E R × Option E
      → Client E R × Option E
  keep_session keep c (s, none) = (keep s, none)
  keep_session keep c (s, some e) = (reset_sessions c, some e)

  -- The asynchronous `send_request` with a URL that was read; the result is the error of the callback.
  unfoldable pub send_to : ClientRequest → ℕ → Url → Client E R → Client E R × Option E
  send_to req d url c =
      if is_https url
      then (if has_openssl
          then keep_session (λ s. record c { session_https = some s }) c
              (run true timed_out user_agent set_host_name req url (not (d == 0)) true
                (session_or_new c.session_https))
          else (reset_sessions c, some bad_address))
      else keep_session (λ s. record c { session_http = some s }) c
          (run false timed_out user_agent set_host_name req url (not (d == 0)) true
            (session_or_new c.session_http))

  unfoldable pub send_request_cb : ClientRequest → ℕ → Bytes → Client E R → Client E R × Option E
  send_request_cb req d url c = elim (parse url) [
    | runtime_error what ↦ (reset_sessions (start_app c), some bad_address)
    | ok u ↦ send_to req d u (start_app c)
  ]

  -- The verbs, asynchronous and with a duration.
  unfoldable pub get_before_cb : ℕ → Bytes → Client E R → Client E R × Option E
  get_before_cb d url c = send_request_cb (request_of verb_get []) d url c

  unfoldable pub del_before_cb : ℕ → Bytes → Bytes → Client E R → Client E R × Option E
  del_before_cb d url body c = send_request_cb (request_of verb_delete body) d url c

  unfoldable pub post_before_cb : ℕ → Bytes → Bytes → Client E R → Client E R × Option E
  post_before_cb d url body c = send_request_cb (request_of verb_post body) d url c

  unfoldable pub patch_before_cb : ℕ → Bytes → Bytes → Client E R → Client E R × Option E
  patch_before_cb d url body c = send_request_cb (request_of verb_patch body) d url c

  unfoldable pub put_before_cb : ℕ → Bytes → Bytes → Client E R → Client E R × Option E
  put_before_cb d url body c = send_request_cb (request_of verb_put body) d url c

  -- `ws`. The pointer is tested by `ws_connect` in no way.
  unfoldable pub ws_connect : Client E R → Client E R × WsResult E
  ws_connect c = elim c.websocket [
    | none ↦ (c, undefined)
    | some w ↦ (record c { websocket = some (WebSocket.run w) }, connecting)
  ]

  unfoldable pub ws : Bytes → Client E R → Client E R × WsResult E
  ws url c =
      let a = start_app c in
      if is_some a.session_http then ws_connect a else elim (parse url) [
        | runtime_error what ↦ (record a { websocket = none }, handler_error bad_address what)
        | ok u ↦ ws_connect (record a { websocket = some (websocket_client u) })
      ]

  unfoldable pub ws_send : Bytes → Client E R → Client E R
  ws_send text c = elim c.websocket [
    | none ↦ c
    | some w ↦ record c {
      websocket = some (WebSocket.send (record { buffer = text; binary_mode = false }) w);
    }
  ]

  -- The synchronous `send_request`: `loop` runs the session's handlers until none is to come, or until
  -- one throws. The result is the error and the response.
  module _ (loop : Bool → ClientSession E R → ClientSession E R × Option E) where
    unfoldable pub finish : Bool → ClientSession E R × Option E → Option E × Option R
    finish ssl (s, some e) = (some e, none)
    finish ssl (s, none) = elim (loop ssl s).1 [
      | some e ↦ (some e, none)
      | none ↦ (none, (loop ssl s).0.response)
    ]

    unfoldable pub send_request : ClientRequest → ℕ → Bytes → Option E × Option R
    send_request req d url = elim (parse url) [
      | runtime_error what ↦ (some bad_address, none)
      | ok u ↦
          if is_https u && not has_openssl
          then (some bad_address, none)
          else finish (is_https u) (
              run (is_https u) timed_out user_agent set_host_name req u (not (d == 0)) false
                new_session)
    ]

    -- The verbs, synchronous and with a duration.
    unfoldable pub get_before : ℕ → Bytes → Option E × Option R
    get_before d url = send_request (request_of verb_get []) d url

    unfoldable pub del_before : ℕ → Bytes → Bytes → Option E × Option R
    del_before d url body = send_request (request_of verb_delete body) d url

    unfoldable pub post_before : ℕ → Bytes → Bytes → Option E × Option R
    post_before d url body = send_request (request_of verb_post body) d url

    unfoldable pub patch_before : ℕ → Bytes → Bytes → Option E × Option R
    patch_before d url body = send_request (request_of verb_patch body) d url

    unfoldable pub put_before : ℕ → Bytes → Bytes → Option E × Option R
    put_before d url body = send_request (request_of verb_put body) d url
