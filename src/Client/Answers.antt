-- ===== src/Client/Answers.antt =====
-- src/client.cpp with src/session_client.hpp: a synchronous request from its URL to its response.
use beauty_cl.Prelude.{
  ℕ, ◌≡◌, refl, ◌∙◌, Bool, true, false, not, ◌&&◌, Option, none, some, arith, Bytes, ◌==◌,
  if◌then◌else◌,
}
use beauty_cl.Route.{ok}
use beauty_cl.Url.{Url, is_https, parse}
use beauty_cl.ClientSession.{
  ClientRequest, ClientSession, received, read_error, create_context, cancel_timer, fail,
  fail_first, do_write, release, take_first, take_response, push_request, do_resolve, on_resolve,
  on_connect, on_handshake, on_write, on_read, rearm, run_context, run,
}
use beauty_cl.ClientSession.Steps.{new_session, ended}
use beauty_cl.Client.{finish, send_request}

module _ {E R : Type 0} (has_openssl : Bool) (bad_address timed_out : E) (user_agent : Bytes)
    (set_host_name : Bytes → Option E) where
  -- The handlers of a session in turn; an exception ends the loop.
  abbrev then_do :
      (ClientSession E R → ClientSession E R × Option E)
      → ClientSession E R × Option E
      → ClientSession E R × Option E
  then_do f (s, none) = f (ended s)
  then_do f (s, some e) = (s, some e)

  -- A session that connects and writes, and then reads so.
  unfoldable pub loop_to :
      (ClientSession E R → ClientSession E R × Option E)
      → Bool
      → ClientSession E R
      → ClientSession E R × Option E
  loop_to last ssl s =
      let connected =
        then_do
          (λ t.
            on_connect ssl timed_out user_agent set_host_name none (record t { is_open = true }))
          (then_do (on_resolve ssl timed_out user_agent set_host_name none) (s, none)) in
      let shaken =
        if ssl
        then then_do (on_handshake ssl timed_out user_agent set_host_name none) connected
        else connected in
      then_do last (then_do (on_write ssl timed_out user_agent set_host_name none) shaken)

  answers :
      (ssl : Bool) (req : ClientRequest) (url : Url) (has_expiry : Bool) (r : R)
      → (if ssl then set_host_name url.host else none) ≡ none
      → finish has_openssl bad_address timed_out user_agent set_host_name
          (λ b. loop_to (on_read b timed_out user_agent set_host_name (received r)) b)
          ssl
          (run ssl timed_out user_agent set_host_name req url has_expiry false new_session)
        ≡ (none, some r)
  unfolding finish loop_to run run_context push_request create_context rearm do_resolve on_resolve
      on_connect on_handshake on_write on_read take_response take_first release cancel_timer
      do_write
  answers true req url has_expiry r h = ground arith
  answers false req url has_expiry r h = refl

  fails :
      (ssl : Bool) (req : ClientRequest) (url : Url) (has_expiry : Bool) (e : E)
      → (if ssl then set_host_name url.host else none) ≡ none
      → finish has_openssl bad_address timed_out user_agent set_host_name
          (λ b. loop_to (on_read b timed_out user_agent set_host_name (read_error e)) b)
          ssl
          (run ssl timed_out user_agent set_host_name req url has_expiry false new_session)
        ≡ (some e, none)
  unfolding finish loop_to run run_context push_request create_context rearm do_resolve on_resolve
      on_connect on_handshake on_write on_read fail_first fail do_write
  fails true req url has_expiry e h = ground arith
  fails false req url has_expiry e h = refl

  send_request_finishes :
      (loop : Bool → ClientSession E R → ClientSession E R × Option E) (req : ClientRequest) (d : ℕ)
      (url : Bytes) (u : Url)
      → parse url ≡ ok u
      → (is_https u && not has_openssl) ≡ false
      → send_request has_openssl bad_address timed_out user_agent set_host_name loop req d url
        ≡ finish has_openssl bad_address timed_out user_agent set_host_name loop (is_https u) (
            run
              (is_https u)
              timed_out
              user_agent
              set_host_name
              req
              u
              (not (d == 0))
              false
              new_session)
  unfolding send_request
  send_request_finishes loop req d url u p o = rw (p, send_request) (rw o refl)

  -- A synchronous request for a URL that is read, where OpenSSL and the name of its host are no obstacle
  -- and the session connects and writes: if the response is read, the result is that response and no
  -- error, and if the read fails, it is that error and no response.
  pub send_request-answers :
      (req : ClientRequest) (d : ℕ) (url : Bytes) (u : Url) (r : R) (e : E)
      → parse url ≡ ok u
      → (is_https u && not has_openssl) ≡ false
      → (if is_https u then set_host_name u.host else none) ≡ none
      → (send_request has_openssl bad_address timed_out user_agent set_host_name
            (λ b. loop_to (on_read b timed_out user_agent set_host_name (received r)) b)
            req
            d
            url
          ≡ (none, some r))
        × (send_request has_openssl bad_address timed_out user_agent set_host_name
              (λ b. loop_to (on_read b timed_out user_agent set_host_name (read_error e)) b)
              req
              d
              url
            ≡ (some e, none))
  send_request-answers req d url u r e p o h = (
    send_request_finishes _ req d url u p o ∙ answers (is_https u) req u (not (d == 0)) r h,
    send_request_finishes _ req d url u p o ∙ fails (is_https u) req u (not (d == 0)) e h,
  )
