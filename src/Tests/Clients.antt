-- ===== src/Tests/Clients.antt =====
-- A client's session with two requests, of which the first is being written.
use beauty_cl.Prelude.{
  ℕ, sym, ◌∙◌, ◌≡◌, ◌≢◌, ◌↔◌, not, ◌&&◌, refl, true, false, Option, none, some, [], ◌∷◌, ◌++◌,
  Bytes, codes, bytes_eq,
}
use beauty_cl.Server.{verb_get}
use beauty_cl.Route.{ok}
use beauty_cl.Url as Url
use beauty_cl.Url.{Url, url_path, is_http, is_https, parse}
use beauty_cl.Application.{new_application}
use beauty_cl.Client.{
  Client, start_app, is_some, reset_sessions, send_request_cb, send_request, ws, undefined,
}
use beauty_cl.Client.Requests.{
  Queued, session_for, with_session, send_request_cb-queues, send_request_cb-bad, ws-undefined_iff,
}
use beauty_cl.Client.Answers.{loop_to, send_request-answers}
use beauty_cl.ClientSession.{
  ClientRequest, ClientSession, received, read_error, responded, idle, writing, create_context,
  port_or_default, call_back, cancel_timer, do_write, release, take_first, take_response,
  push_request, do_resolve, on_resolve, on_connect, on_write, on_read, rearm, run_context, run,
}
use beauty_cl.ClientSession.Steps.{
  new_session, runs, resolves, connects, Reachable, starts, steps, worker, ended,
}
use beauty_cl.ClientSession.Order.{Needs, first_ids, queue_in_order}
use beauty_cl.ClientSession.Failures.{IsHeldUp, fail_operation, failure_is_final}
use beauty_cl.ClientSession.Rounds.{rounds, rounds_answer_all}

abbrev local_url : Url
local_url = record {
  scheme = codes "http";
  login = [];
  password = [];
  host = codes "localhost";
  port_view = codes "8080";
  port = 8080;
  path = codes "/a";
  query = [];
}

abbrev get_request : ClientRequest
get_request = record {
  method = verb_get;
  version = 11;
  target = [];
  host = [];
  user_agent = [];
  body = [];
}

abbrev agent : Bytes
agent = codes "beauty"

abbrev no_host_error : Bytes → Option ℕ
no_host_error host = none

abbrev asked : ClientSession ℕ ℕ → ClientSession ℕ ℕ
asked s = worker (run false 110 agent no_host_error get_request local_url true true s)

abbrev two_waiting : ClientSession ℕ ℕ
two_waiting = asked (
    worker (
      on_connect false 110 agent no_host_error none
        (record (ended
          (worker (on_resolve false 110 agent no_host_error none (ended (asked new_session))))) {
            is_open = true;
          })))

two_waiting-Reachable : Reachable false 110 agent no_host_error new_session two_waiting
unfolding run run_context push_request create_context rearm do_resolve worker on_resolve on_connect
    do_write url_path
two_waiting-Reachable =
    steps
      (steps
        (steps (steps starts (runs get_request local_url true true))
          (resolves none local_url.host (port_or_default local_url) refl))
        (connects none true refl))
      (runs get_request local_url true true)

two_waiting-writing : two_waiting.operation ≡ writing 0
unfolding run run_context push_request create_context rearm do_resolve worker on_resolve on_connect
    do_write url_path
two_waiting-writing = refl

two_waiting-requests : two_waiting.requests ≡ 0 ∷ 1 ∷ []
unfolding run run_context push_request create_context rearm do_resolve worker on_resolve on_connect
    do_write url_path
two_waiting-requests = refl

queue_in_order_example :
    (two_waiting.answered ++ two_waiting.requests ≡ first_ids two_waiting.created)
    × Needs two_waiting.operation two_waiting.pending_request two_waiting.requests
queue_in_order_example = queue_in_order false 110 agent no_host_error two_waiting-Reachable

rounds_answer_all_example :
    let t = rounds false 110 agent no_host_error (5 ∷ 6 ∷ []) two_waiting in
    Reachable false 110 agent no_host_error new_session t
    × (t.answered ≡ two_waiting.answered ++ two_waiting.requests)
    × (t.requests ≡ [])
    × (t.pending_request ≡ false)
    × (t.operation ≡ idle)
rounds_answer_all_example =
    rounds_answer_all false 110 agent no_host_error 5 (6 ∷ []) 0 (1 ∷ []) two_waiting-Reachable
      two_waiting-writing two_waiting-requests refl

abbrev both_answered : ClientSession ℕ ℕ
both_answered = rounds false 110 agent no_host_error (5 ∷ 6 ∷ []) two_waiting

-- The two requests were called back with their responses.
both_answered-calls : both_answered.calls ≡ (0, responded 5) ∷ (1, responded 6) ∷ []
unfolding rounds run run_context push_request create_context rearm do_resolve worker on_resolve
    on_connect on_write on_read take_response take_first release call_back cancel_timer do_write
    url_path
both_answered-calls = refl

not_writing : {i : ℕ} → writing i ≢ idle
not_writing e = cc

failure_is_final_example : IsHeldUp two_waiting (
    worker (
      fail_operation false 110 agent no_host_error two_waiting.operation true 104
        (ended two_waiting)))
failure_is_final_example =
    failure_is_final false 110 agent no_host_error true 104 two_waiting-Reachable
      (λ e. not_writing (sym two_waiting-writing ∙ e)) starts

-- A client without sessions.
abbrev client : Client ℕ ℕ
client = record {
  app = new_application true false;
  session_http = none;
  session_https = none;
  websocket = none;
}

abbrev ok_code : ℕ
ok_code = 200

abbrev reset_code : ℕ
reset_code = 104

local_text : Bytes
local_text = codes "http://localhost:8080/a"

local_text-parse : parse local_text ≡ ok local_url
unfolding Url.runs local_text
local_text-parse = refl

local_url-http : (is_https local_url && not true) ≡ false
unfolding is_https bytes_eq
local_url-http = refl

send_request_cb-queues_example :
    (t : ClientSession ℕ ℕ) × Queued true 14 110 agent no_host_error get_request local_url
      (session_for true 14 110 agent no_host_error (is_https local_url) (start_app client))
      t
    × (send_request_cb true 14 110 agent no_host_error get_request 0 local_text client ≡ (
      with_session true 14 110 agent no_host_error (is_https local_url) (start_app client) t,
      none,
    ))
send_request_cb-queues_example =
    send_request_cb-queues true 14 110 agent no_host_error get_request 0 local_text local_url client
      local_text-parse local_url-http

send_request_cb-bad_example :
    send_request_cb true 14 110 agent no_host_error get_request 0 (codes "nowhere") client
    ≡ (reset_sessions true 14 110 agent no_host_error (start_app client), some 14)
send_request_cb-bad_example =
    send_request_cb-bad true 14 110 agent no_host_error get_request 0 (codes "nowhere")
      (codes "Invalid URL format for [nowhere]") client (unfold Url.runs in refl)

ws-undefined_iff_example :
    ((ws true 14 110 agent no_host_error local_text
        (record client { session_http = some new_session })).1
      ≡ undefined)
    ↔ ((is_some (some (new_session {E = ℕ} {R = ℕ})) && not (is_some client.websocket)) ≡ true)
ws-undefined_iff_example =
    ws-undefined_iff true 14 110 agent no_host_error local_text
      (record client { session_http = some new_session })

send_request-answers_example :
    (send_request true 14 110 agent no_host_error
        (λ b.
          loop_to true 14 110 agent no_host_error
            (on_read b 110 agent no_host_error (received ok_code))
            b)
        get_request
        0
        local_text
      ≡ (none, some ok_code))
    × (send_request {R = ℕ} true 14 110 agent no_host_error
          (λ b.
            loop_to true 14 110 agent no_host_error
              (on_read b 110 agent no_host_error (read_error reset_code))
              b)
          get_request
          0
          local_text
        ≡ (some reset_code, none))
send_request-answers_example =
    send_request-answers true 14 110 agent no_host_error get_request 0 local_text local_url ok_code
      reset_code local_text-parse local_url-http (unfold is_https bytes_eq in refl)
