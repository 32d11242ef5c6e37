-- ===== src/Tests/Exchanges.antt =====
-- A request of a client that a server answers.
use beauty_cl.Prelude.{
  ℕ, ◌≡◌, refl, ◌⊎◌, true, false, Bool, Option, none, some, [], ◌∷◌, Bytes, codes,
}
use beauty_cl.Server.{verb_get}
use beauty_cl.Url.{Url, url_path}
use beauty_cl.Session.{Request, Response, Reply, respond, ok_response}
use beauty_cl.Session.Connection
use beauty_cl.Session.Connection.{
  Connection, Phase, answer, deliver, write_response, new_connection, pending,
}
use beauty_cl.ClientSession.{
  ClientRequest, ClientSession, idle, create_context, port_or_default, call_back, cancel_timer,
  do_write, release, take_first, take_response, push_request, do_resolve, on_resolve, on_connect,
  on_write, on_read, rearm, run_context, run, received,
}
use beauty_cl.ClientSession.Steps
use beauty_cl.ClientSession.Steps.{new_session, worker, ended}
use beauty_cl.Exchange.{
  Exchange, client_moves, client_reconnects, client_has_written, client_reads, server_reads,
  server_has_written, new_exchange, Reachable, starts, steps,
}
use beauty_cl.Exchange.Client.{responses_to}
use beauty_cl.Exchange.Pairing.{responses_match}
use beauty_cl.Exchange.Responses.{Awaits}
use beauty_cl.Exchange.Rounds.{IsReady, waiting_answered}
use beauty_cl.ClientSession.Taken.{is_member}

abbrev page_url : Url
page_url = record {
  scheme = codes "http";
  login = [];
  password = [];
  host = codes "localhost";
  port_view = codes "8080";
  port = 8080;
  path = codes "/a";
  query = [];
}

abbrev page_request : ClientRequest
page_request = record {
  method = verb_get;
  version = 11;
  target = [];
  host = [];
  user_agent = [];
  body = [];
}

abbrev on_wire : ClientRequest → Request
on_wire req = record {
  method = 1;
  method_string = codes "GET";
  target = req.target;
  version = req.version;
  keep_alive = true;
  body = req.body;
  attributes = [];
  remote = [];
}

-- Each request is answered by its target.
abbrev echo : Request → Option (Reply (Unit {0}))
echo req = some (respond (record (ok_response (codes "1.0") req) { body = req.target }))

abbrev keeps_open : Response → Bool
keeps_open res = false

abbrev no_error : Bytes → Option ℕ
no_error host = none

abbrev Reached : Exchange ℕ → Type 0
Reached = Reachable false 110 (codes "beauty") no_error echo keeps_open on_wire

abbrev start : Exchange ℕ
start = new_exchange false 110 (codes "beauty") no_error echo keeps_open on_wire

abbrev connecting : ClientSession ℕ Response
connecting = worker (
    on_resolve false 110 (codes "beauty") no_error none (
      ended (
        worker
          (run false 110 (codes "beauty") no_error page_request page_url true true new_session))))

abbrev connected : Exchange ℕ
connected = record {
  client = worker (
      on_connect false 110 (codes "beauty") no_error none
        (record (ended connecting) { is_open = true }));
  connection = new_connection false;
  to_server = [];
  to_client = [];
}

connected-Reached : Reached connected
unfolding run run_context push_request create_context rearm do_resolve worker on_resolve on_connect
    do_write url_path
connected-Reached =
    steps
      (steps (steps starts (client_moves (Steps.runs page_request page_url true true) refl))
        (client_moves (Steps.resolves none page_url.host (port_or_default page_url) refl) refl))
      (client_reconnects (Steps.connects none true refl) refl)

abbrev requested : Exchange ℕ
requested = record connected {
  client = worker (on_write false 110 (codes "beauty") no_error none (ended connected.client));
  to_server = on_wire (connected.client.contexts 0).request ∷ [];
}

abbrev page : Response
page =
    let req = on_wire (connected.client.contexts 0).request in
    record (ok_response (codes "1.0") req) { body = req.target }

abbrev served : Exchange ℕ
served = record requested {
  connection = Connection.on_write false echo keeps_open false page (
      Connection.on_read false echo keeps_open
        (Connection.received (on_wire (connected.client.contexts 0).request))
        (new_connection false));
  to_server = [];
  to_client = page ∷ [];
}

abbrev answered : Exchange ℕ
answered = record served {
  client =
      worker (on_read false 110 (codes "beauty") no_error (received page) (ended served.client));
  to_client = [];
}

answered-Reached : Reached answered
unfolding run run_context push_request create_context rearm do_resolve worker on_resolve on_connect
    do_write url_path on_write on_read take_response take_first release call_back cancel_timer
    Connection.on_read Connection.on_write deliver write_response new_connection ok_response
answered-Reached =
    steps
      (steps
        (steps (steps connected-Reached (client_has_written 0 refl))
          (server_reads (on_wire (connected.client.contexts 0).request) [] refl refl))
        (server_has_written page refl))
      (client_reads 0 page [] refl refl)

responses_match_example :
    (responses_to 0 answered.client.calls ≡ [])
    ⊎ (responses_to 0 answered.client.calls
        ≡ answer (echo (on_wire (answered.client.contexts 0).request)))
responses_match_example =
    responses_match false 110 (codes "beauty") no_error echo keeps_open on_wire answered-Reached 0

-- The callback of the request was called with the page.
answered-responses : responses_to 0 answered.client.calls ≡ page ∷ []
unfolding run run_context push_request create_context rearm do_resolve worker on_resolve on_connect
    do_write url_path on_write on_read take_response take_first release call_back cancel_timer
    responses_to
answered-responses = refl

abbrev page_of : Request → Response
page_of req = record (ok_response (codes "1.0") req) { body = req.target }

waiting_answered_example :
    (y : Exchange ℕ) × Reached y
    × (y.client.requests ≡ [])
    × (y.client.operation ≡ idle)
    × IsReady false 110
        (codes "beauty")
        no_error
        echo
        keeps_open
        on_wire
        page_of
        (λ req. refl)
        (λ res. refl)
        y
    × ((k : ℕ)
        → is_member k connected.client.requests ≡ true
        → Awaits (connected.client.contexts k)
        → responses_to k y.client.calls
          ≡ page_of (on_wire (connected.client.contexts k).request) ∷ [])
unfolding run run_context push_request create_context rearm do_resolve worker on_resolve on_connect
    do_write url_path new_connection
waiting_answered_example =
    waiting_answered false 110 (codes "beauty") no_error echo keeps_open on_wire page_of
      (λ req. refl) (λ res. refl) [] connected 0 connected-Reached refl refl (refl, refl, refl)
