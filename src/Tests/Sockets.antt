-- ===== src/Tests/Sockets.antt =====
-- include/beauty/websocket_session.hpp and include/beauty/websocket_client.hpp at concrete inputs.
use beauty_cl.Prelude.{ℕ, ◌+◌, ◌≤◌, ◌≡◌, refl, true, none, some, [], ◌∷◌, codes, if◌then◌else◌}
use beauty_cl.Url.{Url}
use beauty_cl.WebSocket.{
  WebSocketSession, WebSocketClient, ReadResult, closed, message, connected, disconnected, received,
  run_session, on_accept, session_on_read, destroy, websocket_client, run, on_resolve, on_connect,
  on_handshake, client_on_read, fail,
}
use beauty_cl.WebSocket.Session as Session
use beauty_cl.WebSocket.Session.{Told, handler_in_order}
use beauty_cl.WebSocket.Client as Client
use beauty_cl.WebSocket.Client.{connections, disconnections, in_handshake, handler_balanced}

abbrev chat_message : ReadResult ℕ
chat_message = message (codes "hello") true

abbrev ended_session : WebSocketSession ℕ
ended_session =
    destroy (session_on_read closed (session_on_read chat_message (on_accept none run_session)))

ended_session-Reachable : Session.Reachable ended_session
unfolding run_session on_accept session_on_read
ended_session-Reachable =
    Session.steps
      (Session.steps
        (Session.steps (Session.steps Session.starts (Session.accepts none refl))
          (Session.reads chat_message refl))
        (Session.reads closed refl))
      (Session.destroys refl refl refl)

handler_in_order_example : Told ended_session.has_uuid ended_session.is_alive ended_session.events
handler_in_order_example = handler_in_order ended_session-Reachable

-- The calls of the handler of the session.
ended_session-events :
    ended_session.events ≡ connected ∷ received (codes "hello") true ∷ disconnected ∷ []
unfolding run_session on_accept session_on_read destroy
ended_session-events = refl

abbrev chat_url : Url
chat_url = record {
  scheme = codes "ws";
  login = [];
  password = [];
  host = codes "localhost";
  port_view = [];
  port = 0;
  path = codes "/chat";
  query = [];
}

abbrev shaking : WebSocketClient ℕ
shaking = on_connect none (on_resolve none (run (websocket_client chat_url)))

shaking-Reachable : Client.Reachable (websocket_client chat_url) shaking
unfolding websocket_client run on_resolve
shaking-Reachable =
    Client.next
      (Client.next (Client.next Client.here (Client.runs refl)) (Client.resolves none refl))
      (Client.connects none refl)

handler_balanced_example :
    (disconnections shaking.events + (if shaking.has_uuid then 1 else 0) ≤ shaking.joined)
    × (connections shaking.events + in_handshake shaking.phase ≤ shaking.joined)
handler_balanced_example = handler_balanced chat_url shaking-Reachable

-- A client whose handshake fails is told of the end of a connection of which it was not told.
failed_handshake-events :
    let c = on_handshake (some 104) shaking in
    (disconnections c.events ≡ 1) × (connections c.events ≡ 0)
unfolding websocket_client run on_resolve on_connect on_handshake fail disconnections connections
failed_handshake-events = (refl, refl)

-- A client that the other side closes is not told of the end.
closed-events :
    let c = client_on_read closed (on_handshake none shaking) in
    (connections c.events ≡ 1) × (disconnections c.events ≡ 0)
unfolding websocket_client run on_resolve on_connect on_handshake client_on_read disconnections
    connections
closed-events = (refl, refl)
