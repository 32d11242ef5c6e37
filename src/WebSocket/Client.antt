-- ===== src/WebSocket/Client.antt =====
-- include/beauty/websocket_client.hpp: how often the handler of a client is called.
use beauty_cl.Prelude.{
  ℕ, suc, ◌+◌, ◌≤◌, ◌≡◌, true, Option, none, some, List, [], ◌∷◌, ◌++◌, arith, Bytes, if◌then◌else◌,
}
use beauty_cl.Url.{Url}
use beauty_cl.WriteQueue as WriteQueue
use beauty_cl.WebSocket.{
  Event, connected, disconnected, received, ReadResult, closed, read_error, message, ClientPhase,
  stopped, resolving, connecting, handshaking, WebSocketClient, websocket_client, run, fail,
  on_resolve, on_connect, on_handshake, client_on_read, client_on_write, send,
}
use beauty_cl.WebSocket as WebSocket

-- A handshake that is under way is for a uuid that was not connected before.
abbrev pub in_handshake : ClientPhase → ℕ
in_handshake handshaking = 1
in_handshake _ = 0

module _ {E : Type 0} where
  -- What can happen to a client. It is run when nothing else is under way.
  pub data Step (c : WebSocketClient E) : WebSocketClient E → Type 0 where
    runs : c.phase ≡ stopped → Step c (run c)
    resolves : (ec : Option E) → c.phase ≡ resolving → Step c (on_resolve ec c)
    connects : (ec : Option E) → c.phase ≡ connecting → Step c (on_connect ec c)
    handshakes : (ec : Option E) → c.phase ≡ handshaking → Step c (on_handshake ec c)
    reads : (r : ReadResult E) → c.phase ≡ ClientPhase.reading → Step c (client_on_read r c)
    sends : (msg : WriteQueue.Message) → Step c (send msg c)
    writes : (ec : Option E) → c.socket.is_writing ≡ true → Step c (client_on_write ec c)

  pub data Reachable (c : WebSocketClient E) : WebSocketClient E → Type 0 where
    here : Reachable c c
    next : {d e : WebSocketClient E} → Reachable c d → Step d e → Reachable c e

  -- How many calls of the handler are for a connection, for the end of one, and for an error.
  unfoldable pub connections : List (Event E) → ℕ
  connections [] = 0
  connections (connected ∷ events) = suc (connections events)
  connections (event ∷ events) = connections events

  unfoldable pub disconnections : List (Event E) → ℕ
  disconnections [] = 0
  disconnections (disconnected ∷ events) = suc (disconnections events)
  disconnections (event ∷ events) = disconnections events

  connections-append :
      (events later : List (Event E))
      → connections (events ++ later) ≡ connections events + connections later
  unfolding connections
  connections-append [] later = omega arith
  connections-append (connected ∷ events) later = omega (arith, connections-append events later)
  connections-append (disconnected ∷ events) later = connections-append events later
  connections-append (received t b ∷ events) later = connections-append events later
  connections-append (WebSocket.error e what ∷ events) later = connections-append events later

  disconnections-append :
      (events later : List (Event E))
      → disconnections (events ++ later) ≡ disconnections events + disconnections later
  unfolding disconnections
  disconnections-append [] later = omega arith
  disconnections-append (disconnected ∷ events) later =
      omega (arith, disconnections-append events later)
  disconnections-append (connected ∷ events) later = disconnections-append events later
  disconnections-append (received t b ∷ events) later = disconnections-append events later
  disconnections-append (WebSocket.error e what ∷ events) later = disconnections-append events later

  abbrev Inv : WebSocketClient E → Type 0
  Inv c =
      (disconnections c.events + (if c.has_uuid then 1 else 0) ≤ c.joined)
      × (connections c.events + in_handshake c.phase ≤ c.joined)

  fail-Inv : (e : E) (what : Bytes) (c : WebSocketClient E) → Inv c → Inv (fail e what c)
  unfolding fail connections disconnections
  fail-Inv e what c h = grind (arith, connections-append, disconnections-append)

  Step-Inv : {c d : WebSocketClient E} → Step c d → Inv c → Inv d
  unfolding run on_resolve on_connect on_handshake client_on_read client_on_write send connections
      disconnections
  Step-Inv {c} (runs p) h = ground arith
  Step-Inv {c} (resolves none p) h = ground arith
  Step-Inv {c} (resolves (some e) p) h = fail-Inv e _ (record c { phase = stopped }) (ground arith)
  Step-Inv {c} (connects none p) h = ground arith
  Step-Inv {c} (connects (some e) p) h = fail-Inv e _ (record c { phase = stopped }) (ground arith)
  Step-Inv {c} (handshakes none p) h = grind (arith, connections-append, disconnections-append)
  Step-Inv {c} (handshakes (some e) p) h =
      fail-Inv e _ (record c { phase = stopped }) (ground arith)
  Step-Inv {c} (reads closed p) h = ground arith
  Step-Inv {c} (reads (read_error e) p) h =
      fail-Inv e _ (record c { phase = stopped }) (ground arith)
  Step-Inv {c} (reads (message text is_text) p) h =
      grind (arith, connections-append, disconnections-append)
  Step-Inv {c} (sends msg) h = h
  Step-Inv {c} (writes none w) h = h
  Step-Inv {c} (writes (some e) w) h =
      fail-Inv e _ (record c { socket = WriteQueue.on_write true c.socket }) h

  Reachable-Inv : (url : Url) {c : WebSocketClient E} → Reachable (websocket_client url) c → Inv c
  Reachable-Inv url here =
      unfold websocket_client connections disconnections in (omega arith, omega arith)
  Reachable-Inv url (next r step) = Step-Inv step (Reachable-Inv url r)

  -- In every reachable state of a client its handler was told of at most as many connections, and of at
  -- most as many ends of connections, as the client has joined; a connection that is still open or being
  -- made was not told to have ended.
  pub handler_balanced :
      (url : Url) {c : WebSocketClient E}
      → Reachable (websocket_client url) c
      → (disconnections c.events + (if c.has_uuid then 1 else 0) ≤ c.joined)
        × (connections c.events + in_handshake c.phase ≤ c.joined)
  handler_balanced url r = Reachable-Inv url r
