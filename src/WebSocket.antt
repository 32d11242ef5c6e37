-- ===== src/WebSocket.antt =====
-- include/beauty/websocket_session.hpp and include/beauty/websocket_client.hpp: the states of a connection
-- and the calls of its handler. Writing is that of WriteQueue.
pub mod Session
pub mod Client
use beauty_cl.Prelude.{
  ℕ, suc, Bool, true, false, not, Option, none, some, List, [], ◌∷◌, ◌++◌, Bytes, codes, is_empty,
  if◌then◌else◌,
}
use beauty_cl.WriteQueue as WriteQueue
use beauty_cl.Url.{Url, url_path}

-- A call of the handler: of `on_receive` with the message and whether it is text.
pub data Event (E : Type 0) : Type 0 where
  connected disconnected : Event E
  received : Bytes → Bool → Event E
  error : E → Bytes → Event E

-- How a read ends; `closed` is the close of the other side.
pub data ReadResult (E : Type 0) : Type 0 where
  closed : ReadResult E
  read_error : E → ReadResult E
  message : Bytes → Bool → ReadResult E

-- What a session waits for: a call of `on_accept`, or of `on_read`.
pub data SessionPhase : Type 0 where
  accepting reading over : SessionPhase

-- `has_uuid` says whether the uuid of the context is set.
pub record WebSocketSession (E : Type 0) : Type 0 where
  pub phase : SessionPhase
  pub has_uuid : Bool
  pub is_alive : Bool
  pub socket : WriteQueue.Socket
  pub events : List (Event E)

-- A session once `run` has started to accept.
unfoldable pub run_session : {E : Type 0} → WebSocketSession E
run_session = record {
  phase = accepting;
  has_uuid = false;
  is_alive = true;
  socket = WriteQueue.new_socket;
  events = [];
}

module _ {E : Type 0} where
  unfoldable pub on_accept : Option E → WebSocketSession E → WebSocketSession E
  on_accept (some e) s = record s { phase = over }
  on_accept none s = record s {
    phase = reading;
    has_uuid = true;
    events = s.events ++ connected ∷ [];
  }

  unfoldable pub session_on_read : ReadResult E → WebSocketSession E → WebSocketSession E
  session_on_read closed s = record s { phase = over }
  session_on_read (read_error e) s = record s { phase = over }
  session_on_read (message text is_text) s = record s {
    phase = reading;
    events = s.events ++ received text is_text ∷ [];
  }

  -- The destructor, once no operation holds the session.
  unfoldable pub destroy : WebSocketSession E → WebSocketSession E
  destroy s = record s {
    is_alive = false;
    events = if s.has_uuid then s.events ++ disconnected ∷ [] else s.events;
  }

-- What a client waits for.
pub data ClientPhase : Type 0 where
  stopped resolving connecting handshaking reading : ClientPhase

-- `target` is that of the context; `joined` counts the uuids that the context was given.
pub record WebSocketClient (E : Type 0) : Type 0 where
  pub url : Url
  pub phase : ClientPhase
  pub target : Bytes
  pub has_uuid : Bool
  pub is_open : Bool
  pub socket : WriteQueue.Socket
  pub joined : ℕ
  pub events : List (Event E)

-- The constructor.
unfoldable pub websocket_client : {E : Type 0} → Url → WebSocketClient E
websocket_client url = record {
  url = url;
  phase = stopped;
  target = [];
  has_uuid = false;
  is_open = false;
  socket = WriteQueue.new_socket;
  joined = 0;
  events = [];
}

-- The port that `run` resolves.
unfoldable pub client_port : Url → Bytes
client_port url = if is_empty url.port_view then codes "80" else url.port_view

module _ {E : Type 0} where
  unfoldable pub run : WebSocketClient E → WebSocketClient E
  run c = record c { phase = resolving }

  unfoldable pub fail : E → Bytes → WebSocketClient E → WebSocketClient E
  fail e what c = record c {
    events = (c.events ++ error e what ∷ []) ++ (if c.has_uuid then disconnected ∷ [] else []);
    has_uuid = false;
    is_open = false;
  }

  -- A handler that fails starts nothing more.
  abbrev give_up : E → Bytes → WebSocketClient E → WebSocketClient E
  give_up e what c = fail e what (record c { phase = stopped })

  unfoldable pub on_resolve : Option E → WebSocketClient E → WebSocketClient E
  on_resolve (some e) c = give_up e (codes "resolve") c
  on_resolve none c = record c { phase = connecting }

  unfoldable pub on_connect : Option E → WebSocketClient E → WebSocketClient E
  on_connect (some e) c = give_up e (codes "connect") c
  on_connect none c = record c {
    phase = handshaking;
    target = url_path c.url;
    has_uuid = true;
    joined = suc c.joined;
  }

  -- The socket is open after a handshake.
  unfoldable pub on_handshake : Option E → WebSocketClient E → WebSocketClient E
  on_handshake (some e) c = give_up e (codes "handshake") c
  on_handshake none c = record c {
    phase = reading;
    is_open = true;
    events = c.events ++ connected ∷ [];
  }

  unfoldable pub client_on_read : ReadResult E → WebSocketClient E → WebSocketClient E
  client_on_read closed c = record c { phase = stopped; is_open = false }
  client_on_read (read_error e) c = give_up e (codes "read") c
  client_on_read (message text is_text) c = record c {
    phase = reading;
    events = c.events ++ received text is_text ∷ [];
  }

  -- The end of a write: `fail` after an error, while the read goes on until it ends.
  unfoldable pub client_on_write : Option E → WebSocketClient E → WebSocketClient E
  client_on_write none c = record c { socket = WriteQueue.on_write false c.socket }
  client_on_write (some e) c =
      fail e (codes "write") (record c { socket = WriteQueue.on_write true c.socket })

  unfoldable pub send : WriteQueue.Message → WebSocketClient E → WebSocketClient E
  send msg c = record c { socket = WriteQueue.do_write msg c.socket }
