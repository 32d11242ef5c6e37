-- ===== src/Exchange.antt =====
-- A session of the client, src/session_client.hpp, and a connection of the server,
-- include/beauty/session.hpp, with what is under way between them.
pub mod Client
pub mod Known
pub mod Moves
pub mod Flight
pub mod Invariant
pub mod Pairing
pub mod Responses
pub mod Rounds
use beauty_cl.Prelude.{◌≡◌, Bool, true, false, Option, none, some, List, [], ◌∷◌, ◌++◌, Bytes, ℕ}
use beauty_cl.Session.{Request, Response, Reply}
use beauty_cl.Session.Connection
use beauty_cl.Session.Connection.{Connection, Phase, new_connection}
use beauty_cl.ClientSession.{
  ClientRequest, ClientSession, reading, writing, ReadResult, end_of_stream, read_error, received,
  on_read, on_write,
}
use beauty_cl.ClientSession.Steps
use beauty_cl.ClientSession.Steps.{new_session, worker, ended}

-- The requests that the client wrote and the responses that the server wrote, which the other has not read
-- yet, oldest first.
pub record Exchange (E : Type 0) : Type 0 where
  pub client : ClientSession E Response
  pub connection : Connection
  pub to_server : List Request
  pub to_client : List Response

-- The steps of the server that neither read a request nor have written a response.
abbrev pub is_silent :
    {J : Type 0} (ssl : Bool) (handle : Request → Option (Reply J)) (need_eof : Response → Bool)
    {c d : Connection}
    → Connection.Step ssl handle need_eof c d
    → Bool
is_silent ssl handle need_eof (Connection.reads (Connection.received _) _) = false
is_silent ssl handle need_eof (Connection.writes false _ _) = false
is_silent ssl handle need_eof _ = true

module _ {E : Type 0} (ssl : Bool) (timed_out : E) (user_agent : Bytes)
    (set_host_name : Bytes → Option E) where
  -- The steps of the client that leave what is under way alone.
  abbrev pub is_local :
      {s t : ClientSession E Response}
      → Steps.Step ssl timed_out user_agent set_host_name s t
      → Bool
  is_local (Steps.runs _ _ _ _) = true
  is_local (Steps.resolves _ _ _ _) = true
  is_local (Steps.handshakes _ _) = true
  is_local (Steps.times _ _ _) = true
  is_local _ = false

  -- Those with which the client makes a new connection, or leaves the one it has.
  abbrev pub is_cut :
      {s t : ClientSession E Response}
      → Steps.Step ssl timed_out user_agent set_host_name s t
      → Bool
  is_cut (Steps.connects _ _ _) = true
  is_cut (Steps.writes (some _) _ _) = true
  is_cut (Steps.reads end_of_stream _ _) = true
  is_cut (Steps.reads (read_error _) _ _) = true
  is_cut _ = false

-- `wire` is the request that the server reads where the client has written one. `ssl` is whether both
-- use TLS.
module _ {E J : Type 0} (ssl : Bool) (timed_out : E) (user_agent : Bytes)
    (set_host_name : Bytes → Option E) (handle : Request → Option (Reply J))
    (need_eof : Response → Bool) (wire : ClientRequest → Request) where
  pub data Step (x : Exchange E) : Exchange E → Type 0 where
    client_moves :
        {s : ClientSession E Response}
        (step : Steps.Step ssl timed_out user_agent set_host_name x.client s)
        → is_local ssl timed_out user_agent set_host_name step ≡ true
        → Step x (record x { client = s })
    client_reconnects :
        {s : ClientSession E Response}
        (step : Steps.Step ssl timed_out user_agent set_host_name x.client s)
        → is_cut ssl timed_out user_agent set_host_name step ≡ true
        → Step x
            (record { client = s; connection = new_connection ssl; to_server = []; to_client = [] })
    client_has_written :
        (i : ℕ)
        → x.client.operation ≡ writing i
        → Step x (record x {
          client = worker (on_write ssl timed_out user_agent set_host_name none (ended x.client));
          to_server = x.to_server ++ wire (x.client.contexts i).request ∷ [];
        })
    client_reads :
        (i : ℕ) (res : Response) (rest : List Response)
        → x.client.operation ≡ reading i
        → x.to_client ≡ res ∷ rest
        → Step x (record x {
          client =
              worker
                (on_read ssl timed_out user_agent set_host_name (received res) (ended x.client));
          to_client = rest;
        })
    server_moves :
        {c : Connection} (step : Connection.Step ssl handle need_eof x.connection c)
        → is_silent ssl handle need_eof step ≡ true
        → Step x (record x { connection = c })
    server_reads :
        (req : Request) (rest : List Request)
        → x.connection.phase ≡ Phase.reading
        → x.to_server ≡ req ∷ rest
        → Step x (record x {
          connection =
              Connection.on_read ssl handle need_eof (Connection.received req) x.connection;
          to_server = rest;
        })
    server_has_written :
        (res : Response)
        → x.connection.phase ≡ Phase.writing res
        → Step x (record x {
          connection = Connection.on_write ssl handle need_eof false res x.connection;
          to_client = x.to_client ++ res ∷ [];
        })

  abbrev pub new_exchange : Exchange E
  new_exchange = record {
    client = new_session;
    connection = new_connection ssl;
    to_server = [];
    to_client = [];
  }

  pub data Reachable : Exchange E → Type 0 where
    starts : Reachable new_exchange
    steps : {x y : Exchange E} → Reachable x → Step x y → Reachable y
