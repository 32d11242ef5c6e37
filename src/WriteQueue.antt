-- ===== src/WriteQueue.antt =====
-- The messages that wait in include/beauty/websocket_session.hpp and include/beauty/websocket_client.hpp,
-- which write in the same way.
pub mod Order
use beauty_cl.Prelude.{Bool, true, false, List, [], ◌∷◌, ◌++◌, Bytes, if◌then◌else◌}

-- A `message`.
pub record Message : Type 0 where
  pub buffer : Bytes
  pub binary_mode : Bool

-- `_queue` and the mode of `_websocket`; the calls of `async_write` so far, oldest first, with the mode
-- of the socket at the time, and whether one is under way.
pub record Socket : Type 0 where
  pub queue : List Message
  pub binary : Bool
  pub started : List Message
  pub is_writing : Bool

abbrev pub new_socket : Socket
new_socket = record { queue = []; binary = false; started = []; is_writing = false }

-- `_websocket.binary(...)`.
unfoldable pub set_binary : Bool → Socket → Socket
set_binary binary_mode s = record s { binary = binary_mode }

-- `_websocket.async_write`: what is written goes out in the mode that the socket has.
unfoldable pub async_write : Bytes → Socket → Socket
async_write buffer s = record s {
  started = s.started ++ record { buffer = buffer; binary_mode = s.binary } ∷ [];
  is_writing = true;
}

-- Both calls for the front of the queue.
unfoldable pub write_front : Message → Socket → Socket
write_front front s = async_write front.buffer (set_binary front.binary_mode s)

unfoldable pub do_write : Message → Socket → Socket
do_write msg s = elim s.queue [
  | [] ↦ write_front msg (record s { queue = msg ∷ [] })
  | front ∷ queue ↦ record s { queue = s.queue ++ msg ∷ [] }
]

-- The `on_write` of the socket that writes on: nothing more happens after an error.
unfoldable pub on_write : Bool → Socket → Socket
on_write failed s = if failed then record s { is_writing = false } else elim s.queue [
  | [] ↦ record s { is_writing = false }
  | front ∷ [] ↦ record s { queue = []; is_writing = false }
  | front ∷ next ∷ queue ↦ write_front next (record s { queue = next ∷ queue })
]

-- The two functions of `websocket_client`, whose code is the same.
unfoldable pub client_do_write : Message → Socket → Socket
client_do_write msg s = do_write msg s

unfoldable pub client_on_write : Bool → Socket → Socket
client_on_write failed s = on_write failed s
