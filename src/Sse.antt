-- ===== src/Sse.antt =====
-- src/sse_stream.cpp and include/beauty/sse_session.hpp: the text of an event, and the queue of a stream.
pub mod Reader
pub mod Frame
pub mod Queue
pub mod Session
use beauty_cl.Prelude.{
  ℕ, suc, ◌-◌, Bool, true, false, not, ◌&&◌, ◌||◌, Option, none, some, List, [], ◌∷◌, ◌++◌, Bytes,
  codes, is_empty, length, ltb, ◌==◌, if◌then◌else◌,
}

-- The lines that `std::getline` reads until it fails.
abbrev pub onto_line : ℕ → List Bytes → List Bytes
onto_line c [] = (c ∷ []) ∷ []
onto_line c (l ∷ ls) = (c ∷ l) ∷ ls

unfoldable pub getlines : Bytes → List Bytes
getlines [] = []
getlines (c ∷ s) = if c == b'\n' then [] ∷ getlines s else onto_line c (getlines s)

-- One field with its name and space.
abbrev pub field_line : Bytes → Bytes → Bytes
field_line name value = name ++ (value ++ b'\n' ∷ [])

-- The lines of the `while` loop.
unfoldable pub data_lines : List Bytes → Bytes
data_lines [] = []
data_lines (l ∷ ls) = field_line (codes "data: ") l ++ data_lines ls

-- What `out` holds at the end.
unfoldable pub frame : Bytes → Bytes → Bytes → Bytes
frame id event text =
    (if is_empty id then [] else field_line (codes "id: ") id)
    ++ ((if is_empty event then [] else field_line (codes "event: ") event)
        ++ (data_lines (getlines text) ++ codes "\n"))

-- `send` with all three, for a stream that has its `_impl` or has none.
unfoldable pub send_event : Bool → Bytes → Bytes → Bytes → Option Bytes
send_event has_impl id event text =
    if not has_impl || is_empty text then none else some (frame id event text)

unfoldable pub send_data : Bool → Bytes → Option Bytes
send_data has_impl text = send_event has_impl [] [] text

unfoldable pub send_with_id : Bool → Bytes → Bytes → Option Bytes
send_with_id has_impl id text = send_event has_impl id [] text

-- `sse_stream_impl`: `_queue`, whether the socket is open, how many handlers of `close` are posted and
-- have not run, whether an `async_write` is under way, and what the completed ones have written, oldest
-- first.
pub record Stream : Type 0 where
  pub queue : List Bytes
  pub is_open : Bool
  pub posted_closes : ℕ
  pub is_writing : Bool
  pub written : List Bytes

abbrev pub new_stream : Stream
new_stream = record {
  queue = [];
  is_open = true;
  posted_closes = 0;
  is_writing = false;
  written = [];
}

unfoldable pub do_write : Stream → Stream
do_write s = record s { is_writing = if is_empty s.queue then s.is_writing else true }

-- `close` posts a handler to the strand, which runs later.
unfoldable pub close : Stream → Stream
close s = record s { posted_closes = suc s.posted_closes }

unfoldable pub on_close : Stream → Stream
on_close s = record s { posted_closes = s.posted_closes - 1; is_open = false }

-- The handler that `send` posts.
unfoldable pub send : Bytes → Stream → Stream
send payload s =
    let pushed = record s { queue = s.queue ++ payload ∷ [] } in
    if ltb 1024 (length s.queue)
    then close s
    else (if is_empty s.queue then do_write pushed else pushed)

abbrev pub pop_front : List Bytes → List Bytes
pop_front [] = []
pop_front (b ∷ queue) = queue

abbrev pub front : List Bytes → List Bytes
front [] = []
front (b ∷ queue) = b ∷ []

-- The completion of a write.
unfoldable pub on_write : Bool → Stream → Stream
on_write failed s =
    if failed
    then record s { is_open = false; is_writing = false }
    else do_write (record s {
      queue = pop_front s.queue;
      is_writing = false;
      written = s.written ++ front s.queue;
    })

-- The timer of the heartbeat.
unfoldable pub on_heartbeat : Bool → Stream → Stream
on_heartbeat cancelled s =
    if not cancelled && s.is_open then send (codes ": heartbeat\n\n") s else s
