-- ===== src/WriteQueue/Order.antt =====
-- include/beauty/websocket_session.hpp and websocket_client.hpp: the order of the messages.
use beauty_cl.Prelude.{
  ◌≡◌, refl, sym, ap, ◌∙◌, Bool, true, false, ◌&&◌, List, [], ◌∷◌, ◌++◌, append_assoc, append-nil,
  arith, is_empty,
}
use beauty_cl.WriteQueue.{
  Message, Socket, new_socket, set_binary, async_write, write_front, do_write, on_write,
}

-- A socket to which these messages were sent. A write ends only while one is under way.
pub data Sent : List Message → Socket → Type 0 where
  starts : Sent [] new_socket
  sends :
      {ms : List Message} {s : Socket} (m : Message)
      → Sent ms s
      → Sent (ms ++ m ∷ []) (do_write m s)
  ends :
      {ms : List Message} {s : Socket} (failed : Bool)
      → s.is_writing ≡ true
      → Sent ms s
      → Sent ms (on_write failed s)

abbrev pub behind_front : List Message → List Message
behind_front [] = []
behind_front (m ∷ ms) = ms

-- The messages whose writing was started and those behind the front of the queue are all of them, in
-- order; a write is under way only for the front of the queue.
abbrev pub InOrder : List Message → Socket → Type 0
InOrder ms s =
    (s.started ++ behind_front s.queue ≡ ms) × ((s.is_writing && is_empty s.queue) ≡ false)

do_write-InOrder :
    (m : Message) (ms queue : List Message) (binary : Bool) (started : List Message)
    (is_writing : Bool)
    → InOrder ms
        (record { queue = queue; binary = binary; started = started; is_writing = is_writing })
    → InOrder (ms ++ m ∷ []) (
        do_write m
          (record { queue = queue; binary = binary; started = started; is_writing = is_writing }))
unfolding do_write write_front async_write set_binary
do_write-InOrder m ms [] binary started is_writing (e, f) = (
  append_assoc started (m ∷ []) [] ∙ sym (ap (λ l. l ++ m ∷ []) (sym e ∙ append-nil started)),
  refl,
)
do_write-InOrder m ms (q ∷ queue) binary started is_writing (e, f) =
    (sym (append_assoc started queue (m ∷ [])) ∙ ap (λ l. l ++ m ∷ []) e, ground arith)

on_write-InOrder :
    (failed : Bool) (ms queue : List Message) (binary : Bool) (started : List Message)
    (is_writing : Bool)
    → InOrder ms
        (record { queue = queue; binary = binary; started = started; is_writing = is_writing })
    → InOrder ms (
        on_write failed
          (record { queue = queue; binary = binary; started = started; is_writing = is_writing }))
unfolding on_write write_front async_write set_binary
on_write-InOrder true ms queue binary started is_writing (e, f) = (e, ground arith)
on_write-InOrder false ms [] binary started is_writing (e, f) = (e, ground arith)
on_write-InOrder false ms (q ∷ []) binary started is_writing (e, f) = (e, ground arith)
on_write-InOrder false ms (q ∷ r ∷ queue) binary started is_writing (e, f) =
    (append_assoc started (r ∷ []) queue ∙ e, refl)

-- Of the messages sent to a socket, those whose writing was started, each in its own mode, and those
-- that wait behind the front of the queue are all, in the order in which they were sent; a write is
-- under way only while the queue has a front.
pub Sent-InOrder : {ms : List Message} {s : Socket} → Sent ms s → InOrder ms s
Sent-InOrder starts = (refl, refl)
Sent-InOrder (sends {ms} {s} m h) =
    do_write-InOrder m ms s.queue s.binary s.started s.is_writing (Sent-InOrder h)
Sent-InOrder (ends {ms} {s} failed w h) =
    on_write-InOrder failed ms s.queue s.binary s.started s.is_writing (Sent-InOrder h)
