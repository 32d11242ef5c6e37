-- ===== src/Tests/Writing.antt =====
-- src/sse_stream.cpp, include/beauty/sse_session.hpp and the queues of the WebSockets at concrete inputs.
use beauty_cl.Prelude.{
  ℕ, some, ◌≤◌, ◌≡◌, refl, true, false, not, ◌&&◌, [], ◌∷◌, codes, bytes_eq, length, is_empty,
}
use beauty_cl.Utils.Split.Laws.{join}
use beauty_cl.Sse.{getlines, data_lines, frame, Stream, new_stream, send, do_write, on_write}
use beauty_cl.Sse.Reader.{lines_from, lines_of, field, interpret}
use beauty_cl.Sse.Frame.{fresh}
use beauty_cl.Sse.Queue.{Reachable, starts, steps, sends, Reachable-queue}
use beauty_cl.Sse.Queue as Queue
use beauty_cl.Sse.Session as Session
use beauty_cl.WriteQueue as WriteQueue
use beauty_cl.WriteQueue.Order as Order

-- What follows a carriage return in the text is lost.
carriage_return_lost :
    interpret (lines_of (frame [] [] (codes "a\rb"))) (fresh [])
    ≡ record { id = []; event = []; text = codes "a" } ∷ []
unfolding frame data_lines getlines lines_from interpret field bytes_eq join
carriage_return_lost = refl

abbrev busy : Stream
busy = send (codes "a") new_stream

busy-Reachable : Reachable busy
busy-Reachable = steps starts (sends (codes "a"))

Reachable-queue_example :
    (length busy.queue ≤ 1025)
    × ((busy.is_writing && is_empty busy.queue) ≡ false)
    × ((busy.is_open && (not (is_empty busy.queue) && not busy.is_writing)) ≡ false)
Reachable-queue_example = Reachable-queue busy-Reachable

-- The second of two payloads waits while the first is written.
abbrev sent_twice : Stream
sent_twice = on_write false (send (codes "b") (send (codes "a") new_stream))

abbrev binary_message : WriteQueue.Message
binary_message = record { buffer = codes "x"; binary_mode = true }

abbrev text_message : WriteQueue.Message
text_message = record { buffer = codes "y"; binary_mode = false }

Sent-InOrder_example :
    Order.InOrder
      (binary_message ∷ text_message ∷ [])
      (WriteQueue.do_write text_message (WriteQueue.do_write binary_message WriteQueue.new_socket))
Sent-InOrder_example =
    Order.Sent-InOrder
      (Order.Sent.sends text_message (Order.Sent.sends binary_message Order.Sent.starts))

-- A session whose client goes away after an event.
abbrev gone : Session.SseSession ℕ
gone =
    Session.on_drain Session.eof
      (Session.run (codes "HTTP/1.1 200 OK") (some (codes "7")) (codes "data: a" ∷ []) false)

session-Told_example :
    Session.StartsWith (codes "HTTP/1.1 200 OK") gone.stream
    × Session.Told (Session.id_or_empty (some (codes "7"))) false gone.is_draining gone.calls
session-Told_example =
    Session.session-Told {E = ℕ} (codes "HTTP/1.1 200 OK") (some (codes "7")) (codes "data: a" ∷ [])
      false (Session.next Session.here (Session.drains Session.eof (unfold Session.run in refl)))
