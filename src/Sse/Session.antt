-- ===== src/Sse/Session.antt =====
-- include/beauty/sse_session.hpp: `sse_session::run` and what follows it. The text of the response is
-- Boost's, and the callback for a connection is what it sends and whether it throws.
use beauty_cl.Prelude.{
  ◌≤◌, ◌≡◌, refl, ap, ◌∙◌, Bool, true, false, not, ◌&&◌, Option, none, some, List, [], ◌∷◌, ◌++◌,
  arith, Bytes, codes, length, ltb, if◌then◌else◌,
}
use beauty_cl.Sse.{Stream, new_stream, send, close, on_close, do_write, on_heartbeat}
use beauty_cl.Sse.Queue as Queue
use beauty_cl.Sse.Queue.{all_payloads}

-- How a read of the client's bytes ends: with some bytes, at their end, or with another error.
pub data Drained (E : Type 0) : Type 0 where
  bytes eof : Drained E
  drain_error : E → Drained E

-- A call of the handler.
pub data Call (E : Type 0) : Type 0 where
  connect : Bytes → Call E
  disconnect : Call E
  error : E → Call E

pub record SseSession (E : Type 0) : Type 0 where
  pub stream : Stream
  pub is_draining : Bool
  pub calls : List (Call E)

-- What the callback sends.
unfoldable pub send_all : List Bytes → Stream → Stream
send_all [] s = s
send_all (payload ∷ payloads) s = send_all payloads (send payload s)

-- The `Last-Event-ID` of the request, or an empty string.
abbrev pub id_or_empty : Option Bytes → Bytes
id_or_empty none = []
id_or_empty (some id) = id

module _ {E : Type 0} where
  unfoldable pub run : Bytes → Option Bytes → List Bytes → Bool → SseSession E
  run response last_event_id payloads throws =
      let stream = send_all payloads (send response new_stream) in
      record {
        stream = if throws then close stream else stream;
        is_draining = not throws;
        calls = connect (id_or_empty last_event_id) ∷ [];
      }

  -- The handler of `start_drain` with the callback that `run` gives it.
  unfoldable pub on_drain : Drained E → SseSession E → SseSession E
  on_drain bytes s = s
  on_drain eof s = record s { is_draining = false; calls = s.calls ++ disconnect ∷ [] }
  on_drain (drain_error e) s = record s {
    is_draining = false;
    calls = s.calls ++ disconnect ∷ error e ∷ [];
  }

  -- What can happen to a session that was run.
  pub data Step (s : SseSession E) : SseSession E → Type 0 where
    streams : (t : Stream) → Queue.Step s.stream t → Step s (record s { stream = t })
    drains : (d : Drained E) → s.is_draining ≡ true → Step s (on_drain d s)

  pub data Later (s : SseSession E) : SseSession E → Type 0 where
    here : Later s s
    next : {t u : SseSession E} → Later s t → Step t u → Later s u

-- A first payload stays the first.
abbrev pub StartsWith : Bytes → Stream → Type 0
StartsWith response s = (rest : List Bytes) × (all_payloads s ≡ response ∷ rest)

send-StartsWith :
    (response payload : Bytes) (s : Stream)
    → StartsWith response s
    → StartsWith response (send payload s)
send-StartsWith response payload s (rest, e) =
    one (ltb 1024 (length s.queue)) (Queue.send-payloads s payload)
  where
    one :
        (full : Bool)
        → all_payloads (send payload s)
          ≡ (if full then all_payloads s else all_payloads s ++ payload ∷ [])
        → StartsWith response (send payload s)
    one true f = (rest, f ∙ e)
    one false f = (rest ++ payload ∷ [], f ∙ ap (λ l. l ++ payload ∷ []) e)

Step-StartsWith :
    (response : Bytes) {s t : Stream}
    → Queue.Step s t
    → StartsWith response s
    → StartsWith response t
Step-StartsWith response {s} (Queue.sends payload) h = send-StartsWith response payload s h
Step-StartsWith response {s} (Queue.beats cancelled) h =
    unfold on_heartbeat in beaten (not cancelled && s.is_open)
  where
    beaten : (b : Bool) → StartsWith response (if b then send (codes ": heartbeat\n\n") s else s)
    beaten true = send-StartsWith response (codes ": heartbeat\n\n") s h
    beaten false = h
Step-StartsWith response {s} Queue.closes h = unfold close in h
Step-StartsWith response {s} (Queue.shuts l) h = unfold on_close in h
Step-StartsWith response {s} (Queue.writes failed w) (rest, e) =
    (rest, Queue.on_write-payloads s failed ∙ e)

send_all-StartsWith :
    (response : Bytes) (payloads : List Bytes) (s : Stream)
    → StartsWith response s
    → StartsWith response (send_all payloads s)
unfolding send_all
send_all-StartsWith response [] s h = h
send_all-StartsWith response (payload ∷ payloads) s h =
    send_all-StartsWith response payloads (send payload s) (send-StartsWith response payload s h)

-- The calls of the handler: for the connection, and at its end, if it did not throw.
abbrev pub Told : {E : Type 0} → Bytes → Bool → Bool → List (Call E) → Type 0
Told {E = E} id true is_draining calls = (is_draining ≡ false) × (calls ≡ connect id ∷ [])
Told {E = E} id false true calls = calls ≡ connect id ∷ []
Told {E = E} id false false calls =
    (tail : List (Call E)) × (length tail ≤ 1) × (calls ≡ connect id ∷ disconnect ∷ tail)

disconnect-Told :
    {E : Type 0} (id : Bytes) (throws draining : Bool) (calls tail : List (Call E))
    → draining ≡ true
    → length tail ≤ 1
    → Told id throws draining calls
    → Told id throws false (calls ++ disconnect ∷ tail)
disconnect-Told id true draining calls tail e n h = cc
disconnect-Told id false false calls tail e n h = cc
disconnect-Told id false true calls tail e n h = (tail, n, ap (λ l. l ++ disconnect ∷ tail) h)

drain-Told :
    {E : Type 0} (id : Bytes) (throws : Bool) (d : Drained E) (s : SseSession E)
    → s.is_draining ≡ true
    → Told id throws s.is_draining s.calls
    → Told id throws (on_drain d s).is_draining (on_drain d s).calls
unfolding on_drain
drain-Told id throws bytes s e h = h
drain-Told id throws eof s e h =
    disconnect-Told id throws s.is_draining s.calls [] e (omega arith) h
drain-Told id throws (drain_error x) s e h =
    disconnect-Told id throws s.is_draining s.calls (error x ∷ []) e (omega arith) h

run-Told :
    (E : Type 0) (response : Bytes) (id : Option Bytes) (payloads : List Bytes) (throws : Bool)
    → let s : SseSession E = run response id payloads throws in
      Told (id_or_empty id) throws s.is_draining s.calls
unfolding run
run-Told E response id payloads true = (refl, refl)
run-Told E response id payloads false = refl

run-StartsWith :
    (E : Type 0) (response : Bytes) (id : Option Bytes) (payloads : List Bytes) (throws : Bool)
    → let s : SseSession E = run response id payloads throws in StartsWith response s.stream
unfolding run
run-StartsWith E response id payloads throws = closed throws
  where
    stream : Stream
    stream = send_all payloads (send response new_stream)

    first : StartsWith response stream
    first =
        send_all-StartsWith response payloads (send response new_stream)
          ([], unfold send do_write in refl)

    closed : (b : Bool) → StartsWith response (if b then close stream else stream)
    closed true = unfold close in first
    closed false = first

-- In every state of a session after `run` the text of the response is the first payload of its stream,
-- before what the callback sends, heartbeats and events; the handler was called once for the connection,
-- and, once the client is gone, once for that and then at most for one error; where the callback for the
-- connection throws, neither of these calls is made.
pub session-Told :
    {E : Type 0} (response : Bytes) (id : Option Bytes) (payloads : List Bytes) (throws : Bool)
    {s : SseSession E}
    → Later (run response id payloads throws) s
    → StartsWith response s.stream × Told (id_or_empty id) throws s.is_draining s.calls
session-Told response id payloads throws here =
    (run-StartsWith _ response id payloads throws, run-Told _ response id payloads throws)
session-Told response id payloads throws (next l (streams t step)) =
    let (first, told) = session-Told response id payloads throws l in
    (Step-StartsWith response step first, told)
session-Told response id payloads throws (next {t = s} l (drains d e)) =
    let (first, told) = session-Told response id payloads throws l in
    (drained d s first, drain-Told (id_or_empty id) throws d s e told)
  where
    drained :
        {E : Type 0} (d : Drained E) (s : SseSession E)
        → StartsWith response s.stream
        → StartsWith response (on_drain d s).stream
    drained d s h = unfold on_drain in ground arith
