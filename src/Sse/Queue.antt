-- ===== src/Sse/Queue.antt =====
-- include/beauty/sse_session.hpp: the queue of a stream.
use beauty_cl.Prelude.{
  ◌≤◌, ◌≡◌, inl, inr, refl, ap, ◌==◌, ◌∙◌, Bool, true, false, not, ◌&&◌, List, [], ◌∷◌, ◌++◌,
  append_assoc, arith, Bytes, codes, is_empty, length, length-append, ltb, if◌then◌else◌,
  Bool-cases,
}
use beauty_cl.Sse.{
  Stream, new_stream, do_write, close, on_close, send, pop_front, front, on_write, on_heartbeat,
}

abbrev heartbeat : Bytes
heartbeat = codes ": heartbeat\n\n"

-- What can happen to a stream. A write completes only while one is under way, and the handler of `close`
-- runs only after it was posted.
pub data Step : Stream → Stream → Type 0 where
  sends : {s : Stream} (payload : Bytes) → Step s (send payload s)
  beats : {s : Stream} (cancelled : Bool) → Step s (on_heartbeat cancelled s)
  closes : {s : Stream} → Step s (close s)
  shuts : {s : Stream} → 1 ≤ s.posted_closes → Step s (on_close s)
  writes : {s : Stream} (failed : Bool) → s.is_writing ≡ true → Step s (on_write failed s)

pub data Reachable : Stream → Type 0 where
  starts : Reachable new_stream
  steps : {s t : Stream} → Reachable s → Step s t → Reachable t

-- The queue is bounded; a write is under way only for a queue that is not empty, and it is on an open
-- stream whose queue is not empty.
abbrev pub Inv : Stream → Type 0
Inv s =
    (length s.queue ≤ 1025)
    × (s.is_writing ≡ true → is_empty s.queue ≡ false)
    × (s.is_open ≡ true → is_empty s.queue ≡ false → s.is_writing ≡ true)

is_empty-append : {A : Type 0} (xs : List A) (x : A) → is_empty (xs ++ x ∷ []) ≡ false
is_empty-append [] x = refl
is_empty-append (y ∷ xs) x = refl

send-Inv : (payload : Bytes) (s : Stream) → Inv s → Inv (send payload s)
unfolding send close do_write
send-Inv payload s (a, b, c) =
    ground (arith, length-append s.queue (payload ∷ []), is_empty-append s.queue payload)

length-pop_front : (queue : List Bytes) → length (pop_front queue) ≤ length queue
length-pop_front [] = omega arith
length-pop_front (b ∷ queue) = omega arith

on_write-Inv : (failed : Bool) (s : Stream) → Inv s → Inv (on_write failed s)
unfolding on_write do_write
on_write-Inv true s (a, b, c) = (a, (λ e. cc), (λ e. cc))
on_write-Inv false s (a, b, c) = (
  omega (arith, length-pop_front s.queue),
  (λ e. writing (is_empty (pop_front s.queue)) e),
  (λ o e. rw e refl),
)
  where
    writing : (b : Bool) → (if b then false else true) ≡ true → b ≡ false
    writing true e = cc
    writing false e = refl

Step-Inv : {s t : Stream} → Step s t → Inv s → Inv t
Step-Inv {s} (sends payload) h = send-Inv payload s h
Step-Inv {s} (beats cancelled) h = elim (Bool-cases (not cancelled && s.is_open)) [
  | inl e ↦ unfold on_heartbeat in rw e (send-Inv heartbeat s h)
  | inr e ↦ unfold on_heartbeat in rw e h
]
Step-Inv {s} closes h = unfold close in h
Step-Inv {s} (shuts l) h = unfold on_close in (h.0, h.1, λ e. cc)
Step-Inv {s} (writes failed w) h = on_write-Inv failed s h

Reachable-Inv : {s : Stream} → Reachable s → Inv s
Reachable-Inv starts = (omega arith, (λ e. cc), (λ o e. cc))
Reachable-Inv (steps r step) = Step-Inv step (Reachable-Inv r)

-- In every reachable state at most 1025 payloads wait, no write is under way without one of them, and
-- no open stream has one that waits and no write under way.
pub Reachable-queue :
    {s : Stream}
    → Reachable s
    → (length s.queue ≤ 1025)
      × ((s.is_writing && is_empty s.queue) ≡ false)
      × ((s.is_open && (not (is_empty s.queue) && not s.is_writing)) ≡ false)
Reachable-queue {s} r =
    let (bound, writing, forgotten) = Reachable-Inv r in
    (
      bound,
      only s.is_writing (is_empty s.queue) writing,
      none_left s.is_open (is_empty s.queue) s.is_writing forgotten,
    )
  where
    only : (w e : Bool) → (w ≡ true → e ≡ false) → (w && e) ≡ false
    only true e h = h refl
    only false e h = refl

    none_left : (o e w : Bool) → (o ≡ true → e ≡ false → w ≡ true) → (o && (not e && not w)) ≡ false
    none_left o e w h = ground arith

-- What was written and what waits, in order.
abbrev pub all_payloads : Stream → List Bytes
all_payloads s = s.written ++ s.queue

front-pop_front : (queue : List Bytes) → front queue ++ pop_front queue ≡ queue
front-pop_front [] = refl
front-pop_front (b ∷ queue) = refl

pub on_write-payloads :
    (s : Stream) (failed : Bool) → all_payloads (on_write failed s) ≡ all_payloads s
unfolding on_write do_write
on_write-payloads s true = refl
on_write-payloads s false =
    append_assoc s.written (front s.queue) (pop_front s.queue)
    ∙ ap (λ q. s.written ++ q) (front-pop_front s.queue)

pub send-payloads :
    (s : Stream) (payload : Bytes)
    → all_payloads (send payload s)
      ≡ (if ltb 1024 (length s.queue) then all_payloads s else all_payloads s ++ payload ∷ [])
unfolding send close do_write
send-payloads s payload = ground (arith, append_assoc s.written s.queue (payload ∷ []))

-- A part of a list, in its order.
pub data Part : List Bytes → List Bytes → Type 0 where
  none_left : Part [] []
  kept : {xs ys : List Bytes} (y : Bytes) → Part xs ys → Part (y ∷ xs) (y ∷ ys)
  left_out : {xs ys : List Bytes} (y : Bytes) → Part xs ys → Part xs (y ∷ ys)

-- A stream to which these payloads were sent, oldest first; a heartbeat is one of them.
pub data Sent : List Bytes → Stream → Type 0 where
  starts : Sent [] new_stream
  sends :
      {ms : List Bytes} {s : Stream} (payload : Bytes)
      → Sent ms s
      → Sent (ms ++ payload ∷ []) (send payload s)
  closes : {ms : List Bytes} {s : Stream} → Sent ms s → Sent ms (close s)
  shuts : {ms : List Bytes} {s : Stream} → 1 ≤ s.posted_closes → Sent ms s → Sent ms (on_close s)
  writes :
      {ms : List Bytes} {s : Stream} (failed : Bool)
      → s.is_writing ≡ true
      → Sent ms s
      → Sent ms (on_write failed s)

-- No close was posted, and no write has failed.
abbrev pub is_going_on : Stream → Bool
is_going_on s = s.is_open && s.posted_closes == 0

abbrev IsKept : List Bytes → Stream → Type 0
IsKept ms s = Part (all_payloads s) ms × (is_going_on s ≡ true → all_payloads s ≡ ms)
