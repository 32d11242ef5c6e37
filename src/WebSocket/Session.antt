-- ===== src/WebSocket/Session.antt =====
-- include/beauty/websocket_session.hpp: in which order the handler of a session is called.
use beauty_cl.Prelude.{
  ◌≡◌, refl, sym, ap, ◌∙◌, Bool, true, false, Option, none, some, List, [], ◌∷◌, ◌++◌, append-nil,
  Bytes, if◌then◌else◌,
}
use beauty_cl.WriteQueue as WriteQueue
use beauty_cl.WebSocket.{
  Event, connected, disconnected, received, ReadResult, closed, read_error, message, accepting,
  over, SessionPhase, WebSocketSession, run_session, on_accept, session_on_read, destroy,
}
use beauty_cl.WebSocket as WebSocket

module _ {E : Type 0} where
  -- What can happen to a session. It is destroyed when it neither accepts nor reads nor writes.
  pub data Step (s : WebSocketSession E) : WebSocketSession E → Type 0 where
    accepts : (ec : Option E) → s.phase ≡ accepting → Step s (on_accept ec s)
    reads : (r : ReadResult E) → s.phase ≡ SessionPhase.reading → Step s (session_on_read r s)
    sends :
        (msg : WriteQueue.Message)
        → s.is_alive ≡ true
        → Step s (record s { socket = WriteQueue.do_write msg s.socket })
    writes :
        (failed : Bool)
        → s.socket.is_writing ≡ true
        → Step s (record s { socket = WriteQueue.on_write failed s.socket })
    destroys : s.phase ≡ over → s.socket.is_writing ≡ false → s.is_alive ≡ true → Step s (destroy s)

  pub data Reachable : WebSocketSession E → Type 0 where
    starts : Reachable run_session
    steps : {s t : WebSocketSession E} → Reachable s → Step s t → Reachable t

  -- Only messages.
  unfoldable pub all_received : List (Event E) → Bool
  all_received [] = true
  all_received (received text is_text ∷ events) = all_received events
  all_received (event ∷ events) = false

  all_received-append :
      (events : List (Event E)) (text : Bytes) (is_text : Bool)
      → all_received (events ++ received text is_text ∷ []) ≡ all_received events
  unfolding all_received
  all_received-append [] text is_text = refl
  all_received-append (received t b ∷ events) text is_text = all_received-append events text is_text
  all_received-append (connected ∷ events) text is_text = refl
  all_received-append (disconnected ∷ events) text is_text = refl
  all_received-append (WebSocket.error e what ∷ events) text is_text = refl

  -- The calls of the handler of a session with or without a uuid, that is alive or not.
  abbrev pub Told : Bool → Bool → List (Event E) → Type 0
  Told false is_alive events = events ≡ []
  Told true is_alive events =
      (messages : List (Event E)) × (all_received messages ≡ true)
      × (events ≡ connected ∷ (messages ++ (if is_alive then [] else disconnected ∷ [])))

  abbrev Inv : WebSocketSession E → Type 0
  Inv s =
      Told s.has_uuid s.is_alive s.events
      × (s.phase ≡ accepting → (s.has_uuid ≡ false) × (s.is_alive ≡ true))
      × (s.phase ≡ SessionPhase.reading → (s.has_uuid ≡ true) × (s.is_alive ≡ true))

  accept-Told :
      (u alive : Bool) (events : List (Event E))
      → u ≡ false
      → alive ≡ true
      → Told u alive events
      → Told true alive (events ++ connected ∷ [])
  accept-Told true alive events e f h = cc
  accept-Told false false events e f h = cc
  accept-Told false true events e f h =
      unfold all_received in ([], refl, ap (λ l. l ++ connected ∷ []) h)

  read-Told :
      (u alive : Bool) (events : List (Event E)) (text : Bytes) (is_text : Bool)
      → u ≡ true
      → alive ≡ true
      → Told u alive events
      → Told u alive (events ++ received text is_text ∷ [])
  read-Told false alive events text is_text e f h = cc
  read-Told true false events text is_text e f h = cc
  read-Told true true events text is_text e f (messages, all, told) = (
    messages ++ received text is_text ∷ [],
    all_received-append messages text is_text ∙ all,
    ap (λ l. l ++ received text is_text ∷ []) told
        ∙ ap (λ l. connected ∷ (l ++ received text is_text ∷ [])) (append-nil messages)
        ∙ sym (ap (λ l. connected ∷ l) (append-nil (messages ++ received text is_text ∷ []))),
  )

  destroy-Told :
      (u alive : Bool) (events : List (Event E))
      → alive ≡ true
      → Told u alive events
      → Told u false (if u then events ++ disconnected ∷ [] else events)
  destroy-Told false alive events f h = h
  destroy-Told true false events f h = cc
  destroy-Told true true events f (messages, all, told) = (
    messages,
    all,
    ap (λ l. l ++ disconnected ∷ []) told
        ∙ ap (λ l. connected ∷ (l ++ disconnected ∷ [])) (append-nil messages),
  )

  Step-Inv : {s t : WebSocketSession E} → Step s t → Inv s → Inv t
  Step-Inv {s} (accepts (some e) p) (told, a, r) = unfold on_accept in (told, (λ e. cc), (λ e. cc))
  Step-Inv {s} (accepts none p) (told, a, r) =
      let (e, f) = a p in
      unfold on_accept in
      (accept-Told s.has_uuid s.is_alive s.events e f told, (λ e. cc), λ e. (refl, f))
  Step-Inv {s} (reads closed p) (told, a, r) =
      unfold session_on_read in (told, (λ e. cc), (λ e. cc))
  Step-Inv {s} (reads (read_error e) p) (told, a, r) =
      unfold session_on_read in (told, (λ e. cc), (λ e. cc))
  Step-Inv {s} (reads (message text is_text) p) (told, a, r) =
      let (e, f) = r p in
      unfold session_on_read in
      (read-Told s.has_uuid s.is_alive s.events text is_text e f told, (λ e. cc), λ g. (e, f))
  Step-Inv {s} (sends msg e) h = h
  Step-Inv {s} (writes failed e) h = h
  Step-Inv {s} (destroys p w e) (told, a, r) =
      unfold destroy in
      (
        destroy-Told s.has_uuid s.is_alive s.events e told,
        (λ f. cc (sym p ∙ f)),
        (λ f. cc (sym p ∙ f)),
      )

  Reachable-Inv : {s : WebSocketSession E} → Reachable s → Inv s
  Reachable-Inv starts = unfold run_session in (refl, (λ e. (refl, refl)), (λ e. cc))
  Reachable-Inv (steps r step) = Step-Inv step (Reachable-Inv r)

  -- In every reachable state of a session its handler was not called at all, where no handshake succeeded,
  -- or first for the connection, then for messages, and last, once the session is destroyed, for the end
  -- of the connection, exactly once.
  pub handler_in_order :
      {s : WebSocketSession E} → Reachable s → Told s.has_uuid s.is_alive s.events
  handler_in_order r = (Reachable-Inv r).0
