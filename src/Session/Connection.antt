-- ===== src/Session/Connection.antt =====
-- include/beauty/session.hpp: the life of a connection, from `run` to `do_close`. The calls that
-- start an asynchronous operation are phases, and its end is a step.
use beauty_cl.Prelude.{
  ◌≡◌, refl, sym, ap, ◌∙◌, Bool, true, false, Option, none, some, List, [], ◌∷◌, ◌++◌, append_assoc,
  append-nil, arith, if◌then◌else◌,
}
use beauty_cl.Session.{Request, Response, Reply, respond, websocket_session, sse_session}

-- What the socket is waiting for, or how it ended; `handed_over` to a WebSocket or to a stream.
pub data Phase : Type 0 where
  handshaking reading shutting_down : Phase
  postponed : Response → Phase
  writing : Response → Phase
  closed failed handed_over : Phase

-- The requests that were handled and the responses whose writing was started, oldest first.
pub record Connection : Type 0 where
  pub phase : Phase
  pub requests : List Request
  pub responses : List Response

-- `run`, with TLS or without.
unfoldable pub new_connection : Bool → Connection
new_connection ssl = record {
  phase = if ssl then handshaking else reading;
  requests = [];
  responses = [];
}

unfoldable pub on_ssl_handshake : Bool → Connection → Connection
on_ssl_handshake error c =
    if error then record c { phase = failed } else record c { phase = reading }

unfoldable pub do_close : Bool → Connection → Connection
do_close ssl c = if ssl then record c { phase = shutting_down } else record c { phase = closed }

unfoldable pub on_ssl_shutdown : Bool → Connection → Connection
on_ssl_shutdown error c = if error then record c { phase = failed } else record c { phase = closed }

pub data ReadResult : Type 0 where
  end_of_stream read_error : ReadResult
  received : Request → ReadResult

-- `do_write`.
unfoldable pub write_response : Response → Connection → Connection
write_response res c = record c { phase = writing res; responses = c.responses ++ res ∷ [] }

-- What `on_read` does with the reply to a request: without a response the session starts nothing more.
-- `handle_request` leaves no reply without fuel only.
unfoldable pub deliver : {J : Type 0} → Option (Reply J) → Connection → Connection
deliver none c = record c { phase = handed_over }
deliver (some (respond res)) c =
    if res.is_postponed then record c { phase = postponed res } else write_response res c
deliver (some (websocket_session r req)) c = record c { phase = handed_over }
deliver (some (sse_session r req)) c = record c { phase = handed_over }

-- The response of a reply, which is to be written.
abbrev pub answer : {J : Type 0} → Option (Reply J) → List Response
answer (some (respond res)) = res ∷ []
answer _ = []

module _ {J : Type 0} (ssl : Bool) (handle : Request → Option (Reply J))
    (need_eof : Response → Bool) where
  unfoldable pub on_read : ReadResult → Connection → Connection
  on_read end_of_stream c = do_close ssl c
  on_read read_error c = record c { phase = failed }
  on_read (received req) c = deliver (handle req) (record c { requests = c.requests ++ req ∷ [] })

  -- The end of the write of a response.
  unfoldable pub on_write : Bool → Response → Connection → Connection
  on_write error res c =
      if error
      then record c { phase = failed }
      else (if need_eof res then do_close ssl c else record c { phase = reading })

  -- What can happen to a connection; `finishes` is the call of `done` on a postponed response, which
  -- `handle` gives with the content that it has by then.
  pub data Step : Connection → Connection → Type 0 where
    handshakes :
        {c : Connection} (error : Bool) → c.phase ≡ handshaking → Step c (on_ssl_handshake error c)
    shuts_down :
        {c : Connection} (error : Bool) → c.phase ≡ shutting_down → Step c (on_ssl_shutdown error c)
    reads : {c : Connection} (r : ReadResult) → c.phase ≡ reading → Step c (on_read r c)
    finishes :
        {c : Connection} (res : Response) → c.phase ≡ postponed res → Step c (write_response res c)
    writes :
        {c : Connection} (error : Bool) (res : Response)
        → c.phase ≡ writing res
        → Step c (on_write error res c)

  pub data Reachable : Connection → Type 0 where
    starts : Reachable (new_connection ssl)
    steps : {c d : Connection} → Reachable c → Step c d → Reachable d

  -- The responses of the requests, in order.
  unfoldable pub answers : List Request → List Response
  answers [] = []
  answers (req ∷ requests) = answer (handle req) ++ answers requests

  abbrev pub pending : Phase → List Response
  pending (postponed res) = res ∷ []
  pending _ = []

  pub answers-append :
      (requests : List Request) (req : Request)
      → answers (requests ++ req ∷ []) ≡ answers requests ++ answer (handle req)
  unfolding answers
  answers-append [] req = append-nil (answer (handle req))
  answers-append (r ∷ requests) req =
      ap (λ rest. answer (handle r) ++ rest) (answers-append requests req)
      ∙ sym (append_assoc (answer (handle r)) (answers requests) (answer (handle req)))

  abbrev owed : Connection → List Response
  owed c = c.responses ++ pending c.phase

  -- An end of the connection loses nothing.
  keeps_nothing :
      (p : Phase) (c : Connection)
      → pending p ≡ []
      → pending c.phase ≡ []
      → owed c ≡ answers c.requests
      → owed (record c { phase = p }) ≡ answers c.requests
  keeps_nothing p c e f h = ap (λ l. c.responses ++ l) (e ∙ sym f) ∙ h

  close_keeps :
      (b : Bool) (c : Connection)
      → pending c.phase ≡ []
      → owed c ≡ answers c.requests
      → owed (do_close b c) ≡ answers (do_close b c).requests
  unfolding do_close
  close_keeps true c f h = keeps_nothing shutting_down c refl f h
  close_keeps false c f h = keeps_nothing closed c refl f h

  handshake_keeps :
      (error : Bool) (c : Connection)
      → c.phase ≡ handshaking
      → owed c ≡ answers c.requests
      → owed (on_ssl_handshake error c) ≡ answers (on_ssl_handshake error c).requests
  unfolding on_ssl_handshake
  handshake_keeps true c e h = keeps_nothing failed c refl (ap pending e) h
  handshake_keeps false c e h = keeps_nothing reading c refl (ap pending e) h

  shutdown_keeps :
      (error : Bool) (c : Connection)
      → c.phase ≡ shutting_down
      → owed c ≡ answers c.requests
      → owed (on_ssl_shutdown error c) ≡ answers (on_ssl_shutdown error c).requests
  unfolding on_ssl_shutdown
  shutdown_keeps true c e h = keeps_nothing failed c refl (ap pending e) h
  shutdown_keeps false c e h = keeps_nothing closed c refl (ap pending e) h

  nothing_pending : (c : Connection) → c.phase ≡ reading → owed c ≡ c.responses
  nothing_pending c e = ap (λ p. c.responses ++ pending p) e ∙ append-nil c.responses

  postpone-owed :
      (b : Bool) (res : Response) (c : Connection)
      → owed (if b then record c { phase = postponed res } else write_response res c)
        ≡ c.responses ++ res ∷ []
  unfolding write_response
  postpone-owed true res c = refl
  postpone-owed false res c = append-nil (c.responses ++ res ∷ [])

  deliver-owed :
      (o : Option (Reply J)) (c : Connection)
      → c.phase ≡ reading
      → owed (deliver o c) ≡ c.responses ++ answer o
  unfolding deliver
  deliver-owed none c e = refl
  deliver-owed (some (respond res)) c e = postpone-owed res.is_postponed res c
  deliver-owed (some (websocket_session r req)) c e = refl
  deliver-owed (some (sse_session r req)) c e = refl

  deliver-requests : (o : Option (Reply J)) (c : Connection) → (deliver o c).requests ≡ c.requests
  unfolding deliver write_response
  deliver-requests none c = refl
  deliver-requests (some (respond res)) c = ground arith
  deliver-requests (some (websocket_session r req)) c = refl
  deliver-requests (some (sse_session r req)) c = refl

  read_keeps :
      (r : ReadResult) (c : Connection)
      → c.phase ≡ reading
      → owed c ≡ answers c.requests
      → owed (on_read r c) ≡ answers (on_read r c).requests
  unfolding on_read
  read_keeps end_of_stream c e h = close_keeps ssl c (ap pending e) h
  read_keeps read_error c e h = keeps_nothing failed c refl (ap pending e) h
  read_keeps (received req) c e h =
      let next : Connection = record c { requests = c.requests ++ req ∷ [] } in
      deliver-owed (handle req) next e
      ∙ ap (λ rs. rs ++ answer (handle req)) (sym (nothing_pending c e) ∙ h)
      ∙ sym (answers-append c.requests req)
      ∙ ap answers (sym (deliver-requests (handle req) next))

  write_keeps :
      (error : Bool) (res : Response) (c : Connection)
      → c.phase ≡ writing res
      → owed c ≡ answers c.requests
      → owed (on_write error res c) ≡ answers (on_write error res c).requests
  unfolding on_write
  write_keeps true res c e h = keeps_nothing failed c refl (ap pending e) h
  write_keeps false res c e h = written (need_eof res)
    where
      written :
          (b : Bool)
          → owed (if b then do_close ssl c else record c { phase = reading })
            ≡ answers (if b then do_close ssl c else record c { phase = reading }).requests
      written true = close_keeps ssl c (ap pending e) h
      written false = keeps_nothing reading c refl (ap pending e) h

  finish_keeps :
      (res : Response) (c : Connection)
      → c.phase ≡ postponed res
      → owed c ≡ answers c.requests
      → owed (write_response res c) ≡ answers (write_response res c).requests
  unfolding write_response
  finish_keeps res c e h =
      append-nil (c.responses ++ res ∷ []) ∙ sym (ap (λ p. c.responses ++ pending p) e) ∙ h

  -- In every reachable state of a connection the responses whose writing was started, with the one
  -- that is postponed if there is one, are those of the requests that were read, in their order: none
  -- is lost, written twice or out of turn.
  pub responses_in_order :
      {c : Connection} → Reachable c → c.responses ++ pending c.phase ≡ answers c.requests
  responses_in_order starts = unfold answers new_connection in nothing_owed ssl
    where
      nothing_owed : (b : Bool) → pending (if b then handshaking else reading) ≡ []
      nothing_owed true = refl
      nothing_owed false = refl
  responses_in_order (steps {c} r (handshakes error e)) =
      handshake_keeps error c e (responses_in_order r)
  responses_in_order (steps {c} r (shuts_down error e)) =
      shutdown_keeps error c e (responses_in_order r)
  responses_in_order (steps {c} r (reads read e)) = read_keeps read c e (responses_in_order r)
  responses_in_order (steps {c} r (finishes res e)) = finish_keeps res c e (responses_in_order r)
  responses_in_order (steps {c} r (writes error res e)) =
      write_keeps error res c e (responses_in_order r)
