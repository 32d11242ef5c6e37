-- ===== src/Exchange/Invariant.antt =====
-- src/session_client.hpp with include/beauty/session.hpp: what is under way is what the client waits for,
-- whatever the client does.
use beauty_cl.Prelude.{
  ℕ, ◌<◌, ◌≡◌, sym, ap, ◌∙◌, subst, Bool, true, Option, none, List, [], ◌∷◌, ◌++◌, arith, Bytes,
  ◌⊎◌, inl, inr,
}
use beauty_cl.Session.{Request, Response, Reply}
use beauty_cl.Session.Connection.{answer, answers, new_connection}
use beauty_cl.ClientSession.{ClientRequest, ClientSession, reading, writing, received, on_read}
use beauty_cl.ClientSession.Steps
use beauty_cl.ClientSession.Steps.{new_session, worker, ended}
use beauty_cl.ClientSession.Order.{first_ids, Needs, queue_in_order}
use beauty_cl.ClientSession.Waiting.{waiting_below}
use beauty_cl.Exchange.{
  Exchange, is_local, is_cut, client_moves, client_reconnects, client_has_written, client_reads,
  server_moves, server_reads, server_has_written, Reachable, starts, steps,
}
use beauty_cl.Exchange.Client.{Known, worker-Known, take_response-Known}
use beauty_cl.Exchange.Known.{KnownNow, KnownNow-keeps, Known-asked, ended-Known}
use beauty_cl.Exchange.Moves.{
  local_Known, cut_Known, local_reading, written_reading, written_session, written_Known,
}
use beauty_cl.Exchange.Flight.{flight, one_reply, sent_flight}

module _ {E J : Type 0} (ssl : Bool) (timed_out : E) (user_agent : Bytes)
    (set_host_name : Bytes → Option E) (handle : Request → Option (Reply J))
    (need_eof : Response → Bool) (wire : ClientRequest → Request) where
  pub client_reachable :
      {x : Exchange E}
      → Reachable ssl timed_out user_agent set_host_name handle need_eof wire x
      → Steps.Reachable ssl timed_out user_agent set_host_name new_session x.client
  client_reachable starts = Steps.starts
  client_reachable (steps r (client_moves step e)) = Steps.steps (client_reachable r) step
  client_reachable (steps r (client_reconnects step e)) = Steps.steps (client_reachable r) step
  client_reachable (steps r (client_has_written i o)) =
      Steps.steps (client_reachable r) (Steps.writes none i o)
  client_reachable (steps r (client_reads i res rest o e)) =
      Steps.steps (client_reachable r) (Steps.reads (received res) i o)
  client_reachable (steps r (server_moves step e)) = client_reachable r
  client_reachable (steps r (server_reads req rest p e)) = client_reachable r
  client_reachable (steps r (server_has_written res p)) = client_reachable r

  abbrev pub reply_to : ClientRequest → List Response
  reply_to req = answer (handle (wire req))

  abbrev pub underway : Exchange E → List Response
  underway x = flight ssl handle need_eof x.to_client x.connection.phase x.to_server

  -- Nothing is under way, or what the client waits for.
  abbrev pub Awaited : Exchange E → Type 0
  Awaited x =
      (underway x ≡ [])
      ⊎ ((i : ℕ) × (x.client.operation ≡ reading i)
          × (underway x ≡ reply_to (x.client.contexts i).request))

  abbrev pub Inv : Exchange E → Type 0
  Inv x = ((k : ℕ) → KnownNow reply_to k x.client) × Awaited x

  -- A request asks the same after a step that keeps what is known of it.
  still_asks :
      (k : ℕ) (s t : ClientSession E Response)
      → (Known k s.created (s.contexts k).request (reply_to (s.contexts k).request) s
          → Known k s.created (s.contexts k).request (reply_to (s.contexts k).request) t)
      → KnownNow reply_to k s
      → k < s.created
      → reply_to (s.contexts k).request ≡ reply_to (t.contexts k).request
  still_asks k s t step h lt = ap reply_to (
      sym (
        Known-asked k s.created (s.contexts k).request (reply_to (s.contexts k).request) t (step h)
          lt))

  pub moved_keeps :
      (x : Exchange E) {s : ClientSession E Response}
      → Steps.Reachable ssl timed_out user_agent set_host_name new_session x.client
      → (step : Steps.Step ssl timed_out user_agent set_host_name x.client s)
      → is_local ssl timed_out user_agent set_host_name step ≡ true
      → Inv x
      → Inv (record x { client = s })
  moved_keeps x {s} r step e (known, awaited) = (now, later awaited)
    where
      now : (k : ℕ) → KnownNow reply_to k s
      now k =
          KnownNow-keeps reply_to k x.client s
            (λ reply own.
              local_Known ssl timed_out user_agent set_host_name k x.client.created
                (x.client.contexts k).request reply step e)
            (known k)

      later : Awaited x → Awaited (record x { client = s })
      later (inl quiet) = inl quiet
      later (inr (i, o, f)) =
          let order = queue_in_order ssl timed_out user_agent set_host_name r in
          let (p, waiting, q) : Needs (reading i) x.client.pending_request x.client.requests =
            subst (λ op. Needs op x.client.pending_request x.client.requests) o order.1 in
          inr (
            i,
            local_reading ssl timed_out user_agent set_host_name step e order.1 i o,
            f
                ∙ still_asks i x.client s
                    (local_Known ssl timed_out user_agent set_host_name i x.client.created
                      (x.client.contexts i).request (reply_to (x.client.contexts i).request) step e)
                    (known i) (waiting_below ssl timed_out user_agent set_host_name r i waiting q),
          )

  pub cut_keeps :
      (x : Exchange E) {s : ClientSession E Response}
      → (step : Steps.Step ssl timed_out user_agent set_host_name x.client s)
      → is_cut ssl timed_out user_agent set_host_name step ≡ true
      → Inv x
      → Inv (record { client = s; connection = new_connection ssl; to_server = []; to_client = [] })
  unfolding answers new_connection
  cut_keeps x {s} step e (known, awaited) = (now, inl (ground arith))
    where
      now : (k : ℕ) → KnownNow reply_to k s
      now k =
          KnownNow-keeps reply_to k x.client s
            (λ reply own.
              cut_Known ssl timed_out user_agent set_host_name k x.client.created
                (x.client.contexts k).request reply step e)
            (known k)

  pub written_keeps :
      (x : Exchange E) (i : ℕ)
      → Steps.Reachable ssl timed_out user_agent set_host_name new_session x.client
      → x.client.operation ≡ writing i
      → Inv x
      → Inv (record x {
        client = written_session ssl timed_out user_agent set_host_name x.client;
        to_server = x.to_server ++ wire (x.client.contexts i).request ∷ [];
      })
  written_keeps x i r o (known, awaited) = (
    now,
    inr (
      i,
      written_reading ssl timed_out user_agent set_host_name x.client i order.1 o,
      sent_flight ssl handle need_eof x.to_client x.connection.phase x.to_server _ (quiet awaited)
          ∙ still_asks i x.client (written_session ssl timed_out user_agent set_host_name x.client)
              (written_Known ssl timed_out user_agent set_host_name i x.client.created
                (x.client.contexts i).request (reply_to (x.client.contexts i).request) x.client)
              (known i) (waiting_below ssl timed_out user_agent set_host_name r i needs.1 needs.2),
    ),
  )
    where
      order :
          (x.client.answered ++ x.client.requests ≡ first_ids x.client.created)
          × Needs x.client.operation x.client.pending_request x.client.requests
      order = queue_in_order ssl timed_out user_agent set_host_name r

      needs : Needs (writing i) x.client.pending_request x.client.requests
      needs = subst (λ op. Needs op x.client.pending_request x.client.requests) o order.1

      now :
          (k : ℕ)
          → KnownNow reply_to k (written_session ssl timed_out user_agent set_host_name x.client)
      now k =
          KnownNow-keeps reply_to k x.client
            (written_session ssl timed_out user_agent set_host_name x.client)
            (λ reply own.
              written_Known ssl timed_out user_agent set_host_name k x.client.created
                (x.client.contexts k).request reply x.client)
            (known k)

      quiet : Awaited x → underway x ≡ []
      quiet (inl e) = e
      quiet (inr (j, reads, f)) = absurd cc

  -- The response that the client reads is the reply to the request that it reads for.
  own_response :
      (x : Exchange E) (i : ℕ) (res : Response) (rest : List Response)
      → x.client.operation ≡ reading i
      → x.to_client ≡ res ∷ rest
      → Awaited x
      → (flight ssl handle need_eof rest x.connection.phase x.to_server ≡ [])
        × (reply_to (x.client.contexts i).request ≡ res ∷ [])
  own_response x i res rest o e (inl f) = absurd (ground arith)
  own_response x i res rest o e (inr (j, p, f)) =
      one_reply (handle (wire (x.client.contexts i).request)) res
        (flight ssl handle need_eof rest x.connection.phase x.to_server) (grind arith)

  abbrev read_session : Response → ClientSession E Response → ClientSession E Response
  read_session res s =
      worker (on_read ssl timed_out user_agent set_host_name (received res) (ended s))

  pub read_keeps :
      (x : Exchange E) (i : ℕ) (res : Response) (rest : List Response)
      → Steps.Reachable ssl timed_out user_agent set_host_name new_session x.client
      → x.client.operation ≡ reading i
      → x.to_client ≡ res ∷ rest
      → Inv x
      → Inv (record x { client = read_session res x.client; to_client = rest })
  unfolding on_read
  read_keeps x i res rest r o e (known, awaited) = (now, inl own.0)
    where
      own :
          (flight ssl handle need_eof rest x.connection.phase x.to_server ≡ [])
          × (reply_to (x.client.contexts i).request ≡ res ∷ [])
      own = own_response x i res rest o e awaited

      needs : Needs (reading i) x.client.pending_request x.client.requests
      needs =
          subst (λ op. Needs op x.client.pending_request x.client.requests) o
            (queue_in_order ssl timed_out user_agent set_host_name r).1

      below : i < x.client.created
      below = waiting_below ssl timed_out user_agent set_host_name r i needs.1 needs.2

      replied :
          (k : ℕ) (reply : List Response)
          → k ≡ i
          → (k < x.client.created → reply ≡ reply_to (x.client.contexts k).request)
          → reply ≡ res ∷ []
      replied k reply same mine =
          mine (omega (arith, same, below))
          ∙ ap (λ j. reply_to (x.client.contexts j).request) same
          ∙ own.1

      now : (k : ℕ) → KnownNow reply_to k (read_session res x.client)
      now k =
          KnownNow-keeps reply_to k x.client (read_session res x.client)
            (λ reply mine h. worker-Known k x.client.created (x.client.contexts k).request reply _ (
              take_response-Known k x.client.created (x.client.contexts k).request reply res
                (ended x.client) i needs.1 needs.2 (λ same. replied k reply (ground arith) mine)
                (ended-Known k x.client.created (x.client.contexts k).request reply x.client h)))
            (known k)
