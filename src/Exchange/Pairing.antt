-- ===== src/Exchange/Pairing.antt =====
-- src/session_client.hpp with include/beauty/session.hpp: each response comes to the request that it is
-- the reply to.
use beauty_cl.Prelude.{
  ℕ, ◌≡◌, refl, sym, ap, ◌∙◌, subst, Bool, false, Option, none, List, [], ◌∷◌, ◌++◌, arith, Bytes,
  ◌⊎◌, inl, inr,
}
use beauty_cl.Session.{Request, Response, Reply}
use beauty_cl.Session.Connection
use beauty_cl.Session.Connection.{Connection, Phase, answer, answers, new_connection}
use beauty_cl.ClientSession.{ClientRequest}
use beauty_cl.Exchange.{
  Exchange, Step, client_moves, client_reconnects, client_has_written, client_reads, server_moves,
  server_reads, server_has_written, new_exchange, Reachable, starts, steps,
}
use beauty_cl.Exchange.Client.{responses_to}
use beauty_cl.Exchange.Known.{KnownNow-start, Known-had}
use beauty_cl.Exchange.Flight.{flight, silent_flight, read_flight, written_flight}
use beauty_cl.Exchange.Invariant
use beauty_cl.Exchange.Invariant.{
  client_reachable, moved_keeps, cut_keeps, written_keeps, read_keeps,
}

module _ {E J : Type 0} (ssl : Bool) (timed_out : E) (user_agent : Bytes)
    (set_host_name : Bytes → Option E) (handle : Request → Option (Reply J))
    (need_eof : Response → Bool) (wire : ClientRequest → Request) where
  abbrev reply_to : ClientRequest → List Response
  reply_to = Invariant.reply_to ssl timed_out user_agent set_host_name handle need_eof wire

  abbrev underway : Exchange E → List Response
  underway = Invariant.underway ssl timed_out user_agent set_host_name handle need_eof wire

  abbrev Awaited : Exchange E → Type 0
  Awaited = Invariant.Awaited ssl timed_out user_agent set_host_name handle need_eof wire

  abbrev Inv : Exchange E → Type 0
  Inv = Invariant.Inv ssl timed_out user_agent set_host_name handle need_eof wire

  -- What the server does changes what is under way only, and leaves the reply that the client awaits.
  served :
      (x y : Exchange E)
      → y.client ≡ x.client
      → ((o : Option (Reply J))
          → (underway x ≡ []) ⊎ (underway x ≡ answer o)
          → (underway y ≡ []) ⊎ (underway y ≡ answer o))
      → Awaited x
      → Awaited y
  served x y same keeps (inl f) = elim (keeps none (inl f)) [ inl g ↦ inl g | inr g ↦ inl g ]
  served x y same keeps (inr (i, o, f)) =
      elim (keeps (handle (wire (x.client.contexts i).request)) (inr f)) [
        | inl g ↦ inl g
        | inr g ↦ inr (
          i,
          ap (λ c. c.operation) same ∙ o,
          g ∙ ap (λ c. reply_to (c.contexts i).request) (sym same),
        )
      ]

  Step-Inv :
      {x y : Exchange E}
      → Reachable ssl timed_out user_agent set_host_name handle need_eof wire x
      → Step ssl timed_out user_agent set_host_name handle need_eof wire x y
      → Inv x
      → Inv y
  Step-Inv {x} r (client_moves step e) h =
      moved_keeps ssl timed_out user_agent set_host_name handle need_eof wire x
        (client_reachable ssl timed_out user_agent set_host_name handle need_eof wire r) step e h
  Step-Inv {x} r (client_reconnects step e) h =
      cut_keeps ssl timed_out user_agent set_host_name handle need_eof wire x step e h
  Step-Inv {x} r (client_has_written i o) h =
      written_keeps ssl timed_out user_agent set_host_name handle need_eof wire x i
        (client_reachable ssl timed_out user_agent set_host_name handle need_eof wire r) o h
  Step-Inv {x} r (client_reads i res rest o e) h =
      read_keeps ssl timed_out user_agent set_host_name handle need_eof wire x i res rest
        (client_reachable ssl timed_out user_agent set_host_name handle need_eof wire r) o e h
  Step-Inv {x} r (server_moves {c} step e) (known, awaited) = (
    known,
    served x (record x { connection = c }) refl
        (λ o. silent_flight ssl handle need_eof step e o x.to_client x.to_server) awaited,
  )
  Step-Inv {x} r (server_reads req rest p e) (known, awaited) = (
    known,
    served x
        (record x {
          connection =
              Connection.on_read ssl handle need_eof (Connection.received req) x.connection;
          to_server = rest;
        })
        refl
        (λ o.
          subst (λ l. (l ≡ []) ⊎ (l ≡ answer o))
            (ap (λ l. flight ssl handle need_eof x.to_client x.connection.phase l) e
              ∙ sym (read_flight ssl handle need_eof x.connection x.to_client req rest p)))
        awaited,
  )
  Step-Inv {x} r (server_has_written res p) (known, awaited) = (
    known,
    served x
        (record x {
          connection = Connection.on_write ssl handle need_eof false res x.connection;
          to_client = x.to_client ++ res ∷ [];
        })
        refl
        (λ o.
          subst (λ l. (l ≡ []) ⊎ (l ≡ answer o))
            (sym (written_flight ssl handle need_eof x.connection x.to_client res x.to_server p)))
        awaited,
  )

  nothing_underway :
      underway (new_exchange ssl timed_out user_agent set_host_name handle need_eof wire) ≡ []
  unfolding answers new_connection
  nothing_underway = ground arith

  Reachable-Inv :
      {x : Exchange E}
      → Reachable ssl timed_out user_agent set_host_name handle need_eof wire x
      → Inv x
  Reachable-Inv starts = ((λ k. KnownNow-start E reply_to k), inl nothing_underway)
  Reachable-Inv (steps r step) = Step-Inv r step (Reachable-Inv r)

  -- Where a client's session talks to a server's connection, anew after each error or end, the callback
  -- of a request has been called with no response or with exactly one: the one that the server's handler
  -- gives to that request, whatever other requests, timers, lost connections and postponed responses
  -- there were.
  pub responses_match :
      {x : Exchange E}
      → Reachable ssl timed_out user_agent set_host_name handle need_eof wire x
      → (k : ℕ)
      → (responses_to k x.client.calls ≡ [])
        ⊎ (responses_to k x.client.calls ≡ answer (handle (wire (x.client.contexts k).request)))
  responses_match {x} r k =
      Known-had k x.client.created (x.client.contexts k).request
        (reply_to (x.client.contexts k).request) x.client ((Reachable-Inv r).0 k)
