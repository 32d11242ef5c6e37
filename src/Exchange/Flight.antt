-- ===== src/Exchange/Flight.antt =====
-- include/beauty/session.hpp: the responses that are under way from a connection to a client.
use beauty_cl.Prelude.{
  ◌≡◌, refl, sym, ap, ◌∙◌, Bool, true, false, Option, none, some, List, [], ◌∷◌, ◌++◌, append_assoc,
  arith, ◌⊎◌, inl, inr,
}
use beauty_cl.Session.{Request, Response, Reply, respond, websocket_session, sse_session}
use beauty_cl.Session.Connection
use beauty_cl.Session.Connection.{
  Connection, Phase, on_ssl_handshake, on_ssl_shutdown, do_close, deliver, write_response, answer,
  answers, answers-append,
}
use beauty_cl.Exchange.{is_silent}

-- The response that the server has yet to write.
abbrev pub in_hand : Phase → List Response
in_hand (Phase.postponed res) = res ∷ []
in_hand (Phase.writing res) = res ∷ []
in_hand _ = []

nothing_left : (a b : List Response) → a ++ b ≡ [] → (a ≡ []) × (b ≡ [])
nothing_left [] b e = (refl, e)
nothing_left (x ∷ a) b e = absurd cc

module _ {J : Type 0} where
  pub one_reply :
      (o : Option (Reply J)) (res : Response) (l : List Response)
      → res ∷ l ≡ answer o
      → (l ≡ []) × (answer o ≡ res ∷ [])
  one_reply none res l e = absurd cc
  one_reply (some (respond r)) res l e = ground arith
  one_reply (some (websocket_session r req)) res l e = absurd cc
  one_reply (some (sse_session r req)) res l e = absurd cc

  -- A response that is lost on the way leaves none behind.
  lost_response :
      (o : Option (Reply J)) (a h b : List Response)
      → (a ++ (h ++ b) ≡ []) ⊎ (a ++ (h ++ b) ≡ answer o)
      → (a ++ b ≡ []) ⊎ (a ++ b ≡ answer o)
  lost_response o [] [] b e = e
  lost_response o [] (x ∷ h) b (inl e) = absurd cc
  lost_response o [] (x ∷ h) b (inr e) = inl (nothing_left h b (one_reply o x (h ++ b) e).0).1
  lost_response o (y ∷ a) h b (inl e) = absurd cc
  lost_response o (y ∷ a) h b (inr e) =
      let (empty, only) = one_reply o y (a ++ (h ++ b)) e in
      let (first, rest) = nothing_left a (h ++ b) empty in
      inr (ground (arith, nothing_left h b rest))

module _ {J : Type 0} (ssl : Bool) (handle : Request → Option (Reply J))
    (need_eof : Response → Bool) where
  -- The responses that were written, the one in hand, and those to the requests that are not read yet.
  abbrev pub flight : List Response → Phase → List Request → List Response
  flight to_client phase to_server =
      to_client ++ (in_hand phase ++ answers ssl handle need_eof to_server)

  closed_in_hand : (b : Bool) (c : Connection) → in_hand (do_close b c).phase ≡ []
  unfolding do_close
  closed_in_hand true c = refl
  closed_in_hand false c = refl

  -- A step of the server that is silent keeps the response in hand, or loses it.
  silent_in_hand :
      {c d : Connection} (step : Connection.Step ssl handle need_eof c d)
      → is_silent ssl handle need_eof step ≡ true
      → (in_hand d.phase ≡ in_hand c.phase) ⊎ (in_hand d.phase ≡ [])
  unfolding on_ssl_handshake on_ssl_shutdown Connection.on_read Connection.on_write write_response
  silent_in_hand (Connection.handshakes error e) s = inr (ground arith)
  silent_in_hand (Connection.shuts_down error e) s = inr (ground arith)
  silent_in_hand {c} (Connection.reads Connection.end_of_stream e) s = inr (closed_in_hand ssl c)
  silent_in_hand (Connection.reads Connection.read_error e) s = inr refl
  silent_in_hand (Connection.reads (Connection.received req) e) s = absurd cc
  silent_in_hand (Connection.finishes res e) s = inl (sym (ap in_hand e))
  silent_in_hand (Connection.writes true res e) s = inr refl
  silent_in_hand (Connection.writes false res e) s = absurd cc

  pub silent_flight :
      {c d : Connection} (step : Connection.Step ssl handle need_eof c d)
      → is_silent ssl handle need_eof step ≡ true
      → (o : Option (Reply J)) (to_client : List Response) (to_server : List Request)
      → (flight to_client c.phase to_server ≡ []) ⊎ (flight to_client c.phase to_server ≡ answer o)
      → (flight to_client d.phase to_server ≡ []) ⊎ (flight to_client d.phase to_server ≡ answer o)
  silent_flight step s o to_client to_server h = elim (silent_in_hand step s) [
    | inl same ↦ rw same h
    | inr lost ↦ rw lost (lost_response o to_client _ (answers ssl handle need_eof to_server) h)
  ]

  -- A request that is read is answered, if at all, by the response that is then in hand.
  delivered_in_hand :
      (o : Option (Reply J)) (c : Connection) → in_hand (deliver o c).phase ≡ answer o
  unfolding deliver write_response
  delivered_in_hand none c = refl
  delivered_in_hand (some (respond res)) c = ground arith
  delivered_in_hand (some (websocket_session r req)) c = refl
  delivered_in_hand (some (sse_session r req)) c = refl

  pub read_flight :
      (c : Connection) (to_client : List Response) (req : Request) (rest : List Request)
      → c.phase ≡ Phase.reading
      → flight to_client
          (Connection.on_read ssl handle need_eof (Connection.received req) c).phase
          rest
        ≡ flight to_client c.phase (req ∷ rest)
  unfolding answers Connection.on_read
  read_flight c to_client req rest e =
      ap (λ l. to_client ++ l)
        (ap (λ l. l ++ answers ssl handle need_eof rest)
            (delivered_in_hand (handle req) (record c { requests = c.requests ++ req ∷ [] }))
          ∙ sym
              (ap (λ p. in_hand p ++ (answer (handle req) ++ answers ssl handle need_eof rest)) e))

  written_in_hand :
      (res : Response) (c : Connection)
      → in_hand (Connection.on_write ssl handle need_eof false res c).phase ≡ []
  unfolding Connection.on_write do_close
  written_in_hand res c = ground arith

  pub written_flight :
      (c : Connection) (to_client : List Response) (res : Response) (to_server : List Request)
      → c.phase ≡ Phase.writing res
      → flight
          (to_client ++ res ∷ [])
          (Connection.on_write ssl handle need_eof false res c).phase
          to_server
        ≡ flight to_client c.phase to_server
  written_flight c to_client res to_server e =
      ap (λ l. (to_client ++ res ∷ []) ++ (l ++ answers ssl handle need_eof to_server))
        (written_in_hand res c)
      ∙ append_assoc to_client (res ∷ []) (answers ssl handle need_eof to_server)
      ∙ sym (ap (λ p. to_client ++ (in_hand p ++ answers ssl handle need_eof to_server)) e)

  -- A request that is sent while nothing is under way.
  pub sent_flight :
      (to_client : List Response) (p : Phase) (to_server : List Request) (req : Request)
      → flight to_client p to_server ≡ []
      → flight to_client p (to_server ++ req ∷ []) ≡ answer (handle req)
  sent_flight to_client p to_server req e =
      ap (λ l. to_client ++ (in_hand p ++ l)) (answers-append ssl handle need_eof to_server req)
      ∙ ap (λ l. to_client ++ l)
          (sym (
            append_assoc (in_hand p) (answers ssl handle need_eof to_server) (answer (handle req))))
      ∙ sym (
          append_assoc to_client (in_hand p ++ answers ssl handle need_eof to_server)
            (answer (handle req)))
      ∙ ap (λ l. l ++ answer (handle req)) e
