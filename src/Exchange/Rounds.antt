-- ===== src/Exchange/Rounds.antt =====
-- src/session_client.hpp with include/beauty/session.hpp: the requests that wait are answered by the server.
use beauty_cl.Prelude.{
  ℕ, ◌≡◌, ◌≢◌, ◌⊎◌, inl, inr, refl, sym, ap, ◌∙◌, subst, Bool, true, false, Option, some, List, [],
  ◌∷◌, ◌++◌, arith, Bytes, ◌==◌, Bool-cases, if◌then◌else◌,
}
use beauty_cl.Session.{Request, Response, Reply, respond}
use beauty_cl.Session.Connection
use beauty_cl.Session.Connection.{Connection, Phase, answer, deliver, write_response}
use beauty_cl.ClientSession.{
  ClientRequest, ClientSession, responded, idle, writing, reading, received, on_read,
}
use beauty_cl.ClientSession.Steps.{worker, ended}
use beauty_cl.ClientSession.Taken.{is_member}
use beauty_cl.ClientSession.Rounds.{next_operation, written, round, written_reads, round_takes}
use beauty_cl.Exchange.{
  Exchange, client_has_written, client_reads, server_moves, server_reads, server_has_written,
  Reachable, steps,
}
use beauty_cl.Exchange.Client.{responses_to}
use beauty_cl.Exchange.Responses.{
  responses_to-grows, responses_to-last, is_member-later, Awaits, round_calls, round_answers,
  round_request, round-Awaits,
}
use beauty_cl.Exchange.Pairing.{responses_match}

-- The server answers each request with the response `f`, which may be postponed, and leaves the connection
-- open.
module _ {E J : Type 0} (ssl : Bool) (timed_out : E) (user_agent : Bytes)
    (set_host_name : Bytes → Option E) (handle : Request → Option (Reply J))
    (need_eof : Response → Bool) (wire : ClientRequest → Request) (f : Request → Response)
    (responds : (req : Request) → handle req ≡ some (respond (f req)))
    (keeps_open : (res : Response) → need_eof res ≡ false) where
  abbrev Reached : Exchange E → Type 0
  Reached = Reachable ssl timed_out user_agent set_host_name handle need_eof wire

  -- The server waits for a request, and nothing is under way.
  abbrev pub IsReady : Exchange E → Type 0
  IsReady x = (x.connection.phase ≡ Phase.reading) × (x.to_server ≡ []) × (x.to_client ≡ [])

  written_phase :
      (res : Response) (c : Connection)
      → (Connection.on_write ssl handle need_eof false res c).phase ≡ Phase.reading
  unfolding Connection.on_write
  written_phase res c = rw (keeps_open res) refl

  delivered_phase :
      (req : Request) (c : Connection)
      → (Connection.on_read ssl handle need_eof (Connection.received req) c).phase
        ≡ (if (f req).is_postponed then Phase.postponed (f req) else Phase.writing (f req))
  unfolding Connection.on_read deliver write_response
  delivered_phase req c = rw (responds req) (ground arith)

  -- The end of a round, from the response that the server writes.
  response_read :
      (w : Exchange E) (i : ℕ) (res : Response)
      → Reached w
      → w.client.operation ≡ reading i
      → w.connection.phase ≡ Phase.writing res
      → w.to_server ≡ []
      → w.to_client ≡ []
      → (y : Exchange E) × Reached y
        × (y.client
            ≡ worker
                (on_read ssl timed_out user_agent set_host_name (received res) (ended w.client)))
        × IsReady y
  response_read w i res r o p e q = (
    _,
    steps (steps r (server_has_written res p))
        (client_reads i res [] o (ap (λ l. l ++ res ∷ []) q)),
    refl,
    (written_phase res w.connection, e, refl),
  )

  round_served :
      (x : Exchange E) (i : ℕ) (waiting : List ℕ)
      → Reached x
      → x.client.operation ≡ writing i
      → x.client.requests ≡ i ∷ waiting
      → IsReady x
      → (y : Exchange E) × Reached y
        × (y.client
            ≡ round ssl timed_out user_agent set_host_name
                (f (wire (x.client.contexts i).request))
                x.client)
        × IsReady y
  round_served x i waiting r o q (p, e, e') = elim (Bool-cases (f req).is_postponed) [
    | inl later ↦
        response_read (record read_one { connection = write_response (f req) read_one.connection })
          i (f req)
          (steps read_reached (
            server_moves
              (Connection.finishes (f req) (delivered_phase req x.connection ∙ rw later refl))
              refl))
          reads (unfold write_response in refl) refl e'
    | inr now ↦
        response_read read_one i (f req) read_reached reads
          (delivered_phase req x.connection ∙ rw now refl) refl e'
  ]
    where
      req : Request
      req = wire (x.client.contexts i).request

      reads : (written ssl timed_out user_agent set_host_name x.client).operation ≡ reading i
      reads = (written_reads ssl timed_out user_agent set_host_name x.client i waiting q).0

      read_one : Exchange E
      read_one = record {
        client = written ssl timed_out user_agent set_host_name x.client;
        connection = Connection.on_read ssl handle need_eof (Connection.received req) x.connection;
        to_server = [];
        to_client = x.to_client;
      }

      read_reached : Reached read_one
      read_reached =
          steps (steps r (client_has_written i o))
            (server_reads req [] p (ap (λ l. l ++ req ∷ []) e))

  -- A request of the queue that awaits its response, or one whose callback had a response.
  abbrev Served : ℕ → ClientSession E Response → Type 0
  Served k s =
      ((is_member k s.requests ≡ true) × Awaits (s.contexts k)) ⊎ (responses_to k s.calls ≢ [])

  round-Served :
      (k : ℕ) (res : Response) (s : ClientSession E Response) (i : ℕ) (waiting : List ℕ)
      → s.requests ≡ i ∷ waiting
      → Served k s
      → Served k (round ssl timed_out user_agent set_host_name res s)
  round-Served k res s i waiting q (inr had) = inr (λ none_left. had (before none_left))
    where
      before :
          responses_to k (round ssl timed_out user_agent set_host_name res s).calls ≡ []
          → responses_to k s.calls ≡ []
      before h = elim (round_calls ssl timed_out user_agent set_host_name res s i waiting q) [
        | inl same ↦ ap (responses_to k) (sym same) ∙ h
        | inr more ↦ responses_to-grows k i res s.calls (ap (responses_to k) (sym more) ∙ h)
      ]
  round-Served k res s i waiting q (inl (member, awaits)) = elim (Bool-cases (k == i)) [
    | inl same ↦ inr (had (ground arith))
    | inr other ↦ inl (
      ap (is_member k) (round_takes ssl timed_out user_agent set_host_name s res i waiting q).0
          ∙ is_member-later k i waiting other (ap (is_member k) (sym q) ∙ member),
      round-Awaits ssl timed_out user_agent set_host_name res s i waiting q k other awaits,
    )
  ]
    where
      had : k ≡ i → responses_to k (round ssl timed_out user_agent set_host_name res s).calls ≢ []
      had e none_had = responses_to-last i res s.calls (
          ap (λ j. responses_to j (s.calls ++ (i, responded res) ∷ [])) (sym e)
          ∙ ap (responses_to k) (
              sym (
                round_answers ssl timed_out user_agent set_host_name res s i waiting q
                  (subst (λ j. Awaits (s.contexts j)) e awaits)))
          ∙ none_had)

  -- What rounds have done to a session when these requests are left.
  abbrev After : List ℕ → ClientSession E Response → ClientSession E Response → Type 0
  After waiting s t =
      (t.requests ≡ waiting)
      × (t.operation ≡ next_operation waiting)
      × ((k : ℕ) → (t.contexts k).request ≡ (s.contexts k).request)
      × ((k : ℕ) → Served k s → Served k t)

  round-After :
      (res : Response) (s : ClientSession E Response) (i : ℕ) (waiting : List ℕ)
      → s.requests ≡ i ∷ waiting
      → After waiting s (round ssl timed_out user_agent set_host_name res s)
  round-After res s i waiting q =
      let (left, answered, next, pending) =
        round_takes ssl timed_out user_agent set_host_name s res i waiting q in
      (
        left,
        next,
        round_request ssl timed_out user_agent set_host_name res s i waiting q,
        λ k. round-Served k res s i waiting q,
      )

  rounds_served :
      (waiting : List ℕ) (x : Exchange E) (i : ℕ)
      → Reached x
      → x.client.operation ≡ writing i
      → x.client.requests ≡ i ∷ waiting
      → IsReady x
      → (y : Exchange E) × Reached y × After [] x.client y.client × IsReady y
  rounds_served [] x i r o q ready =
      let (y, reached, same, ready') = round_served x i [] r o q ready in
      (y, reached, subst (After [] x.client) (sym same) (round-After _ x.client i [] q), ready')
  rounds_served (j ∷ waiting) x i r o q ready =
      let (y, reached, same, ready') = round_served x i (j ∷ waiting) r o q ready in
      let (left, next, asks, serves) : After (j ∷ waiting) x.client y.client =
        subst (After (j ∷ waiting) x.client) (sym same)
          (round-After _ x.client i (j ∷ waiting) q) in
      let (z, reached', (left', next', asks', serves'), ready'') =
        rounds_served waiting y j reached next left ready' in
      (
        z,
        reached',
        (left', next', (λ k. asks' k ∙ asks k), λ k had. serves' k (serves k had)),
        ready'',
      )

  -- Where, in a reachable state, the client is writing the first request of its queue, the server waits
  -- for a request and nothing is under way, and the server answers every request with the response `f`,
  -- postponed or not, and keeps the connection open after it: both can go on to a state in which no
  -- request waits and nothing is under way, and in which each request of the queue whose callback was
  -- held, and whose timer was not late, has had exactly the response to what it asks.
  pub waiting_answered :
      (waiting : List ℕ) (x : Exchange E) (i : ℕ)
      → Reached x
      → x.client.operation ≡ writing i
      → x.client.requests ≡ i ∷ waiting
      → IsReady x
      → (y : Exchange E) × Reached y
        × (y.client.requests ≡ [])
        × (y.client.operation ≡ idle)
        × IsReady y
        × ((k : ℕ)
            → is_member k x.client.requests ≡ true
            → Awaits (x.client.contexts k)
            → responses_to k y.client.calls ≡ f (wire (x.client.contexts k).request) ∷ [])
  waiting_answered waiting x i r o q ready =
      let (y, reached, (left, next, asks, serves), ready') =
        rounds_served waiting x i r o q ready in
      (
        y,
        reached,
        left,
        next,
        ready',
        λ k member awaits.
            own_response k y reached left (serves k (inl (member, awaits)))
            ∙ ap (λ c. f (wire c) ∷ []) (asks k),
      )
    where
      own_response :
          (k : ℕ) (y : Exchange E)
          → Reached y
          → y.client.requests ≡ []
          → Served k y.client
          → responses_to k y.client.calls ≡ f (wire (y.client.contexts k).request) ∷ []
      own_response k y reached left (inl (member, awaits)) =
          absurd (unfold is_member in cc (ap (is_member k) left))
      own_response k y reached left (inr had) =
          elim (responses_match ssl timed_out user_agent set_host_name handle need_eof wire reached
            k) [
              | inl none_had ↦ absurd (had none_had)
              | inr reply ↦ reply ∙ ap answer (responds (wire (y.client.contexts k).request))
            ]
