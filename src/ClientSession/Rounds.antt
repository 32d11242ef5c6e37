-- ===== src/ClientSession/Rounds.antt =====
-- src/session_client.hpp: the requests that wait are answered.
use beauty_cl.Prelude.{
  ℕ, ◌≡◌, refl, sym, ap, ◌∙◌, Bool, false, not, Option, none, List, [], ◌∷◌, ◌++◌, append_assoc,
  arith, Bytes, is_empty, length,
}
use beauty_cl.ClientSession.{
  Operation, idle, writing, reading, ClientSession, call_back, cancel_timer, received, do_write,
  on_write, on_read, take_first, take_response, release,
}
use beauty_cl.ClientSession.Steps.{new_session, writes, reads, Reachable, steps, worker, ended}

-- The write that follows a response, if a request waits.
abbrev pub next_operation : List ℕ → Operation
next_operation [] = idle
next_operation (i ∷ waiting) = writing i

module _ {E R : Type 0} (ssl : Bool) (timed_out : E) (user_agent : Bytes)
    (set_host_name : Bytes → Option E) where
  -- The end of a write and that of the read of its response.
  abbrev pub written : ClientSession E R → ClientSession E R
  written s = worker (on_write ssl timed_out user_agent set_host_name none (ended s))

  abbrev pub round : R → ClientSession E R → ClientSession E R
  round r s =
      worker (on_read ssl timed_out user_agent set_host_name (received r) (ended (written s)))

  -- A round for each response.
  unfoldable pub rounds : List R → ClientSession E R → ClientSession E R
  rounds [] s = s
  rounds (r ∷ rs) s = rounds rs (round r s)

  pub written_reads :
      (s : ClientSession E R) (i : ℕ) (waiting : List ℕ)
      → s.requests ≡ i ∷ waiting
      → ((written s).operation ≡ reading i)
        × ((written s).requests ≡ i ∷ waiting)
        × ((written s).answered ≡ s.answered)
  unfolding on_write worker
  written_reads s i waiting e = ground arith

  taken :
      (s : ClientSession E R) (r : R) (i : ℕ) (waiting : List ℕ)
      → s.requests ≡ i ∷ waiting
      → s.operation ≡ idle
      → ((take_response r s).requests ≡ waiting)
        × ((take_response r s).answered ≡ s.answered ++ i ∷ [])
        × ((take_response r s).operation ≡ next_operation waiting)
        × ((take_response r s).pending_request ≡ not (is_empty waiting))
  unfolding take_response take_first do_write release call_back cancel_timer
  taken s r i waiting e o = ground arith

  pub round_takes :
      (s : ClientSession E R) (r : R) (i : ℕ) (waiting : List ℕ)
      → s.requests ≡ i ∷ waiting
      → ((round r s).requests ≡ waiting)
        × ((round r s).answered ≡ s.answered ++ i ∷ [])
        × ((round r s).operation ≡ next_operation waiting)
        × ((round r s).pending_request ≡ not (is_empty waiting))
  round_takes s r i waiting e =
      let (o, q, a) = written_reads s i waiting e in
      let (q', a', o', p') = taken (ended (written s)) r i waiting q refl in
      unfold on_read worker in (q', a' ∙ ap (λ l. l ++ i ∷ []) a, o', p')

  round-Reachable :
      (s : ClientSession E R) (r : R) (i : ℕ) (waiting : List ℕ)
      → s.operation ≡ writing i
      → s.requests ≡ i ∷ waiting
      → Reachable ssl timed_out user_agent set_host_name new_session s
      → Reachable ssl timed_out user_agent set_host_name new_session (round r s)
  round-Reachable s r i waiting o e h =
      steps (steps h (writes none i o)) (reads (received r) i (written_reads s i waiting e).0)

  -- Where the first request of the queue of a reachable session is being written and no operation fails,
  -- as many responses as requests wait lead to a reachable state in which all of them have been taken
  -- from the queue in their order, no request waits or is pending, and no operation is under way.
  pub rounds_answer_all :
      {s : ClientSession E R} (r : R) (rs : List R) (i : ℕ) (waiting : List ℕ)
      → Reachable ssl timed_out user_agent set_host_name new_session s
      → s.operation ≡ writing i
      → s.requests ≡ i ∷ waiting
      → length rs ≡ length waiting
      → let t = rounds (r ∷ rs) s in
        Reachable ssl timed_out user_agent set_host_name new_session t
        × (t.answered ≡ s.answered ++ s.requests)
        × (t.requests ≡ [])
        × (t.pending_request ≡ false)
        × (t.operation ≡ idle)
  unfolding rounds
  rounds_answer_all {s} r [] i [] h o e n =
      let (q, a, o', p) = round_takes s r i [] e in
      (round-Reachable s r i [] o e h, a ∙ ap (λ l. s.answered ++ l) (sym e), q, p, o')
  rounds_answer_all {s} r [] i (j ∷ waiting) h o e n = absurd (ground arith)
  rounds_answer_all {s} r (r' ∷ rs) i [] h o e n = absurd (ground arith)
  rounds_answer_all {s} r (r' ∷ rs) i (j ∷ waiting) h o e n =
      let (q, a, o', p) = round_takes s r i (j ∷ waiting) e in
      let (h', a', q', p', o'') =
        rounds_answer_all {s = round r s} r' rs j waiting
          (round-Reachable s r i (j ∷ waiting) o e h) o' q (omega arith) in
      (
        h',
        a'
            ∙ ap (λ l. l ++ (round r s).requests) a
            ∙ append_assoc s.answered (i ∷ []) (round r s).requests
            ∙ ap (λ l. s.answered ++ i ∷ l) q
            ∙ ap (λ l. s.answered ++ l) (sym e),
        q',
        p',
        o'',
      )
