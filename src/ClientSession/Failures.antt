-- ===== src/ClientSession/Failures.antt =====
-- src/session_client.hpp: what an error leaves behind.
use beauty_cl.Prelude.{
  ℕ, ◌≡◌, ◌≢◌, refl, sym, ap, subst, ◌∙◌, Bool, true, false, Option, none, some, List, [], ◌∷◌,
  ◌++◌, append_assoc, append-nil, arith, Bytes, is_empty,
}
use beauty_cl.ClientSession.{
  Operation, idle, resolving, connecting, handshaking, writing, reading, ClientSession,
  RequestContext, fail, fail_first, call_back, cancel_timer, read_error, on_resolve, on_connect,
  on_handshake, on_write, on_read, mark_too_late, on_timer, push_request, rearm, run_context, run,
  create_context,
}
use beauty_cl.ClientSession.Order.{Needs, queue_in_order}
use beauty_cl.ClientSession.Steps.{
  new_session, Step, runs, resolves, connects, handshakes, writes, reads, times, Reachable, starts,
  steps, worker, ended, fired,
}

Needs-pending :
    (o : Operation) (p : Bool) (requests : List ℕ)
    → o ≢ idle
    → Needs o p requests
    → (p ≡ true) × (is_empty requests ≡ false)
Needs-pending idle p requests n h = absurd (n refl)
Needs-pending (resolving host port) p requests n h = h
Needs-pending connecting p requests n h = h
Needs-pending handshaking p requests n h = h
Needs-pending (writing i) p requests n (a, waiting, e) = (a, ap is_empty e)
Needs-pending (reading i) p requests n (a, waiting, e) = (a, ap is_empty e)

module _ {E R : Type 0} where
  -- A request is pending, but nothing is under way that could end.
  abbrev IsStuck : ClientSession E R → Type 0
  IsStuck s = (s.operation ≡ idle) × (s.pending_request ≡ true) × (is_empty s.requests ≡ false)

  -- What was sent and answered is the same, and requests came behind those that waited.
  abbrev pub IsHeldUp : ClientSession E R → ClientSession E R → Type 0
  IsHeldUp s t =
      (t.sent ≡ s.sent)
      × (t.answered ≡ s.answered)
      × (later : List ℕ) × (t.requests ≡ s.requests ++ later)

  -- The same but for the contexts, the calls and the errors.
  abbrev SameQueue : ClientSession E R → ClientSession E R → Type 0
  SameQueue s t =
      (t.operation ≡ s.operation)
      × (t.pending_request ≡ s.pending_request)
      × (t.requests ≡ s.requests)
      × (t.sent ≡ s.sent)
      × (t.answered ≡ s.answered)

  worker_same : (o : ClientSession E R × Option E) → SameQueue o.0 (worker o)
  unfolding worker
  worker_same (s, none) = (refl, refl, refl, refl, refl)
  worker_same (s, some e) = (refl, refl, refl, refl, refl)

  fail_same : (i : ℕ) (e : E) (s : ClientSession E R) → SameQueue s (fail i e s).0
  unfolding fail call_back
  fail_same i e s = ground arith

  fail_first_same : (e : E) (s : ClientSession E R) → SameQueue s (fail_first e s).0
  unfolding fail_first
  fail_first_same e s = grind (arith, fail_same)

  module _ (ssl : Bool) (timed_out : E) (user_agent : Bytes)
      (set_host_name : Bytes → Option E) where
    -- The handler of the operation that is under way, with an error. A socket that does not connect may
    -- be left open.
    abbrev pub fail_operation :
        Operation → Bool → E → ClientSession E R → ClientSession E R × Option E
    fail_operation idle is_open e s = (s, none)
    fail_operation (resolving host port) is_open e s =
        on_resolve ssl timed_out user_agent set_host_name (some e) s
    fail_operation connecting is_open e s =
        on_connect ssl timed_out user_agent set_host_name (some e) (record s { is_open = is_open })
    fail_operation handshaking is_open e s =
        on_handshake ssl timed_out user_agent set_host_name (some e) s
    fail_operation (writing i) is_open e s =
        on_write ssl timed_out user_agent set_host_name (some e) s
    fail_operation (reading i) is_open e s =
        on_read ssl timed_out user_agent set_host_name (read_error e) s

    fail_operation_same :
        (o : Operation) (is_open : Bool) (e : E) (s : ClientSession E R)
        → SameQueue s (fail_operation o is_open e s).0
    unfolding on_resolve on_connect on_handshake on_write on_read cancel_timer
    fail_operation_same idle is_open e s = (refl, refl, refl, refl, refl)
    fail_operation_same (resolving host port) is_open e s = fail_first_same e s
    fail_operation_same connecting is_open e s = grind (arith, fail_first_same)
    fail_operation_same handshaking is_open e s = fail_first_same e s
    fail_operation_same (writing i) is_open e s = fail_first_same e s
    fail_operation_same (reading i) is_open e s = fail_first_same e s

    mark_same :
        (i : ℕ) (o : ClientSession E R × Option E)
        → SameQueue o.0 (mark_too_late ssl timed_out user_agent set_host_name i o).0
    unfolding mark_too_late
    mark_same i (s, none) = (refl, refl, refl, refl, refl)
    mark_same i (s, some e) = (refl, refl, refl, refl, refl)

    on_timer_same :
        (ec : Option E) (i : ℕ) (s : ClientSession E R)
        → SameQueue s (on_timer ssl timed_out user_agent set_host_name ec i s).0
    unfolding on_timer
    on_timer_same (some e) i s = (refl, refl, refl, refl, refl)
    on_timer_same none i s =
        grind (arith, mark_same i (fail i timed_out s), fail_same i timed_out s)

    rearm_pending :
        (s : ClientSession E R)
        → s.pending_request ≡ true
        → rearm ssl timed_out user_agent set_host_name (s, none) ≡ (s, none)
    unfolding rearm
    rearm_pending s p = rw p refl

    run_context_waits :
        (c : RequestContext) (s : ClientSession E R)
        → s.pending_request ≡ true
        → is_empty s.requests ≡ false
        → run_context ssl timed_out user_agent set_host_name c s ≡ (push_request c s, none)
    unfolding run_context
    run_context_waits c s p q = rw q (rearm_pending (push_request c s) (unfold push_request in p))

    push-IsStuck :
        (c : RequestContext) (s : ClientSession E R)
        → IsStuck s
        → IsStuck (push_request c s) × IsHeldUp s (push_request c s)
    unfolding push_request
    push-IsStuck c s (o, p, q) = ((o, p, longer s.requests), (refl, refl, s.created ∷ [], refl))
      where
        longer : (xs : List ℕ) → is_empty (xs ++ s.created ∷ []) ≡ false
        longer [] = refl
        longer (x ∷ xs) = refl

    same-IsStuck : (s t : ClientSession E R) → SameQueue s t → IsStuck s → IsStuck t × IsHeldUp s t
    same-IsStuck s t (o, p, r, w, a) (o', p', q') =
        ((o ∙ o', p ∙ p', ap is_empty r ∙ q'), (w, a, [], r ∙ sym (append-nil s.requests)))

    trans_same : (s t u : ClientSession E R) → SameQueue s t → SameQueue t u → SameQueue s u
    trans_same s t u (o, p, r, w, a) (o', p', r', w', a') = (o' ∙ o, p' ∙ p, r' ∙ r, w' ∙ w, a' ∙ a)

    run-IsStuck :
        (c : RequestContext) (s : ClientSession E R)
        → IsStuck s
        → let t = worker (run_context ssl timed_out user_agent set_host_name c s) in
          IsStuck t × IsHeldUp s t
    run-IsStuck c s h =
        subst (λ o. IsStuck (worker o) × IsHeldUp s (worker o))
          (sym (run_context_waits c s h.1 h.2)) (unfold worker in push-IsStuck c s h)

    Step-IsStuck :
        {s t : ClientSession E R}
        → Step ssl timed_out user_agent set_host_name s t
        → IsStuck s
        → IsStuck t × IsHeldUp s t
    unfolding run
    Step-IsStuck {s} (runs req url has_expiry has_cb) h =
        run-IsStuck (create_context user_agent req url has_expiry has_cb) s h
    Step-IsStuck {s} (resolves ec host port e) h = cc
    Step-IsStuck {s} (connects ec is_open e) h = cc
    Step-IsStuck {s} (handshakes ec e) h = cc
    Step-IsStuck {s} (writes ec i e) h = cc
    Step-IsStuck {s} (reads r i e) h = cc
    Step-IsStuck {s} (times ec i e) h =
        let o = on_timer ssl timed_out user_agent set_host_name ec i (fired i s) in
        same-IsStuck s (worker o)
          (trans_same s o.0 (worker o) (on_timer_same ec i (fired i s)) (worker_same o)) h

    Reachable-IsStuck :
        {s t : ClientSession E R}
        → Reachable ssl timed_out user_agent set_host_name s t
        → IsStuck s
        → IsStuck t × IsHeldUp s t
    Reachable-IsStuck {s} starts h = (h, (refl, refl, [], sym (append-nil s.requests)))
    Reachable-IsStuck {s} (steps r step) h =
        let (stuck, (w, a, later, e)) = Reachable-IsStuck r h in
        let (stuck', (w', a', later', e')) = Step-IsStuck step stuck in
        (
          stuck',
          (
            w' ∙ w,
            a' ∙ a,
            later ++ later',
            e' ∙ ap (λ l. l ++ later') e ∙ append_assoc s.requests later later',
          ),
        )

    -- Once an operation of a reachable session has failed (a name that is not resolved, a connection, a
    -- handshake, a write, or a read other than at the end of the stream), in every later state no request
    -- has been sent or answered since, and the requests that waited still wait, before later ones.
    pub failure_is_final :
        {s t : ClientSession E R} (is_open : Bool) (e : E)
        → Reachable ssl timed_out user_agent set_host_name new_session s
        → s.operation ≢ idle
        → Reachable ssl timed_out user_agent set_host_name
            (worker (fail_operation s.operation is_open e (ended s)))
            t
        → IsHeldUp s t
    failure_is_final {s} {t} is_open e r n later =
        let o = fail_operation s.operation is_open e (ended s) in
        let (p, q) =
          Needs-pending s.operation s.pending_request s.requests n
            (queue_in_order ssl timed_out user_agent set_host_name r).1 in
        let (stuck, (w', a', more', f')) =
          same-IsStuck (ended s) (worker o)
            (trans_same (ended s) o.0 (worker o)
              (fail_operation_same s.operation is_open e (ended s)) (worker_same o))
            (refl, p, q) in
        let (w, a, more, f) = (Reachable-IsStuck later stuck).1 in
        (
          w ∙ w',
          a ∙ a',
          more' ++ more,
          f ∙ ap (λ l. l ++ more) f' ∙ append_assoc s.requests more' more,
        )
