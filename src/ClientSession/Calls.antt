-- ===== src/ClientSession/Calls.antt =====
-- src/session_client.hpp: how often the callback of a request is called.
use beauty_cl.Prelude.{
  ℕ, suc, ◌+◌, ◌≤◌, ◌≡◌, ◌≢◌, refl, Bool, true, false, Option, none, some, List, [], ◌∷◌, ◌++◌,
  arith, Bytes, is_empty, not, ◌&&◌, ◌==◌, if◌then◌else◌,
}
use beauty_cl.Url.{Url}
use beauty_cl.ClientSession.{
  ClientRequest, Answer, is_held, Callback, absent, held, cleared, ClientSession, RequestContext,
  fail, fail_first, call_back, cancel_timer, do_write, release, take_first, take_response,
  ReadResult, end_of_stream, read_error, received, do_resolve, on_resolve, on_connect, on_handshake,
  on_write, on_read, mark_too_late, on_timer, push_request, rearm, run_context, run, create_context,
}
use beauty_cl.ClientSession.Steps.{
  new_session, Step, runs, resolves, connects, handshakes, writes, reads, times, Reachable, starts,
  steps, worker, ended, fired,
}

-- How often the callback of a request was called.
unfoldable pub times_called : {E R : Type 0} → ℕ → List (ℕ × Answer E R) → ℕ
times_called i [] = 0
times_called i ((j, answer) ∷ calls) =
    let rest = times_called i calls in if i == j then suc rest else rest

-- Once for a callback that is cleared.
abbrev pub expected_calls : Callback → ℕ
expected_calls cleared = 1
expected_calls _ = 0

times_called-append :
    {E R : Type 0} (i j : ℕ) (answer : Answer E R) (calls : List (ℕ × Answer E R))
    → times_called i (calls ++ (j, answer) ∷ []) ≡ times_called i calls + (if i == j then 1 else 0)
unfolding times_called
times_called-append i j answer [] = ground arith
times_called-append i j answer (c ∷ calls) = ground (arith, times_called-append i j answer calls)

-- A new callback was not called, and the timer of a new request was not late.
created_callback :
    (user_agent : Bytes) (req : ClientRequest) (url : Url) (has_expiry has_cb : Bool)
    → ((create_context user_agent req url has_expiry has_cb).cb ≢ cleared)
      × ((create_context user_agent req url has_expiry has_cb).too_late ≡ false)
unfolding create_context
created_callback user_agent req url has_expiry true = ((λ e. cc), refl)
created_callback user_agent req url has_expiry false = ((λ e. cc), refl)

module _ {E R : Type 0} (k : ℕ) where
  -- What holds of one request, and that a request that does not exist has no callback.
  abbrev pub Inv : ClientSession E R → Type 0
  Inv s =
      (times_called k s.calls ≡ expected_calls (s.contexts k).cb)
      × (s.created ≤ k → (s.contexts k).cb ≡ absent)
      × ((s.contexts k).too_late ≡ true → is_held (s.contexts k).cb ≡ false)

  call_back-Inv :
      (i : ℕ) (answer : Answer E R) (s : ClientSession E R)
      → (s.contexts i).cb ≡ held
      → Inv s
      → Inv (call_back i answer s)
  unfolding call_back
  call_back-Inv i answer s e h = ground (arith, times_called-append k i answer s.calls)

  worker-Inv : (o : ClientSession E R × Option E) → Inv o.0 → Inv (worker o)
  unfolding worker
  worker-Inv (s, none) h = h
  worker-Inv (s, some e) h = h

  fail-Inv : (i : ℕ) (e : E) (s : ClientSession E R) → Inv s → Inv (fail i e s).0
  unfolding fail
  fail-Inv i e s h = grind (arith, call_back-Inv)

  fail_first-Inv : (e : E) (s : ClientSession E R) → Inv s → Inv (fail_first e s).0
  unfolding fail_first
  fail_first-Inv e s h = grind (arith, fail-Inv)

  do_write-Inv : (s : ClientSession E R) → Inv s → Inv (do_write s)
  unfolding do_write
  do_write-Inv s h = ground arith

  cancel_timer-Inv : (i : ℕ) (s : ClientSession E R) → Inv s → Inv (cancel_timer i s)
  unfolding cancel_timer
  cancel_timer-Inv i s h = ground arith

  release-Inv : (i : ℕ) (r : R) (s : ClientSession E R) → Inv s → Inv (release i r s)
  unfolding release
  release-Inv i r s h = grind (arith, call_back-Inv)

  take_response-Inv : (r : R) (s : ClientSession E R) → Inv s → Inv (take_response r s)
  unfolding take_response take_first
  take_response-Inv r s h = grind (arith, do_write-Inv, release-Inv, cancel_timer-Inv)

  push-Inv :
      (c : RequestContext) (s : ClientSession E R)
      → (c.cb ≢ cleared) × (c.too_late ≡ false)
      → Inv s
      → Inv (push_request c s)
  unfolding push_request
  push-Inv c s n h = ground arith

  module _ (ssl : Bool) (timed_out : E) (user_agent : Bytes)
      (set_host_name : Bytes → Option E) where
    do_resolve-Inv :
        (s : ClientSession E R)
        → Inv s
        → Inv (do_resolve ssl timed_out user_agent set_host_name s).0
    unfolding do_resolve
    do_resolve-Inv s h = grind (arith, fail-Inv)

    on_resolve-Inv :
        (ec : Option E) (s : ClientSession E R)
        → Inv s
        → Inv (on_resolve ssl timed_out user_agent set_host_name ec s).0
    unfolding on_resolve
    on_resolve-Inv ec s h = grind (arith, fail_first-Inv)

    on_connect-Inv :
        (ec : Option E) (s : ClientSession E R)
        → Inv s
        → Inv (on_connect ssl timed_out user_agent set_host_name ec s).0
    unfolding on_connect
    on_connect-Inv ec s h = grind (arith, do_write-Inv, fail_first-Inv, cancel_timer-Inv)

    on_handshake-Inv :
        (ec : Option E) (s : ClientSession E R)
        → Inv s
        → Inv (on_handshake ssl timed_out user_agent set_host_name ec s).0
    unfolding on_handshake
    on_handshake-Inv ec s h = grind (arith, do_write-Inv, fail_first-Inv)

    on_write-Inv :
        (ec : Option E) (s : ClientSession E R)
        → Inv s
        → Inv (on_write ssl timed_out user_agent set_host_name ec s).0
    unfolding on_write
    on_write-Inv ec s h = grind (arith, fail_first-Inv)

    on_read-Inv :
        (r : ReadResult E R) (s : ClientSession E R)
        → Inv s
        → Inv (on_read ssl timed_out user_agent set_host_name r s).0
    unfolding on_read
    on_read-Inv end_of_stream s h = do_resolve-Inv s h
    on_read-Inv (read_error e) s h = fail_first-Inv e s h
    on_read-Inv (received r) s h = take_response-Inv r s h

    fail-not_held :
        (i : ℕ) (e : E) (s : ClientSession E R)
        → (s.contexts i).too_late ≡ false
        → is_held ((fail i e s).0.contexts i).cb ≡ false
    unfolding fail call_back
    fail-not_held i e s h = ground arith

    mark-Inv :
        (i : ℕ) (o : ClientSession E R × Option E)
        → is_held (o.0.contexts i).cb ≡ false
        → Inv o.0
        → Inv (mark_too_late ssl timed_out user_agent set_host_name i o).0
    unfolding mark_too_late
    mark-Inv i (s, none) n h = grind arith
    mark-Inv i (s, some e) n h = h

    on_timer-Inv :
        (ec : Option E) (i : ℕ) (s : ClientSession E R)
        → Inv s
        → Inv (on_timer ssl timed_out user_agent set_host_name ec i s).0
    unfolding on_timer
    on_timer-Inv none i s h = grind (
      arith,
      mark-Inv i (fail i timed_out s),
      fail-Inv i timed_out s,
      fail-not_held i timed_out s,
    )
    on_timer-Inv (some e) i s h = h

    rearm-Inv :
        (o : ClientSession E R × Option E)
        → Inv o.0
        → Inv (rearm ssl timed_out user_agent set_host_name o).0
    unfolding rearm
    rearm-Inv (s, none) h = grind (arith, do_write-Inv)
    rearm-Inv (s, some e) h = h

    started_Inv :
        (required : Bool) (s : ClientSession E R)
        → Inv s
        → Inv
            (if required
              then rearm ssl timed_out user_agent set_host_name
                  (do_resolve ssl timed_out user_agent set_host_name s)
              else rearm ssl timed_out user_agent set_host_name (s, none)).0
    started_Inv true s h = rearm-Inv _ (do_resolve-Inv s h)
    started_Inv false s h = rearm-Inv (s, none) h

    run_context-Inv :
        (c : RequestContext) (s : ClientSession E R)
        → (c.cb ≢ cleared) × (c.too_late ≡ false)
        → Inv s
        → Inv (run_context ssl timed_out user_agent set_host_name c s).0
    unfolding run_context
    run_context-Inv c s n h =
        started_Inv (is_empty s.requests && not s.is_open) (push_request c s) (push-Inv c s n h)

    Step-Inv :
        {s t : ClientSession E R} → Step ssl timed_out user_agent set_host_name s t → Inv s → Inv t
    Step-Inv {s} (runs req url has_expiry has_cb) h =
        unfold run in
        worker-Inv _ (run_context-Inv _ s (created_callback user_agent req url has_expiry has_cb) h)
    Step-Inv {s} (resolves ec host port e) h = worker-Inv _ (on_resolve-Inv ec (ended s) h)
    Step-Inv {s} (connects ec is_open e) h =
        worker-Inv _ (on_connect-Inv ec (record (ended s) { is_open = is_open }) h)
    Step-Inv {s} (handshakes ec e) h = worker-Inv _ (on_handshake-Inv ec (ended s) h)
    Step-Inv {s} (writes ec i e) h = worker-Inv _ (on_write-Inv ec (ended s) h)
    Step-Inv {s} (reads r i e) h = worker-Inv _ (on_read-Inv r (ended s) h)
    Step-Inv {s} (times ec i e) h = worker-Inv _ (on_timer-Inv ec i (fired i s) (fired_keeps i s h))
      where
        fired_keeps : (i : ℕ) (s : ClientSession E R) → Inv s → Inv (fired i s)
        fired_keeps i s h = ground arith

    pub Reachable-Inv :
        {s : ClientSession E R}
        → Reachable ssl timed_out user_agent set_host_name new_session s
        → Inv s
    Reachable-Inv starts = unfold times_called in (refl, (λ le. refl), (λ e. refl))
    Reachable-Inv (steps r step) = Step-Inv step (Reachable-Inv r)
