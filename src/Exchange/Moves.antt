-- ===== src/Exchange/Moves.antt =====
-- src/session_client.hpp and include/beauty/session.hpp: what a step of the client leaves of a request and
-- of its responses, and a step of the server of the responses that are under way.
use beauty_cl.Prelude.{ℕ, ◌≡◌, refl, ◌∙◌, Bool, true, Option, none, some, List, arith, Bytes}
use beauty_cl.Session.{Response}
use beauty_cl.ClientSession.{
  ClientRequest, ClientSession, reading, writing, end_of_stream, read_error, received,
  RequestContext, fail, call_back, push_request, rearm, mark_too_late, run, run_context, on_timer,
  on_read, on_write,
}
use beauty_cl.ClientSession.Steps
use beauty_cl.ClientSession.Steps.{worker, ended, fired}
use beauty_cl.ClientSession.Order.{Needs}
use beauty_cl.Exchange.{is_local, is_cut}
use beauty_cl.Exchange.Client.{
  Known, worker-Known, fail_first-Known, do_resolve-Known, on_resolve-Known, on_connect-Known,
  on_handshake-Known, on_write-Known, on_timer-Known, run_context-Known,
}
use beauty_cl.Exchange.Known.{ended-Known, opened-Known, fired-Known}

module _ {E : Type 0} (ssl : Bool) (timed_out : E) (user_agent : Bytes)
    (set_host_name : Bytes → Option E) where
  module _ (k n : ℕ) (req : ClientRequest) (reply : List Response) where
    pub local_Known :
        {s t : ClientSession E Response}
        (step : Steps.Step ssl timed_out user_agent set_host_name s t)
        → is_local ssl timed_out user_agent set_host_name step ≡ true
        → Known k n req reply s
        → Known k n req reply t
    local_Known {s} (Steps.runs r url has_expiry has_cb) e h =
        unfold run in
        worker-Known k n req reply _
          (run_context-Known k n req reply ssl timed_out user_agent set_host_name _ s h)
    local_Known {s} (Steps.resolves ec host port o) e h = worker-Known k n req reply _ (
        on_resolve-Known k n req reply ssl timed_out user_agent set_host_name ec (ended s)
          (ended-Known k n req reply s h))
    local_Known {s} (Steps.handshakes ec o) e h = worker-Known k n req reply _ (
        on_handshake-Known k n req reply ssl timed_out user_agent set_host_name ec (ended s)
          (ended-Known k n req reply s h))
    local_Known {s} (Steps.times ec i o) e h = worker-Known k n req reply _ (
        on_timer-Known k n req reply ssl timed_out user_agent set_host_name ec i (fired i s)
          (fired-Known k n req reply i s h))
    local_Known (Steps.connects _ _ _) e h = absurd cc
    local_Known (Steps.writes _ _ _) e h = absurd cc
    local_Known (Steps.reads _ _ _) e h = absurd cc

    pub cut_Known :
        {s t : ClientSession E Response}
        (step : Steps.Step ssl timed_out user_agent set_host_name s t)
        → is_cut ssl timed_out user_agent set_host_name step ≡ true
        → Known k n req reply s
        → Known k n req reply t
    cut_Known {s} (Steps.connects ec is_open o) e h = worker-Known k n req reply _ (
        on_connect-Known k n req reply ssl timed_out user_agent set_host_name ec
          (record (ended s) { is_open = is_open }) (opened-Known k n req reply is_open s h))
    cut_Known {s} (Steps.writes (some err) i o) e h = worker-Known k n req reply _ (
        on_write-Known k n req reply ssl timed_out user_agent set_host_name (some err) (ended s)
          (ended-Known k n req reply s h))
    cut_Known {s} (Steps.reads end_of_stream i o) e h =
        unfold on_read in
        worker-Known k n req reply _ (
          do_resolve-Known k n req reply ssl timed_out user_agent set_host_name (ended s)
            (ended-Known k n req reply s h))
    cut_Known {s} (Steps.reads (read_error err) i o) e h =
        unfold on_read in
        worker-Known k n req reply _
          (fail_first-Known k n req reply err (ended s) (ended-Known k n req reply s h))
    cut_Known (Steps.writes none _ _) e h = absurd cc
    cut_Known (Steps.reads (received _) _ _) e h = absurd cc
    cut_Known (Steps.runs _ _ _ _) e h = absurd cc
    cut_Known (Steps.resolves _ _ _ _) e h = absurd cc
    cut_Known (Steps.handshakes _ _) e h = absurd cc
    cut_Known (Steps.times _ _ _) e h = absurd cc

  worker_operation :
      (o : ClientSession E Response × Option E) → (worker o).operation ≡ o.0.operation
  unfolding worker
  worker_operation (s, none) = refl
  worker_operation (s, some e) = refl

  run_reading :
      (c : RequestContext) (s : ClientSession E Response) (i : ℕ)
      → Needs s.operation s.pending_request s.requests
      → s.operation ≡ reading i
      → (run_context ssl timed_out user_agent set_host_name c s).0.operation ≡ reading i
  unfolding run_context push_request rearm
  run_reading c s i needs e = ground arith

  fail_operation :
      (i : ℕ) (e : E) (s : ClientSession E Response) → (fail i e s).0.operation ≡ s.operation
  unfolding fail call_back
  fail_operation i e s = ground arith

  mark_operation :
      (i : ℕ) (o : ClientSession E Response × Option E)
      → (mark_too_late ssl timed_out user_agent set_host_name i o).0.operation ≡ o.0.operation
  unfolding mark_too_late
  mark_operation i (s, none) = refl
  mark_operation i (s, some e) = refl

  timer_operation :
      (ec : Option E) (i : ℕ) (s : ClientSession E Response)
      → (on_timer ssl timed_out user_agent set_host_name ec i s).0.operation ≡ s.operation
  unfolding on_timer
  timer_operation none i s =
      grind (arith, mark_operation i (fail i timed_out s), fail_operation i timed_out s)
  timer_operation (some e) i s = refl

  -- A read goes on while the client makes a request or a timer ends.
  pub local_reading :
      {s t : ClientSession E Response}
      (step : Steps.Step ssl timed_out user_agent set_host_name s t)
      → is_local ssl timed_out user_agent set_host_name step ≡ true
      → Needs s.operation s.pending_request s.requests
      → (i : ℕ) → s.operation ≡ reading i
      → t.operation ≡ reading i
  local_reading {s} (Steps.runs r url has_expiry has_cb) e needs i o =
      unfold run in worker_operation _ ∙ run_reading _ s i needs o
  local_reading {s} (Steps.times ec j w) e needs i o =
      worker_operation _ ∙ timer_operation ec j (fired j s) ∙ o
  local_reading (Steps.resolves ec host port p) e needs i o = absurd cc
  local_reading (Steps.handshakes ec p) e needs i o = absurd cc
  local_reading (Steps.connects _ _ _) e needs i o = absurd cc
  local_reading (Steps.writes _ _ _) e needs i o = absurd cc
  local_reading (Steps.reads _ _ _) e needs i o = absurd cc

  -- The client then reads the response to the request that it has written.
  pub written_reading :
      (s : ClientSession E Response) (i : ℕ)
      → Needs s.operation s.pending_request s.requests
      → s.operation ≡ writing i
      → (worker (on_write ssl timed_out user_agent set_host_name none (ended s))).operation
        ≡ reading i
  unfolding worker on_write
  written_reading s i needs e = ground arith

  -- The client after a write.
  abbrev pub written_session : ClientSession E Response → ClientSession E Response
  written_session s = worker (on_write ssl timed_out user_agent set_host_name none (ended s))

  pub written_Known :
      (k n : ℕ) (req : ClientRequest) (reply : List Response) (s : ClientSession E Response)
      → Known k n req reply s
      → Known k n req reply (written_session s)
  written_Known k n req reply s h = worker-Known k n req reply _ (
      on_write-Known k n req reply ssl timed_out user_agent set_host_name none (ended s)
        (ended-Known k n req reply s h))
