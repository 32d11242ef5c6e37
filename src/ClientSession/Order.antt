-- ===== src/ClientSession/Order.antt =====
-- src/session_client.hpp: the queue of requests.
use beauty_cl.Prelude.{
  ℕ, zero, suc, ◌≡◌, refl, sym, ap, ◌∙◌, Bool, true, false, Option, none, some, List, [], ◌∷◌, ◌++◌,
  append_assoc, arith, Bytes, is_empty,
}
use beauty_cl.ClientSession.{
  Operation, idle, resolving, connecting, handshaking, writing, reading, ClientSession, fail,
  fail_first, call_back, cancel_timer, do_write, release, ReadResult, take_first, take_response,
  do_resolve, on_resolve, on_connect, on_handshake, on_write, on_read, end_of_stream, read_error,
  received, mark_too_late, on_timer, rearm, run_context, run, push_request, RequestContext,
}
use beauty_cl.ClientSession.Steps.{
  new_session, Step, runs, resolves, connects, handshakes, writes, reads, times, Reachable, starts,
  steps, worker, ended, fired,
}

-- The numbers of the first requests.
unfoldable pub first_ids : ℕ → List ℕ
first_ids zero = []
first_ids (suc n) = first_ids n ++ n ∷ []

-- What an operation needs: a request in the queue, which a write and a read are for.
abbrev pub Needs : Operation → Bool → List ℕ → Type 0
Needs idle pending requests = Unit
Needs (writing i) pending requests =
    (pending ≡ true) × (waiting : List ℕ) × (requests ≡ i ∷ waiting)
Needs (reading i) pending requests =
    (pending ≡ true) × (waiting : List ℕ) × (requests ≡ i ∷ waiting)
Needs _ pending requests = (pending ≡ true) × (is_empty requests ≡ false)

is_empty-append : (xs : List ℕ) (i : ℕ) → is_empty (xs ++ i ∷ []) ≡ false
is_empty-append [] i = refl
is_empty-append (x ∷ xs) i = refl

Needs-append :
    (o : Operation) (p : Bool) (requests : List ℕ) (i : ℕ)
    → Needs o p requests
    → Needs o p (requests ++ i ∷ [])
Needs-append idle p requests i h = tt
Needs-append (resolving host port) p requests i h = (h.0, is_empty-append requests i)
Needs-append connecting p requests i h = (h.0, is_empty-append requests i)
Needs-append handshaking p requests i h = (h.0, is_empty-append requests i)
Needs-append (writing j) p requests i (a, waiting, e) =
    (a, waiting ++ i ∷ [], ap (λ l. l ++ i ∷ []) e)
Needs-append (reading j) p requests i (a, waiting, e) =
    (a, waiting ++ i ∷ [], ap (λ l. l ++ i ∷ []) e)

module _ {E R : Type 0} where
  abbrev Inv : ClientSession E R → Type 0
  Inv s =
      (s.answered ++ s.requests ≡ first_ids s.created)
      × Needs s.operation s.pending_request s.requests

  worker-Inv : (o : ClientSession E R × Option E) → Inv o.0 → Inv (worker o)
  unfolding worker
  worker-Inv (s, none) h = h
  worker-Inv (s, some e) h = h

  fail-Inv : (i : ℕ) (e : E) (s : ClientSession E R) → Inv s → Inv (fail i e s).0
  unfolding fail call_back
  fail-Inv i e s h = ground arith

  do_write-Inv : (s : ClientSession E R) → s.operation ≡ idle → Inv s → Inv (do_write s)
  unfolding do_write
  do_write-Inv s o h = ground arith

  release-Inv : (i : ℕ) (r : R) (s : ClientSession E R) → Inv s → Inv (release i r s)
  unfolding release call_back
  release-Inv i r s h = ground arith

  release_idle :
      (i : ℕ) (r : R) (s : ClientSession E R)
      → s.operation ≡ idle
      → (release i r s).operation ≡ idle
  unfolding release call_back
  release_idle i r s h = ground arith

  fail_first-Inv : (e : E) (s : ClientSession E R) → Inv s → Inv (fail_first e s).0
  unfolding fail_first
  fail_first-Inv e s h = grind (arith, fail-Inv)

  take_response-Inv :
      (r : R) (s : ClientSession E R) → s.operation ≡ idle → Inv s → Inv (take_response r s)
  unfolding take_response take_first cancel_timer
  take_response-Inv r s o h = grind (arith, do_write-Inv, release-Inv, release_idle, append_assoc)

  push-Inv : (c : RequestContext) (s : ClientSession E R) → Inv s → Inv (push_request c s)
  unfolding push_request first_ids
  push-Inv c s (order, needs) = (
    sym (append_assoc s.answered s.requests (s.created ∷ [])) ∙ ap (λ l. l ++ s.created ∷ []) order,
    Needs-append s.operation s.pending_request s.requests s.created needs,
  )

  module _ (ssl : Bool) (timed_out : E) (user_agent : Bytes)
      (set_host_name : Bytes → Option E) where
    do_resolve-Inv :
        (s : ClientSession E R)
        → Inv s
        → Inv (do_resolve ssl timed_out user_agent set_host_name s).0
    unfolding do_resolve
    do_resolve-Inv s h = grind (arith, fail-Inv)

    on_resolve-Inv :
        (ec : Option E) (s : ClientSession E R)
        → s.pending_request ≡ true
        → is_empty s.requests ≡ false
        → Inv s
        → Inv (on_resolve ssl timed_out user_agent set_host_name ec s).0
    unfolding on_resolve
    on_resolve-Inv ec s p q h = grind (arith, fail_first-Inv)

    on_connect-Inv :
        (ec : Option E) (s : ClientSession E R)
        → s.pending_request ≡ true
        → is_empty s.requests ≡ false
        → s.operation ≡ idle
        → Inv s
        → Inv (on_connect ssl timed_out user_agent set_host_name ec s).0
    unfolding on_connect cancel_timer
    on_connect-Inv none s p q o h = grind (arith, do_write-Inv)
    on_connect-Inv (some e) s p q o h = grind (arith, fail_first-Inv)

    on_write-Inv :
        (ec : Option E) (s : ClientSession E R)
        → s.pending_request ≡ true
        → Inv s
        → Inv (on_write ssl timed_out user_agent set_host_name ec s).0
    unfolding on_write
    on_write-Inv ec s p h = grind (arith, fail_first-Inv)

    on_handshake-Inv :
        (ec : Option E) (s : ClientSession E R)
        → s.operation ≡ idle
        → Inv s
        → Inv (on_handshake ssl timed_out user_agent set_host_name ec s).0
    unfolding on_handshake
    on_handshake-Inv ec s o h = grind (arith, do_write-Inv, fail_first-Inv)

    on_read-Inv :
        (r : ReadResult E R) (s : ClientSession E R)
        → s.operation ≡ idle
        → Inv s
        → Inv (on_read ssl timed_out user_agent set_host_name r s).0
    unfolding on_read
    on_read-Inv end_of_stream s o h = do_resolve-Inv s h
    on_read-Inv (read_error e) s o h = fail_first-Inv e s h
    on_read-Inv (received r) s o h = take_response-Inv r s o h

    mark-Inv :
        (i : ℕ) (o : ClientSession E R × Option E)
        → Inv o.0
        → Inv (mark_too_late ssl timed_out user_agent set_host_name i o).0
    unfolding mark_too_late
    mark-Inv i (s, none) h = h
    mark-Inv i (s, some e) h = h

    on_timer-Inv :
        (ec : Option E) (i : ℕ) (s : ClientSession E R)
        → Inv s
        → Inv (on_timer ssl timed_out user_agent set_host_name ec i s).0
    unfolding on_timer
    on_timer-Inv none i s h = grind (arith, mark-Inv i (fail i timed_out s), fail-Inv i timed_out s)
    on_timer-Inv (some e) i s h = h

    -- Without a request that waits, the operation is over.
    not_pending : (s : ClientSession E R) → Inv s → s.pending_request ≡ false → s.operation ≡ idle
    not_pending s h p = ground arith

    rearm-Inv :
        (o : ClientSession E R × Option E)
        → Inv o.0
        → Inv (rearm ssl timed_out user_agent set_host_name o).0
    unfolding rearm
    rearm-Inv (s, none) h = grind (arith, do_write-Inv, not_pending)
    rearm-Inv (s, some e) h = h

    run_context-Inv :
        (c : RequestContext) (s : ClientSession E R)
        → Inv s
        → Inv (run_context ssl timed_out user_agent set_host_name c s).0
    unfolding run_context
    run_context-Inv c s h = grind (arith, rearm-Inv, do_resolve-Inv, push-Inv c s h)

    Step-Inv :
        {s t : ClientSession E R} → Step ssl timed_out user_agent set_host_name s t → Inv s → Inv t
    Step-Inv {s} (runs req url has_expiry has_cb) h =
        unfold run in worker-Inv _ (run_context-Inv _ s h)
    Step-Inv {s} (resolves ec host port e) h =
        worker-Inv _ (on_resolve-Inv ec (ended s) (ground arith) (ground arith) (h.0, tt))
    Step-Inv {s} (connects ec is_open e) h = worker-Inv _ (
        on_connect-Inv ec (record (ended s) { is_open = is_open }) (ground arith) (ground arith)
          refl (h.0, tt))
    Step-Inv {s} (handshakes ec e) h = worker-Inv _ (on_handshake-Inv ec (ended s) refl (h.0, tt))
    Step-Inv {s} (writes ec i e) h =
        worker-Inv _ (on_write-Inv ec (ended s) (ground arith) (h.0, tt))
    Step-Inv {s} (reads r i e) h = worker-Inv _ (on_read-Inv r (ended s) refl (h.0, tt))
    Step-Inv {s} (times ec i e) h = worker-Inv _ (on_timer-Inv ec i (fired i s) h)

    Reachable-Inv :
        {s : ClientSession E R}
        → Reachable ssl timed_out user_agent set_host_name new_session s
        → Inv s
    Reachable-Inv starts = unfold first_ids in (refl, tt)
    Reachable-Inv (steps r step) = Step-Inv step (Reachable-Inv r)

    -- In every reachable state of a session the requests that were taken from the queue and then those
    -- that wait in it are all requests, in the order in which they were made; while an operation is
    -- under way a request waits for it, and a write or a read is for the first request of the queue.
    pub queue_in_order :
        {s : ClientSession E R}
        → Reachable ssl timed_out user_agent set_host_name new_session s
        → (s.answered ++ s.requests ≡ first_ids s.created)
          × Needs s.operation s.pending_request s.requests
    queue_in_order r = Reachable-Inv r
