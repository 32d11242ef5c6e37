-- ===== src/Exchange/Client.antt =====
-- src/session_client.hpp: what a step of the client leaves of a request and of its responses.
use beauty_cl.Prelude.{
  ℕ, ◌≤◌, ◌<◌, ◌≡◌, refl, Bool, true, false, Option, none, some, List, [], ◌∷◌, ◌++◌, arith, Bytes,
  is_empty, not, ◌&&◌, ◌==◌, if◌then◌else◌, ◌⊎◌, inl, inr, Bool-cases,
}
use beauty_cl.ClientSession.{
  ClientRequest, Answer, failed, responded, is_held, held, ClientSession, Operation, connecting,
  handshaking, set_context, RequestContext, fail, fail_first, call_back, cancel_timer, do_write,
  release, take_first, take_response, do_resolve, on_resolve, on_connect, on_handshake, on_write,
  mark_too_late, on_timer, push_request, rearm, run_context,
}
use beauty_cl.ClientSession.Steps.{worker}

-- The responses that the callback of a request was called with.
unfoldable pub responses_to : {E R : Type 0} → ℕ → List (ℕ × Answer E R) → List R
responses_to k [] = []
responses_to k ((i, failed e) ∷ calls) = responses_to k calls
responses_to k ((i, responded r) ∷ calls) =
    let rest = responses_to k calls in if k == i then r ∷ rest else rest

pub responses_to-failed :
    {E R : Type 0} (k i : ℕ) (e : E) (calls : List (ℕ × Answer E R))
    → responses_to k (calls ++ (i, failed e) ∷ []) ≡ responses_to k calls
unfolding responses_to
responses_to-failed k i e [] = refl
responses_to-failed k i e ((j, failed f) ∷ calls) = responses_to-failed k i e calls
responses_to-failed k i e ((j, responded r) ∷ calls) =
    ground (arith, responses_to-failed k i e calls)

pub responses_to-other :
    {E R : Type 0} (k i : ℕ) (r : R) (calls : List (ℕ × Answer E R))
    → (k == i) ≡ false
    → responses_to k (calls ++ (i, responded r) ∷ []) ≡ responses_to k calls
unfolding responses_to
responses_to-other k i r [] n = ground arith
responses_to-other k i r ((j, failed f) ∷ calls) n = responses_to-other k i r calls n
responses_to-other k i r ((j, responded q) ∷ calls) n =
    ground (arith, responses_to-other k i r calls n)

pub responses_to-own :
    {E R : Type 0} (k i : ℕ) (r : R) (calls : List (ℕ × Answer E R))
    → (k == i) ≡ true
    → responses_to k calls ≡ []
    → responses_to k (calls ++ (i, responded r) ∷ []) ≡ r ∷ []
unfolding responses_to
responses_to-own k i r [] same h = ground arith
responses_to-own k i r ((j, failed f) ∷ calls) same h = responses_to-own k i r calls same h
responses_to-own k i r ((j, responded q) ∷ calls) same h =
    ground (arith, responses_to-own k i r calls same)

-- `k` is a request, and of those below `n` it asks `req`; its callback had no response but those in
-- `reply`.
module _ {E R : Type 0} (k n : ℕ) (req : ClientRequest) (reply : List R) where
  unfoldable pub Known : ClientSession E R → Type 0
  Known s =
      (n ≤ s.created)
      × (k < n → (s.contexts k).request ≡ req)
      × ((responses_to k s.calls ≡ []) ⊎ (responses_to k s.calls ≡ reply))
      × (is_held (s.contexts k).cb ≡ true → responses_to k s.calls ≡ [])
      × (s.created ≤ k → is_held (s.contexts k).cb ≡ false)
      × (s.created ≤ k → responses_to k s.calls ≡ [])

  pub worker-Known : (o : ClientSession E R × Option E) → Known o.0 → Known (worker o)
  unfolding worker Known
  worker-Known (s, none) h = h
  worker-Known (s, some e) h = h

  fail-Known : (i : ℕ) (e : E) (s : ClientSession E R) → Known s → Known (fail i e s).0
  unfolding Known fail call_back
  fail-Known i e s h = ground (arith, responses_to-failed k i e s.calls)

  pub fail_first-Known : (e : E) (s : ClientSession E R) → Known s → Known (fail_first e s).0
  unfolding fail_first
  fail_first-Known e s h = grind (arith, fail-Known)

  do_write-Known : (s : ClientSession E R) → Known s → Known (do_write s)
  unfolding Known do_write
  do_write-Known s h = ground arith

  cancel_timer-Known : (i : ℕ) (s : ClientSession E R) → Known s → Known (cancel_timer i s)
  unfolding Known cancel_timer
  cancel_timer-Known i s h = ground arith

  push-Known : (c : RequestContext) (s : ClientSession E R) → Known s → Known (push_request c s)
  unfolding Known push_request
  push-Known c s h = ground arith

  call_back-Known :
      (i : ℕ) (r : R) (s : ClientSession E R)
      → (s.contexts i).cb ≡ held
      → ((k == i) ≡ true → reply ≡ r ∷ [])
      → Known s
      → Known (call_back i (responded r) s)
  unfolding Known call_back
  call_back-Known i r s e own h = elim (Bool-cases (k == i)) [
    | inl same ↦ ground (arith, responses_to-own k i r s.calls same)
    | inr other ↦ ground (arith, responses_to-other k i r s.calls other)
  ]

  -- The fields that say nothing of a request.
  operation_Known :
      (o : Operation) (pending : Bool) (s : ClientSession E R)
      → Known s
      → Known (record s { operation = o; pending_request = pending })
  unfolding Known
  operation_Known o pending s h = h

  response_Known :
      (o : Option R) (s : ClientSession E R) → Known s → Known (record s { response = o })
  unfolding Known
  response_Known o s h = h

  popped_Known :
      (i : ℕ) (waiting : List ℕ) (s : ClientSession E R)
      → Known s
      → Known (record s {
        requests = waiting;
        pending_request = false;
        answered = s.answered ++ i ∷ [];
      })
  unfolding Known
  popped_Known i waiting s h = h

  release-Known :
      (i : ℕ) (r : R) (s : ClientSession E R)
      → ((k == i) ≡ true → reply ≡ r ∷ [])
      → Known s
      → Known (release i r s)
  unfolding release
  release-Known i r s own h = grind (
    arith,
    call_back-Known i r (record s { response = none }),
    response_Known none s,
    response_Known (some r) s,
  )

  pub take_response-Known :
      (r : R) (s : ClientSession E R) (i : ℕ) (waiting : List ℕ)
      → s.requests ≡ i ∷ waiting
      → ((k == i) ≡ true → reply ≡ r ∷ [])
      → Known s
      → Known (take_response r s)
  unfolding take_response take_first
  take_response-Known r s i waiting e own h =
      grind (arith, do_write-Known, release-Known, cancel_timer-Known, popped_Known i waiting s h)

  module _ (ssl : Bool) (timed_out : E) (user_agent : Bytes)
      (set_host_name : Bytes → Option E) where
    pub do_resolve-Known :
        (s : ClientSession E R)
        → Known s
        → Known (do_resolve ssl timed_out user_agent set_host_name s).0
    unfolding do_resolve
    do_resolve-Known s h = grind (arith, fail-Known, operation_Known)

    pub on_resolve-Known :
        (ec : Option E) (s : ClientSession E R)
        → Known s
        → Known (on_resolve ssl timed_out user_agent set_host_name ec s).0
    unfolding on_resolve
    on_resolve-Known none s h = operation_Known connecting s.pending_request s h
    on_resolve-Known (some e) s h = fail_first-Known e s h

    pub on_connect-Known :
        (ec : Option E) (s : ClientSession E R)
        → Known s
        → Known (on_connect ssl timed_out user_agent set_host_name ec s).0
    unfolding on_connect
    on_connect-Known none s h =
        grind (arith, do_write-Known, operation_Known handshaking s.pending_request s h)
    on_connect-Known (some e) s h = grind (arith, fail_first-Known, cancel_timer-Known)

    pub on_handshake-Known :
        (ec : Option E) (s : ClientSession E R)
        → Known s
        → Known (on_handshake ssl timed_out user_agent set_host_name ec s).0
    unfolding on_handshake
    on_handshake-Known none s h = do_write-Known s h
    on_handshake-Known (some e) s h = fail_first-Known e s h

    pub on_write-Known :
        (ec : Option E) (s : ClientSession E R)
        → Known s
        → Known (on_write ssl timed_out user_agent set_host_name ec s).0
    unfolding Known on_write
    on_write-Known none s h = ground arith
    on_write-Known (some e) s h = fail_first-Known e s h

    late_Known :
        (i : ℕ) (s : ClientSession E R)
        → Known s
        → Known (set_context i (record (s.contexts i) { too_late = true }) s)
    unfolding Known
    late_Known i s h = ground arith

    mark-Known :
        (i : ℕ) (o : ClientSession E R × Option E)
        → Known o.0
        → Known (mark_too_late ssl timed_out user_agent set_host_name i o).0
    unfolding mark_too_late
    mark-Known i (s, none) h = late_Known i s h
    mark-Known i (s, some e) h = h

    pub on_timer-Known :
        (ec : Option E) (i : ℕ) (s : ClientSession E R)
        → Known s
        → Known (on_timer ssl timed_out user_agent set_host_name ec i s).0
    unfolding on_timer
    on_timer-Known none i s h =
        grind (arith, mark-Known i (fail i timed_out s), fail-Known i timed_out s)
    on_timer-Known (some e) i s h = h

    rearm-Known :
        (o : ClientSession E R × Option E)
        → Known o.0
        → Known (rearm ssl timed_out user_agent set_host_name o).0
    unfolding rearm
    rearm-Known (s, none) h = grind (arith, do_write-Known)
    rearm-Known (s, some e) h = h

    started_Known :
        (required : Bool) (s : ClientSession E R)
        → Known s
        → Known
            (if required
              then rearm ssl timed_out user_agent set_host_name
                  (do_resolve ssl timed_out user_agent set_host_name s)
              else rearm ssl timed_out user_agent set_host_name (s, none)).0
    started_Known true s h = rearm-Known _ (do_resolve-Known s h)
    started_Known false s h = rearm-Known (s, none) h

    pub run_context-Known :
        (c : RequestContext) (s : ClientSession E R)
        → Known s
        → Known (run_context ssl timed_out user_agent set_host_name c s).0
    unfolding run_context
    run_context-Known c s h =
        started_Known (is_empty s.requests && not s.is_open) (push_request c s) (push-Known c s h)
