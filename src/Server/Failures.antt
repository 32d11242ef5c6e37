-- ===== src/Server/Failures.antt =====
-- src/server.cpp with src/acceptor.cpp: what `listen` leaves where an endpoint cannot be opened, bound or
-- listened on.
use beauty_cl.Prelude.{
  ℕ, ◌≡◌, refl, ap, ◌∙◌, sym, Bool, true, false, not, ◌&&◌, ◌||◌, Option, none, some, List, [], ◌∷◌,
  ◌++◌, append_assoc, append-nil, map, arith, Bytes, is_empty,
}
use beauty_cl.Application
use beauty_cl.Application.{
  Application, State, is_started, is_stopped, start, cancel, cancel_all, reset_timers,
}
use beauty_cl.Acceptor.{Endpoint, Acceptor, Setup, Made, made, thrown, acceptor, do_accept, run}
use beauty_cl.Server.Acceptors.{listed, with_app, with_app_same}
use beauty_cl.Server.Listening.{
  Listener, ListenError, system_error, Resolved, resolve_addresses, resolve_all, accept_all, listen,
}

abbrev is_error : {E : Type 0} → Option E → Bool
is_error none = false
is_error (some e) = true

-- A call fails whose error the constructor reports to the application.
abbrev pub is_failing : {E : Type 0} → Setup E → Bool
is_failing c = is_error c.open_error || is_error c.bind_error || is_error c.listen_error

-- Neither call of `set_option` throws.
abbrev pub SetsOptions : {E : Type 0} → Setup E → Type 0
SetsOptions c = (c.reuse_address_error ≡ none) × (c.v6_only_error ≡ none)

abbrev pub listening : Acceptor → Bool
listening x = x.is_listening

abbrev pub any_fails : (Endpoint → Bool) → List Endpoint → Bool
any_fails fails [] = false
any_fails fails (e ∷ es) = fails e || any_fails fails es

cancel_all_same :
    (is : List ℕ) (a : Application)
    → ((cancel_all is a).state ≡ a.state) × ((cancel_all is a).is_ioc_owner ≡ a.is_ioc_owner)
unfolding cancel_all cancel
cancel_all_same [] a = (refl, refl)
cancel_all_same (i ∷ is) a = cancel_all_same is (cancel i a)

stop_stops :
    (a : Application)
    → (is_stopped (Application.stop true a) ≡ (is_stopped a || a.is_ioc_owner))
      × ((Application.stop true a).is_ioc_owner ≡ a.is_ioc_owner)
unfolding Application.stop reset_timers
stop_stops a = ground (arith, cancel_all_same a.timers (record a { state = State.stopped }))

-- An acceptor is made, which listens unless a call failed, and then the application was stopped.
abbrev Reports : {E : Type 0} → Setup E → Application → Made E → Type 0
Reports c a (thrown e) = ⊥
Reports c a (made x bound after) =
    (x.is_listening ≡ not (is_failing c))
    × (is_stopped after ≡ (is_stopped a || (is_failing c && a.is_ioc_owner)))
    × (after.is_ioc_owner ≡ a.is_ioc_owner)

acceptor-Reports :
    {E : Type 0} (c : Setup E) (endpoint : Endpoint) (a : Application)
    → SetsOptions c
    → Reports c a (acceptor c endpoint a)
unfolding acceptor
acceptor-Reports c endpoint a (reuse, v6) = ground (arith, stop_stops a)

run-listening : (x : Acceptor) → (run x).is_listening ≡ x.is_listening
unfolding run do_accept
run-listening x = ground arith

map-append :
    {A B : Type 0} (f : A → B) (xs : List A) (y : A) → map f (xs ++ y ∷ []) ≡ map f xs ++ f y ∷ []
map-append f [] y = refl
map-append f (x ∷ xs) y = ap (λ l. f x ∷ l) (map-append f xs y)

either_fails :
    (stopped first rest owner : Bool)
    → ((stopped || (first && owner)) || (rest && owner)) ≡ (stopped || ((first || rest) && owner))
either_fails stopped first rest owner = ground arith

module _ {E : Type 0} (resolve : Bytes → ℕ → Resolved E)
    (setup : List Acceptor → Endpoint → Setup E) (fails : Endpoint → Bool)
    (reports : (xs : List Acceptor) (e : Endpoint)
      → SetsOptions (setup xs e) × (is_failing (setup xs e) ≡ fails e)) where
  -- What the loop over the endpoints leaves.
  abbrev Listens : List Endpoint → Listener → Listener × Option (ListenError E) → Type 0
  Listens endpoints l (after, exception) =
      (exception ≡ none)
      × (map listening after.acceptors
          ≡ map listening l.acceptors ++ map (λ e. not (fails e)) endpoints)
      × (is_stopped after.app
          ≡ (is_stopped l.app || (any_fails fails endpoints && l.app.is_ioc_owner)))

  accept_all-Listens :
      (seen endpoints : List Endpoint) (l : Listener)
      → Listens endpoints l (accept_all resolve setup seen endpoints l)
  unfolding accept_all
  accept_all-Listens seen [] l = (refl, sym (append-nil (map listening l.acceptors)), ground arith)
  accept_all-Listens seen (endpoint ∷ endpoints) l =
      accepted (λ seen' next. accept_all-Listens seen' endpoints next)
        (acceptor (setup l.acceptors endpoint) endpoint l.app)
        (acceptor-Reports (setup l.acceptors endpoint) endpoint l.app
          (reports l.acceptors endpoint).0)
    where
      accepted :
          ((seen' : List Endpoint) (next : Listener)
            → Listens endpoints next (accept_all resolve setup seen' endpoints next))
          → (m : Made E) → Reports (setup l.acceptors endpoint) l.app m
          → Listens (endpoint ∷ endpoints) l (elim m [
            | made x bound app ↦
                accept_all resolve setup
                  (seen ++ bound ∷ [])
                  endpoints
                  (record l { acceptors = l.acceptors ++ run x ∷ []; app = app })
            | thrown e ↦
                (record l { endpoints = seen ++ endpoint ∷ endpoints }, some (system_error e))
          ])
      accepted rest (thrown e) h = absurd h
      accepted rest (made x bound app) (heard, stops, owner) =
          let next : Listener = record l { acceptors = l.acceptors ++ run x ∷ []; app = app } in
          let (no_exception, acceptors, stopped) = rest (seen ++ bound ∷ []) next in
          let failing = (reports l.acceptors endpoint).1 in
          (
            no_exception,
            acceptors
                ∙ ap (λ l'. l' ++ map (λ e. not (fails e)) endpoints)
                    (map-append listening l.acceptors (run x))
                ∙ append_assoc (map listening l.acceptors) ((run x).is_listening ∷ [])
                    (map (λ e. not (fails e)) endpoints)
                ∙ ap (λ b. map listening l.acceptors ++ b ∷ map (λ e. not (fails e)) endpoints)
                    (run-listening x ∙ heard ∙ ap not failing),
            ground (arith, stopped, stops, owner, failing),
          )

  -- Where the addresses are resolved to a list of endpoints that is not empty, and `set_option` throws
  -- nothing: a failure to open, bind or listen makes `listen` throw nothing either. It adds an acceptor
  -- for each endpoint, which listens unless a call for it failed; and where one failed it has stopped the
  -- application that it had started, unless the io_context is another's.
  pub listen_reports :
      (port : ℕ) (address : Bytes) (l : Listener) (endpoints : List Endpoint)
      → resolve_all resolve setup port (resolve_addresses address) l.endpoints ≡ (endpoints, none)
      → is_empty endpoints ≡ false
      → let r = listen resolve setup port address l in
        (r.1 ≡ none)
        × (map listening r.0.acceptors
            ≡ map listening l.acceptors ++ map (λ e. not (fails e)) endpoints)
        × (is_stopped r.0.app ≡ (
            is_stopped (with_app l).app
            || (any_fails fails endpoints && (with_app l).app.is_ioc_owner)))
  unfolding listen
  listen_reports port address l endpoints e n =
      let next : Listener = record (with_app l) { endpoints = endpoints } in
      let (no_exception, acceptors, stopped) = accept_all-Listens [] endpoints next in
      rw (e, listed resolve setup address endpoints (with_app l) n)
        (
          no_exception,
          acceptors
              ∙ ap (λ xs. map listening xs ++ map (λ e. not (fails e)) endpoints)
                  (with_app_same l).0,
          stopped,
        )
