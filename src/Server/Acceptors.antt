-- ===== src/Server/Acceptors.antt =====
-- src/server.cpp: the acceptors that `listen` makes and `stop` closes.
use beauty_cl.Prelude.{
  ℕ, ◌+◌, ◌≡◌, refl, ap, ◌∙◌, sym, true, false, none, List, [], ◌∷◌, ◌++◌, append_assoc, append-nil,
  arith, Bytes, is_empty, length, length-append, replicate, if◌then◌else◌,
}
use beauty_cl.Application.{Application, is_started, start}
use beauty_cl.Acceptor.{Endpoint, Acceptor, Setup, made, acceptor, do_accept, run}
use beauty_cl.Server.Listening.{
  Listener, Resolved, resolve_addresses, resolve_all, accept_all, listen_on, listen,
}

-- An acceptor that accepts connections.
abbrev pub serving : Acceptor
serving = record { is_open = true; is_listening = true; is_accepting = true; sessions = [] }

-- No call of the constructor fails.
abbrev pub IsWorking : {E : Type 0} → Setup E → Type 0
IsWorking c =
    (c.open_error ≡ none)
    × (c.reuse_address_error ≡ none)
    × (c.v6_only_error ≡ none)
    × (c.bind_error ≡ none)
    × (c.listen_error ≡ none)

abbrev bind : {E : Type 0} → Setup E → Endpoint → Endpoint
bind c endpoint = record endpoint { port = c.local_port }

acceptor_works :
    {E : Type 0} (c : Setup E) (endpoint : Endpoint) (a : Application)
    → IsWorking c
    → acceptor c endpoint a ≡ made (record serving { is_accepting = false }) (bind c endpoint) a
unfolding acceptor
acceptor_works c endpoint a (o, r, v, b, l) = ground arith

-- `listen` behind its loop over the addresses.
module _ {E : Type 0} (resolve : Bytes → ℕ → Resolved E)
    (setup : List Acceptor → Endpoint → Setup E) where
  pub listed :
      (address : Bytes) (endpoints : List Endpoint) (l : Listener)
      → is_empty endpoints ≡ false
      → listen_on resolve setup address (endpoints, none) l
        ≡ accept_all resolve setup [] endpoints (record l { endpoints = endpoints })
  unfolding listen_on
  listed address endpoints l n = rw n refl

-- The application is started first.
abbrev pub with_app : Listener → Listener
with_app l = if is_started l.app then l else record l { app = start l.concurrency l.app }

pub with_app_same :
    (l : Listener)
    → ((with_app l).acceptors ≡ l.acceptors)
      × ((with_app l).app ≡ (if is_started l.app then l.app else start l.concurrency l.app))
with_app_same l = ground arith

module _ {E : Type 0} (resolve : Bytes → ℕ → Resolved E)
    (setup : List Acceptor → Endpoint → Setup E)
    (works : (xs : List Acceptor) (endpoint : Endpoint) → IsWorking (setup xs endpoint)) where
  accept_all_works :
      (seen endpoints : List Endpoint) (l : Listener)
      → let r = accept_all resolve setup seen endpoints l in
        (r.1 ≡ none)
        × (r.0.acceptors ≡ l.acceptors ++ replicate (length endpoints) serving)
        × (length r.0.endpoints ≡ length seen + length endpoints)
        × (r.0.app ≡ l.app)
  unfolding accept_all run do_accept
  accept_all_works seen [] l = (refl, sym (append-nil l.acceptors), omega arith, refl)
  accept_all_works seen (endpoint ∷ endpoints) l =
      let next : Listener = record l { acceptors = l.acceptors ++ serving ∷ [] } in
      let bound = bind (setup l.acceptors endpoint) endpoint in
      let (e, xs, n, a) = accept_all_works (seen ++ bound ∷ []) endpoints next in
      rw
        (
          acceptor_works (setup l.acceptors endpoint) endpoint l.app (works l.acceptors endpoint),
          accept_all,
        )
        (
          e,
          xs ∙ append_assoc l.acceptors (serving ∷ []) (replicate (length endpoints) serving),
          omega (arith, n, length-append seen (bound ∷ [])),
          a,
        )

  -- Where every call for the acceptors succeeds and the addresses are resolved, with at least one endpoint
  -- in the list: `listen` throws nothing, adds one acceptor that accepts connections for each endpoint of
  -- the list, in which those of earlier calls come first, and starts the application if it was not.
  pub listen_serves :
      (port : ℕ) (address : Bytes) (l : Listener) (endpoints : List Endpoint)
      → resolve_all resolve setup port (resolve_addresses address) l.endpoints ≡ (endpoints, none)
      → is_empty endpoints ≡ false
      → let r = listen resolve setup port address l in
        (r.1 ≡ none)
        × (r.0.acceptors ≡ l.acceptors ++ replicate (length endpoints) serving)
        × (length r.0.endpoints ≡ length endpoints)
        × (r.0.app ≡ (if is_started l.app then l.app else start l.concurrency l.app))
  unfolding listen
  listen_serves port address l endpoints e n =
      let next : Listener = record (with_app l) { endpoints = endpoints } in
      let (none_thrown, xs, count, same) = accept_all_works [] endpoints next in
      let (acceptors_same, app_same) = with_app_same l in
      rw (e, listed resolve setup address endpoints (with_app l) n)
        (
          none_thrown,
          xs ∙ ap (λ ys. ys ++ replicate (length endpoints) serving) acceptors_same,
          omega (arith, count),
          same ∙ app_same,
        )
