-- ===== src/Server/Listening.antt =====
-- src/server.cpp and include/beauty/server.hpp: `listen`, `stop` and what they leave. The resolver is a
-- parameter, and so is what the calls of an acceptor's constructor answer.
use beauty_cl.Prelude.{
  ℕ, true, false, Option, none, some, List, [], ◌∷◌, ◌++◌, Bytes, codes, is_empty, if◌then◌else◌, ℤ,
  map,
}
use beauty_cl.Application.{Application, is_started, is_stopped, start}
use beauty_cl.Application as Application
use beauty_cl.Acceptor.{Endpoint, Acceptor, Setup, made, thrown, acceptor, run, close}

-- The part of a `server` that listens. `released` has the acceptors that `stop` let go, which their
-- handlers may still hold.
pub record Listener : Type 0 where
  pub app : Application
  pub concurrency : ℤ
  pub acceptors : List Acceptor
  pub released : List Acceptor
  pub endpoints : List Endpoint

-- What the resolver answers, and what `listen` throws.
pub data Resolved (E : Type 0) : Type 0 where
  endpoints_of : List Endpoint → Resolved E
  unresolved : E → Resolved E

pub data ListenError (E : Type 0) : Type 0 where
  system_error : E → ListenError E
  no_endpoints : Bytes → ListenError E

unfoldable pub resolve_addresses : Bytes → List Bytes
resolve_addresses address =
    if is_empty address then codes "::" ∷ codes "0.0.0.0" ∷ [] else address ∷ []

module _ {E : Type 0} (resolve : Bytes → ℕ → Resolved E)
    (setup : List Acceptor → Endpoint → Setup E) where
  -- The loop over the addresses.
  unfoldable pub resolve_all :
      ℕ → List Bytes → List Endpoint → List Endpoint × Option (ListenError E)
  resolve_all port [] endpoints = (endpoints, none)
  resolve_all port (address ∷ addresses) endpoints = elim (resolve address port) [
    | endpoints_of found ↦ resolve_all port addresses (endpoints ++ found)
    | unresolved e ↦ (endpoints, some (system_error e))
  ]

  -- The loop over the endpoints: those behind the loop and those before it.
  unfoldable pub accept_all :
      List Endpoint → List Endpoint → Listener → Listener × Option (ListenError E)
  accept_all seen [] l = (record l { endpoints = seen }, none)
  accept_all seen (endpoint ∷ endpoints) l =
      elim (acceptor (setup l.acceptors endpoint) endpoint l.app) [
        | made x bound app ↦
            accept_all (seen ++ bound ∷ []) endpoints
              (record l { acceptors = l.acceptors ++ run x ∷ []; app = app })
        | thrown e ↦ (record l { endpoints = seen ++ endpoint ∷ endpoints }, some (system_error e))
      ]

  -- `listen` behind its loop over the addresses.
  unfoldable pub listen_on :
      Bytes → List Endpoint × Option (ListenError E) → Listener → Listener × Option (ListenError E)
  listen_on address (endpoints, some e) l = (record l { endpoints = endpoints }, some e)
  listen_on address (endpoints, none) l =
      if is_empty endpoints
      then (record l { endpoints = endpoints }, some (no_endpoints address))
      else accept_all [] endpoints (record l { endpoints = endpoints })

  unfoldable pub listen : ℕ → Bytes → Listener → Listener × Option (ListenError E)
  listen port address l =
      let started = if is_started l.app then l else record l { app = start l.concurrency l.app } in
      listen_on address (resolve_all port (resolve_addresses address) l.endpoints) started

unfoldable pub close_all : List Acceptor → List Acceptor
close_all xs = map close xs

-- `stop`; the default of the application's `reset` is true.
unfoldable pub stop : Listener → Listener
stop l = record l {
  acceptors = [];
  released = l.released ++ close_all l.acceptors;
  endpoints = [];
  app = Application.stop true l.app;
}

-- The destructor.
unfoldable pub destroy_server : Listener → Listener
destroy_server l = stop l

unfoldable pub set_concurrency : ℤ → Listener → Listener
set_concurrency concurrency l = record l { concurrency = concurrency }

-- `run` of the server.
unfoldable pub run_server : Listener → Listener
run_server l = record l { app = Application.run l.app }

-- `endpoint` and `port`; without one they are those of an empty endpoint.
unfoldable pub first_endpoint : Listener → Endpoint
first_endpoint l = elim l.endpoints [
  | [] ↦ record { address = []; is_v6 = false; port = 0 }
  | endpoint ∷ endpoints ↦ endpoint
]

unfoldable pub first_port : Listener → ℕ
first_port l = (first_endpoint l).port
