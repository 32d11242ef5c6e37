-- ===== src/Acceptor.antt =====
-- src/acceptor.cpp and src/signal.cpp. What Boost.Asio's calls answer is an argument; the application, to
-- which an acceptor has a reference, is passed on.
use beauty_cl.Prelude.{
  ℕ, Bool, true, false, Option, none, some, List, [], ◌∷◌, ◌++◌, Bytes, if◌then◌else◌, pos,
}
use beauty_cl.Application.{Application, is_started, is_stopped, start, stop}

-- `beauty::endpoint`.
pub record Endpoint : Type 0 where
  pub address : Bytes
  pub is_v6 : Bool
  pub port : ℕ

-- `is_accepting` says that a call of `on_accept` is to come; `sessions` has the sessions that were run,
-- with TLS or not.
pub record Acceptor : Type 0 where
  pub is_open : Bool
  pub is_listening : Bool
  pub is_accepting : Bool
  pub sessions : List Bool

-- The errors of the calls of the constructor, and the port that the acceptor is bound to. The errors of
-- `set_option` are thrown.
pub record Setup (E : Type 0) : Type 0 where
  pub open_error : Option E
  pub reuse_address_error : Option E
  pub v6_only_error : Option E
  pub bind_error : Option E
  pub listen_error : Option E
  pub local_port : ℕ

-- What the constructor leaves: an acceptor with its endpoint and the application, or an exception.
pub data Made (E : Type 0) : Type 0 where
  made : Acceptor → Endpoint → Application → Made E
  thrown : E → Made E

abbrev opened : Bool → Bool → Acceptor
opened is_open is_listening = record {
  is_open = is_open;
  is_listening = is_listening;
  is_accepting = false;
  sessions = [];
}

-- The default of `reset` is true.
unfoldable pub acceptor : {E : Type 0} → Setup E → Endpoint → Application → Made E
acceptor c endpoint a =
    let bound = record endpoint { port = c.local_port } in
    elim c.open_error [
      | some e ↦ made (opened false false) endpoint (stop true a)
      | none ↦ elim c.reuse_address_error [
        | some e ↦ thrown e
        | none ↦ elim (if endpoint.is_v6 then c.v6_only_error else none) [
          | some e ↦ thrown e
          | none ↦ elim c.bind_error [
            | some e ↦ made (opened true false) endpoint (stop true a)
            | none ↦ elim c.listen_error [
              | some e ↦ made (opened true false) bound (stop true a)
              | none ↦ made (opened true true) bound a
            ]
          ]
        ]
      ]
    ]

unfoldable pub do_accept : Acceptor → Acceptor
do_accept x = record x { is_accepting = true }

unfoldable pub run : Acceptor → Acceptor
run x = if x.is_open then do_accept x else x

-- The close cancels what is under way.
unfoldable pub close : Acceptor → Acceptor
close x = if x.is_open then record x { is_open = false; is_accepting = false } else x

-- How an asynchronous accept ends.
pub data Accepted : Type 0 where
  operation_canceled accept_error connected : Accepted

unfoldable pub on_accept : Accepted → Acceptor → Application → Acceptor × Application
on_accept operation_canceled x a = (x, a)
on_accept accept_error x a = (x, stop true a)
on_accept connected x a =
    (do_accept (record x { sessions = x.sessions ++ a.is_ssl_activated ∷ [] }), a)

-- `signal_set`, with the signals that were caught.
pub record SignalSet : Type 0 where
  pub signals : List ℕ
  pub is_waiting : Bool
  pub caught : List ℕ

unfoldable pub add : ℕ → SignalSet → SignalSet
add n s = record s { signals = s.signals ++ n ∷ [] }

unfoldable pub run_signals : SignalSet → Application → SignalSet × Application
run_signals s a =
    if is_stopped a
    then (s, a)
    else (record s { is_waiting = true }, if is_started a then a else start (pos 1) a)

-- The handler: the callback may change the application.
unfoldable pub on_signal :
    Bool → ℕ → (ℕ → Application → Application) → SignalSet → Application → SignalSet × Application
on_signal failed n cb s a =
    if failed then (s, a) else run_signals (record s { caught = s.caught ++ n ∷ [] }) (cb n a)

unfoldable pub add_all : List ℕ → SignalSet → SignalSet
add_all [] s = s
add_all (n ∷ ns) s = add_all ns (add n s)

-- `beauty::signal`.
unfoldable pub signal : List ℕ → Application → SignalSet × Application
signal ns a = run_signals (add_all ns (record { signals = []; is_waiting = false; caught = [] })) a
