-- ===== src/ClientSession/Steps.antt =====
-- src/session_client.hpp: what can happen to a session. A handler is one step: all
-- but `on_timer` hold the lock or run on the strand, and `on_timer`, which does neither, is taken as one
-- step all the same, as with a single thread. That a thread catches what a handler throws is
-- src/application.cpp.
use beauty_cl.Prelude.{ℕ, ◌≡◌, Bool, true, false, Option, none, some, [], ◌∷◌, ◌++◌, Bytes}
use beauty_cl.Server.{verb_get}
use beauty_cl.Url.{Url}
use beauty_cl.ClientSession.{
  ClientRequest, RequestContext, absent, idle, resolving, connecting, handshaking, writing, reading,
  ClientSession, ReadResult, on_resolve, on_connect, on_handshake, on_write, on_read, on_timer, run,
  set_context,
}

abbrev no_url : Url
no_url = record {
  scheme = [];
  login = [];
  password = [];
  host = [];
  port_view = [];
  port = 0;
  path = [];
  query = [];
}

-- What is at a number that no request has yet.
abbrev pub no_context : RequestContext
no_context = record {
  url = no_url;
  request = record {
    method = verb_get;
    version = 11;
    target = [];
    host = [];
    user_agent = [];
    body = [];
  };
  cb = absent;
  has_expiry = false;
  is_cancelled = false;
  waiting = false;
  too_late = false;
}

abbrev pub new_session : {E R : Type 0} → ClientSession E R
new_session = record {
  contexts = λ i. no_context;
  created = 0;
  requests = [];
  pending_request = false;
  is_open = false;
  operation = idle;
  response = none;
  sent = [];
  answered = [];
  calls = [];
  errors = [];
}

-- The worker thread reports what a handler throws, and goes on.
unfoldable pub worker : {E R : Type 0} → ClientSession E R × Option E → ClientSession E R
worker (s, none) = s
worker (s, some e) = record s { errors = s.errors ++ e ∷ [] }

-- The operation that was under way has ended.
abbrev pub ended : {E R : Type 0} → ClientSession E R → ClientSession E R
ended s = record s { operation = idle }

abbrev pub fired : {E R : Type 0} → ℕ → ClientSession E R → ClientSession E R
fired i s = set_context i (record (s.contexts i) { waiting = false }) s

module _ {E R : Type 0} (ssl : Bool) (timed_out : E) (user_agent : Bytes)
    (set_host_name : Bytes → Option E) where
  -- A timer may end well after it was cancelled: its call may have been under way.
  pub data Step : ClientSession E R → ClientSession E R → Type 0 where
    runs :
        {s : ClientSession E R} (req : ClientRequest) (url : Url) (has_expiry has_cb : Bool)
        → Step s (worker (run ssl timed_out user_agent set_host_name req url has_expiry has_cb s))
    resolves :
        {s : ClientSession E R} (ec : Option E) (host port : Bytes)
        → s.operation ≡ resolving host port
        → Step s (worker (on_resolve ssl timed_out user_agent set_host_name ec (ended s)))
    connects :
        {s : ClientSession E R} (ec : Option E) (is_open : Bool)
        → s.operation ≡ connecting
        → Step s (
            worker (
              on_connect ssl timed_out user_agent set_host_name ec
                (record (ended s) { is_open = is_open })))
    handshakes :
        {s : ClientSession E R} (ec : Option E)
        → s.operation ≡ handshaking
        → Step s (worker (on_handshake ssl timed_out user_agent set_host_name ec (ended s)))
    writes :
        {s : ClientSession E R} (ec : Option E) (i : ℕ)
        → s.operation ≡ writing i
        → Step s (worker (on_write ssl timed_out user_agent set_host_name ec (ended s)))
    reads :
        {s : ClientSession E R} (r : ReadResult E R) (i : ℕ)
        → s.operation ≡ reading i
        → Step s (worker (on_read ssl timed_out user_agent set_host_name r (ended s)))
    times :
        {s : ClientSession E R} (ec : Option E) (i : ℕ)
        → (s.contexts i).waiting ≡ true
        → Step s (worker (on_timer ssl timed_out user_agent set_host_name ec i (fired i s)))

  pub data Reachable (s : ClientSession E R) : ClientSession E R → Type 0 where
    starts : Reachable s s
    steps : {t u : ClientSession E R} → Reachable s t → Step t u → Reachable s u
