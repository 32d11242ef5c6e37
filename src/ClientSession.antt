-- ===== src/ClientSession.antt =====
-- src/session_client.hpp. The request contexts, which the queue and the timers share, are a store: a
-- request is the number of its context. A call that starts an asynchronous operation sets `operation`.
pub mod Steps
pub mod Order
pub mod Calls
pub mod Taken
pub mod Waiting
pub mod Deliveries
pub mod Failures
pub mod Rounds
use beauty_cl.Prelude.{
  ℕ, suc, Bool, true, false, not, ◌&&◌, Option, none, some, List, [], ◌∷◌, ◌++◌, Bytes, codes,
  is_empty, ◌==◌, if◌then◌else◌,
}
use beauty_cl.Server.{Verb}
use beauty_cl.Url.{Url, url_path, is_http, is_https}

-- The parts of a `beauty::request` that the client sets.
pub record ClientRequest : Type 0 where
  pub method : Verb
  pub version : ℕ
  pub target : Bytes
  pub host : Bytes
  pub user_agent : Bytes
  pub body : Bytes

-- The `std::function` of a request; it is empty where none was given, and once it was called.
pub data Callback : Type 0 where
  absent held cleared : Callback

-- `if (cb)`.
abbrev pub is_held : Callback → Bool
is_held held = true
is_held _ = false

-- `has_expiry` says that the timer was given a time, `waiting` that a call of `on_timer` is to come.
pub record RequestContext : Type 0 where
  pub url : Url
  pub request : ClientRequest
  pub cb : Callback
  pub has_expiry : Bool
  pub is_cancelled : Bool
  pub waiting : Bool
  pub too_late : Bool

-- The asynchronous operation that is under way; a write and a read are those of a request.
pub data Operation : Type 0 where
  idle : Operation
  resolving : Bytes → Bytes → Operation
  connecting handshaking : Operation
  writing reading : ℕ → Operation

-- What a callback is called with.
pub data Answer (E R : Type 0) : Type 0 where
  failed : E → Answer E R
  responded : R → Answer E R

-- The contexts below `created` exist. `sent` has the requests whose writing was started, `answered` those
-- that were taken from the queue, `calls` the calls of callbacks, and `errors` what handlers threw.
pub record ClientSession (E R : Type 0) : Type 0 where
  pub contexts : ℕ → RequestContext
  pub created : ℕ
  pub requests : List ℕ
  pub pending_request : Bool
  pub is_open : Bool
  pub operation : Operation
  pub response : Option R
  pub sent : List ℕ
  pub answered : List ℕ
  pub calls : List (ℕ × Answer E R)
  pub errors : List E

pub data ReadResult (E R : Type 0) : Type 0 where
  end_of_stream : ReadResult E R
  read_error : E → ReadResult E R
  received : R → ReadResult E R

-- `request_context::Create`; `has_expiry` is whether the duration is not zero.
unfoldable pub create_context : Bytes → ClientRequest → Url → Bool → Bool → RequestContext
create_context user_agent req url has_expiry has_cb = record {
  url = url;
  request = record req {
    version = 11;
    target = url_path url ++ url.query;
    host = url.host;
    user_agent = user_agent;
  };
  cb = if has_cb then held else absent;
  has_expiry = has_expiry;
  is_cancelled = false;
  waiting = false;
  too_late = false;
}

-- The port of the URL or the default one.
unfoldable pub port_or_default : Url → Bytes
port_or_default url =
    if is_empty url.port_view
    then (if is_http url then codes "80" else (if is_https url then codes "443" else []))
    else url.port_view

abbrev pub set_context : {E R : Type 0} → ℕ → RequestContext → ClientSession E R → ClientSession E R
set_context i c s = record s { contexts = λ j. if j == i then c else s.contexts j }

-- `cb(...); cb = nullptr`.
unfoldable pub call_back : {E R : Type 0} → ℕ → Answer E R → ClientSession E R → ClientSession E R
call_back i answer s =
    let c = s.contexts i in
    set_context i (record c { cb = cleared }) (record s { calls = s.calls ++ (i, answer) ∷ [] })

unfoldable pub cancel_timer : {E R : Type 0} → ℕ → ClientSession E R → ClientSession E R
cancel_timer i s = let c = s.contexts i in set_context i (record c { is_cancelled = true }) s

-- `fail`, with the exception that it throws.
unfoldable pub fail : {E R : Type 0} → ℕ → E → ClientSession E R → ClientSession E R × Option E
fail i e s =
    if is_held (s.contexts i).cb
    then (if (s.contexts i).too_late then (s, none) else (call_back i (failed e) s, none))
    else (s, some e)

-- `fail` for the first request. Without one the behaviour is undefined.
unfoldable pub fail_first : {E R : Type 0} → E → ClientSession E R → ClientSession E R × Option E
fail_first e s = elim s.requests [ [] ↦ (s, none) | i ∷ waiting ↦ fail i e s ]

unfoldable pub do_write : {E R : Type 0} → ClientSession E R → ClientSession E R
do_write s = elim s.requests [
  | [] ↦ record s { pending_request = false }
  | i ∷ waiting ↦ record s {
    pending_request = true;
    operation = writing i;
    sent = s.sent ++ i ∷ [];
  }
]

-- The end of `on_read` hands the response to the callback, or keeps it for a synchronous request.
unfoldable pub release : {E R : Type 0} → ℕ → R → ClientSession E R → ClientSession E R
release i r s =
    if is_held (s.contexts i).cb
    then (if (s.contexts i).too_late
        then s
        else call_back i (responded r) (record s { response = none }))
    else record s { response = some r }

-- What `on_read` does with a response, for the first request of the queue.
unfoldable pub take_first : {E R : Type 0} → ℕ → List ℕ → R → ClientSession E R → ClientSession E R
take_first i waiting r s =
    let popped = record s {
      requests = waiting;
      pending_request = false;
      answered = s.answered ++ i ∷ [];
    } in
    do_write (release i r (cancel_timer i popped))

unfoldable pub take_response : {E R : Type 0} → R → ClientSession E R → ClientSession E R
take_response r s = elim s.requests [ [] ↦ s | i ∷ waiting ↦ take_first i waiting r s ]

-- A new context, whose timer is started, at the end of the queue.
unfoldable pub push_request :
    {E R : Type 0} → RequestContext → ClientSession E R → ClientSession E R
push_request c s = record (set_context s.created (record c { waiting = c.has_expiry }) s) {
  created = suc s.created;
  requests = s.requests ++ s.created ∷ [];
}

-- `ssl` is the template's parameter, `timed_out` the error of a timer, `user_agent` the version of the
-- project, and `set_host_name` the error of OpenSSL's call for the name of the host, if it fails.
module _ {E R : Type 0} (ssl : Bool) (timed_out : E) (user_agent : Bytes)
    (set_host_name : Bytes → Option E) where
  unfoldable pub do_resolve : ClientSession E R → ClientSession E R × Option E
  do_resolve s = elim s.requests [
    | [] ↦ (s, none)
    | i ∷ waiting ↦ elim (if ssl then set_host_name (s.contexts i).url.host else none) [
      | none ↦ (
        record s {
          pending_request = true;
          operation = resolving (s.contexts i).url.host (port_or_default (s.contexts i).url);
        },
        none,
      )
      | some e ↦ fail i e s
    ]
  ]

  unfoldable pub on_resolve : Option E → ClientSession E R → ClientSession E R × Option E
  on_resolve none s = (record s { operation = connecting }, none)
  on_resolve (some e) s = fail_first e s

  unfoldable pub on_connect : Option E → ClientSession E R → ClientSession E R × Option E
  on_connect none s =
      if ssl then (record s { operation = handshaking }, none) else (do_write s, none)
  on_connect (some e) s = elim s.requests [
    | [] ↦ (s, none)
    | i ∷ waiting ↦ fail_first e (cancel_timer i s)
  ]

  unfoldable pub on_handshake : Option E → ClientSession E R → ClientSession E R × Option E
  on_handshake none s = (do_write s, none)
  on_handshake (some e) s = fail_first e s

  unfoldable pub on_write : Option E → ClientSession E R → ClientSession E R × Option E
  on_write none s = elim s.requests [
    | [] ↦ (s, none)
    | i ∷ waiting ↦ (record s { operation = reading i }, none)
  ]
  on_write (some e) s = fail_first e s

  unfoldable pub on_read : ReadResult E R → ClientSession E R → ClientSession E R × Option E
  on_read end_of_stream s = do_resolve s
  on_read (read_error e) s = fail_first e s
  on_read (received r) s = (take_response r s, none)

  -- A timer that fires is too late for a request, unless `fail` throws first.
  unfoldable pub mark_too_late : ℕ → ClientSession E R × Option E → ClientSession E R × Option E
  mark_too_late i (s, some e) = (s, some e)
  mark_too_late i (s, none) =
      let c = s.contexts i in (set_context i (record c { too_late = true }) s, none)

  unfoldable pub on_timer : Option E → ℕ → ClientSession E R → ClientSession E R × Option E
  on_timer (some e) i s = (s, none)
  on_timer none i s =
      if (s.contexts i).too_late then (s, none) else mark_too_late i (fail i timed_out s)

  -- The end of `run`, unless `do_resolve` throws.
  unfoldable pub rearm : ClientSession E R × Option E → ClientSession E R × Option E
  rearm (s, some e) = (s, some e)
  rearm (s, none) = if s.pending_request then (s, none) else (do_write s, none)

  unfoldable pub run_context : RequestContext → ClientSession E R → ClientSession E R × Option E
  run_context c s =
      let connection_required = is_empty s.requests && not s.is_open in
      let pushed = push_request c s in
      if connection_required then rearm (do_resolve pushed) else rearm (pushed, none)

  -- `run` with or without a callback.
  unfoldable pub run :
      ClientRequest → Url → Bool → Bool → ClientSession E R → ClientSession E R × Option E
  run req url has_expiry has_cb s =
      run_context (create_context user_agent req url has_expiry has_cb) s
