-- ===== src/Tests/Applications.antt =====
-- src/application.cpp and src/timer.cpp at concrete inputs.
use beauty_cl.Prelude.{
  ℕ, ◌≤◌, ◌≡◌, refl, Bool, true, false, not, map, some, ◌&&◌, ◌||◌, List, [], ◌∷◌, ◌++◌, arith,
  none, Bytes, codes, length, replicate, ◌==◌, if◌then◌else◌, pos,
}
use beauty_cl.Application.{
  Application, new_application, is_started, start, stop, launch, thread_count, restart, is_stopped,
  check_application, register_timer, is_registered, rearm, start_timer, on_expiry, cancel,
  cancel_all, reset_timers, waits_for_threads,
}
use beauty_cl.Application.Timers.{
  Runs, here, starts_timer, expires, no_duplicates, timers_registered, stop_cancels_timers,
}
use beauty_cl.Application.Threads.{Later, stop_inside_handler}
use beauty_cl.Application.Threads as Threads
use beauty_cl.Acceptor.{Endpoint, Acceptor, Setup, acceptor, run, do_accept}
use beauty_cl.Server.Listening.{
  Listener, Resolved, endpoints_of, resolve_addresses, resolve_all, accept_all, listen_on, listen,
}
use beauty_cl.Server.Failures.{SetsOptions, is_failing, listening, any_fails, listen_reports}
use beauty_cl.Server.Acceptors.{with_app, serving, listen_serves}

-- An application with one timer, which starts it.
abbrev with_timer : Application
with_timer = start_timer 7 (new_application true false)

-- The timer has expired once, and its callback goes on.
abbrev goes_on : Application → Application × Bool
goes_on a = (a, true)

abbrev expired : Application
expired = on_expiry false goes_on 7 (cancel 7 with_timer)

with_timer-armed : (false || with_timer.is_armed 7) ≡ true
unfolding start_timer rearm
with_timer-armed = ground arith

expired-Runs : Runs false (new_application true false) expired
expired-Runs = expires goes_on 7 with_timer-armed (starts_timer 7 here) here

with_timer-runs : (is_stopped with_timer || not with_timer.is_ioc_owner) ≡ false
unfolding start_timer check_application register_timer rearm start launch thread_count restart
    new_application is_registered
with_timer-runs = refl

expired-runs : (is_stopped expired || not expired.is_ioc_owner) ≡ false
unfolding start_timer check_application register_timer rearm start launch thread_count restart
    new_application is_registered on_expiry cancel
expired-runs = refl

timers_registered_example :
    (no_duplicates expired.timers ≡ true)
    × ((not false && (expired.is_armed 7 && not (is_registered 7 expired.timers))) ≡ false)
timers_registered_example = timers_registered false 7 true false expired-Runs

stop_cancels_timers_example :
    ((stop true expired).is_armed 7 ≡ false)
    × ((stop true expired).timers ≡ [])
    × ((stop false expired).is_armed 7 ≡ expired.is_armed 7)
    × ((stop false expired).timers ≡ expired.timers)
stop_cancels_timers_example = stop_cancels_timers 7 true false expired-Runs expired-runs

-- A callback that stops the application with `reset` and goes on leaves its timer armed.
abbrev stops_and_goes_on : Application → Application × Bool
stops_and_goes_on a = (stop true a, true)

armed_after_stop :
    let a = on_expiry false stops_and_goes_on 7 (cancel 7 with_timer) in
    (is_stopped a ≡ true) × (a.timers ≡ []) × (a.is_armed 7 ≡ true)
unfolding start_timer check_application register_timer rearm start launch thread_count restart
    new_application is_registered on_expiry cancel stop reset_timers cancel_all
armed_after_stop = (refl, refl, refl)

with_timer-active : 1 ≤ with_timer.active_threads
unfolding start_timer check_application register_timer rearm start launch thread_count restart
    new_application is_registered
with_timer-active = omega arith

stop_inside_handler_example :
    (1 ≤ 1)
    × (1 ≤ (stop true with_timer).active_threads)
    × (waits_for_threads (stop true with_timer) ≡ true)
stop_inside_handler_example =
    stop_inside_handler true with_timer with_timer-active with_timer-runs Threads.here

abbrev local_endpoint : Bytes → ℕ → Endpoint
local_endpoint address port = record { address = address; is_v6 = false; port = port }

abbrev resolve_one : Bytes → ℕ → Resolved ℕ
resolve_one address port = endpoints_of (local_endpoint address port ∷ [])

-- Every call succeeds, and port 0 gets a free one.
abbrev working : List Acceptor → Endpoint → Setup ℕ
working xs endpoint = record {
  open_error = none;
  reuse_address_error = none;
  v6_only_error = none;
  bind_error = none;
  listen_error = none;
  local_port = if endpoint.port == 0 then 40000 else endpoint.port;
}

abbrev listener : Listener
listener = record {
  app = new_application true false;
  concurrency = pos 1;
  acceptors = [];
  released = [];
  endpoints = [];
}

abbrev local_endpoints : List Endpoint
local_endpoints = local_endpoint (codes "::") 0 ∷ local_endpoint (codes "0.0.0.0") 0 ∷ []

listen_serves_example :
    let r = listen resolve_one working 0 [] listener in
    (r.1 ≡ none)
    × (r.0.acceptors ≡ listener.acceptors ++ replicate (length local_endpoints) serving)
    × (length r.0.endpoints ≡ length local_endpoints)
    × (r.0.app ≡ (
        if is_started listener.app then listener.app else start listener.concurrency listener.app))
listen_serves_example =
    listen_serves resolve_one working (λ xs endpoint. (refl, refl, refl, refl, refl)) 0 [] listener
      local_endpoints (unfold resolve_all resolve_addresses in refl) refl

-- Port 80 is in use.
abbrev occupied : List Acceptor → Endpoint → Setup ℕ
occupied xs endpoint = record (working xs endpoint) {
  bind_error = if endpoint.port == 80 then some 98 else none;
}

abbrev is_occupied : Endpoint → Bool
is_occupied endpoint = endpoint.port == 80

occupied-SetsOptions :
    (xs : List Acceptor) (e : Endpoint)
    → SetsOptions (occupied xs e) × (is_failing (occupied xs e) ≡ is_occupied e)
occupied-SetsOptions xs e = ((refl, refl), ground arith)

listen_reports_example :
    let r = listen resolve_one occupied 80 (codes "::1") listener in
    (r.1 ≡ none)
    × (map listening r.0.acceptors
        ≡ map listening listener.acceptors
          ++ map (λ e. not (is_occupied e)) (local_endpoint (codes "::1") 80 ∷ []))
    × (is_stopped r.0.app ≡ (
        is_stopped (with_app listener).app
        || (any_fails is_occupied (local_endpoint (codes "::1") 80 ∷ [])
            && (with_app listener).app.is_ioc_owner)))
listen_reports_example =
    listen_reports resolve_one occupied is_occupied occupied-SetsOptions 80 (codes "::1") listener
      (local_endpoint (codes "::1") 80 ∷ []) (unfold resolve_all resolve_addresses in refl) refl

-- A second call listens on the endpoints of the first one again.
listen_twice :
    let first = (listen resolve_one working 80 (codes "127.0.0.1") listener).0 in
    length (listen resolve_one working 81 (codes "127.0.0.1") first).0.acceptors ≡ 3
unfolding listen listen_on resolve_all resolve_addresses accept_all acceptor run do_accept
    new_application start launch thread_count restart
listen_twice = refl
