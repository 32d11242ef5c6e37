-- ===== src/Application/Threads.antt =====
-- src/application.cpp: the threads of an application, from a `start` to the next.
use beauty_cl.Prelude.{
  ℕ, zero, suc, ◌≤◌, ◌<◌, ◌≡◌, refl, Bool, true, false, not, ◌||◌, List, [], ◌∷◌, arith, ℤ,
}
use beauty_cl.Application.{
  stopped, Application, is_started, is_stopped, restart, start, stop, cancel, cancel_all,
  reset_timers, run, waits_for_threads, end_thread,
}

-- The ends of all threads.
unfoldable pub end_threads : ℕ → Application → Application
end_threads zero a = a
end_threads (suc n) a = end_threads n (end_thread a)

cancel_all-threads :
    (is : List ℕ) (a : Application) → (cancel_all is a).active_threads ≡ a.active_threads
unfolding cancel_all cancel
cancel_all-threads [] a = refl
cancel_all-threads (i ∷ is) a = cancel_all-threads is (cancel i a)

stop-threads : (reset : Bool) (a : Application) → (stop reset a).active_threads ≡ a.active_threads
unfolding stop reset_timers
stop-threads reset a = ground (arith, cancel_all-threads a.timers (record a { state = stopped }))

start_again : (d : ℤ) (a : Application) → is_started a ≡ true → start d a ≡ a
unfolding start
start_again d a e = rw e refl

-- What can happen to an application and to its threads, of which some wait inside a call of `stop` that
-- one of their handlers made: they end only after that call. A `start` of an application that is not
-- started is left out: it sets `_active_threads` to 0, whatever threads there are.
pub data Step (a : Application) (blocked : ℕ) : Application → ℕ → Type 0 where
  stops_inside :
      (reset : Bool)
      → blocked < a.active_threads
      → (is_stopped a || not a.is_ioc_owner) ≡ false
      → Step a blocked (stop reset a) (suc blocked)
  stops_outside : (reset : Bool) → Step a blocked (stop reset a) blocked
  starts : (concurrency : ℤ) → is_started a ≡ true → Step a blocked (start concurrency a) blocked
  runs : Step a blocked (run a) blocked
  ends : blocked < a.active_threads → Step a blocked (end_thread a) blocked
  returns : (n : ℕ) → blocked ≡ suc n → waits_for_threads a ≡ false → Step a blocked a n

pub data Later (a : Application) (blocked : ℕ) : Application → ℕ → Type 0 where
  here : Later a blocked a blocked
  next : {b c : Application} {m n : ℕ} → Later a blocked b m → Step b m c n → Later a blocked c n

abbrev IsBlocked : Application → ℕ → Type 0
IsBlocked a blocked = (1 ≤ blocked) × (blocked ≤ a.active_threads)

Step-IsBlocked : {a b : Application} {m n : ℕ} → Step a m b n → IsBlocked a m → IsBlocked b n
Step-IsBlocked {a} (stops_inside reset l e) h = ground (arith, stop-threads reset a)
Step-IsBlocked {a} (stops_outside reset) h = ground (arith, stop-threads reset a)
Step-IsBlocked {a} (starts c e) h = rw (start_again c a e) h
Step-IsBlocked {a} runs h = unfold run restart in ground arith
Step-IsBlocked {a} (ends l) h = unfold end_thread in ground arith
Step-IsBlocked {a} (returns n e w) h = ground arith

Later-IsBlocked :
    {a : Application} {m : ℕ} {b : Application} {n : ℕ}
    → Later a m b n
    → IsBlocked a m
    → IsBlocked b n
Later-IsBlocked here h = h
Later-IsBlocked (next l step) h = Step-IsBlocked step (Later-IsBlocked l h)

-- Once a handler, which runs on one of the active threads, has called `stop` and waits in it, that call
-- does not return until the application is started anew: in every later state before that, some thread
-- waits in `stop`, at least as many threads are active as wait, and the loop of `stop` goes on.
pub stop_inside_handler :
    (reset : Bool) (a : Application) {b : Application} {n : ℕ}
    → 1 ≤ a.active_threads
    → (is_stopped a || not a.is_ioc_owner) ≡ false
    → Later (stop reset a) 1 b n
    → (1 ≤ n) × (n ≤ b.active_threads) × (waits_for_threads b ≡ true)
stop_inside_handler reset a l e later =
    let (some_wait, fewer) =
      Later-IsBlocked later (omega arith, ground (arith, stop-threads reset a)) in
    (some_wait, fewer, ground arith)
