-- ===== src/Application.antt =====
-- src/application.cpp, include/beauty/application.hpp, src/timer.cpp and include/beauty/timer.hpp. The
-- threads and the io_context of Boost.Asio are what the code sees of them: how many threads are active,
-- and whether the io_context was stopped. A timer is its number.
pub mod Timers
pub mod Threads
pub mod Singleton
use beauty_cl.Prelude.{
  ℕ, zero, suc, Bool, true, false, not, ◌&&◌, ◌||◌, Option, none, some, List, [], ◌∷◌, ◌++◌, Bytes,
  is_empty, ltb, ◌==◌, if◌then◌else◌, ℤ, pos, negsuc,
}

pub data State : Type 0 where
  waiting started stopped : State

-- `is_armed` says of a timer that a call of its handler is to come.
pub record Application : Type 0 where
  pub state : State
  pub is_ioc_owner : Bool
  pub is_ssl_activated : Bool
  pub ioc_stopped : Bool
  pub threads : ℕ
  pub active_threads : ℕ
  pub timers : List ℕ
  pub is_armed : ℕ → Bool

-- The constructors: with an io_context of its own or another's, with certificates or without.
unfoldable pub new_application : Bool → Bool → Application
new_application is_ioc_owner has_certificates = record {
  state = waiting;
  is_ioc_owner = is_ioc_owner;
  is_ssl_activated = has_certificates;
  ioc_stopped = false;
  threads = 0;
  active_threads = 0;
  timers = [];
  is_armed = λ i. false;
}

abbrev pub is_started : Application → Bool
is_started a = elim a.state [ started ↦ true | _ ↦ false ]

abbrev pub is_stopped : Application → Bool
is_stopped a = elim a.state [ stopped ↦ true | _ ↦ false ]

-- `std::max(1, concurrency)`.
unfoldable pub thread_count : ℤ → ℕ
thread_count (pos n) = if ltb 1 n then n else 1
thread_count (negsuc n) = 1

-- The io_context of an application that was started before is restarted.
unfoldable pub restart : Application → Application
restart a = if is_stopped a then record a { ioc_stopped = false } else a

-- The loop over the threads.
unfoldable pub launch : ℕ → Application → Application
launch zero a = a
launch (suc n) a = launch n (record a { active_threads = suc a.active_threads })

unfoldable pub start : ℤ → Application → Application
start concurrency a =
    if is_started a || not a.is_ioc_owner
    then a
    else launch (thread_count concurrency) (record (restart a) {
      state = started;
      threads = thread_count concurrency;
      active_threads = 0;
    })

-- `timer::stop`.
unfoldable pub cancel : ℕ → Application → Application
cancel i a = record a { is_armed = λ j. if j == i then false else a.is_armed j }

-- The loop over the timers.
unfoldable pub cancel_all : List ℕ → Application → Application
cancel_all [] a = a
cancel_all (i ∷ is) a = cancel_all is (cancel i a)

unfoldable pub reset_timers : Application → Application
reset_timers a = record (cancel_all a.timers a) { timers = [] }

-- `stop`, up to its wait for the threads.
unfoldable pub stop : Bool → Application → Application
stop reset a =
    if is_stopped a || not a.is_ioc_owner
    then a
    else record (if reset
        then reset_timers (record a { state = stopped })
        else record a { state = stopped }) { ioc_stopped = true }

-- The condition of the loop in which `stop` waits.
abbrev pub waits_for_threads : Application → Bool
waits_for_threads a = not (a.active_threads == 0)

-- The destructor.
unfoldable pub destroy_application : Application → Application
destroy_application a = stop false a

-- The conditions under which `wait` goes on waiting.
unfoldable pub waits_for_stop : Application → Bool
waits_for_stop a = a.is_ioc_owner && not (is_stopped a)

-- `run`, up to the call that runs the io_context.
unfoldable pub run : Application → Application
run a = if a.is_ioc_owner then record (restart a) { state = started } else a

-- The end of a thread, when the io_context has nothing to run.
unfoldable pub end_thread : Application → Application
end_thread a = elim a.active_threads [ zero ↦ a | suc n ↦ record a { active_threads = n } ]

-- `timer::check_application`; the default of `concurrency` is 1.
unfoldable pub check_application : Application → Application
check_application a = if is_stopped a then a else (if is_started a then a else start (pos 1) a)

-- `found`.
unfoldable pub is_registered : ℕ → List ℕ → Bool
is_registered i [] = false
is_registered i (j ∷ js) = if j == i then true else is_registered i js

unfoldable pub register_timer : ℕ → Application → Application
register_timer i a =
    if is_registered i a.timers then a else record a { timers = a.timers ++ i ∷ [] }

unfoldable pub rearm : ℕ → Application → Application
rearm i a = record a { is_armed = λ j. if j == i then true else a.is_armed j }

unfoldable pub start_timer : ℕ → Application → Application
start_timer i a = rearm i (register_timer i (check_application a))

-- The handler of a timer, given whether it was cancelled and the callback, which may change the
-- application: what it makes of it, with what other threads do meanwhile, and its answer.
unfoldable pub on_expiry : Bool → (Application → Application × Bool) → ℕ → Application → Application
on_expiry cancelled cb i a =
    let (b, again) = cb a in if cancelled then a else (if again then rearm i b else b)

-- The callback that a timer keeps: a callback that returns a `bool` as it is, and another one with the
-- answer `repeat`.
pub data TimerCallback (T : Type 0) : Type 0 where
  returns_bool : (T → T × Bool) → TimerCallback T
  returns_nothing : (T → T) → TimerCallback T

unfoldable pub timer_cb : {T : Type 0} → TimerCallback T → Bool → T → T × Bool
timer_cb (returns_bool cb) repeat x = cb x
timer_cb (returns_nothing cb) repeat x = (cb x, repeat)

-- `after` with a duration: the timer that is made, which has the callback, and the application after its
-- start. The conversion of seconds is a parameter of the other `after`.
unfoldable pub after :
    {D T : Type 0}
    → D
    → TimerCallback T
    → Bool
    → ℕ
    → Application
    → (D × (T → T × Bool)) × Application
after d cb repeat i a = ((d, timer_cb cb repeat), start_timer i a)

unfoldable pub after_seconds :
    {D N T : Type 0}
    → (N → D)
    → N
    → TimerCallback T
    → Bool
    → ℕ
    → Application
    → (D × (T → T × Bool)) × Application
after_seconds milliseconds seconds cb repeat i a = after (milliseconds seconds) cb repeat i a

unfoldable pub repeat :
    {D T : Type 0} → D → TimerCallback T → ℕ → Application → (D × (T → T × Bool)) × Application
repeat d cb i a = after d cb true i a

unfoldable pub repeat_seconds :
    {D N T : Type 0}
    → (N → D)
    → N
    → TimerCallback T
    → ℕ
    → Application
    → (D × (T → T × Bool)) × Application
repeat_seconds milliseconds seconds cb i a = after_seconds milliseconds seconds cb true i a

-- `certificates`.
pub record Certificates : Type 0 where
  pub certificat_chain : Bytes
  pub private_key : Bytes
  pub temporary_dh : Bytes
  pub password : Bytes

-- The calls on the SSL context. The options are those for every server, with `single_dh_use` or not.
pub data SslCall : Type 0 where
  set_password_callback : Bytes → SslCall
  set_options : Bool → SslCall
  use_certificate_chain use_private_key use_tmp_dh : Bytes → SslCall
  set_verify_none : SslCall

abbrev given : Bytes → (Bytes → SslCall) → List SslCall
given text call = if is_empty text then [] else call text ∷ []

unfoldable pub load_server_certificates : Certificates → List SslCall
load_server_certificates c =
    given c.password set_password_callback
    ++ (set_options (not (is_empty c.temporary_dh))
        ∷ (given c.certificat_chain use_certificate_chain
            ++ (given c.private_key use_private_key
                ++ (given c.temporary_dh use_tmp_dh
                    ++ (if is_empty c.certificat_chain || is_empty c.private_key
                        then set_verify_none ∷ []
                        else [])))))
