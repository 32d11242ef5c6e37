-- ===== src/Application/Timers.antt =====
-- src/timer.cpp: the timers of an application. A wait that is cancelled ends with an error, unless its
-- handler was queued just before.
use beauty_cl.Prelude.{
  ℕ, zero, suc, ◌≡◌, refl, Bool, true, false, not, ◌&&◌, ◌||◌, List, [], ◌∷◌, ◌++◌, arith, ◌==◌, ℤ,
}
use beauty_cl.Application.{
  stopped, Application, new_application, is_stopped, restart, launch, start, cancel, cancel_all,
  reset_timers, stop, run, end_thread, check_application, is_registered, register_timer, rearm,
  start_timer, on_expiry,
}

-- How an application gets from one state to another, with calls of `stop` with `reset` where `resets`
-- allows them. A handler runs the callback, in which an application gets on in the same way, and not
-- before its timer expires: without resets it is armed, and with them its wait may have ended just before
-- it was cancelled.
pub data Runs (resets : Bool) : Application → Application → Type 0 where
  here : {s : Application} → Runs resets s s
  starts :
      {s t : Application} (concurrency : ℤ) → Runs resets s t → Runs resets s (start concurrency t)
  stops :
      {s t : Application} (reset : Bool)
      → (reset && not resets) ≡ false
      → Runs resets s t
      → Runs resets s (stop reset t)
  runs : {s t : Application} → Runs resets s t → Runs resets s (run t)
  ends : {s t : Application} → Runs resets s t → Runs resets s (end_thread t)
  starts_timer : {s t : Application} (i : ℕ) → Runs resets s t → Runs resets s (start_timer i t)
  expires :
      {s t : Application} (cb : Application → Application × Bool) (i : ℕ)
      → (resets || t.is_armed i) ≡ true
      → Runs resets s t
      → Runs resets (cancel i t) (cb (cancel i t)).0
      → Runs resets s (on_expiry false cb i (cancel i t))

unfoldable pub no_duplicates : List ℕ → Bool
no_duplicates [] = true
no_duplicates (i ∷ is) = not (is_registered i is) && no_duplicates is

is_registered-append :
    (k i : ℕ) (is : List ℕ) → is_registered k (is ++ i ∷ []) ≡ (is_registered k is || i == k)
unfolding is_registered
is_registered-append k i [] = ground arith
is_registered-append k i (j ∷ is) = ground (arith, is_registered-append k i is)

no_duplicates-append :
    (i : ℕ) (is : List ℕ)
    → is_registered i is ≡ false
    → no_duplicates is ≡ true
    → no_duplicates (is ++ i ∷ []) ≡ true
unfolding no_duplicates is_registered
no_duplicates-append i [] new h = refl
no_duplicates-append i (j ∷ is) new h =
    ground (arith, is_registered-append j i is, no_duplicates-append i is)

is_registered-last : (i : ℕ) (is : List ℕ) → is_registered i (is ++ i ∷ []) ≡ true
is_registered-last i is = ground (arith, is_registered-append i i is)

module _ (resets : Bool) (k : ℕ) where
  -- Registered, unless the timers may have been reset.
  abbrev Known : Application → Type 0
  Known a = (resets || is_registered k a.timers) ≡ true

  abbrev Inv : Application → Type 0
  Inv a = (no_duplicates a.timers ≡ true) × (a.is_armed k ≡ true → Known a)

  launch-timers :
      (n : ℕ) (a : Application)
      → ((launch n a).timers ≡ a.timers) × ((launch n a).is_armed ≡ a.is_armed)
  unfolding launch
  launch-timers zero a = (refl, refl)
  launch-timers (suc n) a = launch-timers n (record a { active_threads = suc a.active_threads })

  start-timers :
      (c : ℤ) (a : Application)
      → ((start c a).timers ≡ a.timers) × ((start c a).is_armed ≡ a.is_armed)
  unfolding start restart
  start-timers c a = grind (arith, launch-timers)

  run-timers : (a : Application) → ((run a).timers ≡ a.timers) × ((run a).is_armed ≡ a.is_armed)
  unfolding run restart
  run-timers a = ground arith

  end_thread-timers :
      (a : Application)
      → ((end_thread a).timers ≡ a.timers) × ((end_thread a).is_armed ≡ a.is_armed)
  unfolding end_thread
  end_thread-timers a = ground arith

  check_application-timers :
      (a : Application)
      → ((check_application a).timers ≡ a.timers) × ((check_application a).is_armed ≡ a.is_armed)
  unfolding check_application
  check_application-timers a = grind (arith, start-timers)

  -- What keeps the timers keeps what holds of them.
  same-Inv :
      (a b : Application)
      → (b.timers ≡ a.timers) × (b.is_armed ≡ a.is_armed)
      → (Inv a → Inv b) × (Known a → Known b)
  same-Inv a b (e, f) = ((λ h. rw (e, f) h), λ h. rw e h)

  -- Only what is not cancelled is armed.
  cancel_all-armed :
      (is : List ℕ) (a : Application)
      → (cancel_all is a).is_armed k ≡ (not (is_registered k is) && a.is_armed k)
  unfolding cancel_all is_registered cancel
  cancel_all-armed [] a = refl
  cancel_all-armed (i ∷ is) a = ground (arith, cancel_all-armed is (cancel i a))

  stop-Inv :
      (reset : Bool) (a : Application)
      → (reset && not resets) ≡ false
      → (Inv a → Inv (stop reset a)) × (Known a → Known (stop reset a))
  unfolding stop reset_timers no_duplicates
  stop-Inv reset a e = ground arith

  register_timer-Inv : (i : ℕ) (a : Application) → Inv a → Inv (rearm i (register_timer i a))
  unfolding rearm register_timer
  register_timer-Inv i a h =
      grind (arith, is_registered-append k i a.timers, no_duplicates-append i a.timers)

  register_timer-Known : (i : ℕ) (a : Application) → Known a → Known (rearm i (register_timer i a))
  unfolding rearm register_timer
  register_timer-Known i a h = ground (arith, is_registered-append k i a.timers)

  cancel-Inv :
      (i : ℕ) (a : Application) → (Inv a → Inv (cancel i a)) × (Known a → Known (cancel i a))
  unfolding cancel
  cancel-Inv i a = ((λ h. (h.0, λ e. h.1 (ground arith))), λ h. h)

  on_expiry-Known :
      (cb : Application → Application × Bool) (i : ℕ) (a : Application)
      → Known (cb a).0
      → Known (on_expiry false cb i a)
  unfolding on_expiry rearm
  on_expiry-Known cb i a h = ground arith

  on_expiry-Inv :
      (cb : Application → Application × Bool) (i : ℕ) (a : Application)
      → (i ≡ k → Known (cb a).0)
      → Inv (cb a).0
      → Inv (on_expiry false cb i a)
  unfolding on_expiry rearm
  on_expiry-Inv cb i a own h = ground arith

  started-Known : (i : ℕ) (a : Application) → Known a → Known (start_timer i a)
  unfolding start_timer
  started-Known i a h =
      register_timer-Known i (check_application a)
        ((same-Inv a (check_application a) (check_application-timers a)).1 h)

  started-Inv : (i : ℕ) (a : Application) → Inv a → Inv (start_timer i a)
  unfolding start_timer
  started-Inv i a h =
      register_timer-Inv i (check_application a)
        ((same-Inv a (check_application a) (check_application-timers a)).0 h)

  -- A registered timer stays registered without resets.
  Runs-Known : {s t : Application} → Runs resets s t → Known s → Known t
  Runs-Known here h = h
  Runs-Known (starts {t} c r) h = (same-Inv t (start c t) (start-timers c t)).1 (Runs-Known r h)
  Runs-Known (stops {t} reset e r) h = (stop-Inv reset t e).1 (Runs-Known r h)
  Runs-Known (runs {t} r) h = (same-Inv t (run t) (run-timers t)).1 (Runs-Known r h)
  Runs-Known (ends {t} r) h = (same-Inv t (end_thread t) (end_thread-timers t)).1 (Runs-Known r h)
  Runs-Known (starts_timer {t} i r) h = started-Known i t (Runs-Known r h)
  Runs-Known (expires {t} cb i e r q) h =
      on_expiry-Known cb i (cancel i t) (Runs-Known q ((cancel-Inv i t).1 (Runs-Known r h)))

  -- A timer that expires is known.
  expired-Known :
      (i : ℕ) (a : Application) → (resets || a.is_armed i) ≡ true → Inv a → i ≡ k → Known a
  expired-Known i a e h p = ground arith

  Runs-Inv : {s t : Application} → Runs resets s t → Inv s → Inv t
  Runs-Inv here h = h
  Runs-Inv (starts {t} c r) h = (same-Inv t (start c t) (start-timers c t)).0 (Runs-Inv r h)
  Runs-Inv (stops {t} reset e r) h = (stop-Inv reset t e).0 (Runs-Inv r h)
  Runs-Inv (runs {t} r) h = (same-Inv t (run t) (run-timers t)).0 (Runs-Inv r h)
  Runs-Inv (ends {t} r) h = (same-Inv t (end_thread t) (end_thread-timers t)).0 (Runs-Inv r h)
  Runs-Inv (starts_timer {t} i r) h = started-Inv i t (Runs-Inv r h)
  Runs-Inv (expires {t} cb i e r q) h =
      let before = Runs-Inv r h in
      on_expiry-Inv cb i (cancel i t)
        (λ p. Runs-Known q ((cancel-Inv i t).1 (expired-Known i t e before p)))
        (Runs-Inv q ((cancel-Inv i t).0 before))

new_application-Inv :
    (resets : Bool) (k : ℕ) (o c : Bool)
    → (no_duplicates (new_application o c).timers ≡ true)
      × ((new_application o c).is_armed k ≡ true
          → (resets || is_registered k (new_application o c).timers) ≡ true)
unfolding new_application no_duplicates
new_application-Inv resets k o c = (refl, λ e. cc)

-- However an application runs, outside the callbacks of its timers no timer is registered twice; and as
-- long as it was not stopped with `reset`, by a callback or otherwise, every timer that is armed is
-- registered.
pub timers_registered :
    (resets : Bool) (k : ℕ) (is_ioc_owner has_certificates : Bool) {a : Application}
    → Runs resets (new_application is_ioc_owner has_certificates) a
    → (no_duplicates a.timers ≡ true)
      × ((not resets && (a.is_armed k && not (is_registered k a.timers))) ≡ false)
timers_registered resets k o c {a} r =
    ground (arith, Runs-Inv resets k r (new_application-Inv resets k o c))

-- The first `stop` with `reset` of an application that is not stopped and has its io_context, called
-- while no callback of a timer is under way, leaves no timer armed and none registered, whatever
-- callbacks, starts and other stops came before it, and `stop` without it leaves the timers as they are.
pub stop_cancels_timers :
    (k : ℕ) (is_ioc_owner has_certificates : Bool) {a : Application}
    → Runs false (new_application is_ioc_owner has_certificates) a
    → (is_stopped a || not a.is_ioc_owner) ≡ false
    → ((stop true a).is_armed k ≡ false)
      × ((stop true a).timers ≡ [])
      × ((stop false a).is_armed k ≡ a.is_armed k)
      × ((stop false a).timers ≡ a.timers)
unfolding stop reset_timers
stop_cancels_timers k o c {a} r e = ground (
  arith,
  Runs-Inv false k r (new_application-Inv false k o c),
  cancel_all-armed false k a.timers (record a { state = stopped }),
)
