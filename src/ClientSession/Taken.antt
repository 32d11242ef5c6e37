-- ===== src/ClientSession/Taken.antt =====
-- src/session_client.hpp: what each call of the session does to the requests that were taken from its
-- queue.
use beauty_cl.Prelude.{
  ℕ, ◌≤◌, ◌≡◌, refl, Bool, true, false, Option, none, some, List, [], ◌∷◌, ◌++◌, arith, inl, inr,
  Bool-cases, ◌==◌, ◌||◌,
}
use beauty_cl.ClientSession.{
  Answer, is_held, held, ClientSession, RequestContext, fail, fail_first, call_back, cancel_timer,
  do_write, release, take_first, take_response, push_request,
}
use beauty_cl.ClientSession.Steps.{worker}

unfoldable pub is_member : ℕ → List ℕ → Bool
is_member k [] = false
is_member k (i ∷ is) = k == i || is_member k is

pub is_member-append :
    (k : ℕ) (is : List ℕ) (i : ℕ) → is_member k (is ++ i ∷ []) ≡ (is_member k is || k == i)
unfolding is_member
is_member-append k [] i = ground arith
is_member-append k (j ∷ is) i = ground (arith, is_member-append k is i)

is_member-cons : (k i : ℕ) (is : List ℕ) → is_member k (i ∷ is) ≡ (k == i || is_member k is)
unfolding is_member
is_member-cons k i is = refl

module _ {E R : Type 0} (k : ℕ) where
  -- The callback of a request that was taken from the queue is not held any more, and a request that does
  -- not exist was never in the queue.
  abbrev pub Told : ClientSession E R → Type 0
  Told s =
      (is_member k s.answered ≡ true → is_held (s.contexts k).cb ≡ false)
      × (s.created ≤ k → (is_member k s.answered || is_member k s.requests) ≡ false)

  pub call_back-Told :
      (i : ℕ) (answer : Answer E R) (s : ClientSession E R)
      → (s.contexts i).cb ≡ held
      → Told s
      → Told (call_back i answer s)
  unfolding call_back
  call_back-Told i answer s e h = ground arith

  pub worker-Told : (o : ClientSession E R × Option E) → Told o.0 → Told (worker o)
  unfolding worker
  worker-Told (s, none) h = h
  worker-Told (s, some e) h = h

  pub fail-Told : (i : ℕ) (e : E) (s : ClientSession E R) → Told s → Told (fail i e s).0
  unfolding fail
  fail-Told i e s h = grind (arith, call_back-Told)

  pub fail_first-Told : (e : E) (s : ClientSession E R) → Told s → Told (fail_first e s).0
  unfolding fail_first
  fail_first-Told e s h = grind (arith, fail-Told)

  pub do_write-Told : (s : ClientSession E R) → Told s → Told (do_write s)
  unfolding do_write
  do_write-Told s h = ground arith

  pub cancel_timer-Told : (i : ℕ) (s : ClientSession E R) → Told s → Told (cancel_timer i s)
  unfolding cancel_timer
  cancel_timer-Told i s h = ground arith

  release-Told : (i : ℕ) (r : R) (s : ClientSession E R) → Told s → Told (release i r s)
  unfolding release
  release-Told i r s h = grind (arith, call_back-Told)

  abbrev popped : ℕ → List ℕ → ClientSession E R → ClientSession E R
  popped i waiting s =
      cancel_timer i
        (record s { requests = waiting; pending_request = false; answered = s.answered ++ i ∷ [] })

  released_same :
      (i : ℕ) (waiting : List ℕ) (r : R) (s : ClientSession E R)
      → k ≡ i
      → ((s.contexts k).too_late ≡ true → is_held (s.contexts k).cb ≡ false)
      → is_held ((release i r (popped i waiting s)).contexts k).cb ≡ false
  unfolding release call_back cancel_timer
  released_same i waiting r s same late = ground arith

  released_other :
      (i : ℕ) (waiting : List ℕ) (r : R) (s : ClientSession E R)
      → (k == i) ≡ false
      → ((release i r (popped i waiting s)).contexts k).cb ≡ (s.contexts k).cb
  unfolding release call_back cancel_timer
  released_other i waiting r s n = ground arith

  released_queue :
      (i : ℕ) (waiting : List ℕ) (r : R) (s : ClientSession E R)
      → ((release i r (popped i waiting s)).answered ≡ s.answered ++ i ∷ [])
        × ((release i r (popped i waiting s)).requests ≡ waiting)
        × ((release i r (popped i waiting s)).created ≡ s.created)
  unfolding release call_back cancel_timer
  released_queue i waiting r s = ground arith

  released_Told :
      (i : ℕ) (waiting : List ℕ) (r : R) (s : ClientSession E R)
      → s.requests ≡ i ∷ waiting
      → ((s.contexts k).too_late ≡ true → is_held (s.contexts k).cb ≡ false)
      → Told s
      → Told (release i r (popped i waiting s))
  released_Told i waiting r s e late h = (answered, fresh)
    where
      answered :
          is_member k (release i r (popped i waiting s)).answered ≡ true
          → is_held ((release i r (popped i waiting s)).contexts k).cb ≡ false
      answered m = elim (Bool-cases (k == i)) [
        | inl same ↦ released_same i waiting r s (ground arith) late
        | inr other ↦ grind (
          arith,
          released_other i waiting r s other,
          released_queue i waiting r s,
          is_member-append k s.answered i,
          h,
        )
      ]

      fresh :
          (release i r (popped i waiting s)).created ≤ k
          → (is_member k (release i r (popped i waiting s)).answered
              || is_member k (release i r (popped i waiting s)).requests)
            ≡ false
      fresh le = grind (
        arith,
        released_queue i waiting r s,
        is_member-append k s.answered i,
        is_member-cons k i waiting,
        h,
      )

  pub take_response-Told :
      (r : R) (s : ClientSession E R)
      → ((s.contexts k).too_late ≡ true → is_held (s.contexts k).cb ≡ false)
      → Told s
      → Told (take_response r s)
  unfolding take_response take_first
  take_response-Told r s late h = grind (arith, do_write-Told, released_Told)

  pub push-Told : (c : RequestContext) (s : ClientSession E R) → Told s → Told (push_request c s)
  unfolding push_request
  push-Told c s h = grind (arith, is_member-append k s.requests s.created)
