-- ===== src/ClientSession/Waiting.antt =====
-- src/session_client.hpp: the requests that wait in the queue are requests that were made.
use beauty_cl.Prelude.{
  ℕ, zero, suc, ◌<◌, ◌≡◌, Bool, true, Option, List, [], ◌∷◌, ◌++◌, arith, Bytes,
}
use beauty_cl.ClientSession.{ClientSession}
use beauty_cl.ClientSession.Steps.{new_session, Reachable}
use beauty_cl.ClientSession.Order.{first_ids, queue_in_order}
use beauty_cl.ClientSession.Taken.{is_member, is_member-append}

-- A request in the queue exists.
first_ids-below : (k n : ℕ) → is_member k (first_ids n) ≡ true → k < n
unfolding first_ids is_member
first_ids-below k zero h = absurd cc
first_ids-below k (suc n) h =
    ground (arith, is_member-append k (first_ids n) n, first_ids-below k n)

is_member-middle : (k : ℕ) (is waiting : List ℕ) → is_member k (is ++ k ∷ waiting) ≡ true
unfolding is_member
is_member-middle k [] waiting = ground arith
is_member-middle k (j ∷ is) waiting = ground (arith, is_member-middle k is waiting)

module _ {E R : Type 0} (ssl : Bool) (timed_out : E) (user_agent : Bytes)
    (set_host_name : Bytes → Option E) where
  -- The first of the queue, which an operation is for.
  pub waiting_below :
      {s : ClientSession E R}
      → Reachable ssl timed_out user_agent set_host_name new_session s
      → (i : ℕ) (waiting : List ℕ) → s.requests ≡ i ∷ waiting
      → i < s.created
  waiting_below {s} r i waiting e = first_ids-below i s.created (
      grind (
        arith,
        (queue_in_order ssl timed_out user_agent set_host_name r).0,
        is_member-middle i s.answered waiting,
      ))
