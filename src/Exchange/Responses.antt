-- ===== src/Exchange/Responses.antt =====
-- src/session_client.hpp: the responses that a round gives to the callbacks.
use beauty_cl.Prelude.{
  ℕ, ◌≡◌, ◌≢◌, ◌⊎◌, refl, Bool, true, false, Option, List, [], ◌∷◌, ◌++◌, arith, Bytes, ◌==◌,
}
use beauty_cl.ClientSession.{
  ClientSession, Answer, failed, responded, RequestContext, held, call_back, cancel_timer, do_write,
  on_write, on_read, take_first, take_response, release,
}
use beauty_cl.ClientSession.Steps.{worker}
use beauty_cl.ClientSession.Taken.{is_member}
use beauty_cl.ClientSession.Rounds.{round}
use beauty_cl.Exchange.Client.{responses_to}

pub responses_to-grows :
    {E R : Type 0} (k i : ℕ) (r : R) (calls : List (ℕ × Answer E R))
    → responses_to k (calls ++ (i, responded r) ∷ []) ≡ []
    → responses_to k calls ≡ []
unfolding responses_to
responses_to-grows k i r [] e = refl
responses_to-grows k i r ((j, failed f) ∷ calls) e = responses_to-grows k i r calls e
responses_to-grows k i r ((j, responded q) ∷ calls) e =
    ground (arith, responses_to-grows k i r calls)

pub responses_to-last :
    {E R : Type 0} (k : ℕ) (r : R) (calls : List (ℕ × Answer E R))
    → responses_to k (calls ++ (k, responded r) ∷ []) ≢ []
unfolding responses_to
responses_to-last k r [] e = ground arith
responses_to-last k r ((j, failed f) ∷ calls) e = responses_to-last k r calls e
responses_to-last k r ((j, responded q) ∷ calls) e = ground (arith, responses_to-last k r calls)

-- A callback that is to be called with the response to its request.
abbrev pub Awaits : RequestContext → Type 0
Awaits c = (c.cb ≡ held) × (c.too_late ≡ false)

module _ {E R : Type 0} (ssl : Bool) (timed_out : E) (user_agent : Bytes)
    (set_host_name : Bytes → Option E) (r : R) (s : ClientSession E R) (i : ℕ) (waiting : List ℕ)
    (first : s.requests ≡ i ∷ waiting) where
  abbrev answered_session : ClientSession E R
  answered_session = round ssl timed_out user_agent set_host_name r s

  pub round_calls :
      (answered_session.calls ≡ s.calls)
      ⊎ (answered_session.calls ≡ s.calls ++ (i, responded r) ∷ [])
  unfolding on_write on_read worker take_response take_first do_write release call_back cancel_timer
  round_calls = ground arith

  pub round_answers :
      Awaits (s.contexts i) → answered_session.calls ≡ s.calls ++ (i, responded r) ∷ []
  unfolding on_write on_read worker take_response take_first do_write release call_back cancel_timer
  round_answers h = ground arith

  pub round_request : (k : ℕ) → (answered_session.contexts k).request ≡ (s.contexts k).request
  unfolding on_write on_read worker take_response take_first do_write release call_back cancel_timer
  round_request k = ground arith

  pub round-Awaits :
      (k : ℕ) → (k == i) ≡ false → Awaits (s.contexts k) → Awaits (answered_session.contexts k)
  unfolding on_write on_read worker take_response take_first do_write release call_back cancel_timer
  round-Awaits k other h = ground arith

pub is_member-later :
    (k i : ℕ) (waiting : List ℕ)
    → (k == i) ≡ false
    → is_member k (i ∷ waiting) ≡ true
    → is_member k waiting ≡ true
unfolding is_member
is_member-later k i waiting other h = ground arith
