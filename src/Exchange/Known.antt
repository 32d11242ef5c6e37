-- ===== src/Exchange/Known.antt =====
-- src/session_client.hpp: what a step leaves of every request.
use beauty_cl.Prelude.{ℕ, ◌≤◌, ◌<◌, ◌≡◌, refl, sym, ap, ◌∙◌, Bool, List, [], arith, ◌⊎◌, inl, inr}
use native.Mathlib.Decide.{dec_lt}
use beauty_cl.ClientSession.{ClientRequest, ClientSession}
use beauty_cl.ClientSession.Steps.{new_session, ended, fired}
use beauty_cl.Exchange.Client.{Known, responses_to}

pub ended-Known :
    {E R : Type 0} (k n : ℕ) (req : ClientRequest) (reply : List R) (s : ClientSession E R)
    → Known k n req reply s
    → Known k n req reply (ended s)
unfolding Known
ended-Known k n req reply s h = h

pub opened-Known :
    {E R : Type 0} (k n : ℕ) (req : ClientRequest) (reply : List R) (is_open : Bool)
    (s : ClientSession E R)
    → Known k n req reply s
    → Known k n req reply (record (ended s) { is_open = is_open })
unfolding Known
opened-Known k n req reply is_open s h = h

pub fired-Known :
    {E R : Type 0} (k n : ℕ) (req : ClientRequest) (reply : List R) (i : ℕ) (s : ClientSession E R)
    → Known k n req reply s
    → Known k n req reply (fired i s)
unfolding Known
fired-Known k n req reply i s h = ground arith

either_step : {A : Type 0} {x y z w : A} → (x ≡ y) ⊎ (x ≡ z) → z ≡ w → (x ≡ y) ⊎ (x ≡ w)
either_step (inl h) e = inl h
either_step (inr h) e = inr (h ∙ e)

either_same : {A : Type 0} {x y z : A} → (x ≡ y) ⊎ (x ≡ z) → z ≡ y → x ≡ y
either_same (inl h) e = h
either_same (inr h) e = h ∙ e

-- What a state knows of its own requests.
abbrev pub KnownNow : {E R : Type 0} → (ClientRequest → List R) → ℕ → ClientSession E R → Type 0
KnownNow reply_to k s = Known k s.created (s.contexts k).request (reply_to (s.contexts k).request) s

-- It is what is known of a request that was there before, or one that is new and had no response.
pub Known-now :
    {E R : Type 0} (reply_to : ClientRequest → List R) (k n : ℕ) (req : ClientRequest)
    (reply : List R) (s : ClientSession E R)
    → (k < n → reply ≡ reply_to req)
    → (n ≤ k → reply ≡ [])
    → Known k n req reply s
    → KnownNow reply_to k s
unfolding Known
Known-now reply_to k n req reply s old new (le, asked, had, waits, unheld, fresh) = (
  omega arith,
  (λ l. refl),
  elim (dec_lt k n) [
    | yes lt ↦ either_step had (old lt ∙ ap reply_to (sym (asked lt)))
    | no ge ↦ inl (either_same had (new (omega arith)))
  ],
  waits,
  unheld,
  fresh,
)

pub Known-asked :
    {E R : Type 0} (k n : ℕ) (req : ClientRequest) (reply : List R) (s : ClientSession E R)
    → Known k n req reply s
    → k < n
    → (s.contexts k).request ≡ req
unfolding Known
Known-asked k n req reply s h = h.1

pub Known-had :
    {E R : Type 0} (k n : ℕ) (req : ClientRequest) (reply : List R) (s : ClientSession E R)
    → Known k n req reply s
    → (responses_to k s.calls ≡ []) ⊎ (responses_to k s.calls ≡ reply)
unfolding Known
Known-had k n req reply s h = h.2

Known-fresh :
    {E R : Type 0} (k n : ℕ) (req : ClientRequest) (reply : List R) (s : ClientSession E R)
    → s.created ≤ k
    → Known k n req reply s
    → Known k n req [] s
unfolding Known
Known-fresh k n req reply s le h = ground arith

-- A step that keeps what is known of the requests that were there before knows its own.
pub KnownNow-keeps :
    {E R : Type 0} (reply_to : ClientRequest → List R) (k : ℕ) (s t : ClientSession E R)
    → ((reply : List R)
        → (k < s.created → reply ≡ reply_to (s.contexts k).request)
        → Known k s.created (s.contexts k).request reply s
        → Known k s.created (s.contexts k).request reply t)
    → KnownNow reply_to k s
    → KnownNow reply_to k t
KnownNow-keeps reply_to k s t step h = elim (dec_lt k s.created) [
  | yes lt ↦
      Known-now reply_to k s.created _ _ t (λ l. refl) (λ le. absurd (omega arith))
        (step _ (λ l. refl) h)
  | no ge ↦
      Known-now reply_to k s.created _ [] t (λ l. absurd (omega arith)) (λ le. refl)
        (step [] (λ l. absurd (omega arith)) (Known-fresh k s.created _ _ s (omega arith) h))
]

pub KnownNow-start :
    (E : Type 0) {R : Type 0} (reply_to : ClientRequest → List R) (k : ℕ)
    → KnownNow {E = E} reply_to k new_session
unfolding Known responses_to
KnownNow-start E reply_to k = ground arith
