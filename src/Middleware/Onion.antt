-- ===== src/Middleware/Onion.antt =====
-- include/beauty/session.hpp: the chain of middleware that call `next` at most once.
use beauty_cl.Prelude.{
  ℕ, zero, suc, ◌<◌, ◌≡◌, refl, sym, ap, ◌∙◌, false, Option, none, some, List, [], ◌∷◌, ◌++◌,
  append_assoc, arith, length, get_elem?, length-append, ◌==◌,
}
use beauty_cl.Middleware.{
  Outcome, Coroutine, ends, awaits_next, Middleware, Chain, new_chain, middleware_at, run, next,
  run_chain,
}
use beauty_cl.Middleware.Order.{middleware_at-append, next_executes, next_enters, advanced, handled}

-- One call of a middleware: it answers itself, or forwards to `next` and changes how that ended.
pub data Stage (S E : Type 0) : Type 0 where
  answers : Outcome S E → Stage S E
  forwards : S → (Outcome S E → Outcome S E) → Stage S E

abbrev pub from_stage : {S E : Type 0} → Stage S E → Coroutine S E
from_stage (answers out) = ends out
from_stage (forwards s after) = awaits_next s (λ out. ends (after out))

abbrev pub from_stages : {S E : Type 0} → List (S → Stage S E) → List (Middleware S E)
from_stages [] = []
from_stages (m ∷ ms) = (λ s. from_stage (m s)) ∷ from_stages ms

abbrev pub stage : {S E : Type 0} → Stage S E → (S → Outcome S E) → Outcome S E
stage (answers out) inner = out
stage (forwards s after) inner = after (inner s)

-- The handler inside its middleware.
unfoldable pub onion : {S E : Type 0} → List (S → Stage S E) → (S → Outcome S E) → S → Outcome S E
onion [] execute s = execute s
onion (m ∷ ms) execute s = let inner = onion ms execute in stage (m s) inner

from_stages-append :
    {S E : Type 0} (ms ns : List (S → Stage S E))
    → from_stages (ms ++ ns) ≡ from_stages ms ++ from_stages ns
from_stages-append [] ns = refl
from_stages-append (m ∷ ms) ns = rw (from_stages-append ms ns)

length-from_stages :
    {S E : Type 0} (ms : List (S → Stage S E)) → length (from_stages ms) ≡ length ms
length-from_stages [] = refl
length-from_stages (m ∷ ms) = ap suc (length-from_stages ms)

-- What stands behind a first part.
get_elem_behind :
    {S E : Type 0} (before : List (S → Stage S E)) (m : S → Stage S E)
    (after : List (S → Stage S E))
    → get_elem? (from_stages (before ++ m ∷ after)) (length before) ≡ some (λ s. from_stage (m s))
get_elem_behind [] m after = refl
get_elem_behind (b ∷ before) m after = get_elem_behind before m after

get_elem_end :
    {S E : Type 0} (before : List (S → Stage S E))
    → get_elem? (from_stages (before ++ [])) (length before) ≡ none
get_elem_end [] = refl
get_elem_end (b ∷ before) = get_elem_end before

module _ {S E : Type 0} (global local : List (S → Stage S E)) (execute : S → Outcome S E) where
  at_stage :
      (before after : List (S → Stage S E)) (i : ℕ)
      → global ++ local ≡ before ++ after
      → i ≡ length before
      → middleware_at (from_stages global) (from_stages local) i
        ≡ get_elem? (from_stages (before ++ after)) (length before)
  at_stage before after i e l =
      middleware_at-append (from_stages global) (from_stages local) execute i
      ∙ rw (sym (from_stages-append global local), e, l) refl

  abbrev Ends : Option (Chain × Outcome S E) → Outcome S E → Type 0
  Ends result out = (chain : Chain) × (result ≡ some (chain, out))

  run-stage :
      (deeper : Chain → S → Option (Chain × Outcome S E)) (inner : S → Outcome S E) (st : Stage S E)
      (chain : Chain)
      → ((s : S) → Ends (deeper chain s) (inner s))
      → Ends (run deeper (from_stage st) chain) (stage st inner)
  unfolding run
  run-stage deeper inner (answers out) chain h = (chain, refl)
  run-stage deeper inner (forwards s after) chain h = let (c, e) = h s in (c, rw (e, run) refl)

  onion_cons :
      (m : S → Stage S E) (after : List (S → Stage S E)) (s : S)
      → stage (m s) (onion after execute) ≡ onion (m ∷ after) execute s
  unfolding onion
  onion_cons m after s = refl

  next-onion :
      (after before : List (S → Stage S E)) (fuel : ℕ) (chain : Chain) (s : S)
      → global ++ local ≡ before ++ after
      → chain.i ≡ length before
      → (chain.i == chain.last_i) ≡ false
      → length after < fuel
      → Ends
          (next (from_stages global) (from_stages local) execute fuel chain s)
          (onion after execute s)
  next-onion after before zero chain s e l d enough = absurd (omega arith)
  next-onion [] before (suc fuel) chain s e l d enough = (
    handled (from_stages global) (from_stages local) execute chain,
    next_executes (from_stages global) (from_stages local) execute fuel chain s d
          (at_stage before [] chain.i e l ∙ get_elem_end before)
        ∙ (unfold onion in refl),
  )
  next-onion (m ∷ after) before (suc fuel) chain s e l d enough =
      let enters =
        next_enters (from_stages global) (from_stages local) execute fuel chain s
          (λ s. from_stage (m s)) d
          (at_stage before (m ∷ after) chain.i e l ∙ get_elem_behind before m after) in
      let (c, r) =
        run-stage (next (from_stages global) (from_stages local) execute fuel) (onion after execute)
          (m s) (advanced (from_stages global) (from_stages local) execute chain)
          (λ t.
            next-onion after (before ++ m ∷ []) fuel
              (advanced (from_stages global) (from_stages local) execute chain) t
              (e ∙ sym (append_assoc before (m ∷ []) after))
              (omega (arith, l, length-append before (m ∷ []))) (ground arith) (omega arith)) in
      (c, enters ∙ r ∙ ap (λ (out : Outcome S E). Option.some (c, out)) (onion_cons m after s))

  -- Where every middleware calls `next` at most once, the chain ends as the handler does inside the
  -- global middleware and then those of the route: each sees what the outer ones made of the request,
  -- its own answer keeps the inner ones and the handler from running, and the outer ones see how the
  -- inner ones ended, exceptions included.
  pub run_chain-onion :
      (s : S)
      → (chain : Chain) × (run_chain (from_stages global) (from_stages local) execute s
          ≡ some (chain, onion (global ++ local) execute s))
  unfolding run_chain
  run_chain-onion s = next-onion (global ++ local) [] _ new_chain s refl refl refl (
      omega
        (arith, length-append global local, length-from_stages global, length-from_stages local))
