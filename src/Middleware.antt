-- ===== src/Middleware.antt =====
-- include/beauty/middleware.hpp and the middleware chain of include/beauty/session.hpp. `S` is what the
-- middleware share (the request and the response), `E` what they may throw.
pub mod Order
pub mod Onion
use beauty_cl.Prelude.{
  ℕ, zero, suc, ◌+◌, ◌-◌, Option, none, some, List, [], ◌∷◌, ◌++◌, length, get_elem?, ltb, ◌==◌,
  if◌then◌else◌,
}

-- How an awaited call ends.
pub data Outcome (S E : Type 0) : Type 0 where
  completed : S → Outcome S E
  threw : E → S → Outcome S E

-- A `middleware_fn` on its way: it ends, or it awaits `next()` and goes on with how that ended.
pub data Coroutine (S E : Type 0) : Type 0 where
  ends : Outcome S E → Coroutine S E
  awaits_next : S → (Outcome S E → Coroutine S E) → Coroutine S E

abbrev pub Middleware : Type 0 → Type 0 → Type 0
Middleware S E = S → Coroutine S E

-- What the chain ran: the middleware with a number, global ones first, or the route's handler.
pub data Event : Type 0 where
  entered : ℕ → Event
  executed : Event

-- `i` of `middleware_chain` and `last_i` of the closure, with what ran, oldest first.
pub record Chain : Type 0 where
  pub i : ℕ
  pub last_i : ℕ
  pub events : List Event

abbrev pub size_max : ℕ
size_max = 18446744073709551615

abbrev pub new_chain : Chain
new_chain = record { i = 0; last_i = size_max; events = [] }

module _ {S E : Type 0} where
  -- The middleware that the guards of `next` choose for `i`, or none for the handler.
  unfoldable pub middleware_at :
      List (Middleware S E) → List (Middleware S E) → ℕ → Option (Middleware S E)
  middleware_at global local i =
      if ltb i (length global)
      then get_elem? global i
      else (if ltb i (length global + length local)
          then get_elem? local (i - length global)
          else none)

  -- A coroutine, with `next` for its calls. Running out of fuel is `none`.
  unfoldable pub run :
      (Chain → S → Option (Chain × Outcome S E))
      → Coroutine S E
      → Chain
      → Option (Chain × Outcome S E)
  run next (ends out) chain = some (chain, out)
  run next (awaits_next s k) chain = elim (next chain s) [
    | none ↦ none
    | some (after, out) ↦ run next (k out) after
  ]

  -- The closure `chain->next`, with fuel for the nesting of its calls.
  unfoldable pub next :
      List (Middleware S E)
      → List (Middleware S E)
      → (S → Outcome S E)
      → ℕ
      → Chain
      → S
      → Option (Chain × Outcome S E)
  next global local execute zero chain s = none
  next global local execute (suc fuel) chain s =
      let deeper = next global local execute fuel in
      if chain.i == chain.last_i
      then some (chain, completed s)
      else elim (middleware_at global local chain.i) [
        | none ↦
            some
              (record chain { last_i = chain.i; events = chain.events ++ executed ∷ [] }, execute s)
        | some m ↦ run deeper (m s) (record {
          i = suc chain.i;
          last_i = chain.i;
          events = chain.events ++ entered chain.i ∷ [];
        })
      ]

  -- The chain of a request, with fuel for one call more than there are middleware.
  unfoldable pub run_chain :
      List (Middleware S E)
      → List (Middleware S E)
      → (S → Outcome S E)
      → S
      → Option (Chain × Outcome S E)
  run_chain global local execute s =
      next global local execute (suc (length global + length local)) new_chain s
