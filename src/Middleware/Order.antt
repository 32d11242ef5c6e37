-- ===== src/Middleware/Order.antt =====
-- include/beauty/session.hpp: what the chain runs, and in which order.
use beauty_cl.Prelude.{
  ℕ, zero, suc, ◌+◌, ◌-◌, ◌≤◌, ◌<◌, ◌≡◌, ◌⊎◌, inl, inr, refl, sym, ◌∙◌, true, false, Option, none,
  some, List, [], ◌∷◌, ◌++◌, arith, length, get_elem?, length-append, ltb, ◌==◌, if◌then◌else◌,
  ltb→lt, Bool-cases, Option-cases,
}
use beauty_cl.Middleware.{
  Outcome, completed, Coroutine, ends, awaits_next, Middleware, Event, entered, executed, Chain,
  new_chain, middleware_at, run, next, run_chain,
}

-- The first `n` middleware, in order.
unfoldable pub entries : ℕ → List Event
entries zero = []
entries (suc n) = entries n ++ entered n ∷ []

-- Either the handler has not run, and the first `i` middleware have, or all have and then it.
abbrev pub InOrder : ℕ → Chain → Type 0
InOrder total chain =
    (chain.events ≡ entries chain.i)
    ⊎ ((chain.i ≡ total) × (chain.last_i ≡ total) × (chain.events ≡ entries total ++ executed ∷ []))

get_elem-append :
    {A : Type 0} (ms ns : List A) (i : ℕ)
    → get_elem? (ms ++ ns) i
      ≡ (if ltb i (length ms) then get_elem? ms i else get_elem? ns (i - length ms))
get_elem-append [] ns i = ground arith
get_elem-append (m ∷ ms) ns zero = ground arith
get_elem-append (m ∷ ms) ns (suc i) = ground (arith, get_elem-append ms ns i)

get_elem_past : {A : Type 0} (xs : List A) (i : ℕ) → length xs ≤ i → get_elem? xs i ≡ none
get_elem_past [] i h = refl
get_elem_past (x ∷ xs) zero h = absurd (omega arith)
get_elem_past (x ∷ xs) (suc i) h = get_elem_past xs i (omega arith)

module _ {S E : Type 0} (global local : List (Middleware S E)) (execute : S → Outcome S E) where
  abbrev total : ℕ
  total = length global + length local

  -- The guards of `next` index the global middleware followed by those of the route.
  pub middleware_at-append : (i : ℕ) → middleware_at global local i ≡ get_elem? (global ++ local) i
  unfolding middleware_at
  middleware_at-append i =
      ground (arith, get_elem-append global local i, get_elem_past local (i - length global))

  -- A call of `next` or of a coroutine from a good chain ends in a good chain that is no further back.
  abbrev Good : ℕ → Option (Chain × Outcome S E) → Type 0
  Good i result =
      (chain : Chain) × (out : Outcome S E) × (result ≡ some (chain, out))
      × (i ≤ chain.i)
      × (chain.i ≤ total)
      × InOrder total chain

  run_awaits :
      (deeper : Chain → S → Option (Chain × Outcome S E)) (s : S) (k : Outcome S E → Coroutine S E)
      (chain : Chain) {after : Chain} {out : Outcome S E}
      → deeper chain s ≡ some (after, out)
      → run deeper (awaits_next s k) chain ≡ run deeper (k out) after
  unfolding run
  run_awaits deeper s k chain e = rw (e, run) refl

  -- The three branches of `next`.
  next_again :
      (fuel : ℕ) (chain : Chain) (s : S)
      → (chain.i == chain.last_i) ≡ true
      → next global local execute (suc fuel) chain s ≡ some (chain, completed s)
  unfolding next
  next_again fuel chain s e = rw e refl

  abbrev pub handled : Chain → Chain
  handled chain = record chain { last_i = chain.i; events = chain.events ++ executed ∷ [] }

  abbrev pub advanced : Chain → Chain
  advanced chain = record {
    i = suc chain.i;
    last_i = chain.i;
    events = chain.events ++ entered chain.i ∷ [];
  }

  pub next_executes :
      (fuel : ℕ) (chain : Chain) (s : S)
      → (chain.i == chain.last_i) ≡ false
      → middleware_at global local chain.i ≡ none
      → next global local execute (suc fuel) chain s ≡ some (handled chain, execute s)
  unfolding next
  next_executes fuel chain s e n = rw (e, n) refl

  pub next_enters :
      (fuel : ℕ) (chain : Chain) (s : S) (m : Middleware S E)
      → (chain.i == chain.last_i) ≡ false
      → middleware_at global local chain.i ≡ some m
      → next global local execute (suc fuel) chain s
        ≡ run (next global local execute fuel) (m s) (advanced chain)
  unfolding next
  next_enters fuel chain s m e h = rw (e, h) refl

  run-Good :
      (deeper : Chain → S → Option (Chain × Outcome S E)) (j : ℕ)
      → ((chain : Chain) (s : S)
          → j ≤ chain.i
          → chain.i ≤ total
          → InOrder total chain
          → Good chain.i (deeper chain s))
      → (c : Coroutine S E) (chain : Chain) → j ≤ chain.i
      → chain.i ≤ total
      → InOrder total chain
      → Good chain.i (run deeper c chain)
  run-Good deeper j h (ends out) chain lo hi good =
      (chain, out, unfold run in refl, omega arith, hi, good)
  run-Good deeper j h (awaits_next s k) chain lo hi good =
      let (after, out, e, le, hi', good') = h chain s lo hi good in
      let (final, res, e', le', hi'', good'') =
        run-Good deeper j h (k out) after (omega arith) hi' good' in
      (final, res, run_awaits deeper s k chain e ∙ e', omega (arith, le, le'), hi'', good'')

  get_elem_none-length : {A : Type 0} (xs : List A) (i : ℕ) → get_elem? xs i ≡ none → length xs ≤ i
  get_elem_none-length [] i e = omega arith
  get_elem_none-length (x ∷ xs) zero e = cc
  get_elem_none-length (x ∷ xs) (suc i) e = omega (arith, get_elem_none-length xs i e)

  middleware_at-end : (i : ℕ) → middleware_at global local i ≡ none → total ≤ i
  middleware_at-end i e = omega (
    arith,
    get_elem_none-length (global ++ local) i (sym (middleware_at-append i) ∙ e),
    length-append global local,
  )

  middleware_at-inside :
      (i : ℕ) (m : Middleware S E) → middleware_at global local i ≡ some m → i < total
  middleware_at-inside i m e = elim (Bool-cases (ltb i total)) [
    | inl h ↦ ltb→lt i total h
    | inr h ↦
        let out =
          get_elem_past (global ++ local) i
            (omega (arith, length-append global local, before_iff h)) in
        cc (sym (middleware_at-append i) ∙ e)
  ]
    where
      before_iff : ltb i total ≡ false → total ≤ i
      before_iff h = ground arith

  InOrder-handled :
      (chain : Chain)
      → chain.i ≡ total
      → (chain.i == chain.last_i) ≡ false
      → InOrder total chain
      → InOrder total (handled chain)
  InOrder-handled chain t e (inl h) = inr (t, t, rw (h, t) refl)
  InOrder-handled chain t e (inr (a, b, h)) = absurd (ground arith)

  InOrder-advanced :
      (chain : Chain)
      → (chain.i == chain.last_i) ≡ false
      → InOrder total chain
      → InOrder total (advanced chain)
  unfolding entries
  InOrder-advanced chain e (inl h) = inl (rw h refl)
  InOrder-advanced chain e (inr (a, b, h)) = absurd (ground arith)

  next-Good :
      (fuel : ℕ) (chain : Chain) (s : S)
      → total < fuel + chain.i
      → chain.i ≤ total
      → InOrder total chain
      → Good chain.i (next global local execute fuel chain s)
  next-Good zero chain s enough hi good = absurd (omega arith)
  next-Good (suc fuel) chain s enough hi good = elim (Bool-cases (chain.i == chain.last_i)) [
    | inl e ↦ (chain, completed s, next_again fuel chain s e, omega arith, hi, good)
    | inr e ↦ elim (Option-cases (middleware_at global local chain.i)) [
      | inl n ↦
          let t : chain.i ≡ total = omega (arith, hi, middleware_at-end chain.i n) in
          (
            handled chain,
            execute s,
            next_executes fuel chain s e n,
            omega arith,
            hi,
            InOrder-handled chain t e good,
          )
      | inr (m, h) ↦
          let (final, out, r, lo, hi', good') =
            run-Good (next global local execute fuel) (suc chain.i)
              (λ c t a b g. next-Good fuel c t (omega (arith, a, enough)) b g) (m s)
              (advanced chain) (omega arith) (middleware_at-inside chain.i m h)
              (InOrder-advanced chain e good) in
          (final, out, next_enters fuel chain s m e h ∙ r, omega (arith, lo), hi', good')
    ]
  ]

  -- Whatever the middleware do, the chain ends with the fuel it is given, and
  -- it has run some first middleware, the global ones before those of the route, in order and each
  -- once, and after them the handler at most once, only if all of them have run.
  pub run_chain-InOrder :
      (s : S)
      → (chain : Chain) × (out : Outcome S E) × (run_chain global local execute s
          ≡ some (chain, out))
        × (chain.i ≤ total)
        × InOrder total chain
  unfolding run_chain
  run_chain-InOrder s =
      let (chain, out, e, lo, hi, good) =
        next-Good (suc total) new_chain s (omega arith) (omega arith)
          (inl (unfold entries in refl)) in
      (chain, out, e, hi, good)
