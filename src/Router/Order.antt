-- ===== src/Router/Order.antt =====
-- src/router.cpp: the comparison of two routes.
use beauty_cl.Prelude.{
  ℕ, zero, suc, ◌+◌, ◌*◌, ◌^◌, ◌≤◌, ◌<◌, ◌≡◌, ◌↔◌, ◌⊎◌, inl, inr, refl, ap, true, false, List, [],
  ◌∷◌, arith, Bytes, length, ltb, ◌==◌, if◌then◌else◌, ==_iff, Bool-cases,
}
use beauty_cl.Swagger.{is_parameter}
use beauty_cl.Router.{cost_loop, less}

-- At the first place where they differ in kind, the first path has a literal segment.
abbrev pub Before : List Bytes → List Bytes → Type 0
Before (s ∷ ss) (t ∷ ts) =
    ((is_parameter s ≡ false) × (is_parameter t ≡ true))
    ⊎ ((is_parameter s ≡ is_parameter t) × Before ss ts)
Before _ _ = ⊥

-- The cost without machine integers: the parameters are the digits 1 of a binary number.
unfoldable pub cost : List Bytes → ℕ
cost [] = 0
cost (s ∷ ss) = (if is_parameter s then 2 ^ length ss else 0) + cost ss

pow_suc : (n : ℕ) → 2 ^ suc n ≡ 2 * 2 ^ n
pow_suc n = ground arith

pow_le : (m n : ℕ) → m ≤ n → 2 ^ m ≤ 2 ^ n
pow_le zero zero h = omega arith
pow_le zero (suc n) h = omega (arith, pow_suc n, pow_le zero n (omega arith))
pow_le (suc m) zero h = absurd (omega arith)
pow_le (suc m) (suc n) h = omega (arith, pow_suc n, pow_suc m, pow_le m n (omega arith))

cost_lt : (ss : List Bytes) → cost ss < 2 ^ length ss
unfolding cost
cost_lt [] = omega arith
cost_lt (s ∷ ss) = ground (arith, pow_suc (length ss), cost_lt ss)

pair_eq : {a b c d : ℕ} → a ≡ b → c ≡ d → Path (ℕ × ℕ) (a, c) (b, d)
pair_eq {a} {b} {c} {d} e f = rw (e, f)

-- Up to 30 segments, nothing overflows.
cost_loop-cost : (ss : List Bytes) → length ss ≤ 30 → cost_loop ss ≡ (cost ss, 2 ^ length ss)
unfolding cost_loop cost
cost_loop-cost [] h = refl
cost_loop-cost (s ∷ ss) h =
    let bound : 2 ^ length ss ≤ 2 ^ 29 = pow_le (length ss) 29 (omega arith) in
    let small = cost_lt ss in
    let double = pow_suc (length ss) in
    rw (cost_loop-cost ss (omega arith)) (elim (Bool-cases (is_parameter s)) [
      | inl e ↦ rw e (pair_eq (omega (arith, bound, small)) (omega (arith, bound, double)))
      | inr e ↦ rw e (pair_eq (omega arith) (omega (arith, bound, double)))
    ])

cost-Before : (ss ts : List Bytes) → length ss ≡ length ts → (cost ss < cost ts) ↔ Before ss ts
unfolding cost
cost-Before [] [] l = (λ h. absurd (omega arith), λ b. elim b [ ])
cost-Before [] (t ∷ ts) l = absurd (omega arith)
cost-Before (s ∷ ss) [] l = absurd (omega arith)
cost-Before (s ∷ ss) (t ∷ ts) l =
    let same : 2 ^ length ss ≡ 2 ^ length ts = ap (λ n. 2 ^ n) (omega arith) in
    let hs = cost_lt ss in
    let ht = cost_lt ts in let rest = cost-Before ss ts (omega arith) in ground arith

less-cost :
    (ss ts : List Bytes)
    → length ss ≡ length ts
    → length ss ≤ 30
    → less ss ts ≡ ltb (cost ss) (cost ts)
unfolding less
less-cost ss ts l h =
    let bound : 2 ^ length ss ≤ 2 ^ 30 = pow_le (length ss) 30 h in
    let same : 2 ^ length ss ≡ 2 ^ length ts = ap (λ n. 2 ^ n) l in
    let hs = cost_lt ss in
    let ht = cost_lt ts in rw (cost_loop-cost ss h, cost_loop-cost ts (omega arith)) (ground arith)

-- Of two paths of at most 30 segments each, the first comes before the second exactly when it has
-- fewer segments, or as many and the literal segment at the first place where they differ in kind.
pub less_iff :
    (ss ts : List Bytes)
    → length ss ≤ 30
    → length ts ≤ 30
    → (less ss ts ≡ true) ↔ ((length ss < length ts) ⊎ ((length ss ≡ length ts) × Before ss ts))
less_iff ss ts hs ht = elim (Bool-cases (length ss == length ts)) [
  | inl e ↦
      let l : length ss ≡ length ts = (==_iff _ _).0 e in
      let eq = less-cost ss ts l hs in let by_cost = cost-Before ss ts l in ground arith
  | inr e ↦ unfold less in ground arith
]

-- The order of keys, of which `less` is one: by the count, then by the cost.
less-trans_not :
    (ss ts us : List Bytes) → less ss us ≡ true → (less ss ts ≡ true) ⊎ (less ts us ≡ true)
unfolding less
less-trans_not ss ts us h = ground arith

-- The comparison is a strict weak order, whatever the number of segments: no path is before itself,
-- no two paths are before each other, and of a path before another, a third is after the first or
-- before the second.
pub less-StrictWeak :
    (ss ts us : List Bytes)
    → (less ss ss ≡ false)
      × (less ss ts ≡ true → less ts ss ≡ false)
      × (less ss us ≡ true → (less ss ts ≡ true) ⊎ (less ts us ≡ true))
unfolding less
less-StrictWeak ss ts us = (ground arith, ground arith, less-trans_not ss ts us)
