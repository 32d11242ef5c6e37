-- ===== src/Router/Sorted.antt =====
-- src/router.cpp: the vectors of routes, for a sort with the laws of `std::sort`.
use beauty_cl.Prelude.{
  ℕ, ◌≡◌, ◌⊎◌, inl, inr, Bool, true, false, Option, none, some, List, [], ◌∷◌, ◌++◌, arith, All,
  ◌==◌, if◌then◌else◌, Bool-cases,
}
use mathlib.Core.List.{Perm}
use beauty_cl.Route.{Route}
use beauty_cl.Router.{Router, find, find_verb, change_verb, route_less, add_route}
use beauty_cl.Router.Order.{less-StrictWeak}

abbrev pub StrictWeak {ℓ} : {A : Type ℓ} → (A → A → Bool) → Type ℓ
StrictWeak {A = A} before =
    (a b c : A)
    → (before a a ≡ false)
      × (before a b ≡ true → before b a ≡ false)
      × (before a c ≡ true → (before a b ≡ true) ⊎ (before b c ≡ true))

-- No element is before an earlier one.
abbrev pub IsSorted {ℓ} : {A : Type ℓ} → (A → A → Bool) → List A → Type ℓ
IsSorted before [] = Unit
IsSorted before (a ∷ xs) = All (λ b. before b a ≡ false) xs × IsSorted before xs

-- What is documented of `std::sort`: it permutes, and it sorts by a strict weak order.
pub record Sorts {A : Type 0} (sort : (A → A → Bool) → List A → List A) : Type 0 where
  pub permutes : (before : A → A → Bool) (xs : List A) → Perm (sort before xs) xs
  pub sorts :
      (before : A → A → Bool) (xs : List A) → StrictWeak before → IsSorted before (sort before xs)

route_less-StrictWeak : {J C M : Type 0} → StrictWeak (route_less {J = J} {C = C} {M = M})
unfolding route_less
route_less-StrictWeak r s t = less-StrictWeak r.segments s.segments t.segments

abbrev pub routes_or_empty {ℓ} : {A : Type ℓ} → Option (List A) → List A
routes_or_empty none = []
routes_or_empty (some rs) = rs

find_verb-change_verb :
    {A : Type 0} (v w : ℕ) (f : List A → List A) (routes : List (ℕ × List A))
    → find_verb w (change_verb v f routes)
      ≡ (if v == w then some (f (routes_or_empty (find_verb v routes))) else find_verb w routes)
unfolding find_verb change_verb
find_verb-change_verb v w f [] = ground arith
find_verb-change_verb v w f ((u, rs) ∷ routes) = ground (arith, find_verb-change_verb v w f routes)

change_verb-All :
    {A : Type 0} (P : List A → Type 0) (v : ℕ) (f : List A → List A) (routes : List (ℕ × List A))
    → ((rs : List A) → P (f rs))
    → All (λ e. P e.1) routes
    → All (λ e. P e.1) (change_verb v f routes)
unfolding change_verb
change_verb-All P v f [] h hs = (h [], tt)
change_verb-All P v f ((u, rs) ∷ routes) h (p, hs) = elim (Bool-cases (u == v)) [
  | inl e ↦ rw e (h rs, hs)
  | inr e ↦ rw e (p, change_verb-All P v f routes h hs)
]

-- The routes of every verb are in order.
abbrev pub AllSorted : {J C M : Type 0} → Router J C M → Type 0
AllSorted {J = J} {C = C} {M = M} router =
    All (λ (e : ℕ × List (Route J C M)). IsSorted route_less e.1) router.routes

module _ {J C M : Type 0}
    {sort : (Route J C M → Route J C M → Bool) → List (Route J C M) → List (Route J C M)}
    (laws : Sorts sort) where
  -- After `add_route` the routes of its verb are those of before and the new one, in some order;
  -- those of the other verbs are as they were.
  pub find-add_route :
      (v w : ℕ) (r : Route J C M) (router : Router J C M)
      → (find (add_route sort v r router) w ≡ (
          if v == w
          then some (sort route_less (routes_or_empty (find router v) ++ r ∷ []))
          else find router w))
        × Perm
            (sort route_less (routes_or_empty (find router v) ++ r ∷ []))
            (routes_or_empty (find router v) ++ r ∷ [])
  unfolding find add_route
  find-add_route v w r router = (
    find_verb-change_verb v w (λ rs. sort route_less (rs ++ r ∷ [])) router.routes,
    laws.permutes route_less (routes_or_empty (find_verb v router.routes) ++ r ∷ []),
  )

  -- A new route leaves the routes of every verb in order.
  pub add_route-AllSorted :
      (v : ℕ) (r : Route J C M) (router : Router J C M)
      → AllSorted router
      → AllSorted (add_route sort v r router)
  unfolding add_route
  add_route-AllSorted v r router h =
      change_verb-All (IsSorted route_less) v _ router.routes
        (λ rs. laws.sorts route_less (rs ++ r ∷ []) route_less-StrictWeak) h
