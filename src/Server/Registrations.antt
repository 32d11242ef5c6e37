-- ===== src/Server/Registrations.antt =====
-- src/server.cpp: the registrations of a server, and its routes.
use mathlib.Core.Logic.{∥∥₁_elim, ∥∥₁_map, ∥∥₁_prop}
use mathlib.Core.Option
use mathlib.Core.List.{Mem, Memᴰ, mem-append_left, mem-append_right, mem-cons_self}
use mathlib.Core.List.Perm
use mathlib.Core.List.Memᴰ
use beauty_cl.Prelude.{
  ℕ, ◌≡◌, ◌↔◌, inl, inr, refl, sym, ap, ◌∙◌, subst, Bool, true, false, Option, none, some, List, [],
  ◌∷◌, ◌++◌, Bytes, ◌==◌, ==_iff, Bool-cases,
}
use beauty_cl.Utils.Split.{split}
use beauty_cl.Swagger.{RouteInfo}
use beauty_cl.Route.{ok, bad_path}
use beauty_cl.Router.{Router, new_router, find, find_verb, add_route, use_router, route_less}
use beauty_cl.Router.Sorted.{Sorts, AllSorted, routes_or_empty, find-add_route, add_route-AllSorted}
use beauty_cl.Session.{Callback, SharedMiddleware, HttpRoute}
use beauty_cl.Server.{Verb, register}
use beauty_cl.Server.Registration.{registered, register_ok, register_refuses}

-- The arguments of a registration, but for the path's text.
pub record Registration (J : Type 0) : Type 0 where
  pub verb : Verb
  pub path : Bytes
  pub info : RouteInfo J
  pub middleware : List SharedMiddleware
  pub callback : Callback

abbrev pub route_of : {J : Type 0} → Registration J → HttpRoute J
route_of g = registered g.path g.info g.middleware g.callback

abbrev pub segments_of : {J : Type 0} → Registration J → List Bytes
segments_of g = split g.path b'/'

abbrev pub HttpRouter : Type 0 → Type 0
HttpRouter J = Router J Callback SharedMiddleware

module _ {J : Type 0}
    (sort : (HttpRoute J → HttpRoute J → Bool) → List (HttpRoute J) → List (HttpRoute J))
    (verb_number : Verb → ℕ) where
  -- The routers that calls of the verbs and of `use` make, with the registrations, latest first.
  pub data Built : List (Registration J) → HttpRouter J → Type 0 where
    empty : Built [] new_router
    uses :
        {gs : List (Registration J)} {router : HttpRouter J} (fn : SharedMiddleware)
        → Built gs router
        → Built gs (use_router fn router)
    registers :
        {gs : List (Registration J)} {router after : HttpRouter J} (g : Registration J)
        → Built gs router
        → register sort verb_number g.verb g.path g.info g.middleware g.callback router ≡ ok after
        → Built (g ∷ gs) after

-- What is registered, in the lists of the router.
module _ {J : Type 0} (verb_number : Verb → ℕ) where
  -- A registration for a verb with a route.
  abbrev pub Source : List (Registration J) → ℕ → HttpRoute J → Type 0
  Source gs v r = (g : Registration J) × Memᴰ g gs × (verb_number g.verb ≡ v) × (route_of g ≡ r)

  -- The routes of a router are those of the registrations.
  pub record Holds (gs : List (Registration J)) (router : HttpRouter J) : Type 0 where
    pub sound :
        (v : ℕ) (rs : List (HttpRoute J))
        → find router v ≡ some rs
        → (r : HttpRoute J) → Mem r rs
        → ∥ Source gs v r ∥₁
    pub known :
        (v : ℕ) (rs : List (HttpRoute J))
        → find router v ≡ some rs
        → (g : Registration J) × Memᴰ g gs × (verb_number g.verb ≡ v)
    pub complete :
        (g : Registration J)
        → Memᴰ g gs
        → (rs : List (HttpRoute J)) × (find router (verb_number g.verb) ≡ some rs)
          × Mem (route_of g) rs

  Source-tail :
      (g : Registration J) (gs : List (Registration J)) (v : ℕ) (r : HttpRoute J)
      → Source gs v r
      → Source (g ∷ gs) v r
  Source-tail g gs v r (h, m, e, f) = (h, Memᴰ.tail m, e, f)

  module _ {sort : (HttpRoute J → HttpRoute J → Bool) → List (HttpRoute J) → List (HttpRoute J)}
      (laws : Sorts sort) (gs : List (Registration J)) (router : HttpRouter J) (g : Registration J)
      (holds : Holds gs router) where
    open holds use {sound, known, complete}

    abbrev old_routes : List (HttpRoute J)
    old_routes = routes_or_empty (find router (verb_number g.verb))

    abbrev new_routes : List (HttpRoute J)
    new_routes = sort route_less (old_routes ++ route_of g ∷ [])

    abbrev extended : HttpRouter J
    extended = add_route sort (verb_number g.verb) (route_of g) router

    same_verb : (w : ℕ) → (verb_number g.verb == w) ≡ true → find extended w ≡ some new_routes
    same_verb w e = (find-add_route laws (verb_number g.verb) w (route_of g) router).0 ∙ rw e refl

    other_verb : (w : ℕ) → (verb_number g.verb == w) ≡ false → find extended w ≡ find router w
    other_verb w e = (find-add_route laws (verb_number g.verb) w (route_of g) router).0 ∙ rw e refl

    new_Mem : (r : HttpRoute J) → Mem r new_routes ↔ Mem r (old_routes ++ route_of g ∷ [])
    new_Mem r =
        Perm.mem_iff
          (find-add_route laws (verb_number g.verb) (verb_number g.verb) (route_of g) router).1

    registered_before :
        (o : Option (List (HttpRoute J))) (v : ℕ)
        → find router v ≡ o
        → (r : HttpRoute J) → Memᴰ r (routes_or_empty o)
        → ∥ Source gs v r ∥₁
    registered_before none v e r m = absurd (Memᴰ.not-nil m)
    registered_before (some rs) v e r m = sound v rs e r ∣ m ∣₁

    registered_after :
        (r : HttpRoute J) → Mem r new_routes → ∥ Source (g ∷ gs) (verb_number g.verb) r ∥₁
    registered_after r m = ∥∥₁_elim ((new_Mem r).0 m) ∥∥₁_prop (λ d.
        elim (Memᴰ.append_cases old_routes d) [
          | inl o ↦
              ∥∥₁_map (registered_before _ (verb_number g.verb) refl r o)
                (Source-tail g gs (verb_number g.verb) r)
          | inr o ↦ ∣ (g, Memᴰ.head refl, refl, sym (Memᴰ.eq_of_singleton o)) ∣₁
        ])

    sound_after :
        (w : ℕ) (rs : List (HttpRoute J))
        → find extended w ≡ some rs
        → (r : HttpRoute J) → Mem r rs
        → ∥ Source (g ∷ gs) w r ∥₁
    sound_after w rs e r m = elim (Bool-cases (verb_number g.verb == w)) [
      | inl same ↦
          subst (λ v. ∥ Source (g ∷ gs) v r ∥₁) ((==_iff (verb_number g.verb) w).0 same)
            (registered_after r
              (subst (Mem r) (Option.some-injective _ _ (sym e ∙ same_verb w same)) m))
      | inr other ↦ ∥∥₁_map (sound w rs (sym (other_verb w other) ∙ e) r m) (Source-tail g gs w r)
    ]

    known_after :
        (w : ℕ) (rs : List (HttpRoute J))
        → find extended w ≡ some rs
        → (h : Registration J) × Memᴰ h (g ∷ gs) × (verb_number h.verb ≡ w)
    known_after w rs e = elim (Bool-cases (verb_number g.verb == w)) [
      | inl same ↦ (g, Memᴰ.head refl, (==_iff (verb_number g.verb) w).0 same)
      | inr other ↦ let (h, m, v) = known w rs (sym (other_verb w other) ∙ e) in (h, Memᴰ.tail m, v)
    ]

    old_kept :
        (w : ℕ) (rs : List (HttpRoute J)) (r : HttpRoute J)
        → find router w ≡ some rs
        → verb_number g.verb ≡ w
        → Mem r rs
        → Mem r new_routes
    old_kept w rs r e v m = (new_Mem r).1 (
        mem-append_left (route_of g ∷ [])
          (subst (Mem r) (ap routes_or_empty (sym e ∙ ap (find router) (sym v))) m))

    complete_after :
        (h : Registration J)
        → Memᴰ h (g ∷ gs)
        → (rs : List (HttpRoute J)) × (find extended (verb_number h.verb) ≡ some rs)
          × Mem (route_of h) rs
    complete_after h (Memᴰ.head e) = (
      new_routes,
      same_verb (verb_number h.verb) (
          (==_iff (verb_number g.verb) (verb_number h.verb)).1
            (ap (λ (x : Registration J). verb_number x.verb) (sym e))),
      subst (λ (x : Registration J). Mem (route_of x) new_routes) (sym e)
          ((new_Mem (route_of g)).1 (mem-append_right old_routes mem-cons_self)),
    )
    complete_after h (Memᴰ.tail m) =
        let (rs, e, in_rs) = complete h m in
        elim (Bool-cases (verb_number g.verb == verb_number h.verb)) [
          | inl same ↦ (
            new_routes,
            same_verb (verb_number h.verb) same,
            old_kept (verb_number h.verb) rs (route_of h) e
                ((==_iff (verb_number g.verb) (verb_number h.verb)).0 same) in_rs,
          )
          | inr other ↦ (rs, other_verb (verb_number h.verb) other ∙ e, in_rs)
        ]

    Holds-add_route : Holds (g ∷ gs) extended
    Holds-add_route = record { sound = sound_after; known = known_after; complete = complete_after }

  -- A router that was built has the routes of its registrations, in order.
  pub Built-Holds :
      {sort : (HttpRoute J → HttpRoute J → Bool) → List (HttpRoute J) → List (HttpRoute J)}
      {gs : List (Registration J)} {router : HttpRouter J}
      → Sorts sort
      → Built sort verb_number gs router
      → Holds gs router × AllSorted router
  unfolding find find_verb use_router
  Built-Holds laws empty = (
    record {
      sound = λ v rs e r m. absurd cc;
      known = λ v rs e. absurd cc;
      complete = λ g m. absurd (Memᴰ.not-nil m);
    },
    tt,
  )
  Built-Holds laws (uses fn built) =
      let (holds, sorted) = Built-Holds laws built in
      (record { sound = holds.sound; known = holds.known; complete = holds.complete }, sorted)
  Built-Holds {sort} {router = after} laws (registers {gs} {router} g built e) =
      let (holds, sorted) = Built-Holds laws built in
      elim (Bool-cases (bad_path g.path)) [
        | inl bad ↦ absurd (
            cc (
              register_refuses laws verb_number g.verb g.path g.info g.middleware g.callback router
                bad))
        | inr good ↦
            let same : add_route sort (verb_number g.verb) (route_of g) router ≡ after = cc (
              register_ok laws verb_number g.verb g.path g.info g.middleware g.callback router
                good) in
            subst (λ r. Holds (g ∷ gs) r × AllSorted r) same
              (
                Holds-add_route laws gs router g holds,
                add_route-AllSorted laws (verb_number g.verb) (route_of g) router sorted,
              )
      ]
