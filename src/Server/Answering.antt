-- ===== src/Server/Answering.antt =====
-- src/server.cpp with include/beauty/session.hpp: what a server whose routes were registered answers.
use mathlib.Core.Logic.{∥∥₁_elim, ∥∥₁_map}
use mathlib.Core.Option
use mathlib.Core.List.{Mem, Memᴰ}
use beauty_cl.Prelude.{
  ℕ, ◌≤◌, ◌≡◌, ◌≢◌, ◌⊎◌, inl, inr, refl, sym, ap, ◌∙◌, subst, Bool, false, Option, none, some, List,
  [], ◌∷◌, arith, Bytes, codes, All, length, ◌==◌, Bool-cases, Option-cases,
}
use beauty_cl.Route.{match, is_sse, is_websocket, update_route_info}
use beauty_cl.Route.Matching.{Matches, request_paths}
use beauty_cl.Router.{find, find_verb, route_less}
use beauty_cl.Router.Order.{Before}
use beauty_cl.Router.Sorted.{Sorts, IsSorted}
use beauty_cl.Session.{
  Request, HttpRoute, Reply, respond, first_match, handle_request, serve, not_found, bad_request,
}
use beauty_cl.Session.Dispatch.{
  Serves, NotBefore, All-Memᴰ, first_match-none, first_match-All, first_match-found,
}
use beauty_cl.Session.Replies.{
  with_endpoint, handle_request-not_found, handle_request-unsupported, handle_request_found,
}
use beauty_cl.Server.{Verb}
use beauty_cl.Server.Registrations.{
  Registration, route_of, segments_of, HttpRouter, Built, Holds, Built-Holds,
}

All-of : {A : Type 0} (P : A → Type 0) (xs : List A) → ((x : A) → Memᴰ x xs → P x) → All P xs
All-of P [] h = tt
All-of P (x ∷ xs) h = (h x (Memᴰ.head refl), All-of P xs (λ y m. h y (Memᴰ.tail m)))

-- A registered route is one for plain HTTP, and has the segments of its path.
route_of_kind :
    {J : Type 0} (g : Registration J)
    → (is_websocket (route_of g).handler ≡ false)
      × (is_sse (route_of g).handler ≡ false)
      × ((route_of g).segments ≡ segments_of g)
unfolding update_route_info
route_of_kind g = (refl, refl, refl)

find_verb-All :
    {A : Type 0} (P : A → Type 0) (v : ℕ) (routes : List (ℕ × A)) (a : A)
    → All (λ e. P e.1) routes
    → find_verb v routes ≡ some a
    → P a
unfolding find_verb
find_verb-All P v [] a h e = absurd cc
find_verb-All P v ((w, b) ∷ routes) a (p, h) e = elim (Bool-cases (w == v)) [
  | inl same ↦ subst P (ground arith) p
  | inr other ↦ find_verb-All P v routes a h (ground arith)
]

module _ {J : Type 0} (verb_number : Verb → ℕ)
    {sort : (HttpRoute J → HttpRoute J → Bool) → List (HttpRoute J) → List (HttpRoute J)}
    (laws : Sorts sort) (gs : List (Registration J)) (router : HttpRouter J)
    (project_version endpoint : Bytes) (request : Request) where
  abbrev req : Request
  req = with_endpoint endpoint request

  -- A registration for the verb and the path of the request.
  abbrev pub Fits : Registration J → Type 0
  Fits g =
      Memᴰ g gs
      × (verb_number g.verb ≡ request.method)
      × Matches (segments_of g) (request_paths request.target)

  -- None that fits is more specific, of those with at most 30 segments.
  abbrev pub Best : Registration J → Type 0
  Best g =
      Fits g
      × ((h : Registration J)
          → Fits h
          → length (segments_of h) ≤ 30
          → ¬ Before (segments_of h) (segments_of g))

  abbrev pub matched : Registration J → Request
  matched g = record req {
    attributes = (match (route_of g) request.target request.attributes false).1;
  }

  abbrev pub handled : Option (Reply J)
  handled = handle_request project_version router endpoint false request

  served_by : (g : Registration J) → Fits g → Serves request false (route_of g)
  served_by g fits =
      let (plain, not_sse, same) = route_of_kind g in
      (sym plain, subst (λ ss. Matches ss (request_paths request.target)) (sym same) fits.2)

  module _ (holds : Holds verb_number gs router) (rs : List (HttpRoute J))
      (found : find router request.method ≡ some rs) where
    in_routes : (g : Registration J) → Fits g → Mem (route_of g) rs
    in_routes g (m, v, fits) =
        let (l, e, k) = holds.complete g m in
        subst (Mem (route_of g)) (Option.some-injective _ _ (sym e ∙ (ap (find router) v ∙ found)))
          k

    not_registered : first_match rs req false ≡ none → (g : Registration J) → ¬ Fits g
    not_registered n g fits = ∥∥₁_elim (in_routes g fits) (hlevel) (λ m.
        All-Memᴰ req false (λ r. ¬ Serves req false r) m ((first_match-none req false rs).0 n)
          (served_by g fits))

    best :
        IsSorted route_less rs
        → (g : Registration J) → Memᴰ g gs
        → verb_number g.verb ≡ request.method
        → (m : Request) → first_match rs req false ≡ some (route_of g, m)
        → Best g × (handled ≡ serve project_version router (route_of g) (matched g))
    best sorted g mem v m f =
        let (serves, others) = first_match-All req false rs (route_of g) m sorted f in
        let (plain, not_sse, same) = route_of_kind g in
        (
          (
            (mem, v, subst (λ ss. Matches ss (request_paths request.target)) same serves.1),
            λ h fits bound b. ∥∥₁_elim (in_routes h fits) (hlevel) (λ k.
                All-Memᴰ req false (NotBefore req false (route_of g)) k others (served_by h fits)
                  (subst (λ ss. length ss ≤ 30) (sym (route_of_kind h).2) bound)
                  (rw ((route_of_kind h).2, same) b)),
          ),
          handle_request_found project_version router endpoint false request rs (route_of g) m found
                f
              ∙ rw not_sse (
                  ap (serve project_version router (route_of g))
                    (first_match-found req false rs (route_of g) m f).1),
        )

  -- Where the sort of the router has the laws of `std::sort`, a server whose routes were made by calls of
  -- the verbs' functions and of `use` answers a plain request in one of three ways. Where no registration
  -- is for its verb: that the method is not supported. Where some are, but none has a path that matches:
  -- that the resource was not found. Else as the middleware and the callback of a registration answer
  -- whose verb and path are the request's, with the attributes of the match; and no other one that fits,
  -- of at most 30 segments, is more specific.
  pub handle_request-registered :
      Built sort verb_number gs router
      → (((g : Registration J) → Memᴰ g gs → verb_number g.verb ≢ request.method)
          × (handled
              ≡ some
                  (respond (bad_request project_version req (codes "Not supported HTTP-method")))))
        ⊎ (((g : Registration J) × Memᴰ g gs × (verb_number g.verb ≡ request.method))
            × ((g : Registration J) → ¬ Fits g)
            × (handled ≡ some (respond (not_found project_version req))))
        ⊎ ∥ (
            (g : Registration J) × Best g
            × (handled ≡ serve project_version router (route_of g) (matched g))) ∥₁
  handle_request-registered built =
      let (holds, sorted) = Built-Holds verb_number laws built in
      elim (Option-cases (find router request.method)) [
        | inl e ↦ inl (
          (λ g m v. let (rs, f, k) = holds.complete g m in cc (ap (find router) v)),
          handle_request-unsupported project_version router endpoint false request e,
        )
        | inr (rs, e) ↦ elim (Option-cases (first_match rs req false)) [
          | inl n ↦ inr (
              inl (
                holds.known request.method rs e,
                not_registered holds rs e n,
                handle_request-not_found project_version router endpoint false request rs e
                    ((first_match-none req false rs).0 n),
              ))
          | inr ((r, m), f) ↦ inr (
              inr (
                ∥∥₁_map
                  (holds.sound request.method rs e r ∣ (first_match-found req false rs r m f).0 ∣₁)
                  (λ (g, mem, v, q).
                    let (fits, served) =
                      best holds rs e
                        (find_verb-All (IsSorted route_less) request.method router.routes rs sorted
                          (unfold find in e))
                        g mem v m (f ∙ ap (λ t. some (t, m)) (sym q)) in
                    (g, fits, served))))
        ]
      ]
