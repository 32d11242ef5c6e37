-- ===== src/Session/Dispatch.antt =====
-- include/beauty/session.hpp: the choice of the route.
use beauty_cl.Prelude.{
  ◌≤◌, ◌≡◌, ◌↔◌, inl, inr, refl, sym, ap, ◌∙◌, subst, Bool, true, false, none, some, List, [], ◌∷◌,
  arith, Bytes, length, All, Bool-cases,
}
use mathlib.Core.Option
use mathlib.Core.List.{Memᴰ}
use beauty_cl.Route.{match, is_websocket}
use beauty_cl.Route.Matching.{Matches, Matches-length, request_paths, match_iff, match_fails}
use beauty_cl.Router.{route_less}
use beauty_cl.Router.Order.{less_iff, Before}
use beauty_cl.Router.Sorted.{IsSorted}
use beauty_cl.Session.{Request, HttpRoute, first_match}

-- The route serves the path of the request, and is of its kind.
abbrev pub Serves : {J : Type 0} → Request → Bool → HttpRoute J → Type 0
Serves req websocket r =
    (websocket ≡ is_websocket r.handler) × Matches r.segments (request_paths req.target)

Before-irreflexive : (ss : List Bytes) → Before ss ss → ⊥
Before-irreflexive [] b = b
Before-irreflexive (s ∷ ss) (inl b) = cc
Before-irreflexive (s ∷ ss) (inr b) = Before-irreflexive ss b.1

module _ {J : Type 0} (req : Request) (websocket : Bool) where
  abbrev matches : HttpRoute J → Bool
  matches r = (match r req.target req.attributes websocket).0

  first_match_skip :
      (r : HttpRoute J) (rs : List (HttpRoute J))
      → matches r ≡ false
      → first_match (r ∷ rs) req websocket ≡ first_match rs req websocket
  unfolding first_match
  first_match_skip r rs e = rw (e, match_fails r req.target req.attributes websocket e) refl

  first_match_hit :
      (r : HttpRoute J) (rs : List (HttpRoute J))
      → matches r ≡ true
      → first_match (r ∷ rs) req websocket
        ≡ some (r, record req { attributes = (match r req.target req.attributes websocket).1 })
  unfolding first_match
  first_match_hit r rs e = rw e refl

  -- The loop finds no route exactly when no route of the list is of the request's kind and serves its
  -- path.
  pub first_match-none :
      (rs : List (HttpRoute J))
      → (first_match rs req websocket ≡ none) ↔ All (λ r. ¬ Serves req websocket r) rs
  first_match-none [] = (λ e. tt, λ h. (unfold first_match in refl))
  first_match-none (r ∷ rs) =
      let serves = match_iff r req.target req.attributes websocket in
      let rest = first_match-none rs in
      elim (Bool-cases (matches r)) [
        | inl e ↦ (λ n. cc (first_match_hit r rs e), λ h. absurd (h.0 (serves.0 e)))
        | inr e ↦ (
          λ n. ((λ s. cc (serves.1 s)), rest.0 (sym (first_match_skip r rs e) ∙ n)),
          λ h. first_match_skip r rs e ∙ rest.1 h.1,
        )
      ]

  -- The route that is found is one of the list and serves the request, which is the one that it makes.
  pub first_match-found :
      (rs : List (HttpRoute J)) (r : HttpRoute J) (matched : Request)
      → first_match rs req websocket ≡ some (r, matched)
      → Memᴰ r rs
        × (matched ≡ record req { attributes = (match r req.target req.attributes websocket).1 })
        × Serves req websocket r
  first_match-found [] r matched e = absurd (unfold first_match in cc)
  first_match-found (r0 ∷ rs) r matched e = elim (Bool-cases (matches r0)) [
    | inl m ↦
        let same : (
          r0,
          record req { attributes = (match r0 req.target req.attributes websocket).1 },
        )
            ≡ (r, matched) =
          Option.some-injective _ _ (sym (first_match_hit r0 rs m) ∙ e) in
        let route : r0 ≡ r = ap (λ (p : HttpRoute J × Request). p.0) same in
        (
          Memᴰ.head (sym route),
          sym (ap (λ (p : HttpRoute J × Request). p.1) same)
              ∙ ap
                  (λ (t : HttpRoute J). record req {
                    attributes = (match t req.target req.attributes websocket).1;
                  })
                  route,
          subst (Serves req websocket) route
              ((match_iff r0 req.target req.attributes websocket).0 m),
        )
    | inr m ↦
        let (member, made, serves) =
          first_match-found rs r matched (sym (first_match_skip r0 rs m) ∙ e) in
        (Memᴰ.tail member, made, serves)
  ]

  -- What another matching route is not: before the one that is found.
  abbrev pub NotBefore : HttpRoute J → HttpRoute J → Type 0
  NotBefore r other =
      Serves req websocket other → length other.segments ≤ 30 → Before other.segments r.segments → ⊥

  not_before :
      (r : HttpRoute J) (others : List (HttpRoute J))
      → Serves req websocket r
      → All (λ o. route_less o r ≡ false) others
      → All (NotBefore r) others
  not_before r [] s h = tt
  not_before r (o ∷ others) s (h, hs) = (behind, not_before r others s hs)
    where
      behind : NotBefore r o
      behind served bound b =
          let same : length o.segments ≡ length r.segments =
            Matches-length o.segments _ served.1 ∙ sym (Matches-length r.segments _ s.1) in
          let found : route_less o r ≡ true =
            unfold route_less in
            (less_iff o.segments r.segments bound (omega arith)).1 (inr (same, b)) in
          cc

  pub first_match-All :
      (rs : List (HttpRoute J)) (r : HttpRoute J) (matched : Request)
      → IsSorted route_less rs
      → first_match rs req websocket ≡ some (r, matched)
      → Serves req websocket r × All (NotBefore r) rs
  first_match-All [] r matched h e = absurd (unfold first_match in cc)
  first_match-All (r0 ∷ rs) r matched (h, hs) e =
      let serves = match_iff r0 req.target req.attributes websocket in
      elim (Bool-cases (matches r0)) [
        | inl m ↦
            subst (λ t. Serves req websocket t × All (NotBefore t) (r0 ∷ rs))
              (ap (λ (p : HttpRoute J × Request). p.0)
                (Option.some-injective _ _ (sym (first_match_hit r0 rs m) ∙ e)))
              (
                serves.0 m,
                ((λ s b c. Before-irreflexive r0.segments c), not_before r0 rs (serves.0 m) h),
              )
        | inr m ↦
            let (served, others) =
              first_match-All rs r matched hs (sym (first_match_skip r0 rs m) ∙ e) in
            (served, ((λ s b c. absurd (cc (serves.1 s))), others))
      ]

  pub All-Memᴰ :
      (P : HttpRoute J → Type 0) {r : HttpRoute J} {rs : List (HttpRoute J)}
      → Memᴰ r rs
      → All P rs
      → P r
  All-Memᴰ P (Memᴰ.head e) (p, ps) = subst P (sym e) p
  All-Memᴰ P (Memᴰ.tail m) (p, ps) = All-Memᴰ P m ps

  -- Among sorted routes the one found serves the request, and another one of the list that serves it,
  -- of at most 30 segments, has no literal segment where, at the first place where they differ in kind,
  -- the one found has a parameter.
  pub first_match-specific :
      (rs : List (HttpRoute J)) (r other : HttpRoute J) (matched : Request)
      → IsSorted route_less rs
      → first_match rs req websocket ≡ some (r, matched)
      → Memᴰ other rs
      → Serves req websocket other
      → length other.segments ≤ 30
      → Serves req websocket r × (¬ Before other.segments r.segments)
  first_match-specific rs r other matched h e m s bound =
      let (served, others) = first_match-All rs r matched h e in
      (served, All-Memᴰ (NotBefore r) m others s bound)
