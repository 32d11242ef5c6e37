-- ===== src/Server/Registration.antt =====
-- src/server.cpp: what the router holds after a registration.
use beauty_cl.Prelude.{
  ℕ, ◌≡◌, refl, sym, ap, ◌∙◌, true, false, Bool, some, List, [], ◌∷◌, ◌++◌, append_assoc,
  append-nil, Bytes, codes, ==_iff,
}
use beauty_cl.Utils.Split.{split}
use beauty_cl.Swagger.{RouteInfo}
use beauty_cl.Route.{
  Route, ok, runtime_error, bad_path, route_cb, route, route_with_info, update_route_info,
  use_middleware, empty_info, extract_route_info,
}
use beauty_cl.Router.{Router, find, route_less, add_route}
use beauty_cl.Router.Sorted.{Sorts, AllSorted, routes_or_empty, find-add_route, add_route-AllSorted}
use beauty_cl.Server.{Verb, use_all, register}

use_all-middleware :
    {J C M : Type 0} (fns : List M) (r : Route J C M)
    → use_all fns r ≡ record r { middleware = r.middleware ++ fns }
unfolding use_all use_middleware
use_all-middleware [] r = ap (λ ms. record r { middleware = ms }) (sym (append-nil r.middleware))
use_all-middleware (fn ∷ fns) r =
    use_all-middleware fns (use_middleware fn r)
    ∙ ap (λ ms. record r { middleware = ms }) (append_assoc r.middleware (fn ∷ []) fns)

-- The route of a registration.
abbrev pub registered : {J C M : Type 0} → Bytes → RouteInfo J → List M → C → Route J C M
registered path info m cb = update_route_info info (record {
  path = path;
  segments = split path b'/';
  handler = route_cb cb;
  route_info = empty_info (extract_route_info (split path b'/'));
  middleware = m;
})

use_all-registered :
    {J C M : Type 0} (m : List M) (path : Bytes) (info : RouteInfo J) (cb : C)
    → use_all m (registered path info [] cb) ≡ registered path info m cb
unfolding update_route_info
use_all-registered m path info cb = use_all-middleware m (registered path info [] cb)

module _ {J C M : Type 0}
    {sort : (Route J C M → Route J C M → Bool) → List (Route J C M) → List (Route J C M)}
    (laws : Sorts sort) (verb_number : Verb → ℕ) where
  constructs :
      (v : Verb) (path : Bytes) (info : RouteInfo J) (m : List M) (cb : C) (router : Router J C M)
      → bad_path path ≡ false
      → register sort verb_number v path info m cb router
        ≡ ok (add_route sort (verb_number v) (use_all m (registered path info [] cb)) router)
  unfolding register route_with_info route
  constructs v path info m cb router e = rw e refl

  pub register_ok :
      (v : Verb) (path : Bytes) (info : RouteInfo J) (m : List M) (cb : C) (router : Router J C M)
      → bad_path path ≡ false
      → register sort verb_number v path info m cb router
        ≡ ok (add_route sort (verb_number v) (registered path info m cb) router)
  register_ok v path info m cb router e =
      constructs v path info m cb router e
      ∙ ap (λ (r : Route J C M). ok (add_route sort (verb_number v) r router))
          (use_all-registered m path info cb)

  -- A path that begins with a slash is registered: the routes of the verb are those of before and one
  -- with the segments of the path, the callback and the middleware in their order, sorted, and the
  -- routes of every verb stay in order.
  pub register-AllSorted :
      (v : Verb) (path : Bytes) (info : RouteInfo J) (m : List M) (cb : C) (router : Router J C M)
      → bad_path path ≡ false
      → AllSorted router
      → (after : Router J C M) × (register sort verb_number v path info m cb router ≡ ok after)
        × (find after (verb_number v)
            ≡ some (
                sort route_less (
                  routes_or_empty (find router (verb_number v)) ++ registered path info m cb ∷ [])))
        × AllSorted after
  register-AllSorted v path info m cb router e h =
      let r = registered path info m cb in
      (
        add_route sort (verb_number v) r router,
        register_ok v path info m cb router e,
        (find-add_route laws (verb_number v) (verb_number v) r router).0
            ∙ rw ((==_iff (verb_number v) (verb_number v)).1 refl) refl,
        add_route-AllSorted laws (verb_number v) r router h,
      )

  -- A path that is empty or does not begin with a slash is refused with a message that names it.
  pub register_refuses :
      (v : Verb) (path : Bytes) (info : RouteInfo J) (m : List M) (cb : C) (router : Router J C M)
      → bad_path path ≡ true
      → register sort verb_number v path info m cb router
        ≡ runtime_error (codes "Route path [" ++ (path ++ codes "] must begin with '/'."))
  unfolding register route_with_info route
  register_refuses v path info m cb router e = rw e refl
