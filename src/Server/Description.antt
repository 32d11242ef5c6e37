-- ===== src/Server/Description.antt =====
-- src/server.cpp: the JSON of `enable_swagger`. A schema is a JSON object of Boost's, the parameter `J`,
-- and Boost names the verbs and prints the text.
use beauty_cl.Prelude.{
  ℕ, ◌+◌, ◌≡◌, refl, sym, ap, subst, ◌∙◌, Bool, true, false, not, Option, none, some, List, [], ◌∷◌,
  map, Bytes, codes, is_empty, bytes_eq, bytes_eq_iff, if◌then◌else◌, inl, inr, Bool-cases,
}
use beauty_cl.Utils.Escape.{is_upper}
use beauty_cl.Swagger.{ServerInfo, RouteParameter, BodySchema, RouteInfo, swagger_path}
use beauty_cl.Route.{Route, Result, empty_info}
use beauty_cl.Router.{Router}
use beauty_cl.Server.{verb_get, with_info, Verb}

-- `boost::json::value`, as far as it is used; the entries of an object are in the order of insertion.
mutual
  pub data Json (J : Type 0) : Type 0 where
    text : Bytes → Json J
    boolean : Bool → Json J
    schema : J → Json J
    array : JsonArray J → Json J
    object : JsonObject J → Json J

  pub data JsonArray (J : Type 0) : Type 0 where
    nil : JsonArray J
    cons : Json J → JsonArray J → JsonArray J

  pub data JsonObject (J : Type 0) : Type 0 where
    empty : JsonObject J
    entry : Bytes → Json J → JsonObject J → JsonObject J

module _ {J : Type 0} where
  -- `o[key] = value`.
  unfoldable pub set_key : Bytes → Json J → JsonObject J → JsonObject J
  set_key key value empty = entry key value empty
  set_key key value (entry k v o) =
      let rest = set_key key value o in if bytes_eq k key then entry k value o else entry k v rest

  unfoldable pub array_of : List (Json J) → JsonArray J
  array_of [] = nil
  array_of (v ∷ vs) = cons v (array_of vs)

  unfoldable pub describe_parameter : RouteParameter → Json J
  describe_parameter param = object (
      entry (codes "name") (text param.name) (
        entry (codes "in") (text param.location) (
          entry (codes "description") (text param.description) (
            entry (codes "required") (boolean param.required) (
              entry (codes "schema")
                (object (
                  entry (codes "type") (text param.kind)
                    (entry (codes "format") (text param.format) empty)))
                empty)))))

  unfoldable pub describe_schemas : List (BodySchema J) → JsonObject J → JsonObject J
  describe_schemas [] o = o
  describe_schemas (s ∷ ss) o =
      describe_schemas ss
        (set_key s.schema_name (object (entry (codes "schema") (schema s.schema) empty)) o)

  -- `if (...) description[key] = value;`.
  abbrev set_if : Bool → Bytes → Json J → JsonObject J → JsonObject J
  set_if b key value o = if b then set_key key value o else o

  unfoldable pub describe : RouteInfo J → JsonObject J
  describe info =
      set_if (not (is_empty info.body.body_schemas)) (codes "requestBody")
        (object (
          entry (codes "required") (boolean info.body.required) (
            entry (codes "content") (object (describe_schemas info.body.body_schemas empty))
              empty)))
        (set_if (not (is_empty info.tags)) (codes "tags") (array (array_of (map text info.tags))) (
          set_if (not (is_empty info.route_parameters)) (codes "parameters")
            (array (array_of (map describe_parameter info.route_parameters)))
            (entry (codes "description") (text info.description) empty)))

-- `to_lower`; `std::tolower` of the C locale.
unfoldable pub to_lower : Bytes → Bytes
to_lower [] = []
to_lower (c ∷ s) = (if is_upper c then c + 32 else c) ∷ to_lower s

module _ {J C M : Type 0} (verb_name : ℕ → Bytes) where
  -- The two loops, over the verbs and over their routes. `emplace_object` makes the value of the path an
  -- empty object.
  unfoldable pub describe_routes : ℕ → List (Route J C M) → JsonObject J → JsonObject J
  describe_routes verb [] paths = paths
  describe_routes verb (r ∷ rs) paths = describe_routes verb rs (
      set_key (swagger_path r.segments)
        (object (entry (to_lower (verb_name verb)) (object (describe r.route_info)) empty)) paths)

  unfoldable pub describe_verbs : List (ℕ × List (Route J C M)) → JsonObject J → JsonObject J
  describe_verbs [] paths = paths
  describe_verbs ((verb, rs) ∷ routes) paths = describe_verbs routes (describe_routes verb rs paths)

  -- What the callback of `enable_swagger` serializes.
  unfoldable pub swagger_json : ServerInfo → Router J C M → JsonObject J
  swagger_json info router = entry (codes "openapi") (text (codes "3.0.1")) (
      entry (codes "info")
        (object (
          entry (codes "title") (text info.title) (
            entry (codes "description") (text info.description)
              (entry (codes "version") (text info.version) empty))))
        (entry (codes "paths") (object (describe_verbs router.routes empty)) empty))

-- `enable_swagger`: `cb` is the callback that answers with the text of that JSON.
unfoldable pub enable_swagger :
    {J C M : Type 0}
    → ((Route J C M → Route J C M → Bool) → List (Route J C M) → List (Route J C M))
    → (Verb → ℕ)
    → Bytes
    → C
    → Router J C M
    → Result (Router J C M)
enable_swagger sort verb_number swagger_entrypoint cb router =
    with_info sort verb_number verb_get swagger_entrypoint
      (record (empty_info []) { description = codes "Swagger API description entrypoint" }) cb
      router

-- `paths.find(key)`.
unfoldable pub find_key : {J : Type 0} → Bytes → JsonObject J → Option (Json J)
find_key key empty = none
find_key key (entry k v o) = let rest = find_key key o in if bytes_eq k key then some v else rest

replaced :
    {J : Type 0} (l k key : Bytes) (v w : Json J) (found : Option (Json J))
    → l ≡ k
    → (if bytes_eq l key then some v else found)
      ≡ (if bytes_eq k key then some v else (if bytes_eq l key then some w else found))
replaced l k key v w found e =
    subst
      (λ m.
        (if bytes_eq l key then some v else found)
        ≡ (if bytes_eq m key then some v else (if bytes_eq l key then some w else found)))
      e (same (bytes_eq l key))
  where
    same :
        (b : Bool)
        → (if b then some v else found) ≡ (if b then some v else (if b then some w else found))
    same true = refl
    same false = refl

-- Two keys that differ are not both a third one.
not_both :
    (l k key : Bytes) → bytes_eq l k ≡ false → bytes_eq l key ≡ true → bytes_eq k key ≡ true → ⊥
not_both l k key n a b =
    cc (sym n ∙ (bytes_eq_iff l k).1 ((bytes_eq_iff l key).0 a ∙ sym ((bytes_eq_iff k key).0 b)))

swapped :
    {A : Type 0} (a b : Bool) (x y z : A)
    → (a ≡ true → b ≡ true → ⊥)
    → (if a then x else (if b then y else z)) ≡ (if b then y else (if a then x else z))
swapped true true x y z n = absurd (n refl refl)
swapped true false x y z n = refl
swapped false b x y z n = refl

find_key-set_key :
    {J : Type 0} (key k : Bytes) (v : Json J) (o : JsonObject J)
    → find_key key (set_key k v o) ≡ (if bytes_eq k key then some v else find_key key o)
unfolding find_key set_key
find_key-set_key key k v empty = refl
find_key-set_key key k v (entry l w o) = elim (Bool-cases (bytes_eq l k)) [
  | inl e ↦ rw e (replaced l k key v w (find_key key o) ((bytes_eq_iff l k).0 e))
  | inr e ↦ rw e (
      ap (λ rest. if bytes_eq l key then some w else rest) (find_key-set_key key k v o)
      ∙ swapped (bytes_eq l key) (bytes_eq k key) (some w) (some v) (find_key key o)
          (not_both l k key e))
]

module _ {J C M : Type 0} (verb_name : ℕ → Bytes) where
  -- The routes with their verbs, in the order of the router.
  abbrev with_verb : ℕ → List (Route J C M) → List (ℕ × Route J C M) → List (ℕ × Route J C M)
  with_verb verb [] later = later
  with_verb verb (r ∷ rs) later = (verb, r) ∷ with_verb verb rs later

  abbrev pub all_routes : List (ℕ × List (Route J C M)) → List (ℕ × Route J C M)
  all_routes [] = []
  all_routes ((verb, rs) ∷ routes) = with_verb verb rs (all_routes routes)

  -- The description that the last route for a path gives, with its verb alone.
  abbrev pub path_item : ℕ × Route J C M → Json J
  path_item (verb, r) =
      object (entry (to_lower (verb_name verb)) (object (describe r.route_info)) empty)

  unfoldable pub last_for : Bytes → List (ℕ × Route J C M) → Option (Json J) → Option (Json J)
  last_for key [] before = before
  last_for key ((verb, r) ∷ routes) before =
      last_for key routes
        (if bytes_eq (swagger_path r.segments) key then some (path_item (verb, r)) else before)

  describe_routes-last :
      (key : Bytes) (verb : ℕ) (rs : List (Route J C M)) (later : List (ℕ × Route J C M))
      (paths : JsonObject J)
      → last_for key (with_verb verb rs later) (find_key key paths)
        ≡ last_for key later (find_key key (describe_routes verb_name verb rs paths))
  unfolding describe_routes last_for
  describe_routes-last key verb [] later paths = refl
  describe_routes-last key verb (r ∷ rs) later paths =
      let next = set_key (swagger_path r.segments) (path_item (verb, r)) paths in
      ap (last_for key (with_verb verb rs later))
        (sym (find_key-set_key key (swagger_path r.segments) (path_item (verb, r)) paths))
      ∙ describe_routes-last key verb rs later next

  describe_verbs-last :
      (key : Bytes) (routes : List (ℕ × List (Route J C M))) (paths : JsonObject J)
      → find_key key (describe_verbs verb_name routes paths)
        ≡ last_for key (all_routes routes) (find_key key paths)
  unfolding describe_verbs last_for
  describe_verbs-last key [] paths = refl
  describe_verbs-last key ((verb, rs) ∷ routes) paths =
      describe_verbs-last key routes (describe_routes verb_name verb rs paths)
      ∙ sym (describe_routes-last key verb rs (all_routes routes) paths)

  -- In the JSON of `enable_swagger` the entry of a path describes the last of the routes of the router with
  -- that path, under its verb alone; a path that no route has has no entry.
  pub describe_verbs-last_for :
      (key : Bytes) (router : Router J C M)
      → find_key key (describe_verbs verb_name router.routes empty)
        ≡ last_for key (all_routes router.routes) none
  describe_verbs-last_for key router =
      unfold find_key in describe_verbs-last key router.routes empty
