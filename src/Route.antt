-- ===== src/Route.antt =====
-- src/route.cpp and include/beauty/route.hpp. `C` is the type of the callbacks, `M` that of the
-- middleware, and `J` that of Boost's JSON objects.
pub mod Matching
pub mod Captures
pub mod Info
pub mod Calls
use beauty_cl.Prelude.{
  Bool, true, false, not, ◌&&◌, Option, none, some, List, [], ◌∷◌, ◌++◌, Bytes, codes, is_empty,
  bytes_eq, length, ◌==◌, if◌then◌else◌,
}
use beauty_cl.Utils.Split.{split}
use beauty_cl.Attributes.{Attributes, attributes}
use beauty_cl.Swagger.{RouteParameter, RouteInfo, RequestBody, is_parameter, tail_of}

-- `std::variant<route_cb, ws_handler, sse_handler>`.
pub data Handler (C : Type 0) : Type 0 where
  route_cb ws_handler sse_handler : C → Handler C

pub record Route (J C M : Type 0) : Type 0 where
  pub path : Bytes
  pub segments : List Bytes
  pub handler : Handler C
  pub route_info : RouteInfo J
  pub middleware : List M

-- A constructor, or the message of the `std::runtime_error` that it throws.
pub data Result {ℓ} (A : Type ℓ) : Type ℓ where
  ok : A → Result A
  runtime_error : Bytes → Result A

abbrev pub result_map {ℓ κ} : {A : Type ℓ} {B : Type κ} → (A → B) → Result A → Result B
result_map f (ok a) = ok (f a)
result_map f (runtime_error e) = runtime_error e

-- `path.empty() || path[0] != '/'`.
unfoldable pub bad_path : Bytes → Bool
bad_path [] = true
bad_path (c ∷ s) = not (c == b'/')

-- A string made from a `const char*` ends before the first zero byte.
unfoldable pub c_string : Bytes → Bytes
c_string [] = []
c_string (c ∷ s) = if c == 0 then [] else c ∷ c_string s

unfoldable pub path_parameter : Bytes → RouteParameter
path_parameter segment = record {
  name = c_string (tail_of segment);
  location = codes "path";
  description = codes "Undefined";
  kind = codes "Undefined";
  format = [];
  required = true;
}

unfoldable pub extract_route_info : List Bytes → List RouteParameter
extract_route_info [] = []
extract_route_info (segment ∷ segments) =
    if is_parameter segment
    then path_parameter segment ∷ extract_route_info segments
    else extract_route_info segments

abbrev pub empty_info : {J : Type 0} → List RouteParameter → RouteInfo J
empty_info ps = record {
  description = [];
  route_parameters = ps;
  tags = [];
  body = record { required = false; body_schemas = [] };
}

-- The three constructors, which differ in the handler alone.
unfoldable pub route : {J C M : Type 0} → Bytes → Handler C → Result (Route J C M)
route path handler =
    if bad_path path
    then runtime_error (codes "Route path [" ++ (path ++ codes "] must begin with '/'."))
    else ok (record {
      path = path;
      segments = split path b'/';
      handler = handler;
      route_info = empty_info (extract_route_info (split path b'/'));
      middleware = [];
    })

-- `tmp.in = "query"` where none was given.
abbrev pub in_query : RouteParameter → RouteParameter
in_query param = record param {
  location = if is_empty param.location then codes "query" else param.location;
}

-- `std::find_if` and the change of what it finds, or `emplace_back`.
unfoldable pub update_parameter : RouteParameter → List RouteParameter → List RouteParameter
update_parameter param [] = in_query param ∷ []
update_parameter param (info ∷ infos) =
    if bytes_eq param.name info.name
    then record info { description = param.description; kind = param.kind; format = param.format }
      ∷ infos
    else info ∷ update_parameter param infos

unfoldable pub update_parameters : List RouteParameter → List RouteParameter → List RouteParameter
update_parameters [] infos = infos
update_parameters (param ∷ params) infos = update_parameters params (update_parameter param infos)

unfoldable pub update_route_info : {J C M : Type 0} → RouteInfo J → Route J C M → Route J C M
update_route_info new r = record r {
  route_info = record {
    description = new.description;
    route_parameters = update_parameters new.route_parameters r.route_info.route_parameters;
    tags = new.tags;
    body = new.body;
  };
}

-- The constructor with a `route_info`.
unfoldable pub route_with_info : {J C M : Type 0} → Bytes → RouteInfo J → C → Result (Route J C M)
route_with_info path info cb = result_map (update_route_info info) (route path (route_cb cb))

unfoldable pub use_middleware : {J C M : Type 0} → M → Route J C M → Route J C M
use_middleware fn r = record r { middleware = r.middleware ++ fn ∷ [] }

abbrev pub is_websocket : {C : Type 0} → Handler C → Bool
is_websocket (ws_handler h) = true
is_websocket _ = false

abbrev pub is_sse : {C : Type 0} → Handler C → Bool
is_sse (sse_handler h) = true
is_sse _ = false

-- The loop of `match`: the text of the attributes, unless a literal segment differs.
unfoldable pub match_segments : List Bytes → List Bytes → Bytes → Option Bytes
match_segments (segment ∷ segments) (request ∷ requests) attrs =
    let literal = match_segments segments requests attrs in
    let captured = match_segments segments requests (
      attrs
      ++ ((if is_empty attrs then [] else b'&' ∷ []) ++ (tail_of segment ++ (b'=' ∷ request)))) in
    if is_parameter segment then captured else (if bytes_eq segment request then literal else none)
match_segments _ _ attrs = some attrs

-- `target_split[0]`, and `target_split[1]` if there is one.
abbrev pub head_of : List Bytes → Bytes
head_of [] = []
head_of (p ∷ ps) = p

abbrev pub second_of : List Bytes → Bytes
second_of (p ∷ q ∷ ps) = q
second_of _ = []

-- The match of a target; the attributes are those that the request has afterwards.
unfoldable pub match_target : List Bytes → Bytes → Attributes → Bool × Attributes
match_target segments target old =
    let target_split = split target b'?' in
    let request_paths = split (head_of target_split) b'/' in
    if length segments == length request_paths
    then elim (match_segments segments request_paths (second_of target_split)) [
      | none ↦ (false, old)
      | some attrs ↦ (true, if is_empty attrs then old else attributes attrs b'&')
    ]
    else (false, old)

unfoldable pub match :
    {J C M : Type 0} → Route J C M → Bytes → Attributes → Bool → Bool × Attributes
match r target old websocket =
    if websocket && not (is_websocket r.handler)
    then (false, old)
    else (if not websocket && is_websocket r.handler
        then (false, old)
        else match_target r.segments target old)
