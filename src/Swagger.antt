-- ===== src/Swagger.antt =====
-- include/beauty/swagger.hpp and src/swagger.cpp: the description of a route, and its path there.
-- A JSON schema is a value of Boost's type, the parameter `J`.
use beauty_cl.Prelude.{Bool, true, false, List, [], ◌∷◌, ◌++◌, Bytes, ◌==◌, if◌then◌else◌}

pub record ServerInfo : Type 0 where
  pub title : Bytes
  pub description : Bytes
  pub version : Bytes

pub record RouteParameter : Type 0 where
  pub name : Bytes
  pub location : Bytes
  pub description : Bytes
  pub kind : Bytes
  pub format : Bytes
  pub required : Bool

pub record BodySchema (J : Type 0) : Type 0 where
  pub schema_name : Bytes
  pub schema : J

pub record RequestBody (J : Type 0) : Type 0 where
  pub required : Bool
  pub body_schemas : List (BodySchema J)

pub record RouteInfo (J : Type 0) : Type 0 where
  pub description : Bytes
  pub route_parameters : List RouteParameter
  pub tags : List Bytes
  pub body : RequestBody J

-- `s[0] == ':'`. The first character of an empty string is a zero byte.
unfoldable pub is_parameter : Bytes → Bool
is_parameter [] = false
is_parameter (c ∷ s) = c == b':'

abbrev pub tail_of : Bytes → Bytes
tail_of [] = []
tail_of (c ∷ s) = s

-- `"{" + s.substr(1) + "}"` for a parameter.
unfoldable pub swagger_segment : Bytes → Bytes
swagger_segment s = if is_parameter s then b'{' ∷ (tail_of s ++ b'}' ∷ []) else s

swagger_loop : Bool → List Bytes → Bytes
swagger_loop first [] = []
swagger_loop first (s ∷ segments) =
    (if first then [] else b'/' ∷ []) ++ (swagger_segment s ++ swagger_loop false segments)

-- `swagger_path`, from the segments of the route.
unfoldable pub swagger_path : List Bytes → Bytes
unfolding swagger_loop
swagger_path segments = swagger_loop true segments
