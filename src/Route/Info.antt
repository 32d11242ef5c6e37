-- ===== src/Route/Info.antt =====
-- src/route.cpp: the parameters of a route after `update_route_info`.
use beauty_cl.Prelude.{
  ◌≡◌, refl, Option, none, some, List, [], ◌∷◌, arith, Bytes, bytes_eq, bytes_eq_iff, if◌then◌else◌,
}
use beauty_cl.Swagger.{RouteParameter}
use beauty_cl.Route.{in_query, update_parameter}

-- The first parameter of a name.
unfoldable pub find_parameter : Bytes → List RouteParameter → Option RouteParameter
find_parameter name [] = none
find_parameter name (info ∷ infos) =
    let rest = find_parameter name infos in if bytes_eq name info.name then some info else rest

-- A parameter that is described anew keeps its name, its place and whether it is required; one that is
-- not there yet is a query parameter, unless it says something else.
abbrev pub described : RouteParameter → Option RouteParameter → RouteParameter
described param none = in_query param
described param (some info) = record info {
  description = param.description;
  kind = param.kind;
  format = param.format;
}

-- Under the name of the parameter that is updated stands what it describes, and under another name
-- what stood there.
pub find_parameter-update_parameter :
    (name : Bytes) (param : RouteParameter) (infos : List RouteParameter)
    → find_parameter name (update_parameter param infos) ≡ (
        if bytes_eq name param.name
        then some (described param (find_parameter param.name infos))
        else find_parameter name infos)
unfolding find_parameter update_parameter
find_parameter-update_parameter name param [] = refl
find_parameter-update_parameter name param (info ∷ infos) = ground (
  arith,
  bytes_eq_iff name param.name,
  bytes_eq_iff param.name info.name,
  bytes_eq_iff name info.name,
  find_parameter-update_parameter name param infos,
)
