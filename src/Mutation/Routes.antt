-- ===== src/Mutation/Routes.antt =====
-- internal/pkg/rpaas/mutation.go and k8s.go: UpdateRoute, DeleteRoute and GetRoutes.
pub mod Laws
pub mod Listing
use rpaas_operator.Prelude.{
  String, ◌≡◌, ◌↔◌, Bool, true, false, not, ◌&&◌, List, [], ◌∷◌, Option, none, some, arith, eq_iff,
  ◌==◌, if◌then◌else◌, has_prefix,
}
use rpaas_operator.Prelude.Keyed.{Keyed, find, store, remove}
use rpaas_operator.Errors.{validation, not_found, plain, api, is_missing}
use rpaas_operator.Result.{Result, ok, err, ◌>>=◌, ◌>>◌, reject_if}
use rpaas_operator.Api.{Value, Location, RpaasInstanceSpec}
use rpaas_operator.Values.{ConfigMaps, get_value}
use rpaas_operator.Client.{RpaasConfig}
use rpaas_operator.Manager.{Manager, modify, get_instance, is_api_missing}
use rpaas_operator.Mutation.{inline, validate_content, in_spec}

pub record Route : Type 0 where
  pub server_name : String
  pub path : String
  pub destination : String
  pub content : String
  pub https_only : Bool

-- The slice `Locations` as `hasPath` searches it.
abbrev pub is_location : String × String → Location → Bool
is_location k location = location.server_name == k.0 && location.path == k.1

pub is_location_iff :
    (k : String × String) (location : Location)
    → (is_location k location ≡ true) ↔ ((location.server_name, location.path) ≡ k)
is_location_iff (server_name, path) location =
    ground (arith, eq_iff location.server_name server_name, eq_iff location.path path)

abbrev pub locations : Keyed (String × String) Location
locations = record {
  key = λ location. (location.server_name, location.path);
  test = is_location;
  test_iff = is_location_iff;
}

-- The pattern `^/[^ ]*` is not anchored at the end: it asks for the leading slash only.
unfoldable pub validate_route : RpaasConfig → Route → Result (Unit {0})
validate_route config r = do
  reject_if (r.path == "") (validation "path is required")
  reject_if (not (has_prefix r.path "/")) (validation "invalid path format")
  reject_if (r.content == "" && r.destination == "")
      (validation "either content or destination are required")
  reject_if (not (r.content == "") && not (r.destination == ""))
      (validation "cannot set both content and destination")
  reject_if (not (r.content == "") && r.https_only)
      (validation "cannot set both content and httpsonly")
  if r.content == "" then ok tt else validate_content config.config_deny_patterns r.content

-- The location that is stored for a route.
unfoldable pub location_of : Route → Location
location_of route = record {
  server_name = route.server_name;
  path = route.path;
  destination = route.destination;
  content = if route.content == "" then none else some (inline route.content);
  force_https = route.https_only;
}

unfoldable pub update_route : RpaasConfig → Route → RpaasInstanceSpec → Result RpaasInstanceSpec
unfolding location_of
update_route config route spec = do
  validate_route config route
  ok (record spec { locations = store locations (location_of route) spec.locations })

unfoldable pub delete_route : String → String → RpaasInstanceSpec → Result RpaasInstanceSpec
delete_route server_name path spec = elim (remove locations (server_name, path) spec.locations) [
  | none ↦ err (
      not_found (
        if server_name == ""
        then "path %q does not exist"
        else "path %q with serverName %q does not exist"))
  | some rest ↦ ok (record spec { locations = rest })
]

-- The content of a location, read where it has one.
unfoldable pub location_content : ConfigMaps → String → Option Value → Result String
location_content maps namespace none = ok ""
location_content maps namespace (some v) = get_value maps namespace (some v)

-- The loop of GetRoutes: locations with neither a destination nor a content are left out.
unfoldable pub list_routes : ConfigMaps → String → List Location → Result (List Route)
unfolding location_content
list_routes maps namespace [] = ok []
list_routes maps namespace (location ∷ rest) = do
  content ← location_content maps namespace location.content
  later ← list_routes maps namespace rest
  let route : Route = record {
    server_name = location.server_name;
    path = location.path;
    destination = location.destination;
    content = content;
    https_only = location.force_https;
  }
  ok (if location.destination == "" && content == "" then later else route ∷ later)

module _ (m : Manager) where
  unfoldable pub get_routes : ConfigMaps → String → m.cli.World → Result (List Route)
  get_routes maps instance_name w = do
    i ← get_instance m instance_name w
    list_routes maps i.namespace i.spec.locations

  unfoldable pub manager_update_route :
      String → Route → m.cli.World → Result (Unit {0}) × m.cli.World
  manager_update_route instance_name route =
      modify m instance_name (in_spec (update_route m.config route))

  unfoldable pub manager_delete_route :
      String → String → String → m.cli.World → Result (Unit {0}) × m.cli.World
  manager_delete_route instance_name server_name path =
      modify m instance_name (in_spec (delete_route server_name path))
