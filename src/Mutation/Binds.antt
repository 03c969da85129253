-- ===== src/Mutation/Binds.antt =====
-- internal/pkg/rpaas/mutation.go and k8s.go: BindApp and UnbindApp.
pub mod Laws
use rpaas_operator.Prelude.{
  String, ◌≡◌, ◌↔◌, Bool, true, false, not, ◌&&◌, List, [], ◌∷◌, ◌++◌, Option, none, some, eq_iff,
  ◌==◌, if◌then◌else◌, is_some,
}
use rpaas_operator.Prelude.Keyed.{Keyed, find, remove}
use rpaas_operator.Errors.{validation, not_found, conflict}
use rpaas_operator.Result.{Result, ok, err, ◌>>=◌, ◌>>◌, reject_if}
use rpaas_operator.Api.{Bind, RpaasInstance, RpaasInstanceSpec, StringMap}
use rpaas_operator.Labels.{belongs_to_cluster}
use rpaas_operator.Manager.{Manager, modify}
use rpaas_operator.Mutation.{in_spec}

-- `AppInternalHosts` and `AppHosts` name the same application; User and EventID are not read.
pub record BindAppArgs : Type 0 where
  pub app_name : String
  pub app_hosts : List String
  pub app_internal_hosts : List String
  pub app_cluster_name : String

-- The slice `Binds`, searched by host when it grows and by name when it shrinks.
abbrev pub by_host : Keyed String Bind
by_host = record {
  key = λ bind. bind.host;
  test = λ k bind. bind.host == k;
  test_iff = λ k bind. eq_iff bind.host k;
}

abbrev pub by_name : Keyed String Bind
by_name = record {
  key = λ bind. bind.name;
  test = λ k bind. bind.name == k;
  test_iff = λ k bind. eq_iff bind.name k;
}

-- The part of net/url's URL that is read.
pub record Url : Type 0 where
  pub scheme : String
  pub host : String

unfoldable pub first_or_empty : List String → String
first_or_empty [] = ""
first_or_empty (h ∷ hosts) = h

-- The host that the arguments ask for: the internal one where both sides are in one cluster.
unfoldable pub requested_host : BindAppArgs → Bool → Result String
unfolding first_or_empty
requested_host args internal_bind =
    if not (args.app_cluster_name == "") && internal_bind
    then (if first_or_empty args.app_internal_hosts == ""
        then err (validation "application internal hosts cannot be empty")
        else ok (first_or_empty args.app_internal_hosts))
    else if first_or_empty args.app_hosts == ""
    then err (validation "application hosts cannot be empty")
    else ok (first_or_empty args.app_hosts)

-- net/url's Parse is a parameter.
module _ (parse : String → Result Url) where
  -- The host that is stored: of a tcp URL the host alone.
  unfoldable pub bound_host : BindAppArgs → Bool → Result String
  unfolding requested_host
  bound_host args internal_bind = do
    host ← requested_host args internal_bind
    u ← parse host
    reject_if (u.scheme == "udp") (validation "Unsupported host: %q")
    ok (if u.scheme == "tcp" then u.host else host)

  unfoldable pub bind_app : BindAppArgs → Bool → RpaasInstanceSpec → Result RpaasInstanceSpec
  unfolding bound_host
  bind_app args internal_bind spec = do
    host ← bound_host args internal_bind
    reject_if (is_some (find by_host host spec.binds))
        (conflict "instance already bound with this application")
    ok (record spec { binds = spec.binds ++ record { name = args.app_name; host = host } ∷ [] })

-- The first bind with the name is cut out.
unfoldable pub unbind_app : String → RpaasInstanceSpec → Result RpaasInstanceSpec
unbind_app app_name spec =
    if app_name == ""
    then err (validation "must specify an app name")
    else elim (remove by_name app_name spec.binds) [
      | none ↦ err (not_found "app not found in instance bind list")
      | some rest ↦ ok (record spec { binds = rest })
    ]

-- `internalBind` is computed from the instance that was read.
unfoldable pub bind_app_to :
    (String → Result Url) → BindAppArgs → RpaasInstance → Result RpaasInstance
unfolding belongs_to_cluster
bind_app_to parse args i =
    in_spec (bind_app parse args (belongs_to_cluster i args.app_cluster_name)) i

module _ (m : Manager) where
  unfoldable pub manager_bind_app :
      (String → Result Url) → String → BindAppArgs → m.cli.World → Result (Unit {0}) × m.cli.World
  manager_bind_app parse instance_name args = modify m instance_name (bind_app_to parse args)

  unfoldable pub manager_unbind_app :
      String → String → m.cli.World → Result (Unit {0}) × m.cli.World
  manager_unbind_app instance_name app_name = modify m instance_name (in_spec (unbind_app app_name))
