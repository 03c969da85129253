-- ===== src/Manager.antt =====
-- internal/pkg/rpaas/k8s.go: the manager, how it finds an instance, and the frame of its methods:
-- read the instance, change a copy of it, send the patch.
pub mod Frame
use Prim.Native.String
use rpaas_operator.Prelude.{String, Bool, true, false, if◌then◌else◌, ◌==◌}
use rpaas_operator.Errors.{Error, api, is_missing, not_found, plain}
use rpaas_operator.Result.{Result, ok, err, ◌>>=◌}
use rpaas_operator.Api.{RpaasInstance}
use rpaas_operator.Client.{RpaasConfig, Client}

abbrev pub default_namespace : String
default_namespace = "rpaasv2"

pub record Manager : Type 1 where
  pub cli : Client
  pub cluster_name : String
  pub pool_name : String
  pub config : RpaasConfig

unfoldable pub get_service_name : RpaasConfig → String
get_service_name config =
    if config.service_name == "" then default_namespace else config.service_name

-- k8sErrors.IsNotFound
abbrev pub is_api_missing : Error → Bool
is_api_missing (api is_missing) = true
is_api_missing _ = false

-- What a read in the service's own namespace gives: a missing object is the manager's own error.
or_not_found : Result RpaasInstance → Result RpaasInstance
or_not_found (ok i) = ok i
or_not_found (err e) =
    if is_api_missing e then err (not_found "rpaas instance %q not found") else err e

-- What a read in the pool's namespace gives, and the read that follows if the object is missing.
or_else_in : Result RpaasInstance → Result RpaasInstance → Result RpaasInstance
or_else_in (ok i) later = ok i
or_else_in (err e) later = if is_api_missing e then later else err e

module _ (m : Manager) where
  unfoldable pub pool_namespace : Result String
  unfolding get_service_name
  pool_namespace =
      if m.config.namespaced_instances
      then (if m.pool_name == ""
          then err (plain "no pool defined")
          else ok (String.◌++◌ (get_service_name m.config) (String.◌++◌ "-" m.pool_name)))
      else ok ""

  unfoldable pub get_instance : String → m.cli.World → Result RpaasInstance
  unfolding pool_namespace or_not_found or_else_in
  get_instance name w = do
    ns ← pool_namespace
    let in_service = or_not_found (m.cli.get (get_service_name m.config) name w)
    if ns == "" then in_service else or_else_in (m.cli.get ns name w) in_service

  -- `patchInstance(ctx, originalInstance, instance)` after a change `f` of the instance read.
  unfoldable pub modify :
      String
      → (RpaasInstance → Result RpaasInstance)
      → m.cli.World
      → Result (Unit {0}) × m.cli.World
  modify name f w = elim (get_instance name w) [
    | err e ↦ (err e, w)
    | ok i ↦ elim (f i) [ err e ↦ (err e, w) | ok j ↦ m.cli.patch i j w ]
  ]
