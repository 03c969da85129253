-- ===== src/Instances/Operations.antt =====
-- internal/pkg/rpaas/k8s.go: CreateInstance, UpdateInstance and DeleteInstance.
use rpaas_operator.Prelude.{
  String, ◌==◌, Bool, false, not, none, some, byte_length, ltb, if◌then◌else◌,
}
use rpaas_operator.Errors.{api, already_exists, validation, conflict, is_not_found_error}
use rpaas_operator.Result.{Result, ok, err, ◌>>=◌, ◌>>◌, reject_if, and_then}
use rpaas_operator.Api.{RpaasInstance}
use rpaas_operator.Flavors.{validate_flavors}
use rpaas_operator.Manager.{Manager, get_instance, get_service_name, modify, pool_namespace}
use rpaas_operator.Parameters.{get_flavors}
use rpaas_operator.Plans.{RpaasPlan, Catalog, get_plan, validate_plan}
use rpaas_operator.Instances.{CreateArgs, UpdateInstanceArgs, Packages, with_update, new_instance}

-- `err != nil && IsNotFoundError(err)` on the read of the plan: any other error is met again later.
unfoldable pub is_no_plan : Result RpaasPlan → Bool
is_no_plan (ok p) = false
is_no_plan (err e) = is_not_found_error e

-- What validateCreate makes of the read of an instance with the name.
unfoldable pub reject_known : Result RpaasInstance → Result (Unit {0})
reject_known (ok i) = err (conflict "rpaas instance named %q already exists")
reject_known (err e) = if is_not_found_error e then ok tt else err e

-- k8sErrors.IsAlreadyExists is no error of the creation of a namespace.
unfoldable pub or_exists {ℓ} : {W : Type ℓ} → Result (Unit {0}) × W → Result (Unit {0}) × W
or_exists (ok u, w) = (ok u, w)
or_exists (err (api already_exists), w) = (ok tt, w)
or_exists (err e, w) = (err e, w)

module _ (packages : Packages) (m : Manager) (cat : Catalog m.cli.World) where
  unfoldable pub validate_create : CreateArgs → m.cli.World → Result (Unit {0})
  unfolding get_plan is_no_plan reject_known get_flavors validate_flavors
  validate_create args w = do
    reject_if (args.name == "") (validation "name is required")
    reject_if (ltb 30 (byte_length args.name))
        (validation "instance name cannot length up than 30 chars")
    reject_if (not (packages.is_dns1123_label args.name))
        (validation "instance name is not valid: %s")
    reject_if (args.team == "") (validation "team name is required")
    reject_if (is_no_plan (get_plan m cat args.plan w)) (validation "invalid plan")
    reject_known (get_instance m args.name w)
    flavors ← get_flavors args.parameters args.tags
    validate_flavors (cat.list_flavors (get_service_name m.config) w) none flavors

  -- The namespace of a new instance, with what has to be created for it.
  unfoldable pub ensure_namespace_exists : m.cli.World → Result String × m.cli.World
  unfolding pool_namespace or_exists get_service_name
  ensure_namespace_exists w = elim (pool_namespace m) [
    | err e ↦ (err e, w)
    | ok pool ↦
        let ns = if pool == "" then get_service_name m.config else pool in
        and_then (or_exists (cat.create_namespace ns w)) λ _ v. (ok ns, v)
  ]

  -- What follows the read of the plan.
  unfoldable pub send_instance :
      CreateArgs → String → m.cli.World → Result RpaasPlan → Result (Unit {0}) × m.cli.World
  unfolding new_instance
  send_instance args ns w (err e) = (err e, w)
  send_instance args ns w (ok plan) =
      elim (new_instance packages m.config m.cluster_name args ns plan) [
        | err e ↦ (err e, w)
        | ok i ↦ cat.create i w
      ]

  unfoldable pub create_instance : CreateArgs → m.cli.World → Result (Unit {0}) × m.cli.World
  unfolding validate_create ensure_namespace_exists send_instance get_plan
  create_instance args w = elim (validate_create args w) [
    | err e ↦ (err e, w)
    | ok _ ↦
        and_then (ensure_namespace_exists w)
          λ ns v. send_instance args ns v (get_plan m cat args.plan v)
  ]

  unfoldable pub validate_update_instance_args :
      RpaasInstance → UpdateInstanceArgs → m.cli.World → Result (Unit {0})
  unfolding validate_plan get_flavors validate_flavors
  validate_update_instance_args i args w = do
    validate_plan m cat args.plan w
    flavors ← get_flavors args.parameters args.tags
    validate_flavors (cat.list_flavors (get_service_name m.config) w) (some i.spec.flavors) flavors

  unfoldable pub update_instance :
      String → UpdateInstanceArgs → m.cli.World → Result (Unit {0}) × m.cli.World
  unfolding validate_update_instance_args with_update
  update_instance instance_name args w =
      modify m instance_name
        (λ i.
          validate_update_instance_args i args w
          >> with_update packages m.config m.cluster_name args i)
        w

  unfoldable pub delete_instance : String → m.cli.World → Result (Unit {0}) × m.cli.World
  delete_instance name w = elim (get_instance m name w) [
    | err e ↦ (err e, w)
    | ok i ↦ cat.delete i w
  ]
