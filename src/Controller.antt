-- ===== src/Controller.antt =====
-- controllers/controller.go: how the reconciler of an instance keeps one generated object, be it a
-- secret, a cron job, a disruption budget or an autoscaler, as the instance wants it. The methods that
-- do so have one frame: read the object, then create, update or delete it, or leave it alone.
pub mod Settled
pub mod Runs
pub mod Cell
pub mod Autoscaler
pub mod Tickets
pub mod CronJob
pub mod Disruption
use rpaas_operator.Prelude.{String, Bool, true, false, Option, none, some, if◌then◌else◌}
use rpaas_operator.Result.{Result, ok, err}
use rpaas_operator.Api.{StringMap}
use rpaas_operator.Manager.{is_api_missing}

-- A Kubernetes object of one kind. The owner reference, which every generated object has to its
-- instance, is left out; `spec` is the part that the kind has of its own (`data` of a secret).
pub record Object (Spec : Type 0) : Type 0 where
  pub name : String
  pub namespace : String
  pub labels : StringMap
  pub annotations : StringMap
  pub resource_version : String
  pub spec : Spec

-- The Kubernetes client of controller-runtime on one kind of object, over the state of the cluster.
pub record Objects (World Spec : Type 0) : Type 0 where
  pub get : String → String → World → Result (Object Spec)
  pub create : Object Spec → World → Result (Unit {0}) × World
  pub update : Object Spec → World → Result (Unit {0}) × World
  pub delete : Object Spec → World → Result (Unit {0}) × World

-- `if err != nil { return false, err }; return true, nil` after a write.
unfoldable pub report {ℓ} : {W : Type ℓ} → Result (Unit {0}) × W → Result Bool × W
report (err e, w) = (err e, w)
report (ok _, w) = (ok true, w)

module _ {World Spec : Type 0} (o : Objects World Spec) where
  -- The rest of a method, after the read of the object: `revise` is the object to write over the one
  -- that was read, if that one has to change, and `unchanged` what the method returns if not.
  unfoldable pub after_read :
      (enabled unchanged : Bool)
      → Object Spec
      → (Object Spec → Option (Object Spec))
      → Result (Object Spec)
      → World
      → Result Bool × World
  unfolding report
  after_read enabled unchanged desired revise (err e) w =
      if is_api_missing e
      then (if enabled then report (o.create desired w) else (ok unchanged, w))
      else (err e, w)
  after_read enabled unchanged desired revise (ok old) w =
      if enabled
      then elim (revise old) [ none ↦ (ok unchanged, w) | some new ↦ report (o.update new w) ]
      else report (o.delete old w)

  unfoldable pub reconcile_object :
      (enabled unchanged : Bool)
      → Object Spec
      → (Object Spec → Option (Object Spec))
      → World
      → Result Bool × World
  unfolding after_read
  reconcile_object enabled unchanged desired revise w =
      after_read enabled unchanged desired revise (o.get desired.namespace desired.name w) w
