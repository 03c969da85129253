-- ===== src/Controller/Autoscaler.antt =====
-- controllers/controller.go: the reconciliation of the autoscaler of an instance (reconcileHPA), which is a
-- HorizontalPodAutoscaler or a ScaledObject of KEDA. In a comparison of specs a map is the list of its
-- entries, which both sides write in one order. Logs and events are left out.
pub mod Specs
pub mod Wanted
pub mod Laws
pub mod Convergence
mod Tests
use rpaas_operator.Prelude.{String, Bool, false, Option, none, some, if◌then◌else◌}
use rpaas_operator.Prelude.Equality.{is_yes}
use rpaas_operator.Result.{Result, ok, err}
use rpaas_operator.Api.{RpaasInstance}
use rpaas_operator.Controller.{Object, Objects, reconcile_object, report}
use rpaas_operator.Controller.Autoscaler.Specs.{
  HpaSpec, hpa_spec-discrete, ScaledObjectSpec, scaled_object_spec-discrete, Nginx,
}
use rpaas_operator.Controller.Autoscaler.Wanted.{
  is_autoscale_enabled, is_keda_handling_hpa, new_hpa, new_keda_scaled_object,
}

-- `desired.ResourceVersion = observed.ResourceVersion`, if the specs differ.
unfoldable pub revise_scaled_object :
    Object ScaledObjectSpec → Object ScaledObjectSpec → Option (Object ScaledObjectSpec)
revise_scaled_object desired observed =
    if is_yes (scaled_object_spec-discrete desired.spec observed.spec)
    then none
    else some (record desired { resource_version = observed.resource_version })

-- `observed.Spec = desired.Spec`, if the specs differ.
unfoldable pub revise_hpa : Object HpaSpec → Object HpaSpec → Option (Object HpaSpec)
revise_hpa desired observed =
    if is_yes (hpa_spec-discrete desired.spec observed.spec)
    then none
    else some (record observed { spec = desired.spec })

-- text/template is a parameter: what a template renders at an instance.
module _ {World : Type 0} (scaled : Objects World ScaledObjectSpec) (hpas : Objects World HpaSpec)
    (render : String → RpaasInstance → Result String) where
  unfoldable pub reconcile_keda : RpaasInstance → Nginx → World → Result Bool × World
  unfolding new_keda_scaled_object revise_scaled_object reconcile_object is_autoscale_enabled
  reconcile_keda i nginx w = elim (new_keda_scaled_object render i nginx) [
    | err e ↦ (err e, w)
    | ok desired ↦
        reconcile_object scaled (is_autoscale_enabled i.spec) false desired
          (revise_scaled_object desired) w
  ]

  -- Any error of the read is taken for a missing object.
  unfoldable pub clean_up_keda_scaled_object : RpaasInstance → World → Result Bool × World
  unfolding report
  clean_up_keda_scaled_object i w = elim (scaled.get i.namespace i.name w) [
    | err e ↦ (ok false, w)
    | ok so ↦ report (scaled.delete so w)
  ]

  -- What follows the clean-up.
  unfoldable pub reconcile_native :
      RpaasInstance → Nginx → Result Bool × World → Result Bool × World
  unfolding new_hpa revise_hpa reconcile_object is_autoscale_enabled
  reconcile_native i nginx (err e, w) = (err e, w)
  reconcile_native i nginx (ok cleaned_keda, w) =
      reconcile_object hpas (is_autoscale_enabled i.spec) cleaned_keda (new_hpa i nginx)
        (revise_hpa (new_hpa i nginx)) w

  unfoldable pub reconcile_hpa : RpaasInstance → Nginx → World → Result Bool × World
  unfolding reconcile_keda clean_up_keda_scaled_object reconcile_native is_keda_handling_hpa
  reconcile_hpa i nginx w =
      if is_keda_handling_hpa i
      then reconcile_keda i nginx w
      else reconcile_native i nginx (clean_up_keda_scaled_object i w)
