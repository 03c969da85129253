-- ===== src/Controller/Autoscaler/Laws.antt =====
-- The autoscaler that follows from the settings that the API has accepted.
use rpaas_operator.Prelude.{
  String, ◌≡◌, ◌≢◌, refl, ap, ◌∙◌, Bool, true, false, List, [], ◌∷◌, ◌++◌, map, some, length, arith,
  ltb, if◌then◌else◌,
}
use rpaas_operator.Prelude.Int.{pos, ◌≤ℤ◌, ◌<ℤ◌}
use rpaas_operator.Result.{ok}
use rpaas_operator.Api.{RpaasInstance}
use rpaas_operator.Scaling.{Autoscale, AutoscaleWindow, stored_window, with_autoscale}
use rpaas_operator.Scaling.Valid.{IsAutoscaleValid}
use rpaas_operator.Scaling.Laws.{stored, with_autoscale-stored, with_autoscale-effect}
use rpaas_operator.Controller.Autoscaler.Specs.{Metric, container_resource, resource, Nginx}
use rpaas_operator.Controller.Autoscaler.Wanted.{
  is_autoscale_valid, is_autoscale_enabled, is_keda_handling_hpa, new_hpa, build_hpa_metrics,
  build_nginx_container_metrics, when_given,
}

some_schedule : (ss : List AutoscaleWindow) → ss ≢ [] → ltb 0 (length (map stored_window ss)) ≡ true
some_schedule [] d = absurd (d refl)
some_schedule (s ∷ ss) d = ground arith

stored-enabled :
    (is_cron : String → Bool) (a : Autoscale)
    → IsAutoscaleValid is_cron a
    → is_autoscale_valid (some (stored a)) ≡ true
unfolding is_autoscale_valid
stored-enabled is_cron a valid =
    ground (arith, valid.minimum, valid.bounds, valid.reason, some_schedule a.schedules)

-- The metrics by which a HorizontalPodAutoscaler can scale for these settings: of the container nginx,
-- if the pod has other containers.
abbrev pub metrics_for : RpaasInstance → Autoscale → List Metric
metrics_for i a =
    if ltb 0 (length i.spec.pod_template.containers)
    then when_given a.cpu (container_resource "cpu" "nginx")
      ++ when_given a.memory (container_resource "memory" "nginx")
    else when_given a.cpu (resource "cpu") ++ when_given a.memory (resource "memory")

module _ (k : RpaasInstance) (a : Autoscale) (set : k.spec.autoscale ≡ some (stored a)) where
  set-enabled :
      (is_cron : String → Bool)
      → IsAutoscaleValid is_cron a
      → k.spec.shutdown ≡ false
      → is_autoscale_enabled k.spec ≡ true
  unfolding is_autoscale_enabled
  set-enabled is_cron valid up = rw (up, set, stored-enabled is_cron a valid)

  set-keda : is_keda_handling_hpa k ≡ false
  unfolding is_keda_handling_hpa
  set-keda = rw set (ground arith)

  set-hpa :
      (nginx : Nginx)
      → ((new_hpa k nginx).spec.min_replicas ≡ some a.min_replicas)
        × ((new_hpa k nginx).spec.max_replicas ≡ a.max_replicas)
        × ((new_hpa k nginx).spec.metrics ≡ metrics_for k a)
  unfolding new_hpa build_hpa_metrics build_nginx_container_metrics
  set-hpa nginx = rw (set, new_hpa) (refl, refl, refl)

-- If UpdateAutoscale accepts the settings for an instance that is not shut down, then the reconciler takes
-- the autoscaler of the instance for enabled, and for a HorizontalPodAutoscaler, not one of KEDA; that one
-- gets the minimum and the maximum that were given, which are positive and in order, and a metric for the
-- CPU target and for the memory target if they were given, and no other one. The reconciler reads the
-- instance merged with its flavors, of which it is assumed that they leave the autoscaler and the shutdown
-- of the stored instance as they are.
pub new_hpa-with_autoscale :
    (is_cron : String → Bool) (a : Autoscale) (i j merged : RpaasInstance) (nginx : Nginx)
    → with_autoscale is_cron a i ≡ ok j
    → i.spec.shutdown ≡ false
    → merged.spec.autoscale ≡ j.spec.autoscale
    → merged.spec.shutdown ≡ j.spec.shutdown
    → (is_autoscale_enabled merged.spec ≡ true)
      × (is_keda_handling_hpa merged ≡ false)
      × (((new_hpa merged nginx).spec.min_replicas ≡ some a.min_replicas)
          × ((new_hpa merged nginx).spec.max_replicas ≡ a.max_replicas)
          × (pos 0 <ℤ a.min_replicas)
          × (a.min_replicas ≤ℤ a.max_replicas))
      × ((new_hpa merged nginx).spec.metrics ≡ metrics_for merged a)
new_hpa-with_autoscale is_cron a i j merged nginx h up same still =
    let (valid, _, _) = with_autoscale-effect is_cron a i j h in
    let now = with_autoscale-stored is_cron a i j h in
    let set : merged.spec.autoscale ≡ some (stored a) = same ∙ ap (λ x. x.spec.autoscale) now in
    let running : merged.spec.shutdown ≡ false = still ∙ ap (λ x. x.spec.shutdown) now ∙ up in
    let (low, high, metrics) = set-hpa merged a set nginx in
    (
      set-enabled merged a set is_cron valid running,
      set-keda merged a set,
      (low, high, valid.minimum, valid.bounds),
      metrics,
    )

-- An instance that is shut down has no autoscaler enabled, whatever its settings are.
pub shutdown-disabled :
    (i : RpaasInstance) → i.spec.shutdown ≡ true → is_autoscale_enabled i.spec ≡ false
unfolding is_autoscale_enabled
shutdown-disabled i down = rw down
