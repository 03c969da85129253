-- ===== src/Scaling/Tests.antt =====
-- Runs of the scaling operations, and the theorems at concrete inputs.
use rpaas_operator.Prelude.{
  String, ◌≡◌, ◌↔◌, refl, Bool, true, false, not, [], ◌∷◌, none, some, ◌==◌,
}
use rpaas_operator.Prelude.Int.{pos, ◌≤ℤ◌}
use rpaas_operator.Result.{ok, is_ok}
use rpaas_operator.Api.{RpaasInstance}
use rpaas_operator.Samples.{empty_spec, instance_with, web}
use rpaas_operator.Scaling.{
  Autoscale, validate_window, validate_windows, validate_behavior, validate_autoscale,
  with_replicas, with_autoscale, without_autoscale, autoscale_of, stored_window, stored_behavior,
}
use rpaas_operator.Scaling.Valid.{IsAutoscaleValid, validate_autoscale_iff}
use rpaas_operator.Scaling.Laws.{come_back, with_autoscale-effect, with_replicas_iff}

-- A parser that refuses the empty text only.
abbrev is_cron : String → Bool
is_cron s = not (s == "")

abbrev by_night : Autoscale
by_night = record {
  min_replicas = pos 1;
  max_replicas = pos 4;
  cpu = some (pos 80);
  memory = none;
  rps = none;
  schedules =
      record {
        min_replicas = pos 3;
        start = "0 20 * * *";
        finish = "0 6 * * *";
        timezone = some "America/Sao_Paulo";
      }
      ∷ [];
  behavior = none;
}

abbrev scaled : RpaasInstance
scaled = instance_with (record empty_spec {
  autoscale = some (record {
    max_replicas = pos 4;
    min_replicas = some (pos 1);
    target_cpu_utilization_percentage = some (pos 80);
    target_memory_utilization_percentage = none;
    target_requests_per_second = none;
    schedules =
        record { min_replicas = pos 3; start = "0 20 * * *"; finish = "0 6 * * *"; timezone = "" }
        ∷ [];
    keda_options = none;
    behavior = none;
  });
})

set_by_night : with_autoscale is_cron by_night web ≡ ok scaled
unfolding with_autoscale validate_autoscale validate_windows validate_window validate_behavior
    stored_window stored_behavior
set_by_night = refl

unset_by_night : without_autoscale scaled ≡ ok web
unfolding without_autoscale
unset_by_night = refl

with_autoscale-effect_example :
    IsAutoscaleValid is_cron by_night
    × (autoscale_of scaled.spec.autoscale ≡ some (come_back by_night))
    × (scaled ≡ record web { spec = record empty_spec { autoscale = scaled.spec.autoscale } })
with_autoscale-effect_example = with_autoscale-effect is_cron by_night web scaled set_by_night

validate_autoscale_iff_example :
    (is_ok (validate_autoscale is_cron by_night) ≡ true) ↔ IsAutoscaleValid is_cron by_night
validate_autoscale_iff_example = validate_autoscale_iff is_cron by_night

with_replicas_iff_example :
    (is_ok (with_replicas (pos 2) scaled) ≡ true)
    ↔ ((scaled.spec.autoscale ≡ none) × (pos 0 ≤ℤ pos 2))
with_replicas_iff_example = with_replicas_iff (pos 2) scaled

abbrev stopped : RpaasInstance
stopped = instance_with (record empty_spec { replicas = some (pos 0); shutdown = true })

abbrev started : RpaasInstance
started = instance_with (record empty_spec { replicas = some (pos 2); shutdown = false })

scale_out : with_replicas (pos 2) stopped ≡ ok started
unfolding with_replicas
scale_out = refl
