-- ===== src/Controller/Autoscaler/Tests.antt =====
-- Runs of the autoscaler, and the theorems at a cluster with at most one object of each kind.
use rpaas_operator.Prelude.{String, ◌≡◌, refl, true, false, [], ◌∷◌, Option, none, some}
use rpaas_operator.Prelude.Int.{pos, ◌≤ℤ◌, ◌<ℤ◌}
use rpaas_operator.Errors.{plain}
use rpaas_operator.Result.{Result, ok, err}
use rpaas_operator.Api.{RpaasInstance}
use rpaas_operator.Labels.{base_labels}
use rpaas_operator.Samples.{empty_spec, instance_with, web}
use rpaas_operator.Scaling.{
  Autoscale, with_autoscale, validate_autoscale, validate_windows, validate_behavior,
  stored_behavior,
}
use rpaas_operator.Controller.{Object, Objects, reconcile_object, after_read, report}
use rpaas_operator.Controller.Settled.{ObjectLaws}
use rpaas_operator.Controller.Cell.{cell, cell_laws}
use rpaas_operator.Controller.Autoscaler.Specs.{HpaSpec, ScaledObjectSpec, Nginx, resource}
use rpaas_operator.Controller.Autoscaler.Wanted.{
  is_autoscale_valid, is_autoscale_enabled, is_keda_handling_hpa, new_hpa, scale_down_rules,
  behavior_of, build_hpa_metrics, target_resource_name,
}
use rpaas_operator.Controller.Autoscaler.{
  reconcile_native, clean_up_keda_scaled_object, reconcile_hpa,
}
use rpaas_operator.Controller.Autoscaler.Laws.{metrics_for, new_hpa-with_autoscale}
use rpaas_operator.Controller.Autoscaler.Convergence.{AreApart, reconcile_hpa-settles}

-- A cluster with room for one object of either kind.
abbrev World : Type 0
World = Option (Object ScaledObjectSpec) × Option (Object HpaSpec)

abbrev scaled : Objects World ScaledObjectSpec
scaled = record {
  get = λ ns n (v, w). cell.get ns n v;
  create = λ x (v, w). let (r, v') = cell.create x v in (r, (v', w));
  update = λ x (v, w). let (r, v') = cell.update x v in (r, (v', w));
  delete = λ x (v, w). let (r, v') = cell.delete x v in (r, (v', w));
}

abbrev hpas : Objects World HpaSpec
hpas = record {
  get = λ ns n (v, w). cell.get ns n w;
  create = λ x (v, w). let (r, w') = cell.create x w in (r, (v, w'));
  update = λ x (v, w). let (r, w') = cell.update x w in (r, (v, w'));
  delete = λ x (v, w). let (r, w') = cell.delete x w in (r, (v, w'));
}

scaled_laws : ObjectLaws scaled (λ s. s)
scaled_laws = record {
  get_key = λ ns n x (v, w). cell_laws.get_key ns n x v;
  create_same = λ x (v, w). cell_laws.create_same x v;
  update_same = λ x (v, w). cell_laws.update_same x v;
  delete_same = λ x (v, w). cell_laws.delete_same x v;
}

hpas_laws : ObjectLaws hpas (λ s. s)
hpas_laws = record {
  get_key = λ ns n x (v, w). cell_laws.get_key ns n x w;
  create_same = λ x (v, w). cell_laws.create_same x w;
  update_same = λ x (v, w). cell_laws.update_same x w;
  delete_same = λ x (v, w). cell_laws.delete_same x w;
}

apart : AreApart scaled hpas
apart = record {
  created = λ ns n x w. refl;
  updated = λ ns n x w. refl;
  deleted = λ ns n x w. refl;
}

abbrev no_template : String → RpaasInstance → Result String
no_template template i = err (plain "unable to parse")

abbrev nginx : Nginx
nginx = record { name = "web"; deployments = "web-7" ∷ [] }

abbrev cpu : Autoscale
cpu = record {
  min_replicas = pos 2;
  max_replicas = pos 9;
  cpu = some (pos 75);
  memory = none;
  rps = none;
  schedules = [];
  behavior = some (record {
    scale_down = some (record {
      stabilization_window_seconds = none;
      units_policy_value = some (pos 1);
      percent_policy_value = none;
    });
  });
}

abbrev scaling : RpaasInstance
scaling = instance_with (record empty_spec {
  autoscale = some (record {
    max_replicas = pos 9;
    min_replicas = some (pos 2);
    target_cpu_utilization_percentage = some (pos 75);
    target_memory_utilization_percentage = none;
    target_requests_per_second = none;
    schedules = [];
    keda_options = none;
    behavior = cpu.behavior;
  });
})

set_cpu : with_autoscale (λ s. true) cpu web ≡ ok scaling
unfolding with_autoscale validate_autoscale validate_windows validate_behavior stored_behavior
set_cpu = refl

abbrev wanted : Object HpaSpec
wanted = record {
  name = "web";
  namespace = "rpaasv2";
  labels = base_labels web [];
  annotations = [];
  resource_version = "";
  spec = record {
    target = "web-7";
    min_replicas = some (pos 2);
    max_replicas = pos 9;
    metrics = resource "cpu" (pos 75) ∷ [];
    behavior = some (record {
      stabilization_window_seconds = none;
      policies = record { type = "Pods"; value = pos 1; period_seconds = pos 60 } ∷ [];
    });
  };
}

reconcile_hpa_run :
    reconcile_hpa scaled hpas no_template scaling nginx (none, none)
    ≡ (ok true, (none, some wanted))
unfolding reconcile_hpa is_keda_handling_hpa clean_up_keda_scaled_object reconcile_native
    reconcile_object after_read report is_autoscale_enabled is_autoscale_valid new_hpa behavior_of
    scale_down_rules build_hpa_metrics target_resource_name base_labels
reconcile_hpa_run = refl

-- The instance with a second container that a flavor has given to its pods.
abbrev merged : RpaasInstance
merged = record scaling {
  spec = record (scaling.spec) {
    pod_template = record (scaling.spec.pod_template) {
      containers = record { name = "logger" } ∷ [];
    };
  };
}

new_hpa-with_autoscale_example :
    (is_autoscale_enabled merged.spec ≡ true)
    × (is_keda_handling_hpa merged ≡ false)
    × (((new_hpa merged nginx).spec.min_replicas ≡ some (pos 2))
        × ((new_hpa merged nginx).spec.max_replicas ≡ pos 9)
        × (pos 0 <ℤ pos 2)
        × (pos 2 ≤ℤ pos 9))
    × ((new_hpa merged nginx).spec.metrics ≡ metrics_for merged cpu)
new_hpa-with_autoscale_example =
    new_hpa-with_autoscale (λ s. true) cpu web scaling merged nginx set_cpu refl refl refl

reconcile_hpa-settles_example :
    reconcile_hpa scaled hpas no_template scaling nginx
      (reconcile_hpa scaled hpas no_template scaling nginx (none, none)).1
    ≡ (ok false, (reconcile_hpa scaled hpas no_template scaling nginx (none, none)).1)
reconcile_hpa-settles_example =
    reconcile_hpa-settles scaled hpas (λ s. s) (λ s. s) scaled_laws hpas_laws apart no_template
      scaling nginx (none, none) refl (λ x made. refl) true
      (mathlib.Core.Path.ap (λ r. r.0) reconcile_hpa_run)
