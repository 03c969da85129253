-- ===== src/Controller/Autoscaler/Wanted.antt =====
-- controllers/controller.go: the autoscaler that an instance wants, as a HorizontalPodAutoscaler (newHPA)
-- and as a ScaledObject of KEDA (newKEDAScaledObject).
use rpaas_operator.Prelude.{
  String, ◌==◌, Bool, false, not, ◌&&◌, ◌||◌, List, [], ◌∷◌, ◌++◌, map, Option, none, some, is_some,
  length, ltb, if◌then◌else◌, itoa,
}
use rpaas_operator.Prelude.Int.{ℤ, pos, ltb_ℤ}
use rpaas_operator.Errors.{plain}
use rpaas_operator.Result.{Result, ok, err, ◌>>=◌}
use rpaas_operator.Api.{
  RpaasInstance, RpaasInstanceSpec, RpaasInstanceAutoscaleSpec, AutoscaleKedaOptions, Behavior,
  ScheduledWindow, StringMap,
}
use rpaas_operator.Labels.{base_labels}
use rpaas_operator.Controller.{Object}
use rpaas_operator.Controller.Autoscaler.Specs.{
  Metric, container_resource, resource, ScalingPolicy, ScalingRules, HpaSpec, ScaleTrigger,
  ScaledObjectSpec, Nginx,
}

-- `x != nil && *x > 0`
abbrev pub is_given_positive : Option ℤ → Bool
is_given_positive none = false
is_given_positive (some x) = ltb_ℤ (pos 0) x

unfoldable pub is_autoscale_valid : Option RpaasInstanceAutoscaleSpec → Bool
is_autoscale_valid none = false
is_autoscale_valid (some a) =
    is_given_positive a.min_replicas
    && (ltb_ℤ (pos 0) a.max_replicas
        && (is_some a.target_cpu_utilization_percentage
            || (is_some a.target_memory_utilization_percentage
                || (is_some a.target_requests_per_second || ltb 0 (length a.schedules)))))

unfoldable pub is_autoscale_enabled : RpaasInstanceSpec → Bool
unfolding is_autoscale_valid
is_autoscale_enabled spec = not spec.shutdown && is_autoscale_valid spec.autoscale

unfoldable pub is_keda_handling_hpa : RpaasInstance → Bool
is_keda_handling_hpa i = elim i.spec.autoscale [
  | none ↦ false
  | some a ↦
      (is_some a.target_requests_per_second || ltb 0 (length a.schedules))
      && elim a.keda_options [ none ↦ false | some k ↦ k.enabled ]
]

-- One item, if the pointer is set.
abbrev pub when_given : {A : Type 0} → Option ℤ → (ℤ → A) → List A
when_given none f = []
when_given (some x) f = f x ∷ []

-- The rules for scaling down; the source writes them out in newHPA and in newKEDAScaledObject.
unfoldable pub scale_down_rules : Option Behavior → Option ScalingRules
scale_down_rules none = none
scale_down_rules (some b) = elim b.scale_down [
  | none ↦ none
  | some d ↦
      let policy : String → ℤ → ScalingPolicy =
        λ type value. record { type = type; value = value; period_seconds = pos 60 } in
      let policies =
        when_given d.units_policy_value (policy "Pods")
        ++ when_given d.percent_policy_value (policy "Percent") in
      if is_some d.stabilization_window_seconds || ltb 0 (length policies)
      then some (record {
        stabilization_window_seconds = d.stabilization_window_seconds;
        policies = policies;
      })
      else none
]

unfoldable pub behavior_of : Option RpaasInstanceAutoscaleSpec → Option ScalingRules
unfolding scale_down_rules
behavior_of none = none
behavior_of (some a) = scale_down_rules a.behavior

unfoldable pub build_nginx_container_metrics : RpaasInstance → List Metric
build_nginx_container_metrics i = elim i.spec.autoscale [
  | none ↦ []
  | some a ↦
      when_given a.target_cpu_utilization_percentage (container_resource "cpu" "nginx")
      ++ when_given a.target_memory_utilization_percentage (container_resource "memory" "nginx")
]

unfoldable pub build_hpa_metrics : RpaasInstance → List Metric
unfolding build_nginx_container_metrics
build_hpa_metrics i =
    if ltb 0 (length i.spec.pod_template.containers)
    then build_nginx_container_metrics i
    else elim i.spec.autoscale [
      | none ↦ []
      | some a ↦
          when_given a.target_cpu_utilization_percentage (resource "cpu")
          ++ when_given a.target_memory_utilization_percentage (resource "memory")
    ]

-- The first deployment of the nginx, if it has a name, and else the nginx itself.
unfoldable pub target_resource_name : Nginx → String
target_resource_name nginx = elim nginx.deployments [
  | [] ↦ nginx.name
  | n ∷ _ ↦ if n == "" then nginx.name else n
]

unfoldable pub new_hpa : RpaasInstance → Nginx → Object HpaSpec
unfolding build_hpa_metrics target_resource_name behavior_of base_labels
new_hpa i nginx =
    let own_minimum : Option ℤ = elim i.spec.autoscale [ none ↦ none | some a ↦ a.min_replicas ] in
    record {
      name = i.name;
      namespace = i.namespace;
      labels = base_labels i [];
      annotations = [];
      resource_version = "";
      spec = record {
        target = target_resource_name nginx;
        min_replicas = elim own_minimum [ none ↦ i.spec.replicas | some n ↦ some n ];
        max_replicas = elim i.spec.autoscale [ none ↦ pos 0 | some a ↦ a.max_replicas ];
        metrics = build_hpa_metrics i;
        behavior = behavior_of i.spec.autoscale;
      };
    }

unfoldable pub build_metadata_for_scaled_object : RpaasInstance → String → StringMap
build_metadata_for_scaled_object i value =
    if ltb 0 (length i.spec.pod_template.containers)
    then ("value", value) ∷ ("containerName", "nginx") ∷ []
    else ("value", value) ∷ []

unfoldable pub resource_trigger : RpaasInstance → String → ℤ → ScaleTrigger
unfolding build_metadata_for_scaled_object itoa
resource_trigger i type target = record {
  type = type;
  metric_type = "Utilization";
  metadata = build_metadata_for_scaled_object i (itoa target);
  authentication_ref = none;
}

-- The trigger of a scheduled window; its time zone is the one of the options if it has none.
unfoldable pub cron_trigger : Option AutoscaleKedaOptions → ScheduledWindow → ScaleTrigger
unfolding itoa
cron_trigger options s =
    let default_timezone : String = elim options [ none ↦ "" | some k ↦ k.timezone ] in
    record {
      type = "cron";
      metric_type = "";
      metadata =
          ("desiredReplicas", itoa s.min_replicas)
          ∷ ("start", s.start)
          ∷ ("end", s.finish)
          ∷ ("timezone", if s.timezone == "" then default_timezone else s.timezone)
          ∷ [];
      authentication_ref = none;
    }

-- text/template is a parameter: what a template renders at an instance.
module _ (render : String → RpaasInstance → Result String) where
  -- The trigger on the requests per second, if there is such a target.
  unfoldable pub prometheus_triggers :
      RpaasInstance → RpaasInstanceAutoscaleSpec → Result (List ScaleTrigger)
  unfolding itoa
  prometheus_triggers i a = elim a.target_requests_per_second [
    | none ↦ ok []
    | some rps ↦ elim a.keda_options [
      | none ↦ err (plain "keda options not provided")
      | some k ↦ do
        query ← render k.rps_query_template i
        ok (
            record {
              type = "prometheus";
              metric_type = "";
              metadata =
                  ("serverAddress", k.prometheus_server_address)
                  ∷ ("query", query)
                  ∷ ("threshold", itoa rps)
                  ∷ [];
              authentication_ref = k.rps_authentication_ref;
            }
            ∷ [])
    ]
  ]

  unfoldable pub triggers_of : RpaasInstance → Result (List ScaleTrigger)
  unfolding prometheus_triggers resource_trigger cron_trigger
  triggers_of i = elim i.spec.autoscale [
    | none ↦ ok []
    | some a ↦ do
      prometheus ← prometheus_triggers i a
      ok (
          when_given a.target_cpu_utilization_percentage (resource_trigger i "cpu")
          ++ (when_given a.target_memory_utilization_percentage (resource_trigger i "memory")
              ++ (prometheus ++ map (cron_trigger a.keda_options) a.schedules)))
  ]

  unfoldable pub new_keda_scaled_object : RpaasInstance → Nginx → Result (Object ScaledObjectSpec)
  unfolding triggers_of behavior_of base_labels
  new_keda_scaled_object i nginx = do
    triggers ← triggers_of i
    let options : Option AutoscaleKedaOptions = elim i.spec.autoscale [
      | none ↦ none
      | some a ↦ a.keda_options
    ]
    ok (record {
      name = i.name;
      namespace = i.namespace;
      labels = base_labels i [];
      annotations = ("scaledobject.keda.sh/transfer-hpa-ownership", "true") ∷ [];
      resource_version = "";
      spec = record {
        target = elim nginx.deployments [ [] ↦ i.name | n ∷ _ ↦ n ];
        min_replica_count = elim i.spec.autoscale [ none ↦ none | some a ↦ a.min_replicas ];
        max_replica_count = elim i.spec.autoscale [ none ↦ none | some a ↦ some a.max_replicas ];
        polling_interval = elim options [ none ↦ none | some k ↦ k.polling_interval ];
        triggers = triggers;
        hpa_name = i.name;
        behavior = behavior_of i.spec.autoscale;
      };
    })
