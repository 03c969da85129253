-- ===== src/Scaling.antt =====
-- internal/pkg/rpaas/autoscale.go and k8s.go: how many replicas an instance has: Scale, Start and
-- Stop, and UpdateAutoscale, GetAutoscale and DeleteAutoscale.
pub mod Laws
pub mod Valid
mod Tests
use rpaas_operator.Prelude.{
  String, ◌==◌, Bool, true, false, not, ◌&&◌, ◌||◌, List, [], ◌∷◌, map, Option, none, some, is_none,
  length, nat_eq, if◌then◌else◌,
}
use rpaas_operator.Prelude.Int.{ℤ, pos, ltb_ℤ, leb_ℤ, eqb_ℤ}
use rpaas_operator.Errors.{validation}
use rpaas_operator.Result.{Result, ok, err, ◌>>=◌, ◌>>◌, reject_if}
use rpaas_operator.Api.{
  RpaasInstance, RpaasInstanceAutoscaleSpec, ScheduledWindow, Behavior, ScaleDown,
}
use rpaas_operator.Manager.{Manager, get_instance, modify}

-- What Scale does to the instance that it has read.
unfoldable pub with_replicas : ℤ → RpaasInstance → Result RpaasInstance
with_replicas replicas i = do
  reject_if (not (is_none i.spec.autoscale)) (
      validation "cannot scale manual with autoscaler configured, please update autoscale settings")
  reject_if (ltb_ℤ replicas (pos 0)) (validation "invalid replicas number: %d")
  let was_zero : Bool = elim i.spec.replicas [ none ↦ false | some old ↦ eqb_ℤ old (pos 0) ]
  let starts = ltb_ℤ (pos 0) replicas && was_zero
  ok (record i {
    spec = record (i.spec) {
      replicas = some replicas;
      shutdown = if starts then false else i.spec.shutdown;
    };
  })

-- What Start and Stop do.
unfoldable pub with_shutdown : Bool → RpaasInstance → Result RpaasInstance
with_shutdown b i = ok (record i { spec = record (i.spec) { shutdown = b } })

-- pkg/rpaas/client/autogenerated: the request of the API. Its ScaleDown and Behavior have the fields
-- of the resource's.
pub record AutoscaleWindow : Type 0 where
  pub min_replicas : ℤ
  pub start : String
  pub finish : String
  pub timezone : Option String

pub record Autoscale : Type 0 where
  pub min_replicas : ℤ
  pub max_replicas : ℤ
  pub cpu : Option ℤ
  pub memory : Option ℤ
  pub rps : Option ℤ
  pub schedules : List AutoscaleWindow
  pub behavior : Option Behavior

-- `x != nil && *x <= 0`
abbrev pub is_given_nonpositive : Option ℤ → Bool
is_given_nonpositive none = false
is_given_nonpositive (some x) = leb_ℤ x (pos 0)

-- CronParser.Parse (robfig/cron) is a parameter: it accepts the expression.
module _ (is_cron : String → Bool) where
  unfoldable pub validate_window : ℤ → AutoscaleWindow → Result (Unit {0})
  validate_window max_replicas s = do
    reject_if (leb_ℤ s.min_replicas (pos 0))
        (validation "scheduled window min replicas must be greater than zero")
    reject_if (ltb_ℤ max_replicas s.min_replicas)
        (validation "scheduled window min replicas must be up to max replicas")
    reject_if (s.start == "") (validation "start cron expression not provided")
    reject_if (not (is_cron s.start))
        (validation "could not validate the scheduled window start cron expression %q: %s")
    reject_if (s.finish == "") (validation "end cron expression not provided")
    reject_if (not (is_cron s.finish))
        (validation "could not validate the scheduled window end cron expression %q: %s")
    reject_if (s.start == s.finish)
        (validation "start and end cannot have exactly the same cron expression")
    ok tt

  unfoldable pub validate_windows : ℤ → List AutoscaleWindow → Result (Unit {0})
  unfolding validate_window
  validate_windows max_replicas [] = ok tt
  validate_windows max_replicas (s ∷ rest) =
      validate_window max_replicas s >> validate_windows max_replicas rest

  unfoldable pub validate_scale_down : Option ScaleDown → Result (Unit {0})
  validate_scale_down none = ok tt
  validate_scale_down (some d) = do
    reject_if (is_given_nonpositive d.units_policy_value)
        (validation "units policy value must be greater than zero")
    reject_if (is_given_nonpositive d.percent_policy_value)
        (validation "percent policy value must be greater than zero")
    reject_if (is_given_nonpositive d.stabilization_window_seconds)
        (validation "stabilization window seconds must be greater than zero")
    ok tt

  -- The scale-down settings, if both pointers are set.
  unfoldable pub validate_behavior : Option Behavior → Result (Unit {0})
  unfolding validate_scale_down
  validate_behavior none = ok tt
  validate_behavior (some b) = validate_scale_down b.scale_down

  unfoldable pub validate_autoscale : Autoscale → Result (Unit {0})
  validate_autoscale a = do
    reject_if (leb_ℤ a.max_replicas (pos 0)) (validation "max replicas must be greater than zero")
    reject_if (leb_ℤ a.min_replicas (pos 0)) (validation "min replicas must be greater than zero")
    reject_if (ltb_ℤ a.max_replicas a.min_replicas)
        (validation "min replicas must not be greater than max replicas")
    reject_if
        (is_none a.cpu && (is_none a.memory && (is_none a.rps && nat_eq (length a.schedules) 0)))
        (validation "you must provide either CPU, memory, RPS targets, or schedules")
    reject_if (is_given_nonpositive a.cpu) (validation "CPU must be greater than zero")
    reject_if (is_given_nonpositive a.memory) (validation "memory must be greater than zero")
    reject_if (is_given_nonpositive a.rps) (validation "RPS must be greater than zero")
    validate_windows a.max_replicas a.schedules
    validate_behavior a.behavior

-- The window that is stored for a requested one.
unfoldable pub stored_window : AutoscaleWindow → ScheduledWindow
stored_window sw = record {
  min_replicas = sw.min_replicas;
  start = sw.start;
  finish = sw.finish;
  timezone = "";
}

-- The behavior that is stored for a requested one.
unfoldable pub stored_behavior : Option Behavior → Option Behavior
stored_behavior none = none
stored_behavior (some b) = elim b.scale_down [
  | none ↦ none
  | some d ↦ some (record {
    scale_down = some (record {
      stabilization_window_seconds = d.stabilization_window_seconds;
      units_policy_value = d.units_policy_value;
      percent_policy_value = d.percent_policy_value;
    });
  })
]

-- What UpdateAutoscale does to the instance that it has read: the old settings are replaced whole.
unfoldable pub with_autoscale : (String → Bool) → Autoscale → RpaasInstance → Result RpaasInstance
unfolding stored_window stored_behavior
with_autoscale is_cron a i = do
  validate_autoscale is_cron a
  let stored : RpaasInstanceAutoscaleSpec = record {
    max_replicas = a.max_replicas;
    min_replicas = some a.min_replicas;
    target_cpu_utilization_percentage = a.cpu;
    target_memory_utilization_percentage = a.memory;
    target_requests_per_second = a.rps;
    schedules = map stored_window a.schedules;
    keda_options = none;
    behavior = stored_behavior a.behavior;
  }
  ok (record i { spec = record (i.spec) { autoscale = some stored } })

-- What DeleteAutoscale does.
unfoldable pub without_autoscale : RpaasInstance → Result RpaasInstance
without_autoscale i = ok (record i { spec = record (i.spec) { autoscale = none } })

-- The window that is shown for a stored one.
unfoldable pub shown_window : ScheduledWindow → AutoscaleWindow
shown_window sw = record {
  min_replicas = sw.min_replicas;
  start = sw.start;
  finish = sw.finish;
  timezone = none;
}

-- A behavior is shown if it has one of the settings.
unfoldable pub shown_behavior : Option Behavior → Option Behavior
shown_behavior none = none
shown_behavior (some b) = elim b.scale_down [
  | none ↦ none
  | some d ↦
      if is_none d.stabilization_window_seconds
        && (is_none d.percent_policy_value && is_none d.units_policy_value)
      then none
      else some (record { scale_down = some d })
]

-- `getAutoscale`
unfoldable pub autoscale_of : Option RpaasInstanceAutoscaleSpec → Option Autoscale
unfolding shown_window shown_behavior
autoscale_of none = none
autoscale_of (some a) = some (record {
  min_replicas = elim a.min_replicas [ none ↦ pos 0 | some n ↦ n ];
  max_replicas = a.max_replicas;
  cpu = a.target_cpu_utilization_percentage;
  memory = a.target_memory_utilization_percentage;
  rps = a.target_requests_per_second;
  schedules = map shown_window a.schedules;
  behavior = shown_behavior a.behavior;
})

module _ (m : Manager) where
  unfoldable pub scale : String → ℤ → m.cli.World → Result (Unit {0}) × m.cli.World
  scale instance_name replicas = modify m instance_name (with_replicas replicas)

  unfoldable pub start : String → m.cli.World → Result (Unit {0}) × m.cli.World
  start instance_name = modify m instance_name (with_shutdown false)

  unfoldable pub stop : String → m.cli.World → Result (Unit {0}) × m.cli.World
  stop instance_name = modify m instance_name (with_shutdown true)

  unfoldable pub update_autoscale :
      (String → Bool) → String → Autoscale → m.cli.World → Result (Unit {0}) × m.cli.World
  update_autoscale is_cron instance_name a = modify m instance_name (with_autoscale is_cron a)

  unfoldable pub delete_autoscale : String → m.cli.World → Result (Unit {0}) × m.cli.World
  delete_autoscale instance_name = modify m instance_name without_autoscale

  unfoldable pub get_autoscale : String → m.cli.World → Result (Option Autoscale)
  unfolding autoscale_of
  get_autoscale instance_name w = do
    i ← get_instance m instance_name w
    ok (autoscale_of i.spec.autoscale)
