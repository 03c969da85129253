-- ===== src/Scaling/Valid.antt =====
-- What UpdateAutoscale accepts.
use rpaas_operator.Prelude.{
  String, ◌≡◌, ◌≢◌, ◌↔◌, ◌⊎◌, Bool, true, false, List, [], ◌∷◌, Option, none, some, arith, eq_iff,
}
use rpaas_operator.Prelude.Int.{ℤ, pos, ◌≤ℤ◌, ◌<ℤ◌}
use rpaas_operator.Result.{is_ok, >>-is_ok_iff}
use rpaas_operator.Api.{Behavior, ScaleDown}
use rpaas_operator.Scaling.{
  Autoscale, AutoscaleWindow, is_given_nonpositive, validate_window, validate_windows,
  validate_scale_down, validate_behavior, validate_autoscale,
}

-- Positive, if it is given.
abbrev pub IsPositive : Option ℤ → Type 0
IsPositive none = Unit
IsPositive (some x) = pos 0 <ℤ x

-- A positive minimum up to the maximum, and two different cron expressions.
abbrev pub IsWindowValid : (String → Bool) → ℤ → AutoscaleWindow → Type 0
IsWindowValid is_cron max_replicas s =
    (pos 0 <ℤ s.min_replicas)
    × (s.min_replicas ≤ℤ max_replicas)
    × ((s.start ≢ "") × (is_cron s.start ≡ true))
    × ((s.finish ≢ "") × (is_cron s.finish ≡ true))
    × (s.start ≢ s.finish)

abbrev pub AreWindowsValid : (String → Bool) → ℤ → List AutoscaleWindow → Type 0
AreWindowsValid is_cron max_replicas [] = Unit
AreWindowsValid is_cron max_replicas (s ∷ rest) =
    IsWindowValid is_cron max_replicas s × AreWindowsValid is_cron max_replicas rest

abbrev pub IsScaleDownValid : Option ScaleDown → Type 0
IsScaleDownValid none = Unit
IsScaleDownValid (some d) =
    IsPositive d.units_policy_value
    × IsPositive d.percent_policy_value
    × IsPositive d.stabilization_window_seconds

abbrev pub IsBehaviorValid : Option Behavior → Type 0
IsBehaviorValid none = Unit
IsBehaviorValid (some b) = IsScaleDownValid b.scale_down

-- Bounds in order, something to scale by, and everything that is given positive.
pub record IsAutoscaleValid (is_cron : String → Bool) (a : Autoscale) : Type 0 where
  pub minimum : pos 0 <ℤ a.min_replicas
  pub bounds : a.min_replicas ≤ℤ a.max_replicas
  pub reason : (a.cpu ≢ none) ⊎ ((a.memory ≢ none) ⊎ ((a.rps ≢ none) ⊎ (a.schedules ≢ [])))
  pub cpu : IsPositive a.cpu
  pub memory : IsPositive a.memory
  pub rps : IsPositive a.rps
  pub windows : AreWindowsValid is_cron a.max_replicas a.schedules
  pub behavior : IsBehaviorValid a.behavior

is_given_nonpositive_iff : (o : Option ℤ) → (is_given_nonpositive o ≡ false) ↔ IsPositive o
is_given_nonpositive_iff none = ground arith
is_given_nonpositive_iff (some x) = ground arith

module _ (is_cron : String → Bool) where
  validate_window_iff :
      (max_replicas : ℤ) (s : AutoscaleWindow)
      → (is_ok (validate_window is_cron max_replicas s) ≡ true)
        ↔ IsWindowValid is_cron max_replicas s
  unfolding validate_window
  validate_window_iff max_replicas s =
      ground (arith, eq_iff s.start "", eq_iff s.finish "", eq_iff s.start s.finish)

  validate_windows_iff :
      (max_replicas : ℤ) (ss : List AutoscaleWindow)
      → (is_ok (validate_windows is_cron max_replicas ss) ≡ true)
        ↔ AreWindowsValid is_cron max_replicas ss
  unfolding validate_windows
  validate_windows_iff max_replicas [] = ground arith
  validate_windows_iff max_replicas (s ∷ ss) =
      let (to, from) =
        >>-is_ok_iff (validate_window is_cron max_replicas s)
          (validate_windows is_cron max_replicas ss) in
      let (one, back) = validate_window_iff max_replicas s in
      let (rest, again) = validate_windows_iff max_replicas ss in
      (λ h. let (p, q) = to h in (one p, rest q), λ (p, q). from (back p, again q))

  validate_scale_down_iff :
      (o : Option ScaleDown) → (is_ok (validate_scale_down is_cron o) ≡ true) ↔ IsScaleDownValid o
  unfolding validate_scale_down
  validate_scale_down_iff none = ground arith
  validate_scale_down_iff (some d) = ground (
    arith,
    is_given_nonpositive_iff d.units_policy_value,
    is_given_nonpositive_iff d.percent_policy_value,
    is_given_nonpositive_iff d.stabilization_window_seconds,
  )

  validate_behavior_iff :
      (o : Option Behavior) → (is_ok (validate_behavior is_cron o) ≡ true) ↔ IsBehaviorValid o
  unfolding validate_behavior
  validate_behavior_iff none = ground arith
  validate_behavior_iff (some b) = validate_scale_down_iff b.scale_down

  -- The windows and the behavior apart from the rest.
  validate_autoscale_parts :
      (a : Autoscale)
      → (is_ok (validate_autoscale is_cron a) ≡ true) ↔ (
          (pos 0 <ℤ a.min_replicas)
          × (a.min_replicas ≤ℤ a.max_replicas)
          × ((a.cpu ≢ none) ⊎ ((a.memory ≢ none) ⊎ ((a.rps ≢ none) ⊎ (a.schedules ≢ []))))
          × ((is_given_nonpositive a.cpu ≡ false)
              × (is_given_nonpositive a.memory ≡ false)
              × (is_given_nonpositive a.rps ≡ false))
          × (is_ok (validate_windows is_cron a.max_replicas a.schedules) ≡ true)
          × (is_ok (validate_behavior is_cron a.behavior) ≡ true))
  unfolding validate_autoscale
  validate_autoscale_parts a = ground arith

  -- validateAutoscale accepts exactly the valid settings.
  pub validate_autoscale_iff :
      (a : Autoscale) → (is_ok (validate_autoscale is_cron a) ≡ true) ↔ IsAutoscaleValid is_cron a
  validate_autoscale_iff a =
      let (to, from) = validate_autoscale_parts a in
      let (windows, windows_back) = validate_windows_iff a.max_replicas a.schedules in
      let (behavior, behavior_back) = validate_behavior_iff a.behavior in
      (
        λ h.
            let (minimum, bounds, reason, (cpu, memory, rps), w, b) = to h in
            record {
              minimum = minimum;
              bounds = bounds;
              reason = reason;
              cpu = (is_given_nonpositive_iff a.cpu).0 cpu;
              memory = (is_given_nonpositive_iff a.memory).0 memory;
              rps = (is_given_nonpositive_iff a.rps).0 rps;
              windows = windows w;
              behavior = behavior b;
            },
        λ v. from (
          v.minimum,
          v.bounds,
          v.reason,
          (
            (is_given_nonpositive_iff a.cpu).1 v.cpu,
            (is_given_nonpositive_iff a.memory).1 v.memory,
            (is_given_nonpositive_iff a.rps).1 v.rps,
          ),
          windows_back v.windows,
          behavior_back v.behavior,
        ),
      )
