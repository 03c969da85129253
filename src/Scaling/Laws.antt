-- ===== src/Scaling/Laws.antt =====
-- internal/pkg/rpaas/autoscale.go and k8s.go: laws of UpdateAutoscale and Scale.
use mathlib.Core.Path.{subst}
use rpaas_operator.Prelude.{
  String, ◌≡◌, ◌↔◌, refl, sym, ap, ◌∙◌, Bool, true, false, not, ◌&&◌, List, [], ◌∷◌, map, Option,
  none, some, arith, is_none, if◌then◌else◌, Bool-cases, ◌⊎◌, inl, inr,
}
use rpaas_operator.Prelude.Int.{ℤ, pos, ltb_ℤ, eqb_ℤ, ◌≤ℤ◌, ◌<ℤ◌}
use rpaas_operator.Result.{ok, is_ok, >>=-eq-ok, reject_if-eq-ok}
use rpaas_operator.Api.{RpaasInstance, RpaasInstanceAutoscaleSpec, Behavior}
use rpaas_operator.Scaling.{
  Autoscale, AutoscaleWindow, validate_autoscale, with_replicas, with_autoscale, without_autoscale,
  autoscale_of, stored_window, stored_behavior, shown_window, shown_behavior,
}
use rpaas_operator.Scaling.Valid.{IsAutoscaleValid, validate_autoscale_iff}

-- The settings as they come back: a window without its timezone, and a behavior only where it has one
-- of its settings.
abbrev pub without_timezone : AutoscaleWindow → AutoscaleWindow
without_timezone s = record s { timezone = none }

abbrev pub come_back : Autoscale → Autoscale
come_back a = record a {
  schedules = map without_timezone a.schedules;
  behavior = shown_behavior a.behavior;
}

windows_back :
    (ss : List AutoscaleWindow) → map shown_window (map stored_window ss) ≡ map without_timezone ss
unfolding shown_window stored_window
windows_back [] = refl
windows_back (s ∷ ss) = ap (λ l. without_timezone s ∷ l) (windows_back ss)

behavior_back : (o : Option Behavior) → shown_behavior (stored_behavior o) ≡ shown_behavior o
unfolding shown_behavior stored_behavior
behavior_back none = refl
behavior_back (some b) = ground arith

-- The settings that are stored.
abbrev pub stored : Autoscale → RpaasInstanceAutoscaleSpec
stored a = record {
  max_replicas = a.max_replicas;
  min_replicas = some a.min_replicas;
  target_cpu_utilization_percentage = a.cpu;
  target_memory_utilization_percentage = a.memory;
  target_requests_per_second = a.rps;
  schedules = map stored_window a.schedules;
  keda_options = none;
  behavior = stored_behavior a.behavior;
}

pub with_autoscale-stored :
    (is_cron : String → Bool) (a : Autoscale) (i j : RpaasInstance)
    → with_autoscale is_cron a i ≡ ok j
    → j ≡ record i { spec = record (i.spec) { autoscale = some (stored a) } }
unfolding with_autoscale
with_autoscale-stored is_cron a i j h =
    let (u, valid, rest) = >>=-eq-ok (validate_autoscale is_cron a) _ h in cc

autoscale_of-stored : (a : Autoscale) → autoscale_of (some (stored a)) ≡ some (come_back a)
unfolding autoscale_of
autoscale_of-stored a = rw (windows_back a.schedules, behavior_back a.behavior)

-- A successful UpdateAutoscale was of valid settings, which are read as they were given, but for the
-- timezones of the windows and for a behavior without settings; nothing else has changed.
pub with_autoscale-effect :
    (is_cron : String → Bool) (a : Autoscale) (i j : RpaasInstance)
    → with_autoscale is_cron a i ≡ ok j
    → IsAutoscaleValid is_cron a
      × (autoscale_of j.spec.autoscale ≡ some (come_back a))
      × (j ≡ record i { spec = record (i.spec) { autoscale = j.spec.autoscale } })
unfolding with_autoscale
with_autoscale-effect is_cron a i j h =
    let (u, valid, rest) = >>=-eq-ok (validate_autoscale is_cron a) _ h in
    let now : some (stored a) ≡ j.spec.autoscale = cc in
    (
      (validate_autoscale_iff is_cron a).0 (rw valid),
      subst (λ o. autoscale_of o ≡ some (come_back a)) now (autoscale_of-stored a),
      cc,
    )

-- Scale is accepted exactly for an instance without an autoscaler and a number that is not negative.
pub with_replicas_iff :
    (n : ℤ) (i : RpaasInstance)
    → (is_ok (with_replicas n i) ≡ true) ↔ ((i.spec.autoscale ≡ none) × (pos 0 ≤ℤ n))
unfolding with_replicas
with_replicas_iff n i = ground arith

-- After a successful Scale the instance has the replicas asked for; it is not shut down if it had none
-- and now gets some, nor if it was not before; and the rest of it is as before.
pub with_replicas-effect :
    (n : ℤ) (i j : RpaasInstance)
    → with_replicas n i ≡ ok j
    → (j.spec.replicas ≡ some n)
      × ((i.spec.replicas ≡ some (pos 0)) → (pos 0 <ℤ n) → (j.spec.shutdown ≡ false))
      × ((i.spec.shutdown ≡ false) → (j.spec.shutdown ≡ false))
      × (j ≡ record i { spec = record (i.spec) { replicas = some n; shutdown = j.spec.shutdown } })
unfolding with_replicas
with_replicas-effect n i j h =
    let (_, h₁) = reject_if-eq-ok (not (is_none i.spec.autoscale)) _ _ h in
    let (_, h₂) = reject_if-eq-ok (ltb_ℤ n (pos 0)) _ _ h₁ in
    let down : (if ltb_ℤ (pos 0) n && was_zero i.spec.replicas then false else i.spec.shutdown)
        ≡ j.spec.shutdown =
      cc in
    (cc, λ z p. sym down ∙ rw z (ground (arith, p)), λ f. ground (arith, down), cc)
  where
    was_zero : Option ℤ → Bool
    was_zero o = elim o [ none ↦ false | some old ↦ eqb_ℤ old (pos 0) ]

-- After a successful UpdateAutoscale every Scale is refused, until DeleteAutoscale: then a Scale to
-- a number that is not negative is accepted.
pub with_replicas-with_autoscale :
    (is_cron : String → Bool) (a : Autoscale) (n : ℤ) (i j k : RpaasInstance)
    → with_autoscale is_cron a i ≡ ok j
    → without_autoscale j ≡ ok k
    → (is_ok (with_replicas n j) ≡ false) × ((pos 0 ≤ℤ n) → is_ok (with_replicas n k) ≡ true)
unfolding without_autoscale autoscale_of
with_replicas-with_autoscale is_cron a n i j k h d =
    let (_, shown, _) = with_autoscale-effect is_cron a i j h in
    let gone : k.spec.autoscale ≡ none = cc in
    (
      refused shown (Bool-cases (is_ok (with_replicas n j))),
      λ p. (with_replicas_iff n k).1 (gone, p),
    )
  where
    unset : {o : Option Autoscale} {s : Autoscale} → o ≡ none → o ≡ some s → ⊥
    unset p q = cc

    refused :
        autoscale_of j.spec.autoscale ≡ some (come_back a)
        → (is_ok (with_replicas n j) ≡ true) ⊎ (is_ok (with_replicas n j) ≡ false)
        → is_ok (with_replicas n j) ≡ false
    refused shown (inl t) = absurd (unset (ap autoscale_of ((with_replicas_iff n j).0 t).0) shown)
    refused shown (inr f) = f
