-- ===== src/Controller/Disruption/Convergence.antt =====
-- The disruption budget under one reconciliation after the other.
use mathlib.Core.Path.{subst}
use rpaas_operator.Prelude.{
  String, ◌==◌, ◌≡◌, refl, sym, ap, ◌∙◌, inl, inr, Bool, true, false, ◌&&◌, Bool-cases, [], ◌∷◌,
  Option, none, some, arith, eq_refl, if◌then◌else◌,
}
use rpaas_operator.Prelude.Keyed.{find}
use rpaas_operator.Result.{Result, ok, err}
use rpaas_operator.Api.{RpaasInstance, StringMap}
use rpaas_operator.Labels.{by_label}
use rpaas_operator.Controller.{Object, Objects, reconcile_object}
use rpaas_operator.Controller.Settled.{ObjectLaws, IsSettling, IsHealthy}
use rpaas_operator.Controller.Runs.{Left, leaves, settles, goes_through}
use rpaas_operator.Manager.{is_api_missing}
use rpaas_operator.Errors.{Error}
use rpaas_operator.Controller.Disruption.{
  DisruptionSpec, Apimachinery, same_entry, agree_at, labels_eq, is_disruption_budget_enabled,
  new_pdb, revise_pdb, reconcile_pdb,
}

same_entry_self : (o : Option (String × String)) → same_entry o o ≡ true
unfolding same_entry
same_entry_self none = refl
same_entry_self (some a) = eq_refl a.1

pub agree_at_self : (a entries : StringMap) → agree_at a a entries ≡ true
unfolding agree_at
agree_at_self a [] = refl
agree_at_self a (entry ∷ entries) =
    ground (arith, same_entry_self (find by_label entry.0 a), agree_at_self a entries)

labels_eq_self : (a : StringMap) → labels_eq a a ≡ true
unfolding labels_eq
labels_eq_self a = ground (arith, agree_at_self a a)

module _ {World : Type 0} (k8s : Apimachinery) (pdbs : Objects World DisruptionSpec)
    (derivative : (s : DisruptionSpec) → k8s.deep_derivative s s ≡ true) (i : RpaasInstance)
    (pod_selector : String) where
  abbrev run : World → Result Bool × World
  run = reconcile_pdb k8s pdbs i pod_selector

  -- A budget with the spec and the labels wanted is left alone.
  wanted_unchanged :
      (new y : Object DisruptionSpec)
      → y.spec ≡ new.spec
      → y.labels ≡ new.labels
      → revise_pdb k8s new y ≡ none
  unfolding revise_pdb
  wanted_unchanged new y s l = rw (s, l, derivative new.spec, labels_eq_self new.labels) refl

  revise_pdb-some :
      (new old x : Object DisruptionSpec)
      → revise_pdb k8s new old ≡ some x
      → x ≡ record new { resource_version = old.resource_version }
  unfolding revise_pdb
  revise_pdb-some new old x r =
      given (k8s.deep_derivative old.spec new.spec && labels_eq old.labels new.labels) _ x r
    where
      given :
          (b : Bool) (a x : Object DisruptionSpec) → (if b then none else some a) ≡ some x → x ≡ a
      given true a x h = cc
      given false a x h = cc

  pdb-IsSettling :
      (new : Object DisruptionSpec)
      → IsSettling pdbs (λ d. d) new new (revise_pdb k8s new) (revise_pdb k8s new)
  pdb-IsSettling new = record {
    same_key = (refl, refl);
    keeps_key = λ old x ns n r.
        let same = revise_pdb-some new old x r in
        (ap (λ o. o.namespace) same, ap (λ o. o.name) same);
    created = λ y s l. wanted_unchanged new y s l;
    revised = λ old x y r s l.
        let same = revise_pdb-some new old x r in
        wanted_unchanged new y (s ∙ ap (λ o. o.spec) same) (l ∙ ap (λ o. o.labels) same);
    kept = λ old r. r;
  }

  run_idle : (w : World) → (pod_selector == "") ≡ true → run w ≡ (ok false, w)
  unfolding reconcile_pdb
  run_idle w t = rw (t, reconcile_pdb) refl

  run_frame :
      (new : Object DisruptionSpec) (w : World)
      → new_pdb k8s i pod_selector ≡ ok new
      → (pod_selector == "") ≡ false
      → run w
        ≡ reconcile_object pdbs (is_disruption_budget_enabled i) false new (revise_pdb k8s new) w
  unfolding reconcile_pdb
  run_frame new w made t = rw (t, made, reconcile_pdb) refl

  revise_pdb-none :
      (new y : Object DisruptionSpec)
      → revise_pdb k8s new y ≡ none
      → (k8s.deep_derivative y.spec new.spec ≡ true) × (labels_eq y.labels new.labels ≡ true)
  unfolding revise_pdb
  revise_pdb-none new y r =
      both (k8s.deep_derivative y.spec new.spec) (labels_eq y.labels new.labels) _ r
    where
      both :
          (a b : Bool) (x : Object DisruptionSpec)
          → (if a && b then none else some x) ≡ none
          → (a ≡ true) × (b ≡ true)
      both true true x h = (refl, refl)
      both true false x h = cc
      both false b x h = cc

  -- The budget that is wanted is there, or none is if none is wanted.
  abbrev pub IsAsWanted : Bool → Object DisruptionSpec → World → Type 0
  IsAsWanted true new v =
      (y : Object DisruptionSpec) × (pdbs.get new.namespace new.name v ≡ ok y)
      × (k8s.deep_derivative y.spec new.spec ≡ true)
      × (labels_eq y.labels new.labels ≡ true)
  IsAsWanted false new v =
      (e : Error) × (pdbs.get new.namespace new.name v ≡ err e) × (is_api_missing e ≡ true)

  -- If the pods have a selector that can be read, a reconciliation of the disruption budget that returns no
  -- error leaves a budget under its key, with the same labels as the one that newPDB makes, and with a spec
  -- that DeepDerivative, called with the stored one first, takes for that one's; or it leaves no budget, if
  -- the instance enables none. The server is assumed to keep a budget as it is sent.
  pub reconcile_pdb-IsAsWanted :
      (laws : ObjectLaws pdbs (λ d. d)) (new : Object DisruptionSpec) (w : World) (b : Bool)
      → (pod_selector == "") ≡ false
      → new_pdb k8s i pod_selector ≡ ok new
      → (run w).0 ≡ ok b
      → IsAsWanted (is_disruption_budget_enabled i) new (run w).1
  reconcile_pdb-IsAsWanted laws new w b given made =
      subst (λ s. s.0 ≡ ok b → IsAsWanted (is_disruption_budget_enabled i) new s.1)
        (sym (run_frame new w made given))
        λ passed.
          let left =
            leaves pdbs (λ d. d) laws (is_disruption_budget_enabled i) new new (revise_pdb k8s new)
              (revise_pdb k8s new) (pdb-IsSettling new) false false w b passed in
          wanted (is_disruption_budget_enabled i) _ left
    where
      wanted :
          (on : Bool) (v : World)
          → Left pdbs
              (λ d. d)
              laws
              on
              new
              new
              (revise_pdb k8s new)
              (revise_pdb k8s new)
              (pdb-IsSettling new)
              false
              false
              w
              on
              v
          → IsAsWanted on new v
      wanted true v (y, g, n) = let (a, b) = revise_pdb-none new y n in (y, g, a, b)
      wanted false v l = l

  -- On a server that answers every call, and keeps a budget as it is sent, a reconciliation of the disruption
  -- budget returns no error if the selector of the pods can be read; the next one reports no change and
  -- writes nothing.
  pub reconcile_pdb-settles :
      (laws : ObjectLaws pdbs (λ d. d)) (new : Object DisruptionSpec) (w : World)
      → IsHealthy pdbs
      → new_pdb k8s i pod_selector ≡ ok new
      → (b : Bool) × ((run w).0 ≡ ok b) × (run (run w).1 ≡ (ok false, (run w).1))
  reconcile_pdb-settles laws new w healthy made = elim (Bool-cases (pod_selector == "")) [
    | inl t ↦
        subst (λ s. (b : Bool) × (s.0 ≡ ok b) × (run s.1 ≡ (ok false, s.1))) (sym (run_idle w t))
          (false, refl, run_idle w t)
    | inr t ↦
        let on = is_disruption_budget_enabled i in
        let steady = pdb-IsSettling new in
        let (b, passed) =
          goes_through pdbs (λ d. d) laws on new new (revise_pdb k8s new) (revise_pdb k8s new)
            steady false false w healthy in
        subst (λ s. (b : Bool) × (s.0 ≡ ok b) × (run s.1 ≡ (ok false, s.1)))
          (sym (run_frame new w made t))
          (
            b,
            passed,
            run_frame new _ made t
                ∙ settles pdbs (λ d. d) laws on new new (revise_pdb k8s new) (revise_pdb k8s new)
                    steady false false w b passed,
          )
  ]
