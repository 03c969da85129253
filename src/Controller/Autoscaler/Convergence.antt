-- ===== src/Controller/Autoscaler/Convergence.antt =====
-- The autoscaler under one reconciliation after the other.
use mathlib.Core.Path.{subst, subst₂}
use rpaas_operator.Prelude.{
  String, ◌≡◌, inl, inr, refl, sym, ap, ◌∙◌, Bool, true, false, none, some, arith, Bool-cases,
}
use rpaas_operator.Prelude.Equality.{is_yes, yes_is_yes}
use rpaas_operator.Errors.{Error}
use rpaas_operator.Result.{Result-cases, Result, ok, err}
use rpaas_operator.Api.{RpaasInstance}
use rpaas_operator.Controller.{Object, Objects, reconcile_object, report}
use rpaas_operator.Controller.Settled.{ObjectLaws, IsSettling}
use rpaas_operator.Controller.Runs.{settles, report-ok, run-keeps}
use rpaas_operator.Controller.Autoscaler.Specs.{
  HpaSpec, hpa_spec-discrete, ScaledObjectSpec, scaled_object_spec-discrete, Nginx,
}
use rpaas_operator.Controller.Autoscaler.Wanted.{
  is_autoscale_enabled, is_keda_handling_hpa, new_hpa, new_keda_scaled_object,
}
use rpaas_operator.Controller.Autoscaler.{
  revise_hpa, revise_scaled_object, reconcile_keda, clean_up_keda_scaled_object, reconcile_native,
  reconcile_hpa,
}

is_yes_iff {ℓ} : {A : Type ℓ} (d : Dec A) → is_yes d ≡ true → A
is_yes_iff (yes a) h = a
is_yes_iff (no n) h = cc

-- Nothing is to be revised exactly if the spec is the one wanted.
revise_hpa-none : (x y : Object HpaSpec) → y.spec ≡ x.spec → revise_hpa x y ≡ none
unfolding revise_hpa
revise_hpa-none x y e = rw (yes_is_yes (hpa_spec-discrete x.spec y.spec) (sym e))

revise_hpa-some :
    (x old new : Object HpaSpec) → revise_hpa x old ≡ some new → new ≡ record old { spec = x.spec }
unfolding revise_hpa
revise_hpa-some x old new h = ground (arith, h)

revise_scaled-none :
    (x y : Object ScaledObjectSpec) → y.spec ≡ x.spec → revise_scaled_object x y ≡ none
unfolding revise_scaled_object
revise_scaled-none x y e = rw (yes_is_yes (scaled_object_spec-discrete x.spec y.spec) (sym e))

revise_scaled-some :
    (x old new : Object ScaledObjectSpec)
    → revise_scaled_object x old ≡ some new
    → new ≡ record x { resource_version = old.resource_version }
unfolding revise_scaled_object
revise_scaled-some x old new h = ground (arith, h)

module _ {World : Type 0} where
  hpa-IsSettling :
      (hpas : Objects World HpaSpec) (admit : HpaSpec → HpaSpec) (x : Object HpaSpec)
      → admit x.spec ≡ x.spec
      → IsSettling hpas admit x x (revise_hpa x) (revise_hpa x)
  hpa-IsSettling hpas admit x same = record {
    same_key = (refl, refl);
    keeps_key = λ old y ns name r.
        let new = revise_hpa-some x old y r in
        (ap (λ o. o.namespace) new ∙ ns, ap (λ o. o.name) new ∙ name);
    created = λ y s l. revise_hpa-none x y (s ∙ same);
    revised = λ old z y r s l.
        revise_hpa-none x y (s ∙ ap (λ o. admit o.spec) (revise_hpa-some x old z r) ∙ same);
    kept = λ old r. r;
  }

  scaled-IsSettling :
      (scaled : Objects World ScaledObjectSpec) (admit : ScaledObjectSpec → ScaledObjectSpec)
      (x : Object ScaledObjectSpec)
      → admit x.spec ≡ x.spec
      → IsSettling scaled admit x x (revise_scaled_object x) (revise_scaled_object x)
  scaled-IsSettling scaled admit x same = record {
    same_key = (refl, refl);
    keeps_key = λ old y ns name r.
        let new = revise_scaled-some x old y r in (ap (λ o. o.namespace) new, ap (λ o. o.name) new);
    created = λ y s l. revise_scaled-none x y (s ∙ same);
    revised = λ old z y r s l.
        revise_scaled-none x y (s ∙ ap (λ o. admit o.spec) (revise_scaled-some x old z r) ∙ same);
    kept = λ old r. r;
  }

-- Writes of the one kind change no read of the other.
pub record AreApart {World : Type 0} (scaled : Objects World ScaledObjectSpec)
    (hpas : Objects World HpaSpec) : Type 0 where
  pub created :
      (ns n : String) (x : Object HpaSpec) (w : World)
      → scaled.get ns n (hpas.create x w).1 ≡ scaled.get ns n w
  pub updated :
      (ns n : String) (x : Object HpaSpec) (w : World)
      → scaled.get ns n (hpas.update x w).1 ≡ scaled.get ns n w
  pub deleted :
      (ns n : String) (x : Object HpaSpec) (w : World)
      → scaled.get ns n (hpas.delete x w).1 ≡ scaled.get ns n w

module _ {World : Type 0} (scaled : Objects World ScaledObjectSpec) (hpas : Objects World HpaSpec)
    (admit_scaled : ScaledObjectSpec → ScaledObjectSpec) (admit_hpa : HpaSpec → HpaSpec)
    (laws_scaled : ObjectLaws scaled admit_scaled) (laws_hpa : ObjectLaws hpas admit_hpa)
    (apart : AreApart scaled hpas) (render : String → RpaasInstance → Result String)
    (i : RpaasInstance) (nginx : Nginx) where
  -- No scaled object can be read.
  abbrev IsAway : World → Type 0
  IsAway w = (e : Error) × (scaled.get i.namespace i.name w ≡ err e)

  clean_up_again :
      (w : World) → IsAway w → clean_up_keda_scaled_object scaled hpas render i w ≡ (ok false, w)
  unfolding clean_up_keda_scaled_object
  clean_up_again w (e, g) = rw (g, clean_up_keda_scaled_object)

  clean_up-IsAway :
      (w : World) (b : Bool)
      → (clean_up_keda_scaled_object scaled hpas render i w).0 ≡ ok b
      → IsAway (clean_up_keda_scaled_object scaled hpas render i w).1
  clean_up-IsAway w b = elim (Result-cases (scaled.get i.namespace i.name w)) [
    | inr (e, g) ↦ subst (λ r. r.0 ≡ ok b → IsAway r.1) (sym (clean_up_again w (e, g))) λ p. (e, g)
    | inl (so, g) ↦
        subst (λ r. r.0 ≡ ok b → IsAway r.1) (sym (deletes so g))
          λ p.
            let (done, world) = report-ok (scaled.delete so w) b p in
            let (e, gone, _) = laws_scaled.delete_same so w done in
            let (ns, name) = laws_scaled.get_key i.namespace i.name so w g in
            subst IsAway (sym world)
              (e, subst₂ (λ a c. scaled.get a c (scaled.delete so w).1 ≡ err e) ns name gone)
  ]
    where
      deletes :
          (so : Object ScaledObjectSpec)
          → scaled.get i.namespace i.name w ≡ ok so
          → clean_up_keda_scaled_object scaled hpas render i w ≡ report (scaled.delete so w)
      deletes so g = unfold clean_up_keda_scaled_object in rw (g, clean_up_keda_scaled_object)

  abbrev native : Bool → World → Result Bool × World
  native cleaned =
      reconcile_object hpas (is_autoscale_enabled i.spec) cleaned (new_hpa i nginx)
        (revise_hpa (new_hpa i nginx))

  native_settles :
      (r : Result Bool × World)
      → admit_hpa (new_hpa i nginx).spec ≡ (new_hpa i nginx).spec
      → ((b : Bool) → r.0 ≡ ok b → IsAway r.1)
      → (b : Bool) → (reconcile_native scaled hpas render i nginx r).0 ≡ ok b
      → reconcile_native scaled hpas render i nginx (
          clean_up_keda_scaled_object scaled hpas render i
            (reconcile_native scaled hpas render i nginx r).1)
        ≡ (ok false, (reconcile_native scaled hpas render i nginx r).1)
  unfolding reconcile_native
  native_settles (err e, v) same away b p = cc
  native_settles (ok cleaned, v) same away b p =
      let settling = hpa-IsSettling hpas admit_hpa (new_hpa i nginx) same in
      let revise = revise_hpa (new_hpa i nginx) in
      let (e, g) = away cleaned refl in
      let there =
        run-keeps hpas admit_hpa laws_hpa (is_autoscale_enabled i.spec) (new_hpa i nginx)
          (new_hpa i nginx) revise revise settling cleaned false v IsAway (e, g)
          (λ x. (e, apart.created i.namespace i.name x v ∙ g))
          (λ x. (e, apart.updated i.namespace i.name x v ∙ g))
          (λ x. (e, apart.deleted i.namespace i.name x v ∙ g)) in
      subst (λ t. reconcile_native scaled hpas render i nginx t ≡ (ok false, (native cleaned v).1))
        (sym (clean_up_again (native cleaned v).1 there))
        (settles hpas admit_hpa laws_hpa (is_autoscale_enabled i.spec) (new_hpa i nginx)
          (new_hpa i nginx) revise revise settling cleaned false v b p)

  keda_settles :
      (w : World)
      → ((x : Object ScaledObjectSpec)
          → new_keda_scaled_object render i nginx ≡ ok x
          → admit_scaled x.spec ≡ x.spec)
      → (b : Bool) → (reconcile_keda scaled hpas render i nginx w).0 ≡ ok b
      → reconcile_keda scaled hpas render i nginx (reconcile_keda scaled hpas render i nginx w).1
        ≡ (ok false, (reconcile_keda scaled hpas render i nginx w).1)
  keda_settles w same b = elim (Result-cases (new_keda_scaled_object render i nginx)) [
    | inr (e, n) ↦
        subst (λ t. t.0 ≡ ok b → reconcile_keda scaled hpas render i nginx t.1 ≡ (ok false, t.1))
          (sym (refused e n)) λ p. cc
    | inl (x, n) ↦
        subst (λ t. t.0 ≡ ok b → reconcile_keda scaled hpas render i nginx t.1 ≡ (ok false, t.1))
          (sym (runs x n w))
          λ p.
            runs x n _
            ∙ settles scaled admit_scaled laws_scaled (is_autoscale_enabled i.spec) x x
                (revise_scaled_object x) (revise_scaled_object x)
                (scaled-IsSettling scaled admit_scaled x (same x n)) false false w b p
  ]
    where
      refused :
          (e : Error)
          → new_keda_scaled_object render i nginx ≡ err e
          → reconcile_keda scaled hpas render i nginx w ≡ (err e, w)
      refused e n = unfold reconcile_keda in rw (n, reconcile_keda)

      runs :
          (x : Object ScaledObjectSpec)
          → new_keda_scaled_object render i nginx ≡ ok x
          → (v : World)
          → reconcile_keda scaled hpas render i nginx v
            ≡ reconcile_object scaled
                (is_autoscale_enabled i.spec)
                false
                x
                (revise_scaled_object x)
                v
      runs x n v = unfold reconcile_keda in rw (n, reconcile_keda)

  -- If the server admits the specs that the instance wants as they are sent, then after a run of
  -- reconcileHPA that returned no error the next one, for the same instance and nginx, reports no change
  -- and writes nothing: with KEDA or without it, with an autoscaler or after one was removed.
  pub reconcile_hpa-settles :
      (w : World)
      → admit_hpa (new_hpa i nginx).spec ≡ (new_hpa i nginx).spec
      → ((x : Object ScaledObjectSpec)
          → new_keda_scaled_object render i nginx ≡ ok x
          → admit_scaled x.spec ≡ x.spec)
      → (b : Bool) → (reconcile_hpa scaled hpas render i nginx w).0 ≡ ok b
      → reconcile_hpa scaled hpas render i nginx (reconcile_hpa scaled hpas render i nginx w).1
        ≡ (ok false, (reconcile_hpa scaled hpas render i nginx w).1)
  reconcile_hpa-settles w same_hpa same_scaled b = elim (Bool-cases (is_keda_handling_hpa i)) [
    | inl t ↦
        subst (λ t. t.0 ≡ ok b → reconcile_hpa scaled hpas render i nginx t.1 ≡ (ok false, t.1))
          (sym (by_keda t w)) λ p. by_keda t _ ∙ keda_settles w same_scaled b p
    | inr t ↦
        subst (λ t. t.0 ≡ ok b → reconcile_hpa scaled hpas render i nginx t.1 ≡ (ok false, t.1))
          (sym (natively t w))
          λ p.
            natively t _
            ∙ native_settles (clean_up_keda_scaled_object scaled hpas render i w) same_hpa
                (λ c q. clean_up-IsAway w c q) b p
  ]
    where
      by_keda :
          is_keda_handling_hpa i ≡ true
          → (v : World)
          → reconcile_hpa scaled hpas render i nginx v ≡ reconcile_keda scaled hpas render i nginx v
      by_keda t v = unfold reconcile_hpa in rw (t, reconcile_hpa)

      natively :
          is_keda_handling_hpa i ≡ false
          → (v : World)
          → reconcile_hpa scaled hpas render i nginx v
            ≡ reconcile_native scaled hpas render i nginx
                (clean_up_keda_scaled_object scaled hpas render i v)
      natively t v = unfold reconcile_hpa in rw (t, reconcile_hpa)
