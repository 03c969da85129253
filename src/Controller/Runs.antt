-- ===== src/Controller/Runs.antt =====
-- One run of the frame after the other: the ways that a run goes, and what the next run finds.
use mathlib.Core.Path.{subst, subst₂}
use rpaas_operator.Prelude.{
  ◌≡◌, inl, inr, refl, sym, ap, ◌∙◌, Bool, true, false, Option, none, some, Bool-cases,
  Option-cases,
}
use rpaas_operator.Errors.{Error}
use rpaas_operator.Result.{Result-cases, Result, ok, err}
use rpaas_operator.Manager.{is_api_missing}
use rpaas_operator.Controller.{Object, Objects, report, after_read, reconcile_object}
use rpaas_operator.Controller.Settled.{ObjectLaws, IsHealthy, IsSettling}

pub report-ok {ℓ} :
    {W : Type ℓ} (r : Result (Unit {0}) × W) (b : Bool)
    → (report r).0 ≡ ok b
    → (r.0 ≡ ok tt) × ((report r).1 ≡ r.1)
unfolding report
report-ok (err e, w) b h = cc
report-ok (ok tt, w) b h = (refl, refl)

report_done {ℓ} : {W : Type ℓ} (r : Result (Unit {0}) × W) → r.0 ≡ ok tt → (report r).0 ≡ ok true
unfolding report
report_done (err e, w) h = cc
report_done (ok tt, w) h = refl

report-world {ℓ} : {W : Type ℓ} (r : Result (Unit {0}) × W) → (report r).1 ≡ r.1
unfolding report
report-world (err e, w) = refl
report-world (ok tt, w) = refl

module _ {World Spec : Type 0} (o : Objects World Spec) (admit : Spec → Spec)
    (laws : ObjectLaws o admit) (enabled : Bool) (first next : Object Spec)
    (revise revise_next : Object Spec → Option (Object Spec))
    (settling : IsSettling o admit first next revise revise_next) where
  stays :
      (unchanged : Bool) (y : Object Spec) (w : World)
      → enabled ≡ true
      → o.get first.namespace first.name w ≡ ok y
      → revise_next y ≡ none
      → reconcile_object o enabled unchanged next revise_next w ≡ (ok unchanged, w)
  unfolding reconcile_object after_read
  stays unchanged y w on g n =
      let (ns, name) = settling.same_key in rw (ns, name) (rw g (rw (on, n)))

  stays_away :
      (unchanged : Bool) (e : Error) (w : World)
      → enabled ≡ false
      → o.get first.namespace first.name w ≡ err e
      → is_api_missing e ≡ true
      → reconcile_object o enabled unchanged next revise_next w ≡ (ok unchanged, w)
  unfolding reconcile_object after_read
  stays_away unchanged e w off g missing =
      let (ns, name) = settling.same_key in rw (ns, name) (rw g (rw (missing, off)))

  module _ (unchanged again : Bool) (w : World) where
    -- The six ways that a run goes.
    abbrev run : Result Bool × World
    run = reconcile_object o enabled unchanged first revise w

    module _ (old : Object Spec) (g : o.get first.namespace first.name w ≡ ok old) where
      run_deletes : enabled ≡ false → run ≡ report (o.delete old w)
      unfolding reconcile_object after_read
      run_deletes off = rw g (rw off)

      run_keeps : enabled ≡ true → revise old ≡ none → run ≡ (ok unchanged, w)
      unfolding reconcile_object after_read
      run_keeps on n = rw g (rw (on, n))

      run_updates :
          (x : Object Spec) → enabled ≡ true → revise old ≡ some x → run ≡ report (o.update x w)
      unfolding reconcile_object after_read
      run_updates x on r = rw g (rw (on, r))

    module _ (e : Error) (g : o.get first.namespace first.name w ≡ err e) where
      run_fails : is_api_missing e ≡ false → run ≡ (err e, w)
      unfolding reconcile_object after_read
      run_fails other = rw g (rw other)

      run_skips : is_api_missing e ≡ true → enabled ≡ false → run ≡ (ok unchanged, w)
      unfolding reconcile_object after_read
      run_skips missing off = rw g (rw (missing, off))

      run_creates : is_api_missing e ≡ true → enabled ≡ true → run ≡ report (o.create first w)
      unfolding reconcile_object after_read
      run_creates missing on = rw g (rw (missing, on))

    -- What is there after a run: the object, with nothing more to change in it, or none.
    abbrev pub Left : Bool → World → Type 0
    Left true v =
        (y : Object Spec) × (o.get first.namespace first.name v ≡ ok y) × (revise_next y ≡ none)
    Left false v =
        (e : Error) × (o.get first.namespace first.name v ≡ err e) × (is_api_missing e ≡ true)

    abbrev Leaves : Result Bool × World → Type 0
    Leaves t = (b : Bool) → t.0 ≡ ok b → Left enabled t.1

    there :
        (y : Object Spec) (v : World)
        → enabled ≡ true
        → o.get first.namespace first.name v ≡ ok y
        → revise_next y ≡ none
        → Left enabled v
    there y v on g n = rw on (y, g, n)

    away :
        (e : Error) (v : World)
        → enabled ≡ false
        → o.get first.namespace first.name v ≡ err e
        → is_api_missing e ≡ true
        → Left enabled v
    away e v off g missing = rw off (e, g, missing)

    after_write-Leaves :
        (r : Result (Unit {0}) × World) → (r.0 ≡ ok tt → Left enabled r.1) → Leaves (report r)
    unfolding report
    after_write-Leaves (err e, v) h b p = cc
    after_write-Leaves (ok tt, v) h b p = h refl

    -- A run that went through leaves the object as it is wanted.
    pub leaves : (b : Bool) → run.0 ≡ ok b → Left enabled run.1
    leaves = elim (Result-cases (o.get first.namespace first.name w)) [
      | inl (old, g) ↦
          let (ns, name) = laws.get_key first.namespace first.name old w g in
          elim (Bool-cases enabled) [
            | inr off ↦ subst Leaves (sym (run_deletes old g off)) (
                after_write-Leaves (o.delete old w) λ done.
                  let (e, gone, missing) = laws.delete_same old w done in
                  away e (o.delete old w).1 off
                    (subst₂ (λ a b. o.get a b (o.delete old w).1 ≡ err e) ns name gone) missing)
            | inl on ↦ elim (Option-cases (revise old)) [
              | inl n ↦
                  subst Leaves (sym (run_keeps old g on n))
                    λ b p. there old w on g (settling.kept old n)
              | inr (x, r) ↦ subst Leaves (sym (run_updates old g x on r)) (
                  after_write-Leaves (o.update x w) λ done.
                    let (y, stored, spec, labels) = laws.update_same x w done in
                    let (ns', name') = settling.keeps_key old x ns name r in
                    there y (o.update x w).1 on
                      (subst₂ (λ a b. o.get a b (o.update x w).1 ≡ ok y) ns' name' stored)
                      (settling.revised old x y r spec labels))
            ]
          ]
      | inr (e, g) ↦ elim (Bool-cases (is_api_missing e)) [
        | inr other ↦ subst Leaves (sym (run_fails e g other)) λ b p. cc
        | inl missing ↦ elim (Bool-cases enabled) [
          | inr off ↦ subst Leaves (sym (run_skips e g missing off)) λ b p. away e w off g missing
          | inl on ↦ subst Leaves (sym (run_creates e g missing on)) (
              after_write-Leaves (o.create first w) λ done.
                let (y, stored, spec, labels) = laws.create_same first w done in
                there y (o.create first w).1 on stored (settling.created y spec labels))
        ]
      ]
    ]

    -- A run that went through leaves the next one nothing to do.
    pub settles :
        (b : Bool)
        → run.0 ≡ ok b
        → reconcile_object o enabled again next revise_next run.1 ≡ (ok again, run.1)
    settles b p = elim (Bool-cases enabled) [
      | inl on ↦
          let (y, g, n) = subst (λ t. Left t run.1) on (leaves b p) in stays again y run.1 on g n
      | inr off ↦
          let (e, g, missing) = subst (λ t. Left t run.1) off (leaves b p) in
          stays_away again e run.1 off g missing
    ]

    abbrev Passes : Result Bool × World → Type 0
    Passes r = (b : Bool) × (r.0 ≡ ok b)

    -- A healthy server lets a run go through.
    pub goes_through : IsHealthy o → Passes run
    goes_through healthy = elim (Result-cases (o.get first.namespace first.name w)) [
      | inl (old, g) ↦ elim (Bool-cases enabled) [
        | inr off ↦ subst Passes (sym (run_deletes old g off)) (
          true,
          report_done (o.delete old w) (healthy.deletes first.namespace first.name old w g),
        )
        | inl on ↦ elim (Option-cases (revise old)) [
          | inl n ↦ subst Passes (sym (run_keeps old g on n)) (unchanged, refl)
          | inr (x, r) ↦
              let (ns, name) = laws.get_key first.namespace first.name old w g in
              let (ns', name') = settling.keeps_key old x ns name r in
              subst Passes (sym (run_updates old g x on r))
                (true, report_done (o.update x w) (healthy.updates x old w (rw (ns', name') g)))
        ]
      ]
      | inr (e, g) ↦
          let missing = healthy.reads first.namespace first.name w e g in
          elim (Bool-cases enabled) [
            | inr off ↦ subst Passes (sym (run_skips e g missing off)) (unchanged, refl)
            | inl on ↦
                subst Passes (sym (run_creates e g missing on))
                  (true, report_done (o.create first w) (healthy.creates first w e g))
          ]
    ]

    -- After a run that updated the object, it is there as the server admits it.
    pub reads_back :
        (old x : Object Spec) (b : Bool)
        → enabled ≡ true
        → o.get first.namespace first.name w ≡ ok old
        → revise old ≡ some x
        → run.0 ≡ ok b
        → (y : Object Spec) × (o.get first.namespace first.name run.1 ≡ ok y)
          × (y.spec ≡ admit x.spec)
    reads_back old x b on g r =
        subst
          (λ t.
            t.0 ≡ ok b
            → (y : Object Spec) × (o.get first.namespace first.name t.1 ≡ ok y)
              × (y.spec ≡ admit x.spec))
          (sym (run_updates old g x on r))
          λ p.
            let (done, after) = report-ok (o.update x w) b p in
            let (y, stored, spec, labels) = laws.update_same x w done in
            let (ns, name) = laws.get_key first.namespace first.name old w g in
            let (ns', name') = settling.keeps_key old x ns name r in
            (
              y,
              subst₂ (λ a v. o.get a first.name v ≡ ok y) ns' (sym after)
                  (subst (λ a. o.get x.namespace a (o.update x w).1 ≡ ok y) name' stored),
              spec,
            )

    -- And after a run that had nothing to change, it is there as it was.
    pub reads_back_kept :
        (old : Object Spec)
        → enabled ≡ true
        → o.get first.namespace first.name w ≡ ok old
        → revise old ≡ none
        → o.get first.namespace first.name run.1 ≡ ok old
    reads_back_kept old on g n =
        subst (λ t. o.get first.namespace first.name t.1 ≡ ok old) (sym (run_keeps old g on n)) g

    -- What each write of the object keeps, a run keeps.
    pub run-keeps :
        (P : World → Type 0)
        → P w
        → ((x : Object Spec) → P (o.create x w).1)
        → ((x : Object Spec) → P (o.update x w).1)
        → ((x : Object Spec) → P (o.delete x w).1)
        → P run.1
    run-keeps P here created updated deleted =
        elim (Result-cases (o.get first.namespace first.name w)) [
          | inl (old, g) ↦ elim (Bool-cases enabled) [
            | inr off ↦
                subst P
                  (sym (ap (λ r. r.1) (run_deletes old g off) ∙ report-world (o.delete old w)))
                  (deleted old)
            | inl on ↦ elim (Option-cases (revise old)) [
              | inl n ↦ subst P (sym (ap (λ r. r.1) (run_keeps old g on n))) here
              | inr (x, r) ↦
                  subst P
                    (sym (ap (λ r. r.1) (run_updates old g x on r) ∙ report-world (o.update x w)))
                    (updated x)
            ]
          ]
          | inr (e, g) ↦ elim (Bool-cases (is_api_missing e)) [
            | inr other ↦ subst P (sym (ap (λ r. r.1) (run_fails e g other))) here
            | inl missing ↦ elim (Bool-cases enabled) [
              | inr off ↦ subst P (sym (ap (λ r. r.1) (run_skips e g missing off))) here
              | inl on ↦
                  subst P
                    (sym (
                      ap (λ r. r.1) (run_creates e g missing on) ∙ report-world (o.create first w)))
                    (created first)
            ]
          ]
        ]
