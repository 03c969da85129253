-- ===== src/Controller/CronJob/Laws.antt =====
-- The name of the cron job, and the cron job under one reconciliation after the other.
use Prim.Native.String
use mathlib.Core.Path.{subst}
use text.Mathlib.TextLemmas.{nil-append, cons-append}
use rpaas_operator.Prelude.{
  ℕ, ◌+◌, ◌-◌, ◌≤◌, ◌<◌, ◌⊎◌, inl, inr, String, ◌≡◌, refl, sym, ap, ◌∙◌, inl, inr, Bool, true,
  false, Bool-cases, Option, none, some, leb, char_width, byte_length, arith, if◌then◌else◌,
}
use rpaas_operator.Result.{Result, ok}
use rpaas_operator.Api.{RpaasInstance}
use rpaas_operator.Controller.{Object, Objects, reconcile_object}
use rpaas_operator.Controller.Settled.{ObjectLaws, IsSettling, IsHealthy}
use rpaas_operator.Controller.Runs.{settles, goes_through}
use rpaas_operator.Controller.Tickets.{is_tls_session_ticket_enabled}
use rpaas_operator.Controller.CronJob.{
  CronJobSpec, Packages, take_bytes, name_for_cron_job, new_cron_job_for_session_tickets,
  revise_cron_job, reconcile_cron_job_for_session_tickets,
}

byte_length-append : (s t : String) → byte_length (String.◌++◌ s t) ≡ byte_length s + byte_length t
unfolding byte_length
byte_length-append String.[] t = rw (nil-append t) (omega arith)
byte_length-append (String.◌∷◌ c s) t =
    rw (cons-append c s t, byte_length-append s t, byte_length) (omega arith)

take_bytes_bound : (n : ℕ) (s : String) → byte_length (take_bytes n s) ≤ n
unfolding take_bytes byte_length
take_bytes_bound n String.[] = omega arith
take_bytes_bound n (String.◌∷◌ c s) =
    let rest = take_bytes_bound (n - char_width c) s in
    elim (Bool-cases (leb (char_width c) n)) [
      | inl t ↦ rw (t, take_bytes, byte_length) (fits (char_width c) _ n t rest)
      | inr t ↦ rw (t, take_bytes, byte_length) (omega arith)
    ]
  where
    fits : (w m k : ℕ) → leb w k ≡ true → m ≤ k - w → w + m ≤ k
    fits w m k t h = ground (arith, t, h)

name_for_cron_job-bound :
    (sha256 : String → String) (name : String) → byte_length (name_for_cron_job sha256 name) ≤ 52
unfolding name_for_cron_job
name_for_cron_job-bound sha256 name =
    let digest = take_bytes 10 (sha256 name) in
    ground (
      arith,
      take_bytes_bound 10 (sha256 name),
      take_bytes_bound (52 - byte_length digest) name,
      byte_length-append (take_bytes (52 - byte_length digest) name) digest,
    )

name_for_cron_job-short :
    (sha256 : String → String) (name : String)
    → byte_length name ≤ 52
    → name_for_cron_job sha256 name ≡ name
unfolding name_for_cron_job
name_for_cron_job-short sha256 name h = ground (arith, h)

-- The cron job has a name of at most 52 bytes, as Kubernetes asks for; it is the name of the instance and
-- the suffix, unless the name of the instance has more than 36 of them.
pub new_cron_job-name :
    (packages : Packages) (i : RpaasInstance)
    → (byte_length (new_cron_job_for_session_tickets packages i).name ≤ 52)
      × (((new_cron_job_for_session_tickets packages i).name
            ≡ String.◌++◌ i.name "-session-tickets")
          ⊎ (36 < byte_length i.name))
unfolding new_cron_job_for_session_tickets byte_length
new_cron_job-name packages i =
    let name = String.◌++◌ i.name "-session-tickets" in
    let total = byte_length-append i.name "-session-tickets" in
    (
      name_for_cron_job-bound packages.sha256 name,
      elim (Bool-cases (leb (byte_length i.name) 36)) [
        | inl t ↦
            inl (name_for_cron_job-short packages.sha256 name (fits _ _ (ground (arith, t)) total))
        | inr t ↦ inr (ground (arith, t))
      ],
    )
  where
    fits : (m n : ℕ) → m ≤ 36 → n ≡ m + 16 → n ≤ 52
    fits m n h p = omega arith

module _ {World : Type 0} (packages : Packages) (jobs : Objects World CronJobSpec)
    (admit : CronJobSpec → CronJobSpec)
    (derivative : (s : CronJobSpec) → packages.deep_derivative s (admit s) ≡ true)
    (i : RpaasInstance) where
  abbrev new : Object CronJobSpec
  new = new_cron_job_for_session_tickets packages i

  abbrev revise : Object CronJobSpec → Option (Object CronJobSpec)
  revise = revise_cron_job packages new

  abbrev run : World → Result Bool × World
  run = reconcile_cron_job_for_session_tickets packages jobs i

  admitted_unchanged : (y : Object CronJobSpec) → y.spec ≡ admit new.spec → revise y ≡ none
  unfolding revise_cron_job
  admitted_unchanged y s = rw (s, derivative new.spec) refl

  revise-some :
      (old x : Object CronJobSpec)
      → revise old ≡ some x
      → x ≡ record new { resource_version = old.resource_version }
  unfolding revise_cron_job
  revise-some old x r = given (packages.deep_derivative new.spec old.spec) _ x r
    where
      given : (b : Bool) (a x : Object CronJobSpec) → (if b then none else some a) ≡ some x → x ≡ a
      given true a x h = cc
      given false a x h = cc

  cron_job-IsSettling : IsSettling jobs admit new new revise revise
  cron_job-IsSettling = record {
    same_key = (refl, refl);
    keeps_key = λ old x ns n r.
        let same = revise-some old x r in (ap (λ o. o.namespace) same, ap (λ o. o.name) same);
    created = λ y s l. admitted_unchanged y s;
    revised =
        λ old x y r s l. admitted_unchanged y (s ∙ ap (λ o. admit o.spec) (revise-some old x r));
    kept = λ old r. r;
  }

  run_frame :
      (w : World)
      → run w ≡ reconcile_object jobs (is_tls_session_ticket_enabled i.spec) false new revise w
  unfolding reconcile_cron_job_for_session_tickets
  run_frame w = refl

  -- On a server that answers every call, and only fills in what a spec leaves open, a reconciliation of the
  -- cron job returns no error; the next one reports no change and writes nothing.
  pub reconcile_cron_job-settles :
      (laws : ObjectLaws jobs admit) (w : World)
      → IsHealthy jobs
      → (b : Bool) × ((run w).0 ≡ ok b) × (run (run w).1 ≡ (ok false, (run w).1))
  reconcile_cron_job-settles laws w healthy =
      let on = is_tls_session_ticket_enabled i.spec in
      let (b, passed) =
        goes_through jobs admit laws on new new revise revise cron_job-IsSettling false false w
          healthy in
      subst (λ t. (b : Bool) × (t.0 ≡ ok b) × (run t.1 ≡ (ok false, t.1))) (sym (run_frame w))
        (
          b,
          passed,
          run_frame _
              ∙ settles jobs admit laws on new new revise revise cron_job-IsSettling false false w b
                  passed,
        )
