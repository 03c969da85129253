-- ===== src/Controller/CronJob.antt =====
-- controllers/controller.go: the cron job that rotates the session tickets of an instance
-- (reconcileCronJobForSessionTickets). The parts of its spec that are one constant for every instance
-- are left out.
pub mod Laws
mod Tests
use Prim.Native.String
use rpaas_operator.Prelude.{
  ℕ, ◌+◌, ◌-◌, String, ◌==◌, Bool, true, false, [], Option, none, some, nat_eq, leb, char_width,
  byte_length, itoa, if◌then◌else◌,
}
use rpaas_operator.Prelude.Int.{pos}
use rpaas_operator.Result.{Result}
use rpaas_operator.Api.{RpaasInstance, StringMap}
use rpaas_operator.Labels.{base_labels}
use rpaas_operator.Controller.{Object, Objects, reconcile_object}
use rpaas_operator.Controller.Tickets.{
  session_ticket_of, is_tls_session_ticket_enabled, tls_session_ticket_keys, ticket_key_length,
  secret_name_for_tls_session_tickets,
}

-- batch/v1 CronJobSpec; the environment of the container is a field for each variable.
pub record CronJobSpec : Type 0 where
  pub schedule : String
  pub job_labels : StringMap
  pub image : String
  pub secret_name : String
  pub secret_namespace : String
  pub session_ticket_key_length : String
  pub session_ticket_keys : String
  pub nginx_label_selector : String

-- What is taken from packages: util.SHA256 (the hash of what spew prints), the label selector of the
-- nginx operator's labels, and equality.Semantic.DeepDerivative.
pub record Packages : Type 0 where
  pub sha256 : String → String
  pub nginx_label_selector : String → String
  pub deep_derivative : CronJobSpec → CronJobSpec → Bool

-- `s[:n]`; at a place inside a character, which an object's name does not have, before it.
unfoldable pub take_bytes : ℕ → String → String
take_bytes n String.[] = String.[]
take_bytes n (String.◌∷◌ c s) =
    let rest = take_bytes (n - char_width c) s in
    if leb (char_width c) n then String.◌∷◌ c rest else String.[]

unfoldable pub name_for_cron_job : (String → String) → String → String
unfolding take_bytes
name_for_cron_job sha256 name =
    let digest = take_bytes 10 (sha256 name) in
    if leb (byte_length name) 52
    then name
    else String.◌++◌ (take_bytes (52 - byte_length digest) name) digest

unfoldable pub minutes_interval_to_schedule : ℕ → String
minutes_interval_to_schedule minutes =
    let at_least_one = if leb minutes 1 then 1 else minutes in
    String.◌++◌ "*/" (String.◌++◌ (itoa (pos at_least_one)) " * * * *")

unfoldable pub rotation_interval : RpaasInstance → ℕ
unfolding session_ticket_of
rotation_interval i = elim (session_ticket_of i.spec) [
  | none ↦ 60
  | some t ↦ if nat_eq t.key_rotation_interval 0 then 60 else t.key_rotation_interval
]

unfoldable pub rotation_image : RpaasInstance → String
unfolding session_ticket_of
rotation_image i = elim (session_ticket_of i.spec) [
  | none ↦ "tsuru/kubectl:latest"
  | some t ↦ if t.image == "" then "tsuru/kubectl:latest" else t.image
]

module _ (packages : Packages) where
  unfoldable pub new_cron_job_for_session_tickets : RpaasInstance → Object CronJobSpec
  unfolding name_for_cron_job minutes_interval_to_schedule rotation_interval rotation_image
      base_labels ticket_key_length tls_session_ticket_keys secret_name_for_tls_session_tickets
  new_cron_job_for_session_tickets i = record {
    name = name_for_cron_job packages.sha256 (String.◌++◌ i.name "-session-tickets");
    namespace = i.namespace;
    labels = base_labels i [];
    annotations = [];
    resource_version = "";
    spec = record {
      schedule = minutes_interval_to_schedule (rotation_interval i);
      job_labels = base_labels i [];
      image = rotation_image i;
      secret_name = secret_name_for_tls_session_tickets i.name;
      secret_namespace = i.namespace;
      session_ticket_key_length = itoa (pos (ticket_key_length i));
      session_ticket_keys = itoa (pos (tls_session_ticket_keys i));
      nginx_label_selector = packages.nginx_label_selector i.name;
    };
  }

  -- The cron job to write over the one that is there, if that one has to change.
  unfoldable pub revise_cron_job :
      Object CronJobSpec → Object CronJobSpec → Option (Object CronJobSpec)
  revise_cron_job new old =
      if packages.deep_derivative new.spec old.spec
      then none
      else some (record new { resource_version = old.resource_version })

  unfoldable pub reconcile_cron_job_for_session_tickets :
      {World : Type 0} → Objects World CronJobSpec → RpaasInstance → World → Result Bool × World
  unfolding is_tls_session_ticket_enabled new_cron_job_for_session_tickets revise_cron_job
      reconcile_object
  reconcile_cron_job_for_session_tickets jobs i w =
      let new = new_cron_job_for_session_tickets i in
      reconcile_object jobs (is_tls_session_ticket_enabled i.spec) false new (revise_cron_job new) w
