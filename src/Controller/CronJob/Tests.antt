-- ===== src/Controller/CronJob/Tests.antt =====
-- The cron job of an instance, and the theorems at a cluster with at most one cron job.
use Prim.Native.String
use rpaas_operator.Prelude.{
  ◌≤◌, ◌<◌, ◌⊎◌, ◌≡◌, refl, Bool, false, [], none, some, byte_length, itoa,
}
use rpaas_operator.Prelude.Equality.{string-discrete, is_yes, yes_is_yes}
use rpaas_operator.Result.{ok}
use rpaas_operator.Api.{RpaasInstance}
use rpaas_operator.Labels.{base_labels}
use rpaas_operator.Samples.{empty_spec, instance_with}
use rpaas_operator.Controller.Cell.{cell, cell_laws, cell_healthy}
use rpaas_operator.Controller.Tickets.{
  session_ticket_of, tls_session_ticket_keys, ticket_key_length,
  secret_name_for_tls_session_tickets,
}
use rpaas_operator.Controller.CronJob.{
  CronJobSpec, Packages, take_bytes, name_for_cron_job, minutes_interval_to_schedule,
  rotation_interval, rotation_image, new_cron_job_for_session_tickets,
  reconcile_cron_job_for_session_tickets,
}
use rpaas_operator.Controller.CronJob.Laws.{new_cron_job-name, reconcile_cron_job-settles}

cron_job_spec-discrete : Discrete CronJobSpec
cron_job_spec-discrete = hlevel string-discrete

abbrev packages : Packages
packages = record {
  sha256 = λ s. "5e884898da28047151d0e56f8dc6292773603d0d6aabbdd62a11ef721d1542d8";
  nginx_label_selector = λ n. String.◌++◌ "nginx.tsuru.io/resource-name=" n;
  deep_derivative = λ s t. is_yes (cron_job_spec-discrete s t);
}

abbrev web : RpaasInstance
web = instance_with (record empty_spec {
  tls_session_resumption = some (record {
    session_ticket =
        some (record { keep_last_keys = 1; key_rotation_interval = 5; key_length = 0; image = "" });
  });
})

web_job_spec : (new_cron_job_for_session_tickets packages web).spec ≡ record {
  schedule = "*/5 * * * *";
  job_labels = base_labels web [];
  image = "tsuru/kubectl:latest";
  secret_name = "web-session-tickets";
  secret_namespace = "rpaasv2";
  session_ticket_key_length = "48";
  session_ticket_keys = "2";
  nginx_label_selector = "nginx.tsuru.io/resource-name=web";
}
unfolding new_cron_job_for_session_tickets minutes_interval_to_schedule rotation_interval
    rotation_image ticket_key_length tls_session_ticket_keys secret_name_for_tls_session_tickets
    session_ticket_of itoa
web_job_spec = refl

-- A name of 56 bytes with its suffix: 42 of them are left, and ten of the digest.
long_name :
    name_for_cron_job packages.sha256 "an-instance-with-a-name-that-is-too-long-session-tickets"
    ≡ "an-instance-with-a-name-that-is-too-long-s5e884898da"
unfolding name_for_cron_job take_bytes byte_length
long_name = refl

new_cron_job-name_example :
    (byte_length (new_cron_job_for_session_tickets packages web).name ≤ 52)
    × (((new_cron_job_for_session_tickets packages web).name ≡ String.◌++◌ "web" "-session-tickets")
        ⊎ (36 < byte_length "web"))
new_cron_job-name_example = new_cron_job-name packages web

reconcile_cron_job-settles_example :
    (b : Bool) × ((reconcile_cron_job_for_session_tickets packages cell web none).0 ≡ ok b)
    × (reconcile_cron_job_for_session_tickets packages cell web
          (reconcile_cron_job_for_session_tickets packages cell web none).1
        ≡ (ok false, (reconcile_cron_job_for_session_tickets packages cell web none).1))
reconcile_cron_job-settles_example =
    reconcile_cron_job-settles packages cell (λ s. s)
      (λ s. yes_is_yes (cron_job_spec-discrete s s) refl) web cell_laws none cell_healthy
