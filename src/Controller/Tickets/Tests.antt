-- ===== src/Controller/Tickets/Tests.antt =====
-- The session tickets of an instance that keeps two old keys, and the theorems there.
use rpaas_operator.Prelude.{ℕ, ◌≡◌, refl, Bool, true, false, [], ◌∷◌, some, itoa}
use rpaas_operator.Prelude.Int.{pos, negsuc}
use rpaas_operator.Prelude.Keyed.{find, store, merge}
use rpaas_operator.Result.{Result, ok}
use rpaas_operator.Api.{RpaasInstance}
use rpaas_operator.Labels.{base_labels}
use rpaas_operator.Samples.{empty_spec, instance_with}
use rpaas_operator.Controller.{Object, reconcile_object, after_read, report}
use rpaas_operator.Controller.Cell.{cell, cell_laws, cell_healthy}
use rpaas_operator.ByteMaps.{Bytes, ByteMap, bytes_eq, value_at, same_value, agree_on, data_eq}
use rpaas_operator.Controller.Tickets.{
  session_ticket_of, is_tls_session_ticket_enabled, tls_session_ticket_keys, ticket_key_length,
  ticket_name, new_tickets, kept_or_new, also_in, secret_name_for_tls_session_tickets,
  new_secret_for_tls_session_tickets, new_session_ticket_data, revise_tickets,
  reconcile_secret_for_session_tickets,
}
use rpaas_operator.Controller.Tickets.Convergence.{
  HoldsTickets, reconcile_secret-settles, reconcile_secret-keeps,
}

abbrev web : RpaasInstance
web = instance_with (record empty_spec {
  tls_session_resumption = some (record {
    session_ticket =
        some (record { keep_last_keys = 1; key_rotation_interval = 0; key_length = 0; image = "" });
  });
})

-- Random bytes that tell which run and which key they are of.
abbrev random : ℕ → ℕ → ℕ → Result Bytes
random run i key_length = ok (run ∷ i ∷ key_length ∷ [])

abbrev tickets : ℕ → ByteMap
tickets run = ("ticket.0.key", run ∷ 0 ∷ 48 ∷ []) ∷ ("ticket.1.key", run ∷ 1 ∷ 48 ∷ []) ∷ []

abbrev secret : ByteMap → Object ByteMap
secret d = record {
  name = "web-session-tickets";
  namespace = "rpaasv2";
  labels = base_labels web [];
  annotations = [];
  resource_version = "";
  spec = d;
}

new_secret :
    (run : ℕ) → new_secret_for_tls_session_tickets (random run) web ≡ ok (secret (tickets run))
unfolding new_secret_for_tls_session_tickets new_tickets ticket_name itoa ticket_key_length
    tls_session_ticket_keys session_ticket_of secret_name_for_tls_session_tickets
new_secret run = refl

itoa_of : (itoa (pos 0) ≡ "0") × (itoa (pos 1907) ≡ "1907") × (itoa (negsuc 9) ≡ "-10")
unfolding itoa
itoa_of = (refl, refl, refl)

-- One key of a rotation, and a name that is not kept any more.
abbrev rotated : ByteMap
rotated = ("ticket.0.key", 7 ∷ []) ∷ ("ticket.2.key", 8 ∷ []) ∷ []

reconcile_secret_run :
    reconcile_secret_for_session_tickets cell (random 3) web (some (secret rotated))
    ≡ (ok true, some (secret (("ticket.0.key", 7 ∷ []) ∷ ("ticket.1.key", 3 ∷ 1 ∷ 48 ∷ []) ∷ [])))
unfolding reconcile_secret_for_session_tickets new_secret_for_tls_session_tickets new_tickets
    ticket_name itoa ticket_key_length tls_session_ticket_keys session_ticket_of
    secret_name_for_tls_session_tickets is_tls_session_ticket_enabled reconcile_object after_read
    report revise_tickets new_session_ticket_data kept_or_new also_in find store merge data_eq
    agree_on value_at same_value bytes_eq base_labels
reconcile_secret_run = refl

reconcile_secret-settles_example :
    (b : Bool) × ((reconcile_secret_for_session_tickets cell
        (random 3)
        web
        (some (secret rotated))).0
      ≡ ok b)
    × (reconcile_secret_for_session_tickets cell
          (random 4)
          web
          (reconcile_secret_for_session_tickets cell (random 3) web (some (secret rotated))).1
        ≡ (
          ok false,
          (reconcile_secret_for_session_tickets cell (random 3) web (some (secret rotated))).1,
        ))
reconcile_secret-settles_example =
    reconcile_secret-settles cell web (random 3) (random 4) (secret (tickets 3))
      (secret (tickets 4)) (new_secret 3) (new_secret 4) cell_laws (some (secret rotated))
      cell_healthy

enabled : is_tls_session_ticket_enabled web.spec ≡ true
unfolding is_tls_session_ticket_enabled session_ticket_of
enabled = refl

read :
    cell.get "rpaasv2" (secret_name_for_tls_session_tickets "web") (some (secret rotated))
    ≡ ok (secret rotated)
unfolding secret_name_for_tls_session_tickets
read = refl

returned :
    (reconcile_secret_for_session_tickets cell (random 3) web (some (secret rotated))).0 ≡ ok true
returned = mathlib.Core.Path.ap (λ r. r.0) reconcile_secret_run

reconcile_secret-keeps_example :
    (now : Object ByteMap) × (cell.get "rpaasv2"
        (secret_name_for_tls_session_tickets "web")
        (reconcile_secret_for_session_tickets cell (random 3) web (some (secret rotated))).1
      ≡ ok now)
    × HoldsTickets web rotated now.spec
reconcile_secret-keeps_example =
    reconcile_secret-keeps cell cell_laws web (random 3) (secret (tickets 3))
      (some (secret rotated)) (secret rotated) true (new_secret 3) enabled read returned
