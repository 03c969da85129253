-- ===== src/Controller/Tickets.antt =====
-- controllers/controller.go: the secret with the TLS session tickets of an instance
-- (reconcileSecretForSessionTickets). CronJob has the job that rotates them.
pub mod Laws
pub mod Convergence
mod Tests
use Prim.Native.String
use rpaas_operator.Prelude.{
  ℕ, zero, suc, ◌+◌, String, ◌==◌, Bool, true, false, not, ◌&&◌, List, [], ◌∷◌, ◌++◌, Option, none,
  some, is_some, nat_eq, leb, ltb, byte_length, itoa, if◌then◌else◌,
}
use rpaas_operator.Prelude.Int.{pos}
use rpaas_operator.Prelude.Keyed.{Keyed, find, merge}
use rpaas_operator.Prelude.{eq_iff}
use rpaas_operator.Errors.{Error}
use rpaas_operator.Result.{Result, ok, err, ◌>>=◌}
use rpaas_operator.Api.{RpaasInstance, RpaasInstanceSpec, StringMap, TlsSessionTicket}
use rpaas_operator.Labels.{base_labels}
use rpaas_operator.ByteMaps.{Bytes, ByteMap, by_data_key, data_eq}
use rpaas_operator.Controller.{Object, Objects, reconcile_object}

unfoldable pub session_ticket_of : RpaasInstanceSpec → Option TlsSessionTicket
session_ticket_of spec = elim spec.tls_session_resumption [
  | none ↦ none
  | some r ↦ r.session_ticket
]

unfoldable pub is_tls_session_ticket_enabled : RpaasInstanceSpec → Bool
unfolding session_ticket_of
is_tls_session_ticket_enabled spec = is_some (session_ticket_of spec)

-- The number of keys: a uint32 and one, on a 64-bit int.
unfoldable pub tls_session_ticket_keys : RpaasInstance → ℕ
unfolding session_ticket_of
tls_session_ticket_keys i = elim (session_ticket_of i.spec) [
  | none ↦ 1
  | some t ↦ t.keep_last_keys + 1
]

-- `if enabled && x != 0 { default = x }`
unfoldable pub ticket_key_length : RpaasInstance → ℕ
unfolding session_ticket_of
ticket_key_length i = elim (session_ticket_of i.spec) [
  | none ↦ 48
  | some t ↦ if nat_eq t.key_length 0 then 48 else t.key_length
]

-- fmt.Sprintf("ticket.%d.key", i)
unfoldable pub ticket_name : ℕ → String
ticket_name i = String.◌++◌ "ticket." (String.◌++◌ (itoa (pos i)) ".key")

-- The tickets from the given index on, as many as there are left; `generate` is the call of rand.Read
-- for the key at an index, of the given length.
unfoldable pub new_tickets : (ℕ → ℕ → Result Bytes) → ℕ → ℕ → ℕ → Result ByteMap
unfolding ticket_name
new_tickets generate key_length zero i = ok []
new_tickets generate key_length (suc left) i = do
  key ← generate i key_length
  rest ← new_tickets generate key_length left (suc i)
  ok ((ticket_name i, key) ∷ rest)

unfoldable pub secret_name_for_tls_session_tickets : String → String
secret_name_for_tls_session_tickets instance_name = String.◌++◌ instance_name "-session-tickets"

unfoldable pub new_secret_for_tls_session_tickets :
    (ℕ → ℕ → Result Bytes) → RpaasInstance → Result (Object ByteMap)
unfolding new_tickets tls_session_ticket_keys ticket_key_length secret_name_for_tls_session_tickets
    base_labels
new_secret_for_tls_session_tickets generate i = do
  tickets ← new_tickets generate (ticket_key_length i) (tls_session_ticket_keys i) 0
  ok (record {
    name = secret_name_for_tls_session_tickets i.name;
    namespace = i.namespace;
    labels = base_labels i [];
    annotations = [];
    resource_version = "";
    spec = tickets;
  })

-- `for k, v := range new { … }` of newSessionTicketData: the old key where there is one.
unfoldable pub kept_or_new : ByteMap → ByteMap → ByteMap
unfolding find
kept_or_new old [] = []
kept_or_new old ((k, v) ∷ new) = elim (find by_data_key k old) [
  | none ↦ (k, v) ∷ kept_or_new old new
  | some (_, vv) ↦ (k, vv) ∷ kept_or_new old new
]

-- The entries of the old map with a key of the new one.
unfoldable pub also_in : ByteMap → ByteMap → ByteMap
unfolding find
also_in new [] = []
also_in new ((k, v) ∷ old) =
    let rest = also_in new old in if is_some (find by_data_key k new) then (k, v) ∷ rest else rest

unfoldable pub new_session_ticket_data : ByteMap → ByteMap → ByteMap
unfolding kept_or_new also_in merge
new_session_ticket_data old new = merge by_data_key (kept_or_new old new) (also_in new old)

-- The data to write over the secret's, if that has to change.
unfoldable pub revise_tickets : Object ByteMap → Object ByteMap → Option (Object ByteMap)
unfolding new_session_ticket_data data_eq
revise_tickets new old =
    let newest = new_session_ticket_data old.spec new.spec in
    if data_eq newest old.spec then none else some (record old { spec = newest })

module _ {World : Type 0} (secrets : Objects World ByteMap) (generate : ℕ → ℕ → Result Bytes) where
  unfoldable pub reconcile_secret_for_session_tickets : RpaasInstance → World → Result Bool × World
  unfolding is_tls_session_ticket_enabled new_secret_for_tls_session_tickets revise_tickets
      reconcile_object
  reconcile_secret_for_session_tickets i w = elim (new_secret_for_tls_session_tickets generate i) [
    | err e ↦ (err e, w)
    | ok new ↦
        reconcile_object secrets (is_tls_session_ticket_enabled i.spec) false new
          (revise_tickets new) w
  ]
