-- ===== src/Controller/Tickets/Laws.antt =====
-- What the rotation of the session tickets can rely on.
use mathlib.Core.Path.{subst}
use rpaas_operator.Prelude.{
  ℕ, zero, suc, String, ◌==◌, ◌≡◌, refl, Bool, true, false, ◌||◌, [], ◌∷◌, none, some, is_some,
  arith, eq_iff,
}
use rpaas_operator.Prelude.Keyed.{find}
use rpaas_operator.Prelude.Keyed.Laws.{find-merge}
use rpaas_operator.Result.{Result, ok, >>=-eq-ok}
use rpaas_operator.Controller.{Object}
use rpaas_operator.ByteMaps.Laws.{data_eq_iff, value_at-cons}
use rpaas_operator.ByteMaps.{Bytes, ByteMap, by_data_key, value_at, data_eq}
use rpaas_operator.Controller.Tickets.{
  ticket_name, new_tickets, kept_or_new, revise_tickets, also_in, new_session_ticket_data,
}

value_at-kept_or_new :
    (k : String) (old new : ByteMap)
    → value_at (kept_or_new old new) k ≡ elim (value_at new k) [
      | none ↦ none
      | some v ↦ elim (value_at old k) [ none ↦ some v | some vv ↦ some vv ]
    ]
unfolding value_at find kept_or_new
value_at-kept_or_new k old [] = refl
value_at-kept_or_new k old ((j, v) ∷ new) =
    ground (arith, value_at-kept_or_new k old new, eq_iff j k)

value_at-also_in :
    (k : String) (new old : ByteMap)
    → value_at (also_in new old) k ≡ elim (value_at new k) [ none ↦ none | some v ↦ value_at old k ]
unfolding value_at find also_in
value_at-also_in k new [] = ground arith
value_at-also_in k new ((j, v) ∷ old) = ground (arith, value_at-also_in k new old, eq_iff j k)

-- At a key of the new map there is the old value, or the new one if the old map has none; nothing is
-- at any other key.
pub value_at-new_session_ticket_data :
    (k : String) (old new : ByteMap)
    → value_at (new_session_ticket_data old new) k ≡ elim (value_at new k) [
      | none ↦ none
      | some v ↦ elim (value_at old k) [ none ↦ some v | some vv ↦ some vv ]
    ]
value_at-new_session_ticket_data k old new =
    ground (arith, merged, value_at-kept_or_new k old new, value_at-also_in k new old)
  where
    merged : value_at (new_session_ticket_data old new) k ≡ elim (value_at (also_in new old) k) [
      | none ↦ value_at (kept_or_new old new) k
      | some vv ↦ some vv
    ]
    merged =
        unfold new_session_ticket_data value_at in
        ground (arith, find-merge by_data_key k (kept_or_new old new) (also_in new old))

-- Data with the keys of the new tickets is left as it is.
pub same_keys-data_eq :
    (old new : ByteMap)
    → ((k : String) → is_some (value_at old k) ≡ is_some (value_at new k))
    → data_eq (new_session_ticket_data old new) old ≡ true
same_keys-data_eq old new h =
    (data_eq_iff (new_session_ticket_data old new) old).1
      λ k. ground (arith, value_at-new_session_ticket_data k old new, h k)

-- One of the names of so many tickets, from an index on.
abbrev pub is_ticket : ℕ → ℕ → String → Bool
is_ticket zero i k = false
is_ticket (suc left) i k = ticket_name i == k || is_ticket left (suc i) k

pub new_tickets-keys :
    (generate : ℕ → ℕ → Result Bytes) (key_length left i : ℕ) (d : ByteMap)
    → new_tickets generate key_length left i ≡ ok d
    → (k : String) → is_some (value_at d k) ≡ is_ticket left i k
unfolding new_tickets
new_tickets-keys generate key_length zero i d h k = unfold value_at find in cc
new_tickets-keys generate key_length (suc left) i d h k =
    let (key, g, h₁) = >>=-eq-ok (generate i key_length) _ h in
    let (rest, r, h₂) = >>=-eq-ok (new_tickets generate key_length left (suc i)) _ h₁ in
    let same : (ticket_name i, key) ∷ rest ≡ d = cc in
    subst (λ t. is_some (value_at t k) ≡ is_ticket (suc left) i k) same
      (ground (
        arith,
        value_at-cons k (ticket_name i) key rest,
        new_tickets-keys generate key_length left (suc i) rest r k,
      ))

pub keeps-keys :
    (old new new' : ByteMap)
    → ((k : String) → is_some (value_at new k) ≡ is_some (value_at new' k))
    → (k : String)
    → is_some (value_at (new_session_ticket_data old new) k) ≡ is_some (value_at new' k)
keeps-keys old new new' h k = ground (arith, value_at-new_session_ticket_data k old new, h k)

pub revise_tickets_unchanged :
    (new old : Object ByteMap)
    → data_eq (new_session_ticket_data old.spec new.spec) old.spec ≡ true
    → revise_tickets new old ≡ none
unfolding revise_tickets
revise_tickets_unchanged new old h = rw h

pub revise_tickets-some :
    (new old x : Object ByteMap)
    → revise_tickets new old ≡ some x
    → x ≡ record old { spec = new_session_ticket_data old.spec new.spec }
unfolding revise_tickets
revise_tickets-some new old x h = ground (arith, h)

pub revise_tickets-none :
    (new old : Object ByteMap)
    → revise_tickets new old ≡ none
    → data_eq (new_session_ticket_data old.spec new.spec) old.spec ≡ true
unfolding revise_tickets
revise_tickets-none new old h = ground (arith, h)
