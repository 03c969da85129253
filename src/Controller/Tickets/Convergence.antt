-- ===== src/Controller/Tickets/Convergence.antt =====
-- The secret of the session tickets under one reconciliation after the other.
use mathlib.Core.Path.{subst, subst₂}
use rpaas_operator.Prelude.{
  ℕ, String, ◌≡◌, inl, inr, sym, ap, ◌∙◌, Bool, true, false, some, is_some, arith, Option-cases,
}
use rpaas_operator.Result.{Result, ok, >>=-eq-ok}
use rpaas_operator.Api.{RpaasInstance}
use rpaas_operator.Controller.{Object, Objects, reconcile_object}
use rpaas_operator.Controller.Settled.{ObjectLaws, IsHealthy, IsSettling}
use rpaas_operator.Controller.Runs.{settles, goes_through, reads_back, reads_back_kept}
use rpaas_operator.ByteMaps.Laws.{data_eq_iff}
use rpaas_operator.ByteMaps.{Bytes, ByteMap, value_at, data_eq}
use rpaas_operator.Controller.Tickets.{
  new_tickets, new_session_ticket_data, revise_tickets, reconcile_secret_for_session_tickets,
  new_secret_for_tls_session_tickets, tls_session_ticket_keys, ticket_key_length,
  is_tls_session_ticket_enabled, secret_name_for_tls_session_tickets,
}
use rpaas_operator.Controller.Tickets.Laws.{
  is_ticket, new_tickets-keys, same_keys-data_eq, keeps-keys, revise_tickets_unchanged,
  revise_tickets-some, revise_tickets-none, value_at-new_session_ticket_data,
}

-- What a secret with new tickets has.
new_secret-ok :
    (generate : ℕ → ℕ → Result Bytes) (i : RpaasInstance) (x : Object ByteMap)
    → new_secret_for_tls_session_tickets generate i ≡ ok x
    → (x.namespace ≡ i.namespace)
      × (x.name ≡ secret_name_for_tls_session_tickets i.name)
      × ((k : String) → is_some (value_at x.spec k) ≡ is_ticket (tls_session_ticket_keys i) 0 k)
unfolding new_secret_for_tls_session_tickets
new_secret-ok generate i x h =
    let (d, tickets, made) =
      >>=-eq-ok (new_tickets generate (ticket_key_length i) (tls_session_ticket_keys i) 0) _ h in
    let keys =
      new_tickets-keys generate (ticket_key_length i) (tls_session_ticket_keys i) 0 d tickets in
    (
      cc,
      cc,
      λ k.
          subst (λ t. is_some (value_at t k) ≡ is_ticket (tls_session_ticket_keys i) 0 k)
            (spec made) (keys k),
    )
  where
    spec : {a b : Object ByteMap} → ok a ≡ ok b → a.spec ≡ b.spec
    spec p = cc

-- The names of the tickets to keep, and no others, and each old key at such a name.
abbrev pub HoldsTickets : RpaasInstance → ByteMap → ByteMap → Type 0
HoldsTickets i old now =
    (k : String)
    → (is_some (value_at now k) ≡ is_ticket (tls_session_ticket_keys i) 0 k)
      × ((v : Bytes)
          → is_ticket (tls_session_ticket_keys i) 0 k ≡ true
          → value_at old k ≡ some v
          → value_at now k ≡ some v)

module _ {World : Type 0} (secrets : Objects World ByteMap) (i : RpaasInstance)
    (generate generate' : ℕ → ℕ → Result Bytes) (new new' : Object ByteMap)
    (made : new_secret_for_tls_session_tickets generate i ≡ ok new)
    (made' : new_secret_for_tls_session_tickets generate' i ≡ ok new') where
  same_keys : (k : String) → is_some (value_at new.spec k) ≡ is_some (value_at new'.spec k)
  same_keys k =
      (new_secret-ok generate i new made).2 k ∙ sym ((new_secret-ok generate' i new' made').2 k)

  tickets-IsSettling :
      IsSettling secrets (λ d. d) new new' (revise_tickets new) (revise_tickets new')
  tickets-IsSettling = record {
    same_key =
        let (ns, name, _) = new_secret-ok generate i new made in
        let (ns', name', _) = new_secret-ok generate' i new' made' in
        (ns' ∙ sym ns, name' ∙ sym name);
    keeps_key = λ old x ns name r.
        let same = revise_tickets-some new old x r in
        (ap (λ o. o.namespace) same ∙ ns, ap (λ o. o.name) same ∙ name);
    created = λ y s l. revise_tickets_unchanged new' y (
        subst (λ t. data_eq (new_session_ticket_data t new'.spec) t ≡ true) (sym s)
          (same_keys-data_eq new.spec new'.spec same_keys));
    revised = λ old x y r s l.
        let now = s ∙ ap (λ o. o.spec) (revise_tickets-some new old x r) in
        revise_tickets_unchanged new' y (
          subst (λ t. data_eq (new_session_ticket_data t new'.spec) t ≡ true) (sym now)
            (same_keys-data_eq (new_session_ticket_data old.spec new.spec) new'.spec
              (keeps-keys old.spec new.spec new'.spec same_keys)));
    kept = λ old r. revise_tickets_unchanged new' old (
        same_keys-data_eq old.spec new'.spec λ k.
          ap (λ o. is_some o) (sym ((data_eq_iff _ old.spec).0 (revise_tickets-none new old r) k))
          ∙ keeps-keys old.spec new.spec new'.spec same_keys k);
  }

  abbrev once : World → Result Bool × World
  once = reconcile_secret_for_session_tickets secrets generate i

  abbrev twice : World → Result Bool × World
  twice = reconcile_secret_for_session_tickets secrets generate' i

  run_first :
      (w : World)
      → once w
        ≡ reconcile_object secrets
            (is_tls_session_ticket_enabled i.spec)
            false
            new
            (revise_tickets new)
            w
  unfolding reconcile_secret_for_session_tickets
  run_first w = rw (made, reconcile_secret_for_session_tickets)

  run_next :
      (w : World)
      → twice w
        ≡ reconcile_object secrets
            (is_tls_session_ticket_enabled i.spec)
            false
            new'
            (revise_tickets new')
            w
  unfolding reconcile_secret_for_session_tickets
  run_next w = rw (made', reconcile_secret_for_session_tickets)

  module _ (laws : ObjectLaws secrets (λ d. d)) (w : World) where
    -- On a server that answers every call, and keeps the data of a secret as it is sent, a reconciliation of
    -- the session tickets returns no error if the random tickets could be made; the next one, whatever
    -- tickets it makes, then reports no change and writes nothing.
    pub reconcile_secret-settles :
        IsHealthy secrets
        → (b : Bool) × ((once w).0 ≡ ok b) × (twice (once w).1 ≡ (ok false, (once w).1))
    reconcile_secret-settles healthy =
        let on = is_tls_session_ticket_enabled i.spec in
        let (b, passed) =
          goes_through secrets (λ d. d) laws on new new' (revise_tickets new) (revise_tickets new')
            tickets-IsSettling false false w healthy in
        subst (λ t. (b : Bool) × (t.0 ≡ ok b) × (twice t.1 ≡ (ok false, t.1))) (sym (run_first w))
          (
            b,
            passed,
            run_next _
                ∙ settles secrets (λ d. d) laws on new new' (revise_tickets new)
                    (revise_tickets new') tickets-IsSettling false false w b passed,
          )

    holds_newest : (old : ByteMap) → HoldsTickets i old (new_session_ticket_data old new.spec)
    holds_newest old k =
        let keys = (new_secret-ok generate i new made).2 k in
        let value = value_at-new_session_ticket_data k old new.spec in
        (ground (arith, keys, value), λ v t o. ground (arith, keys, value, t, o))

    holds_same :
        (old now : ByteMap)
        → ((k : String) → value_at (new_session_ticket_data old new.spec) k ≡ value_at now k)
        → HoldsTickets i old now
    holds_same old now h k =
        let (keys, kept) = holds_newest old k in
        (ap (λ o. is_some o) (sym (h k)) ∙ keys, λ v t o. sym (h k) ∙ kept v t o)

    keeps_found :
        (old : Object ByteMap) (b : Bool)
        → is_tls_session_ticket_enabled i.spec ≡ true
        → secrets.get new.namespace new.name w ≡ ok old
        → (reconcile_object secrets
            (is_tls_session_ticket_enabled i.spec)
            false
            new
            (revise_tickets new)
            w).0
          ≡ ok b
        → (now : Object ByteMap) × (secrets.get new.namespace new.name
              (reconcile_object secrets
                (is_tls_session_ticket_enabled i.spec)
                false
                new
                (revise_tickets new)
                w).1
            ≡ ok now)
          × HoldsTickets i old.spec now.spec
    keeps_found old b on g p = elim (Option-cases (revise_tickets new old)) [
      | inl n ↦ (
        old,
        reads_back_kept secrets (λ d. d) laws _ new new' (revise_tickets new) (revise_tickets new')
            tickets-IsSettling false false w old on g n,
        holds_same old.spec old.spec ((data_eq_iff _ old.spec).0 (revise_tickets-none new old n)),
      )
      | inr (x, r) ↦
          let (now, there, spec) =
            reads_back secrets (λ d. d) laws _ new new' (revise_tickets new) (revise_tickets new')
              tickets-IsSettling false false w old x b on g r p in
          (
            now,
            there,
            subst (HoldsTickets i old.spec)
                (sym (spec ∙ ap (λ o. o.spec) (revise_tickets-some new old x r)))
                (holds_newest old.spec),
          )
    ]

    keeps :
        (old : Object ByteMap) (b : Bool)
        → is_tls_session_ticket_enabled i.spec ≡ true
        → secrets.get i.namespace (secret_name_for_tls_session_tickets i.name) w ≡ ok old
        → (once w).0 ≡ ok b
        → (now : Object ByteMap) × (secrets.get i.namespace
              (secret_name_for_tls_session_tickets i.name)
              (once w).1
            ≡ ok now)
          × HoldsTickets i old.spec now.spec
    keeps old b on g p =
        let (ns, name, keys) = new_secret-ok generate i new made in
        let (now, there, holds) =
          keeps_found old b on (subst₂ (λ a c. secrets.get a c w ≡ ok old) (sym ns) (sym name) g)
            (ap (λ t. t.0) (sym (run_first w)) ∙ p) in
        (
          now,
          subst₂ (λ a c. secrets.get a c (once w).1 ≡ ok now) ns name
              (subst (λ t. secrets.get new.namespace new.name t.1 ≡ ok now) (sym (run_first w))
                there),
          holds,
        )

-- If session tickets are enabled, the secret is there, and its random tickets could be made, then
-- after a reconciliation that returned no error the secret has a key at the names of the tickets to
-- keep, one more than keepLastKeys, and at no other name; a key that the secret had at such a name is
-- still the same. The server is assumed to keep the data of a secret as it is sent.
pub reconcile_secret-keeps :
    {World : Type 0} (secrets : Objects World ByteMap) (laws : ObjectLaws secrets (λ d. d))
    (i : RpaasInstance) (generate : ℕ → ℕ → Result Bytes) (new : Object ByteMap) (w : World)
    (old : Object ByteMap) (b : Bool)
    → new_secret_for_tls_session_tickets generate i ≡ ok new
    → is_tls_session_ticket_enabled i.spec ≡ true
    → secrets.get i.namespace (secret_name_for_tls_session_tickets i.name) w ≡ ok old
    → (reconcile_secret_for_session_tickets secrets generate i w).0 ≡ ok b
    → (now : Object ByteMap) × (secrets.get i.namespace
          (secret_name_for_tls_session_tickets i.name)
          (reconcile_secret_for_session_tickets secrets generate i w).1
        ≡ ok now)
      × HoldsTickets i old.spec now.spec
reconcile_secret-keeps secrets laws i generate new w old b made =
    keeps secrets i generate generate new new made made laws w old b
