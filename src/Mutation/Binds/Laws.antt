-- ===== src/Mutation/Binds/Laws.antt =====
-- What BindApp and UnbindApp do to the applications bound to an instance.
use mathlib.Core.Path.{subst}
use rpaas_operator.Prelude.{
  String, ◌≡◌, ◌≢◌, inl, inr, refl, sym, Bool, false, List, [], ◌∷◌, ◌++◌, none, some, arith,
  eq_iff, ◌==◌, Bool-cases, Option-cases, is_some,
}
use rpaas_operator.Prelude.Keyed.{find, remove, Distinct}
use rpaas_operator.Prelude.Keyed.Laws.{
  remove-append_fresh, store_fresh, find-store_self, remove-cons_cases,
}
use rpaas_operator.Result.{Result, ok, is_ok, >>=-eq-ok, reject_if-eq-ok}
use rpaas_operator.Api.{Bind, RpaasInstanceSpec}
use rpaas_operator.Mutation.Binds.{
  BindAppArgs, Url, by_host, by_name, bound_host, bind_app, unbind_app,
}

module _ (parse : String → Result Url) where
  -- A successful BindApp has found a host that no bind has yet, and appended it under the
  -- application's name; nothing else has changed.
  pub bind_app-ok :
      (args : BindAppArgs) (internal : Bool) (s t : RpaasInstanceSpec)
      → bind_app parse args internal s ≡ ok t
      → (host : String) × (bound_host parse args internal ≡ ok host)
        × (find by_host host s.binds ≡ none)
        × (t ≡ record s { binds = s.binds ++ record { name = args.app_name; host = host } ∷ [] })
  unfolding bind_app
  bind_app-ok args internal s t h =
      let (host, known, h₁) = >>=-eq-ok (bound_host parse args internal) _ h in
      let (fresh, h₂) = reject_if-eq-ok (is_some (find by_host host s.binds)) _ _ h₁ in
      (host, known, ground (arith, fresh), cc)

  -- BindApp fails with a conflict if the host is bound already, whatever the application.
  pub bind_app-twice :
      (args other : BindAppArgs) (internal internal' : Bool) (s t : RpaasInstanceSpec)
      → bind_app parse args internal s ≡ ok t
      → bound_host parse other internal' ≡ bound_host parse args internal
      → is_ok (bind_app parse other internal' t) ≡ false
  unfolding bind_app
  bind_app-twice args other internal internal' s t h again =
      let (host, known, new, same) = bind_app-ok args internal s t h in
      let bind : Bind = record { name = args.app_name; host = host } in
      let there : find by_host host t.binds ≡ some bind =
        subst (λ t. find by_host host t.binds ≡ some bind) (sym same)
          (subst (λ l. find by_host host l ≡ some bind) (store_fresh by_host bind s.binds new)
            (find-store_self by_host bind s.binds)) in
      rw (again, known, there, bind_app) refl

  -- UnbindApp right after BindApp gives back the spec as it was, if the application has a name and
  -- was not bound under it before.
  pub unbind_app-bind_app :
      (args : BindAppArgs) (internal : Bool) (s t : RpaasInstanceSpec)
      → bind_app parse args internal s ≡ ok t
      → args.app_name ≢ ""
      → find by_name args.app_name s.binds ≡ none
      → unbind_app args.app_name t ≡ ok s
  unbind_app-bind_app args internal s t h named fresh =
      let (host, known, new, same) = bind_app-ok args internal s t h in
      subst (λ t. unbind_app args.app_name t ≡ ok s) (sym same) (undone host)
    where
      undone :
          (host : String)
          → unbind_app args.app_name
              (record s { binds = s.binds ++ record { name = args.app_name; host = host } ∷ [] })
            ≡ ok s
      undone host =
          unfold unbind_app in
          ground (
            arith,
            eq_iff args.app_name "",
            remove-append_fresh by_name (record { name = args.app_name; host = host }) s.binds
                fresh,
          )

-- What is taken out is the first bind of the name.
pub unbind_app-ok :
    (app_name : String) (s t : RpaasInstanceSpec)
    → unbind_app app_name s ≡ ok t
    → (app_name ≢ "")
      × (rest : List Bind) × (remove by_name app_name s.binds ≡ some rest)
      × (t ≡ record s { binds = rest })
unfolding unbind_app
unbind_app-ok app_name s t h = elim (Bool-cases (app_name == "")) [
  | inl e ↦ cc (rw (e, unbind_app) at h)
  | inr e ↦ elim (Option-cases (remove by_name app_name s.binds)) [
    | inl n ↦ cc (rw (e, n, unbind_app) at h)
    | inr (rest, r) ↦ (ground (arith, eq_iff app_name ""), rest, r, cc (rw (e, r, unbind_app) at h))
  ]
]

-- Taking out a bind brings in no host.
remove-no_host :
    (app_name host : String) (bs rest : List Bind)
    → remove by_name app_name bs ≡ some rest
    → find by_host host bs ≡ none
    → find by_host host rest ≡ none
unfolding find
remove-no_host app_name host [] rest r n = unfold remove in cc
remove-no_host app_name host (b ∷ bs) rest r n =
    elim (remove-cons_cases by_name app_name b bs rest r) [
      | inl (_, e) ↦ rw e (ground (arith, n))
      | inr (zs, _, q, e) ↦ rw e (ground (arith, n, remove-no_host app_name host bs zs q))
    ]

-- A bind of one name taken out of binds with distinct hosts leaves distinct hosts.
pub remove-Distinct_hosts :
    (app_name : String) (bs rest : List Bind)
    → remove by_name app_name bs ≡ some rest
    → Distinct by_host bs
    → Distinct by_host rest
unfolding Distinct
remove-Distinct_hosts app_name [] rest r d = unfold remove in cc
remove-Distinct_hosts app_name (b ∷ bs) rest r (n, d) =
    elim (remove-cons_cases by_name app_name b bs rest r) [
      | inl (_, e) ↦ rw e d
      | inr (zs, _, q, e) ↦
          rw e (remove-no_host app_name b.host bs zs q n, remove-Distinct_hosts app_name bs zs q d)
    ]
