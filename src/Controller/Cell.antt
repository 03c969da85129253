-- ===== src/Controller/Cell.antt =====
-- A cluster that has at most one object of a kind, at which the theorems on the reconciler are applied.
use rpaas_operator.Prelude.{
  String, ◌≡◌, ◌==◌, refl, Bool, true, ◌&&◌, Option, none, some, arith, eq_iff, if◌then◌else◌,
  Bool-cases, inl, inr,
}
use rpaas_operator.Errors.{Error, api, is_missing}
use rpaas_operator.Result.{Result, ok, err}
use rpaas_operator.Controller.{Object, Objects}
use rpaas_operator.Controller.Settled.{IsStored, ObjectLaws, IsHealthy}

module _ {Spec : Type 0} where
  abbrev is_at : String → String → Object Spec → Bool
  is_at ns n x = x.namespace == ns && x.name == n

  abbrev get : String → String → Option (Object Spec) → Result (Object Spec)
  get ns n none = err (api is_missing)
  get ns n (some x) = if is_at ns n x then ok x else err (api is_missing)

  abbrev put : Object Spec → Option (Object Spec) → Result (Unit {0}) × Option (Object Spec)
  put x w = (ok tt, some x)

  abbrev pub cell : Objects (Option (Object Spec)) Spec
  cell = record { get = get; create = put; update = put; delete = λ x w. (ok tt, none) }

  get-ok :
      (ns n : String) (x : Object Spec) (w : Option (Object Spec))
      → get ns n w ≡ ok x
      → (x.namespace ≡ ns) × (x.name ≡ n)
  get-ok ns n x none h = cc
  get-ok ns n x (some y) h = elim (Bool-cases (is_at ns n y)) [
    | inl t ↦
        let same : y ≡ x = inside (rw t at h) in
        rw (← same) (ground (arith, t, eq_iff y.namespace ns, eq_iff y.name n))
    | inr t ↦ cc (rw t at h)
  ]
    where
      inside : {a c : Object Spec} → ok a ≡ ok c → a ≡ c
      inside p = cc

  get-err :
      (ns n : String) (w : Option (Object Spec)) (e : Error)
      → get ns n w ≡ err e
      → e ≡ api is_missing
  get-err ns n none e h = cc
  get-err ns n (some y) e h = ground (arith, h)

  is_at_self : (x : Object Spec) → is_at x.namespace x.name x ≡ true
  is_at_self x = ground (arith, eq_iff x.namespace x.namespace, eq_iff x.name x.name)

  stored : (x : Object Spec) → IsStored cell (λ s. s) x (some x)
  stored x = (x, rw (is_at_self x), refl, refl)

  pub cell_laws : ObjectLaws cell (λ s. s)
  cell_laws = record {
    get_key = get-ok;
    create_same = λ x w done. stored x;
    update_same = λ x w done. stored x;
    delete_same = λ x w done. (api is_missing, refl, refl);
  }

  pub cell_healthy : IsHealthy cell
  cell_healthy = record {
    reads = λ ns n w e h. rw (get-err ns n w e h);
    creates = λ x w e h. refl;
    updates = λ x old w h. refl;
    deletes = λ ns n x w h. refl;
  }
