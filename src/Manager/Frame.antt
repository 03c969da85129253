-- ===== src/Manager/Frame.antt =====
-- What the frame of the manager's methods guarantees, whatever the change of the instance is.
use rpaas_operator.Prelude.{
  String, ◌≡◌, ◌≢◌, refl, sym, ap, ◌∙◌, ◌⊎◌, inl, inr, true, false, ◌==◌, Bool-cases,
}
use mathlib.Core.Path.{subst, subst₂}
use rpaas_operator.Errors.{Error}
use rpaas_operator.Result.{Result-cases, Result, ok, err, >>=-eq-ok}
use rpaas_operator.Api.{RpaasInstance}
use rpaas_operator.Client.{ClientLaws}
use rpaas_operator.Manager.{
  Manager, get_instance, or_else_in, or_not_found, pool_namespace, get_service_name, modify,
  is_api_missing,
}

-- A change leaves the identity of the instance alone.
abbrev pub KeepsKey : (RpaasInstance → Result RpaasInstance) → Type 0
KeepsKey f = (i j : RpaasInstance) → f i ≡ ok j → (j.namespace ≡ i.namespace) × (j.name ≡ i.name)

or_not_found-ok : (r : Result RpaasInstance) (i : RpaasInstance) → or_not_found r ≡ ok i → r ≡ ok i
unfolding or_not_found
or_not_found-ok (ok a) i h = h
or_not_found-ok (err e) i h = elim (Bool-cases (is_api_missing e)) [
  | inl t ↦ absurd (no_ok (rw t at h))
  | inr t ↦ rw t at h
]
  where
    no_ok : {e : Error} → err e ≡ ok i → ⊥
    no_ok p = cc

-- The pool's read was the answer, or it missed and the service's was.
or_else_in-ok :
    (p r : Result RpaasInstance) (i : RpaasInstance)
    → or_else_in p r ≡ ok i
    → (p ≡ ok i) ⊎ ((e : Error) × (p ≡ err e) × (is_api_missing e ≡ true) × (r ≡ ok i))
unfolding or_else_in
or_else_in-ok (ok a) r i h = inl h
or_else_in-ok (err e) r i h = elim (Bool-cases (is_api_missing e)) [
  | inl t ↦ inr (e, refl, t, rw t at h)
  | inr t ↦ inl (rw t at h)
]

module _ (m : Manager) where
  abbrev service_name : String
  service_name = get_service_name m.config

  -- Where `get_instance` found the instance: with no pool, in the pool's namespace, or in the
  -- service's namespace after the pool's has no such object.
  pub data Found (name : String) (w : m.cli.World) (i : RpaasInstance) : Type 0 where
    no_pool :
        (ns : String)
        → pool_namespace m ≡ ok ns
        → (ns == "") ≡ true
        → m.cli.get service_name name w ≡ ok i
        → Found name w i
    in_pool :
        (ns : String)
        → pool_namespace m ≡ ok ns
        → (ns == "") ≡ false
        → m.cli.get ns name w ≡ ok i
        → Found name w i
    beside_pool :
        (ns : String) (e : Error)
        → pool_namespace m ≡ ok ns
        → (ns == "") ≡ false
        → m.cli.get ns name w ≡ err e
        → is_api_missing e ≡ true
        → m.cli.get service_name name w ≡ ok i
        → Found name w i

  get_instance-Found :
      (name : String) (w : m.cli.World) (i : RpaasInstance)
      → get_instance m name w ≡ ok i
      → Found name w i
  unfolding get_instance
  get_instance-Found name w i h =
      let (ns, p, g) = >>=-eq-ok (pool_namespace m) _ h in
      elim (Bool-cases (ns == "")) [
        | inl t ↦ no_pool ns p t (or_not_found-ok _ i (rw t at g))
        | inr t ↦ elim (or_else_in-ok _ _ i (rw t at g)) [
          | inl q ↦ in_pool ns p t q
          | inr (e, q, missing, s) ↦ beside_pool ns e p t q missing (or_not_found-ok _ i s)
        ]
      ]

  pub get_instance_cong :
      (name : String) (w' w : m.cli.World)
      → ((ns : String) → m.cli.get ns name w' ≡ m.cli.get ns name w)
      → get_instance m name w' ≡ get_instance m name w
  unfolding get_instance
  get_instance_cong name w' w same = elim (Result-cases (pool_namespace m)) [
    | inl (ns, p) ↦ rw (p, same (get_service_name m.config), same ns)
    | inr (e, p) ↦ rw p
  ]

  pub Found-get_instance :
      (name : String) (w : m.cli.World) (i : RpaasInstance)
      → Found name w i
      → get_instance m name w ≡ ok i
  unfolding get_instance
  Found-get_instance name w i (no_pool ns p t g) = rw (p, t, g)
  Found-get_instance name w i (in_pool ns p t g) = rw (p, t, g)
  Found-get_instance name w i (beside_pool ns e p t q missing g) = rw (p, t, q, missing, g)

module _ (m : Manager) (laws : ClientLaws m.cli) where
  -- An instance that was found is stored under its own key, which is the name asked for.
  pub get_instance-key :
      (name : String) (w : m.cli.World) (i : RpaasInstance)
      → get_instance m name w ≡ ok i
      → (m.cli.get i.namespace i.name w ≡ ok i) × (i.name ≡ name)
  get_instance-key name w i h = go (get_instance-Found m name w i h)
    where
      stored :
          (ns : String)
          → m.cli.get ns name w ≡ ok i
          → (m.cli.get i.namespace i.name w ≡ ok i) × (i.name ≡ name)
      stored ns g =
          let (same_ns, same_name) = laws.get_key ns name i w g in
          (subst₂ (λ a b. m.cli.get a b w ≡ ok i) (sym same_ns) (sym same_name) g, same_name)

      go : Found m name w i → (m.cli.get i.namespace i.name w ≡ ok i) × (i.name ≡ name)
      go (no_pool ns p t g) = stored _ g
      go (in_pool ns p t g) = stored _ g
      go (beside_pool ns e p t q missing g) = stored _ g

  -- Once another instance stands under the key, and nothing else has changed, it is the one found.
  Found-after :
      (name : String) (w w' : m.cli.World) (i j : RpaasInstance)
      → Found m name w i
      → m.cli.get i.namespace i.name w' ≡ ok j
      → ((ns n : String) → (ns ≢ i.namespace) ⊎ (n ≢ i.name) → m.cli.get ns n w' ≡ m.cli.get ns n w)
      → Found m name w' j
  Found-after name w w' i j (no_pool ns p t g) now rest =
      let (same_ns, same_name) = laws.get_key _ name i w g in
      no_pool ns p t (subst₂ (λ a b. m.cli.get a b w' ≡ ok j) same_ns same_name now)
  Found-after name w w' i j (in_pool ns p t g) now rest =
      let (same_ns, same_name) = laws.get_key _ name i w g in
      in_pool ns p t (subst₂ (λ a b. m.cli.get a b w' ≡ ok j) same_ns same_name now)
  Found-after name w w' i j (beside_pool ns e p t q missing g) now rest =
      let (same_ns, same_name) = laws.get_key _ name i w g in
      beside_pool ns e p t
        (rest ns name
            (inl λ same. err_ok (sym q ∙ ap (λ a. m.cli.get a name w) (same ∙ same_ns) ∙ g))
          ∙ q)
        missing (subst₂ (λ a b. m.cli.get a b w' ≡ ok j) same_ns same_name now)
    where
      err_ok : err e ≡ ok i → ⊥
      err_ok p = cc

  -- A patch of the instance that was found, which went through, is what the next read finds.
  pub patch-commits :
      (name : String) (w : m.cli.World) (i j : RpaasInstance)
      → get_instance m name w ≡ ok i
      → j.namespace ≡ i.namespace
      → j.name ≡ i.name
      → (m.cli.patch i j w).0 ≡ ok tt
      → get_instance m name (m.cli.patch i j w).1 ≡ ok j
  patch-commits name w i j h same_ns same_name done =
      Found-get_instance m name (m.cli.patch i j w).1 j (
        Found-after name w (m.cli.patch i j w).1 i j (get_instance-Found m name w i h)
          (laws.patch_same i j w (get_instance-key name w i h).0 same_ns same_name done)
          (λ ns n other. laws.patch_other i j ns n w other))

  module _ (name : String) (f : RpaasInstance → Result RpaasInstance) (w : m.cli.World) where
    -- A refused change leaves the cluster as it was, and returns the refusal.
    pub modify-err :
        (i : RpaasInstance) (e : Error)
        → get_instance m name w ≡ ok i
        → f i ≡ err e
        → modify m name f w ≡ (err e, w)
    unfolding modify
    modify-err i e h r = rw (h, r, modify)

    modify_sends :
        (i j : RpaasInstance)
        → get_instance m name w ≡ ok i
        → f i ≡ ok j
        → modify m name f w ≡ m.cli.patch i j w
    unfolding modify
    modify_sends i j h r = rw (h, r, modify)

    -- A change that went through is what the next read finds.
    pub modify-commits :
        (i j : RpaasInstance)
        → KeepsKey f
        → get_instance m name w ≡ ok i
        → f i ≡ ok j
        → (modify m name f w).0 ≡ ok tt
        → get_instance m name (modify m name f w).1 ≡ ok j
    modify-commits i j keeps h r =
        subst (λ s. s.0 ≡ ok tt → get_instance m name s.1 ≡ ok j) (sym (modify_sends i j h r))
          λ done.
            let (same_ns, same_name) = keeps i j r in
            patch-commits name w i j h same_ns same_name done

    -- A refused patch changes no read.
    modify_failed :
        (i j : RpaasInstance) (e : Error)
        → get_instance m name w ≡ ok i
        → f i ≡ ok j
        → (modify m name f w).0 ≡ err e
        → get_instance m name (modify m name f w).1 ≡ get_instance m name w
    modify_failed i j e h r =
        subst (λ s. s.0 ≡ err e → get_instance m name s.1 ≡ get_instance m name w)
          (sym (modify_sends i j h r))
          λ failed.
            get_instance_cong m name (m.cli.patch i j w).1 w
              (λ ns. laws.patch_failed i j ns name w e failed)

    -- Whatever the method returns, a read afterwards finds the instance as it was, or changed by `f`.
    pub modify_outcome :
        (i : RpaasInstance)
        → KeepsKey f
        → get_instance m name w ≡ ok i
        → (k : RpaasInstance) × (get_instance m name (modify m name f w).1 ≡ ok k)
          × ((k ≡ i) ⊎ (f i ≡ ok k))
    modify_outcome i keeps h = elim (Result-cases (f i)) [
      | inr (e, r) ↦
          (i, subst (λ s. get_instance m name s.1 ≡ ok i) (sym (modify-err i e h r)) h, inl refl)
      | inl (j, r) ↦ elim (Result-cases (modify m name f w).0) [
        | inl (u, done) ↦ (j, modify-commits i j keeps h r done, inr r)
        | inr (e, failed) ↦ (i, modify_failed i j e h r failed ∙ h, inl refl)
      ]
    ]

    -- So what holds before and is kept by `f` holds afterwards.
    pub modify-keeps :
        {P : RpaasInstance → Type 0} (i : RpaasInstance)
        → KeepsKey f
        → ((j : RpaasInstance) → f i ≡ ok j → P j)
        → P i
        → get_instance m name w ≡ ok i
        → (k : RpaasInstance) × (get_instance m name (modify m name f w).1 ≡ ok k) × P k
    modify-keeps {P} i keeps step start h =
        let (k, now, is) = modify_outcome i keeps h in
        (k, now, elim is [ inl same ↦ subst P (sym same) start | inr r ↦ step k r ])
