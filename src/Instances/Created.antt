-- ===== src/Instances/Created.antt =====
-- What CreateInstance sends, and what is found after it.
use mathlib.Core.Path.{subst, subst₂}
use rpaas_operator.Prelude.{
  String, ◌==◌, ◌≡◌, ◌≤◌, ◌≢◌, inl, inr, refl, sym, ap, ◌∙◌, true, not, List, none, some, arith,
  eq_iff, Bool-cases, join, ltb, byte_length, if◌then◌else◌,
}
use rpaas_operator.Prelude.Keyed.{merge}
use rpaas_operator.Errors.{Error, is_not_found_error}
use rpaas_operator.Result.{
  Result, ok, err, >>=-eq-ok, reject_if-eq-ok, Result-cases, and_then, and_then-ok,
}
use rpaas_operator.Api.{RpaasInstance, NginxService, StringMap}
use rpaas_operator.Client.{RpaasConfig}
use rpaas_operator.Labels.{merge_map, label}
use rpaas_operator.Flavors.{validate_flavors}
use rpaas_operator.Manager.{Manager, get_instance, get_service_name, pool_namespace}
use rpaas_operator.Manager.Frame.{no_pool, in_pool, Found-get_instance}
use rpaas_operator.Parameters.{
  sort_strings, get_flavors, get_ip, get_plan_override, get_annotations,
}
use rpaas_operator.Plans.{RpaasPlan, Catalog, get_plan}
use rpaas_operator.Instances.{
  CreateArgs, Packages, label_key, labels_for_rpaas_instance, append_new_labels, set_team_owner,
  set_cluster_name, set_annotations, set_description, plan_template_of, blank_instance,
  new_instance,
}
use rpaas_operator.Instances.Network.{set_network-HasNetwork}
use rpaas_operator.Instances.Owners.{
  owned_labels, HasLabels, owned_labels-HasLabels, label-store_self,
}
use rpaas_operator.Instances.Operations.{
  reject_known, is_no_plan, or_exists, validate_create, ensure_namespace_exists, send_instance,
  create_instance,
}

-- The instance as it was asked for.
pub record IsCreated (packages : Packages) (config : RpaasConfig) (cluster_name : String)
    (args : CreateArgs) (ns : String) (plan : RpaasPlan) (j : RpaasInstance) : Type 0 where
  pub name : j.name ≡ args.name
  pub namespace : j.namespace ≡ ns
  pub plan_name : j.spec.plan_name ≡ plan.name
  pub flavors : get_flavors args.parameters args.tags ≡ ok j.spec.flavors
  pub labels :
      HasLabels cluster_name args.team (labels_for_rpaas_instance config args.name) j.labels
  pub shared : j.spec.pod_template.labels ≡ j.labels
  pub tags : label j.annotations (label_key "tags") ≡ join "," (sort_strings args.tags)
  pub template :
      plan_template_of packages (get_plan_override args.parameters (sort_strings args.tags))
      ≡ ok j.spec.plan_template
  pub ip :
      (s : NginxService) × (j.spec.service ≡ some s)
      × (s.load_balancer_ip ≡ get_ip args.parameters (sort_strings args.tags))

module _ (packages : Packages) (config : RpaasConfig) (cluster_name : String) (args : CreateArgs)
    (ns : String) (plan : RpaasPlan) where
  -- The instance before its network is written.
  abbrev owned : List String → StringMap → RpaasInstance
  owned flavors annotations = set_cluster_name cluster_name (
      set_team_owner args.team (
        set_annotations annotations
          (set_description args.description (blank_instance packages config args ns flavors plan))))

  owned-keeps :
      (flavors : List String) (annotations : StringMap)
      → ((owned flavors annotations).name ≡ args.name)
        × ((owned flavors annotations).namespace ≡ ns)
        × ((owned flavors annotations).spec.plan_name ≡ plan.name)
        × ((owned flavors annotations).spec.flavors ≡ flavors)
        × ((owned flavors annotations).spec.pod_template.labels
            ≡ (owned flavors annotations).labels)
        × ((owned flavors annotations).labels
            ≡ owned_labels cluster_name args.team (labels_for_rpaas_instance config args.name))
  unfolding set_annotations set_cluster_name set_team_owner set_description append_new_labels
      blank_instance merge_map merge
  owned-keeps flavors annotations = elim (Bool-cases (cluster_name == "")) [
    | inl t ↦ rw (t, set_cluster_name) (refl, refl, refl, refl, refl, refl)
    | inr t ↦ rw (t, set_cluster_name) (refl, refl, refl, refl, refl, refl)
  ]

  pub new_instance-IsCreated :
      (j : RpaasInstance)
      → new_instance packages config cluster_name args ns plan ≡ ok j
      → IsCreated packages config cluster_name args ns plan j
  unfolding new_instance
  new_instance-IsCreated j h =
      let (flavors, f, h₁) = >>=-eq-ok (get_flavors args.parameters args.tags) _ h in
      let (annotations, a, h₂) =
        >>=-eq-ok
          (get_annotations packages.checks config.forbidden_annotations_prefixes args.parameters) _
          h₁ in
      let net =
        set_network-HasNetwork packages config args.tags args.parameters (owned flavors annotations)
          j h₂ in
      let (name, namespace, plan_name, same_flavors, shared, labels) =
        owned-keeps flavors annotations in
      record {
        name = net.name ∙ name;
        namespace = net.namespace ∙ namespace;
        plan_name = ap (λ s. s.plan_name) net.rest ∙ plan_name;
        flavors = f ∙ ap (λ l. ok l) (sym (ap (λ s. s.flavors) net.rest ∙ same_flavors));
        labels =
            subst (HasLabels cluster_name args.team (labels_for_rpaas_instance config args.name))
              (sym (net.labels ∙ labels))
              (owned_labels-HasLabels cluster_name args.team
                (labels_for_rpaas_instance config args.name));
        shared = ap (λ s. s.pod_template.labels) net.rest ∙ shared ∙ sym net.labels;
        tags =
            ap (λ l. label l (label_key "tags")) net.annotations
            ∙ label-store_self (label_key "tags") (join "," (sort_strings args.tags))
                (owned flavors annotations).annotations;
        template = net.template;
        ip = net.ip;
      }

module _ (packages : Packages) (m : Manager) (cat : Catalog m.cli.World) where
  -- What the API documents of the creation of an object: it is found under its key.
  pub record CreatesInstances : Type 0 where
    pub create_same :
        (j : RpaasInstance) (w : m.cli.World)
        → (cat.create j w).0 ≡ ok tt
        → m.cli.get j.namespace j.name (cat.create j w).1 ≡ ok j

  -- A request that passes the checks, in a cluster with no instance of that name.
  pub record IsAccepted (args : CreateArgs) (w : m.cli.World) : Type 0 where
    pub name : args.name ≢ ""
    pub length : byte_length args.name ≤ 30
    pub dns_label : packages.is_dns1123_label args.name ≡ true
    pub team : args.team ≢ ""
    pub unknown : (e : Error) × (get_instance m args.name w ≡ err e) × (is_not_found_error e ≡ true)
    pub flavors :
        (fs : List String) × (get_flavors args.parameters args.tags ≡ ok fs)
        × (validate_flavors (cat.list_flavors (get_service_name m.config) w) none fs ≡ ok tt)

  reject_known-ok :
      (r : Result RpaasInstance)
      → reject_known r ≡ ok tt
      → (e : Error) × (r ≡ err e) × (is_not_found_error e ≡ true)
  unfolding reject_known
  reject_known-ok (ok i) h = cc
  reject_known-ok (err e) h = (e, refl, ground (arith, h))

  validate_create-IsAccepted :
      (args : CreateArgs) (w : m.cli.World)
      → validate_create packages m cat args w ≡ ok tt
      → IsAccepted args w
  unfolding validate_create
  validate_create-IsAccepted args w h =
      let (name, h₁) = reject_if-eq-ok (args.name == "") _ _ h in
      let (long, h₂) = reject_if-eq-ok (ltb 30 (byte_length args.name)) _ _ h₁ in
      let (label, h₃) = reject_if-eq-ok (not (packages.is_dns1123_label args.name)) _ _ h₂ in
      let (team, h₄) = reject_if-eq-ok (args.team == "") _ _ h₃ in
      let (plan, h₅) = reject_if-eq-ok (is_no_plan (get_plan m cat args.plan w)) _ _ h₄ in
      let (u, known, h₆) = >>=-eq-ok (reject_known (get_instance m args.name w)) _ h₅ in
      let (fs, f, valid) = >>=-eq-ok (get_flavors args.parameters args.tags) _ h₆ in
      record {
        name = ground (arith, name, eq_iff args.name "");
        length = ground (arith, long);
        dns_label = ground (arith, label);
        team = ground (arith, team, eq_iff args.team "");
        unknown = reject_known-ok (get_instance m args.name w) known;
        flavors = (fs, f, valid);
      }

  abbrev pool_or_service : String → String
  pool_or_service pool = if pool == "" then get_service_name m.config else pool

  ensured-pool :
      (ns : String) (w : m.cli.World)
      → (ensure_namespace_exists packages m cat w).0 ≡ ok ns
      → (pool : String) × (pool_namespace m ≡ ok pool) × (ns ≡ pool_or_service pool)
  unfolding ensure_namespace_exists
  ensured-pool ns w made = elim (Result-cases (pool_namespace m)) [
    | inr (e, p) ↦ absurd (refused e (rw (p, ensure_namespace_exists) at made))
    | inl (pool, p) ↦ (
      pool,
      p,
      created pool (or_exists (cat.create_namespace (pool_or_service pool) w))
          (rw (p, ensure_namespace_exists) at made),
    )
  ]
    where
      refused : (e : Error) → ◌≡◌ {A = Result String} (err e) (ok ns) → ⊥
      refused e p = cc

      created :
          (pool : String) (r : Result (Unit {0}) × m.cli.World)
          → (and_then r (λ _ v. (ok (pool_or_service pool), v))).0 ≡ ok ns
          → ns ≡ pool_or_service pool
      created pool (ok u, v) h = cc
      created pool (err e, v) h = cc

  -- An instance in the namespace that was made sure of is found.
  ensured-found :
      (name ns : String) (w v : m.cli.World) (j : RpaasInstance)
      → (ensure_namespace_exists packages m cat w).0 ≡ ok ns
      → m.cli.get ns name v ≡ ok j
      → get_instance m name v ≡ ok j
  ensured-found name ns w v j made there =
      let (pool, p, same) = ensured-pool ns w made in
      let stored = subst (λ n. m.cli.get n name v ≡ ok j) same there in
      Found-get_instance m name v j (elim (Bool-cases (pool == "")) [
        | inl t ↦ no_pool pool p t (subst (λ n. m.cli.get n name v ≡ ok j) (rw t refl) stored)
        | inr t ↦ in_pool pool p t (subst (λ n. m.cli.get n name v ≡ ok j) (rw t refl) stored)
      ])

  -- What CreateInstance has left.
  abbrev pub Leaves : CreateArgs → m.cli.World → Result (Unit {0}) × m.cli.World → Type 0
  Leaves args w r =
      (ns : String) × (plan : RpaasPlan) × (j : RpaasInstance) × (get_plan m cat args.plan
          (ensure_namespace_exists packages m cat w).1
        ≡ ok plan)
      × (get_instance m args.name r.1 ≡ ok j)
      × IsCreated packages m.config m.cluster_name args ns plan j

  send_instance-Leaves :
      (laws : CreatesInstances) (args : CreateArgs) (ns : String) (w : m.cli.World)
      → (ensure_namespace_exists packages m cat w).0 ≡ ok ns
      → (plan : Result RpaasPlan)
      → get_plan m cat args.plan (ensure_namespace_exists packages m cat w).1 ≡ plan
      → (send_instance packages m cat args ns (ensure_namespace_exists packages m cat w).1 plan).0
        ≡ ok tt
      → Leaves args w
          (send_instance packages m cat args ns (ensure_namespace_exists packages m cat w).1 plan)
  unfolding send_instance
  send_instance-Leaves laws args ns w made (err e) read done = cc
  send_instance-Leaves laws args ns w made (ok plan) read done =
      elim (Result-cases (new_instance packages m.config m.cluster_name args ns plan)) [
        | inr (e, f) ↦ absurd (refused e (rw (f, send_instance) at done))
        | inl (j, f) ↦ rw (f, send_instance) (sent j f (rw (f, send_instance) at done))
      ]
    where
      refused : (e : Error) → ◌≡◌ {A = Result (Unit {0})} (err e) (ok tt) → ⊥
      refused e p = cc

      sent :
          (j : RpaasInstance)
          → new_instance packages m.config m.cluster_name args ns plan ≡ ok j
          → (cat.create j (ensure_namespace_exists packages m cat w).1).0 ≡ ok tt
          → Leaves args w (cat.create j (ensure_namespace_exists packages m cat w).1)
      sent j f stored =
          let is = new_instance-IsCreated packages m.config m.cluster_name args ns plan j f in
          let there = laws.create_same j (ensure_namespace_exists packages m cat w).1 stored in
          let v = (cat.create j (ensure_namespace_exists packages m cat w).1).1 in
          (
            ns,
            plan,
            j,
            read,
            ensured-found args.name ns w v j made
                (subst₂ (λ a b. m.cli.get a b v ≡ ok j) is.namespace is.name there),
            is,
          )

  -- If CreateInstance returns no error, the request passed the checks (a DNS label of at most 30 bytes for a
  -- name, a team, flavors that are valid together), no instance of that name was found before, and the next
  -- read finds one of that name, with the plan and the flavors asked for, the labels of the service, the
  -- team and the cluster, on its pods too, and with the tags in order, the address and the plan template of
  -- the request. An object that is created is assumed to be found under its key.
  pub create_instance-IsCreated :
      (laws : CreatesInstances) (args : CreateArgs) (w : m.cli.World)
      → (create_instance packages m cat args w).0 ≡ ok tt
      → IsAccepted args w × Leaves args w (create_instance packages m cat args w)
  unfolding create_instance
  create_instance-IsCreated laws args w done =
      elim (Result-cases (validate_create packages m cat args w)) [
        | inr (e, v) ↦ absurd (refused e (rw (v, create_instance) at done))
        | inl (u, v) ↦ (
          validate_create-IsAccepted args w v,
          rw (v, create_instance) (sent (rw (v, create_instance) at done)),
        )
      ]
    where
      refused : (e : Error) → ◌≡◌ {A = Result (Unit {0})} (err e) (ok tt) → ⊥
      refused e p = cc

      rest : String → m.cli.World → Result (Unit {0}) × m.cli.World
      rest ns v = send_instance packages m cat args ns v (get_plan m cat args.plan v)

      sent :
          (and_then (ensure_namespace_exists packages m cat w) rest).0 ≡ ok tt
          → Leaves args w (and_then (ensure_namespace_exists packages m cat w) rest)
      sent passed =
          let (ns, made, same) =
            and_then-ok (ensure_namespace_exists packages m cat w) rest passed in
          subst (Leaves args w) (sym same) (
            send_instance-Leaves laws args ns w made
              (get_plan m cat args.plan (ensure_namespace_exists packages m cat w).1) refl
              (ap (λ r. r.0) (sym same) ∙ passed))
