-- ===== src/Samples.antt =====
-- A cluster that holds one instance, and small data, at which the theorems are applied.
use rpaas_operator.Prelude.{
  String, ◌≡◌, ◌≢◌, ◌⊎◌, refl, Bool, true, false, ◌&&◌, [], none, arith, eq_iff, ◌==◌,
  if◌then◌else◌, Bool-cases, ◌↔◌, inl, inr,
}
use rpaas_operator.Prelude.Int.{pos}
use rpaas_operator.Errors.{Error, api, is_missing}
use rpaas_operator.Result.{Result, ok, err}
use rpaas_operator.Api.{RpaasInstance, RpaasInstanceSpec}
use rpaas_operator.Client.{RpaasConfig, Client, ClientLaws}
use rpaas_operator.Manager.{Manager}

abbrev is_at : String → String → RpaasInstance → Bool
is_at ns n i = i.namespace == ns && i.name == n

abbrev get : String → String → RpaasInstance → Result RpaasInstance
get ns n w = if is_at ns n w then ok w else err (api is_missing)

abbrev update : RpaasInstance → RpaasInstance → Result (Unit {0}) × RpaasInstance
update j w = if is_at j.namespace j.name w then (ok tt, j) else (err (api is_missing), w)

abbrev patch : RpaasInstance → RpaasInstance → RpaasInstance → Result (Unit {0}) × RpaasInstance
patch i j w = if is_at i.namespace i.name j then update j w else (err (api is_missing), w)

abbrev pub single : Client
single = record { World = RpaasInstance; get = get; patch = patch; update = update }

is_at_iff :
    (ns n : String) (i : RpaasInstance)
    → (is_at ns n i ≡ true) ↔ ((i.namespace ≡ ns) × (i.name ≡ n))
is_at_iff ns n i = ground (arith, eq_iff i.namespace ns, eq_iff i.name n)

get-ok : (ns n : String) (w i : RpaasInstance) → get ns n w ≡ ok i → (is_at ns n w ≡ true) × (w ≡ i)
get-ok ns n w i h = elim (Bool-cases (is_at ns n w)) [
  | inl t ↦ (t, cc (rw t at h))
  | inr t ↦ cc (rw t at h)
]

-- An object that is somewhere else is not read.
away :
    (ns n ns' n' : String) (w : RpaasInstance)
    → (ns ≢ ns') ⊎ (n ≢ n')
    → is_at ns' n' w ≡ true
    → is_at ns n w ≡ false
away ns n ns' n' w d t =
    ground (arith, eq_iff w.namespace ns, eq_iff w.name n, eq_iff w.namespace ns', eq_iff w.name n')

get-update_other :
    (j : RpaasInstance) (ns n : String) (w : RpaasInstance)
    → (ns ≢ j.namespace) ⊎ (n ≢ j.name)
    → get ns n (update j w).1 ≡ get ns n w
get-update_other j ns n w d = elim (Bool-cases (is_at j.namespace j.name w)) [
  | inl t ↦ rw (
    t,
    away ns n j.namespace j.name w d t,
    away ns n j.namespace j.name j d ((is_at_iff j.namespace j.name j).1 (refl, refl)),
  )
  | inr t ↦ rw t
]

pub get_self : (j : RpaasInstance) → get j.namespace j.name j ≡ ok j
get_self j = rw ((is_at_iff j.namespace j.name j).1 (refl, refl))

update-ok : (j w : RpaasInstance) → (update j w).0 ≡ ok tt → (update j w).1 ≡ j
update-ok j w d = elim (Bool-cases (is_at j.namespace j.name w)) [
  | inl t ↦ rw t
  | inr t ↦ cc (rw t at d)
]

update-err : (j w : RpaasInstance) (e : Error) → (update j w).0 ≡ err e → (update j w).1 ≡ w
update-err j w e f = elim (Bool-cases (is_at j.namespace j.name w)) [
  | inl t ↦ cc (rw t at f)
  | inr t ↦ rw t
]

-- A patch is an update under the same key, or is refused.
patch_cases :
    (i j w : RpaasInstance)
    → ((j.namespace ≡ i.namespace) × (j.name ≡ i.name) × (patch i j w ≡ update j w))
      ⊎ (patch i j w ≡ (err (api is_missing), w))
patch_cases i j w = elim (Bool-cases (is_at i.namespace i.name j)) [
  | inl t ↦ let (p, q) = (is_at_iff i.namespace i.name j).0 t in inl (p, q, rw t)
  | inr t ↦ inr (rw t)
]

patch-ok : (i j w : RpaasInstance) → (patch i j w).0 ≡ ok tt → (patch i j w).1 ≡ j
patch-ok i j w d = elim (patch_cases i j w) [
  | inl (_, _, same) ↦ rw same (update-ok j w (rw same at d))
  | inr same ↦ cc (rw same at d)
]

patch-err : (i j w : RpaasInstance) (e : Error) → (patch i j w).0 ≡ err e → (patch i j w).1 ≡ w
patch-err i j w e f = elim (patch_cases i j w) [
  | inl (_, _, same) ↦ rw same (update-err j w e (rw same at f))
  | inr same ↦ rw same
]

get-patch_other :
    (i j : RpaasInstance) (ns n : String) (w : RpaasInstance)
    → (ns ≢ i.namespace) ⊎ (n ≢ i.name)
    → get ns n (patch i j w).1 ≡ get ns n w
get-patch_other i j ns n w d = elim (patch_cases i j w) [
  | inl (p, q, same) ↦ rw same (get-update_other j ns n w (rw (p, q) d))
  | inr same ↦ rw same
]

pub single_laws : ClientLaws single
single_laws = record {
  get_key = λ ns n i w h. let (t, same) = get-ok ns n w i h in (is_at_iff ns n i).0 (rw same at t);
  patch_same =
      λ i j w h p q d. rw (patch-ok i j w d) (rw ((is_at_iff i.namespace i.name j).1 (p, q)));
  patch_other = λ i j ns n w d. get-patch_other i j ns n w d;
  patch_failed = λ i j ns n w e f. rw (patch-err i j w e f);
  update_same = λ j w d. rw (update-ok j w d) (get_self j);
  update_other = λ j ns n w d. get-update_other j ns n w d;
  update_failed = λ j ns n w e f. rw (update-err j w e f);
}

abbrev pub empty_spec : RpaasInstanceSpec
empty_spec = record {
  replicas = none;
  plan_name = "small";
  plan_namespace = "";
  plan_template = none;
  flavors = [];
  binds = [];
  upstream_options = [];
  blocks = [];
  server_blocks = [];
  locations = [];
  dns = none;
  service = none;
  files = [];
  pod_template = record { affinity = none; annotations = []; labels = []; containers = [] };
  autoscale = none;
  allowed_upstreams = [];
  dynamic_certificates = none;
  shutdown = false;
  tls_session_resumption = none;
  enable_pod_disruption_budget = none;
  config_history_limit = none;
}

abbrev pub instance_with : RpaasInstanceSpec → RpaasInstance
instance_with spec = record {
  name = "web";
  namespace = "rpaasv2";
  labels = [];
  annotations = [];
  spec = spec;
}

abbrev pub web : RpaasInstance
web = instance_with empty_spec

abbrev pub plain_config : RpaasConfig
plain_config = record {
  service_name = "";
  namespaced_instances = false;
  enable_cert_manager = true;
  default_cert_manager_issuer = "";
  config_deny_patterns = [];
  new_instance_replicas = pos 0;
  load_balancer_name_label_key = "";
  forbidden_annotations_prefixes = [];
  default_affinity = none;
  team_affinity = [];
}

abbrev pub manager : Manager
manager = record { cli = single; cluster_name = ""; pool_name = ""; config = plain_config }
