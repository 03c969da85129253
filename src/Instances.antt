-- ===== src/Instances.antt =====
-- internal/pkg/rpaas/k8s.go: what a request to create or to update an instance writes into it.
-- The maps that CreateInstance shares between the instance, its pods and its service are written to by
-- appendNewLabels only, which writes each of them the same, so that they are copies here.
pub mod Operations
pub mod Network
pub mod Owners
pub mod Annotated
pub mod Labelled
pub mod Updated
pub mod Tagged
pub mod Created
mod Tests
use Prim.Native.String
use rpaas_operator.Prelude.{
  String, ◌==◌, Bool, true, false, not, List, [], ◌∷◌, Option, none, some, cut, has_prefix, join,
  nat_eq, if◌then◌else◌,
}
use rpaas_operator.Prelude.Int.{ℤ, pos, negsuc, int32_of_positive}
use rpaas_operator.Prelude.Keyed.{find, store}
use rpaas_operator.Errors.{plain, validation}
use rpaas_operator.Result.{Result, ok, err, ◌>>=◌, ◌>>◌, reject_if}
use rpaas_operator.Api.{
  RpaasInstance, RpaasInstanceSpec, NginxService, PodTemplate, RpaasPlanSpec, StringMap,
}
use rpaas_operator.Client.{RpaasConfig}
use rpaas_operator.Labels.{by_label, merge_map, cluster_name_label_key}
use rpaas_operator.Manager.{get_service_name}
use rpaas_operator.Parameters.{
  Parameters, Checks, sort_strings, get_flavors, get_ip, get_plan_override, get_load_balancer_name,
  get_annotations,
}
use rpaas_operator.Plans.{RpaasPlan}

pub record CreateArgs : Type 0 where
  pub name : String
  pub plan : String
  pub team : String
  pub description : String
  pub tags : List String
  pub parameters : Parameters

pub record UpdateInstanceArgs : Type 0 where
  pub team : String
  pub description : String
  pub plan : String
  pub tags : List String
  pub parameters : Parameters

-- What is taken from packages besides: encoding/json on a plan, semver, and a check of names.
pub record Packages : Type 0 where
  pub checks : Checks
  pub unmarshal_plan : String → Option RpaasPlanSpec
  pub is_semver : String → Bool
  pub is_dns1123_label : String → Bool

abbrev pub team_owner_label_key : String
team_owner_label_key = "rpaas.extensions.tsuru.io/team-owner"

-- `v1alpha1.RpaasInstanceSpec{}`
abbrev pub zero_spec : RpaasInstanceSpec
zero_spec = record {
  replicas = none;
  plan_name = "";
  plan_namespace = "";
  plan_template = none;
  flavors = [];
  binds = [];
  upstream_options = [];
  blocks = [];
  server_blocks = [];
  locations = [];
  dns = none;
  service = none;
  files = [];
  pod_template = record { affinity = none; annotations = []; labels = []; containers = [] };
  autoscale = none;
  allowed_upstreams = [];
  dynamic_certificates = none;
  shutdown = false;
  tls_session_resumption = none;
  enable_pod_disruption_budget = none;
  config_history_limit = none;
}

unfoldable pub label_key : String → String
label_key name = String.◌++◌ "rpaas.extensions.tsuru.io/" name

unfoldable pub labels_for_rpaas_instance : RpaasConfig → String → StringMap
unfolding label_key get_service_name
labels_for_rpaas_instance config name =
    (label_key "service-name", get_service_name config)
    ∷ (label_key "instance-name", name)
    ∷ ("rpaas_service", get_service_name config)
    ∷ ("rpaas_instance", name)
    ∷ []

unfoldable pub get_affinity : RpaasConfig → String → Option String
unfolding find
get_affinity config team = elim (find by_label team config.team_affinity) [
  | some (_, affinity) ↦ some affinity
  | none ↦ config.default_affinity
]

unfoldable pub append_new_labels : StringMap → RpaasInstance → RpaasInstance
unfolding merge_map
append_new_labels new_labels i = record i {
  labels = merge_map i.labels new_labels;
  annotations = merge_map i.annotations new_labels;
  spec = record i.spec {
    pod_template = record i.spec.pod_template {
      labels = merge_map i.spec.pod_template.labels new_labels;
    };
    service = elim i.spec.service [
      | none ↦ none
      | some s ↦ some (record s { labels = merge_map s.labels new_labels })
    ];
  };
}

unfoldable pub set_team_owner : String → RpaasInstance → RpaasInstance
unfolding append_new_labels
set_team_owner team = append_new_labels ((team_owner_label_key, team) ∷ [])

-- `if m.clusterName != "" { instance.SetClusterName(m.clusterName) }`
unfoldable pub set_cluster_name : String → RpaasInstance → RpaasInstance
unfolding append_new_labels
set_cluster_name cluster_name i =
    if cluster_name == ""
    then i
    else append_new_labels ((cluster_name_label_key, cluster_name) ∷ []) i

unfoldable pub set_annotations : StringMap → RpaasInstance → RpaasInstance
unfolding merge_map
set_annotations annotations i = record i { annotations = merge_map i.annotations annotations }

unfoldable pub set_description : String → RpaasInstance → RpaasInstance
unfolding set_annotations label_key
set_description description = set_annotations ((label_key "description", description) ∷ [])

-- The tags are sorted in place, so that what reads them later sees them sorted.
unfoldable pub set_tags : List String → RpaasInstance → RpaasInstance
unfolding set_annotations label_key sort_strings join
set_tags tags = set_annotations ((label_key "tags", join "," (sort_strings tags)) ∷ [])

-- The service that the instance has, or a new one.
unfoldable pub service_or_new : Option NginxService → NginxService
service_or_new none = record { annotations = []; labels = []; load_balancer_ip = "" }
service_or_new (some s) = s

unfoldable pub set_ip : String → RpaasInstance → RpaasInstance
unfolding service_or_new
set_ip ip i = record i {
  spec = record i.spec {
    service = some (record (service_or_new i.spec.service) { load_balancer_ip = ip });
  };
}

unfoldable pub set_load_balancer_name : RpaasConfig → String → RpaasInstance → RpaasInstance
unfolding service_or_new store
set_load_balancer_name config lb_name i =
    let key = config.load_balancer_name_label_key in
    let service = service_or_new i.spec.service in
    let named = record i {
      spec = record i.spec {
        service =
            some
              (record service { annotations = store by_label (key, lb_name) service.annotations });
      };
    } in
    if lb_name == "" then i else if key == "" then i else named

-- The check of the image of a plan that is given in the request.
unfoldable pub check_image : (String → Bool) → String → Result (Unit {0})
check_image is_semver image = elim (cut ":" image) [
  | none ↦ err (validation "image must follow the format 'repository:tag'")
  | some (_, tag) ↦ do
    reject_if (tag == "") (validation "image tag cannot be empty")
    reject_if (not (is_semver (if has_prefix tag "v" then tag else String.◌++◌ "v" tag)))
        (validation "image tag '%s' is not a valid semantic version")
]

module _ (packages : Packages) where
  -- The plan of the request, none if there is no text for it.
  unfoldable pub plan_template_of : String → Result (Option RpaasPlanSpec)
  unfolding check_image
  plan_template_of override =
      if override == "" then ok none else elim (packages.unmarshal_plan override) [
        | none ↦ err (plain "unable to unmarshal plan-override on plan spec: %w")
        | some spec ↦
            (if spec.image == "" then ok tt else check_image packages.is_semver spec.image)
            >> ok (some spec)
      ]

  unfoldable pub set_plan_template : String → RpaasInstance → Result RpaasInstance
  unfolding plan_template_of
  set_plan_template override i = do
    template ← plan_template_of override
    ok (record i { spec = record i.spec { plan_template = template } })

  -- What both requests write after the labels and the annotations.
  unfoldable pub set_network :
      RpaasConfig → List String → Parameters → RpaasInstance → Result RpaasInstance
  unfolding set_tags set_ip set_load_balancer_name set_plan_template get_ip get_plan_override
      get_load_balancer_name
  set_network config tags params i =
      set_plan_template (get_plan_override params (sort_strings tags)) (
        set_load_balancer_name config (get_load_balancer_name params)
          (set_ip (get_ip params (sort_strings tags)) (set_tags tags i)))

  -- What UpdateInstance does to the instance that it has read.
  unfoldable pub with_update :
      RpaasConfig → String → UpdateInstanceArgs → RpaasInstance → Result RpaasInstance
  unfolding set_network set_team_owner set_cluster_name set_annotations set_description get_flavors
      get_annotations
  with_update config cluster_name args i = do
    flavors ← get_flavors args.parameters args.tags
    annotations ←
        get_annotations packages.checks config.forbidden_annotations_prefixes args.parameters
    let planned = record i {
      spec = record i.spec {
        plan_name = if args.plan == "" then i.spec.plan_name else args.plan;
        flavors = flavors;
      };
    }
    set_network config args.tags args.parameters (
        set_annotations annotations (
          set_cluster_name cluster_name
            (set_team_owner args.team (set_description args.description planned))))

  -- newRpaasInstance with the spec of CreateInstance, before the request is written into it.
  unfoldable pub blank_instance :
      RpaasConfig → CreateArgs → String → List String → RpaasPlan → RpaasInstance
  unfolding labels_for_rpaas_instance get_affinity get_service_name
  blank_instance config args ns flavors plan =
      let labels = labels_for_rpaas_instance config args.name in
      record {
        name = args.name;
        namespace = ns;
        labels = labels;
        annotations = [];
        spec = record zero_spec {
          replicas = elim config.new_instance_replicas [
            | negsuc _ ↦ some (pos 1)
            | pos n ↦ some (if nat_eq n 0 then pos 1 else int32_of_positive n)
          ];
          plan_name = plan.name;
          flavors = flavors;
          service = some (record { annotations = []; labels = labels; load_balancer_ip = "" });
          pod_template = record {
            affinity = get_affinity config args.team;
            annotations = [];
            labels = labels;
            containers = [];
          };
          plan_namespace = if config.namespaced_instances then get_service_name config else "";
        };
      }

  -- The instance that CreateInstance sends.
  unfoldable pub new_instance :
      RpaasConfig → String → CreateArgs → String → RpaasPlan → Result RpaasInstance
  unfolding blank_instance set_network set_team_owner set_cluster_name set_annotations
      set_description get_flavors get_annotations
  new_instance config cluster_name args ns plan = do
    flavors ← get_flavors args.parameters args.tags
    annotations ←
        get_annotations packages.checks config.forbidden_annotations_prefixes args.parameters
    set_network config args.tags args.parameters (
        set_cluster_name cluster_name (
          set_team_owner args.team (
            set_annotations annotations
              (set_description args.description (blank_instance config args ns flavors plan)))))
