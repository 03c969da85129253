-- ===== src/Instances/Tests.antt =====
-- A cluster in which an instance is created and updated, and the theorems there.
use rpaas_operator.Prelude.{
  String, ◌==◌, ◌≡◌, inr, refl, true, false, not, [], ◌∷◌, none, some, cut, has_prefix, str_ltb,
  byte_length, if◌then◌else◌,
}
use rpaas_operator.Prelude.Keyed.{find}
use rpaas_operator.Errors.{api, is_missing, not_found, validation, is_not_found_error}
use rpaas_operator.Result.{ok, err}
use rpaas_operator.Api.{RpaasInstance, NginxService}
use rpaas_operator.Flavors.{validate_flavors, check_once, check_all_added, check_all_removed}
use rpaas_operator.Manager.{get_instance, pool_namespace, get_service_name, modify}
use rpaas_operator.Samples.{manager, web, single_laws, get_self}
use rpaas_operator.Parameters.{
  insert_string, sort_strings, get_flavors, legacy_get_flavors, extract_tag_values, prefix_of,
  value_of_tag, last_char, get_plan_override, legacy_get_plan_override, get_load_balancer_name,
  get_annotations,
}
use rpaas_operator.Plans.{
  RpaasPlan, Catalog, insert_shown, sort_shown, shown_plans, shown_flavors, get_plans,
  get_named_plan, default_plans, only_plan, get_default_plan, get_plan, validate_plan, validated,
}
use rpaas_operator.Instances.{
  CreateArgs, UpdateInstanceArgs, Packages, append_new_labels, set_team_owner, set_cluster_name,
  set_annotations, set_description, set_tags, set_ip, set_load_balancer_name, plan_template_of,
  set_plan_template, set_network, with_update, new_instance,
}
use rpaas_operator.Instances.Operations.{
  is_no_plan, reject_known, or_exists, validate_create, ensure_namespace_exists, send_instance,
  create_instance, validate_update_instance_args, update_instance,
}
use rpaas_operator.Instances.Created.{
  CreatesInstances, IsAccepted, Leaves, create_instance-IsCreated,
}
use rpaas_operator.Instances.Updated.{
  IsUpdated, update_instance-IsUpdated, update_instance-no_default_plan,
}
use rpaas_operator.Instances.Tagged.{update_instance-tagged_ip}

abbrev packages : Packages
packages = record {
  checks = record {
    unmarshal = λ s. ok [];
    is_dns1123_subdomain = λ s. true;
    is_valid_label_value = λ s. true;
  };
  unmarshal_plan = λ s. none;
  is_semver = λ s. true;
  is_dns1123_label = λ s. not (s == "-");
}

abbrev small : RpaasPlan
small = record {
  name = "small";
  spec = record { image = ""; description = ""; is_default = false; rest = "" };
}

-- The plan `small`, which is no default plan; a new instance takes the place of the old one.
abbrev catalog : Catalog RpaasInstance
catalog = record {
  list_plans = λ ns w. ok (small ∷ []);
  get_plan = λ ns n w. if n == "small" then ok small else err (api is_missing);
  list_flavors = λ ns w. ok [];
  create_namespace = λ ns w. (ok tt, w);
  create = λ j w. (ok tt, j);
  delete = λ j w. (ok tt, w);
}

catalog_laws : CreatesInstances packages manager catalog
catalog_laws = record { create_same = λ j w done. get_self j }

abbrev create_args : CreateArgs
create_args = record {
  name = "api";
  plan = "small";
  team = "red";
  description = "the API";
  tags = "ip:10.0.0.1" ∷ "blue" ∷ [];
  parameters = [];
}

created : (create_instance packages manager catalog create_args web).0 ≡ ok tt
unfolding create_instance validate_create byte_length get_plan get_named_plan is_no_plan
    get_instance reject_known is_not_found_error get_flavors legacy_get_flavors extract_tag_values
    prefix_of value_of_tag last_char find validate_flavors check_once check_all_added
    check_all_removed ensure_namespace_exists pool_namespace get_service_name or_exists
    send_instance new_instance get_annotations set_network set_plan_template plan_template_of
    get_plan_override legacy_get_plan_override has_prefix cut sort_strings insert_string str_ltb
created = refl

create_instance-IsCreated_example :
    IsAccepted packages manager catalog create_args web
    × Leaves packages manager catalog create_args web
        (create_instance packages manager catalog create_args web)
create_instance-IsCreated_example =
    create_instance-IsCreated packages manager catalog catalog_laws create_args web created

abbrev update_args : String → UpdateInstanceArgs
update_args plan = record {
  team = "red";
  description = "the site";
  plan = plan;
  tags = "ip=10.0.0.1" ∷ "blue" ∷ [];
  parameters = [];
}

found : get_instance manager "web" web ≡ ok web
unfolding get_instance pool_namespace get_service_name
found = refl

updated : (update_instance packages manager catalog "web" (update_args "small") web).0 ≡ ok tt
unfolding update_instance modify get_instance pool_namespace get_service_name
    validate_update_instance_args validate_plan validated get_plan get_named_plan get_flavors
    legacy_get_flavors extract_tag_values prefix_of value_of_tag last_char find validate_flavors
    check_once check_all_added check_all_removed with_update get_annotations set_network
    set_plan_template plan_template_of get_plan_override legacy_get_plan_override has_prefix cut
    sort_strings insert_string str_ltb set_load_balancer_name set_ip set_tags set_annotations
    set_cluster_name set_team_owner set_description append_new_labels get_load_balancer_name
updated = refl

update_instance-IsUpdated_example :
    (j : RpaasInstance) × (get_instance manager "web"
        (update_instance packages manager catalog "web" (update_args "small") web).1
      ≡ ok j)
    × (validate_update_instance_args packages manager catalog web (update_args "small") web ≡ ok tt)
    × IsUpdated packages manager.config manager.cluster_name (update_args "small") web j
update_instance-IsUpdated_example =
    update_instance-IsUpdated packages manager catalog single_laws "web" (update_args "small") web
      web found updated

update_instance-tagged_ip_example :
    (j : RpaasInstance) × (s : NginxService) × (get_instance manager "web"
        (update_instance packages manager catalog "web" (update_args "small") web).1
      ≡ ok j)
    × (j.spec.service ≡ some s)
    × (s.load_balancer_ip ≡ "10.0.0.1")
unfolding prefix_of has_prefix find
update_instance-tagged_ip_example =
    update_instance-tagged_ip packages manager catalog single_laws "web" (update_args "small") web
      web [] ("blue" ∷ []) "10.0.0.1" "ip=" found updated refl refl (inr refl) refl refl

no_default : get_default_plan manager catalog web ≡ err (not_found "no default plan found")
unfolding get_default_plan get_plans rpaas_operator.Plans.get_flavors shown_plans shown_flavors
    sort_shown insert_shown default_plans get_named_plan only_plan
no_default = refl

is_missing_plan : is_not_found_error (not_found "no default plan found") ≡ true
unfolding is_not_found_error
is_missing_plan = refl

update_instance-no_default_plan_example :
    update_instance packages manager catalog "web" (update_args "") web
    ≡ (err (validation "invalid plan"), web)
update_instance-no_default_plan_example =
    update_instance-no_default_plan packages manager catalog single_laws "web" (update_args "") web
      web (not_found "no default plan found") found refl no_default is_missing_plan
