-- ===== src/Instances/Network.antt =====
-- What the requests write into the service of an instance, and the plan that is given in the request.
use mathlib.Core.Path.{subst}
use rpaas_operator.Prelude.{
  String, ◌==◌, ◌≡◌, ◌⊎◌, inl, inr, refl, sym, ap, ◌∙◌, List, false, Option, some, Bool-cases, join,
}
use rpaas_operator.Prelude.Keyed.{find, store, merge}
use rpaas_operator.Prelude.Keyed.Laws.{find-store}
use rpaas_operator.Result.{ok, >>=-eq-ok}
use rpaas_operator.Api.{RpaasInstance, NginxService, RpaasPlanSpec, StringMap}
use rpaas_operator.Client.{RpaasConfig}
use rpaas_operator.Labels.{by_label, merge_map}
use rpaas_operator.Parameters.{
  Parameters, sort_strings, get_ip, get_plan_override, get_load_balancer_name,
}
use rpaas_operator.Instances.{
  Packages, label_key, set_annotations, set_tags, service_or_new, set_ip, set_load_balancer_name,
  plan_template_of, set_plan_template, set_network,
}

-- The name of the load balancer is written into the service, or nowhere.
set_load_balancer_name_cases :
    (config : RpaasConfig) (name : String) (i : RpaasInstance)
    → (set_load_balancer_name config name i ≡ i)
      ⊎ (set_load_balancer_name config name i ≡ record i {
        spec = record i.spec {
          service = some (record (service_or_new i.spec.service) {
            annotations =
                store by_label
                  (config.load_balancer_name_label_key, name)
                  (service_or_new i.spec.service).annotations;
          });
        };
      })
unfolding set_load_balancer_name
set_load_balancer_name_cases config name i = elim (Bool-cases (name == "")) [
  | inl t ↦ inl (rw (t, set_load_balancer_name) refl)
  | inr t ↦ elim (Bool-cases (config.load_balancer_name_label_key == "")) [
    | inl e ↦ inl (rw (t, e, set_load_balancer_name) refl)
    | inr e ↦ inr (rw (t, e, set_load_balancer_name) refl)
  ]
]

-- What the part that both requests share has written into an instance.
pub record HasNetwork (packages : Packages) (config : RpaasConfig) (tags : List String)
    (params : Parameters) (i j : RpaasInstance) : Type 0 where
  pub name : j.name ≡ i.name
  pub namespace : j.namespace ≡ i.namespace
  pub labels : j.labels ≡ i.labels
  pub annotations :
      j.annotations ≡ store by_label (label_key "tags", join "," (sort_strings tags)) i.annotations
  pub template :
      plan_template_of packages (get_plan_override params (sort_strings tags))
      ≡ ok j.spec.plan_template
  pub ip :
      (s : NginxService) × (j.spec.service ≡ some s)
      × (s.load_balancer_ip ≡ get_ip params (sort_strings tags))
  pub service_labels :
      (service_or_new j.spec.service).labels ≡ (service_or_new i.spec.service).labels
  pub service_annotations :
      (k : String)
      → (config.load_balancer_name_label_key == k) ≡ false
      → find by_label k (service_or_new j.spec.service).annotations
        ≡ find by_label k (service_or_new i.spec.service).annotations
  pub rest :
      j.spec ≡ record i.spec { service = j.spec.service; plan_template = j.spec.plan_template }

abbrev templated : Option RpaasPlanSpec → RpaasInstance → RpaasInstance
templated t i = record i { spec = record i.spec { plan_template = t } }

abbrev annotated : StringMap → RpaasInstance → RpaasInstance
annotated annotations i = record i {
  spec = record i.spec {
    service = some (record (service_or_new i.spec.service) { annotations = annotations });
  };
}

module _ (packages : Packages) (config : RpaasConfig) (tags : List String) (params : Parameters)
    (i : RpaasInstance) where
  abbrev addressed : RpaasInstance
  addressed = set_ip (get_ip params (sort_strings tags)) (set_tags tags i)

  addressed-HasNetwork :
      (t : Option RpaasPlanSpec)
      → plan_template_of packages (get_plan_override params (sort_strings tags)) ≡ ok t
      → HasNetwork packages config tags params i (templated t addressed)
  unfolding set_ip set_tags set_annotations merge_map merge service_or_new
  addressed-HasNetwork t template = record {
    name = refl;
    namespace = refl;
    labels = refl;
    annotations = refl;
    template = template;
    ip = (_, refl, refl);
    service_labels = refl;
    service_annotations = λ k a. refl;
    rest = refl;
  }

  abbrev named : StringMap
  named =
      store by_label (config.load_balancer_name_label_key, get_load_balancer_name params)
        (service_or_new i.spec.service).annotations

  named-HasNetwork :
      (t : Option RpaasPlanSpec)
      → plan_template_of packages (get_plan_override params (sort_strings tags)) ≡ ok t
      → HasNetwork packages config tags params i (templated t (annotated named addressed))
  unfolding set_ip set_tags set_annotations merge_map merge service_or_new
  named-HasNetwork t template = record {
    name = refl;
    namespace = refl;
    labels = refl;
    annotations = refl;
    template = template;
    ip = (_, refl, refl);
    service_labels = refl;
    service_annotations = λ k a.
        find-store by_label k (config.load_balancer_name_label_key, get_load_balancer_name params)
          (service_or_new i.spec.service).annotations
        ∙ rw a refl;
    rest = refl;
  }

  pub set_network-HasNetwork :
      (j : RpaasInstance)
      → set_network packages config tags params i ≡ ok j
      → HasNetwork packages config tags params i j
  unfolding set_network set_plan_template
  set_network-HasNetwork j h =
      let (t, template, made) =
        >>=-eq-ok (plan_template_of packages (get_plan_override params (sort_strings tags))) _ h in
      elim (set_load_balancer_name_cases config (get_load_balancer_name params) addressed) [
        | inl same ↦
            subst (HasNetwork packages config tags params i)
              (ap (templated t) (sym same) ∙ inside made) (addressed-HasNetwork t template)
        | inr same ↦
            subst (HasNetwork packages config tags params i)
              (ap (templated t) (named_same same) ∙ inside made) (named-HasNetwork t template)
      ]
    where
      named_same :
          set_load_balancer_name config (get_load_balancer_name params) addressed
            ≡ annotated
                (store by_label
                  (config.load_balancer_name_label_key, get_load_balancer_name params)
                  (service_or_new addressed.spec.service).annotations)
                addressed
          → annotated named addressed
            ≡ set_load_balancer_name config (get_load_balancer_name params) addressed
      named_same e = unfold set_ip set_tags set_annotations service_or_new in sym e

      inside : {a b : RpaasInstance} → ok a ≡ ok b → a ≡ b
      inside p = cc
