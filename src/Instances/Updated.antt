-- ===== src/Instances/Updated.antt =====
-- What UpdateInstance does to the instance that it has read, and to the cluster.
use mathlib.Core.Path.{subst}
use rpaas_operator.Prelude.{
  String, ◌==◌, ◌≡◌, inl, inr, refl, sym, ap, ◌∙◌, true, false, some, join, if◌then◌else◌,
}
use rpaas_operator.Prelude.Keyed.{find, store}
use rpaas_operator.Result.{Result, ok, err, >>=-eq-ok}
use rpaas_operator.Api.{RpaasInstance, RpaasInstanceSpec, NginxService, StringMap}
use rpaas_operator.Client.{RpaasConfig}
use rpaas_operator.Labels.{by_label, label, cluster_name_label_key}
use rpaas_operator.Parameters.{
  sort_strings, get_flavors, get_ip, get_plan_override, get_annotations,
}
use rpaas_operator.Instances.{
  UpdateInstanceArgs, Packages, team_owner_label_key, service_or_new, label_key, plan_template_of,
  with_update,
}
use rpaas_operator.Errors.{Error, validation, is_not_found_error}
use rpaas_operator.Result.{◌>>◌, Result-cases, >>-eq-err}
use rpaas_operator.Client.{ClientLaws}
use rpaas_operator.Manager.{Manager, get_instance}
use rpaas_operator.Manager.Frame.{KeepsKey, modify-err, modify-commits}
use rpaas_operator.Plans.{Catalog, get_plan, get_default_plan, validate_plan, validated}
use rpaas_operator.Instances.Operations.{validate_update_instance_args, update_instance}
use rpaas_operator.Instances.Network.{set_network-HasNetwork}
use rpaas_operator.Instances.Owners.{HasLabels, owned_labels-HasLabels, label-store_self}
use rpaas_operator.Instances.Labelled.{
  labelled, labelled-labels, labelled-pod_labels, labelled-annotations, labelled-service,
  labelled-spec, labelled-key,
}
use rpaas_operator.Instances.Annotated.{HasAnnotations, written-HasAnnotations}

-- The spec with another's service and plan template.
abbrev networked : RpaasInstanceSpec → RpaasInstanceSpec → RpaasInstanceSpec
networked new s = record s { service = new.service; plan_template = new.plan_template }

-- The spec with all that an update may write taken from another one.
abbrev pub framed : RpaasInstanceSpec → RpaasInstanceSpec → RpaasInstanceSpec
framed old new = record old {
  plan_name = new.plan_name;
  flavors = new.flavors;
  plan_template = new.plan_template;
  service = new.service;
  pod_template = record old.pod_template { labels = new.pod_template.labels };
}

-- What an update has done to an instance.
pub record IsUpdated (packages : Packages) (config : RpaasConfig) (cluster_name : String)
    (args : UpdateInstanceArgs) (i j : RpaasInstance) : Type 0 where
  pub name : j.name ≡ i.name
  pub namespace : j.namespace ≡ i.namespace
  pub plan_name : j.spec.plan_name ≡ (if args.plan == "" then i.spec.plan_name else args.plan)
  pub flavors : get_flavors args.parameters args.tags ≡ ok j.spec.flavors
  pub labels : HasLabels cluster_name args.team i.labels j.labels
  pub pod_labels :
      HasLabels cluster_name args.team i.spec.pod_template.labels j.spec.pod_template.labels
  pub annotations :
      (read : StringMap) × (get_annotations packages.checks config.forbidden_annotations_prefixes
          args.parameters
        ≡ ok read)
      × HasAnnotations args.description i.annotations read j.annotations
  pub tags : label j.annotations (label_key "tags") ≡ join "," (sort_strings args.tags)
  pub template :
      plan_template_of packages (get_plan_override args.parameters (sort_strings args.tags))
      ≡ ok j.spec.plan_template
  pub ip :
      (s : NginxService) × (j.spec.service ≡ some s)
      × (s.load_balancer_ip ≡ get_ip args.parameters (sort_strings args.tags))
  pub service_labels :
      (k : String)
      → (team_owner_label_key == k) ≡ false
      → (cluster_name_label_key == k) ≡ false
      → label (service_or_new j.spec.service).labels k
        ≡ label (service_or_new i.spec.service).labels k
  pub service_annotations :
      (k : String)
      → (config.load_balancer_name_label_key == k) ≡ false
      → find by_label k (service_or_new j.spec.service).annotations
        ≡ find by_label k (service_or_new i.spec.service).annotations
  pub rest : j.spec ≡ framed i.spec j.spec

module _ (packages : Packages) (config : RpaasConfig) (cluster_name : String)
    (args : UpdateInstanceArgs) (i : RpaasInstance) where
  -- If UpdateInstance changes the instance, its name and all that the request does not name stay; the plan is
  -- the one named, or else the one before; flavors, address and plan template are those of the request, the
  -- team's and the cluster's labels are written and the others kept, and the tags are stored in order.
  pub with_update-IsUpdated :
      (j : RpaasInstance)
      → with_update packages config cluster_name args i ≡ ok j
      → IsUpdated packages config cluster_name args i j
  unfolding with_update
  with_update-IsUpdated j h =
      let (flavors, f, h₁) = >>=-eq-ok (get_flavors args.parameters args.tags) _ h in
      let (annotations, a, h₂) =
        >>=-eq-ok
          (get_annotations packages.checks config.forbidden_annotations_prefixes args.parameters) _
          h₁ in
      let net =
        set_network-HasNetwork packages config args.tags args.parameters
          (labelled cluster_name args i flavors annotations) j h₂ in
      let (same_name, same_ns) = labelled-key cluster_name args i flavors annotations in
      let spec =
        net.rest ∙ ap (networked j.spec) (labelled-spec cluster_name args i flavors annotations) in
      record {
        name = net.name ∙ same_name;
        namespace = net.namespace ∙ same_ns;
        plan_name = ap (λ s. s.plan_name) spec;
        flavors = f ∙ ap (λ s. ok s.flavors) (sym spec);
        labels =
            subst (HasLabels cluster_name args.team i.labels)
              (sym (net.labels ∙ labelled-labels cluster_name args i flavors annotations))
              (owned_labels-HasLabels cluster_name args.team i.labels);
        pod_labels =
            subst (HasLabels cluster_name args.team i.spec.pod_template.labels)
              (sym (
                ap (λ s. s.pod_template.labels) net.rest
                ∙ labelled-pod_labels cluster_name args i flavors annotations))
              (owned_labels-HasLabels cluster_name args.team i.spec.pod_template.labels);
        annotations = (
          annotations,
          a,
          subst (HasAnnotations args.description i.annotations annotations)
              (sym (
                net.annotations
                ∙ ap (λ l. store by_label (label_key "tags", join "," (sort_strings args.tags)) l)
                    (labelled-annotations cluster_name args i flavors annotations)))
              (written-HasAnnotations cluster_name args.team args.description
                (join "," (sort_strings args.tags)) i.annotations annotations),
        );
        service_labels = λ k b c.
            ap (λ l. label l k) net.service_labels
            ∙ (labelled-service cluster_name args i flavors annotations).1 k b c;
        service_annotations = λ k b.
            net.service_annotations k b
            ∙ ap (λ l. find by_label k l)
                (labelled-service cluster_name args i flavors annotations).0;
        tags =
            ap (λ l. label l (label_key "tags")) net.annotations
            ∙ label-store_self (label_key "tags") (join "," (sort_strings args.tags))
                (labelled cluster_name args i flavors annotations).annotations;
        template = net.template;
        ip = net.ip;
        rest = spec ∙ ap (framed i.spec) (sym spec);
      }

module _ (packages : Packages) (m : Manager) (cat : Catalog m.cli.World) (laws : ClientLaws m.cli)
    (instance_name : String) (args : UpdateInstanceArgs) (w : m.cli.World) where
  -- What update_instance does to the instance that it has read.
  abbrev change : RpaasInstance → Result RpaasInstance
  change i =
      validate_update_instance_args packages m cat i args w
      >> with_update packages m.config m.cluster_name args i

  change-ok :
      (i j : RpaasInstance)
      → change i ≡ ok j
      → (validate_update_instance_args packages m cat i args w ≡ ok tt)
        × IsUpdated packages m.config m.cluster_name args i j
  change-ok i j h =
      let (u, valid, changed) =
        >>=-eq-ok (validate_update_instance_args packages m cat i args w) _ h in
      (valid, with_update-IsUpdated packages m.config m.cluster_name args i j changed)

  -- If UpdateInstance of an instance that was read returns no error, the next read finds it under its name.
  -- Its plan is the one named, or else the one before; its flavors, address and plan template are those of
  -- the request, and its tags are stored in order. The team's label and the cluster's are written to it and
  -- to its pods, and their other labels are as before, as are those of the service, of which only the
  -- annotation with the name of the load balancer may change. Of its annotations, those that the request
  -- gives are written, the tags after them and the description before them, and those under any other key
  -- but the team's and the cluster's are as before. The rest of the spec is as before. The flavors and the plan
  -- were valid.
  pub update_instance-IsUpdated :
      (i : RpaasInstance)
      → get_instance m instance_name w ≡ ok i
      → (update_instance packages m cat instance_name args w).0 ≡ ok tt
      → (j : RpaasInstance) × (get_instance m instance_name
            (update_instance packages m cat instance_name args w).1
          ≡ ok j)
        × (validate_update_instance_args packages m cat i args w ≡ ok tt)
        × IsUpdated packages m.config m.cluster_name args i j
  unfolding update_instance
  update_instance-IsUpdated i read done = elim (Result-cases (change i)) [
    | inr (e, r) ↦ absurd (
        refused e
          (sym (ap (λ s. s.0) (modify-err m laws instance_name change w i e read r)) ∙ done))
    | inl (j, r) ↦ (
      j,
      modify-commits m laws instance_name change w i j keeps read r done,
      (change-ok i j r).0,
      (change-ok i j r).1,
    )
  ]
    where
      refused : (e : Error) → ◌≡◌ {A = Result (Unit {0})} (err e) (ok tt) → ⊥
      refused e p = cc

      keeps : KeepsKey change
      keeps a b h = let (_, is) = change-ok a b h in (is.namespace, is.name)

  validate_plan-none :
      (e : Error)
      → args.plan ≡ ""
      → get_default_plan m cat w ≡ err e
      → is_not_found_error e ≡ true
      → validate_plan m cat args.plan w ≡ err (validation "invalid plan")
  unfolding validate_plan validated get_plan
  validate_plan-none e unnamed none_there missing =
      rw unnamed (rw (none_there, validate_plan) (rw (missing, validate_plan) refl))

  invalid_plan :
      (i : RpaasInstance)
      → validate_plan m cat args.plan w ≡ err (validation "invalid plan")
      → validate_update_instance_args packages m cat i args w ≡ err (validation "invalid plan")
  unfolding validate_update_instance_args
  invalid_plan i h = >>-eq-err (validate_plan m cat args.plan w) _ (validation "invalid plan") h

  -- An UpdateInstance that names no plan fails if the cluster has no default plan, although the instance has
  -- a plan, which it would keep.
  pub update_instance-no_default_plan :
      (i : RpaasInstance) (e : Error)
      → get_instance m instance_name w ≡ ok i
      → args.plan ≡ ""
      → get_default_plan m cat w ≡ err e
      → is_not_found_error e ≡ true
      → update_instance packages m cat instance_name args w ≡ (err (validation "invalid plan"), w)
  unfolding update_instance
  update_instance-no_default_plan i e read unnamed none_there missing =
      modify-err m laws instance_name change w i (validation "invalid plan") read (
        >>-eq-err (validate_update_instance_args packages m cat i args w) _
          (validation "invalid plan")
          (invalid_plan i (validate_plan-none e unnamed none_there missing)))
