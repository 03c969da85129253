-- ===== src/Instances/Labelled.antt =====
-- The instance that an update has before its network is written: with the plan and the flavors, and the labels
-- and the annotations of the request.
use rpaas_operator.Prelude.{
  String, ◌==◌, ◌≡◌, inl, inr, refl, ◌∙◌, false, List, arith, Bool-cases, Option-cases,
  if◌then◌else◌,
}
use rpaas_operator.Prelude.Keyed.{store, merge}
use rpaas_operator.Api.{RpaasInstance, StringMap}
use rpaas_operator.Labels.{by_label, merge_map, label, cluster_name_label_key}
use rpaas_operator.Instances.{
  UpdateInstanceArgs, team_owner_label_key, service_or_new, label_key, append_new_labels,
  set_team_owner, set_cluster_name, set_annotations, set_description,
}
use rpaas_operator.Instances.Owners.{owned_labels, label-store}

module _ (cluster_name : String) (args : UpdateInstanceArgs) (i : RpaasInstance) where
  -- The instance before its network is written.
  abbrev pub labelled : List String → StringMap → RpaasInstance
  labelled flavors annotations = set_annotations annotations (
      set_cluster_name cluster_name (
        set_team_owner args.team (
          set_description args.description (record i {
            spec = record i.spec {
              plan_name = if args.plan == "" then i.spec.plan_name else args.plan;
              flavors = flavors;
            };
          }))))

  pub labelled-labels :
      (flavors : List String) (annotations : StringMap)
      → (labelled flavors annotations).labels ≡ owned_labels cluster_name args.team i.labels
  unfolding set_annotations set_cluster_name set_team_owner set_description append_new_labels
      merge_map merge
  labelled-labels flavors annotations = ground arith

  pub labelled-pod_labels :
      (flavors : List String) (annotations : StringMap)
      → (labelled flavors annotations).spec.pod_template.labels
        ≡ owned_labels cluster_name args.team i.spec.pod_template.labels
  unfolding set_annotations set_cluster_name set_team_owner set_description append_new_labels
      merge_map merge
  labelled-pod_labels flavors annotations = ground arith

  pub labelled-annotations :
      (flavors : List String) (annotations : StringMap)
      → (labelled flavors annotations).annotations
        ≡ merge_map
            (owned_labels cluster_name args.team
              (store by_label (label_key "description", args.description) i.annotations))
            annotations
  unfolding set_annotations set_cluster_name set_team_owner set_description append_new_labels
      merge_map merge
  labelled-annotations flavors annotations = ground arith

  -- The labels of the service, if there is one, are those of its owner; its annotations stay.
  pub labelled-service :
      (flavors : List String) (annotations : StringMap)
      → ((service_or_new (labelled flavors annotations).spec.service).annotations
          ≡ (service_or_new i.spec.service).annotations)
        × ((k : String)
            → (team_owner_label_key == k) ≡ false
            → (cluster_name_label_key == k) ≡ false
            → label (service_or_new (labelled flavors annotations).spec.service).labels k
              ≡ label (service_or_new i.spec.service).labels k)
  unfolding set_annotations set_cluster_name set_team_owner set_description append_new_labels
      merge_map merge service_or_new
  labelled-service flavors annotations = elim (Option-cases i.spec.service) [
    | inl n ↦ elim (Bool-cases (cluster_name == "")) [
      | inl t ↦ rw (n, t, set_cluster_name) (refl, λ k a b. refl)
      | inr t ↦ rw (n, t, set_cluster_name) (refl, λ k a b. refl)
    ]
    | inr (s, n) ↦ elim (Bool-cases (cluster_name == "")) [
      | inl t ↦
          rw (n, t, set_cluster_name)
            (refl, λ k a b. label-store k team_owner_label_key args.team s.labels ∙ rw a refl)
      | inr t ↦
          rw (n, t, set_cluster_name)
            (
              refl,
              λ k a b.
                  label-store k cluster_name_label_key cluster_name
                    (store by_label (team_owner_label_key, args.team) s.labels)
                  ∙ rw b (label-store k team_owner_label_key args.team s.labels ∙ rw a refl),
            )
    ]
  ]

  -- The spec, but for the labels of the pods and the service.
  pub labelled-spec :
      (flavors : List String) (annotations : StringMap)
      → (labelled flavors annotations).spec ≡ record i.spec {
        plan_name = if args.plan == "" then i.spec.plan_name else args.plan;
        flavors = flavors;
        service = (labelled flavors annotations).spec.service;
        pod_template = record i.spec.pod_template {
          labels = (labelled flavors annotations).spec.pod_template.labels;
        };
      }
  unfolding set_annotations set_cluster_name set_team_owner set_description append_new_labels
  labelled-spec flavors annotations = elim (Bool-cases (cluster_name == "")) [
    | inl t ↦ rw (t, set_cluster_name) refl
    | inr t ↦ rw (t, set_cluster_name) refl
  ]

  pub labelled-key :
      (flavors : List String) (annotations : StringMap)
      → ((labelled flavors annotations).name ≡ i.name)
        × ((labelled flavors annotations).namespace ≡ i.namespace)
  unfolding set_annotations set_cluster_name set_team_owner set_description append_new_labels
  labelled-key flavors annotations = elim (Bool-cases (cluster_name == "")) [
    | inl t ↦ rw (t, set_cluster_name) (refl, refl)
    | inr t ↦ rw (t, set_cluster_name) (refl, refl)
  ]
