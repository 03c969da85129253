-- ===== src/Labels.antt =====
-- api/v1alpha1/rpaasinstance.go: labels and annotations, and the cluster that an instance belongs to.
use rpaas_operator.Prelude.{String, ◌==◌, Bool, false, none, some, eq_iff, if◌then◌else◌, [], ◌∷◌}
use rpaas_operator.Prelude.Keyed.{Keyed, find, merge}
use rpaas_operator.Api.{RpaasInstance, StringMap}

-- A map of labels, with Go's empty string for a missing key.
abbrev pub by_label : Keyed String (String × String)
by_label = record {
  key = λ entry. entry.0;
  test = λ k entry. entry.0 == k;
  test_iff = λ k entry. eq_iff entry.0 k;
}

unfoldable pub label : StringMap → String → String
label labels k = elim (find by_label k labels) [ none ↦ "" | some entry ↦ entry.1 ]

abbrev pub cluster_name_label_key : String
cluster_name_label_key = "rpaas.extensions.tsuru.io/cluster-name"

unfoldable pub belongs_to_cluster : RpaasInstance → String → Bool
unfolding label
belongs_to_cluster i cluster_name =
    let instance_cluster = label i.labels cluster_name_label_key in
    if instance_cluster == "" then false else cluster_name == instance_cluster

-- `mergeMap` with a first map that is not nil: the second map wins.
unfoldable pub merge_map : StringMap → StringMap → StringMap
unfolding merge
merge_map a b = merge by_label a b

unfoldable pub base_labels : RpaasInstance → StringMap → StringMap
unfolding merge_map label
base_labels i labels =
    merge_map
      (("rpaas_instance", i.name)
        ∷ ("rpaas_service", label i.labels "rpaas.extensions.tsuru.io/service-name")
        ∷ ("rpaas.extensions.tsuru.io/instance-name", i.name)
        ∷ (
          "rpaas.extensions.tsuru.io/service-name",
          label i.labels "rpaas.extensions.tsuru.io/service-name",
        )
        ∷ ("rpaas.extensions.tsuru.io/plan-name", i.spec.plan_name)
        ∷ (
          "rpaas.extensions.tsuru.io/team-owner",
          label i.labels "rpaas.extensions.tsuru.io/team-owner",
        )
        ∷ [])
      labels
