-- ===== src/Instances/Owners.antt =====
-- The labels of an instance that name its team and its cluster.
use rpaas_operator.Prelude.{
  String, ◌==◌, ◌≡◌, inl, inr, refl, ◌∙◌, false, arith, eq_refl, Bool-cases, if◌then◌else◌,
}
use rpaas_operator.Prelude.Keyed.{store}
use rpaas_operator.Prelude.Keyed.Laws.{find-store}
use rpaas_operator.Api.{StringMap}
use rpaas_operator.Labels.{by_label, label, cluster_name_label_key}
use rpaas_operator.Instances.{team_owner_label_key}

-- A label that is written is read under its own key, and nowhere else.
pub label-store :
    (k a v : String) (labels : StringMap)
    → label (store by_label (a, v) labels) k ≡ (if a == k then v else label labels k)
unfolding label
label-store k a v labels = ground (arith, find-store by_label k (a, v) labels)

pub label-store_self :
    (a v : String) (labels : StringMap) → label (store by_label (a, v) labels) a ≡ v
label-store_self a v labels = label-store a a v labels ∙ rw (eq_refl a) refl

-- The labels that both requests write.
abbrev pub owned_labels : String → String → StringMap → StringMap
owned_labels cluster_name team labels =
    let owned = store by_label (team_owner_label_key, team) labels in
    if cluster_name == ""
    then owned
    else store by_label (cluster_name_label_key, cluster_name) owned

-- The labels after the request: the team's, the cluster's if the manager has one, and the others.
pub record HasLabels (cluster_name owner : String) (old new : StringMap) : Type 0 where
  pub team : label new team_owner_label_key ≡ owner
  pub cluster :
      label new cluster_name_label_key
      ≡ (if cluster_name == "" then label old cluster_name_label_key else cluster_name)
  pub others :
      (k : String)
      → (team_owner_label_key == k) ≡ false
      → (cluster_name_label_key == k) ≡ false
      → label new k ≡ label old k

pub owned_labels-HasLabels :
    (cluster_name team : String) (labels : StringMap)
    → HasLabels cluster_name team labels (owned_labels cluster_name team labels)
owned_labels-HasLabels cluster_name team labels = elim (Bool-cases (cluster_name == "")) [
  | inl t ↦
      rw (t, owned_labels)
        (record {
          team = label-store team_owner_label_key team_owner_label_key team labels;
          cluster = rw t (label-store cluster_name_label_key team_owner_label_key team labels);
          others = λ k a b. label-store k team_owner_label_key team labels ∙ rw a refl;
        })
  | inr t ↦
      rw (t, owned_labels)
        (record {
          team =
              label-store team_owner_label_key cluster_name_label_key cluster_name owned
              ∙ label-store team_owner_label_key team_owner_label_key team labels;
          cluster =
              rw t (label-store cluster_name_label_key cluster_name_label_key cluster_name owned);
          others = λ k a b.
              label-store k cluster_name_label_key cluster_name owned
              ∙ rw b (label-store k team_owner_label_key team labels ∙ rw a refl);
        })
]
  where
    owned : StringMap
    owned = store by_label (team_owner_label_key, team) labels
