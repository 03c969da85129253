-- ===== src/Controller/Disruption.antt =====
-- controllers/controller.go: the disruption budget of an instance (reconcilePDB, newPDB).
pub mod Convergence
mod Tests
use rpaas_operator.Prelude.{
  String, ◌==◌, Bool, true, false, ◌&&◌, List, [], ◌∷◌, Option, none, some, if◌then◌else◌,
}
use rpaas_operator.Prelude.Keyed.{find}
use rpaas_operator.Result.{Result, ok, err, ◌>>=◌}
use rpaas_operator.Api.{RpaasInstance, StringMap}
use rpaas_operator.Labels.{by_label, base_labels}
use rpaas_operator.Controller.{Object, Objects, reconcile_object}

-- policy/v1 PodDisruptionBudgetSpec
pub record DisruptionSpec : Type 0 where
  pub max_unavailable : String
  pub match_labels : StringMap

-- What is taken from k8s.io/apimachinery: labels.ConvertSelectorToLabelsMap and
-- equality.Semantic.DeepDerivative.
pub record Apimachinery : Type 0 where
  pub labels_of_selector : String → Result StringMap
  pub deep_derivative : DisruptionSpec → DisruptionSpec → Bool

-- Both maps have the same value at a key, or neither has one.
unfoldable pub same_entry : Option (String × String) → Option (String × String) → Bool
same_entry none none = true
same_entry (some a) (some b) = a.1 == b.1
same_entry _ _ = false

unfoldable pub agree_at : StringMap → StringMap → StringMap → Bool
unfolding find same_entry
agree_at a b [] = true
agree_at a b (entry ∷ entries) =
    let rest = agree_at a b entries in
    same_entry (find by_label entry.0 a) (find by_label entry.0 b) && rest

-- reflect.DeepEqual on two maps of labels.
unfoldable pub labels_eq : StringMap → StringMap → Bool
unfolding agree_at
labels_eq a b = agree_at a b a && agree_at a b b

unfoldable pub is_disruption_budget_enabled : RpaasInstance → Bool
is_disruption_budget_enabled i = elim i.spec.enable_pod_disruption_budget [
  | none ↦ false
  | some enabled ↦ enabled
]

module _ (k8s : Apimachinery) where
  -- `pod_selector` is that of the status of the nginx.
  unfoldable pub new_pdb : RpaasInstance → String → Result (Object DisruptionSpec)
  unfolding base_labels
  new_pdb i pod_selector = do
    set ← k8s.labels_of_selector pod_selector
    ok (record {
      name = i.name;
      namespace = i.namespace;
      labels = base_labels i [];
      annotations = [];
      resource_version = "";
      spec = record { max_unavailable = "10%"; match_labels = set };
    })

  -- The budget to write over the one that is there, if that one has to change.
  unfoldable pub revise_pdb :
      Object DisruptionSpec → Object DisruptionSpec → Option (Object DisruptionSpec)
  unfolding labels_eq
  revise_pdb new existing =
      if k8s.deep_derivative existing.spec new.spec && labels_eq existing.labels new.labels
      then none
      else some (record new { resource_version = existing.resource_version })

  unfoldable pub reconcile_pdb :
      {World : Type 0}
      → Objects World DisruptionSpec
      → RpaasInstance
      → String
      → World
      → Result Bool × World
  unfolding new_pdb revise_pdb is_disruption_budget_enabled reconcile_object
  reconcile_pdb pdbs i pod_selector w =
      if pod_selector == "" then (ok false, w) else elim (new_pdb i pod_selector) [
        | err e ↦ (err e, w)
        | ok new ↦
            reconcile_object pdbs (is_disruption_budget_enabled i) false new (revise_pdb new) w
      ]
