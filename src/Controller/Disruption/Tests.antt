-- ===== src/Controller/Disruption/Tests.antt =====
-- The disruption budget of an instance, and the theorem at a cluster with at most one budget.
use rpaas_operator.Prelude.{
  String, ◌==◌, ◌≡◌, refl, ap, arith, eq_refl, Bool, true, false, ◌&&◌, [], ◌∷◌, Option, none, some,
  length, leb,
}
use rpaas_operator.Result.{ok}
use rpaas_operator.Api.{RpaasInstance}
use rpaas_operator.Labels.{base_labels}
use rpaas_operator.Samples.{empty_spec, instance_with}
use rpaas_operator.Controller.{Object}
use rpaas_operator.Controller.Cell.{cell, cell_laws}
use rpaas_operator.Controller.Disruption.{
  DisruptionSpec, Apimachinery, labels_eq, agree_at, same_entry, new_pdb, revise_pdb,
  is_disruption_budget_enabled, reconcile_pdb,
}
use rpaas_operator.Controller.Disruption.Convergence.{
  agree_at_self, IsAsWanted, reconcile_pdb-IsAsWanted,
}

-- What is set in the first spec is the same in the second one.
abbrev k8s : Apimachinery
k8s = record {
  labels_of_selector = λ s. ok (("app", s) ∷ []);
  deep_derivative = λ s t.
      s.max_unavailable == t.max_unavailable
      && agree_at s.match_labels t.match_labels s.match_labels;
}

abbrev web : RpaasInstance
web = instance_with (record empty_spec { enable_pod_disruption_budget = some true })

abbrev wanted : Object DisruptionSpec
wanted = record {
  name = "web";
  namespace = "rpaasv2";
  labels = base_labels web [];
  annotations = [];
  resource_version = "";
  spec = record { max_unavailable = "10%"; match_labels = ("app", "web") ∷ [] };
}

derivative_self : (s : DisruptionSpec) → k8s.deep_derivative s s ≡ true
derivative_self s =
    ground (arith, eq_refl s.max_unavailable, agree_at_self s.match_labels s.match_labels)

web_pdb : new_pdb k8s web "web" ≡ ok wanted
unfolding new_pdb
web_pdb = refl

same_labels : labels_eq (("a", "1") ∷ ("b", "2") ∷ []) (("b", "2") ∷ ("a", "1") ∷ []) ≡ true
unfolding labels_eq agree_at same_entry rpaas_operator.Prelude.Keyed.find
same_labels = refl

-- A budget of before, with other labels, is written over.
abbrev old : Object DisruptionSpec
old = record wanted { labels = ("team", "red") ∷ [] }

relabelled : reconcile_pdb k8s cell web "web" (some old) ≡ (ok true, some wanted)
unfolding reconcile_pdb new_pdb revise_pdb is_disruption_budget_enabled
    rpaas_operator.Controller.reconcile_object rpaas_operator.Controller.after_read
    rpaas_operator.Controller.report labels_eq agree_at same_entry rpaas_operator.Prelude.Keyed.find
relabelled = refl

reconcile_pdb-IsAsWanted_example :
    IsAsWanted k8s cell derivative_self web "web"
      (is_disruption_budget_enabled web)
      wanted
      (reconcile_pdb k8s cell web "web" (some old)).1
reconcile_pdb-IsAsWanted_example =
    reconcile_pdb-IsAsWanted k8s cell derivative_self web "web" cell_laws wanted (some old) true
      refl web_pdb (ap (λ r. r.0) relabelled)
