-- ===== src/Plans.antt =====
-- internal/pkg/rpaas/k8s.go: the plans and the flavors that the cluster offers, and the plan of a request:
-- GetPlans, GetFlavors, getPlan, getDefaultPlan and validatePlan.
pub mod Laws
mod Tests
use rpaas_operator.Prelude.{
  String, ◌==◌, Bool, true, false, not, List, [], ◌∷◌, map, keep_if, str_ltb, if◌then◌else◌,
}
use rpaas_operator.Errors.{Error, not_found, conflict, validation, is_not_found_error}
use rpaas_operator.Result.{Result, ok, err, ◌>>=◌}
use rpaas_operator.Api.{RpaasInstance, RpaasPlanSpec}
use rpaas_operator.Flavors.{RpaasFlavor}
use rpaas_operator.Manager.{Manager, get_service_name, is_api_missing}

-- api/v1alpha1/rpaasplan_types.go: the resource of a plan.
pub record RpaasPlan : Type 0 where
  pub name : String
  pub spec : RpaasPlanSpec

-- internal/pkg/rpaas/manager.go: the name and the description that are shown of a flavor or a plan. The JSON
-- schemas of the parameters are left out.
pub record Shown : Type 0 where
  pub name : String
  pub description : String

-- The client on the resources that the creation of an instance reads and writes besides the instance:
-- plans and flavors of a namespace, and namespaces.
pub record Catalog (World : Type 0) : Type 0 where
  pub list_plans : String → World → Result (List RpaasPlan)
  pub get_plan : String → String → World → Result RpaasPlan
  pub list_flavors : String → World → Result (List RpaasFlavor)
  pub create_namespace : String → World → Result (Unit {0}) × World
  pub create : RpaasInstance → World → Result (Unit {0}) × World
  pub delete : RpaasInstance → World → Result (Unit {0}) × World

-- sort.SliceStable by the names.
unfoldable pub insert_shown : Shown → List Shown → List Shown
insert_shown s [] = s ∷ []
insert_shown s (t ∷ ts) =
    let later = insert_shown s ts in if str_ltb t.name s.name then t ∷ later else s ∷ t ∷ ts

unfoldable pub sort_shown : List Shown → List Shown
unfolding insert_shown
sort_shown [] = []
sort_shown (s ∷ ss) = insert_shown s (sort_shown ss)

unfoldable pub shown_flavors : List RpaasFlavor → List Shown
unfolding sort_shown
shown_flavors flavors = sort_shown (
    map (λ f. record { name = f.name; description = f.description })
      (keep_if (λ f. not f.is_default) flavors))

unfoldable pub shown_plans : List RpaasPlan → List Shown
unfolding sort_shown
shown_plans plans =
    sort_shown (map (λ p. record { name = p.name; description = p.spec.description }) plans)

-- What the read of a plan's resource gives.
or_no_plan : Result RpaasPlan → Result RpaasPlan
or_no_plan (ok p) = ok p
or_no_plan (err e) = if is_api_missing e then err (not_found "plan %q not found") else err e

-- The `switch` of getDefaultPlan.
unfoldable pub only_plan : List RpaasPlan → Result RpaasPlan
only_plan [] = err (not_found "no default plan found")
only_plan (p ∷ []) = ok p
only_plan (p ∷ q ∷ ps) = err (conflict "several default plans found: %v")

-- The error of validatePlan.
unfoldable pub validated : Result RpaasPlan → Result (Unit {0})
validated (ok p) = ok tt
validated (err e) = if is_not_found_error e then err (validation "invalid plan") else err e

module _ (m : Manager) (cat : Catalog m.cli.World) where
  unfoldable pub get_flavors : m.cli.World → Result (List Shown)
  unfolding get_service_name shown_flavors
  get_flavors w = do
    flavors ← cat.list_flavors (get_service_name m.config) w
    ok (shown_flavors flavors)

  -- The flavors are read for the schemas, which are left out.
  unfoldable pub get_plans : m.cli.World → Result (List Shown)
  unfolding get_service_name get_flavors shown_plans
  get_plans w = do
    plans ← cat.list_plans (get_service_name m.config) w
    flavors ← get_flavors w
    ok (shown_plans plans)

  -- getPlan of a name that is given, as the name of a resource always is.
  unfoldable pub get_named_plan : String → m.cli.World → Result RpaasPlan
  unfolding or_no_plan get_service_name
  get_named_plan name w = or_no_plan (cat.get_plan (get_service_name m.config) name w)

  -- The loop of getDefaultPlan.
  unfoldable pub default_plans : List Shown → m.cli.World → Result (List RpaasPlan)
  unfolding get_named_plan
  default_plans [] w = ok []
  default_plans (s ∷ ss) w = do
    p ← get_named_plan s.name w
    rest ← default_plans ss w
    ok (if p.spec.is_default then p ∷ rest else rest)

  unfoldable pub get_default_plan : m.cli.World → Result RpaasPlan
  unfolding get_plans default_plans only_plan
  get_default_plan w = do plans ← get_plans w; defaults ← default_plans plans w; only_plan defaults

  unfoldable pub get_plan : String → m.cli.World → Result RpaasPlan
  unfolding get_default_plan get_named_plan
  get_plan name w = if name == "" then get_default_plan w else get_named_plan name w

  unfoldable pub validate_plan : String → m.cli.World → Result (Unit {0})
  unfolding get_plan validated
  validate_plan updated_plan w = validated (get_plan updated_plan w)
