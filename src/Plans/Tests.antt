-- ===== src/Plans/Tests.antt =====
-- A cluster with two plans, and the theorem there.
use rpaas_operator.Prelude.{
  String, ◌==◌, ◌≡◌, refl, true, false, List, [], ◌∷◌, str_ltb, if◌then◌else◌,
}
use rpaas_operator.Errors.{api, is_missing}
use rpaas_operator.Result.{ok, err}
use rpaas_operator.Api.{RpaasInstance}
use rpaas_operator.Manager.{get_service_name}
use rpaas_operator.Samples.{manager, web}
use rpaas_operator.Plans.{
  RpaasPlan, Catalog, insert_shown, sort_shown, shown_plans, shown_flavors, get_flavors, get_plans,
  get_named_plan, default_plans, only_plan, get_default_plan,
}
use rpaas_operator.Plans.Laws.{has_plan, IsDefault, get_default_plan-only}

abbrev small : RpaasPlan
small = record {
  name = "small";
  spec = record { image = ""; description = "one core"; is_default = true; rest = "" };
}

abbrev large : RpaasPlan
large = record {
  name = "large";
  spec = record { image = ""; description = "two cores"; is_default = false; rest = "" };
}

abbrev catalog : Catalog RpaasInstance
catalog = record {
  list_plans = λ ns w. ok (small ∷ large ∷ []);
  get_plan = λ ns n w.
      if n == "small" then ok small else if n == "large" then ok large else err (api is_missing);
  list_flavors = λ ns w. ok [];
  create_namespace = λ ns w. (ok tt, w);
  create = λ j w. (ok tt, j);
  delete = λ j w. (ok tt, w);
}

in_order :
    get_plans manager catalog web
    ≡ ok (
        record { name = "large"; description = "two cores" }
        ∷ record { name = "small"; description = "one core" }
        ∷ [])
unfolding get_plans get_flavors shown_plans shown_flavors sort_shown insert_shown str_ltb
in_order = refl

default_small : get_default_plan manager catalog web ≡ ok small
unfolding get_default_plan get_plans get_flavors shown_plans shown_flavors sort_shown insert_shown
    default_plans get_named_plan only_plan str_ltb
default_small = refl

get_default_plan-only_example :
    (small.spec.is_default ≡ true)
    × (plans : List RpaasPlan) × (catalog.list_plans (get_service_name manager.config) web
        ≡ ok plans)
    × ((n : String) (q : RpaasPlan)
        → has_plan n plans ≡ true
        → IsDefault manager catalog web n q
        → q ≡ small)
get_default_plan-only_example = get_default_plan-only manager catalog web small default_small
