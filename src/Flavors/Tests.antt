-- ===== src/Flavors/Tests.antt =====
-- Runs of the checks of flavors, and the theorem at a concrete input.
use rpaas_operator.Prelude.{String, ◌≡◌, refl, true, false, List, [], ◌∷◌, some, contains}
use rpaas_operator.Prelude.Keyed.{find}
use rpaas_operator.Errors.{validation}
use rpaas_operator.Result.{ok, err}
use rpaas_operator.Flavors.{
  RpaasFlavor, check_once, check_for_incompatible_flavors, check_added, check_all_added,
  is_creation_only, check_all_removed, validate_flavors,
}
use rpaas_operator.Flavors.Laws.{AreOnce, MayBeAdded, validate_flavors-ok}

abbrev mango : RpaasFlavor
mango = record {
  name = "mango";
  description = "";
  is_default = false;
  creation_only = true;
  incompatible_flavors = [];
}

abbrev lemon : RpaasFlavor
lemon = record {
  name = "lemon";
  description = "";
  is_default = false;
  creation_only = false;
  incompatible_flavors = "lime" ∷ [];
}

abbrev market : List RpaasFlavor
market = mango ∷ lemon ∷ []

add_lemon : validate_flavors (ok market) (some ("mango" ∷ [])) ("mango" ∷ "lemon" ∷ []) ≡ ok tt
unfolding validate_flavors check_once check_all_added check_added check_for_incompatible_flavors
    check_all_removed find
add_lemon = refl

keep_mango :
    validate_flavors (ok market) (some ("mango" ∷ [])) ("lemon" ∷ [])
    ≡ err (validation "cannot unset flavor %q as it is a creation only flavor")
unfolding validate_flavors check_once check_all_added check_added check_for_incompatible_flavors
    check_all_removed is_creation_only find
keep_mango = refl

validate_flavors-ok_example :
    AreOnce ("mango" ∷ "lemon" ∷ [])
    × (all_flavors : List RpaasFlavor) × (ok market ≡ ok all_flavors)
    × ((f : String)
        → contains ("mango" ∷ "lemon" ∷ []) f ≡ true
        → contains ("mango" ∷ []) f ≡ false
        → MayBeAdded false all_flavors ("mango" ∷ "lemon" ∷ []) f)
    × ((f : String)
        → contains ("mango" ∷ []) f ≡ true
        → is_creation_only all_flavors f ≡ true
        → contains ("mango" ∷ "lemon" ∷ []) f ≡ true)
validate_flavors-ok_example =
    validate_flavors-ok (ok market) (some ("mango" ∷ [])) ("mango" ∷ "lemon" ∷ []) add_lemon
