-- ===== src/Flavors.antt =====
-- internal/pkg/rpaas/k8s.go: which flavors an instance may be given when it is created or updated.
pub mod Laws
mod Tests
use rpaas_operator.Prelude.{
  String, Bool, true, false, not, ◌&&◌, List, [], ◌∷◌, Option, none, some, ◌==◌, if◌then◌else◌,
  contains, is_some, keep_if,
}
use rpaas_operator.Prelude.Keyed.{Keyed, find}
use rpaas_operator.Prelude.{eq_iff}
use rpaas_operator.Errors.{validation}
use rpaas_operator.Result.{Result, ok, err, ◌>>=◌, ◌>>◌, reject_if}

-- api/v1alpha1/rpaasflavor_types.go: what the checks read of a flavor.
pub record RpaasFlavor : Type 0 where
  pub name : String
  pub description : String
  pub is_default : Bool
  pub creation_only : Bool
  pub incompatible_flavors : List String

-- `selectFlavor` finds a flavor by its name.
abbrev pub by_flavor_name : Keyed String RpaasFlavor
by_flavor_name = record {
  key = λ f. f.name;
  test = λ k f. f.name == k;
  test_iff = λ k f. eq_iff f.name k;
}

-- The flavors of the first list that the second one does not have: `added` and `removed` of diffFlavors.
abbrev pub missing_from : List String → List String → List String
missing_from others flavors = keep_if (λ f. not (contains others f)) flavors

-- The first loop of validateFlavors, over the flavors encountered so far.
unfoldable pub check_once : List String → List String → Result (Unit {0})
check_once encountered [] = ok tt
check_once encountered (f ∷ flavors) =
    let rest = check_once (f ∷ encountered) flavors in
    if contains encountered f then err (validation "flavor %q only can be set once") else rest

unfoldable pub check_for_incompatible_flavors : List String → List String → Result (Unit {0})
check_for_incompatible_flavors [] all_flavors = ok tt
check_for_incompatible_flavors (f ∷ incompatible) all_flavors =
    let rest = check_for_incompatible_flavors incompatible all_flavors in
    if contains all_flavors f
    then err (validation "flavor %q is incompatible with %q flavor")
    else rest

-- One round of the loop over the added flavors.
unfoldable pub check_added : Bool → List String → Option RpaasFlavor → Result (Unit {0})
unfolding check_for_incompatible_flavors
check_added is_creation flavors none = err (validation "flavor %q not found")
check_added is_creation flavors (some flavor) = do
  reject_if (flavor.creation_only && not is_creation)
      (validation "flavor %q can used only in the creation of instance")
  check_for_incompatible_flavors flavor.incompatible_flavors flavors

unfoldable pub check_all_added :
    Bool → List RpaasFlavor → List String → List String → Result (Unit {0})
unfolding check_added
check_all_added is_creation all_flavors flavors [] = ok tt
check_all_added is_creation all_flavors flavors (f ∷ added) =
    check_added is_creation flavors (find by_flavor_name f all_flavors)
    >> check_all_added is_creation all_flavors flavors added

-- The flavor is known as one that is set at creation only.
unfoldable pub is_creation_only : List RpaasFlavor → String → Bool
is_creation_only all_flavors f = elim (find by_flavor_name f all_flavors) [
  | none ↦ false
  | some flavor ↦ flavor.creation_only
]

-- The loop over the removed flavors.
unfoldable pub check_all_removed : List RpaasFlavor → List String → Result (Unit {0})
check_all_removed all_flavors [] = ok tt
check_all_removed all_flavors (f ∷ removed) =
    let rest = check_all_removed all_flavors removed in
    if is_creation_only all_flavors f
    then err (validation "cannot unset flavor %q as it is a creation only flavor")
    else rest

-- The flavors that an instance has: none if it is being created.
abbrev pub flavors_of : Option (List String) → List String
flavors_of none = []
flavors_of (some fs) = fs

-- `existing` is `none` for an instance that is being created. `get_flavors` is the read of the flavors
-- from the cluster.
unfoldable pub validate_flavors :
    Result (List RpaasFlavor) → Option (List String) → List String → Result (Unit {0})
validate_flavors get_flavors existing flavors = do
  check_once [] flavors
  all_flavors ← get_flavors
  let existing_flavors = flavors_of existing
  check_all_added (not (is_some existing)) all_flavors flavors
      (missing_from existing_flavors flavors)
  check_all_removed all_flavors (missing_from flavors existing_flavors)
