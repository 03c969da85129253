-- ===== src/Mutation.antt =====
-- internal/pkg/rpaas/mutation.go: the changes of an instance's spec that a user may ask for, and the
-- manager's methods that apply them: blocks of nginx configuration, routes and bound applications.
pub mod Blocks
pub mod Routes
pub mod Binds
pub mod Invariant
pub mod Reach
mod Tests
use rpaas_operator.Prelude.{String, ◌≡◌, List, [], ◌∷◌, none, if◌then◌else◌, Bool}
use rpaas_operator.Errors.{Error, validation}
use rpaas_operator.Result.{Result, ok, err, ◌>>=◌, >>=-eq-ok}
use rpaas_operator.Api.{Value, RpaasInstance, RpaasInstanceSpec}
use rpaas_operator.Manager.Frame.{KeepsKey}

-- A value written out in the resource itself.
abbrev pub inline : String → Value
inline s = record { value = s; value_from = none }

-- The deny patterns of the settings, tried in their order.
unfoldable pub validate_content : List (String → Bool) → String → Result (Unit {0})
validate_content [] content = ok tt
validate_content (is_match ∷ patterns) content =
    let rest = validate_content patterns content in
    if is_match content then err (validation "content contains the forbidden pattern %q") else rest

-- `NewMutation(&instance.Spec)`: the change of a spec as a change of its instance.
unfoldable pub in_spec :
    (RpaasInstanceSpec → Result RpaasInstanceSpec) → RpaasInstance → Result RpaasInstance
in_spec f i = do spec ← f i.spec; ok (record i { spec = spec })

pub in_spec-ok :
    (f : RpaasInstanceSpec → Result RpaasInstanceSpec) (i j : RpaasInstance)
    → in_spec f i ≡ ok j
    → (f i.spec ≡ ok j.spec) × (j ≡ record i { spec = j.spec })
unfolding in_spec
in_spec-ok f i j h = let (s, done, same) = >>=-eq-ok (f i.spec) _ h in (cc, cc)

pub in_spec-key : (f : RpaasInstanceSpec → Result RpaasInstanceSpec) → KeepsKey (in_spec f)
unfolding in_spec
in_spec-key f i j h = let (s, done, same) = >>=-eq-ok (f i.spec) _ h in (cc, cc)
