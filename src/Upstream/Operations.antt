-- ===== src/Upstream/Operations.antt =====
-- internal/pkg/rpaas/upstream.go: EnsureUpstreamOptions, GetUpstreamOptions and
-- DeleteUpstreamOptions.
pub mod Sound
pub mod Ensure
pub mod Effect
pub mod Delete
pub mod Reach
mod Tests
use rpaas_operator.Prelude.{
  ℕ, suc, String, Bool, true, false, not, ◌&&◌, List, [], ◌∷◌, Option, none, some, ◌==◌, is_some,
  if◌then◌else◌, length, contains, any, keep_if, ltb, leb, map,
}
use rpaas_operator.Prelude.Int.{ℤ, pos, ltb_ℤ}
use rpaas_operator.Prelude.Keyed.{find, store}
use rpaas_operator.Errors.{validation, not_found}
use rpaas_operator.Result.{Result, ok, err, ◌>>=◌, ◌>>◌, reject_if}
use rpaas_operator.Api.{TrafficShapingPolicy, UpstreamOptions, RpaasInstance}
use rpaas_operator.Manager.{Manager, get_instance, modify}
use rpaas_operator.Upstream.Options.{
  UpstreamOptionsArgs, by_primary, is_given, apply_upstream_options_defaults,
  validate_upstream_options_args, validate_canary_binds, validate_traffic_shaping_options,
  validate_load_balance_options,
}

-- The primary bind of the first option that names the bind as a canary.
parent_primary_bind : String → List UpstreamOptions → String
parent_primary_bind current [] = ""
parent_primary_bind current (uo ∷ rest) =
    if contains uo.canary_binds current && not (uo.primary_bind == "")
    then uo.primary_bind
    else parent_primary_bind current rest

-- Some option of the canary bind has a weight.
has_weight : List UpstreamOptions → String → Bool
has_weight options canary_bind =
    any (λ uo. uo.primary_bind == canary_bind && ltb_ℤ (pos 0) uo.traffic_shaping_policy.weight)
      options

-- The weights in the group, without that of the bind being updated.
weights_count : List UpstreamOptions → String → Bool → List String → ℕ
unfolding has_weight
weights_count options current updating [] = 0
weights_count options current updating (canary_bind ∷ rest) =
    let count = weights_count options current updating rest in
    if updating && canary_bind == current
    then count
    else if has_weight options canary_bind
    then suc count
    else count

-- The canary binds of the first option of the parent.
canary_group : String → List UpstreamOptions → List String
canary_group parent options = elim (find by_primary parent options) [
  | none ↦ []
  | some uo ↦ uo.canary_binds
]

unfoldable pub validate_canary_weight_rule :
    List UpstreamOptions → String → ℤ → Bool → Result (Unit {0})
unfolding parent_primary_bind weights_count canary_group
validate_canary_weight_rule options current weight updating =
    let parent = parent_primary_bind current options in
    let group = canary_group parent options in
    if parent == ""
    then ok tt
    else reject_if (ltb_ℤ (pos 0) weight && leb 1 (weights_count options current updating group)) (
        validation
          "only one canary bind per group can have weight > 0, but found existing weight in canary group for parent '%s'")

-- The bind is a canary of an option, other than the one being updated.
unfoldable pub is_referenced_as_canary : Bool → String → List UpstreamOptions → Bool
is_referenced_as_canary upstream_exists primary =
    any (λ uo.
      not (upstream_exists && uo.primary_bind == primary) && contains uo.canary_binds primary)

-- On an update the header value clears the pattern, or the pattern the value.
unfoldable pub exclude_header : TrafficShapingPolicy → TrafficShapingPolicy
exclude_header policy =
    if is_given policy.header_value
    then record policy { header_pattern = "" }
    else if is_given policy.header_pattern
    then record policy { header_value = "" }
    else policy

-- The options that are stored for the arguments.
unfoldable pub options_of : Bool → UpstreamOptionsArgs → UpstreamOptions
unfolding apply_upstream_options_defaults exclude_header
options_of upstream_exists args =
    let policy =
      if upstream_exists
      then exclude_header args.traffic_shaping_policy
      else args.traffic_shaping_policy in
    let final = apply_upstream_options_defaults (record args { traffic_shaping_policy = policy }) in
    record {
      primary_bind = final.primary_bind;
      canary_binds = final.canary_binds;
      traffic_shaping_policy = final.traffic_shaping_policy;
      load_balance = final.load_balance;
      load_balance_hash_key = final.load_balance_hash_key;
    }

-- A canary with a weight has to be the only one of its group.
unfoldable pub check_weight_rule :
    List UpstreamOptions → Bool → UpstreamOptionsArgs → Result (Unit {0})
check_weight_rule options upstream_exists args =
    let weight = args.traffic_shaping_policy.weight in
    if ltb_ℤ (pos 0) weight && is_referenced_as_canary upstream_exists args.primary_bind options
    then validate_canary_weight_rule options args.primary_bind weight upstream_exists
    else ok tt

-- Every check that EnsureUpstreamOptions makes, in its order, over the stored options.
unfoldable pub check_options : List UpstreamOptions → Bool → UpstreamOptionsArgs → Result (Unit {0})
check_options options upstream_exists args = do
  let referenced = is_referenced_as_canary upstream_exists args.primary_bind options
  reject_if (referenced && ltb 0 (length args.canary_binds)) (
      validation
        "bind '%s' is referenced as a canary bind in another upstream option and cannot have its own canary binds")
  weighted ← validate_canary_binds options args (if upstream_exists then args.primary_bind else "")
  validate_traffic_shaping_options args
  check_weight_rule options upstream_exists args
  validate_load_balance_options args

-- What EnsureUpstreamOptions does to the instance that it has read: `store` writes over the option
-- of the primary bind at its index, or appends.
unfoldable pub with_upstream_options : UpstreamOptionsArgs → RpaasInstance → Result RpaasInstance
with_upstream_options args i = do
  let options = i.spec.upstream_options
  let upstream_exists = is_some (find by_primary args.primary_bind options)
  validate_upstream_options_args args
  reject_if (not (any (λ bind. bind.name == args.primary_bind) i.spec.binds))
      (validation "bind '%s' does not exist in instance binds")
  check_options options upstream_exists args
  ok (record i {
    spec = record (i.spec) {
      upstream_options = store by_primary (options_of upstream_exists args) options;
    };
  })

-- An option without its references to the deleted bind.
unfoldable pub without_canary : String → UpstreamOptions → UpstreamOptions
without_canary primary uo = record uo {
  canary_binds = keep_if (λ canary. not (canary == primary)) uo.canary_binds;
}

-- The loop of DeleteUpstreamOptions.
unfoldable pub delete_option : String → List UpstreamOptions → List UpstreamOptions
unfolding without_canary
delete_option primary [] = []
delete_option primary (uo ∷ rest) =
    let others = delete_option primary rest in
    if uo.primary_bind == primary then others else without_canary primary uo ∷ others

-- What DeleteUpstreamOptions does to the instance that it has read.
unfoldable pub without_upstream_options : String → RpaasInstance → Result RpaasInstance
unfolding delete_option
without_upstream_options primary i = do
  let options = i.spec.upstream_options
  reject_if (primary == "") (validation "cannot delete upstream options with empty app")
  reject_if (not (is_some (find by_primary primary options)))
      (not_found "upstream options for bind '%s' not found in instance: %s")
  ok (record i { spec = record (i.spec) { upstream_options = delete_option primary options } })

module _ (m : Manager) where
  unfoldable pub get_upstream_options : String → m.cli.World → Result (List UpstreamOptions)
  get_upstream_options instance_name w = do
    i ← get_instance m instance_name w
    ok i.spec.upstream_options

  unfoldable pub ensure_upstream_options :
      String → UpstreamOptionsArgs → m.cli.World → Result (Unit {0}) × m.cli.World
  ensure_upstream_options instance_name args = modify m instance_name (with_upstream_options args)

  unfoldable pub delete_upstream_options :
      String → String → m.cli.World → Result (Unit {0}) × m.cli.World
  delete_upstream_options instance_name primary =
      modify m instance_name (without_upstream_options primary)
