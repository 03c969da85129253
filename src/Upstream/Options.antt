-- ===== src/Upstream/Options.antt =====
-- internal/pkg/rpaas/upstream.go: EnsureUpstreamOptions, DeleteUpstreamOptions and what they check.
pub mod Checks
pub mod Balance
use rpaas_operator.Prelude.{
  ℕ, String, ◌≡◌, Bool, true, false, not, ◌&&◌, ◌||◌, List, [], ◌∷◌, ◌++◌, Option, none, some,
  eq_iff, ◌==◌, is_some, if◌then◌else◌, length, contains, any, find_index, keep_if, ltb, leb,
  trim_space, suc,
}
use rpaas_operator.Prelude.Int.{ℤ, pos, ltb_ℤ, leb_ℤ, eqb_ℤ, scale_int64}
use rpaas_operator.Prelude.Keyed.{Keyed, store, find}
use rpaas_operator.Errors.{Error, validation, not_found}
use rpaas_operator.Result.{Result, ok, err, ◌>>=◌, ◌>>◌, reject_if}
use rpaas_operator.Api.{
  TrafficShapingPolicy, LoadBalanceAlgorithm, load_balance_round_robin,
  load_balance_consistent_hash, load_balance_ewma, UpstreamOptions, RpaasInstance,
}
use rpaas_operator.Manager.{Manager, get_instance, modify}

-- internal/pkg/rpaas/manager.go
pub record UpstreamOptionsArgs : Type 0 where
  pub primary_bind : String
  pub canary_binds : List String
  pub traffic_shaping_policy : TrafficShapingPolicy
  pub load_balance : LoadBalanceAlgorithm
  pub load_balance_hash_key : String

-- Upstream options are found by their primary bind.
abbrev pub by_primary : Keyed String UpstreamOptions
by_primary = record {
  key = λ uo. uo.primary_bind;
  test = λ k uo. uo.primary_bind == k;
  test_iff = λ k uo. eq_iff uo.primary_bind k;
}

-- strings.TrimSpace(s) != ""
unfoldable pub is_given : String → Bool
is_given s = not (trim_space s == "")

unfoldable pub apply_traffic_shaping_policy_defaults : TrafficShapingPolicy → TrafficShapingPolicy
apply_traffic_shaping_policy_defaults policy =
    if ltb_ℤ (pos 0) policy.weight && eqb_ℤ policy.weight_total (pos 0)
    then (if leb_ℤ policy.weight (pos 100)
        then record policy { weight_total = pos 100 }
        else record policy { weight_total = scale_int64 policy.weight 10 })
    else policy

unfoldable pub has_traffic_shaping_policy : TrafficShapingPolicy → Bool
has_traffic_shaping_policy policy =
    ltb_ℤ (pos 0) policy.weight || is_given policy.header || is_given policy.cookie

unfoldable pub apply_upstream_options_defaults : UpstreamOptionsArgs → UpstreamOptionsArgs
apply_upstream_options_defaults args = record args {
  load_balance = if args.load_balance == "" then load_balance_round_robin else args.load_balance;
  traffic_shaping_policy = apply_traffic_shaping_policy_defaults args.traffic_shaping_policy;
}

unfoldable pub validate_upstream_options_args : UpstreamOptionsArgs → Result (Unit {0})
validate_upstream_options_args args = do
  reject_if (args.primary_bind == "") (validation "cannot process upstream options with empty app")
  reject_if (ltb 1 (length args.canary_binds))
      (validation "only one canary bind is allowed per upstream, but %d were provided")
  ok tt

-- `skipPrimaryBind != "" && uo.PrimaryBind == skipPrimaryBind`
abbrev pub is_skipped : String → UpstreamOptions → Bool
is_skipped skip uo = not (skip == "") && uo.primary_bind == skip

-- The first option of the canary bind, other than the skipped one.
unfoldable pub canary_option : String → String → List UpstreamOptions → Option UpstreamOptions
canary_option skip canary_bind [] = none
canary_option skip canary_bind (uo ∷ rest) =
    if not (is_skipped skip uo) && uo.primary_bind == canary_bind
    then some uo
    else canary_option skip canary_bind rest

-- Another upstream has the bind as its canary.
unfoldable pub is_canary_elsewhere : String → String → List UpstreamOptions → Bool
is_canary_elsewhere skip canary_bind =
    any (λ uo. not (is_skipped skip uo) && contains uo.canary_binds canary_bind)

-- The bind has canary binds of its own.
unfoldable pub has_own_canaries : String → String → List UpstreamOptions → Bool
has_own_canaries skip canary_bind = any (λ uo.
    not (is_skipped skip uo) && (uo.primary_bind == canary_bind && ltb 0 (length uo.canary_binds)))

-- One round of the loop of validateCanaryBinds: whether the canary bind has a weight.
unfoldable pub validate_canary_bind : List UpstreamOptions → String → String → Result Bool
validate_canary_bind options skip canary_bind = elim (canary_option skip canary_bind options) [
  | none ↦
      err
        (validation "canary bind '%s' must reference an existing bind from another upstream option")
  | some uo ↦ do
    reject_if (is_canary_elsewhere skip canary_bind options) (
        validation
          "bind '%s' is already used as canary bind in upstream '%s' and cannot be used as canary in multiple upstreams")
    reject_if (has_own_canaries skip canary_bind options) (
        validation
          "bind '%s' cannot be used as canary because it has its own canary binds, which would create a chain")
    ok (ltb_ℤ (pos 0) uo.traffic_shaping_policy.weight)
]

unfoldable pub canary_binds_with_weight :
    List UpstreamOptions → String → List String → Result (List String)
canary_binds_with_weight options skip [] = ok []
canary_binds_with_weight options skip (canary_bind ∷ rest) = do
  weighted ← validate_canary_bind options skip canary_bind
  others ← canary_binds_with_weight options skip rest
  ok (if weighted then canary_bind ∷ others else others)

unfoldable pub validate_canary_binds :
    List UpstreamOptions → UpstreamOptionsArgs → String → Result (List String)
validate_canary_binds options args skip = do
  weighted ← canary_binds_with_weight options skip args.canary_binds
  reject_if (ltb 1 (length weighted)) (
      validation
        "only one canary bind per group can have weight > 0, but found weight in multiple canary binds: %v")
  ok weighted

unfoldable pub validate_traffic_shaping_options : UpstreamOptionsArgs → Result (Unit {0})
validate_traffic_shaping_options args = do
  let policy = args.traffic_shaping_policy
  reject_if (ltb 0 (length args.canary_binds) && has_traffic_shaping_policy policy) (
      validation
        "primary upstream '%s' cannot have traffic shaping policy when it has canary binds")
  reject_if
      (is_given policy.header
        && (not (is_given policy.header_value) && not (is_given policy.header_pattern)))
      (validation
        "when header is specified, either header-value or header-pattern must be provided")
  reject_if (is_given policy.header_value && is_given policy.header_pattern)
      (validation "header-value and header-pattern are mutually exclusive, please specify only one")
  ok tt

unfoldable pub is_load_balance_valid : LoadBalanceAlgorithm → Bool
is_load_balance_valid lb =
    lb == load_balance_round_robin || lb == load_balance_consistent_hash || lb == load_balance_ewma

unfoldable pub validate_load_balance_options : UpstreamOptionsArgs → Result (Unit {0})
validate_load_balance_options args = do
  let lb = args.load_balance
  reject_if (not (lb == "") && not (is_load_balance_valid lb))
      (validation "invalid loadBalance algorithm: %s. Valid values are: round_robin, chash, ewma")
  reject_if (lb == load_balance_consistent_hash && not (is_given args.load_balance_hash_key))
      (validation "loadBalanceHashKey is required when loadBalance is \"chash\"")
  reject_if (not (lb == load_balance_consistent_hash) && is_given args.load_balance_hash_key)
      (validation "loadBalanceHashKey is only valid when loadBalance is \"chash\"")
  ok tt
