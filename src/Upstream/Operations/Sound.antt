-- ===== src/Upstream/Operations/Sound.antt =====
-- internal/pkg/rpaas/upstream.go: the option that EnsureUpstreamOptions stores, by itself.
use rpaas_operator.Prelude.{
  String, ◌≡◌, refl, ◌⊎◌, inl, inr, Bool, true, false, ◌&&◌, arith, eq_iff, ◌==◌, if◌then◌else◌,
  trim_space, Bool-cases,
}
use rpaas_operator.Result.{ok}
use rpaas_operator.Api.{
  TrafficShapingPolicy, load_balance_consistent_hash, load_balance_round_robin,
}
use rpaas_operator.Upstream.Options.{
  UpstreamOptionsArgs, validate_upstream_options_args, validate_traffic_shaping_options,
  validate_load_balance_options, has_traffic_shaping_policy, apply_traffic_shaping_policy_defaults,
  is_given, is_load_balance_valid,
}
use rpaas_operator.Upstream.Options.Checks.{
  validate_traffic_shaping_options-ok, validate_load_balance_options_iff,
}
use rpaas_operator.Upstream.Invariant.{IsSound}
use rpaas_operator.Upstream.Operations.{exclude_header, options_of}

final_policy : Bool → TrafficShapingPolicy → TrafficShapingPolicy
final_policy e p = apply_traffic_shaping_policy_defaults (if e then exclude_header p else p)

final_has_policy :
    (e : Bool) (p : TrafficShapingPolicy)
    → has_traffic_shaping_policy (final_policy e p) ≡ has_traffic_shaping_policy p
unfolding final_policy has_traffic_shaping_policy apply_traffic_shaping_policy_defaults
    exclude_header
final_has_policy e p = ground arith

final_one_header :
    (e : Bool) (p : TrafficShapingPolicy)
    → (is_given p.header_value && is_given p.header_pattern) ≡ false
    → (is_given (final_policy e p).header_value && is_given (final_policy e p).header_pattern)
      ≡ false
unfolding final_policy apply_traffic_shaping_policy_defaults exclude_header
final_one_header e p h = ground (arith, blank)
  where
    blank : is_given "" ≡ false
    blank = unfold is_given trim_space in refl

balance_defaults :
    (lb key : String)
    → (lb ≡ "") ⊎ (is_load_balance_valid lb ≡ true)
    → is_given key ≡ (lb == load_balance_consistent_hash)
    → (is_load_balance_valid (if lb == "" then load_balance_round_robin else lb) ≡ true)
      × (is_given key
          ≡ ((if lb == "" then load_balance_round_robin else lb) == load_balance_consistent_hash))
unfolding is_load_balance_valid
balance_defaults lb key v k = elim (Bool-cases (lb == "")) [
  | inl t ↦ rw t (refl, rw ((eq_iff lb "").0 t) at k)
  | inr t ↦ rw t (ground (arith, eq_iff lb ""), k)
]

-- The checks leave an option that is sound by itself.
pub options_of-IsSound :
    (upstream_exists : Bool) (args : UpstreamOptionsArgs)
    → validate_upstream_options_args args ≡ ok tt
    → validate_traffic_shaping_options args ≡ ok tt
    → validate_load_balance_options args ≡ ok tt
    → IsSound (options_of upstream_exists args)
unfolding options_of final_policy
options_of-IsSound e args v t l =
    let (quiet, one) = validate_traffic_shaping_options-ok args t in
    let (valid, key) = (validate_load_balance_options_iff args).0 l in
    let (known, hash) = balance_defaults args.load_balance args.load_balance_hash_key valid key in
    record {
      one_canary = unfold validate_upstream_options_args in ground arith;
      quiet = rw (final_has_policy e args.traffic_shaping_policy) quiet;
      one_header = final_one_header e args.traffic_shaping_policy one;
      known_balance = known;
      hash_key = hash;
    }
