-- ===== src/Upstream/Operations/Tests.antt =====
-- Runs of EnsureUpstreamOptions and DeleteUpstreamOptions, and the theorems at concrete inputs.
use mathlib.Core.Option
use rpaas_operator.Prelude.{
  String, ◌≡◌, ◌≢◌, refl, Bool, true, false, [], ◌∷◌, some, none, arith, contains, trim_space,
  is_some,
}
use rpaas_operator.Prelude.Int.{pos, ◌<ℤ◌}
use rpaas_operator.Prelude.Keyed.{find, store, Distinct}
use rpaas_operator.Errors.{validation}
use rpaas_operator.Result.{ok, err}
use rpaas_operator.Api.{TrafficShapingPolicy, UpstreamOptions, RpaasInstance, RpaasInstanceSpec}
use rpaas_operator.Manager.{get_instance}
use rpaas_operator.Samples.{single_laws, empty_spec, instance_with, manager}
use rpaas_operator.Upstream.Options.{
  UpstreamOptionsArgs, by_primary, is_given, validate_load_balance_options, is_load_balance_valid,
  validate_upstream_options_args, canary_option, is_canary_elsewhere, has_own_canaries,
  validate_canary_bind, canary_binds_with_weight, validate_canary_binds,
  validate_traffic_shaping_options, has_traffic_shaping_policy,
  apply_traffic_shaping_policy_defaults,
}
use rpaas_operator.Upstream.Options.Balance.{default_total_overflow}
use rpaas_operator.Upstream.Invariant.{IsWellFormed}
use rpaas_operator.Upstream.Operations.{
  with_upstream_options, without_upstream_options, check_options, check_weight_rule, options_of,
  is_referenced_as_canary, without_canary, validate_canary_weight_rule,
}
use rpaas_operator.Upstream.Operations.Effect.{
  with_upstream_options-IsWellFormed, with_upstream_options-effect,
}
use rpaas_operator.Upstream.Operations.Delete.{without_upstream_options-effect}
use rpaas_operator.Upstream.Operations.Reach.{ensure, delete, serve, serve-IsWellFormed}

abbrev no_policy : TrafficShapingPolicy
no_policy = record {
  weight = pos 0;
  weight_total = pos 0;
  header = "";
  header_value = "";
  header_pattern = "";
  cookie = "";
}

-- The canary gets a tenth of the traffic.
abbrev canary_args : UpstreamOptionsArgs
canary_args = record {
  primary_bind = "beta";
  canary_binds = [];
  traffic_shaping_policy = record no_policy { weight = pos 10 };
  load_balance = "";
  load_balance_hash_key = "";
}

abbrev primary_args : UpstreamOptionsArgs
primary_args = record {
  primary_bind = "main";
  canary_binds = "beta" ∷ [];
  traffic_shaping_policy = no_policy;
  load_balance = "ewma";
  load_balance_hash_key = "";
}

abbrev bound : RpaasInstanceSpec
bound = record empty_spec {
  binds =
      record { name = "main"; host = "main.example.org" }
      ∷ record { name = "beta"; host = "beta.example.org" }
      ∷ [];
}

abbrev start : RpaasInstance
start = instance_with bound

abbrev beta_option : UpstreamOptions
beta_option = record {
  primary_bind = "beta";
  canary_binds = [];
  traffic_shaping_policy = record no_policy { weight = pos 10; weight_total = pos 100 };
  load_balance = "round_robin";
  load_balance_hash_key = "";
}

abbrev main_option : UpstreamOptions
main_option = record {
  primary_bind = "main";
  canary_binds = "beta" ∷ [];
  traffic_shaping_policy = no_policy;
  load_balance = "ewma";
  load_balance_hash_key = "";
}

abbrev with_beta : RpaasInstance
with_beta = instance_with (record bound { upstream_options = beta_option ∷ [] })

abbrev with_both : RpaasInstance
with_both = instance_with (record bound { upstream_options = beta_option ∷ main_option ∷ [] })

-- Opens every check of EnsureUpstreamOptions.
runs : Bool
unfolding find store trim_space is_given validate_upstream_options_args canary_option
    is_canary_elsewhere has_own_canaries validate_canary_bind canary_binds_with_weight
    validate_canary_binds validate_traffic_shaping_options has_traffic_shaping_policy
    validate_load_balance_options is_load_balance_valid is_referenced_as_canary
    validate_canary_weight_rule check_weight_rule check_options options_of
    apply_traffic_shaping_policy_defaults with_upstream_options
runs = true

ensure_beta : with_upstream_options canary_args start ≡ ok with_beta
unfolding runs
ensure_beta = refl

ensure_main : with_upstream_options primary_args with_beta ≡ ok with_both
unfolding runs
ensure_main = refl

-- A canary cannot get canaries of its own, and a bind cannot be its own canary.
refuse_chain :
    with_upstream_options (record canary_args { canary_binds = "main" ∷ [] }) with_both
    ≡ err (
        validation
          "bind '%s' is referenced as a canary bind in another upstream option and cannot have its own canary binds")
unfolding runs
refuse_chain = refl

empty-IsWellFormed : IsWellFormed start.spec.upstream_options
unfolding find Distinct
empty-IsWellFormed = record {
  distinct = tt;
  sound = λ b uo f. absurd (cc f);
  no_chain = λ b c uo f k. absurd (cc f);
  one_parent = λ a b c uo other f g k l. absurd (cc f);
}

with_upstream_options-effect_example :
    (find by_primary "main" with_both.spec.upstream_options
      ≡ some (
          options_of
            (is_some (find by_primary "main" with_beta.spec.upstream_options))
            primary_args))
    × ((b : String)
        → b ≢ "main"
        → find by_primary b with_both.spec.upstream_options
          ≡ find by_primary b with_beta.spec.upstream_options)
    × (record with_both {
      spec = record (with_both.spec) { upstream_options = with_beta.spec.upstream_options };
    }
        ≡ with_beta)
with_upstream_options-effect_example =
    with_upstream_options-effect primary_args with_beta with_both ensure_main

abbrev beta_deleted : RpaasInstance
beta_deleted =
    instance_with
      (record bound { upstream_options = record main_option { canary_binds = [] } ∷ [] })

delete_beta : without_upstream_options "beta" with_both ≡ ok beta_deleted
unfolding without_upstream_options find
delete_beta = refl

both-IsWellFormed : IsWellFormed (with_both.spec.upstream_options)
both-IsWellFormed =
    with_upstream_options-IsWellFormed primary_args with_beta with_both ensure_main (
      with_upstream_options-IsWellFormed canary_args start with_beta ensure_beta empty-IsWellFormed)

without_upstream_options-effect_example :
    (find by_primary "beta" beta_deleted.spec.upstream_options ≡ none)
    × ((b : String) (uo : UpstreamOptions)
        → find by_primary b beta_deleted.spec.upstream_options ≡ some uo
        → contains uo.canary_binds "beta" ≡ false)
    × ((b : String)
        → b ≢ "beta"
        → find by_primary b beta_deleted.spec.upstream_options
          ≡ Option.map (without_canary "beta") (find by_primary b with_both.spec.upstream_options))
without_upstream_options-effect_example =
    without_upstream_options-effect "beta" with_both beta_deleted delete_beta

serve-IsWellFormed_example :
    (k : RpaasInstance) × (get_instance manager "web"
        (serve manager "web" (ensure canary_args ∷ ensure primary_args ∷ delete "beta" ∷ []) start)
      ≡ ok k)
    × IsWellFormed k.spec.upstream_options
unfolding get_instance
serve-IsWellFormed_example =
    serve-IsWellFormed manager "web" single_laws
      (ensure canary_args ∷ ensure primary_args ∷ delete "beta" ∷ []) start start refl
      empty-IsWellFormed

abbrev heavy : TrafficShapingPolicy
heavy = record no_policy { weight = pos 250 }

abbrev huge : TrafficShapingPolicy
huge = record no_policy { weight = pos 1000000000000000000 }

default_total_overflow_example : (apply_traffic_shaping_policy_defaults huge).weight_total <ℤ pos 0
default_total_overflow_example = default_total_overflow huge (omega arith) (omega arith) refl
