-- ===== src/Upstream/Operations/Effect.antt =====
-- internal/pkg/rpaas/upstream.go: EnsureUpstreamOptions as a change of the instance.
use mathlib.Core.Path.{subst}
use rpaas_operator.Prelude.{
  String, ◌≡◌, ◌≢◌, refl, sym, false, not, ◌&&◌, List, some, arith, eq_iff, ◌==◌, is_some, length,
  any, ltb,
}
use rpaas_operator.Prelude.Keyed.{find}
use rpaas_operator.Prelude.Keyed.Laws.{find-store_self, find-store_ne}
use rpaas_operator.Result.{ok, >>=-eq-ok, reject_if-eq-ok}
use rpaas_operator.Api.{UpstreamOptions, RpaasInstance}
use rpaas_operator.Upstream.Options.{
  UpstreamOptionsArgs, by_primary, canary_binds_with_weight, validate_canary_binds,
  validate_upstream_options_args, validate_traffic_shaping_options, validate_load_balance_options,
}
use rpaas_operator.Upstream.Options.Checks.{canary_binds_with_weight-IsCanary}
use rpaas_operator.Upstream.Invariant.{IsWellFormed}
use rpaas_operator.Upstream.Operations.{
  is_referenced_as_canary, options_of, check_options, check_weight_rule, with_upstream_options,
}
use rpaas_operator.Upstream.Operations.Sound.{options_of-IsSound}
use rpaas_operator.Upstream.Operations.Ensure.{
  exists, skip, fresh_option, written, written-IsWellFormed,
}

-- What has been checked when EnsureUpstreamOptions gets to write.
pub record IsChecked (options : List UpstreamOptions) (args : UpstreamOptionsArgs) : Type 0 where
  args_ok : validate_upstream_options_args args ≡ ok tt
  leaf :
      (is_referenced_as_canary (exists options args) args.primary_bind options
        && ltb 0 (length args.canary_binds))
      ≡ false
  weighted : List String
  canaries_ok : canary_binds_with_weight options (skip options args) args.canary_binds ≡ ok weighted
  traffic_ok : validate_traffic_shaping_options args ≡ ok tt
  balance_ok : validate_load_balance_options args ≡ ok tt

check_options-IsChecked :
    (options : List UpstreamOptions) (args : UpstreamOptionsArgs)
    → validate_upstream_options_args args ≡ ok tt
    → check_options options (exists options args) args ≡ ok tt
    → IsChecked options args
unfolding check_options validate_canary_binds
check_options-IsChecked options args v h =
    let (leaf, h₁) =
      reject_if-eq-ok
        (is_referenced_as_canary (exists options args) args.primary_bind options
          && ltb 0 (length args.canary_binds))
        _ _ h in
    let (ws, p, h₂) = >>=-eq-ok (validate_canary_binds options args (skip options args)) _ h₁ in
    let (vs, q, _) =
      >>=-eq-ok (canary_binds_with_weight options (skip options args) args.canary_binds) _ p in
    let (_, t, h₃) = >>=-eq-ok (validate_traffic_shaping_options args) _ h₂ in
    let (_, _, h₄) = >>=-eq-ok (check_weight_rule options (exists options args) args) _ h₃ in
    record {
      args_ok = v;
      leaf = leaf;
      weighted = vs;
      canaries_ok = q;
      traffic_ok = t;
      balance_ok = h₄;
    }

-- A successful call has passed every check, and has written the bind's option and nothing else.
pub with_upstream_options-ok :
    (args : UpstreamOptionsArgs) (i j : RpaasInstance)
    → with_upstream_options args i ≡ ok j
    → IsChecked i.spec.upstream_options args
      × (j ≡ record i {
        spec = record (i.spec) { upstream_options = written i.spec.upstream_options args };
      })
unfolding with_upstream_options
with_upstream_options-ok args i j h =
    let (_, v, h₁) = >>=-eq-ok (validate_upstream_options_args args) _ h in
    let (bound, h₂) =
      reject_if-eq-ok (not (any (λ bind. bind.name == args.primary_bind) i.spec.binds)) _ _ h₁ in
    let (_, c, h₃) =
      >>=-eq-ok (check_options i.spec.upstream_options (exists i.spec.upstream_options args) args) _
        h₂ in
    (check_options-IsChecked i.spec.upstream_options args v c, cc)

-- A call of EnsureUpstreamOptions keeps the options of the instance well-formed.
pub with_upstream_options-IsWellFormed :
    (args : UpstreamOptionsArgs) (i j : RpaasInstance)
    → with_upstream_options args i ≡ ok j
    → IsWellFormed i.spec.upstream_options
    → IsWellFormed j.spec.upstream_options
with_upstream_options-IsWellFormed args i j h w =
    let (c, same) = with_upstream_options-ok args i j h in
    let options = i.spec.upstream_options in
    subst (λ (k : RpaasInstance). IsWellFormed k.spec.upstream_options) (sym same)
      (written-IsWellFormed options args w (named c)
        (canary_binds_with_weight-IsCanary options (skip options args) args.canary_binds c.weighted
          c.canaries_ok)
        c.leaf (options_of-IsSound (exists options args) args c.args_ok c.traffic_ok c.balance_ok))
  where
    named : IsChecked i.spec.upstream_options args → args.primary_bind ≢ ""
    named c blank =
        unfold validate_upstream_options_args in
        ground (arith, c.args_ok, eq_iff args.primary_bind "")

-- After a successful EnsureUpstreamOptions the primary bind has the option made of the arguments;
-- every other bind keeps its option, and the rest of the
-- instance is as before.
pub with_upstream_options-effect :
    (args : UpstreamOptionsArgs) (i j : RpaasInstance)
    → with_upstream_options args i ≡ ok j
    → (find by_primary args.primary_bind j.spec.upstream_options
        ≡ some
            (options_of (is_some (find by_primary args.primary_bind i.spec.upstream_options)) args))
      × ((b : String)
          → b ≢ args.primary_bind
          → find by_primary b j.spec.upstream_options ≡ find by_primary b i.spec.upstream_options)
      × (record j { spec = record (j.spec) { upstream_options = i.spec.upstream_options } } ≡ i)
unfolding options_of
with_upstream_options-effect args i j h =
    let (_, same) = with_upstream_options-ok args i j h in
    let options = i.spec.upstream_options in
    subst
      (λ (k : RpaasInstance).
        (find by_primary args.primary_bind k.spec.upstream_options
          ≡ some (options_of (exists options args) args))
        × ((b : String)
            → b ≢ args.primary_bind
            → find by_primary b k.spec.upstream_options ≡ find by_primary b options)
        × (record k { spec = record (k.spec) { upstream_options = options } } ≡ i))
      (sym same)
      (
        find-store_self by_primary (fresh_option options args) options,
        λ b d. find-store_ne by_primary b (fresh_option options args) options d,
        refl,
      )
