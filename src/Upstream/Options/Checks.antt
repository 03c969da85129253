-- ===== src/Upstream/Options/Checks.antt =====
-- What the checks of EnsureUpstreamOptions establish when they pass.
use rpaas_operator.Prelude.{
  String, ◌≡◌, ◌≢◌, refl, Bool, true, false, not, ◌&&◌, List, [], ◌∷◌, some, arith, eq_iff, ◌==◌,
  length, contains, any, ltb, Bool-cases, Option-cases, inl, inr, ◌⊎◌, ◌↔◌,
}
use mathlib.Core.Path.{subst}
use rpaas_operator.Prelude.Keyed.{find}
use rpaas_operator.Prelude.Keyed.Laws.{find-key}
use rpaas_operator.Errors.{Error}
use rpaas_operator.Result.{ok, err, >>=-eq-ok, reject_if-eq-ok}
use rpaas_operator.Api.{UpstreamOptions, load_balance_consistent_hash}
use rpaas_operator.Upstream.Options.{
  UpstreamOptionsArgs, by_primary, is_skipped, canary_option, is_canary_elsewhere, has_own_canaries,
  validate_canary_bind, canary_binds_with_weight, validate_traffic_shaping_options,
  validate_load_balance_options, has_traffic_shaping_policy, is_given, is_load_balance_valid,
}

-- The option found for the canary is the one that a lookup finds, and is not the skipped one.
canary_option-find :
    (skip c : String) (options : List UpstreamOptions) (uo : UpstreamOptions)
    → canary_option skip c options ≡ some uo
    → (find by_primary c options ≡ some uo) × ((skip ≡ "") ⊎ (c ≢ skip))
unfolding canary_option find
canary_option-find skip c [] uo h = cc
canary_option-find skip c (o ∷ options) uo h = ground (
  arith,
  eq_iff skip "",
  eq_iff o.primary_bind skip,
  eq_iff o.primary_bind c,
  canary_option-find skip c options uo,
)

-- An option that a lookup finds under a key that is not skipped passes no test that none passes.
any-find :
    (skip b : String) (p : UpstreamOptions → Bool) (options : List UpstreamOptions)
    (uo : UpstreamOptions)
    → find by_primary b options ≡ some uo
    → (skip ≡ "") ⊎ (b ≢ skip)
    → any (λ o. not (is_skipped skip o) && p o) options ≡ false
    → p uo ≡ false
unfolding find
any-find skip b p [] uo f d h = cc
any-find skip b p (o ∷ options) uo f d h = ground (
  arith,
  eq_iff skip "",
  eq_iff o.primary_bind skip,
  eq_iff o.primary_bind b,
  any-find skip b p options uo,
)

-- What holds of a canary bind that passes.
pub record IsCanary (options : List UpstreamOptions) (skip c : String) : Type 0 where
  pub target : UpstreamOptions
  pub found : find by_primary c options ≡ some target
  pub not_skipped : (skip ≡ "") ⊎ (c ≢ skip)
  pub no_canaries : target.canary_binds ≡ []
  pub fresh :
      (b : String) (uo : UpstreamOptions)
      → find by_primary b options ≡ some uo
      → (skip ≡ "") ⊎ (b ≢ skip)
      → contains uo.canary_binds c ≡ false

pub nil_of_not_longer : (l : List String) → ltb 0 (length l) ≡ false → l ≡ []
nil_of_not_longer [] h = refl
nil_of_not_longer (x ∷ l) h = ground arith

err-ne-ok {ℓ} : {A : Type ℓ} {e : Error} {a : A} → err e ≡ ok a → ⊥
err-ne-ok p = cc

pub validate_canary_bind-IsCanary :
    (options : List UpstreamOptions) (skip c : String) (weighted : Bool)
    → validate_canary_bind options skip c ≡ ok weighted
    → IsCanary options skip c
unfolding validate_canary_bind is_canary_elsewhere has_own_canaries
validate_canary_bind-IsCanary options skip c weighted h =
    elim (Option-cases (canary_option skip c options)) [
      | inl missing ↦ absurd (err-ne-ok (rw (missing, validate_canary_bind) at h))
      | inr (uo, p) ↦
          let (f, other) = canary_option-find skip c options uo p in
          let (elsewhere, h₁) =
            reject_if-eq-ok (is_canary_elsewhere skip c options) _ _
              (rw (p, validate_canary_bind) at h) in
          let (chained, h₂) = reject_if-eq-ok (has_own_canaries skip c options) _ _ h₁ in
          record {
            target = uo;
            found = f;
            not_skipped = other;
            no_canaries = nil_of_not_longer uo.canary_binds (
                ground (
                  arith,
                  any-find skip c
                      (λ (o : UpstreamOptions).
                        o.primary_bind == c && ltb 0 (length o.canary_binds))
                      options uo f other chained,
                  eq_iff uo.primary_bind c,
                  find-key by_primary c options uo f,
                ));
            fresh =
                λ b o g d. any-find skip b (λ o. contains o.canary_binds c) options o g d elsewhere;
          }
    ]

pub canary_binds_with_weight-IsCanary :
    (options : List UpstreamOptions) (skip : String) (cs weighted : List String)
    → canary_binds_with_weight options skip cs ≡ ok weighted
    → (c : String) → contains cs c ≡ true
    → IsCanary options skip c
unfolding canary_binds_with_weight
canary_binds_with_weight-IsCanary options skip [] weighted h c k = cc
canary_binds_with_weight-IsCanary options skip (x ∷ cs) weighted h c k =
    let (w, p, h₁) = >>=-eq-ok (validate_canary_bind options skip x) _ h in
    let (ws, q, h₂) = >>=-eq-ok (canary_binds_with_weight options skip cs) _ h₁ in
    elim (Bool-cases (x == c)) [
      | inl same ↦
          subst (IsCanary options skip) ((eq_iff x c).0 same)
            (validate_canary_bind-IsCanary options skip x w p)
      | inr other ↦ canary_binds_with_weight-IsCanary options skip cs ws q c (rw other at k)
    ]

-- What validateTrafficShapingOptions lets through.
pub validate_traffic_shaping_options-ok :
    (args : UpstreamOptionsArgs)
    → validate_traffic_shaping_options args ≡ ok tt
    → ((ltb 0 (length args.canary_binds) && has_traffic_shaping_policy args.traffic_shaping_policy)
        ≡ false)
      × ((is_given args.traffic_shaping_policy.header_value
            && is_given args.traffic_shaping_policy.header_pattern)
          ≡ false)
unfolding validate_traffic_shaping_options
validate_traffic_shaping_options-ok args h =
    let (quiet, h₁) = reject_if-eq-ok _ _ _ h in
    let (_, h₂) = reject_if-eq-ok _ _ _ h₁ in
    let (one, _) = reject_if-eq-ok _ _ _ h₂ in (quiet, one)

-- validateLoadBalanceOptions accepts exactly these arguments.
pub validate_load_balance_options_iff :
    (args : UpstreamOptionsArgs)
    → (validate_load_balance_options args ≡ ok tt) ↔ (
        ((args.load_balance ≡ "") ⊎ (is_load_balance_valid args.load_balance ≡ true))
        × (is_given args.load_balance_hash_key
            ≡ (args.load_balance == load_balance_consistent_hash)))
unfolding validate_load_balance_options
validate_load_balance_options_iff args = ground (arith, eq_iff args.load_balance "")
