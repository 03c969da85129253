-- ===== src/Upstream/Operations/Ensure.antt =====
-- internal/pkg/rpaas/upstream.go: what EnsureUpstreamOptions does to the stored options.
use mathlib.Core.Path.{subst}
use rpaas_operator.Prelude.{
  String, ◌≡◌, ◌≢◌, refl, sym, ap, ◌∙◌, ◌⊎◌, inl, inr, Bool, true, false, ◌&&◌, List, [], ◌∷◌, some,
  arith, eq_iff, ◌==◌, if◌then◌else◌, clash, is_some, length, contains, ltb, Bool-cases,
}
use rpaas_operator.Prelude.Keyed.{find, store}
use rpaas_operator.Prelude.Keyed.Laws.{
  find-store_cases, find-store_self, find-store_ne, store-Distinct,
}
use rpaas_operator.Api.{UpstreamOptions}
use rpaas_operator.Upstream.Options.{UpstreamOptionsArgs, by_primary}
use rpaas_operator.Upstream.Options.Checks.{IsCanary, nil_of_not_longer}
use rpaas_operator.Upstream.Invariant.{IsSound, IsWellFormed}
use rpaas_operator.Upstream.Operations.{is_referenced_as_canary, options_of}

-- A bind that no other option names as its canary.
not_referenced :
    (upstream_exists : Bool) (primary b : String) (options : List UpstreamOptions)
    (uo : UpstreamOptions)
    → is_referenced_as_canary upstream_exists primary options ≡ false
    → find by_primary b options ≡ some uo
    → b ≢ primary
    → contains uo.canary_binds primary ≡ false
unfolding is_referenced_as_canary find
not_referenced e primary b [] uo h f d = cc
not_referenced e primary b (o ∷ options) uo h f d = ground (
  arith,
  eq_iff o.primary_bind primary,
  eq_iff o.primary_bind b,
  not_referenced e primary b options uo,
)

abbrev pub skip_of : Bool → String → String
skip_of upstream_exists primary = if upstream_exists then primary else ""

other_unskipped :
    (e : Bool) (primary b : String)
    → b ≢ primary
    → (skip_of e primary ≡ "") ⊎ (b ≢ skip_of e primary)
other_unskipped true primary b d = inr d
other_unskipped false primary b d = inl refl

unskipped_other :
    (e : Bool) (primary c : String)
    → primary ≢ ""
    → (e ≡ false → c ≢ primary)
    → (skip_of e primary ≡ "") ⊎ (c ≢ skip_of e primary)
    → c ≢ primary
unskipped_other true primary c named d (inl blank) = absurd (named blank)
unskipped_other true primary c named d (inr other) = other
unskipped_other false primary c named d h = d refl

module _ (options : List UpstreamOptions) (args : UpstreamOptionsArgs) where
  abbrev pub exists : Bool
  exists = is_some (find by_primary args.primary_bind options)

  abbrev pub skip : String
  skip = skip_of exists args.primary_bind

  abbrev pub fresh_option : UpstreamOptions
  fresh_option = options_of exists args

  abbrev pub written : List UpstreamOptions
  written = store by_primary fresh_option options

  module _ (w : IsWellFormed options) (named : args.primary_bind ≢ "")
      (canaries : (c : String) → contains args.canary_binds c ≡ true → IsCanary options skip c)
      (leaf : (is_referenced_as_canary exists args.primary_bind options
          && ltb 0 (length args.canary_binds))
        ≡ false) where
    -- No canary is the bind itself.
    canary_ne : (c : String) → contains args.canary_binds c ≡ true → c ≢ args.primary_bind
    canary_ne c k =
        let canary = canaries c k in
        unskipped_other exists args.primary_bind c named
          (λ absent same. clash absent (
            ap is_some
              (subst (λ b. find by_primary b options ≡ some canary.target) same canary.found)))
          canary.not_skipped

    -- A bind that is a canary has been given no canaries.
    no_canaries :
        (b : String) (uo : UpstreamOptions)
        → find by_primary b options ≡ some uo
        → b ≢ args.primary_bind
        → contains uo.canary_binds args.primary_bind ≡ true
        → args.canary_binds ≡ []
    no_canaries b uo f d k =
        elim (Bool-cases (is_referenced_as_canary exists args.primary_bind options)) [
          | inl t ↦ nil_of_not_longer args.canary_binds (rw t at leaf)
          | inr t ↦ absurd (clash (not_referenced exists args.primary_bind b options uo t f d) k)
        ]

    no_chain_after :
        (b c : String) (uo : UpstreamOptions)
        → find by_primary b written ≡ some uo
        → contains uo.canary_binds c ≡ true
        → (target : UpstreamOptions) × (find by_primary c written ≡ some target)
          × (target.canary_binds ≡ [])
    unfolding options_of
    no_chain_after b c uo f k = elim (find-store_cases by_primary b fresh_option options uo f) [
      | inl (p, same) ↦
          let k' : contains args.canary_binds c ≡ true =
            subst (λ o. contains o.canary_binds c ≡ true) same k in
          let canary = canaries c k' in
          (
            canary.target,
            find-store_ne by_primary c fresh_option options (canary_ne c k') ∙ canary.found,
            canary.no_canaries,
          )
      | inr (d, old) ↦ elim (Bool-cases (c == args.primary_bind)) [
        | inl same ↦
            let e : c ≡ args.primary_bind = (eq_iff c args.primary_bind).0 same in
            (
              fresh_option,
              ap (λ a. find by_primary a written) e
                  ∙ find-store_self by_primary fresh_option options,
              no_canaries b uo old d (subst (λ a. contains uo.canary_binds a ≡ true) e k),
            )
        | inr other ↦
            let (target, found, none_own) = w.no_chain b c uo old k in
            (
              target,
              find-store_ne by_primary c fresh_option options
                    (λ e. clash other ((eq_iff c args.primary_bind).1 e))
                  ∙ found,
              none_own,
            )
      ]
    ]

    -- No other option has a canary of the bind.
    canary_only_here :
        (b c : String) (other : UpstreamOptions)
        → find by_primary b options ≡ some other
        → b ≢ args.primary_bind
        → contains args.canary_binds c ≡ true
        → contains other.canary_binds c ≡ false
    canary_only_here b c other f d k =
        (canaries c k).fresh b other f (other_unskipped exists args.primary_bind b d)

    one_parent_after :
        (a b c : String) (uo other : UpstreamOptions)
        → find by_primary a written ≡ some uo
        → find by_primary b written ≡ some other
        → contains uo.canary_binds c ≡ true
        → contains other.canary_binds c ≡ true
        → a ≡ b
    unfolding options_of
    one_parent_after a b c uo other f g k l =
        elim (find-store_cases by_primary a fresh_option options uo f) [
          | inl (p, same) ↦ elim (find-store_cases by_primary b fresh_option options other g) [
            | inl (q, _) ↦ p ∙ sym q
            | inr (d, old) ↦ absurd (
                clash
                  (canary_only_here b c other old d
                    (subst (λ o. contains o.canary_binds c ≡ true) same k))
                  l)
          ]
          | inr (d, old) ↦ elim (find-store_cases by_primary b fresh_option options other g) [
            | inl (q, same) ↦ absurd (
                clash
                  (canary_only_here a c uo old d
                    (subst (λ o. contains o.canary_binds c ≡ true) same l))
                  k)
            | inr (e, old') ↦ w.one_parent a b c uo other old old' k l
          ]
        ]

    pub written-IsWellFormed : IsSound fresh_option → IsWellFormed written
    written-IsWellFormed s = record {
      distinct = store-Distinct by_primary fresh_option options w.distinct;
      sound = λ b uo f. elim (find-store_cases by_primary b fresh_option options uo f) [
        | inl (_, same) ↦ subst IsSound (sym same) s
        | inr (_, old) ↦ w.sound b uo old
      ];
      no_chain = no_chain_after;
      one_parent = one_parent_after;
    }
