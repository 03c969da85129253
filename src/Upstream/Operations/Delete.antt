-- ===== src/Upstream/Operations/Delete.antt =====
-- internal/pkg/rpaas/upstream.go: laws of DeleteUpstreamOptions.
use mathlib.Core.Path.{subst}
use mathlib.Core.Option
use rpaas_operator.Prelude.{
  String, ◌≡◌, ◌≢◌, ◌≤◌, refl, sym, ap, ◌∙◌, inl, inr, true, false, not, List, [], ◌∷◌, none, some,
  arith, eq_iff, ◌==◌, clash, is_some, length, contains, keep_if, Bool-cases,
}
use rpaas_operator.Prelude.Keyed.{find, Distinct}
use rpaas_operator.Result.{ok, reject_if-eq-ok}
use rpaas_operator.Api.{UpstreamOptions, RpaasInstance}
use rpaas_operator.Manager.Frame.{KeepsKey}
use rpaas_operator.Upstream.Options.{by_primary}
use rpaas_operator.Upstream.Invariant.{IsSound, IsWellFormed}
use rpaas_operator.Upstream.Operations.{without_canary, delete_option, without_upstream_options}

module _ (primary : String) where
  abbrev others : List String → List String
  others = keep_if (λ canary. not (canary == primary))

  length-others : (cs : List String) → length (others cs) ≤ length cs
  length-others [] = omega arith
  length-others (c ∷ cs) = ground (arith, length-others cs)

  contains-others :
      (cs : List String) (c : String)
      → contains (others cs) c ≡ true
      → (contains cs c ≡ true) × (c ≢ primary)
  contains-others [] c h = absurd (clash refl h)
  contains-others (x ∷ cs) c h = ground (arith, eq_iff x primary, eq_iff x c, contains-others cs c)

  contains-others_self : (cs : List String) → contains (others cs) primary ≡ false
  contains-others_self [] = refl
  contains-others_self (x ∷ cs) = ground (arith, contains-others_self cs)

  find-delete_self :
      (options : List UpstreamOptions)
      → find by_primary primary (delete_option primary options) ≡ none
  unfolding find delete_option without_canary
  find-delete_self [] = refl
  find-delete_self (o ∷ options) = ground (arith, find-delete_self options)

  find-delete_ne :
      (b : String) (options : List UpstreamOptions)
      → b ≢ primary
      → find by_primary b (delete_option primary options)
        ≡ Option.map (without_canary primary) (find by_primary b options)
  unfolding find delete_option without_canary
  find-delete_ne b [] d = refl
  find-delete_ne b (o ∷ options) d =
      ground
        (arith, find-delete_ne b options d, eq_iff o.primary_bind primary, eq_iff o.primary_bind b)

  delete-Distinct :
      (options : List UpstreamOptions)
      → Distinct by_primary options
      → Distinct by_primary (delete_option primary options)
  unfolding Distinct delete_option without_canary
  delete-Distinct [] d = tt
  delete-Distinct (o ∷ options) (n, d) = elim (Bool-cases (o.primary_bind == primary)) [
    | inl t ↦ rw t (delete-Distinct options d)
    | inr t ↦ rw t (
      find-delete_ne o.primary_bind options (λ e. clash t ((eq_iff o.primary_bind primary).1 e))
          ∙ ap (Option.map (without_canary primary)) n,
      delete-Distinct options d,
    )
  ]

  without_canary-IsSound : (uo : UpstreamOptions) → IsSound uo → IsSound (without_canary primary uo)
  unfolding without_canary
  without_canary-IsSound uo s = record {
    one_canary = omega (arith, length-others uo.canary_binds, s.one_canary);
    quiet = ground (arith, length-others uo.canary_binds, s.quiet);
    one_header = s.one_header;
    known_balance = s.known_balance;
    hash_key = s.hash_key;
  }

  -- What is found after the deletion is another bind's option, without its references.
  find-delete_cases :
      (b : String) (options : List UpstreamOptions) (uo : UpstreamOptions)
      → find by_primary b (delete_option primary options) ≡ some uo
      → (b ≢ primary)
        × (old : UpstreamOptions) × (find by_primary b options ≡ some old)
        × (uo ≡ without_canary primary old)
  find-delete_cases b options uo f = elim (Bool-cases (b == primary)) [
    | inl same ↦ absurd (
        none-ne-some (
          sym (find-delete_self options)
          ∙ ap (λ a. find by_primary a (delete_option primary options))
              (sym ((eq_iff b primary).0 same))
          ∙ f))
    | inr other ↦
        let d : b ≢ primary = λ e. clash other ((eq_iff b primary).1 e) in
        let (old, found, is) =
          (Option.map-eq-some_iff _ _).0 (sym (find-delete_ne b options d) ∙ f) in
        (d, old, found, sym is)
  ]
    where
      none-ne-some : none ≡ some uo → ⊥
      none-ne-some p = cc

  delete_option-IsWellFormed :
      (options : List UpstreamOptions)
      → IsWellFormed options
      → IsWellFormed (delete_option primary options)
  unfolding without_canary
  delete_option-IsWellFormed options w = record {
    distinct = delete-Distinct options w.distinct;
    sound = λ b uo f.
        let (_, old, found, is) = find-delete_cases b options uo f in
        subst IsSound (sym is) (without_canary-IsSound old (w.sound b old found));
    no_chain = λ b c uo f k.
        let (_, old, found, is) = find-delete_cases b options uo f in
        let (k', d) =
          contains-others old.canary_binds c (subst (λ o. contains o.canary_binds c ≡ true) is k) in
        let (target, there, leaf) = w.no_chain b c old found k' in
        (
          without_canary primary target,
          find-delete_ne c options d ∙ ap (Option.map (without_canary primary)) there,
          ap others leaf,
        );
    one_parent = λ a b c uo other f g k l.
        let (_, old, found, is) = find-delete_cases a options uo f in
        let (_, old', found', is') = find-delete_cases b options other g in
        w.one_parent a b c old old' found found'
          (contains-others old.canary_binds c
            (subst (λ o. contains o.canary_binds c ≡ true) is k)).0
          (contains-others old'.canary_binds c
            (subst (λ o. contains o.canary_binds c ≡ true) is' l)).0;
  }

-- A successful DeleteUpstreamOptions keeps the options well-formed.
pub without_upstream_options-IsWellFormed :
    (primary : String) (i j : RpaasInstance)
    → without_upstream_options primary i ≡ ok j
    → IsWellFormed i.spec.upstream_options
    → IsWellFormed j.spec.upstream_options
unfolding without_upstream_options
without_upstream_options-IsWellFormed primary i j h w =
    let (_, h₁) = reject_if-eq-ok (primary == "") _ _ h in
    let (_, h₂) =
      reject_if-eq-ok (not (is_some (find by_primary primary i.spec.upstream_options))) _ _ h₁ in
    let same : delete_option primary i.spec.upstream_options ≡ j.spec.upstream_options = cc in
    subst IsWellFormed same (delete_option-IsWellFormed primary i.spec.upstream_options w)

-- After a successful DeleteUpstreamOptions the bind has no option, no option names it as a canary,
-- and every other bind has its option with only the references to the bind cut out.
pub without_upstream_options-effect :
    (primary : String) (i j : RpaasInstance)
    → without_upstream_options primary i ≡ ok j
    → (find by_primary primary j.spec.upstream_options ≡ none)
      × ((b : String) (uo : UpstreamOptions)
          → find by_primary b j.spec.upstream_options ≡ some uo
          → contains uo.canary_binds primary ≡ false)
      × ((b : String)
          → b ≢ primary
          → find by_primary b j.spec.upstream_options
            ≡ Option.map (without_canary primary) (find by_primary b i.spec.upstream_options))
unfolding without_upstream_options
without_upstream_options-effect primary i j h =
    let options = i.spec.upstream_options in
    let (_, h₁) = reject_if-eq-ok (primary == "") _ _ h in
    let (_, h₂) = reject_if-eq-ok (not (is_some (find by_primary primary options))) _ _ h₁ in
    let same : delete_option primary options ≡ j.spec.upstream_options = cc in
    subst
      (λ (l : List UpstreamOptions).
        (find by_primary primary l ≡ none)
        × ((b : String) (uo : UpstreamOptions)
            → find by_primary b l ≡ some uo
            → contains uo.canary_binds primary ≡ false)
        × ((b : String)
            → b ≢ primary
            → find by_primary b l
              ≡ Option.map (without_canary primary) (find by_primary b options)))
      same
      (
        find-delete_self primary options,
        λ b uo f.
            (let (_, old, found, is) = find-delete_cases primary b options uo f in
              subst (λ o. contains o.canary_binds primary ≡ false) (sym is) (cut old)),
        λ b d. find-delete_ne primary b options d,
      )
  where
    cut :
        (old : UpstreamOptions) → contains (without_canary primary old).canary_binds primary ≡ false
    cut old = unfold without_canary in contains-others_self primary old.canary_binds

pub without_upstream_options-key : (primary : String) → KeepsKey (without_upstream_options primary)
unfolding without_upstream_options
without_upstream_options-key primary i j h =
    let (_, h₁) = reject_if-eq-ok (primary == "") _ _ h in
    let (_, h₂) =
      reject_if-eq-ok (not (is_some (find by_primary primary i.spec.upstream_options))) _ _ h₁ in
    (cc, cc)
