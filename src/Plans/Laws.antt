-- ===== src/Plans/Laws.antt =====
-- Which plan is taken if a request names none.
use mathlib.Core.Path.{subst}
use rpaas_operator.Prelude.{
  String, ◌==◌, ◌≡◌, inl, inr, refl, sym, ap, ◌∙◌, Bool, true, false, ◌||◌, List, [], ◌∷◌, map, any,
  arith, eq_iff, Bool-cases, clash, if◌then◌else◌,
}
use rpaas_operator.Result.{ok, >>=-eq-ok}
use rpaas_operator.Manager.{Manager, get_service_name}
use rpaas_operator.Plans.{
  RpaasPlan, Shown, Catalog, insert_shown, sort_shown, shown_plans, get_named_plan, default_plans,
  only_plan, get_plans, get_default_plan, get_flavors,
}

-- One of the list has the name.
abbrev pub is_shown : String → List Shown → Bool
is_shown n ss = any (λ s. s.name == n) ss

is_shown-insert_shown :
    (n : String) (s : Shown) (ss : List Shown)
    → is_shown n (insert_shown s ss) ≡ (s.name == n || is_shown n ss)
unfolding insert_shown
is_shown-insert_shown n s [] = refl
is_shown-insert_shown n s (t ∷ ss) = ground (arith, is_shown-insert_shown n s ss)

is_shown-sort_shown : (n : String) (ss : List Shown) → is_shown n (sort_shown ss) ≡ is_shown n ss
unfolding sort_shown
is_shown-sort_shown n [] = refl
is_shown-sort_shown n (s ∷ ss) =
    is_shown-insert_shown n s (sort_shown ss)
    ∙ ap (λ b. s.name == n || b) (is_shown-sort_shown n ss)

abbrev pub has_plan : String → List RpaasPlan → Bool
has_plan n ps = any (λ p. p.name == n) ps

shown_plan : (n : String) (ps : List RpaasPlan) → is_shown n (shown_plans ps) ≡ has_plan n ps
unfolding shown_plans
shown_plan n ps = is_shown-sort_shown n _ ∙ named ps
  where
    named :
        (ps : List RpaasPlan)
        → is_shown n
            (map (λ (p : RpaasPlan). record { name = p.name; description = p.spec.description }) ps)
          ≡ has_plan n ps
    named [] = refl
    named (p ∷ ps) = ap (λ b. p.name == n || b) (named ps)

only_plan-ok : (ps : List RpaasPlan) (p : RpaasPlan) → only_plan ps ≡ ok p → ps ≡ p ∷ []
unfolding only_plan
only_plan-ok [] p h = cc
only_plan-ok (q ∷ []) p h = cc
only_plan-ok (q ∷ r ∷ ps) p h = cc

module _ (m : Manager) (cat : Catalog m.cli.World) (w : m.cli.World) where
  -- A default plan of that name is read.
  abbrev pub IsDefault : String → RpaasPlan → Type 0
  IsDefault n p = (get_named_plan m cat n w ≡ ok p) × (p.spec.is_default ≡ true)

  default_plans-none :
      (ss : List Shown) (n : String) (q : RpaasPlan)
      → default_plans m cat ss w ≡ ok []
      → is_shown n ss ≡ true
      → IsDefault n q
      → ⊥
  unfolding default_plans
  default_plans-none [] n q h c is = cc
  default_plans-none (s ∷ ss) n q h c (read, is) =
      let (p, first, h₁) = >>=-eq-ok (get_named_plan m cat s.name w) _ h in
      let (rest, later, made) = >>=-eq-ok (default_plans m cat ss w) _ h₁ in
      elim (Bool-cases (s.name == n)) [
        | inl t ↦
            here p rest made
              (same p (subst (λ x. get_named_plan m cat x w ≡ ok p) ((eq_iff s.name n).0 t) first))
        | inr t ↦ default_plans-none ss n q (empty p rest later made) (rw t at c) (read, is)
      ]
    where
      same : (p : RpaasPlan) → get_named_plan m cat n w ≡ ok p → p ≡ q
      same p r = inside (sym r ∙ read)
        where
          inside : {a b : RpaasPlan} → ok a ≡ ok b → a ≡ b
          inside e = cc

      here :
          (p : RpaasPlan) (rest : List RpaasPlan)
          → ok (if p.spec.is_default then p ∷ rest else rest) ≡ ok []
          → p ≡ q
          → ⊥
      here p rest made e = ground (arith, made, e, is)

      empty :
          (p : RpaasPlan) (rest : List RpaasPlan)
          → default_plans m cat ss w ≡ ok rest
          → ok (if p.spec.is_default then p ∷ rest else rest) ≡ ok []
          → default_plans m cat ss w ≡ ok []
      empty p rest later made = ground (arith, later, made)

  default_plans-only :
      (ss : List Shown) (p : RpaasPlan) (n : String) (q : RpaasPlan)
      → default_plans m cat ss w ≡ ok (p ∷ [])
      → is_shown n ss ≡ true
      → IsDefault n q
      → q ≡ p
  unfolding default_plans
  default_plans-only [] p n q h c is = cc
  default_plans-only (s ∷ ss) p n q h c (read, is) =
      let (r, first, h₁) = >>=-eq-ok (get_named_plan m cat s.name w) _ h in
      let (rest, later, made) = >>=-eq-ok (default_plans m cat ss w) _ h₁ in
      elim (Bool-cases r.spec.is_default) [
        | inl d ↦
            let (same, ends) = taken r rest d made in
            elim (Bool-cases (s.name == n)) [
              | inl t ↦
                  sym (
                    same_plan r
                      (subst (λ x. get_named_plan m cat x w ≡ ok r) ((eq_iff s.name n).0 t) first))
                  ∙ same
              | inr t ↦
                  absurd
                    (default_plans-none ss n q (later ∙ ap (λ l. ok l) ends) (rw t at c) (read, is))
            ]
        | inr d ↦ elim (Bool-cases (s.name == n)) [
          | inl t ↦ absurd (
              clash d (
                ap (λ x. x.spec.is_default)
                  (same_plan r
                    (subst (λ x. get_named_plan m cat x w ≡ ok r) ((eq_iff s.name n).0 t) first))
                ∙ is))
          | inr t ↦
              default_plans-only ss p n q (later ∙ passed r rest d made) (rw t at c) (read, is)
        ]
      ]
    where
      same_plan : (r : RpaasPlan) → get_named_plan m cat n w ≡ ok r → r ≡ q
      same_plan r h = inside (sym h ∙ read)
        where
          inside : {a b : RpaasPlan} → ok a ≡ ok b → a ≡ b
          inside e = cc

      taken :
          (r : RpaasPlan) (rest : List RpaasPlan)
          → r.spec.is_default ≡ true
          → ok (if r.spec.is_default then r ∷ rest else rest) ≡ ok (p ∷ [])
          → (r ≡ p) × (rest ≡ [])
      taken r rest d h = let g = rw d at h in (cc, cc)

      passed :
          (r : RpaasPlan) (rest : List RpaasPlan)
          → r.spec.is_default ≡ false
          → ok (if r.spec.is_default then r ∷ rest else rest) ≡ ok (p ∷ [])
          → ok rest ≡ ok (p ∷ [])
      passed r rest d h = rw d at h

  default_plans-default :
      (ss : List Shown) (p : RpaasPlan) (ps : List RpaasPlan)
      → default_plans m cat ss w ≡ ok (p ∷ ps)
      → p.spec.is_default ≡ true
  unfolding default_plans
  default_plans-default [] p ps h = cc
  default_plans-default (s ∷ ss) p ps h =
      let (r, first, h₁) = >>=-eq-ok (get_named_plan m cat s.name w) _ h in
      let (rest, later, made) = >>=-eq-ok (default_plans m cat ss w) _ h₁ in
      elim (Bool-cases r.spec.is_default) [
        | inl d ↦ ap (λ x. x.spec.is_default) (sym (head r rest (rw d at made))) ∙ d
        | inr d ↦ default_plans-default ss p ps (later ∙ rw d at made)
      ]
    where
      head : (r : RpaasPlan) (rest : List RpaasPlan) → ok (r ∷ rest) ≡ ok (p ∷ ps) → r ≡ p
      head r rest e = cc

  -- If getDefaultPlan returns a plan, it is a default plan, the plans of the service could be listed, and none
  -- of them but this one is read as a default plan.
  pub get_default_plan-only :
      (p : RpaasPlan)
      → get_default_plan m cat w ≡ ok p
      → (p.spec.is_default ≡ true)
        × (plans : List RpaasPlan) × (cat.list_plans (get_service_name m.config) w ≡ ok plans)
        × ((n : String) (q : RpaasPlan) → has_plan n plans ≡ true → IsDefault n q → q ≡ p)
  unfolding get_default_plan get_plans
  get_default_plan-only p h =
      let (shown, listed, h₁) = >>=-eq-ok (get_plans m cat w) _ h in
      let (defaults, d, only) = >>=-eq-ok (default_plans m cat shown w) _ h₁ in
      let (plans, l, h₂) = >>=-eq-ok (cat.list_plans (get_service_name m.config) w) _ listed in
      let (flavors, f, made) = >>=-eq-ok (get_flavors m cat w) _ h₂ in
      (
        default_plans-default shown p [] (d ∙ ap (λ x. ok x) (only_plan-ok defaults p only)),
        plans,
        l,
        λ n q has is.
            default_plans-only shown p n q (d ∙ ap (λ x. ok x) (only_plan-ok defaults p only))
              (ap (λ x. is_shown n x) (sym (inside made)) ∙ (shown_plan n plans ∙ has)) is,
      )
    where
      inside : {a b : List Shown} → ok a ≡ ok b → a ≡ b
      inside e = cc
