-- ===== src/Flavors/Laws.antt =====
-- What the flavors of an accepted request promise.
use mathlib.Core.Path.{subst}
use rpaas_operator.Prelude.{
  String, ◌≡◌, inl, inr, refl, Bool, true, false, not, ◌&&◌, List, [], ◌∷◌, Option, some, arith,
  eq_iff, ◌==◌, contains, is_some, clash, Bool-cases, Option-cases,
}
use rpaas_operator.Prelude.Keyed.{find}
use rpaas_operator.Result.{Result, ok, >>=-eq-ok, reject_if-eq-ok}
use rpaas_operator.Flavors.{
  RpaasFlavor, by_flavor_name, missing_from, flavors_of, check_once, check_for_incompatible_flavors,
  check_added, check_all_added, is_creation_only, check_all_removed, validate_flavors,
}

-- No flavor stands twice.
unfoldable pub AreOnce : List String → Type 0
AreOnce [] = Unit
AreOnce (f ∷ fs) = (contains fs f ≡ false) × AreOnce fs

-- A flavor that may be added: it is known, is not for creation only unless the instance is new, and
-- none that it is incompatible with is asked for.
abbrev pub MayBeAdded : Bool → List RpaasFlavor → List String → String → Type 0
MayBeAdded is_creation all_flavors flavors f =
    (flavor : RpaasFlavor) × (find by_flavor_name f all_flavors ≡ some flavor)
    × ((flavor.creation_only ≡ true) → is_creation ≡ true)
    × ((g : String) → contains flavor.incompatible_flavors g ≡ true → contains flavors g ≡ false)

contains-missing_from :
    (others fs : List String) (f : String)
    → contains fs f ≡ true
    → contains others f ≡ false
    → contains (missing_from others fs) f ≡ true
contains-missing_from others [] f h n = cc
contains-missing_from others (g ∷ fs) f h n =
    ground (arith, eq_iff g f, contains-missing_from others fs f)

check_once-ok :
    (seen fs : List String)
    → check_once seen fs ≡ ok tt
    → AreOnce fs × ((f : String) → contains seen f ≡ true → contains fs f ≡ false)
unfolding check_once AreOnce
check_once-ok seen [] h = (tt, λ f s. refl)
check_once-ok seen (g ∷ fs) h = elim (Bool-cases (contains seen g)) [
  | inl t ↦ cc (rw t at h)
  | inr n ↦
      let (once, apart) = check_once-ok (g ∷ seen) fs (rw n at h) in
      (
        (apart g (ground (arith, eq_iff g g)), once),
        λ f s. ground (arith, apart f, eq_iff g f, n, s),
      )
]

compatible :
    (incompatible flavors : List String)
    → check_for_incompatible_flavors incompatible flavors ≡ ok tt
    → (g : String) → contains incompatible g ≡ true
    → contains flavors g ≡ false
unfolding check_for_incompatible_flavors
compatible [] flavors h g c = cc
compatible (f ∷ incompatible) flavors h g c = elim (Bool-cases (contains flavors f)) [
  | inl t ↦ cc (rw t at h)
  | inr n ↦ elim (Bool-cases (f == g)) [
    | inl e ↦ subst (λ x. contains flavors x ≡ false) ((eq_iff f g).0 e) n
    | inr e ↦ compatible incompatible flavors (rw n at h) g (rw e at c)
  ]
]

check_added-ok :
    (is_creation : Bool) (all_flavors : List RpaasFlavor) (flavors : List String) (f : String)
    → check_added is_creation flavors (find by_flavor_name f all_flavors) ≡ ok tt
    → MayBeAdded is_creation all_flavors flavors f
unfolding check_added
check_added-ok is_creation all_flavors flavors f h =
    elim (Option-cases (find by_flavor_name f all_flavors)) [
      | inl n ↦ cc (rw (n, check_added) at h)
      | inr (flavor, found) ↦
          let (fits, rest) =
            reject_if-eq-ok (flavor.creation_only && not is_creation) _ _
              (rw (found, check_added) at h) in
          (
            flavor,
            found,
            λ c. ground (arith, fits, c),
            compatible flavor.incompatible_flavors flavors rest,
          )
    ]

check_all_added-ok :
    (is_creation : Bool) (all_flavors : List RpaasFlavor) (flavors added : List String)
    → check_all_added is_creation all_flavors flavors added ≡ ok tt
    → (f : String) → contains added f ≡ true
    → MayBeAdded is_creation all_flavors flavors f
unfolding check_all_added
check_all_added-ok is_creation all_flavors flavors [] h f c = cc
check_all_added-ok is_creation all_flavors flavors (g ∷ added) h f c =
    let (u, one, rest) =
      >>=-eq-ok (check_added is_creation flavors (find by_flavor_name g all_flavors)) _ h in
    elim (Bool-cases (g == f)) [
      | inl e ↦
          subst (MayBeAdded is_creation all_flavors flavors) ((eq_iff g f).0 e)
            (check_added-ok is_creation all_flavors flavors g one)
      | inr e ↦ check_all_added-ok is_creation all_flavors flavors added rest f (rw e at c)
    ]

check_all_removed-ok :
    (all_flavors : List RpaasFlavor) (removed : List String)
    → check_all_removed all_flavors removed ≡ ok tt
    → (f : String) → contains removed f ≡ true
    → is_creation_only all_flavors f ≡ false
unfolding check_all_removed
check_all_removed-ok all_flavors [] h f c = cc
check_all_removed-ok all_flavors (g ∷ removed) h f c =
    elim (Bool-cases (is_creation_only all_flavors g)) [
      | inl t ↦ cc (rw t at h)
      | inr n ↦ elim (Bool-cases (g == f)) [
        | inl e ↦ subst (λ x. is_creation_only all_flavors x ≡ false) ((eq_iff g f).0 e) n
        | inr e ↦ check_all_removed-ok all_flavors removed (rw n at h) f (rw e at c)
      ]
    ]

-- An accepted list of flavors, for which the flavors of the cluster could be read, has no flavor twice;
-- every flavor that it adds may be added; and it leaves out none of the creation-only flavors that the
-- instance has.
pub validate_flavors-ok :
    (get_flavors : Result (List RpaasFlavor)) (existing : Option (List String))
    (flavors : List String)
    → validate_flavors get_flavors existing flavors ≡ ok tt
    → AreOnce flavors
      × (all_flavors : List RpaasFlavor) × (get_flavors ≡ ok all_flavors)
      × ((f : String)
          → contains flavors f ≡ true
          → contains (flavors_of existing) f ≡ false
          → MayBeAdded (not (is_some existing)) all_flavors flavors f)
      × ((f : String)
          → contains (flavors_of existing) f ≡ true
          → is_creation_only all_flavors f ≡ true
          → contains flavors f ≡ true)
unfolding validate_flavors
validate_flavors-ok get_flavors existing flavors h =
    let (u, once, h₁) = >>=-eq-ok (check_once [] flavors) _ h in
    let (all_flavors, read, h₂) = >>=-eq-ok get_flavors _ h₁ in
    let (v, added, removed) =
      >>=-eq-ok
        (check_all_added (not (is_some existing)) all_flavors flavors
          (missing_from (flavors_of existing) flavors))
        _ h₂ in
    (
      (check_once-ok [] flavors once).0,
      all_flavors,
      read,
      λ f c n.
          check_all_added-ok (not (is_some existing)) all_flavors flavors
            (missing_from (flavors_of existing) flavors) added f
            (contains-missing_from (flavors_of existing) flavors f c n),
      λ f c only. elim (Bool-cases (contains flavors f)) [
        | inl t ↦ t
        | inr n ↦ absurd (
            clash
              (check_all_removed-ok all_flavors (missing_from flavors (flavors_of existing)) removed
                f (contains-missing_from flavors (flavors_of existing) f c n))
              only)
      ],
    )
