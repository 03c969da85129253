-- ===== src/Prelude/Keyed/Laws.antt =====
-- The laws of keyed slices and maps: what a lookup sees after each write.
use mathlib.Core.Path.{◌≡◌, refl, sym, ◌∙◌}
use mathlib.Core.Logic.{◌≢◌, ◌↔◌, ◌⊎◌, inl, inr}
use mathlib.Core.Bool.{true, false}
use mathlib.Core.List.{List, [], ◌∷◌, ◌++◌}
use mathlib.Core.Option
use mathlib.Core.Option.{Option, none, some}
use native.Mathlib.Omega.{arith}
use rpaas_operator.Prelude.Tests.{if◌then◌else◌, Bool-cases, Option-cases, clash}
use rpaas_operator.Prelude.Keyed.{Keyed, find, store, remove, drop_key, merge, store_all, Distinct}

module _ {ℓ κ} {K : Type ℓ} {A : Type κ} (E : Keyed K A) where
  pub test_key : (x : A) → E.test (E.key x) x ≡ true
  test_key x = (E.test_iff (E.key x) x).1 refl

  pub test_same : (j k : K) (x : A) → E.test j x ≡ true → E.test k x ≡ true → j ≡ k
  test_same j k x h e = sym ((E.test_iff j x).0 h) ∙ (E.test_iff k x).0 e

  -- Entries with one key pass the same tests.
  pub test_cong : (j : K) (x y : A) → E.key x ≡ E.key y → E.test j x ≡ E.test j y
  test_cong j x y e = elim (Bool-cases (E.test j x)) [
    | inl h ↦ h ∙ sym ((E.test_iff j y).1 (sym e ∙ (E.test_iff j x).0 h))
    | inr h ↦ elim (Bool-cases (E.test j y)) [
      | inl g ↦ absurd (clash h ((E.test_iff j x).1 (e ∙ (E.test_iff j y).0 g)))
      | inr g ↦ h ∙ sym g
    ]
  ]

  pub test_other : (j k : K) (x : A) → j ≢ k → E.test k x ≡ true → E.test j x ≡ false
  test_other j k x d h = elim (Bool-cases (E.test j x)) [
    | inl g ↦ absurd (d (test_same j k x g h))
    | inr g ↦ g
  ]

  pub store-cons :
      (x y : A) (ys : List A)
      → store E x (y ∷ ys) ≡ (if E.test (E.key x) y then x ∷ ys else y ∷ store E x ys)
  unfolding store
  store-cons x y ys = ground arith

  pub remove-cons :
      (k : K) (y : A) (ys : List A)
      → remove E k (y ∷ ys)
        ≡ (if E.test k y then some ys else Option.map (λ zs. y ∷ zs) (remove E k ys))
  unfolding remove
  remove-cons k y ys = ground arith

  -- A found entry has the key.
  pub find-key : (k : K) (xs : List A) (x : A) → find E k xs ≡ some x → E.key x ≡ k
  unfolding find
  find-key k [] x h = cc
  find-key k (y ∷ ys) x h = ground (arith, E.test_iff k y, find-key k ys x)

  -- A write is seen under the entry's own key, and nowhere else.
  pub find-store :
      (j : K) (x : A) (xs : List A)
      → find E j (store E x xs) ≡ (if E.test j x then some x else find E j xs)
  unfolding find
  find-store j x [] = unfold store in refl
  find-store j x (y ∷ ys) =
      rw store-cons
        (ground (arith, find-store j x ys, E.test_iff (E.key x) y, test_cong j x y, E.test_iff j x))

  pub find-store_self : (x : A) (xs : List A) → find E (E.key x) (store E x xs) ≡ some x
  find-store_self x xs = rw find-store (rw test_key)

  test_ne : (j : K) (x : A) → j ≢ E.key x → E.test j x ≡ false
  test_ne j x d = test_other j (E.key x) x d (test_key x)

  -- A write leaves every other key alone.
  pub find-store_ne :
      (j : K) (x : A) (xs : List A) → j ≢ E.key x → find E j (store E x xs) ≡ find E j xs
  find-store_ne j x xs d = rw find-store (rw (test_ne j x d))

  -- What is found after a write is the entry written, or an entry under another key.
  pub find-store_cases :
      (j : K) (x : A) (xs : List A) (y : A)
      → find E j (store E x xs) ≡ some y
      → ((j ≡ E.key x) × (y ≡ x)) ⊎ ((j ≢ E.key x) × (find E j xs ≡ some y))
  find-store_cases j x xs y h = elim (Bool-cases (E.test j x)) [
    | inl t ↦ inl (sym ((E.test_iff j x).0 t), ground (arith, find-store j x xs))
    | inr t ↦ inr (λ e. clash t ((E.test_iff j x).1 (sym e)), ground (arith, find-store j x xs))
  ]

  pub store-Distinct : (x : A) (xs : List A) → Distinct E xs → Distinct E (store E x xs)
  unfolding Distinct
  store-Distinct x [] d = unfold store in (refl, tt)
  store-Distinct x (y ∷ ys) (n, d) = rw store-cons (elim (Bool-cases (E.test (E.key x) y)) [
    | inl same ↦ rw same (rw (← (E.test_iff (E.key x) y).0 same) n, d)
    | inr other ↦ rw other (
      rw find-store (ground (arith, n, other, E.test_iff (E.key x) y, E.test_iff (E.key y) x)),
      store-Distinct x ys d,
    )
  ])

  -- An entry is cut out at the head, or behind it.
  pub remove-cons_cases :
      (k : K) (x : A) (xs ys : List A)
      → remove E k (x ∷ xs) ≡ some ys
      → ((E.test k x ≡ true) × (ys ≡ xs))
        ⊎ ((zs : List A) × (E.test k x ≡ false) × (remove E k xs ≡ some zs) × (ys ≡ x ∷ zs))
  remove-cons_cases k x xs ys h = elim (Bool-cases (E.test k x)) [
    | inl t ↦ inl (t, ground (arith, remove-cons k x xs))
    | inr t ↦ elim (Option-cases (remove E k xs)) [
      | inl n ↦ absurd (ground (arith, remove-cons k x xs))
      | inr (zs, r) ↦ inr (zs, t, r, ground (arith, remove-cons k x xs))
    ]
  ]

  -- On a slice with distinct keys the key is gone after its entry is cut out.
  pub find-remove_self :
      (k : K) (xs ys : List A) → Distinct E xs → remove E k xs ≡ some ys → find E k ys ≡ none
  unfolding Distinct
  find-remove_self k [] ys d h = unfold remove in cc
  find-remove_self k (x ∷ xs) ys (n, d) h = elim (remove-cons_cases k x xs ys h) [
    | inl (t, e) ↦ rw e (rw (← (E.test_iff k x).0 t) n)
    | inr (zs, t, r, e) ↦ rw e (rw t (find-remove_self k xs zs d r))
  ]

  -- Cutting an entry out changes no lookup of another key.
  pub find-remove_ne :
      (j k : K) (xs ys : List A) → j ≢ k → remove E k xs ≡ some ys → find E j ys ≡ find E j xs
  unfolding find
  find-remove_ne j k [] ys d h = unfold remove in cc
  find-remove_ne j k (x ∷ xs) ys d h = elim (remove-cons_cases k x xs ys h) [
    | inl (t, e) ↦ rw (e, test_other j k x d t)
    | inr (zs, t, r, e) ↦ rw e (rw (find-remove_ne j k xs zs d r))
  ]

  pub remove-Distinct :
      (k : K) (xs ys : List A) → Distinct E xs → remove E k xs ≡ some ys → Distinct E ys
  unfolding Distinct
  remove-Distinct k [] ys d h = unfold remove in cc
  remove-Distinct k (x ∷ xs) ys (n, d) h = elim (remove-cons_cases k x xs ys h) [
    | inl (t, e) ↦ rw e d
    | inr (zs, t, r, e) ↦ rw e (
      find-remove_ne (E.key x) k xs zs (λ p. clash t ((E.test_iff k x).1 p)) r ∙ n,
      remove-Distinct k xs zs d r,
    )
  ]

  -- There is nothing to cut out exactly where the key is not found.
  pub remove-none_iff : (k : K) (xs : List A) → (remove E k xs ≡ none) ↔ (find E k xs ≡ none)
  unfolding find
  remove-none_iff k [] = unfold remove in (λ h. refl, λ h. refl)
  remove-none_iff k (x ∷ xs) =
      let (to, from) = remove-none_iff k xs in
      (λ h. ground (arith, remove-cons k x xs, to), λ h. ground (arith, remove-cons k x xs, from))

  -- An entry appended under a fresh key is what a write appends.
  pub store_fresh : (x : A) (xs : List A) → find E (E.key x) xs ≡ none → store E x xs ≡ xs ++ x ∷ []
  unfolding find
  store_fresh x [] n = unfold store in refl
  store_fresh x (y ∷ ys) n = ground (arith, store-cons x y ys, store_fresh x ys)

  -- Cutting out an entry that was just appended gives the slice back.
  pub remove-append_fresh :
      (x : A) (xs : List A)
      → find E (E.key x) xs ≡ none
      → remove E (E.key x) (xs ++ x ∷ []) ≡ some xs
  unfolding find
  remove-append_fresh x [] n = rw remove-cons (rw test_key)
  remove-append_fresh x (y ∷ ys) n = rw remove-cons (ground (arith, remove-append_fresh x ys))

  pub find-drop_key_self : (k : K) (xs : List A) → find E k (drop_key E k xs) ≡ none
  unfolding find drop_key
  find-drop_key_self k [] = refl
  find-drop_key_self k (x ∷ xs) = ground (arith, find-drop_key_self k xs)

  pub find-drop_key_ne : (j k : K) (xs : List A) → j ≢ k → find E j (drop_key E k xs) ≡ find E j xs
  unfolding find drop_key
  find-drop_key_ne j k [] d = refl
  find-drop_key_ne j k (x ∷ xs) d = ground (arith, find-drop_key_ne j k xs d, test_other j k x d)

  -- The second map wins where both have the key.
  pub find-merge :
      (k : K) (xs ys : List A)
      → find E k (merge E xs ys) ≡ elim (find E k ys) [ none ↦ find E k xs | some y ↦ some y ]
  unfolding merge find
  find-merge k xs [] = refl
  find-merge k xs (y ∷ ys) = ground (arith, find-store k y (merge E xs ys), find-merge k xs ys)

  -- The last item with the key.
  unfoldable pub find_last : K → List A → Option A
  find_last k [] = none
  find_last k (y ∷ ys) = elim (find_last k ys) [
    | none ↦ if E.test k y then some y else none
    | some z ↦ some z
  ]

  -- Of the items written one by one, the last one with the key stays.
  pub find-store_all :
      (k : K) (ys xs : List A)
      → find E k (store_all E ys xs)
        ≡ elim (find_last k ys) [ none ↦ find E k xs | some y ↦ some y ]
  unfolding store_all find_last
  find-store_all k [] xs = refl
  find-store_all k (y ∷ ys) xs =
      ground (arith, find-store_all k ys (store E y xs), find-store k y xs)

  -- What is found after an entry is cut out was found before.
  pub find-remove_old :
      (j k : K) (xs ys : List A) (y : A)
      → Distinct E xs
      → remove E k xs ≡ some ys
      → find E j ys ≡ some y
      → find E j xs ≡ some y
  find-remove_old j k xs ys y d r f = elim (Bool-cases (E.test k y)) [
    | inl t ↦
        let same : k ≡ j = sym ((E.test_iff k y).0 t) ∙ find-key j ys y f in
        cc (rw same at (find-remove_self k xs ys d r), f)
    | inr t ↦
        sym (find-remove_ne j k xs ys (λ e. clash t ((E.test_iff k y).1 (find-key j ys y f ∙ e))) r)
        ∙ f
  ]
