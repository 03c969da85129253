-- ===== src/Prelude/Keyed.antt =====
-- Slices and maps in which an entry is found by its key. The Go code walks such a slice to the
-- first entry with the key; a map (`map[K]V`) is the list of its entries.
pub mod Laws
use mathlib.Core.Path.{◌≡◌}
use mathlib.Core.Logic.{◌↔◌}
use mathlib.Core.Bool.{Bool, true, false, not}
use mathlib.Core.List.{List, [], ◌∷◌, ◌++◌}
use mathlib.Core.Option.{Option, none, some}
use rpaas_operator.Prelude.Tests.{if◌then◌else◌}
use rpaas_operator.Prelude.Lists.{find_index, set, remove_at, keep_if}

-- How an entry is recognised by a key: the loop's test, which holds exactly at the entry's own key.
pub record Keyed {ℓ κ} (K : Type ℓ) (A : Type κ) : Type (ℓ ⊔ κ) where
  pub key : A → K
  pub test : K → A → Bool
  pub test_iff : (k : K) (a : A) → (test k a ≡ true) ↔ (key a ≡ k)

module _ {ℓ κ} {K : Type ℓ} {A : Type κ} (E : Keyed K A) where
  -- The first entry with the key; `m[k]` on a map.
  unfoldable pub find : K → List A → Option A
  find k [] = none
  find k (x ∷ xs) = if E.test k x then some x else find k xs

  -- Overwrites the first entry with the key, or appends; `m[k] = v` on a map.
  unfoldable pub store : A → List A → List A
  store x xs = elim (find_index (E.test (E.key x)) xs) [ none ↦ xs ++ x ∷ [] | some i ↦ set xs i x ]

  -- Cuts the first entry with the key out of a slice; `none` if there is no such entry.
  unfoldable pub remove : K → List A → Option (List A)
  remove k xs = elim (find_index (E.test k) xs) [ none ↦ none | some i ↦ some (remove_at xs i) ]

  -- `delete(m, k)` on a map.
  unfoldable pub drop_key : K → List A → List A
  drop_key k xs = keep_if (λ x. not (E.test k x)) xs

  -- The entries of the second map written over the first one.
  unfoldable pub merge : List A → List A → List A
  unfolding store
  merge xs [] = xs
  merge xs (y ∷ ys) = store y (merge xs ys)

  -- The items of a slice written to a map one by one.
  unfoldable pub store_all : List A → List A → List A
  unfolding store
  store_all [] xs = xs
  store_all (y ∷ ys) xs = store_all ys (store y xs)

  -- No two entries have one key.
  unfoldable pub Distinct : List A → Type κ
  unfolding find
  Distinct [] = Unit
  Distinct (x ∷ xs) = (find (E.key x) xs ≡ none) × Distinct xs
