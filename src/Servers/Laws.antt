-- ===== src/Servers/Laws.antt =====
-- Which location a server has at a path.
use mathlib.Core.Path.{subst}
use rpaas_operator.Prelude.{
  ℕ, suc, ◌+◌, String, ◌==◌, ◌≡◌, ◌⊎◌, inl, inr, refl, ap, ◌∙◌, true, List, [], ◌∷◌, Option, none,
  some, is_some, length, find_index, arith, eq_iff, Bool-cases, Option-cases, length-append,
}
use rpaas_operator.Prelude.Keyed.{Keyed, find, store, Distinct}
use rpaas_operator.Prelude.Keyed.Laws.{find-store, store_fresh}
use rpaas_operator.Api.{Location}
use rpaas_operator.Mutation.Routes.{locations}
use rpaas_operator.Servers.{by_path, default_locations, default_locations_index}

-- A location of one server, by its path.
abbrev pub by_location_path : Keyed String Location
by_location_path = record {
  key = λ l. l.path;
  test = λ k l. l.path == k;
  test_iff = λ k l. eq_iff l.path k;
}

-- The default locations are those of the server without a name.
pub find-default_locations :
    (p : String) (ls : List Location)
    → find by_location_path p (default_locations ls) ≡ find locations ("", p) ls
unfolding find default_locations
find-default_locations p [] = refl
find-default_locations p (l ∷ ls) = ground (arith, find-default_locations p ls)

pub default_locations-Distinct :
    (ls : List Location) → Distinct locations ls → Distinct by_location_path (default_locations ls)
unfolding Distinct default_locations
default_locations-Distinct [] d = tt
default_locations-Distinct (l ∷ ls) (n, d) = elim (Bool-cases (l.server_name == "")) [
  | inl t ↦ rw t (
    find-default_locations l.path ls
        ∙ subst (λ s. find locations (s, l.path) ls ≡ none) ((eq_iff l.server_name "").0 t) n,
    default_locations-Distinct ls d,
  )
  | inr t ↦ rw t (default_locations-Distinct ls d)
]

-- Where a path is found in the list, and at which index.
abbrev pub index_of : String → List Location → Option ℕ
index_of p ls = find_index (λ l. l.path == p) ls

index_of-none :
    (p : String) (ls : List Location) → find by_location_path p ls ≡ none → index_of p ls ≡ none
unfolding find
index_of-none p [] h = refl
index_of-none p (l ∷ ls) h = ground (arith, index_of-none p ls, h)

index_of-some :
    (p : String) (ls : List Location) (k : ℕ)
    → index_of p ls ≡ some k
    → is_some (find by_location_path p ls) ≡ true
unfolding find
index_of-some p [] k h = cc
index_of-some p (l ∷ ls) k h = elim (Option-cases (index_of p ls)) [
  | inl n ↦ ground (arith, n, h)
  | inr (j, e) ↦ ground (arith, index_of-some p ls j e, h)
]

-- The index that the loop has for a path is where the default location stands.
pub find-default_locations_index :
    (p : String) (ds : List Location) (index : List (String × ℕ))
    → Distinct by_location_path ds
    → ((q : String) → is_some (find by_location_path q ds) ≡ true → find by_path q index ≡ none)
    → find by_path p (default_locations_index ds index)
      ≡ elim (index_of p ds) [ none ↦ find by_path p index | some k ↦ some (p, length index + k) ]
unfolding default_locations_index Distinct
find-default_locations_index p [] index d fresh = refl
find-default_locations_index p (l ∷ ds) index (n, d) fresh =
    let entry : String × ℕ = (l.path, length index) in
    let new = fresh l.path (found l.path l ds (inl ((eq_iff l.path l.path).1 refl))) in
    let grown : length (store by_path entry index) ≡ suc (length index) =
      ap (λ t. length t) (store_fresh by_path entry index new)
      ∙ length-append index (entry ∷ [])
      ∙ omega arith in
    let later = find-default_locations_index p ds (store by_path entry index) d λ q h.
      elim (Bool-cases (l.path == q)) [
        | inl t ↦ absurd (none_some (rw ((eq_iff l.path q).0 t) at n) h)
        | inr t ↦ find-store by_path q entry index ∙ rw t (fresh q (found q l ds (inr h)))
      ] in
    elim (Bool-cases (l.path == p)) [
      | inl t ↦ ground (
        arith,
        later,
        t,
        find-store by_path p entry index,
        index_of-none p ds
            (subst (λ q. find by_location_path q ds ≡ none) ((eq_iff l.path p).0 t) n),
        (eq_iff l.path p).0 t,
      )
      | inr t ↦ ground (arith, later, t, grown, find-store by_path p entry index)
    ]
  where
    found :
        (q : String) (x : Location) (xs : List Location)
        → ((x.path == q) ≡ true) ⊎ (is_some (find by_location_path q xs) ≡ true)
        → is_some (find by_location_path q (x ∷ xs)) ≡ true
    found q x xs h = unfold find in ground (arith, h)

    none_some : {o : Option Location} → o ≡ none → is_some o ≡ true → ⊥
    none_some a b = ground (arith, a, b)
