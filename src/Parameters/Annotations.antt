-- ===== src/Parameters/Annotations.antt =====
-- Which annotations of a request are accepted.
use rpaas_operator.Prelude.{
  String, ◌==◌, ◌≡◌, inl, inr, refl, sym, ap, ◌∙◌, Bool, true, false, not, ◌||◌, List, [], ◌∷◌, map,
  Option, none, some, clash, any, contains, Bool-cases, arith, eq_iff, has_prefix, split,
}
use rpaas_operator.Prelude.Keyed.{find}
use rpaas_operator.Prelude.Keyed.Laws.{find-key}
use rpaas_operator.Errors.{Error, plain}
use rpaas_operator.Result.{Result, ok, err, ◌>>◌, reject_if, >>=-eq-ok}
use rpaas_operator.Api.{StringMap}
use rpaas_operator.Parameters.{
  Parameters, by_parameter, Parameter, text, object, other, insert_string, sort_strings, Checks,
  check_annotation, check_annotations, annotations_of, get_annotations, check_parts,
}

contains-insert_string :
    (s f : String) (ss : List String) → contains (insert_string s ss) f ≡ (s == f || contains ss f)
unfolding insert_string
contains-insert_string s f [] = refl
contains-insert_string s f (t ∷ ss) = ground (arith, contains-insert_string s f ss)

contains-sort_strings :
    (ss : List String) (f : String) → contains (sort_strings ss) f ≡ contains ss f
unfolding sort_strings
contains-sort_strings [] f = refl
contains-sort_strings (s ∷ ss) f =
    contains-insert_string s f (sort_strings ss)
    ∙ ap (λ b. s == f || b) (contains-sort_strings ss f)

abbrev keys_of : StringMap → List String
keys_of m = map (λ entry. entry.0) m

-- The key is one of the map's.
abbrev pub is_key_of : StringMap → String → Bool
is_key_of m k = contains (keys_of m) k

module _ (checks : Checks) (forbidden : List String) where
  check_annotations-all :
      (keys : List String) (k : String)
      → check_annotations checks forbidden keys ≡ ok tt
      → contains keys k ≡ true
      → check_annotation checks forbidden k ≡ ok tt
  unfolding check_annotations
  check_annotations-all [] k h c = cc
  check_annotations-all (l ∷ keys) k h c =
      let (u, first, rest) = >>=-eq-ok (check_annotation checks forbidden l) _ h in
      elim (Bool-cases (l == k)) [
        | inl t ↦ rw (← (eq_iff l k).0 t) first
        | inr t ↦ check_annotations-all keys k rest (rw t at c)
      ]

  -- The name is valid, and so is the domain before it if there is one. Parts after these are not looked at.
  abbrev ArePartsValid : List String → Type 0
  ArePartsValid [] = Unit
  ArePartsValid (name ∷ []) = checks.is_valid_label_value name ≡ true
  ArePartsValid (prefix ∷ name ∷ _) =
      (checks.is_dns1123_subdomain prefix ≡ true) × (checks.is_valid_label_value name ≡ true)

  check_parts-valid :
      (ps : List String) → check_parts checks forbidden ps ≡ ok tt → ArePartsValid ps
  unfolding check_parts
  check_parts-valid [] h = tt
  check_parts-valid (name ∷ []) h = passed (checks.is_valid_label_value name) _ h
    where
      passed : (b : Bool) (e : Error) → reject_if (not b) e ≡ ok tt → b ≡ true
      passed true e h = refl
      passed false e h = cc
  check_parts-valid (prefix ∷ name ∷ ps) h =
      passed (checks.is_dns1123_subdomain prefix) (checks.is_valid_label_value name) _ _ h
    where
      passed :
          (a b : Bool) (e f : Error)
          → (reject_if (not a) e >> reject_if (not b) f) ≡ ok tt
          → (a ≡ true) × (b ≡ true)
      passed true true e f h = (refl, refl)
      passed true false e f h = cc
      passed false b e f h = cc

  abbrev pub IsAllowed : String → Type 0
  IsAllowed k = (any (has_prefix k) forbidden ≡ false) × ArePartsValid (split "/" k)

  check_annotation-IsAllowed :
      (k : String) → check_annotation checks forbidden k ≡ ok tt → IsAllowed k
  unfolding check_annotation
  check_annotation-IsAllowed k h =
      let (u, first, rest) = >>=-eq-ok (check_parts checks forbidden (split "/" k)) _ h in
      (passed (any (has_prefix k) forbidden) _ rest, check_parts-valid (split "/" k) first)
    where
      passed : (b : Bool) (e : Error) → reject_if b e ≡ ok tt → b ≡ false
      passed false e h = refl
      passed true e h = cc

  annotations_of-IsAllowed :
      (s : String) (m : StringMap) (k : String)
      → annotations_of checks forbidden s ≡ ok m
      → is_key_of m k ≡ true
      → (checks.unmarshal s ≡ ok m) × IsAllowed k
  unfolding annotations_of
  annotations_of-IsAllowed s m k h c =
      let (read, r, rest) = >>=-eq-ok (checks.unmarshal s) _ h in
      let (u, checked, made) =
        >>=-eq-ok (check_annotations checks forbidden (sort_strings (keys_of read))) _ rest in
      (
        r ∙ made,
        check_annotation-IsAllowed k (
            check_annotations-all (sort_strings (keys_of read)) k checked (
              contains-sort_strings (keys_of read) k
              ∙ ap (λ l. contains (keys_of l) k) (inside made)
              ∙ c)),
      )
    where
      inside : {a b : StringMap} → ok a ≡ ok b → a ≡ b
      inside p = cc

  -- What `get_annotations` does with the parameter that it finds.
  abbrev read_annotations : Option (String × Parameter) → Result StringMap
  read_annotations o = elim o [
    | none ↦ ok []
    | some (_, text s) ↦ annotations_of checks forbidden s
    | some _ ↦ err (plain "invalid annotations: %v")
  ]

  -- If the annotations of a request could be read, each of their keys starts with no forbidden prefix, and is
  -- a valid name, or starts with a valid domain, a slash and a valid name, after which there is nothing or
  -- another slash and anything; and they are those of the parameter's text.
  pub get_annotations-IsAllowed :
      (params : Parameters) (m : StringMap) (k : String)
      → get_annotations checks forbidden params ≡ ok m
      → is_key_of m k ≡ true
      → ((s : String) × (find by_parameter "annotations" params ≡ some ("annotations", text s))
          × (checks.unmarshal s ≡ ok m))
        × IsAllowed k
  unfolding get_annotations
  get_annotations-IsAllowed params m k h c =
      by_value (find by_parameter "annotations" params) refl h
    where
      inside : {a b : StringMap} → ok a ≡ ok b → a ≡ b
      inside p = cc

      by_value :
          (o : Option (String × Parameter))
          → find by_parameter "annotations" params ≡ o
          → read_annotations o ≡ ok m
          → ((s : String) × (find by_parameter "annotations" params ≡ some ("annotations", text s))
              × (checks.unmarshal s ≡ ok m))
            × IsAllowed k
      by_value none f r = absurd (clash (ap (λ l. contains (keys_of l) k) (sym (inside r))) c)
      by_value (some (n, text s)) f r =
          let (made, allowed) = annotations_of-IsAllowed s m k r c in
          (
            (
              s,
              f
                  ∙ ap (λ x. some (x, text s))
                      (find-key by_parameter "annotations" params (n, text s) f),
              made,
            ),
            allowed,
          )
      by_value (some (n, object l)) f r = cc
      by_value (some (n, other)) f r = cc
