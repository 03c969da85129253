-- ===== src/Parameters.antt =====
-- internal/pkg/rpaas/manager.go: the flavors, the address, the plan and the annotations that a request
-- to create or to update an instance asks for, in its parameters or, as in the past, in its tags.
pub mod Tags
pub mod Annotations
mod Tests
use Prim.Native.Char.{Char}
use Prim.Native.String
use rpaas_operator.Prelude.{
  ℕ, zero, suc, String, ◌==◌, Bool, true, false, not, List, [], ◌∷◌, ◌++◌, map, Option, none, some,
  any, has_prefix, split, cut, str_ltb, if◌then◌else◌,
}
use rpaas_operator.Prelude.{eq_iff}
use rpaas_operator.Prelude.Keyed.{Keyed, find}
use rpaas_operator.Errors.{plain}
use rpaas_operator.Result.{Result, ok, err, ◌>>=◌, ◌>>◌, reject_if}
use rpaas_operator.Api.{StringMap}

-- A value of map[string]interface{}: a text, a map of which the values are texts or something else
-- (`none`), or something else.
pub data Parameter : Type 0 where
  text : String → Parameter
  object : List (String × Option String) → Parameter
  other : Parameter

abbrev pub Parameters : Type 0
Parameters = List (String × Parameter)

abbrev pub by_parameter : Keyed String (String × Parameter)
by_parameter = record {
  key = λ entry. entry.0;
  test = λ k entry. entry.0 == k;
  test_iff = λ k entry. eq_iff entry.0 k;
}

-- sort.Strings
unfoldable pub insert_string : String → List String → List String
insert_string s [] = s ∷ []
insert_string s (t ∷ ts) =
    let later = insert_string s ts in if str_ltb t s then t ∷ later else s ∷ t ∷ ts

unfoldable pub sort_strings : List String → List String
unfolding insert_string
sort_strings [] = []
sort_strings (s ∷ ss) = insert_string s (sort_strings ss)

-- `string(p[len(p)-1])` of a prefix, which is one character.
unfoldable pub last_char : String → Char
last_char String.[] = " "
last_char (String.◌∷◌ c s) = let later = last_char s in if s == "" then c else later

-- The inner loop of extractTagValues: the first prefix that the tag has.
unfoldable pub prefix_of : List String → String → Option String
prefix_of [] t = none
prefix_of (p ∷ prefixes) t =
    let later = prefix_of prefixes t in if has_prefix t p then some p else later

-- `parts[1:]` after strings.SplitN(t, separator, 2)
unfoldable pub value_of_tag : String → String → List String
value_of_tag p t = elim (cut (last_char p) t) [ none ↦ [] | some (_, value) ↦ value ∷ [] ]

unfoldable pub extract_tag_values : List String → List String → List String
unfolding prefix_of value_of_tag
extract_tag_values prefixes [] = []
extract_tag_values prefixes (t ∷ tags) =
    let later = extract_tag_values prefixes tags in
    elim (prefix_of prefixes t) [ none ↦ later | some p ↦ value_of_tag p t ]

unfoldable pub legacy_get_flavors : List String → List String
unfolding extract_tag_values
legacy_get_flavors tags =
    elim (extract_tag_values ("flavor:" ∷ "flavor=" ∷ "flavors:" ∷ "flavors=" ∷ []) tags) [
      | [] ↦ []
      | value ∷ _ ↦ split "," value
    ]

-- `values[0]` if there is one.
abbrev pub first_or_empty : List String → String
first_or_empty [] = ""
first_or_empty (value ∷ _) = value

unfoldable pub legacy_get_ip : List String → String
unfolding extract_tag_values
legacy_get_ip tags = first_or_empty (extract_tag_values ("ip:" ∷ "ip=" ∷ []) tags)

unfoldable pub legacy_get_plan_override : List String → String
unfolding extract_tag_values
legacy_get_plan_override tags =
    first_or_empty (extract_tag_values ("plan-override:" ∷ "plan-override=" ∷ []) tags)

abbrev pub by_flavor_key : Keyed String (String × Option String)
by_flavor_key = record {
  key = λ entry. entry.0;
  test = λ k entry. entry.0 == k;
  test_iff = λ k entry. eq_iff entry.0 k;
}

-- The values of a map of flavors, by their keys in order; a value that is no text panics.
unfoldable pub flavor_values : List (String × Option String) → List String → Result (List String)
unfolding find
flavor_values params [] = ok []
flavor_values params (key ∷ keys) = elim (find by_flavor_key key params) [
  | some (_, some flavor) ↦ flavor_values params keys >>= λ flavors. ok (flavor ∷ flavors)
  | _ ↦ err (plain "interface conversion: interface {} is not string")
]

unfoldable pub get_flavors : Parameters → List String → Result (List String)
unfolding find legacy_get_flavors sort_strings flavor_values
get_flavors params tags = elim (find by_parameter "flavors" params) [
  | none ↦ ok (legacy_get_flavors tags)
  | some (_, text flavors) ↦ ok (if flavors == "" then [] else split "," flavors)
  | some (_, object values) ↦ flavor_values values (sort_strings (map (λ entry. entry.0) values))
  | some (_, other) ↦ ok []
]

-- The text of a parameter, the empty one if it is no text.
abbrev pub text_of : Parameter → String
text_of (text s) = s
text_of _ = ""

unfoldable pub get_ip : Parameters → List String → String
unfolding find legacy_get_ip
get_ip params tags = elim (find by_parameter "ip" params) [
  | none ↦ legacy_get_ip tags
  | some entry ↦ text_of entry.1
]

unfoldable pub get_plan_override : Parameters → List String → String
unfolding find legacy_get_plan_override
get_plan_override params tags = elim (find by_parameter "plan-override" params) [
  | none ↦ legacy_get_plan_override tags
  | some entry ↦ text_of entry.1
]

unfoldable pub get_load_balancer_name : Parameters → String
unfolding find
get_load_balancer_name params = elim (find by_parameter "lb-name" params) [
  | none ↦ ""
  | some entry ↦ text_of entry.1
]

-- What is taken from packages: encoding/json on a map of texts, and the checks of names of
-- k8s.io/apimachinery.
pub record Checks : Type 0 where
  pub unmarshal : String → Result StringMap
  pub is_dns1123_subdomain : String → Bool
  pub is_valid_label_value : String → Bool

module _ (checks : Checks) (forbidden : List String) where
  -- The checks of the name, and of the domain before it if there is one.
  unfoldable pub check_parts : List String → Result (Unit {0})
  check_parts [] = ok tt
  check_parts (name ∷ []) =
      reject_if (not (checks.is_valid_label_value name)) (plain "invalid annotation %q: %s")
  check_parts (prefix ∷ name ∷ _) = do
    reject_if (not (checks.is_dns1123_subdomain prefix)) (plain "invalid annotation %q: %s")
    reject_if (not (checks.is_valid_label_value name)) (plain "invalid annotation %q: %s")

  -- One round of the loop of getAnnotations.
  unfoldable pub check_annotation : String → Result (Unit {0})
  unfolding check_parts
  check_annotation k = do
    check_parts (split "/" k)
    reject_if (any (has_prefix k) forbidden) (plain "annotation %q is not allowed")

  unfoldable pub check_annotations : List String → Result (Unit {0})
  unfolding check_annotation
  check_annotations [] = ok tt
  check_annotations (k ∷ keys) = check_annotation k >> check_annotations keys

  -- The annotations of a text.
  unfoldable pub annotations_of : String → Result StringMap
  unfolding check_annotations sort_strings
  annotations_of s = do
    annotations ← checks.unmarshal s
    check_annotations (sort_strings (map (λ entry. entry.0) annotations))
    ok annotations

  unfoldable pub get_annotations : Parameters → Result StringMap
  unfolding find annotations_of
  get_annotations params = elim (find by_parameter "annotations" params) [
    | none ↦ ok []
    | some (_, text s) ↦ annotations_of s
    | some _ ↦ err (plain "invalid annotations: %v")
  ]
