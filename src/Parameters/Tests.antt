-- ===== src/Parameters/Tests.antt =====
-- Requests with tags and with parameters, and the theorems there.
use rpaas_operator.Prelude.{String, ◌==◌, ◌≡◌, refl, [], ◌∷◌, some, has_prefix, split, cut, str_ltb}
use rpaas_operator.Prelude.Keyed.{find}
use rpaas_operator.Result.{ok}
use rpaas_operator.Parameters.{
  Parameters, by_parameter, text, object, insert_string, sort_strings, last_char, prefix_of,
  value_of_tag, extract_tag_values, legacy_get_flavors, get_flavors, flavor_values, Checks,
  check_parts, check_annotation, check_annotations, annotations_of, get_annotations,
}
use rpaas_operator.Parameters.Annotations.{IsAllowed, get_annotations-IsAllowed}

flavors_in_order :
    get_flavors (("flavors", object (("1", some "lime") ∷ ("0", some "mango") ∷ [])) ∷ []) []
    ≡ ok ("mango" ∷ "lime" ∷ [])
unfolding get_flavors find sort_strings insert_string flavor_values str_ltb
flavors_in_order = refl

flavors_of_tag :
    get_flavors [] ("red" ∷ "flavors=mango,lime" ∷ "flavor:lemon" ∷ []) ≡ ok ("mango" ∷ "lime" ∷ [])
unfolding get_flavors find legacy_get_flavors extract_tag_values prefix_of value_of_tag last_char
    cut has_prefix split
flavors_of_tag = refl

abbrev checks : Checks
checks = record {
  unmarshal = λ s. ok (("team/colour", "red") ∷ []);
  is_dns1123_subdomain = λ s. s == "team";
  is_valid_label_value = λ s. s == "colour";
}

abbrev annotated : Parameters
annotated = ("annotations", text "{\"team/colour\": \"red\"}") ∷ []

annotated_ok : get_annotations checks ("rpaas" ∷ []) annotated ≡ ok (("team/colour", "red") ∷ [])
unfolding get_annotations find annotations_of check_annotations check_annotation check_parts
    sort_strings insert_string split has_prefix
annotated_ok = refl

-- A key of three parts is accepted, though the API server knows no such key.
three_parts : check_annotation checks [] "team/colour/-" ≡ ok tt
unfolding check_annotation check_parts split has_prefix
three_parts = refl

get_annotations-IsAllowed_example :
    ((s : String) × (find by_parameter "annotations" annotated ≡ some ("annotations", text s))
      × (checks.unmarshal s ≡ ok (("team/colour", "red") ∷ [])))
    × IsAllowed checks ("rpaas" ∷ []) "team/colour"
get_annotations-IsAllowed_example =
    get_annotations-IsAllowed checks ("rpaas" ∷ []) annotated (("team/colour", "red") ∷ [])
      "team/colour" annotated_ok refl
