-- ===== src/Parameters/Tags.antt =====
-- What a tag of a request gives: the way to ask for a flavor, an address or a plan before there were
-- parameters.
use Prim.Native.Char.{Char, code}
use Prim.Native.String
use package.text.Mathlib.TextLemmas.{nil-append, cons-append}
use rpaas_operator.Prelude.{
  String, ◌≡◌, ◌⊎◌, inl, inr, refl, ap, ◌∙◌, str_ltb, Bool, true, false, List, [], ◌∷◌, ◌++◌,
  Option, none, some, Option-cases, is_some, any, Bool-cases, arith, nat_eq, has_prefix, cut,
}
use rpaas_operator.Prelude.Keyed.{find}
use rpaas_operator.Parameters.{
  Parameters, by_parameter, text, last_char, prefix_of, value_of_tag, insert_string, sort_strings,
  extract_tag_values, legacy_get_ip, legacy_get_plan_override, get_ip, get_plan_override,
  first_or_empty,
}

-- What is before and after the separator.
abbrev parts : String → String → Option (String × String)
parts a b = some (a, b)

cut-append :
    (sep : Char) (p v q r : String)
    → cut sep p ≡ some (q, r)
    → cut sep (String.◌++◌ p v) ≡ some (q, String.◌++◌ r v)
unfolding cut
cut-append sep String.[] v q r h = cc
cut-append sep (String.◌∷◌ c p) v q r h =
    rw (cons-append c p v) (elim (Bool-cases (nat_eq (code c) (code sep))) [
      | inl t ↦ rw (t, cut) (met (rw (t, cut) at h))
      | inr t ↦ elim (Option-cases (cut sep p)) [
        | inl n ↦ absurd (missed (rw (t, n, cut) at h))
        | inr ((a, b), e) ↦ rw (t, cut-append sep p v a b e, cut) (later a b (rw (t, e, cut) at h))
      ]
    ])
  where
    met : parts "" p ≡ parts q r → parts "" (String.◌++◌ p v) ≡ parts q (String.◌++◌ r v)
    met e = cc

    missed : none ≡ parts q r → ⊥
    missed e = cc

    later :
        (a b : String)
        → parts (String.◌∷◌ c a) b ≡ parts q r
        → parts (String.◌∷◌ c a) (String.◌++◌ b v) ≡ parts q (String.◌++◌ r v)
    later a b e = cc

has_prefix-append : (p v : String) → has_prefix (String.◌++◌ p v) p ≡ true
unfolding has_prefix
has_prefix-append String.[] v = refl
has_prefix-append (String.◌∷◌ c p) v =
    rw (cons-append c p v) (ground (arith, has_prefix-append p v))

-- No tag has one of the prefixes.
abbrev pub HaveNone : List String → List String → Type 0
HaveNone prefixes tags = any (λ t. is_some (prefix_of prefixes t)) tags ≡ false

extract_tag_values-first :
    (prefixes before after : List String) (p q v : String)
    → HaveNone prefixes before
    → prefix_of prefixes (String.◌++◌ p v) ≡ some p
    → cut (last_char p) p ≡ some (q, "")
    → extract_tag_values prefixes (before ++ String.◌++◌ p v ∷ after) ≡ v ∷ []
unfolding extract_tag_values
extract_tag_values-first prefixes [] after p q v free here ends =
    rw (here, extract_tag_values, value_of_tag)
      (rw (cut-append (last_char p) p v q "" ends, value_of_tag) (ap (λ x. x ∷ []) (nil-append v)))
extract_tag_values-first prefixes (t ∷ before) after p q v free here ends =
    ground (arith, free, extract_tag_values-first prefixes before after p q v)

-- A tag with none of the prefixes may stand anywhere.
extract_tag_values-insert_string :
    (prefixes : List String) (s : String) (tags : List String)
    → is_some (prefix_of prefixes s) ≡ false
    → extract_tag_values prefixes (insert_string s tags) ≡ extract_tag_values prefixes tags
unfolding extract_tag_values insert_string
extract_tag_values-insert_string prefixes s [] free = ground (arith, free)
extract_tag_values-insert_string prefixes s (t ∷ tags) free =
    ground (arith, free, extract_tag_values-insert_string prefixes s tags free)

insert_string-HaveNone :
    (prefixes : List String) (s : String) (tags : List String)
    → is_some (prefix_of prefixes s) ≡ false
    → HaveNone prefixes tags
    → HaveNone prefixes (insert_string s tags)
unfolding insert_string
insert_string-HaveNone prefixes s [] free h = ground (arith, free)
insert_string-HaveNone prefixes s (t ∷ tags) free h =
    ground (arith, free, h, insert_string-HaveNone prefixes s tags free)

sort_strings-HaveNone :
    (prefixes tags : List String) → HaveNone prefixes tags → HaveNone prefixes (sort_strings tags)
unfolding sort_strings
sort_strings-HaveNone prefixes [] h = refl
sort_strings-HaveNone prefixes (t ∷ tags) h =
    insert_string-HaveNone prefixes t (sort_strings tags) (ground (arith, h))
      (sort_strings-HaveNone prefixes tags (ground (arith, h)))

extract_tag_values-skip :
    (prefixes : List String) (t : String) (tags : List String)
    → is_some (prefix_of prefixes t) ≡ false
    → extract_tag_values prefixes (t ∷ tags) ≡ extract_tag_values prefixes tags
unfolding extract_tag_values
extract_tag_values-skip prefixes t tags free = ground (arith, free)

-- The only tag with one of the prefixes is found wherever the order puts it.
extract_tag_values-insert_only :
    (prefixes : List String) (s : String) (tags vs : List String)
    → HaveNone prefixes tags
    → ((after : List String)
        → HaveNone prefixes after
        → extract_tag_values prefixes (s ∷ after) ≡ vs)
    → extract_tag_values prefixes (insert_string s tags) ≡ vs
unfolding insert_string
extract_tag_values-insert_only prefixes s [] vs h only = only [] refl
extract_tag_values-insert_only prefixes s (t ∷ tags) vs h only = elim (Bool-cases (str_ltb t s)) [
  | inl e ↦ rw e (
      extract_tag_values-skip prefixes t (insert_string s tags) (ground (arith, h))
      ∙ extract_tag_values-insert_only prefixes s tags vs (ground (arith, h)) only)
  | inr e ↦ rw e (only (t ∷ tags) h)
]

extract_tag_values-sort_only :
    (prefixes before after vs : List String) (s : String)
    → HaveNone prefixes before
    → HaveNone prefixes after
    → ((tags : List String) → HaveNone prefixes tags → extract_tag_values prefixes (s ∷ tags) ≡ vs)
    → extract_tag_values prefixes (sort_strings (before ++ s ∷ after)) ≡ vs
unfolding sort_strings
extract_tag_values-sort_only prefixes [] after vs s free free' only =
    extract_tag_values-insert_only prefixes s (sort_strings after) vs
      (sort_strings-HaveNone prefixes after free') only
extract_tag_values-sort_only prefixes (t ∷ before) after vs s free free' only =
    extract_tag_values-insert_string prefixes t (sort_strings (before ++ s ∷ after))
      (ground (arith, free))
    ∙ extract_tag_values-sort_only prefixes before after vs s (ground (arith, free)) free' only

-- Two texts have equally many characters.
abbrev same_length : String → String → Bool
same_length String.[] String.[] = true
same_length (String.◌∷◌ c s) (String.◌∷◌ d t) = same_length s t
same_length _ _ = false

has_prefix-append_same :
    (s t v : String) → same_length s t ≡ true → has_prefix (String.◌++◌ s v) t ≡ has_prefix s t
unfolding has_prefix
has_prefix-append_same String.[] String.[] v h = refl
has_prefix-append_same String.[] (String.◌∷◌ d t) v h = cc
has_prefix-append_same (String.◌∷◌ c s) String.[] v h = cc
has_prefix-append_same (String.◌∷◌ c s) (String.◌∷◌ d t) v h =
    rw (cons-append c s v, has_prefix) (ground (arith, has_prefix-append_same s t v h))

-- Of two prefixes that differ, and have equally many characters, a tag has the one that it starts with.
prefix_of-pair :
    (p₁ p₂ v : String)
    → same_length p₂ p₁ ≡ true
    → has_prefix p₂ p₁ ≡ false
    → (prefix_of (p₁ ∷ p₂ ∷ []) (String.◌++◌ p₁ v) ≡ some p₁)
      × (prefix_of (p₁ ∷ p₂ ∷ []) (String.◌++◌ p₂ v) ≡ some p₂)
unfolding prefix_of
prefix_of-pair p₁ p₂ v same differ = (
  rw (has_prefix-append p₁ v),
  rw (has_prefix-append_same p₂ p₁ v same, differ, has_prefix-append p₂ v),
)

first_of_pair :
    (p₁ p₂ p v q₁ q₂ : String) (before after : List String)
    → same_length p₂ p₁ ≡ true
    → has_prefix p₂ p₁ ≡ false
    → cut (last_char p₁) p₁ ≡ some (q₁, "")
    → cut (last_char p₂) p₂ ≡ some (q₂, "")
    → (p ≡ p₁) ⊎ (p ≡ p₂)
    → HaveNone (p₁ ∷ p₂ ∷ []) before
    → extract_tag_values (p₁ ∷ p₂ ∷ []) (before ++ String.◌++◌ p v ∷ after) ≡ v ∷ []
first_of_pair p₁ p₂ p v q₁ q₂ before after same differ ends₁ ends₂ (inl e) free = rw e (
    extract_tag_values-first (p₁ ∷ p₂ ∷ []) before after p₁ q₁ v free
      (prefix_of-pair p₁ p₂ v same differ).0 ends₁)
first_of_pair p₁ p₂ p v q₁ q₂ before after same differ ends₁ ends₂ (inr e) free = rw e (
    extract_tag_values-first (p₁ ∷ p₂ ∷ []) before after p₂ q₂ v free
      (prefix_of-pair p₁ p₂ v same differ).1 ends₂)

-- The address that is read from the sorted tags of a request without the parameter `ip` is what follows `ip:`
-- or `ip=` in the one tag that starts with one of them.
pub get_ip-sort_strings :
    (params : Parameters) (before after : List String) (v p : String)
    → (p ≡ "ip:") ⊎ (p ≡ "ip=")
    → HaveNone ("ip:" ∷ "ip=" ∷ []) before
    → HaveNone ("ip:" ∷ "ip=" ∷ []) after
    → find by_parameter "ip" params ≡ none
    → get_ip params (sort_strings (before ++ String.◌++◌ p v ∷ after)) ≡ v
unfolding get_ip legacy_get_ip last_char cut has_prefix
get_ip-sort_strings params before after v p which free free' absent =
    rw (absent, get_ip)
      (ap first_or_empty (
        extract_tag_values-sort_only ("ip:" ∷ "ip=" ∷ []) before after (v ∷ []) (String.◌++◌ p v)
          free free'
          λ tags _. first_of_pair "ip:" "ip=" p v "ip" "ip" [] tags refl refl refl refl which refl))

-- The text of the plan, likewise.
pub get_plan_override-sort_strings :
    (params : Parameters) (before after : List String) (v p : String)
    → (p ≡ "plan-override:") ⊎ (p ≡ "plan-override=")
    → HaveNone ("plan-override:" ∷ "plan-override=" ∷ []) before
    → HaveNone ("plan-override:" ∷ "plan-override=" ∷ []) after
    → find by_parameter "plan-override" params ≡ none
    → get_plan_override params (sort_strings (before ++ String.◌++◌ p v ∷ after)) ≡ v
unfolding get_plan_override legacy_get_plan_override last_char cut has_prefix
get_plan_override-sort_strings params before after v p which free free' absent =
    rw (absent, get_plan_override)
      (ap first_or_empty (
        extract_tag_values-sort_only ("plan-override:" ∷ "plan-override=" ∷ []) before after
          (v ∷ []) (String.◌++◌ p v) free free'
          λ tags _.
            first_of_pair "plan-override:" "plan-override=" p v "plan-override" "plan-override" []
              tags refl refl refl refl which refl))
