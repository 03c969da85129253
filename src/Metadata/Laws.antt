-- ===== src/Metadata/Laws.antt =====
-- internal/pkg/rpaas/metadata.go: what SetMetadata and UnsetMetadata do to each key.
use mathlib.Core.Path.{subst}
use rpaas_operator.Prelude.{
  String, ◌==◌, ◌||◌, ◌≡◌, inl, inr, refl, sym, ap, ◌∙◌, Bool, false, List, [], ◌∷◌, none, some,
  arith, eq_iff, if◌then◌else◌, Bool-cases, is_none, clash,
}
use rpaas_operator.Prelude.Keyed.{find, store_all, drop_key}
use rpaas_operator.Prelude.Keyed.Laws.{
  find_last, find-store_all, find-drop_key_self, find-drop_key_ne,
}
use rpaas_operator.Result.{ok, >>=-eq-ok}
use rpaas_operator.Api.{RpaasInstance, StringMap}
use rpaas_operator.Labels.{by_label}
use rpaas_operator.Metadata.{
  Metadata, MetadataItem, validate_metadata, unset_all, with_metadata, without_metadata,
}

pub with_metadata-ok :
    (md : Metadata) (i j : RpaasInstance)
    → with_metadata md i ≡ ok j
    → (validate_metadata md.labels ≡ ok tt)
      × (validate_metadata md.annotations ≡ ok tt)
      × (j ≡ record i {
        labels = store_all by_label md.labels i.labels;
        annotations = store_all by_label md.annotations i.annotations;
      })
unfolding with_metadata
with_metadata-ok md i j h =
    let (u, v, h₁) = >>=-eq-ok (validate_metadata md.labels) _ h in
    let (u', v', h₂) = >>=-eq-ok (validate_metadata md.annotations) _ h₁ in (v, v', cc)

-- The map has the last value given for each key that was set, and what it had for the others.
abbrev pub Overwritten : List MetadataItem → StringMap → StringMap → Type 0
Overwritten items before after =
    (k : String)
    → find by_label k after
      ≡ elim (find_last by_label k items) [ none ↦ find by_label k before | some item ↦ some item ]

-- A successful SetMetadata gives every label and annotation that it sets the last value given for it,
-- and leaves the other ones, and the spec, as before.
pub with_metadata-effect :
    (md : Metadata) (i j : RpaasInstance)
    → with_metadata md i ≡ ok j
    → Overwritten md.labels i.labels j.labels
      × Overwritten md.annotations i.annotations j.annotations
      × (j.spec ≡ i.spec)
with_metadata-effect md i j h =
    let (_, _, same) = with_metadata-ok md i j h in
    subst
      (λ (j : RpaasInstance).
        Overwritten md.labels i.labels j.labels
        × Overwritten md.annotations i.annotations j.annotations
        × (j.spec ≡ i.spec))
      (sym same)
      (
        λ k. find-store_all by_label k md.labels i.labels,
        λ k. find-store_all by_label k md.annotations i.annotations,
        refl,
      )

-- The key is the name of an item.
unfoldable pub is_named : String → List MetadataItem → Bool
is_named k [] = false
is_named k (item ∷ items) = item.0 == k || is_named k items

unset_all-effect :
    (message : String) (items : List MetadataItem) (before after : StringMap)
    → unset_all message items before ≡ ok after
    → (k : String)
    → find by_label k after ≡ (if is_named k items then none else find by_label k before)
unfolding unset_all is_named
unset_all-effect message [] before after h k = cc
unset_all-effect message (item ∷ items) before after h k =
    elim (Bool-cases (is_none (find by_label item.0 before))) [
      | inl n ↦ cc (rw n at h)
      | inr p ↦
          let later =
            unset_all-effect message items (drop_key by_label item.0 before) after (rw p at h) k in
          elim (Bool-cases (item.0 == k)) [
            | inl e ↦ rw e (later ∙ gone items ((eq_iff item.0 k).0 e))
            | inr e ↦ rw e (
                subst (λ o. find by_label k after ≡ (if is_named k items then none else o))
                  (find-drop_key_ne by_label k item.0 before
                    (λ q. clash e ((eq_iff item.0 k).1 (sym q))))
                  later)
          ]
    ]
  where
    gone :
        (items : List MetadataItem) {j : String}
        → item.0 ≡ j
        → (if is_named j items then none else find by_label j (drop_key by_label item.0 before))
          ≡ none
    gone items e = rw (← e) (ground (arith, find-drop_key_self by_label item.0 before))

-- The keys that were unset are gone, and the map has what it had for the others.
abbrev pub Removed : List MetadataItem → StringMap → StringMap → Type 0
Removed items before after =
    (k : String)
    → find by_label k after ≡ (if is_named k items then none else find by_label k before)

pub without_metadata-ok :
    (md : Metadata) (i j : RpaasInstance)
    → without_metadata md i ≡ ok j
    → (validate_metadata md.labels ≡ ok tt)
      × (validate_metadata md.annotations ≡ ok tt)
      × Removed md.labels i.labels j.labels
      × Removed md.annotations i.annotations j.annotations
      × (j ≡ record i { labels = j.labels; annotations = j.annotations })
unfolding without_metadata
without_metadata-ok md i j h =
    let (u, v, h₁) = >>=-eq-ok (validate_metadata md.labels) _ h in
    let (u', v', h₂) = >>=-eq-ok (validate_metadata md.annotations) _ h₁ in
    let (labels, l, h₃) = >>=-eq-ok (unset_all _ md.labels i.labels) _ h₂ in
    let (annotations, a, h₄) = >>=-eq-ok (unset_all _ md.annotations i.annotations) _ h₃ in
    let left : labels ≡ j.labels = cc in
    let kept : annotations ≡ j.annotations = cc in
    (
      v,
      v',
      subst (Removed md.labels i.labels) left (unset_all-effect _ md.labels i.labels labels l),
      subst (Removed md.annotations i.annotations) kept
          (unset_all-effect _ md.annotations i.annotations annotations a),
      cc,
    )

-- A successful UnsetMetadata takes away every label and annotation that it names, and leaves the other
-- ones, and the spec, as before.
pub without_metadata-effect :
    (md : Metadata) (i j : RpaasInstance)
    → without_metadata md i ≡ ok j
    → Removed md.labels i.labels j.labels
      × Removed md.annotations i.annotations j.annotations
      × (j.spec ≡ i.spec)
without_metadata-effect md i j h =
    let (_, _, l, a, same) = without_metadata-ok md i j h in
    (l, a, ap (λ (k : RpaasInstance). k.spec) same)
