-- ===== src/Instances/Annotated.antt =====
-- The annotations that an update writes, in the order of UpdateInstance: the description, the team and the
-- cluster, those of the request, and the tags.
use rpaas_operator.Prelude.{
  String, ◌==◌, ◌≡◌, inl, inr, refl, ◌∙◌, false, none, some, Bool-cases, eq_refl,
}
use rpaas_operator.Prelude.Keyed.{find, store}
use rpaas_operator.Prelude.Keyed.Laws.{find-store, find-merge}
use rpaas_operator.Api.{StringMap}
use rpaas_operator.Labels.{by_label, merge_map, cluster_name_label_key}
use rpaas_operator.Instances.{label_key, team_owner_label_key}
use rpaas_operator.Instances.Owners.{owned_labels}

-- `read` are the annotations of the request.
abbrev pub written :
    (cluster_name team description tags : String) → StringMap → StringMap → StringMap
written cluster_name team description tags old read =
    store by_label (label_key "tags", tags)
      (merge_map
        (owned_labels cluster_name team (store by_label (label_key "description", description) old))
        read)

pub record HasAnnotations (description : String) (old read new : StringMap) : Type 0 where
  pub given :
      (k : String) (entry : String × String)
      → (label_key "tags" == k) ≡ false
      → find by_label k read ≡ some entry
      → find by_label k new ≡ some entry
  pub described :
      find by_label (label_key "description") read ≡ none
      → find by_label (label_key "description") new ≡ some (label_key "description", description)
  pub others :
      (k : String)
      → (label_key "tags" == k) ≡ false
      → (label_key "description" == k) ≡ false
      → (team_owner_label_key == k) ≡ false
      → (cluster_name_label_key == k) ≡ false
      → find by_label k read ≡ none
      → find by_label k new ≡ find by_label k old

find-owned_labels :
    (k cluster_name team : String) (m : StringMap)
    → (team_owner_label_key == k) ≡ false
    → (cluster_name_label_key == k) ≡ false
    → find by_label k (owned_labels cluster_name team m) ≡ find by_label k m
find-owned_labels k cluster_name team m a b = elim (Bool-cases (cluster_name == "")) [
  | inl t ↦ rw t (find-store by_label k (team_owner_label_key, team) m ∙ rw a refl)
  | inr t ↦ rw t (
      find-store by_label k (cluster_name_label_key, cluster_name)
        (store by_label (team_owner_label_key, team) m)
      ∙ rw b (find-store by_label k (team_owner_label_key, team) m ∙ rw a refl))
]

module _ (cluster_name team description tags : String) (old read : StringMap) where
  -- Under any key but that of the tags.
  find-written :
      (k : String)
      → (label_key "tags" == k) ≡ false
      → find by_label k (written cluster_name team description tags old read)
        ≡ elim (find by_label k read) [
          | none ↦ find by_label k (
              owned_labels cluster_name team
                (store by_label (label_key "description", description) old))
          | some entry ↦ some entry
        ]
  unfolding merge_map
  find-written k a =
      find-store by_label k (label_key "tags", tags) _ ∙ rw a (find-merge by_label k _ read)

  pub written-HasAnnotations :
      HasAnnotations description old read (written cluster_name team description tags old read)
  written-HasAnnotations = record {
    given = λ k entry a r. find-written k a ∙ rw r refl;
    described = λ r.
        find-written (label_key "description") (unfold label_key in refl)
        ∙ rw r (
            find-owned_labels (label_key "description") cluster_name team _
              (unfold label_key in refl) (unfold label_key in refl)
            ∙ find-store by_label (label_key "description") (label_key "description", description)
                old
            ∙ rw (eq_refl (label_key "description")) refl);
    others = λ k a b c d r.
        find-written k a
        ∙ rw r (
            find-owned_labels k cluster_name team _ c d
            ∙ find-store by_label k (label_key "description", description) old
            ∙ rw b refl);
  }
