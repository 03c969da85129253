-- ===== src/Files/Laws.antt =====
-- What the search for the config map of a file finds after each write.
use rpaas_operator.Prelude.{
  String, ◌≡◌, ◌≢◌, ◌⊎◌, inl, inr, refl, sym, ◌∙◌, true, false, List, [], ◌∷◌, arith, eq_iff,
  Bool-cases,
}
use rpaas_operator.Prelude.Keyed.{find, merge, store}
use rpaas_operator.Errors.{Error, not_found}
use rpaas_operator.Result.{Result, ok, err, and_then}
use rpaas_operator.Api.{RpaasInstance, StringMap}
use rpaas_operator.ByteMaps.{data_eq}
use rpaas_operator.Client.{RpaasConfig}
use rpaas_operator.Labels.{label, merge_map}
use rpaas_operator.Manager.{Manager, get_service_name}
use rpaas_operator.Files.Store.{ConfigMap, ConfigMapClient, matches}
use rpaas_operator.Files.{
  File, labels_for_rpaas_instance, labels_selector_for_file, new_config_map_for_file,
  only_config_map, is_no_such_extra_file,
}
use rpaas_operator.Files.Operations.{
  get_config_map_by_file_name, write_config_map, update_file_in_config_map,
}

-- The selector of a file takes its own labels, and tells the file by its name.
pub selector-Self :
    (config : RpaasConfig) (i n : String)
    → matches (labels_selector_for_file config i n) (labels_selector_for_file config i n) ≡ true
unfolding matches labels_selector_for_file labels_for_rpaas_instance merge_map merge store find
selector-Self config i n =
    ground
      (arith, eq_iff i i, eq_iff n n, eq_iff (get_service_name config) (get_service_name config))

matches-name :
    (config : RpaasConfig) (i n : String) (labels : StringMap)
    → matches (labels_selector_for_file config i n) labels ≡ true
    → label labels "rpaas.extensions.tsuru.io/file-name" ≡ n
unfolding matches labels_selector_for_file labels_for_rpaas_instance merge_map merge store label
    find
matches-name config i n labels h =
    ground (arith, h, eq_iff (label labels "rpaas.extensions.tsuru.io/file-name") n)

pub matches_other :
    (config : RpaasConfig) (i n k : String) (labels : StringMap)
    → k ≢ n
    → matches (labels_selector_for_file config i n) labels ≡ true
    → matches (labels_selector_for_file config i k) labels ≡ false
matches_other config i n k labels d h =
    elim (Bool-cases (matches (labels_selector_for_file config i k) labels)) [
      | inl t ↦
          absurd (d (sym (matches-name config i k labels t) ∙ matches-name config i n labels h))
      | inr t ↦ t
    ]

-- What a list of config maps may be.
pub list-cases :
    (r : Result (List ConfigMap))
    → ((e : Error) × (r ≡ err e))
      ⊎ ((r ≡ ok [])
          ⊎ (((x : ConfigMap) × (r ≡ ok (x ∷ [])))
              ⊎ ((x y : ConfigMap) × (l : List ConfigMap) × (r ≡ ok (x ∷ y ∷ l)))))
list-cases (err e) = inl (e, refl)
list-cases (ok []) = inr (inl refl)
list-cases (ok (x ∷ [])) = inr (inr (inl (x, refl)))
list-cases (ok (x ∷ y ∷ l)) = inr (inr (inr (x, y, l, refl)))

-- A write of either kind changes nothing of the other.
pub record AreApart (m : Manager) (maps : ConfigMapClient m.cli.World) : Type 0 where
  pub created :
      (ns n : String) (x : ConfigMap) (w : m.cli.World)
      → m.cli.get ns n (maps.create x w).1 ≡ m.cli.get ns n w
  pub updated :
      (ns n : String) (x : ConfigMap) (w : m.cli.World)
      → m.cli.get ns n (maps.update x w).1 ≡ m.cli.get ns n w
  pub deleted :
      (ns n : String) (x : ConfigMap) (w : m.cli.World)
      → m.cli.get ns n (maps.delete x w).1 ≡ m.cli.get ns n w
  pub patched :
      (ns : String) (selector : StringMap) (i j : RpaasInstance) (w : m.cli.World)
      → maps.list ns selector (m.cli.patch i j w).1 ≡ maps.list ns selector w

module _ (m : Manager) (maps : ConfigMapClient m.cli.World) (i : RpaasInstance) where
  -- The config maps of a file of the instance.
  abbrev pub maps_of : String → m.cli.World → Result (List ConfigMap)
  maps_of n w = maps.list i.namespace (labels_selector_for_file m.config i.name n) w

  abbrev pub changed : ConfigMap → File → ConfigMap
  changed x f = record x { binary_data = (f.name, f.content) ∷ [] }

  module _ (f : File) (w : m.cli.World) where
    pub run_fails :
        (e : Error)
        → maps_of f.name w ≡ err e
        → is_no_such_extra_file e ≡ false
        → update_file_in_config_map m maps i f w ≡ (err e, w)
    unfolding update_file_in_config_map write_config_map get_config_map_by_file_name
    run_fails e g other = rw g (rw other)

    pub run_creates :
        maps_of f.name w ≡ ok []
        → update_file_in_config_map m maps i f w
          ≡ maps.create (new_config_map_for_file m.config i f) w
    unfolding update_file_in_config_map write_config_map get_config_map_by_file_name only_config_map
        is_no_such_extra_file
    run_creates g = rw g refl

    pub run_updates :
        (x : ConfigMap)
        → maps_of f.name w ≡ ok (x ∷ [])
        → data_eq x.binary_data ((f.name, f.content) ∷ []) ≡ false
        → update_file_in_config_map m maps i f w
          ≡ and_then (maps.update (changed x f) w) λ _ v. (ok (changed x f), v)
    unfolding update_file_in_config_map write_config_map get_config_map_by_file_name only_config_map
        new_config_map_for_file
    run_updates x g d = rw g (rw d)

    -- A file of which the config map has the content already is refused.
    pub run_refuses :
        (x : ConfigMap)
        → maps_of f.name w ≡ ok (x ∷ [])
        → data_eq x.binary_data ((f.name, f.content) ∷ []) ≡ true
        → update_file_in_config_map m maps i f w
          ≡ (err (rpaas_operator.Errors.not_modified "no changes found in %q file"), w)
    unfolding update_file_in_config_map write_config_map get_config_map_by_file_name only_config_map
        new_config_map_for_file
    run_refuses x g d = rw g (rw d)

    pub run_conflicts :
        (x y : ConfigMap) (l : List ConfigMap)
        → maps_of f.name w ≡ ok (x ∷ y ∷ l)
        → update_file_in_config_map m maps i f w
          ≡ (err (rpaas_operator.Errors.conflict "too many config maps for %q file"), w)
    unfolding update_file_in_config_map write_config_map get_config_map_by_file_name only_config_map
        is_no_such_extra_file
    run_conflicts x y l g = rw g refl
