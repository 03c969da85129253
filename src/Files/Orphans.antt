-- ===== src/Files/Orphans.antt =====
-- What is left of a CreateExtraFiles that stops at a file after the first one.
use mathlib.Core.Path.{subst}
use rpaas_operator.Prelude.{
  String, ◌≡◌, refl, sym, ap, ◌∙◌, true, false, List, [], ◌∷◌, is_some, arith,
}
use rpaas_operator.Prelude.Keyed.{find}
use rpaas_operator.Errors.{conflict, not_modified}
use rpaas_operator.Result.{is_ok, is_ok-value, ok, err, and_then, and_then-eq}
use rpaas_operator.Api.{RpaasInstance}
use rpaas_operator.ByteMaps.{data_eq}
use rpaas_operator.ByteMaps.Laws.{data_eq_iff}
use rpaas_operator.Manager.{Manager, get_instance}
use rpaas_operator.Manager.Frame.{get_instance_cong}
use rpaas_operator.Files.Store.{ConfigMap, ConfigMapClient, ConfigMapLaws}
use rpaas_operator.Files.{
  File, by_file, validate_files, labels_selector_for_file, new_config_map_for_file,
}
use rpaas_operator.Files.Operations.{write_file, write_files, patch_files, create_extra_files}
use rpaas_operator.Files.Laws.{AreApart, maps_of, selector-Self, run_creates, run_refuses}
use rpaas_operator.Files.Loop.{turned, turned-names, write_file_exists, write_file_passes}
use rpaas_operator.Files.Refinement.{sends}

module _ (m : Manager) (maps : ConfigMapClient m.cli.World) (laws : ConfigMapLaws maps)
    (apart : AreApart m maps) (i : RpaasInstance) (f : File) (w : m.cli.World) (y : ConfigMap)
    (fresh : maps_of m maps i f.name w ≡ ok [])
    (created : (maps.create (new_config_map_for_file m.config i f) w).0 ≡ ok y)
    (new : is_some (find by_file f.name i.spec.files) ≡ false) where
  -- The cluster with the config map of the first file.
  abbrev after_first : m.cli.World
  after_first = (maps.create (new_config_map_for_file m.config i f) w).1

  first : write_file m maps true f i w ≡ (ok (turned true f i y), after_first)
  first =
      write_file_passes m maps true f i w new
      ∙ ap (λ r. and_then r λ cm u. (ok (turned true f i cm), u)) (run_creates m maps i f w fresh)
      ∙ and_then-eq _ _ y created

  stops :
      (g : File)
      → is_some (find by_file g.name i.spec.files) ≡ true
      → write_files m maps true (f ∷ g ∷ []) i w
        ≡ (err (conflict "file already exists"), after_first)
  unfolding write_files
  stops g old =
      ap (λ r. and_then r (write_files m maps true (g ∷ []))) first
      ∙ ap (λ r. and_then r (write_files m maps true []))
          (write_file_exists m maps true g (turned true f i y) after_first refl
            (turned-names true f i y (λ c. cc) g.name ∙ ground (arith, old)))

  -- The config map that was created is still there.
  there : maps_of m maps i f.name after_first ≡ ok (y ∷ [])
  unfolding new_config_map_for_file
  there =
      laws.created_same (labels_selector_for_file m.config i.name f.name)
        (new_config_map_for_file m.config i f) y w created (selector-Self m.config i.name f.name)
        fresh

  same_data : data_eq y.binary_data ((f.name, f.content) ∷ []) ≡ true
  unfolding new_config_map_for_file
  same_data = (data_eq_iff y.binary_data ((f.name, f.content) ∷ [])).1 λ k.
      ap (λ z. rpaas_operator.ByteMaps.value_at z.binary_data k)
        (laws.created (new_config_map_for_file m.config i f) y w created)

  refuses :
      write_files m maps true (f ∷ []) i after_first
      ≡ (err (not_modified "no changes found in %q file"), after_first)
  unfolding write_files
  refuses =
      ap (λ r. and_then r (write_files m maps true []))
        (write_file_passes m maps true f i after_first new
          ∙ ap (λ r. and_then r λ cm u. (ok (turned true f i cm), u))
              (run_refuses m maps i f after_first y there same_data))

-- If CreateExtraFiles is called with two valid files of which the instance has the second, and not the
-- first, and the config map of the first one is created, then it returns a conflict, and the instance is as
-- it was; but the config map stays, so that a CreateExtraFiles of the first file alone is refused then, as
-- not modified.
pub create_extra_files_orphan :
    (m : Manager) (maps : ConfigMapClient m.cli.World) (laws : ConfigMapLaws maps)
    (apart : AreApart m maps) (i : RpaasInstance) (f g : File) (w : m.cli.World) (y : ConfigMap)
    (time later instance_name : String)
    → is_ok (validate_files (f ∷ g ∷ [])) ≡ true
    → is_ok (validate_files (f ∷ [])) ≡ true
    → get_instance m instance_name w ≡ ok i
    → is_some (find by_file f.name i.spec.files) ≡ false
    → is_some (find by_file g.name i.spec.files) ≡ true
    → maps_of m maps i f.name w ≡ ok []
    → (maps.create (new_config_map_for_file m.config i f) w).0 ≡ ok y
    → ((create_extra_files m maps time instance_name (f ∷ g ∷ []) w).0
        ≡ err (conflict "file already exists"))
      × (get_instance m instance_name
            (create_extra_files m maps time instance_name (f ∷ g ∷ []) w).1
          ≡ ok i)
      × ((create_extra_files m maps later instance_name
            (f ∷ [])
            (create_extra_files m maps time instance_name (f ∷ g ∷ []) w).1).0
          ≡ err (not_modified "no changes found in %q file"))
create_extra_files_orphan m maps laws apart i f g w y time later instance_name valid again found new
      old fresh created =
    let (u, valid') = is_ok-value (validate_files (f ∷ g ∷ [])) valid in
    let (u', again') = is_ok-value (validate_files (f ∷ [])) again in
    let after = after_first m maps laws apart i f w y fresh created new in
    let stays : get_instance m instance_name after ≡ ok i =
      get_instance_cong m instance_name after w
        (λ ns. apart.created ns instance_name (new_config_map_for_file m.config i f) w)
      ∙ found in
    subst
      (λ r.
        (r.0 ≡ err (conflict "file already exists"))
        × (get_instance m instance_name r.1 ≡ ok i)
        × ((create_extra_files m maps later instance_name (f ∷ []) r.1).0
            ≡ err (not_modified "no changes found in %q file")))
      (sym (
        sends_files time (f ∷ g ∷ []) w u valid' found
        ∙ ap (λ r. and_then r (patch_files m maps time i))
            (stops m maps laws apart i f w y fresh created new g old)))
      (
        refl,
        stays,
        ap (λ r. r.0)
            (sends_files later (f ∷ []) after u' again' stays
              ∙ ap (λ r. and_then r (patch_files m maps later i))
                  (refuses m maps laws apart i f w y fresh created new)),
      )
  where
    sends_files :
        (t : String) (fs : List File) (x : m.cli.World) (a : Unit {0})
        → validate_files fs ≡ ok a
        → get_instance m instance_name x ≡ ok i
        → create_extra_files m maps t instance_name fs x
          ≡ and_then (write_files m maps true fs i x) (patch_files m maps t i)
    sends_files t fs x a p q =
        unfold create_extra_files in sends m maps true t instance_name fs x i a p q
