-- ===== src/Files/Operations.antt =====
-- internal/pkg/rpaas/extra_files.go: GetExtraFiles, CreateExtraFiles, UpdateExtraFiles and
-- DeleteExtraFiles, over the state of the cluster.
use rpaas_operator.Prelude.{
  String, ◌==◌, Bool, true, false, not, ◌&&◌, List, [], ◌∷◌, none, some, is_some, length, nat_eq,
  if◌then◌else◌,
}
use rpaas_operator.Prelude.Keyed.{find, remove}
use rpaas_operator.Errors.{validation, conflict, not_modified}
use rpaas_operator.Result.{Result, ok, err, ◌>>=◌, and_then}
use rpaas_operator.Api.{RpaasInstance}
use rpaas_operator.ByteMaps.{value_at, data_eq}
use rpaas_operator.Manager.{Manager, get_instance}
use rpaas_operator.Files.Store.{ConfigMap, ConfigMapClient}
use rpaas_operator.Files.{
  File, by_file, validate_files, err_no_such_extra_file, labels_selector_for_file,
  new_config_map_for_file, only_config_map, is_no_such_extra_file, with_last_update, with_file,
  sort_files,
}

module _ (m : Manager) (maps : ConfigMapClient m.cli.World) where
  unfoldable pub get_config_map_by_file_name :
      RpaasInstance → String → m.cli.World → Result ConfigMap
  unfolding labels_selector_for_file only_config_map
  get_config_map_by_file_name i filename w =
      maps.list i.namespace (labels_selector_for_file m.config i.name filename) w
      >>= only_config_map

  -- What follows the search for the config map of the file.
  unfoldable pub write_config_map :
      ConfigMap → Result ConfigMap → m.cli.World → Result ConfigMap × m.cli.World
  unfolding is_no_such_extra_file data_eq
  write_config_map new (err e) w = if is_no_such_extra_file e then maps.create new w else (err e, w)
  write_config_map new (ok existing) w =
      let changed : ConfigMap = record existing { binary_data = new.binary_data } in
      if data_eq existing.binary_data new.binary_data
      then (err (not_modified "no changes found in %q file"), w)
      else and_then (maps.update changed w) λ _ v. (ok changed, v)

  unfoldable pub update_file_in_config_map :
      RpaasInstance → File → m.cli.World → Result ConfigMap × m.cli.World
  unfolding write_config_map get_config_map_by_file_name new_config_map_for_file
  update_file_in_config_map i f w =
      write_config_map (new_config_map_for_file m.config i f)
        (get_config_map_by_file_name i f.name w) w

  -- One turn of the loop: the instance with the file in its list.
  unfoldable pub write_file :
      Bool → File → RpaasInstance → m.cli.World → Result RpaasInstance × m.cli.World
  unfolding find update_file_in_config_map with_file
  write_file creating f i w =
      let found = is_some (find by_file f.name i.spec.files) in
      if creating && found
      then (err (conflict "file already exists"), w)
      else if not creating && not found
      then (err err_no_such_extra_file, w)
      else and_then (update_file_in_config_map i f w)
          λ cm v. (ok (if creating then with_file f cm i else i), v)

  -- The loop over the files, which stops at the first error.
  unfoldable pub write_files :
      Bool → List File → RpaasInstance → m.cli.World → Result RpaasInstance × m.cli.World
  unfolding write_file
  write_files creating [] i w = (ok i, w)
  write_files creating (f ∷ fs) i w = and_then (write_file creating f i w) (write_files creating fs)

  -- What follows the loop: `time` is the text of the current time.
  unfoldable pub patch_files :
      String → RpaasInstance → RpaasInstance → m.cli.World → Result (Unit {0}) × m.cli.World
  unfolding with_last_update
  patch_files time original i w = m.cli.patch original (with_last_update time i) w

  unfoldable pub add_or_update_extra_files :
      Bool → String → String → List File → m.cli.World → Result (Unit {0}) × m.cli.World
  unfolding validate_files write_files patch_files
  add_or_update_extra_files creating time instance_name files w = elim (validate_files files) [
    | err e ↦ (err e, w)
    | ok _ ↦ elim (get_instance m instance_name w) [
      | err e ↦ (err e, w)
      | ok i ↦ and_then (write_files creating files i w) (patch_files time i)
    ]
  ]

  unfoldable pub create_extra_files :
      String → String → List File → m.cli.World → Result (Unit {0}) × m.cli.World
  unfolding add_or_update_extra_files
  create_extra_files = add_or_update_extra_files true

  unfoldable pub update_extra_files :
      String → String → List File → m.cli.World → Result (Unit {0}) × m.cli.World
  unfolding add_or_update_extra_files
  update_extra_files = add_or_update_extra_files false

  -- `append(files[:index], files[index+1:]...)`, if the file is found.
  unfoldable pub without_file : String → RpaasInstance → RpaasInstance
  unfolding remove
  without_file name i = elim (remove by_file name i.spec.files) [
    | none ↦ i
    | some rest ↦ record i { spec = record (i.spec) { files = rest } }
  ]

  -- One turn of the loop of DeleteExtraFiles.
  unfoldable pub delete_file :
      String → RpaasInstance → m.cli.World → Result RpaasInstance × m.cli.World
  unfolding get_config_map_by_file_name without_file
  delete_file name i w =
      if name == ""
      then (err (validation "file name cannot be empty"), w)
      else elim (get_config_map_by_file_name i name w) [
        | err e ↦ (err e, w)
        | ok cm ↦ and_then (maps.delete cm w) λ _ v. (ok (without_file name i), v)
      ]

  unfoldable pub delete_files :
      List String → RpaasInstance → m.cli.World → Result RpaasInstance × m.cli.World
  unfolding delete_file
  delete_files [] i w = (ok i, w)
  delete_files (name ∷ names) i w = and_then (delete_file name i w) (delete_files names)

  unfoldable pub delete_extra_files :
      String → String → List String → m.cli.World → Result (Unit {0}) × m.cli.World
  unfolding delete_files patch_files
  delete_extra_files time instance_name filenames w =
      if nat_eq (length filenames) 0
      then (err (validation "you must provide a filename"), w)
      else elim (get_instance m instance_name w) [
        | err e ↦ (err e, w)
        | ok i ↦ and_then (delete_files filenames i w) (patch_files time i)
      ]

  -- The loop of GetExtraFiles; a name that the config map does not have gives no bytes.
  unfoldable pub read_files :
      RpaasInstance → List rpaas_operator.Api.File → m.cli.World → Result (List File)
  unfolding get_config_map_by_file_name value_at
  read_files i [] w = ok []
  read_files i (f ∷ fs) w = do
    cm ← get_config_map_by_file_name i f.name w
    rest ← read_files i fs w
    ok (
        record {
          name = f.name;
          content = elim (value_at cm.binary_data f.name) [ none ↦ [] | some bytes ↦ bytes ];
        }
        ∷ rest)

  unfoldable pub get_extra_files : String → m.cli.World → Result (List File)
  unfolding read_files sort_files
  get_extra_files instance_name w = do
    i ← get_instance m instance_name w
    files ← read_files i i.spec.files w
    ok (sort_files files)
