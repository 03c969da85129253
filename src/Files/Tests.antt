-- ===== src/Files/Tests.antt =====
-- Runs of the extra files, and the theorems at a cluster with one instance and at most one config map.
use rpaas_operator.Prelude.{◌≡◌, ◌≢◌, ◌↔◌, refl, true, false, [], ◌∷◌, none}
use rpaas_operator.Prelude.Keyed.{find, store}
use rpaas_operator.Errors.{conflict, not_modified}
use rpaas_operator.Result.{ok, err, is_ok}
use rpaas_operator.Api.{RpaasInstance}
use rpaas_operator.Samples.{empty_spec, instance_with, web}
use rpaas_operator.Manager.{get_instance, get_service_name, pool_namespace}
use rpaas_operator.Files.Store.{ConfigMap}
use rpaas_operator.Files.Cell.{pair_manager, pair_laws, maps, maps_laws, maps_apart}
use rpaas_operator.Files.{
  File, is_file_name_valid, validate_file, validate_each, validate_files, new_config_map_for_file,
  with_last_update,
}
use rpaas_operator.Files.Operations.{
  update_file_in_config_map, write_file, write_files, patch_files, add_or_update_extra_files,
  create_extra_files,
}
use rpaas_operator.Files.Valid.{AreFilesValid, validate_files_iff}
use rpaas_operator.Files.Refinement.{HasWritten, add_or_update_extra_files-HasWritten}
use rpaas_operator.Files.Orphans.{create_extra_files_orphan}

abbrev www : File
www = record { name = "www.html"; content = 60 ∷ 62 ∷ [] }

abbrev robots : File
robots = record { name = "robots.txt"; content = 42 ∷ [] }

abbrev www_map : ConfigMap
www_map = record (new_config_map_for_file pair_manager.config web www) {
  name = "web-extra-files-x7";
}

file_names :
    (is_file_name_valid "www.html" ≡ true)
    × (is_file_name_valid "w" ≡ false)
    × (is_file_name_valid "../etc" ≡ false)
    × (is_file_name_valid "a b" ≡ false)
    × (is_file_name_valid "a/b" ≡ false)
unfolding is_file_name_valid
file_names = (refl, refl, refl, refl, refl)

valid : is_ok (validate_files (www ∷ robots ∷ [])) ≡ true
unfolding validate_files validate_each validate_file is_file_name_valid
valid = refl

valid_www : is_ok (validate_files (www ∷ [])) ≡ true
unfolding validate_files validate_each validate_file is_file_name_valid
valid_www = refl

validate_files_iff_example :
    (is_ok (validate_files (www ∷ robots ∷ [])) ≡ true)
    ↔ (((www ∷ robots ∷ []) ≢ []) × AreFilesValid (www ∷ robots ∷ []))
validate_files_iff_example = validate_files_iff (www ∷ robots ∷ [])

read_web : get_instance pair_manager "web" (web, none) ≡ ok web
unfolding get_instance pool_namespace get_service_name
read_web = refl

created :
    (add_or_update_extra_files pair_manager maps true "now" "web" (www ∷ []) (web, none)).0 ≡ ok tt
unfolding add_or_update_extra_files validate_files validate_each validate_file is_file_name_valid
    get_instance pool_namespace get_service_name write_files write_file update_file_in_config_map
    patch_files with_last_update find store
created = refl

add_or_update_extra_files-HasWritten_example :
    ((www ∷ []) ≢ [])
    × AreFilesValid (www ∷ [])
    × HasWritten pair_manager maps "web" web
        (www ∷ [])
        (web, none)
        (add_or_update_extra_files pair_manager maps true "now" "web" (www ∷ []) (web, none)).1
add_or_update_extra_files-HasWritten_example =
    add_or_update_extra_files-HasWritten pair_manager maps pair_laws maps_laws maps_apart true "now"
      "web" (www ∷ []) (web, none) web read_web created

-- The instance has the second file in its list.
abbrev with_robots : RpaasInstance
with_robots =
    instance_with
      (record empty_spec { files = record { name = "robots.txt"; config_map = none } ∷ [] })

read_robots : get_instance pair_manager "web" (with_robots, none) ≡ ok with_robots
unfolding get_instance pool_namespace get_service_name
read_robots = refl

create_extra_files_orphan_example :
    ((create_extra_files pair_manager maps "now" "web" (www ∷ robots ∷ []) (with_robots, none)).0
      ≡ err (conflict "file already exists"))
    × (get_instance pair_manager "web"
          (create_extra_files pair_manager maps "now" "web"
            (www ∷ robots ∷ [])
            (with_robots, none)).1
        ≡ ok with_robots)
    × ((create_extra_files pair_manager maps "later" "web"
          (www ∷ [])
          (create_extra_files pair_manager maps "now" "web"
            (www ∷ robots ∷ [])
            (with_robots, none)).1).0
        ≡ err (not_modified "no changes found in %q file"))
unfolding find new_config_map_for_file
create_extra_files_orphan_example =
    create_extra_files_orphan pair_manager maps maps_laws maps_apart with_robots www robots
      (with_robots, none) www_map "now" "later" "web" valid valid_www read_robots refl refl refl
      refl
