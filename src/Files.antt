-- ===== src/Files.antt =====
-- internal/pkg/rpaas/extra_files.go: the extra files of an instance. The resource has their names, and
-- each is kept in a config map of its own, which is found by its labels.
pub mod Store
pub mod Cell
pub mod Valid
pub mod Operations
pub mod Laws
pub mod Effect
pub mod Loop
pub mod Refinement
pub mod Orphans
mod Tests
use Prim.Native.Char.{Char, code}
use Prim.Native.String
use rpaas_operator.Prelude.{
  ℕ, ◌*◌, String, ◌==◌, Bool, true, false, not, ◌&&◌, ◌||◌, List, [], ◌∷◌, ◌++◌, map, Option, none,
  some, is_some, eq_iff, length, leb, ltb, nat_eq, str_ltb, if◌then◌else◌,
}
use rpaas_operator.Prelude.Keyed.{Keyed, find, store, remove}
use rpaas_operator.Errors.{Error, validation, conflict, not_found, not_modified}
use rpaas_operator.Result.{Result, ok, err, ◌>>=◌, ◌>>◌, reject_if}
use rpaas_operator.Api.{RpaasInstance, StringMap}
use rpaas_operator.ByteMaps.{Bytes, ByteMap, value_at, data_eq}
use rpaas_operator.Client.{RpaasConfig}
use rpaas_operator.Labels.{by_label, merge_map}
use rpaas_operator.Manager.{Manager, get_instance, get_service_name}
use rpaas_operator.Files.Store.{ConfigMap, ConfigMapClient}

-- internal/pkg/rpaas/manager.go
pub record File : Type 0 where
  pub name : String
  pub content : Bytes

-- v1alpha1.File, by its name.
abbrev pub by_file : Keyed String rpaas_operator.Api.File
by_file = record { key = λ f. f.name; test = λ k f. f.name == k; test_iff = λ k f. eq_iff f.name k }

abbrev pub max_file_size : ℕ
max_file_size = 1024 * 1024

unfoldable pub is_alphanumeric : Char → Bool
is_alphanumeric c =
    let n = code c in (leb 97 n && leb n 122) || ((leb 65 n && leb n 90) || (leb 48 n && leb n 57))

-- `[^/ ]*`
unfoldable pub has_no_slash_or_space : String → Bool
has_no_slash_or_space String.[] = true
has_no_slash_or_space (String.◌∷◌ c s) =
    not (nat_eq (code c) (code "/"))
    && (not (nat_eq (code c) (code " ")) && has_no_slash_or_space s)

-- The regular expression `^[a-zA-Z0-9][^/ ]+$`.
unfoldable pub is_file_name_valid : String → Bool
unfolding is_alphanumeric has_no_slash_or_space
is_file_name_valid String.[] = false
is_file_name_valid (String.◌∷◌ c s) =
    is_alphanumeric c && (not (s == "") && has_no_slash_or_space s)

unfoldable pub validate_file : File → Result (Unit {0})
unfolding is_file_name_valid
validate_file f = do
  reject_if (not (is_file_name_valid f.name))
      (validation "file name %q is not valid (regular expression applied: %s)")
  reject_if (nat_eq (length f.content) 0) (validation "file %q cannot be empty")
  reject_if (ltb max_file_size (length f.content))
      (validation "file %q exceeds the max size of %v bytes")
  ok tt

unfoldable pub validate_each : List File → Result (Unit {0})
unfolding validate_file
validate_each [] = ok tt
validate_each (f ∷ fs) = validate_file f >> validate_each fs

unfoldable pub validate_files : List File → Result (Unit {0})
unfolding validate_each
validate_files fs = do
  reject_if (nat_eq (length fs) 0) (validation "you must provide a file")
  validate_each fs

abbrev pub err_no_such_extra_file : Error
err_no_such_extra_file = not_found "extra file not found"

unfoldable pub labels_for_rpaas_instance : RpaasConfig → String → StringMap
unfolding get_service_name
labels_for_rpaas_instance config name =
    ("rpaas.extensions.tsuru.io/service-name", get_service_name config)
    ∷ ("rpaas.extensions.tsuru.io/instance-name", name)
    ∷ ("rpaas_service", get_service_name config)
    ∷ ("rpaas_instance", name)
    ∷ []

unfoldable pub labels_selector_for_file : RpaasConfig → String → String → StringMap
unfolding labels_for_rpaas_instance merge_map
labels_selector_for_file config instance filename =
    merge_map (labels_for_rpaas_instance config instance) (
      ("rpaas.extensions.tsuru.io/is-file", "true")
      ∷ ("rpaas.extensions.tsuru.io/file-name", filename)
      ∷ [])

unfoldable pub new_config_map_for_file : RpaasConfig → RpaasInstance → File → ConfigMap
unfolding labels_selector_for_file
new_config_map_for_file config i f = record {
  name = String.◌++◌ i.name "-extra-files-";
  namespace = i.namespace;
  labels = labels_selector_for_file config i.name f.name;
  binary_data = (f.name, f.content) ∷ [];
}

-- The one config map of those that were listed.
unfoldable pub only_config_map : List ConfigMap → Result ConfigMap
only_config_map [] = err err_no_such_extra_file
only_config_map (x ∷ []) = ok x
only_config_map (x ∷ _ ∷ _) = err (conflict "too many config maps for %q file")

-- `errors.Is(err, ErrNoSuchExtraFile)`
unfoldable pub is_no_such_extra_file : Error → Bool
is_no_such_extra_file (not_found s) = s == "extra file not found"
is_no_such_extra_file _ = false

-- The time is the text of the current one.
unfoldable pub with_last_update : String → RpaasInstance → RpaasInstance
unfolding store
with_last_update time i = record i {
  spec = record (i.spec) {
    pod_template = record (i.spec.pod_template) {
      annotations =
          store by_label ("rpaas.extensions.tsuru.io/extra-files-last-update", time)
            i.spec.pod_template.annotations;
    };
  };
}

unfoldable pub with_file : File → ConfigMap → RpaasInstance → RpaasInstance
with_file f cm i = record i {
  spec = record (i.spec) {
    files =
        i.spec.files
        ++ record {
          name = f.name;
          config_map = some (record { name = cm.name; key = f.name; optional = none });
        }
          ∷ [];
  };
}

-- sort.Slice by name. The names of the files of an instance differ, so that every sort gives this list.
unfoldable pub insert_file : File → List File → List File
insert_file f [] = f ∷ []
insert_file f (g ∷ gs) =
    let later = insert_file f gs in if str_ltb g.name f.name then g ∷ later else f ∷ g ∷ gs

unfoldable pub sort_files : List File → List File
unfolding insert_file
sort_files [] = []
sort_files (f ∷ fs) = insert_file f (sort_files fs)
