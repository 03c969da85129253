-- ===== src/Metadata.antt =====
-- internal/pkg/rpaas/metadata.go: the labels and annotations that a user may set on an instance.
pub mod Laws
pub mod Reserved
mod Tests
use rpaas_operator.Prelude.{
  String, ◌==◌, ◌≡◌, Bool, true, false, not, ◌&&◌, List, [], ◌∷◌, none, some, if◌then◌else◌,
  has_prefix, is_none, keep_if,
}
use rpaas_operator.Prelude.Keyed.{find, store_all, drop_key}
use rpaas_operator.Errors.{validation, not_found}
use rpaas_operator.Result.{Result, ok, err, ◌>>=◌, ◌>>◌, reject_if}
use rpaas_operator.Api.{RpaasInstance, StringMap}
use rpaas_operator.Labels.{by_label}
use rpaas_operator.Manager.{Manager, get_instance, modify}

-- pkg/rpaas/client/types/types.go: an item is its name and its value.
abbrev pub MetadataItem : Type 0
MetadataItem = String × String

pub record Metadata : Type 0 where
  pub labels : List MetadataItem
  pub annotations : List MetadataItem

abbrev pub default_key_label_prefix : String
default_key_label_prefix = "rpaas.extensions.tsuru.io"

abbrev pub default_key_rpaas_instance : String
default_key_rpaas_instance = "rpaas_instance"

abbrev pub default_key_rpaas_service : String
default_key_rpaas_service = "rpaas_service"

unfoldable pub filter_metadata : StringMap → StringMap
filter_metadata meta = keep_if (λ entry. not (has_prefix entry.0 default_key_label_prefix)) meta

unfoldable pub is_valid_metadata_key : String → Bool
is_valid_metadata_key key =
    not (has_prefix key default_key_label_prefix)
    && (not (key == default_key_rpaas_instance) && not (key == default_key_rpaas_service))

unfoldable pub validate_metadata : List MetadataItem → Result (Unit {0})
validate_metadata [] = ok tt
validate_metadata (item ∷ items) =
    let rest = validate_metadata items in
    if is_valid_metadata_key item.0 then rest else err (validation "metadata key %q is reserved")

-- What SetMetadata does to the instance that it has read.
unfoldable pub with_metadata : Metadata → RpaasInstance → Result RpaasInstance
with_metadata metadata i = do
  validate_metadata metadata.labels
  validate_metadata metadata.annotations
  ok (record i {
    labels = store_all by_label metadata.labels i.labels;
    annotations = store_all by_label metadata.annotations i.annotations;
  })

-- The loops of UnsetMetadata: an item whose key the map does not have, or no longer has, ends them.
unfoldable pub unset_all : String → List MetadataItem → StringMap → Result StringMap
unset_all message [] labels = ok labels
unset_all message (item ∷ items) labels =
    let rest = unset_all message items (drop_key by_label item.0 labels) in
    if is_none (find by_label item.0 labels) then err (not_found message) else rest

-- What UnsetMetadata does to the instance that it has read.
unfoldable pub without_metadata : Metadata → RpaasInstance → Result RpaasInstance
without_metadata metadata i = do
  validate_metadata metadata.labels
  validate_metadata metadata.annotations
  labels ← unset_all "label %q not found in instance %q" metadata.labels i.labels
  annotations ←
      unset_all "annotation %q not found in instance %q" metadata.annotations i.annotations
  ok (record i { labels = labels; annotations = annotations })

module _ (m : Manager) where
  -- The order of the items is that of a Go map, which is not fixed.
  unfoldable pub get_metadata : String → m.cli.World → Result Metadata
  unfolding filter_metadata
  get_metadata instance_name w = do
    i ← get_instance m instance_name w
    ok (record { labels = filter_metadata i.labels; annotations = filter_metadata i.annotations })

  unfoldable pub set_metadata : String → Metadata → m.cli.World → Result (Unit {0}) × m.cli.World
  set_metadata instance_name metadata = modify m instance_name (with_metadata metadata)

  unfoldable pub unset_metadata : String → Metadata → m.cli.World → Result (Unit {0}) × m.cli.World
  unset_metadata instance_name metadata = modify m instance_name (without_metadata metadata)
