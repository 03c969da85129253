-- ===== src/Values.antt =====
-- pkg/util/value.go: a value of the resource, written out or kept in a config map.
use rpaas_operator.Prelude.{String, Bool, true, ◌&&◌, Option, none, some, ◌==◌, if◌then◌else◌}
use rpaas_operator.Errors.{plain}
use rpaas_operator.Result.{Result, ok, err}
use rpaas_operator.Api.{Value, ValueSource, ConfigMapKeySelector}
use rpaas_operator.Manager.{is_api_missing}

-- The client's read of a config map by namespace and name, as a lookup of the keys of its `Data`.
abbrev pub ConfigMaps : Type 0
ConfigMaps = String → String → Result (String → Option String)

-- A reference is optional unless it says that it is not.
unfoldable pub is_optional : ConfigMapKeySelector → Bool
is_optional ref = elim ref.optional [ none ↦ true | some b ↦ b ]

-- What is made of the config map that was read, or of the error.
unfoldable pub value_at : ConfigMapKeySelector → Result (String → Option String) → Result String
unfolding is_optional
value_at ref (err e) = if is_optional ref && is_api_missing e then ok "" else err e
value_at ref (ok data_at) = elim (data_at ref.key) [
  | none ↦ if is_optional ref then ok "" else err (plain "key %q cannot be found in configmap %v")
  | some value ↦ ok value
]

unfoldable pub get_value_from_config_map : ConfigMaps → String → Option ValueSource → Result String
unfolding value_at
get_value_from_config_map maps namespace none = err (plain "value source is missing")
get_value_from_config_map maps namespace (some vs) = elim vs.config_map_key_ref [
  | none ↦ err (plain "value source is missing")
  | some ref ↦ value_at ref (maps (if vs.namespace == "" then namespace else vs.namespace) ref.name)
]

unfoldable pub get_value : ConfigMaps → String → Option Value → Result String
unfolding get_value_from_config_map
get_value maps namespace none = err (plain "value cannot be nil")
get_value maps namespace (some v) =
    if v.value == "" then get_value_from_config_map maps namespace v.value_from else ok v.value
