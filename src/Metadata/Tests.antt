-- ===== src/Metadata/Tests.antt =====
-- Runs of the metadata operations, and the theorems at concrete inputs.
use rpaas_operator.Prelude.{◌≡◌, refl, [], ◌∷◌}
use rpaas_operator.Prelude.Keyed.{find, store, store_all, drop_key}
use rpaas_operator.Errors.{validation}
use rpaas_operator.Result.{ok, err}
use rpaas_operator.Api.{RpaasInstance}
use rpaas_operator.Manager.{get_instance}
use rpaas_operator.Samples.{single_laws, web, manager}
use rpaas_operator.Metadata.{
  Metadata, is_valid_metadata_key, validate_metadata, with_metadata, without_metadata, unset_all,
}
use rpaas_operator.Metadata.Laws.{Overwritten, with_metadata-effect}
use rpaas_operator.Metadata.Reserved.{
  KeepsReserved, set, unset, serve_metadata, serve_metadata-KeepsReserved,
}

abbrev tier : Metadata
tier = record { labels = ("tier", "gold") ∷ []; annotations = [] }

abbrev forbidden : Metadata
forbidden = record { labels = []; annotations = ("rpaas_instance", "mine") ∷ [] }

abbrev gold : RpaasInstance
gold = record web { labels = ("tier", "gold") ∷ [] }

set_tier : with_metadata tier web ≡ ok gold
unfolding with_metadata validate_metadata is_valid_metadata_key rpaas_operator.Prelude.has_prefix
    store_all store
set_tier = refl

refuse_reserved : with_metadata forbidden web ≡ err (validation "metadata key %q is reserved")
unfolding with_metadata validate_metadata is_valid_metadata_key rpaas_operator.Prelude.has_prefix
refuse_reserved = refl

unset_tier : without_metadata tier gold ≡ ok web
unfolding without_metadata validate_metadata is_valid_metadata_key rpaas_operator.Prelude.has_prefix
    unset_all find drop_key
unset_tier = refl

with_metadata-effect_example :
    Overwritten tier.labels web.labels gold.labels
    × Overwritten tier.annotations web.annotations gold.annotations
    × (gold.spec ≡ web.spec)
with_metadata-effect_example = with_metadata-effect tier web gold set_tier

serve_metadata-KeepsReserved_example :
    (k : RpaasInstance) × (get_instance manager "web"
        (serve_metadata manager "web" (set tier ∷ set forbidden ∷ unset tier ∷ []) web)
      ≡ ok k)
    × KeepsReserved web k
serve_metadata-KeepsReserved_example =
    serve_metadata-KeepsReserved manager "web" single_laws
      (set tier ∷ set forbidden ∷ unset tier ∷ []) web web (unfold get_instance in refl)
