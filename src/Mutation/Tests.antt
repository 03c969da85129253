-- ===== src/Mutation/Tests.antt =====
-- Runs of the changes of a spec, and the theorems at concrete inputs.
use rpaas_operator.Prelude.{
  String, ◌↔◌, ◌≡◌, ◌≢◌, refl, ◌⊎◌, inl, inr, true, false, Bool, List, [], ◌∷◌, Option, none, some,
  eq_iff, arith,
}
use rpaas_operator.Prelude.Keyed.{find, remove, store, Distinct}
use rpaas_operator.Errors.{plain}
use rpaas_operator.Result.{Result, ok, err, is_ok}
use rpaas_operator.Api.{Value, RpaasInstance, RpaasInstanceSpec}
use rpaas_operator.Manager.{get_instance}
use rpaas_operator.Samples.{single_laws, empty_spec, web, manager, plain_config}
use rpaas_operator.Mutation.{inline, validate_content}
use rpaas_operator.Mutation.Blocks.{
  ConfigurationBlock, server_blocks, is_block_type_allowed, validate_block, validate_server_name,
  update_block, delete_block,
}
use rpaas_operator.Mutation.Blocks.Checks.{IsServerNameValid, is_denied, validate_block_iff}
use rpaas_operator.Mutation.Blocks.Laws.{
  block_at, written, OnlyBlocks, Gone, update_block-effect, delete_block-Gone,
}
use rpaas_operator.Mutation.Routes.{
  Route, locations, location_of, validate_route, update_route, delete_route, list_routes,
  location_content,
}
use rpaas_operator.Mutation.Routes.Listing.{routes, list_routes-update_route}
use rpaas_operator.Mutation.Binds.{
  BindAppArgs, Url, bound_host, bind_app, unbind_app, requested_host,
}
use rpaas_operator.Mutation.Binds.Laws.{unbind_app-bind_app}
use rpaas_operator.Mutation.Invariant.{IsWellFormed}
use rpaas_operator.Mutation.Reach.{
  set_block, cut_block, set_route, bind, serve_all, serve_all-IsWellFormed,
}

-- A test for domains that refuses the empty text only.
abbrev is_domain : String → Bool
is_domain s = mathlib.Core.Bool.not (text.Mathlib.Text.◌==◌ s "")

abbrev server_block : ConfigurationBlock
server_block = record {
  name = "server";
  content = "gzip on;";
  server_name = "*.example.org";
  extend = true;
}

abbrev with_block : RpaasInstanceSpec
with_block = record empty_spec {
  server_blocks =
      record {
        server_name = "*.example.org";
        type = "server";
        content = some (inline "gzip on;");
        extend = true;
      }
      ∷ [];
}

set_server_block : update_block is_domain plain_config server_block empty_spec ≡ ok with_block
unfolding update_block validate_block validate_server_name validate_content is_block_type_allowed
    rpaas_operator.Prelude.byte_length rpaas_operator.Prelude.trim_prefix store
set_server_block = refl

validate_block_iff_example : (is_ok (validate_block is_domain plain_config server_block) ≡ true) ↔ (
    (is_block_type_allowed "server" ≡ true)
    × (server_block.content ≢ "")
    × (is_denied [] "gzip on;" ≡ false)
    × ((server_block.server_name ≡ "") ⊎ IsServerNameValid is_domain plain_config server_block))
validate_block_iff_example = validate_block_iff is_domain plain_config server_block

update_block-effect_example :
    (block_at with_block "*.example.org" "server" ≡ some (written server_block))
    × ((server_name name : String)
        → (server_name ≢ "*.example.org") ⊎ (name ≢ "server")
        → block_at with_block server_name name ≡ block_at empty_spec server_name name)
    × OnlyBlocks empty_spec with_block
update_block-effect_example =
    update_block-effect is_domain plain_config server_block empty_spec with_block set_server_block

cut_server_block : delete_block "*.example.org" "server" with_block ≡ ok empty_spec
unfolding delete_block remove
cut_server_block = refl

with_block-Distinct : Distinct server_blocks with_block.server_blocks
unfolding Distinct find
with_block-Distinct = (refl, tt)

delete_block-Gone_example : Gone "*.example.org" "server" with_block empty_spec
delete_block-Gone_example =
    delete_block-Gone "*.example.org" "server" with_block empty_spec cut_server_block
      with_block-Distinct

abbrev assets : Route
assets = record {
  server_name = "";
  path = "/assets";
  destination = "cdn.example.org";
  content = "";
  https_only = true;
}

abbrev with_assets : RpaasInstanceSpec
with_assets = record empty_spec {
  locations =
      record {
        server_name = "";
        path = "/assets";
        destination = "cdn.example.org";
        content = none;
        force_https = true;
      }
      ∷ [];
}

set_assets : update_route plain_config assets empty_spec ≡ ok with_assets
unfolding update_route validate_route validate_content rpaas_operator.Prelude.has_prefix store
    location_of
set_assets = refl

cut_assets : delete_route "" "/assets" with_assets ≡ ok empty_spec
unfolding delete_route remove
cut_assets = refl

with_assets-Distinct : Distinct locations with_assets.locations
unfolding Distinct find
with_assets-Distinct = (refl, tt)

listed :
    list_routes (λ ns n. err (plain "no config map")) "rpaasv2" with_assets.locations
    ≡ ok (assets ∷ [])
unfolding list_routes location_content
listed = refl

list_routes-update_route_example : find routes ("", "/assets") (assets ∷ []) ≡ some assets
list_routes-update_route_example =
    list_routes-update_route (λ ns n. err (plain "no config map")) "rpaasv2" plain_config assets
      empty_spec with_assets (assets ∷ []) set_assets listed

-- A parser that knows one tcp URL, and takes the rest for bare hosts.
abbrev parse : String → Result Url
parse s =
    rpaas_operator.Prelude.if◌then◌else◌ (text.Mathlib.Text.◌==◌ s "tcp://10.0.0.1:80")
      (ok (record { scheme = "tcp"; host = "10.0.0.1:80" }))
      (ok (record { scheme = ""; host = "" }))

abbrev app : BindAppArgs
app = record {
  app_name = "my-app";
  app_hosts = "my-app.example.org" ∷ [];
  app_internal_hosts = "tcp://10.0.0.1:80" ∷ [];
  app_cluster_name = "cluster-a";
}

abbrev with_app : RpaasInstanceSpec
with_app = record empty_spec { binds = record { name = "my-app"; host = "10.0.0.1:80" } ∷ [] }

bound : bind_app parse app true empty_spec ≡ ok with_app
unfolding bind_app bound_host requested_host find
bound = refl

unbind_app-bind_app_example : unbind_app "my-app" with_app ≡ ok empty_spec
unbind_app-bind_app_example =
    unbind_app-bind_app parse app true empty_spec with_app bound
      (λ e. ground (arith, eq_iff "my-app" "")) (unfold find in refl)

empty_IsWellFormed : IsWellFormed empty_spec
unfolding Distinct find block_at
empty_IsWellFormed = record {
  distinct_server_blocks = tt;
  distinct_locations = tt;
  distinct_hosts = tt;
  allowed = λ server_name name v f. absurd (nothing server_name f);
  sound = λ k l f. cc;
}
  where
    nothing :
        (server_name : String) {v : Option Value × Bool}
        → block_at empty_spec server_name "" ≡ some v
        → ⊥
    nothing server_name f = ground (arith, f)

serve_all-IsWellFormed_example :
    (k : RpaasInstance) × (get_instance manager "web" (
        serve_all is_domain parse manager "web"
          (set_block server_block ∷ set_route assets ∷ bind app ∷ cut_block "" "http" ∷ [])
          web)
      ≡ ok k)
    × IsWellFormed k.spec
serve_all-IsWellFormed_example =
    serve_all-IsWellFormed is_domain parse manager "web" single_laws
      (set_block server_block ∷ set_route assets ∷ bind app ∷ cut_block "" "http" ∷ []) web web
      (unfold get_instance in refl) empty_IsWellFormed
