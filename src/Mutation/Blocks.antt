-- ===== src/Mutation/Blocks.antt =====
-- internal/pkg/rpaas/mutation.go: UpdateBlock and DeleteBlock, with their checks.
pub mod Laws
pub mod Checks
use rpaas_operator.Prelude.{
  String, ◌≡◌, ◌↔◌, Bool, true, false, not, ◌&&◌, ◌||◌, List, Option, none, some, arith, eq_iff,
  ◌==◌, if◌then◌else◌, is_none, ltb, byte_length, trim_prefix,
}
use rpaas_operator.Prelude.Keyed.{Keyed, find, store, remove, drop_key}
use rpaas_operator.Errors.{validation, not_found}
use rpaas_operator.Result.{Result, ok, err, ◌>>=◌, ◌>>◌, reject_if}
use rpaas_operator.Api.{BlockType, Value, ServerBlock, RpaasInstanceSpec}
use rpaas_operator.Client.{RpaasConfig}
use rpaas_operator.Manager.{Manager, modify}
use rpaas_operator.Mutation.{inline, validate_content, in_spec}

pub record ConfigurationBlock : Type 0 where
  pub name : String
  pub content : String
  pub server_name : String
  pub extend : Bool

abbrev pub block_type_root : BlockType
block_type_root = "root"

abbrev pub block_type_http : BlockType
block_type_http = "http"

abbrev pub block_type_server : BlockType
block_type_server = "server"

abbrev pub block_type_lua_server : BlockType
block_type_lua_server = "lua-server"

abbrev pub block_type_lua_worker : BlockType
block_type_lua_worker = "lua-worker"

unfoldable pub is_block_type_allowed : BlockType → Bool
is_block_type_allowed bt =
    bt == block_type_root
    || bt == block_type_server
    || bt == block_type_http
    || bt == block_type_lua_server
    || bt == block_type_lua_worker

-- The map `Blocks`, and the slice `ServerBlocks` as `hasServerBlock` searches it.
abbrev pub blocks : Keyed BlockType (BlockType × Value)
blocks = record {
  key = λ entry. entry.0;
  test = λ bt entry. entry.0 == bt;
  test_iff = λ bt entry. eq_iff entry.0 bt;
}

abbrev pub is_server_block : String × BlockType → ServerBlock → Bool
is_server_block k block = block.server_name == k.0 && block.type == k.1

pub is_server_block_iff :
    (k : String × BlockType) (block : ServerBlock)
    → (is_server_block k block ≡ true) ↔ ((block.server_name, block.type) ≡ k)
is_server_block_iff (server_name, bt) block =
    ground (arith, eq_iff block.server_name server_name, eq_iff block.type bt)

abbrev pub server_blocks : Keyed (String × BlockType) ServerBlock
server_blocks = record {
  key = λ block. (block.server_name, block.type);
  test = is_server_block;
  test_iff = is_server_block_iff;
}

-- validation.IsDNS1123Subdomain of k8s.io/apimachinery is a parameter: it finds no fault in the text.
module _ (is_dns1123_subdomain : String → Bool) (config : RpaasConfig) where
  -- What `validateBlock` asks of a block that has a server name.
  unfoldable pub validate_server_name : ConfigurationBlock → Result (Unit {0})
  validate_server_name block = do
    reject_if (not (block.name == block_type_server))
        (validation "serverName is only allowed for server block")
    reject_if (ltb 64 (byte_length block.server_name))
        (validation "serverName must be less than 64 characters")
    reject_if (not (is_dns1123_subdomain (trim_prefix block.server_name "*.")))
        (validation "serverName must be a valid DNS-1123 domain")
    ok tt

  unfoldable pub validate_block : ConfigurationBlock → Result (Unit {0})
  validate_block block = do
    reject_if (not (is_block_type_allowed block.name)) (validation "block %q is not allowed")
    reject_if (block.content == "") (validation "content is required")
    validate_content config.config_deny_patterns block.content
    if block.server_name == "" then ok tt else validate_server_name block

  unfoldable pub update_block : ConfigurationBlock → RpaasInstanceSpec → Result RpaasInstanceSpec
  update_block block spec = do
    validate_block block
    let server_block : ServerBlock = record {
      server_name = block.server_name;
      type = block.name;
      content = some (inline block.content);
      extend = block.extend;
    }
    if block.server_name == ""
        then ok
            (record spec { blocks = store blocks (block.name, inline block.content) spec.blocks })
        else ok
            (record spec { server_blocks = store server_blocks server_block spec.server_blocks })

unfoldable pub delete_block : String → String → RpaasInstanceSpec → Result RpaasInstanceSpec
delete_block server_name block_name spec =
    if server_name == ""
    then (if is_none (find blocks block_name spec.blocks)
        then err (not_found "block %q not found")
        else ok (record spec { blocks = drop_key blocks block_name spec.blocks }))
    else elim (remove server_blocks (server_name, block_name) spec.server_blocks) [
      | none ↦ err (not_found "block %q with serverName %q not found")
      | some rest ↦ ok (record spec { server_blocks = rest })
    ]

module _ (m : Manager) where
  unfoldable pub manager_update_block :
      (String → Bool) → String → ConfigurationBlock → m.cli.World → Result (Unit {0}) × m.cli.World
  manager_update_block is_dns1123_subdomain instance_name block =
      modify m instance_name (in_spec (update_block is_dns1123_subdomain m.config block))

  unfoldable pub manager_delete_block :
      String → String → String → m.cli.World → Result (Unit {0}) × m.cli.World
  manager_delete_block instance_name server_name block_name =
      modify m instance_name (in_spec (delete_block server_name block_name))
