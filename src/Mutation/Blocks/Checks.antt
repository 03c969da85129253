-- ===== src/Mutation/Blocks/Checks.antt =====
-- What UpdateBlock accepts.
use rpaas_operator.Prelude.{
  String, ◌≡◌, ◌≢◌, ◌↔◌, ◌⊎◌, ◌≤◌, refl, Bool, true, false, not, List, [], ◌∷◌, arith, eq_iff,
  if◌then◌else◌, byte_length, trim_prefix,
}
use rpaas_operator.Result.{is_ok}
use rpaas_operator.Client.{RpaasConfig}
use rpaas_operator.Mutation.{validate_content}
use rpaas_operator.Mutation.Blocks.{
  ConfigurationBlock, is_block_type_allowed, validate_block, validate_server_name,
  block_type_server,
}

-- Some deny pattern matches the content.
unfoldable pub is_denied : List (String → Bool) → String → Bool
is_denied [] content = false
is_denied (p ∷ patterns) content =
    let rest = is_denied patterns content in if p content then true else rest

pub validate_content-is_ok :
    (patterns : List (String → Bool)) (content : String)
    → is_ok (validate_content patterns content) ≡ not (is_denied patterns content)
unfolding validate_content is_denied
validate_content-is_ok [] content = refl
validate_content-is_ok (p ∷ patterns) content =
    ground (arith, validate_content-is_ok patterns content)

module _ (is_dns1123_subdomain : String → Bool) (config : RpaasConfig) where
  -- The server name is for a server block, short, and a domain but for a leading wildcard.
  abbrev pub IsServerNameValid : ConfigurationBlock → Type 0
  IsServerNameValid block =
      (block.name ≡ block_type_server)
      × (byte_length block.server_name ≤ 64)
      × (is_dns1123_subdomain (trim_prefix block.server_name "*.") ≡ true)

  validate_server_name_iff :
      (block : ConfigurationBlock)
      → (is_ok (validate_server_name is_dns1123_subdomain config block) ≡ true)
        ↔ IsServerNameValid block
  unfolding validate_server_name
  validate_server_name_iff block = ground (arith, eq_iff block.name block_type_server)

  -- validateBlock accepts a block exactly if its type is allowed, its content is given and passes
  -- the deny patterns, and its server name, if there is one, is valid.
  pub validate_block_iff :
      (block : ConfigurationBlock)
      → (is_ok (validate_block is_dns1123_subdomain config block) ≡ true) ↔ (
          (is_block_type_allowed block.name ≡ true)
          × (block.content ≢ "")
          × (is_denied config.config_deny_patterns block.content ≡ false)
          × ((block.server_name ≡ "") ⊎ IsServerNameValid block))
  unfolding validate_block
  validate_block_iff block = ground (
    arith,
    eq_iff block.content "",
    eq_iff block.server_name "",
    validate_content-is_ok config.config_deny_patterns block.content,
    validate_server_name_iff block,
  )
