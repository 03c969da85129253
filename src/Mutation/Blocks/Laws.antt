-- ===== src/Mutation/Blocks/Laws.antt =====
-- What UpdateBlock and DeleteBlock do to the blocks that an instance has.
use mathlib.Core.Option
use mathlib.Core.Path.{subst}
use rpaas_operator.Prelude.{
  String, ◌≡◌, ◌≢◌, ◌⊎◌, inl, inr, sym, ap, Bool, true, false, List, Option, none, some, arith,
  eq_iff, ◌==◌, if◌then◌else◌, Bool-cases, Option-cases, is_some,
}
use rpaas_operator.Prelude.Keyed.{find, store, remove, drop_key, Distinct}
use rpaas_operator.Prelude.Keyed.Laws.{
  find-store_self, find-store_ne, find-drop_key_self, find-drop_key_ne, find-remove_self,
  find-remove_ne, remove-none_iff,
}
use rpaas_operator.Result.{ok, is_ok, >>=-eq-ok}
use rpaas_operator.Api.{Value, ServerBlock, RpaasInstanceSpec}
use rpaas_operator.Client.{RpaasConfig}
use rpaas_operator.Mutation.{inline}
use rpaas_operator.Mutation.Blocks.{
  ConfigurationBlock, blocks, server_blocks, validate_block, update_block, delete_block,
}

-- What an instance has as the block of a server name (empty for the blocks of no server) and a
-- type: its content, and whether it extends the default one.
unfoldable pub block_at : RpaasInstanceSpec → String → String → Option (Option Value × Bool)
block_at spec server_name name =
    if server_name == ""
    then Option.map (λ entry. (some entry.1, false)) (find blocks name spec.blocks)
    else Option.map (λ block. (block.content, block.extend))
        (find server_blocks (server_name, name) spec.server_blocks)

-- Only the blocks of the spec differ.
abbrev pub OnlyBlocks : RpaasInstanceSpec → RpaasInstanceSpec → Type 0
OnlyBlocks s t = t ≡ record s { blocks = t.blocks; server_blocks = t.server_blocks }

-- The block that UpdateBlock stores: a block of no server is never marked as an extension.
abbrev pub written : ConfigurationBlock → Option Value × Bool
written block =
    (some (inline block.content), if block.server_name == "" then false else block.extend)

abbrev pub server_block_of : ConfigurationBlock → ServerBlock
server_block_of block = record {
  server_name = block.server_name;
  type = block.name;
  content = some (inline block.content);
  extend = block.extend;
}

abbrev pub stored : ConfigurationBlock → RpaasInstanceSpec → RpaasInstanceSpec
stored block s =
    if block.server_name == ""
    then record s { blocks = store blocks (block.name, inline block.content) s.blocks }
    else record s { server_blocks = store server_blocks (server_block_of block) s.server_blocks }

pub update_block-ok :
    (is_domain : String → Bool) (config : RpaasConfig) (block : ConfigurationBlock)
    (s t : RpaasInstanceSpec)
    → update_block is_domain config block s ≡ ok t
    → (validate_block is_domain config block ≡ ok tt) × (t ≡ stored block s)
unfolding update_block
update_block-ok is_domain config block s t h =
    let (u, valid, rest) = >>=-eq-ok (validate_block is_domain config block) _ h in
    (valid, ground arith)

module _ (block : ConfigurationBlock) (s : RpaasInstanceSpec) where
  block_at-stored_self :
      block_at (stored block s) block.server_name block.name ≡ some (written block)
  unfolding block_at
  block_at-stored_self = elim (Bool-cases (block.server_name == "")) [
    | inl e ↦ rw e (rw (find-store_self blocks (block.name, inline block.content) s.blocks))
    | inr e ↦ rw e (rw (find-store_self server_blocks (server_block_of block) s.server_blocks))
  ]

  block_at-stored_ne :
      (server_name name : String)
      → (server_name ≢ block.server_name) ⊎ (name ≢ block.name)
      → block_at (stored block s) server_name name ≡ block_at s server_name name
  unfolding block_at
  block_at-stored_ne server_name name d = ground (
    arith,
    eq_iff block.server_name "",
    eq_iff server_name "",
    find-store_ne blocks name (block.name, inline block.content) s.blocks,
    find-store_ne server_blocks (server_name, name) (server_block_of block) s.server_blocks,
    other_key,
  )
    where
      other_key : ◌≢◌ {A = String × String} (server_name, name) (block.server_name, block.name)
      other_key e = elim d [ inl p ↦ p (ap (λ k. k.0) e) | inr p ↦ p (ap (λ k. k.1) e) ]

-- After a successful UpdateBlock the block stands under its server name and type, and every other
-- block, and the rest of the spec, is as before.
pub update_block-effect :
    (is_domain : String → Bool) (config : RpaasConfig) (block : ConfigurationBlock)
    (s t : RpaasInstanceSpec)
    → update_block is_domain config block s ≡ ok t
    → (block_at t block.server_name block.name ≡ some (written block))
      × ((server_name name : String)
          → (server_name ≢ block.server_name) ⊎ (name ≢ block.name)
          → block_at t server_name name ≡ block_at s server_name name)
      × OnlyBlocks s t
update_block-effect is_domain config block s t h =
    subst
      (λ t.
        (block_at t block.server_name block.name ≡ some (written block))
        × ((server_name name : String)
            → (server_name ≢ block.server_name) ⊎ (name ≢ block.name)
            → block_at t server_name name ≡ block_at s server_name name)
        × OnlyBlocks s t)
      (sym (update_block-ok is_domain config block s t h).1)
      (block_at-stored_self block s, block_at-stored_ne block s, only)
  where
    only : OnlyBlocks s (stored block s)
    only = ground arith

-- The block is gone; every other block, and the rest of the spec, is as before.
abbrev pub Gone : String → String → RpaasInstanceSpec → RpaasInstanceSpec → Type 0
Gone server_name name s t =
    (block_at t server_name name ≡ none)
    × ((other_server other : String)
        → (other_server ≢ server_name) ⊎ (other ≢ name)
        → block_at t other_server other ≡ block_at s other_server other)
    × OnlyBlocks s t

pub delete_block-ok :
    (server_name name : String) (s t : RpaasInstanceSpec)
    → delete_block server_name name s ≡ ok t
    → (((server_name == "") ≡ true) × (t ≡ record s { blocks = drop_key blocks name s.blocks }))
      ⊎ (((server_name == "") ≡ false)
          × (rest : List ServerBlock) × (remove server_blocks (server_name, name) s.server_blocks
              ≡ some rest)
          × (t ≡ record s { server_blocks = rest }))
unfolding delete_block
delete_block-ok server_name name s t h = elim (Bool-cases (server_name == "")) [
  | inl e ↦ inl (e, ground arith)
  | inr e ↦ elim (Option-cases (remove server_blocks (server_name, name) s.server_blocks)) [
    | inl n ↦ cc (rw (e, n) at h)
    | inr (rest, r) ↦ inr (e, rest, r, cc (rw (e, r) at h))
  ]
]

drop_key-Gone :
    (server_name name : String) (s : RpaasInstanceSpec)
    → (server_name == "") ≡ true
    → Gone server_name name s (record s { blocks = drop_key blocks name s.blocks })
unfolding block_at
drop_key-Gone server_name name s e = (
  rw e (rw (find-drop_key_self blocks name s.blocks)),
  λ other_server other d. ground (
    arith,
    eq_iff server_name "",
    eq_iff other_server "",
    find-drop_key_ne blocks other name s.blocks,
  ),
  ground arith,
)

remove-Gone :
    (server_name name : String) (s : RpaasInstanceSpec) (rest : List ServerBlock)
    → (server_name == "") ≡ false
    → Distinct server_blocks s.server_blocks
    → remove server_blocks (server_name, name) s.server_blocks ≡ some rest
    → Gone server_name name s (record s { server_blocks = rest })
unfolding block_at
remove-Gone server_name name s rest e d r = (
  rw e (rw (find-remove_self server_blocks (server_name, name) s.server_blocks rest d r)),
  λ other_server other ne. ground (
    arith,
    find-remove_ne server_blocks (other_server, other) (server_name, name) s.server_blocks rest
        (λ q. elim ne [
          | inl p ↦ p (ap (λ (k : String × String). k.0) q)
          | inr p ↦ p (ap (λ (k : String × String). k.1) q)
        ])
        r,
  ),
  ground arith,
)

-- A successful DeleteBlock takes the block away, and leaves every other block, and the rest of the
-- spec, as before, if no two server blocks have one server name and type.
pub delete_block-Gone :
    (server_name name : String) (s t : RpaasInstanceSpec)
    → delete_block server_name name s ≡ ok t
    → Distinct server_blocks s.server_blocks
    → Gone server_name name s t
delete_block-Gone server_name name s t h d = elim (delete_block-ok server_name name s t h) [
  | inl (e, same) ↦ subst (Gone server_name name s) (sym same) (drop_key-Gone server_name name s e)
  | inr (e, rest, r, same) ↦
      subst (Gone server_name name s) (sym same) (remove-Gone server_name name s rest e d r)
]

-- DeleteBlock is refused exactly where there is no such block.
pub delete_block-is_ok :
    (server_name name : String) (s : RpaasInstanceSpec)
    → is_ok (delete_block server_name name s) ≡ is_some (block_at s server_name name)
unfolding delete_block block_at
delete_block-is_ok server_name name s =
    ground (arith, remove-none_iff server_blocks (server_name, name) s.server_blocks)
