-- ===== src/Mutation/Invariant.antt =====
-- The invariant of a spec whose blocks, routes and binds were written by the changes of mutation.go.
use mathlib.Core.Path.{subst}
use rpaas_operator.Prelude.{
  String, ◌≡◌, ◌≢◌, ◌⊎◌, inl, inr, sym, ◌∙◌, Bool, true, false, Option, none, some, arith, eq_iff,
  ◌==◌, if◌then◌else◌, Bool-cases, clash, has_prefix,
}
use rpaas_operator.Prelude.Keyed.{find, Distinct}
use rpaas_operator.Prelude.Keyed.Laws.{
  store-Distinct, remove-Distinct, store_fresh, find-store_cases, find-remove_old,
}
use rpaas_operator.Result.{Result, ok}
use rpaas_operator.Api.{Value, Bind, Location, RpaasInstanceSpec}
use rpaas_operator.Client.{RpaasConfig}
use rpaas_operator.Mutation.{inline}
use rpaas_operator.Mutation.Blocks.{
  ConfigurationBlock, server_blocks, is_block_type_allowed, block_type_server, update_block,
  delete_block,
}
use rpaas_operator.Mutation.Blocks.Checks.{validate_block_iff}
use rpaas_operator.Mutation.Blocks.Laws.{
  block_at, stored, update_block-ok, update_block-effect, delete_block-ok, delete_block-Gone,
}
use rpaas_operator.Mutation.Routes.{Route, locations, location_of, update_route, delete_route}
use rpaas_operator.Mutation.Routes.Laws.{IsRouteValid, update_route-ok, delete_route-ok}
use rpaas_operator.Mutation.Binds.{BindAppArgs, Url, by_host, bind_app, unbind_app}
use rpaas_operator.Mutation.Binds.Laws.{bind_app-ok, unbind_app-ok, remove-Distinct_hosts}

-- A path from the root, and either a destination, or a content without redirection to https.
abbrev pub IsLocationSound : Location → Type 0
IsLocationSound l =
    (has_prefix l.path "/" ≡ true)
    × (((l.content ≡ none) × (l.destination ≢ ""))
        ⊎ (((v : Value) × (l.content ≡ some v)) × (l.destination ≡ "") × (l.force_https ≡ false)))

pub record IsWellFormed (s : RpaasInstanceSpec) : Type 0 where
  pub distinct_server_blocks : Distinct server_blocks s.server_blocks
  pub distinct_locations : Distinct locations s.locations
  -- No host is bound twice.
  pub distinct_hosts : Distinct by_host s.binds
  -- Every block has an allowed type, and a block of a server name is a server block.
  pub allowed :
      (server_name name : String) (v : Option Value × Bool)
      → block_at s server_name name ≡ some v
      → (is_block_type_allowed name ≡ true) × ((server_name ≡ "") ⊎ (name ≡ block_type_server))
  pub sound :
      (k : String × String) (l : Location)
      → find locations k s.locations ≡ some l
      → IsLocationSound l

same_key : (a b c d : String) → ((a ≡ c) × (b ≡ d)) ⊎ ((a ≢ c) ⊎ (b ≢ d))
same_key a b c d = elim (Bool-cases (a == c)) [
  | inl p ↦ elim (Bool-cases (b == d)) [
    | inl q ↦ inl ((eq_iff a c).0 p, (eq_iff b d).0 q)
    | inr q ↦ inr (inr (λ e. clash q ((eq_iff b d).1 e)))
  ]
  | inr p ↦ inr (inl (λ e. clash p ((eq_iff a c).1 e)))
]

stored-Distinct :
    (block : ConfigurationBlock) (s : RpaasInstanceSpec)
    → Distinct server_blocks s.server_blocks
    → Distinct server_blocks (stored block s).server_blocks
stored-Distinct block s d = elim (Bool-cases (block.server_name == "")) [
  | inl e ↦ rw e d
  | inr e ↦ rw e (store-Distinct server_blocks _ s.server_blocks d)
]

location_of-IsLocationSound :
    (config : RpaasConfig) (r : Route) → IsRouteValid config r → IsLocationSound (location_of r)
unfolding location_of
location_of-IsLocationSound config r (rooted, inl (plain, given)) =
    (rooted, inl (rw ((eq_iff r.content "").1 plain), given))
location_of-IsLocationSound config r (rooted, inr (given, plain, http, _)) =
    (rooted, inr ((inline r.content, filled), plain, http))
  where
    filled : (if r.content == "" then none else some (inline r.content)) ≡ some (inline r.content)
    filled = ground (arith, eq_iff r.content "")

module _ (is_domain : String → Bool) (config : RpaasConfig) where
  block_is_allowed :
      (block : ConfigurationBlock) (s t : RpaasInstanceSpec)
      → update_block is_domain config block s ≡ ok t
      → (is_block_type_allowed block.name ≡ true)
        × ((block.server_name ≡ "") ⊎ (block.name ≡ block_type_server))
  block_is_allowed block s t h =
      let (valid, _) = update_block-ok is_domain config block s t h in
      let (known, _, _, server) = (validate_block_iff is_domain config block).0 (rw valid) in
      (known, elim server [ inl e ↦ inl e | inr v ↦ inr v.0 ])

  pub update_block-IsWellFormed :
      (block : ConfigurationBlock) (s t : RpaasInstanceSpec)
      → update_block is_domain config block s ≡ ok t
      → IsWellFormed s
      → IsWellFormed t
  update_block-IsWellFormed block s t h w =
      let (_, stored) = update_block-ok is_domain config block s t h in
      let (now, rest, only) = update_block-effect is_domain config block s t h in
      record {
        distinct_server_blocks =
            subst (λ t. Distinct server_blocks t.server_blocks) (sym stored)
              (stored-Distinct block s w.distinct_server_blocks);
        distinct_locations = rw only w.distinct_locations;
        distinct_hosts = rw only w.distinct_hosts;
        allowed = λ server_name name v f.
            elim (same_key server_name name block.server_name block.name) [
              | inl (p, q) ↦ rw (p, q) (block_is_allowed block s t h)
              | inr d ↦ w.allowed server_name name v (sym (rest server_name name d) ∙ f)
            ];
        sound = λ k l f. w.sound k l (rw only at f);
      }

  pub delete_block-IsWellFormed :
      (server_name name : String) (s t : RpaasInstanceSpec)
      → delete_block server_name name s ≡ ok t
      → IsWellFormed s
      → IsWellFormed t
  delete_block-IsWellFormed server_name name s t h w =
      let (gone, rest, only) = delete_block-Gone server_name name s t h w.distinct_server_blocks in
      record {
        distinct_server_blocks = elim (delete_block-ok server_name name s t h) [
          | inl (_, same) ↦ rw same w.distinct_server_blocks
          | inr (_, left, r, same) ↦ rw same (
              remove-Distinct server_blocks (server_name, name) s.server_blocks left
                w.distinct_server_blocks r)
        ];
        distinct_locations = rw only w.distinct_locations;
        distinct_hosts = rw only w.distinct_hosts;
        allowed = λ server other v f. elim (same_key server other server_name name) [
          | inl (p, q) ↦ cc (gone, rw (p, q) at f)
          | inr d ↦ w.allowed server other v (sym (rest server other d) ∙ f)
        ];
        sound = λ k l f. w.sound k l (rw only at f);
      }

  pub update_route-IsWellFormed :
      (r : Route) (s t : RpaasInstanceSpec)
      → update_route config r s ≡ ok t
      → IsWellFormed s
      → IsWellFormed t
  unfolding block_at
  update_route-IsWellFormed r s t h w =
      let (valid, same) = update_route-ok config r s t h in
      subst IsWellFormed (sym same) (record {
        distinct_server_blocks = w.distinct_server_blocks;
        distinct_locations =
            store-Distinct locations (location_of r) s.locations w.distinct_locations;
        distinct_hosts = w.distinct_hosts;
        allowed = w.allowed;
        sound = λ k l f. elim (find-store_cases locations k (location_of r) s.locations l f) [
          | inl (_, is) ↦
              subst IsLocationSound (sym is) (location_of-IsLocationSound config r valid)
          | inr (_, old) ↦ w.sound k l old
        ];
      })

pub delete_route-IsWellFormed :
    (server_name path : String) (s t : RpaasInstanceSpec)
    → delete_route server_name path s ≡ ok t
    → IsWellFormed s
    → IsWellFormed t
unfolding block_at
delete_route-IsWellFormed server_name path s t h w =
    let (left, r, same) = delete_route-ok server_name path s t h in
    subst IsWellFormed (sym same) (record {
      distinct_server_blocks = w.distinct_server_blocks;
      distinct_locations =
          remove-Distinct locations (server_name, path) s.locations left w.distinct_locations r;
      distinct_hosts = w.distinct_hosts;
      allowed = w.allowed;
      sound = λ k l f. w.sound k l (
          find-remove_old locations k (server_name, path) s.locations left l w.distinct_locations r
            f);
    })

pub bind_app-IsWellFormed :
    (parse : String → Result Url) (args : BindAppArgs) (internal : Bool) (s t : RpaasInstanceSpec)
    → bind_app parse args internal s ≡ ok t
    → IsWellFormed s
    → IsWellFormed t
unfolding block_at
bind_app-IsWellFormed parse args internal s t h w =
    let (host, _, fresh, same) = bind_app-ok parse args internal s t h in
    let bind : Bind = record { name = args.app_name; host = host } in
    subst IsWellFormed (sym same) (record {
      distinct_server_blocks = w.distinct_server_blocks;
      distinct_locations = w.distinct_locations;
      distinct_hosts =
          subst (Distinct by_host) (store_fresh by_host bind s.binds fresh)
            (store-Distinct by_host bind s.binds w.distinct_hosts);
      allowed = w.allowed;
      sound = w.sound;
    })

pub unbind_app-IsWellFormed :
    (app_name : String) (s t : RpaasInstanceSpec)
    → unbind_app app_name s ≡ ok t
    → IsWellFormed s
    → IsWellFormed t
unfolding block_at
unbind_app-IsWellFormed app_name s t h w =
    let (_, left, r, same) = unbind_app-ok app_name s t h in
    subst IsWellFormed (sym same) (record {
      distinct_server_blocks = w.distinct_server_blocks;
      distinct_locations = w.distinct_locations;
      distinct_hosts = remove-Distinct_hosts app_name s.binds left r w.distinct_hosts;
      allowed = w.allowed;
      sound = w.sound;
    })
