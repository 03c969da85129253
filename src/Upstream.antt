-- ===== src/Upstream.antt =====
-- internal/pkg/rpaas/upstream.go: the hosts that an instance may proxy to (here), and how the traffic
-- of its binds is split (Options).
pub mod Options
pub mod Operations
pub mod Invariant
pub mod Allowed
mod Tests
use rpaas_operator.Prelude.{
  String, refl, Bool, true, false, ◌&&◌, List, [], ◌∷◌, ◌++◌, Option, none, some, arith, eq_iff,
  ◌==◌, is_some, ◌↔◌, ◌≡◌,
}
use rpaas_operator.Prelude.Int.{eqb_ℤ}
use rpaas_operator.Prelude.Keyed.{Keyed, find, remove}
use rpaas_operator.Errors.{validation, conflict, not_found}
use rpaas_operator.Result.{Result, ok, err, ◌>>=◌, ◌>>◌, reject_if}
use rpaas_operator.Api.{AllowedUpstream, RpaasInstance}
use rpaas_operator.Manager.{Manager, get_instance, modify}

-- Two upstreams are the same if host and port are.
abbrev pub is_upstream : AllowedUpstream → AllowedUpstream → Bool
is_upstream k u = u.host == k.host && eqb_ℤ u.port k.port

pub is_upstream_iff : (k u : AllowedUpstream) → (is_upstream k u ≡ true) ↔ (u ≡ k)
is_upstream_iff k u = ground (arith, eq_iff u.host k.host)

abbrev pub upstreams : Keyed AllowedUpstream AllowedUpstream
upstreams = record { key = λ u. u; test = is_upstream; test_iff = is_upstream_iff }

-- What AddUpstream does to the instance that it has read.
unfoldable pub with_upstream : AllowedUpstream → RpaasInstance → Result RpaasInstance
with_upstream upstream i = do
  reject_if (upstream.host == "") (validation "cannot add an upstream with empty host")
  let known = i.spec.allowed_upstreams
  reject_if (is_some (find upstreams upstream known))
      (conflict "upstream already present in instance: %s")
  ok (record i { spec = record (i.spec) { allowed_upstreams = known ++ upstream ∷ [] } })

-- What DeleteUpstream does to the instance that it has read.
unfoldable pub without_upstream : AllowedUpstream → RpaasInstance → Result RpaasInstance
without_upstream upstream i = elim (remove upstreams upstream i.spec.allowed_upstreams) [
  | none ↦ err (not_found "upstream not found inside list of allowed upstreams of %s")
  | some rest ↦ ok (record i { spec = record (i.spec) { allowed_upstreams = rest } })
]

module _ (m : Manager) where
  unfoldable pub add_upstream :
      String → AllowedUpstream → m.cli.World → Result (Unit {0}) × m.cli.World
  add_upstream instance_name upstream = modify m instance_name (with_upstream upstream)

  unfoldable pub get_upstreams : String → m.cli.World → Result (List AllowedUpstream)
  get_upstreams instance_name w = do i ← get_instance m instance_name w; ok i.spec.allowed_upstreams

  unfoldable pub delete_upstream :
      String → AllowedUpstream → m.cli.World → Result (Unit {0}) × m.cli.World
  delete_upstream instance_name upstream = modify m instance_name (without_upstream upstream)
