-- ===== src/Upstream/Invariant.antt =====
-- When the stored upstream options make sense together: what EnsureUpstreamOptions is there to keep.
use rpaas_operator.Prelude.{
  String, ◌≡◌, ◌≤◌, true, false, ◌&&◌, List, [], some, length, contains, ltb, ◌==◌,
}
use rpaas_operator.Prelude.Keyed.{find, Distinct}
use rpaas_operator.Api.{UpstreamOptions, load_balance_consistent_hash}
use rpaas_operator.Upstream.Options.{
  by_primary, is_given, has_traffic_shaping_policy, is_load_balance_valid,
}

-- What one option promises by itself.
pub record IsSound (uo : UpstreamOptions) : Type 0 where
  -- At most one canary.
  pub one_canary : length uo.canary_binds ≤ 1
  -- The bind with the canary leaves the choice of traffic to it.
  pub quiet :
      (ltb 0 (length uo.canary_binds) && has_traffic_shaping_policy uo.traffic_shaping_policy)
      ≡ false
  -- Not both a header value and a pattern.
  pub one_header :
      (is_given uo.traffic_shaping_policy.header_value
        && is_given uo.traffic_shaping_policy.header_pattern)
      ≡ false
  -- A known algorithm, with a hash key exactly for consistent hashing.
  pub known_balance : is_load_balance_valid uo.load_balance ≡ true
  pub hash_key :
      is_given uo.load_balance_hash_key ≡ (uo.load_balance == load_balance_consistent_hash)

pub record IsWellFormed (options : List UpstreamOptions) : Type 0 where
  -- One option for each primary bind.
  pub distinct : Distinct by_primary options
  pub sound : (b : String) (uo : UpstreamOptions) → find by_primary b options ≡ some uo → IsSound uo
  -- A canary has an option, and no canaries of its own.
  pub no_chain :
      (b c : String) (uo : UpstreamOptions)
      → find by_primary b options ≡ some uo
      → contains uo.canary_binds c ≡ true
      → (target : UpstreamOptions) × (find by_primary c options ≡ some target)
        × (target.canary_binds ≡ [])
  -- A bind is the canary of one option at most.
  pub one_parent :
      (a b c : String) (uo other : UpstreamOptions)
      → find by_primary a options ≡ some uo
      → find by_primary b options ≡ some other
      → contains uo.canary_binds c ≡ true
      → contains other.canary_binds c ≡ true
      → a ≡ b
