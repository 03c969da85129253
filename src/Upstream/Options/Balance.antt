-- ===== src/Upstream/Options/Balance.antt =====
-- The default of the weight total.
use rpaas_operator.Prelude.{ℕ, ◌≡◌, arith}
use rpaas_operator.Prelude.Int.{pos, ◌≤ℤ◌, ◌<ℤ◌, scale_int64}
use rpaas_operator.Api.{TrafficShapingPolicy}
use rpaas_operator.Upstream.Options.{apply_traffic_shaping_policy_defaults}

-- The largest weight of which ten times is a 64-bit integer.
abbrev pub max_scaled_weight : ℕ
max_scaled_weight = 922337203685477580

-- A positive weight with no total gets a total that is no less than the weight, as long as ten
-- times the weight is a 64-bit integer.
pub default_total_bounds :
    (p : TrafficShapingPolicy)
    → pos 0 <ℤ p.weight
    → p.weight_total ≡ pos 0
    → p.weight ≤ℤ pos max_scaled_weight
    → (p.weight ≤ℤ (apply_traffic_shaping_policy_defaults p).weight_total)
      × (pos 100 ≤ℤ (apply_traffic_shaping_policy_defaults p).weight_total)
unfolding apply_traffic_shaping_policy_defaults scale_int64
default_total_bounds p h t b = ground arith

-- Beyond that the product wraps around: for these weights the total is negative.
pub default_total_overflow :
    (p : TrafficShapingPolicy)
    → pos max_scaled_weight <ℤ p.weight
    → p.weight ≤ℤ pos 1844674407370955161
    → p.weight_total ≡ pos 0
    → (apply_traffic_shaping_policy_defaults p).weight_total <ℤ pos 0
unfolding apply_traffic_shaping_policy_defaults scale_int64
default_total_overflow p h b t = ground arith
