-- ===== src/Quota/Limits/Tests.antt =====
-- Limits looked up, and the inputs at which their theorem is applied.
use acemcp_relay.Prelude.{◌+◌, ◌≡◌, refl, none, some, ℕ, Option, Text, bytes, text_beq, arith, ◌≤◌}
use acemcp_relay.Prelude.Int.{ℤ, pos}
use acemcp_relay.Strings.Decimal.{format_int}
use acemcp_relay.Quota.Limits.{
  Query, found, absent, Defaults, tier_pro, tier_free, normalize_tier, tier_daily_request_limit,
  quota_cache_ttl, plan_cache_ttl, Plan, limit_of_plan, limit_of_user, cached_or,
  get_user_daily_limit,
}
use acemcp_relay.Quota.Limits.Coherence.{IsInherited, get_user_daily_limit_coherent}

limits : Unit {0}
unfolding bytes text_beq tier_pro tier_free normalize_tier tier_daily_request_limit plan_cache_ttl
    limit_of_plan limit_of_user cached_or get_user_daily_limit format_int
limits = tt

abbrev pub defaults : Defaults
defaults = record {
  default_daily_request_limit = pos 100;
  pro_daily_request_limit = pos 1000;
  daily_index_bytes_limit = pos 5000;
  pro_daily_index_bytes_limit = pos 50000;
}

abbrev plan : Plan
plan = record { request = pos 42; index_bytes = pos 7; expires_at = 1060 }

-- A plan that ends in a minute and is cached for a minute.
get_user_daily_limit_coherent_example :
    ((now : ℕ) (tier : Text) (override : Query (Option ℤ)) (other : Query Plan)
      → get_user_daily_limit defaults now tier (some (format_int (pos 42))) override other
        ≡ record { value = pos 42; stored = none })
    × (60 ≤ quota_cache_ttl)
    × ((p : Plan) → found plan ≡ found p → IsInherited absent → 1000 + 60 ≤ p.expires_at)
unfolding limits
get_user_daily_limit_coherent_example =
    get_user_daily_limit_coherent defaults 1000 (bytes "free") none absent (found plan)
      (format_int (pos 42)) 60 refl (omega arith)
