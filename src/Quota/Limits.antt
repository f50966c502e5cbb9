-- ===== src/Quota/Limits.antt =====
-- quota.go: the limits that a request is checked against, from their caches in Redis, the tables
-- `user_quotas`, `user_subscriptions`, `org_member_quotas` and `org_quotas`, and the configured
-- defaults. A lookup's answers are its inputs: what GET gave (`none` for a miss or an error) and
-- what each query gave. Its result holds what it stores with SET. A time is in milliseconds.
pub mod Coherence
pub mod Tests
use acemcp_relay.Prelude.{
  ℕ, ◌-◌, Bool, true, false, not, ◌&&◌, ◌||◌, List, [], ◌∷◌, ◌++◌, Option, none, some, text_eq,
  Text, bytes, ◌==◌, ltb, leb, if◌then◌else◌,
}
use acemcp_relay.Prelude.Int.{ℤ, pos}
use acemcp_relay.Strings.{trim_space, split}
use acemcp_relay.Strings.Decimal.{format_int, parse_int}

-- A query of one row: the row, sql.ErrNoRows, or another error. Without a database,
-- `getUserIndexBytesLimit` answers as it does to an error.
pub data Query {ℓ} (A : Type ℓ) : Type ℓ where
  found : A → Query A
  absent : Query A
  failed : Query A

-- DEFAULT_* and PRO_* of the configuration.
pub record Defaults : Type 0 where
  pub default_daily_request_limit : ℤ
  pub pro_daily_request_limit : ℤ
  pub daily_index_bytes_limit : ℤ
  pub pro_daily_index_bytes_limit : ℤ

unfoldable pub tier_pro : Text
unfolding bytes
tier_pro = bytes "pro"

unfoldable pub tier_free : Text
unfolding bytes
tier_free = bytes "free"

-- `normalizeTier`
unfoldable pub normalize_tier : Text → Text
normalize_tier tier = if trim_space tier == tier_pro then tier_pro else tier_free

-- `tierDailyRequestLimit`
unfoldable pub tier_daily_request_limit : Defaults → Text → ℤ
tier_daily_request_limit d tier =
    if normalize_tier tier == tier_pro
    then d.pro_daily_request_limit
    else d.default_daily_request_limit

-- `tierIndexBytesLimit`
unfoldable pub tier_index_bytes_limit : Defaults → Text → ℤ
tier_index_bytes_limit d tier =
    if normalize_tier tier == tier_pro
    then d.pro_daily_index_bytes_limit
    else d.daily_index_bytes_limit

-- `quotaCacheTTL`, five minutes.
abbrev pub quota_cache_ttl : ℕ
quota_cache_ttl = 300000

-- `planCacheTTL`
unfoldable pub plan_cache_ttl : ℕ → ℕ → ℕ
plan_cache_ttl now expires_at =
    if leb expires_at now
    then 0
    else if ltb (expires_at - now) quota_cache_ttl
    then expires_at - now
    else quota_cache_ttl

-- What a lookup found, and the value and lifetime that it stores, if it stores one.
pub record Lookup {ℓ} (A : Type ℓ) : Type ℓ where
  pub value : A
  pub stored : Option (Text × ℕ)

abbrev pub store : Text → ℕ → Option (Text × ℕ)
store text ttl = if ltb 0 ttl then some (text, ttl) else none

abbrev pub cached_int : Option Text → Option ℤ
cached_int none = none
cached_int (some text) = parse_int text

-- A row of `user_subscriptions` that is in force.
pub record Plan : Type 0 where
  pub request : ℤ
  pub index_bytes : ℤ
  pub expires_at : ℕ

module _ (now : ℕ) (fallback : ℤ) (of_plan : Plan → ℤ) where
  unfoldable pub limit_of_plan : Query Plan → Lookup ℤ
  limit_of_plan failed = record { value = fallback; stored = none }
  limit_of_plan absent = record {
    value = fallback;
    stored = store (format_int fallback) quota_cache_ttl;
  }
  limit_of_plan (found plan) = record {
    value = of_plan plan;
    stored = store (format_int (of_plan plan)) (plan_cache_ttl now plan.expires_at);
  }

  -- The administrator's value goes before the plan, and the plan before the default.
  unfoldable pub limit_of_user : Query (Option ℤ) → Query Plan → Lookup ℤ
  limit_of_user (found (some n)) plan = record {
    value = n;
    stored = store (format_int n) quota_cache_ttl;
  }
  limit_of_user (found none) plan = limit_of_plan plan
  limit_of_user absent plan = limit_of_plan plan
  limit_of_user failed plan = record { value = fallback; stored = none }

  unfoldable pub cached_or : Option ℤ → Query (Option ℤ) → Query Plan → Lookup ℤ
  cached_or (some n) override plan = record { value = n; stored = none }
  cached_or none override plan = limit_of_user override plan

module _ (d : Defaults) (now : ℕ) (tier : Text) (cached : Option Text) where
  -- `getUserDailyLimit`
  unfoldable pub get_user_daily_limit : Query (Option ℤ) → Query Plan → Lookup ℤ
  get_user_daily_limit =
      cached_or now (tier_daily_request_limit d tier) (λ plan. plan.request) (cached_int cached)

  -- `getUserIndexBytesLimit`
  unfoldable pub get_user_index_bytes_limit : Query (Option ℤ) → Query Plan → Lookup ℤ
  get_user_index_bytes_limit =
      cached_or now (tier_index_bytes_limit d tier) (λ plan. plan.index_bytes) (cached_int cached)

unfoldable pub no_row : Text
unfolding bytes
no_row = bytes "none"

-- A member's limit: `0, false, nil`, `n, true, nil`, or an error.
pub data MemberLimit : Type 0 where
  unset unknown : MemberLimit
  set_to : ℤ → MemberLimit

unfoldable pub query_member : Query ℤ → Lookup MemberLimit
query_member absent = record { value = unset; stored = store no_row quota_cache_ttl }
query_member failed = record { value = unknown; stored = none }
query_member (found n) = record { value = set_to n; stored = store (format_int n) quota_cache_ttl }

unfoldable pub parsed_member : Option ℤ → Query ℤ → Lookup MemberLimit
parsed_member (some n) row = record { value = set_to n; stored = none }
parsed_member none row = query_member row

-- `getMemberDailyLimit`
unfoldable pub get_member_daily_limit : Option Text → Query ℤ → Lookup MemberLimit
get_member_daily_limit none row = query_member row
get_member_daily_limit (some text) row =
    if text == no_row
    then record { value = unset; stored = none }
    else parsed_member (parse_int text) row
