-- ===== src/Quota/Organization.antt =====
-- quota.go: the shared limits of an organisation. Each of the two limits is the organisation's own
-- row, or else inherited from its earliest owner, and the pool that it is counted in follows it.
-- base64.RawURLEncoding is a parameter.
pub mod Caches
use acemcp_relay.Prelude.{
  ℕ, ◌-◌, ◌≡◌, Bool, true, false, not, ◌&&◌, ◌||◌, List, [], ◌∷◌, ◌++◌, Option, none, some, text_eq,
  nat_eq, Text, bytes, ◌==◌, ltb, leb, if◌then◌else◌,
}
use acemcp_relay.Prelude.Int.{ℤ, pos}
use acemcp_relay.Strings.{split, join}
use acemcp_relay.Strings.Splitting.{Lacks}
use acemcp_relay.Strings.Decimal.{format_int, parse_int}
use acemcp_relay.Redis.{Redis, Delivery}
use acemcp_relay.Quota.Request.{
  Reservation, RequestQuotaDecision, unavailable_decision, reserve_request_quota,
}
use acemcp_relay.Quota.IndexBytes.{IndexQuotaPool}
use acemcp_relay.Quota.Limits.{
  Query, found, absent, failed, Defaults, tier_free, tier_daily_request_limit,
  tier_index_bytes_limit, quota_cache_ttl, plan_cache_ttl, Lookup, store, Plan,
  get_user_daily_limit, get_user_index_bytes_limit, MemberLimit, unset, unknown, set_to,
}

pub record OrgQuotaLimits : Type 0 where
  pub request : ℤ
  pub request_set : Bool
  pub request_pool_id : Text
  pub index_bytes : ℤ
  pub index_bytes_set : Bool
  pub index_bytes_pool_id : Text

-- The row that the query of the canonical owner gives.
pub record OwnerRow : Type 0 where
  pub owner_id : Text
  pub request_override : Option ℤ
  pub index_bytes_override : Option ℤ
  pub plan_request_limit : Option ℤ
  pub plan_index_bytes_limit : Option ℤ
  pub plan_expires_at : Option ℕ
  pub owner_tier : Text

-- `planQuotaLimits`; its flags are the cases of `Query`.
pub record PlanQuotaLimits : Type 0 where
  pub owner_id : Text
  pub request : ℤ
  pub index_bytes : ℤ
  pub expires_at : Option ℕ

abbrev pub or_else : Option ℤ → ℤ → ℤ
or_else none n = n
or_else (some m) n = m

module _ (d : Defaults) where
  abbrev pub of_tier : OwnerRow → PlanQuotaLimits
  of_tier row = record {
    owner_id = row.owner_id;
    request = tier_daily_request_limit d row.owner_tier;
    index_bytes = tier_index_bytes_limit d row.owner_tier;
    expires_at = none;
  }

  -- A plan counts when all three of its columns are there.
  abbrev pub with_plan : PlanQuotaLimits → Option ℤ → Option ℤ → Option ℕ → PlanQuotaLimits
  with_plan limits (some r) (some b) (some t) = record limits {
    request = r;
    index_bytes = b;
    expires_at = some t;
  }
  with_plan limits none _ _ = limits
  with_plan limits (some _) none _ = limits
  with_plan limits (some _) (some _) none = limits

  -- `getOrgOwnerQuotaLimits`, behind its query.
  unfoldable pub owner_limits : OwnerRow → PlanQuotaLimits
  owner_limits row =
      let limits =
        with_plan (of_tier row) row.plan_request_limit row.plan_index_bytes_limit
          row.plan_expires_at in
      record limits {
        request = or_else row.request_override limits.request;
        index_bytes = or_else row.index_bytes_override limits.index_bytes;
      }

  -- `freeOrgQuotaLimits`
  unfoldable pub free_org_quota_limits : Text → OrgQuotaLimits
  free_org_quota_limits org = record {
    request = tier_daily_request_limit d tier_free;
    request_set = true;
    request_pool_id = org;
    index_bytes = tier_index_bytes_limit d tier_free;
    index_bytes_set = true;
    index_bytes_pool_id = org;
  }

  -- An organisation without an owner.
  abbrev pub ownerless : PlanQuotaLimits
  ownerless = record {
    owner_id = [];
    request = tier_daily_request_limit d tier_free;
    index_bytes = tier_index_bytes_limit d tier_free;
    expires_at = none;
  }

-- One dimension: the limit and its pool.
abbrev pub inherit : Option ℤ → Text → ℤ → Text → ℤ × Text
inherit (some n) org _ _ = (n, org)
inherit none org inherited owner = (inherited, if owner == [] then org else owner)

abbrev pub resolved : Text → Option ℤ → Option ℤ → PlanQuotaLimits → OrgQuotaLimits
resolved org request index_bytes owner =
    let (request', request_pool) = inherit request org owner.request owner.owner_id in
    let (index_bytes', index_bytes_pool) =
      inherit index_bytes org owner.index_bytes owner.owner_id in
    record {
      request = request';
      request_set = true;
      request_pool_id = request_pool;
      index_bytes = index_bytes';
      index_bytes_set = true;
      index_bytes_pool_id = index_bytes_pool;
    }

abbrev pub expiry_ttl : ℕ → Option ℕ → ℕ
expiry_ttl now none = quota_cache_ttl
expiry_ttl now (some t) = plan_cache_ttl now t

-- The parts of the cache's value, at least four.
abbrev pub comma : ℕ
comma = b','

unfoldable pub version_3 : Text
unfolding bytes
version_3 = bytes "v3"

-- base64.RawURLEncoding: what it encodes it decodes, and its alphabet has no comma.
pub record Codec : Type 0 where
  pub encode : Text → Text
  pub decode : Text → Option Text
  pub decode-encode : (s : Text) → decode (encode s) ≡ some s
  pub encode-Lacks : (s : Text) → Lacks comma (encode s)

unfoldable pub org_limits_of :
    Option ℤ → Option ℤ → Option Text → Option Text → Option OrgQuotaLimits
org_limits_of (some r) (some b) (some p) (some q) =
    if p == [] || q == []
    then none
    else some (record {
      request = r;
      request_set = true;
      request_pool_id = p;
      index_bytes = b;
      index_bytes_set = true;
      index_bytes_pool_id = q;
    })
org_limits_of none _ _ _ = none
org_limits_of (some _) none _ _ = none
org_limits_of (some _) (some _) none _ = none
org_limits_of (some _) (some _) (some _) none = none

module _ (c : Codec) where
  -- `formatOrgQuotaCache`
  unfoldable pub format_org_quota_cache : OrgQuotaLimits → Text
  format_org_quota_cache limits = join comma (
      version_3
      ∷ format_int limits.request
      ∷ format_int limits.index_bytes
      ∷ c.encode limits.request_pool_id
      ∷ c.encode limits.index_bytes_pool_id
      ∷ [])

  unfoldable pub parse_parts : List Text → Option OrgQuotaLimits
  parse_parts (v ∷ r ∷ b ∷ p ∷ q ∷ []) =
      if v == version_3
      then org_limits_of (parse_int r) (parse_int b) (c.decode p) (c.decode q)
      else none
  parse_parts _ = none

  -- `parseOrgQuotaCache`
  unfoldable pub parse_org_quota_cache : Text → Option OrgQuotaLimits
  parse_org_quota_cache value = parse_parts (split comma value)
