-- ===== src/Quota/Checks.antt =====
-- quota.go: the limits in force for a tenant, and the reservation of a request under them
-- (`getOrgQuotaLimits`, `resolveIndexBytesQuota`, `checkRequestQuotaDetailed`).
pub mod Resolution
pub mod Tests
use acemcp_relay.Prelude.{
  ℕ, ◌-◌, ◌≡◌, Bool, true, false, not, ◌&&◌, ◌||◌, List, [], ◌∷◌, ◌++◌, Option, none, some, text_eq,
  nat_eq, Text, bytes, ◌==◌, ltb, leb, if◌then◌else◌,
}
use acemcp_relay.Prelude.Int.{ℤ, pos}
use acemcp_relay.Redis.{Redis, Delivery}
use acemcp_relay.Quota.Request.{
  Reservation, RequestQuotaDecision, unavailable_decision, reserve_request_quota,
}
use acemcp_relay.Quota.IndexBytes.{IndexQuotaPool}
use acemcp_relay.Quota.Limits.{
  Query, found, absent, failed, Defaults, tier_free, tier_daily_request_limit,
  tier_index_bytes_limit, quota_cache_ttl, Lookup, store, Plan, get_user_daily_limit,
  get_user_index_bytes_limit, MemberLimit, unset, unknown, set_to, get_member_daily_limit,
}
use acemcp_relay.Quota.Organization.{
  OrgQuotaLimits, OwnerRow, PlanQuotaLimits, or_else, owner_limits, free_org_quota_limits,
  ownerless, resolved, expiry_ttl, Codec, format_org_quota_cache, parse_org_quota_cache,
}

-- A row of `org_quotas`: NULL inherits.
pub record OrgQuota : Type 0 where
  pub daily_request_limit : Option ℤ
  pub daily_index_bytes_limit : Option ℤ

-- What an organisation without a row has.
abbrev pub no_quota : OrgQuota
no_quota = record { daily_request_limit = none; daily_index_bytes_limit = none }

abbrev pub both_set : OrgQuota → Bool
both_set row = is_set row.daily_request_limit && is_set row.daily_index_bytes_limit
  where
    is_set : Option ℤ → Bool
    is_set none = false
    is_set (some _) = true

module _ (c : Codec) (d : Defaults) (now : ℕ) (org : Text) where
  -- A resolution with what it stores.
  abbrev pub keep : OrgQuotaLimits → ℕ → Lookup OrgQuotaLimits
  keep limits ttl = record { value = limits; stored = store (format_org_quota_cache c limits) ttl }

  abbrev pub inherited : OrgQuota → PlanQuotaLimits → Lookup OrgQuotaLimits
  inherited row owner =
      keep (resolved org row.daily_request_limit row.daily_index_bytes_limit owner)
        (expiry_ttl now owner.expires_at)

  -- With one of the two inherited. The owner is asked for only then; when that fails, what is
  -- unset is the Free default in the organisation's own pool.
  unfoldable pub inherit_from : OrgQuota → Query OwnerRow → Lookup OrgQuotaLimits
  inherit_from row failed = record {
    value = resolved org row.daily_request_limit row.daily_index_bytes_limit (ownerless d);
    stored = none;
  }
  inherit_from row absent = inherited row (ownerless d)
  inherit_from row (found owner) = inherited row (owner_limits d owner)

  unfoldable pub of_row : OrgQuota → Query OwnerRow → Lookup OrgQuotaLimits
  of_row row owner =
      if both_set row
      then keep (resolved org row.daily_request_limit row.daily_index_bytes_limit (ownerless d))
          quota_cache_ttl
      else inherit_from row owner

  unfoldable pub query_org : Query OrgQuota → Query OwnerRow → Lookup OrgQuotaLimits
  query_org failed owner = record { value = free_org_quota_limits d org; stored = none }
  query_org absent owner = of_row no_quota owner
  query_org (found row) owner = of_row row owner

  abbrev pub cached_limits : Option Text → Option OrgQuotaLimits
  cached_limits none = none
  cached_limits (some text) = parse_org_quota_cache c text

  unfoldable pub cached_or_query :
      Option OrgQuotaLimits → Query OrgQuota → Query OwnerRow → Lookup OrgQuotaLimits
  cached_or_query (some limits) row owner = record { value = limits; stored = none }
  cached_or_query none row owner = query_org row owner

  -- `getOrgQuotaLimits`
  unfoldable pub get_org_quota_limits :
      Option Text → Query OrgQuota → Query OwnerRow → Lookup OrgQuotaLimits
  get_org_quota_limits cached row owner = cached_or_query (cached_limits cached) row owner

  abbrev pub pool_or : Text → Text → Text
  pool_or pool_id fallback = if pool_id == [] then fallback else pool_id

  -- `resolveIndexBytesQuota` of an organisation
  unfoldable pub org_index_bytes_pool : OrgQuotaLimits → IndexQuotaPool
  org_index_bytes_pool limits = record {
    limit =
        if limits.index_bytes_set then limits.index_bytes else tier_index_bytes_limit d tier_free;
    pool_id = pool_or limits.index_bytes_pool_id org;
  }

abbrev colon : Text
colon = b':' ∷ []

unfoldable pub used_prefix : Text
unfolding bytes
used_prefix = bytes "quota:used:"

unfoldable pub member_prefix : Text
unfolding bytes
member_prefix = bytes "quota:used:org:"

-- What `checkRequestQuotaDetailed` reads of its limits.
pub data Tenancy : Type 0 where
  personal : ℤ → Tenancy
  organization : Text → MemberLimit → OrgQuotaLimits → Tenancy

abbrev pub pool_key : Text → Text → Text
pool_key pool day = used_prefix ++ pool ++ colon ++ day

abbrev pub member_key : Text → Text → Text → Text
member_key org user day = member_prefix ++ org ++ colon ++ user ++ colon ++ day

-- The reservation of a request, unless a member's limit is unknown.
unfoldable pub reservation : Defaults → Text → Text → Tenancy → Option Reservation
reservation d user day (personal limit) = some (record {
  member_key = pool_key user day;
  member_limit = pos 0;
  pool_key = pool_key user day;
  pool_limit = limit;
})
reservation d user day (organization org member limits) =
    let reserve : ℤ → Option Reservation = λ member_limit. some (record {
      member_key = member_key org user day;
      member_limit = member_limit;
      pool_key =
          pool_key (if limits.request_pool_id == [] then org else limits.request_pool_id) day;
      pool_limit =
          if limits.request_set then limits.request else tier_daily_request_limit d tier_free;
    }) in
    elim member [ unset ↦ reserve (pos 0) | set_to n ↦ reserve n | unknown ↦ none ]

module _ (R : Redis) (delivery : Delivery) (s : R.State) where
  unfoldable pub reserve : Option Reservation → R.State × RequestQuotaDecision
  reserve none = (s, unavailable_decision)
  reserve (some q) = reserve_request_quota R delivery s q

  -- `checkRequestQuotaDetailed`, with its limits looked up.
  unfoldable pub check_request_quota_detailed :
      Defaults → Text → Text → Tenancy → R.State × RequestQuotaDecision
  check_request_quota_detailed d user day t = reserve (reservation d user day t)
