-- ===== src/Quota/Checks/Tests.antt =====
-- An organisation's limits, and the inputs at which their theorems are applied.
use acemcp_relay.Prelude.{
  inr, inl, ℕ, ◌+◌, ◌-◌, ◌≡◌, refl, ap, true, false, [], ◌∷◌, Option, none, some, nat_eq, text_eq,
  Text, bytes, text_beq, arith, map,
}
use acemcp_relay.Prelude.Int.{ℤ, pos}
use acemcp_relay.Strings.{trim_space}
use acemcp_relay.Strings.Splitting.{Lacks}
use acemcp_relay.Strings.Decimal.{IsInt64}
use acemcp_relay.Quota.Request.{Reservation}
use acemcp_relay.Quota.Limits.{
  Query, found, failed, tier_free, tier_pro, normalize_tier, tier_daily_request_limit,
  tier_index_bytes_limit, plan_cache_ttl, unset,
}
use acemcp_relay.Quota.Limits.Tests.{defaults}
use acemcp_relay.Quota.Organization.{
  OrgQuotaLimits, OwnerRow, comma, Codec, owner_limits, free_org_quota_limits,
  format_org_quota_cache, parse_org_quota_cache,
}
use acemcp_relay.Quota.Organization.Caches.{IsResolved, parse-format_org_quota_cache}
use acemcp_relay.Quota.Checks.{
  absent, no_quota, OrgQuota, inherit_from, of_row, query_org, cached_or_query,
  get_org_quota_limits, reservation, organization, pool_key, member_key,
}
use acemcp_relay.Quota.Checks.Resolution.{
  get_org_quota_limits_coherent, get_org_quota_limits_closed, inherited_pool_shared,
}

-- A codec that moves every byte past the comma.
abbrev shift_up : Text → Text
shift_up s = map (λ (b : ℕ). b + 45) s

abbrev shift_down : Text → Text
shift_down s = map (λ (b : ℕ). b - 45) s

shifted_back : (s : Text) → shift_down (shift_up s) ≡ s
shifted_back [] = refl
shifted_back (b ∷ s) = ap2_cons (omega arith) (shifted_back s)
  where
    ap2_cons : {x y : ℕ} {xs ys : Text} → x ≡ y → xs ≡ ys → (x ∷ xs) ≡ (y ∷ ys)
    ap2_cons e f = cc

shifted-Lacks : (s : Text) → Lacks comma (shift_up s)
shifted-Lacks [] = tt
shifted-Lacks (b ∷ s) = (ground arith, shifted-Lacks s)

abbrev shifting : Codec
shifting = record {
  encode = shift_up;
  decode = λ s. some (shift_down s);
  decode-encode = λ s. ap some (shifted_back s);
  encode-Lacks = shifted-Lacks;
}

checks : Unit {0}
unfolding bytes text_beq trim_space tier_pro tier_free normalize_tier tier_daily_request_limit
    tier_index_bytes_limit plan_cache_ttl owner_limits free_org_quota_limits inherit_from of_row
    query_org cached_or_query get_org_quota_limits reservation
checks = tt

abbrev resolved_limits : OrgQuotaLimits
resolved_limits = record {
  request = pos 20;
  request_set = true;
  request_pool_id = bytes "o";
  index_bytes = pos 0;
  index_bytes_set = true;
  index_bytes_pool_id = bytes "u";
}

parse-format_org_quota_cache_example :
    parse_org_quota_cache shifting (format_org_quota_cache shifting resolved_limits)
    ≡ some resolved_limits
unfolding checks
parse-format_org_quota_cache_example =
    parse-format_org_quota_cache shifting resolved_limits
      (record {
        request_set = refl;
        index_bytes_set = refl;
        request_pool = refl;
        index_bytes_pool = refl;
      })
      (omega arith) (omega arith)

abbrev owner : OwnerRow
owner = record {
  owner_id = bytes "u";
  request_override = none;
  index_bytes_override = none;
  plan_request_limit = some (pos 300);
  plan_index_bytes_limit = some (pos 900);
  plan_expires_at = some 5000;
  owner_tier = bytes "free";
}

abbrev half_set : OrgQuota
half_set = record { daily_request_limit = none; daily_index_bytes_limit = some (pos 8) }

plan_inherited :
    (get_org_quota_limits shifting defaults 0
      (bytes "o")
      none
      (found half_set)
      (found owner)).value.request
    ≡ pos 300
unfolding checks
plan_inherited = refl

get_org_quota_limits_coherent_example :
    let l =
      get_org_quota_limits shifting defaults 0 (bytes "o") none (found half_set) (found owner) in
    IsResolved l.value
    × ((text : Text) (ttl : ℕ)
        → l.stored ≡ some (text, ttl)
        → IsInt64 l.value.request
        → IsInt64 l.value.index_bytes
        → (later : ℕ) (row : Query OrgQuota) (other : Query OwnerRow)
        → get_org_quota_limits shifting defaults later (bytes "o") (some text) row other
          ≡ record { value = l.value; stored = none })
unfolding checks
get_org_quota_limits_coherent_example =
    get_org_quota_limits_coherent shifting defaults 0 (bytes "o") refl (found half_set)
      (found owner)

abbrev no_owner : Query OwnerRow
no_owner = failed

get_org_quota_limits_closed_example :
    let l = get_org_quota_limits shifting defaults 0 (bytes "o") none (found half_set) failed in
    ((n : ℤ)
      → half_set.daily_request_limit ≡ some n
      → (l.value.request ≡ n) × (l.value.request_pool_id ≡ bytes "o"))
    × ((n : ℤ)
        → half_set.daily_index_bytes_limit ≡ some n
        → (l.value.index_bytes ≡ n) × (l.value.index_bytes_pool_id ≡ bytes "o"))
    × (no_owner ≡ failed
        → false ≡ false
        → (l.value.request ≡ pos 100) × (l.value.index_bytes ≡ pos 8) × (l.stored ≡ none))
unfolding checks
get_org_quota_limits_closed_example =
    get_org_quota_limits_closed shifting defaults 0 (bytes "o") none half_set (found half_set)
      failed refl (inl refl)

abbrev inherited : Option Reservation
inherited = reservation defaults (bytes "m") (bytes "d") (
    organization (bytes "o") unset
      (get_org_quota_limits shifting defaults 0 (bytes "o") none absent (found owner)).value)

abbrev pool_reservation : ℤ → Text → Reservation
pool_reservation limit member = record {
  member_key = member;
  member_limit = pos 0;
  pool_key = pool_key (bytes "u") (bytes "d");
  pool_limit = limit;
}

inherited_pool_shared_example :
    (pool_reservation (pos 300) (member_key (bytes "o") (bytes "m") (bytes "d"))).pool_key
    ≡ (pool_reservation (pos 9) (pool_key (bytes "u") (bytes "d"))).pool_key
unfolding checks
inherited_pool_shared_example =
    inherited_pool_shared shifting defaults 0 (bytes "o") none no_quota absent owner (bytes "m")
      (bytes "d") (pos 9)
      (pool_reservation (pos 300) (member_key (bytes "o") (bytes "m") (bytes "d")))
      (pool_reservation (pos 9) (pool_key (bytes "u") (bytes "d"))) refl (inr (refl, refl)) refl
      refl refl refl
