-- ===== src/Quota/Organization/Caches.antt =====
-- quota.go: the cached limits of an organisation, read back (`formatOrgQuotaCache`,
-- `parseOrgQuotaCache`).
use acemcp_relay.Prelude.{
  ◌≡◌, refl, true, false, List, [], ◌∷◌, some, text_eq, nat_eq, Text, bytes, ◌==◌, arith, eq_self,
}
use acemcp_relay.Strings.{split}
use acemcp_relay.Strings.Splitting.{split-join}
use acemcp_relay.Strings.Decimal.{format_int, IsInt64, parse-format_int, format_int-Lacks}
use acemcp_relay.Quota.Organization.{
  OrgQuotaLimits, comma, version_3, Codec, format_org_quota_cache, parse_org_quota_cache,
  parse_parts, org_limits_of,
}

-- Limits that are resolved: both set, in a pool that has a name.
pub record IsResolved (limits : OrgQuotaLimits) : Type 0 where
  pub request_set : limits.request_set ≡ true
  pub index_bytes_set : limits.index_bytes_set ≡ true
  pub request_pool : (limits.request_pool_id == []) ≡ false
  pub index_bytes_pool : (limits.index_bytes_pool_id == []) ≡ false

abbrev parts : Codec → OrgQuotaLimits → List Text
parts c l =
    version_3
    ∷ format_int l.request
    ∷ format_int l.index_bytes
    ∷ c.encode l.request_pool_id
    ∷ c.encode l.index_bytes_pool_id
    ∷ []

split-format :
    (c : Codec) (l : OrgQuotaLimits) → split comma (format_org_quota_cache c l) ≡ parts c l
unfolding format_org_quota_cache version_3 bytes
split-format c l =
    split-join comma version_3
      (format_int l.request
        ∷ format_int l.index_bytes
        ∷ c.encode l.request_pool_id
        ∷ c.encode l.index_bytes_pool_id
        ∷ [])
      (
        (refl, (refl, tt)),
        (
          format_int-Lacks comma l.request (omega arith) refl,
          (
            format_int-Lacks comma l.index_bytes (omega arith) refl,
            (c.encode-Lacks l.request_pool_id, (c.encode-Lacks l.index_bytes_pool_id, tt)),
          ),
        ),
      )

limits_again :
    (l : OrgQuotaLimits)
    → IsResolved l
    → org_limits_of
        (some l.request)
        (some l.index_bytes)
        (some l.request_pool_id)
        (some l.index_bytes_pool_id)
      ≡ some l
unfolding org_limits_of
limits_again l v =
    ground (arith, v.request_set, v.index_bytes_set, v.request_pool, v.index_bytes_pool)

-- The cache of an organisation gives back the resolved limits that were written to it, whatever
-- the pools are called, for limits of int64.
pub parse-format_org_quota_cache :
    (c : Codec) (l : OrgQuotaLimits)
    → IsResolved l
    → IsInt64 l.request
    → IsInt64 l.index_bytes
    → parse_org_quota_cache c (format_org_quota_cache c l) ≡ some l
unfolding parse_org_quota_cache parse_parts
parse-format_org_quota_cache c l v r b = rw (split-format c l) (
    rw (eq_self version_3) (
      rw (parse-format_int l.request r) (
        rw (parse-format_int l.index_bytes b) (
          rw (c.decode-encode l.request_pool_id)
            (rw (c.decode-encode l.index_bytes_pool_id) (limits_again l v))))))
