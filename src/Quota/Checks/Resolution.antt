-- ===== src/Quota/Checks/Resolution.antt =====
-- quota.go: which limit and which pool an organisation gets.
use acemcp_relay.Prelude.{
  ℕ, ◌≡◌, refl, ap, sym, ◌∙◌, false, [], Option, none, some, text_eq, nat_eq, Text, ◌==◌, arith,
  Bool-cases, inl, inr, ◌⊎◌,
}
use acemcp_relay.Prelude.Int.{ℤ}
use acemcp_relay.Strings.Decimal.{IsInt64}
use acemcp_relay.Quota.Request.{Reservation}
use acemcp_relay.Quota.Limits.{
  Query, found, absent, failed, Defaults, tier_free, tier_daily_request_limit,
  tier_index_bytes_limit, quota_cache_ttl, Lookup, store, unset,
}
use acemcp_relay.Quota.Organization.{
  OrgQuotaLimits, OwnerRow, PlanQuotaLimits, or_else, owner_limits, free_org_quota_limits,
  ownerless, resolved, inherit, expiry_ttl, Codec, format_org_quota_cache, parse_org_quota_cache,
}
use acemcp_relay.Quota.Organization.Caches.{IsResolved, parse-format_org_quota_cache}
use acemcp_relay.Quota.Checks.{
  OrgQuota, no_quota, cached_limits, both_set, inherit_from, of_row, query_org, cached_or_query,
  get_org_quota_limits, reservation, organization, personal,
}

inherit-named :
    (n : Option ℤ) (org : Text) (m : ℤ) (owner : Text)
    → (org == []) ≡ false
    → ((inherit n org m owner).1 == []) ≡ false
inherit-named none org m owner h = ground (arith, h)
inherit-named (some n) org m owner h = h

resolved-IsResolved :
    (org : Text) (r b : Option ℤ) (owner : PlanQuotaLimits)
    → (org == []) ≡ false
    → IsResolved (resolved org r b owner)
resolved-IsResolved org r b owner h = record {
  request_set = refl;
  index_bytes_set = refl;
  request_pool = inherit-named r org owner.request owner.owner_id h;
  index_bytes_pool = inherit-named b org owner.index_bytes owner.owner_id h;
}

module _ (c : Codec) (d : Defaults) (now : ℕ) (org : Text) (named : (org == []) ≡ false) where
  -- A lookup that is resolved, and stores its own value if it stores one.
  record Sound (r : Lookup OrgQuotaLimits) : Type 0 where
    value : IsResolved r.value
    stored :
        (text : Text) (ttl : ℕ)
        → r.stored ≡ some (text, ttl)
        → format_org_quota_cache c r.value ≡ text

  keep-Sound :
      (rq bq : Option ℤ) (owner : PlanQuotaLimits) (life : ℕ)
      → Sound (record {
        value = resolved org rq bq owner;
        stored = store (format_org_quota_cache c (resolved org rq bq owner)) life;
      })
  keep-Sound rq bq owner life = record {
    value = resolved-IsResolved org rq bq owner named;
    stored = λ text ttl e. ground arith;
  }

  inherit_from-Sound :
      (row : OrgQuota) (owner : Query OwnerRow) → Sound (inherit_from c d now org row owner)
  unfolding inherit_from
  inherit_from-Sound row failed = record {
    value =
        resolved-IsResolved org row.daily_request_limit row.daily_index_bytes_limit (ownerless d)
          named;
    stored = λ text ttl e. absurd cc;
  }
  inherit_from-Sound row absent =
      keep-Sound row.daily_request_limit row.daily_index_bytes_limit (ownerless d) quota_cache_ttl
  inherit_from-Sound row (found o) =
      keep-Sound row.daily_request_limit row.daily_index_bytes_limit (owner_limits d o)
        (expiry_ttl now (owner_limits d o).expires_at)

  of_row-Sound : (row : OrgQuota) (owner : Query OwnerRow) → Sound (of_row c d now org row owner)
  unfolding of_row
  of_row-Sound row owner = elim (Bool-cases (both_set row)) [
    | inl e ↦ rw e (
        keep-Sound row.daily_request_limit row.daily_index_bytes_limit (ownerless d)
          quota_cache_ttl)
    | inr e ↦ rw e (inherit_from-Sound row owner)
  ]

  query_org-Sound :
      (row : Query OrgQuota) (owner : Query OwnerRow) → Sound (query_org c d now org row owner)
  unfolding query_org free_org_quota_limits
  query_org-Sound failed owner = record {
    value = record {
      request_set = refl;
      index_bytes_set = refl;
      request_pool = named;
      index_bytes_pool = named;
    };
    stored = λ text ttl e. absurd cc;
  }
  query_org-Sound absent owner = of_row-Sound no_quota owner
  query_org-Sound (found row) owner = of_row-Sound row owner

  -- Whatever the queries answer, errors included, an organisation's lookup gives both limits, each
  -- with a pool that has a name; and when it stores them, then later lookups give the same limits
  -- for as long as Redis keeps the value. The organisation's id is not empty and the limits are of
  -- int64.
  pub get_org_quota_limits_coherent :
      (row : Query OrgQuota) (owner : Query OwnerRow)
      → let l = get_org_quota_limits c d now org none row owner in
        IsResolved l.value
        × ((text : Text) (ttl : ℕ)
            → l.stored ≡ some (text, ttl)
            → IsInt64 l.value.request
            → IsInt64 l.value.index_bytes
            → (later : ℕ) (row' : Query OrgQuota) (owner' : Query OwnerRow)
            → get_org_quota_limits c d later org (some text) row' owner'
              ≡ record { value = l.value; stored = none })
  unfolding get_org_quota_limits cached_or_query
  get_org_quota_limits_coherent row owner =
      let s = query_org-Sound row owner in
      (
        s.value,
        λ text ttl e r b later row' owner'.
            ap (λ l. cached_or_query c d later org l row' owner')
              (ap (parse_org_quota_cache c) (sym (s.stored text ttl e))
                ∙ parse-format_org_quota_cache c (query_org c d now org row owner).value s.value r
                    b),
      )

module _ (c : Codec) (d : Defaults) (now : ℕ) (org : Text) where
  cold_lookup :
      (cached : Option Text) (answer : Query OrgQuota) (owner : Query OwnerRow)
      → cached_limits c d now org cached ≡ none
      → get_org_quota_limits c d now org cached answer owner ≡ query_org c d now org answer owner
  unfolding get_org_quota_limits cached_or_query
  cold_lookup cached answer owner cold = rw cold refl

  asked_row :
      (row : OrgQuota) (answer : Query OrgQuota) (owner : Query OwnerRow)
      → (answer ≡ found row) ⊎ ((answer ≡ absent) × (row ≡ no_quota))
      → query_org c d now org answer owner ≡ of_row c d now org row owner
  unfolding query_org
  asked_row row answer owner (inl e) = rw e refl
  asked_row row answer owner (inr (e, k)) = rw e (rw k refl)

  of_row_closed :
      (row : OrgQuota) (owner : Query OwnerRow)
      → let l = of_row c d now org row owner in
        ((n : ℤ)
          → row.daily_request_limit ≡ some n
          → (l.value.request ≡ n) × (l.value.request_pool_id ≡ org))
        × ((n : ℤ)
            → row.daily_index_bytes_limit ≡ some n
            → (l.value.index_bytes ≡ n) × (l.value.index_bytes_pool_id ≡ org))
        × (owner ≡ failed
            → both_set row ≡ false
            → (l.value.request
                ≡ or_else row.daily_request_limit (tier_daily_request_limit d tier_free))
              × (l.value.index_bytes
                  ≡ or_else row.daily_index_bytes_limit (tier_index_bytes_limit d tier_free))
              × (l.stored ≡ none))
  unfolding of_row inherit_from
  of_row_closed row failed = ground arith
  of_row_closed row absent = ground arith
  of_row_closed row (found o) = ground arith

  of_row_shared :
      (row : OrgQuota) (o : OwnerRow) (user day : Text) (limit : ℤ) (q p : Reservation)
      → row.daily_request_limit ≡ none
      → (o.owner_id == []) ≡ false
      → reservation d user day (organization org unset (of_row c d now org row (found o)).value)
        ≡ some q
      → reservation d o.owner_id day (personal limit) ≡ some p
      → q.pool_key ≡ p.pool_key
  unfolding reservation of_row inherit_from owner_limits
  of_row_shared row o user day limit q p h k e f = ground arith

  -- Where Redis holds no readable limits of an organisation and its row of org_quotas is read: a
  -- limit that the row sets is the one in force, in the organisation's own pool, whether or not the
  -- other limit must be inherited and whether or not the owner can be read; and when the owner
  -- cannot be read, then the limits that are not set are the Free defaults, and what had to be
  -- inherited is not stored. The same holds where there is no row, which sets no limit.
  pub get_org_quota_limits_closed :
      (cached : Option Text) (row : OrgQuota) (answer : Query OrgQuota) (owner : Query OwnerRow)
      → cached_limits c d now org cached ≡ none
      → (answer ≡ found row) ⊎ ((answer ≡ absent) × (row ≡ no_quota))
      → let l = get_org_quota_limits c d now org cached answer owner in
        ((n : ℤ)
          → row.daily_request_limit ≡ some n
          → (l.value.request ≡ n) × (l.value.request_pool_id ≡ org))
        × ((n : ℤ)
            → row.daily_index_bytes_limit ≡ some n
            → (l.value.index_bytes ≡ n) × (l.value.index_bytes_pool_id ≡ org))
        × (owner ≡ failed
            → both_set row ≡ false
            → (l.value.request
                ≡ or_else row.daily_request_limit (tier_daily_request_limit d tier_free))
              × (l.value.index_bytes
                  ≡ or_else row.daily_index_bytes_limit (tier_index_bytes_limit d tier_free))
              × (l.stored ≡ none))
  get_org_quota_limits_closed cached row answer owner cold asked =
      rw (cold_lookup cached answer owner cold)
        (rw (asked_row row answer owner asked) (of_row_closed row owner))

  -- Where Redis holds no readable limits of an organisation: if the organisation has no row of
  -- org_quotas, or its row leaves the request limit out, and has an owner with an id, then the
  -- requests made by a member without a limit of their own are counted by the same key as the
  -- owner's own requests of the day, so that an owner's plan is not multiplied by the number of the
  -- owner's organisations.
  pub inherited_pool_shared :
      (cached : Option Text) (row : OrgQuota) (answer : Query OrgQuota) (o : OwnerRow)
      (user day : Text) (limit : ℤ) (q p : Reservation)
      → cached_limits c d now org cached ≡ none
      → (answer ≡ found row) ⊎ ((answer ≡ absent) × (row ≡ no_quota))
      → row.daily_request_limit ≡ none
      → (o.owner_id == []) ≡ false
      → reservation d user day
          (organization org unset (get_org_quota_limits c d now org cached answer (found o)).value)
        ≡ some q
      → reservation d o.owner_id day (personal limit) ≡ some p
      → q.pool_key ≡ p.pool_key
  inherited_pool_shared cached row answer o user day limit q p cold asked h k e f =
      of_row_shared row o user day limit q p h k
        (ap (λ l. reservation d user day (organization org unset (Lookup.value l)))
            (sym (cold_lookup cached answer (found o) cold ∙ asked_row row answer (found o) asked))
          ∙ e)
        f
