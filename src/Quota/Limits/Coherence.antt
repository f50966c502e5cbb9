-- ===== src/Quota/Limits/Coherence.antt =====
-- quota.go: what a looked-up limit and its cache agree on.
use acemcp_relay.Prelude.{
  ℕ, ◌+◌, ◌≤◌, ◌≡◌, ap, ◌∙◌, sym, true, false, Option, none, some, text_eq, Text, ltb, leb, arith,
}
use acemcp_relay.Prelude.Int.{ℤ}
use acemcp_relay.Strings.Decimal.{format_int, parse_int, IsInt64, parse-format_int}
use acemcp_relay.Quota.Limits.{
  Query, found, absent, failed, Defaults, tier_daily_request_limit, quota_cache_ttl, plan_cache_ttl,
  Lookup, store, cached_int, Plan, limit_of_plan, limit_of_user, cached_or, get_user_daily_limit,
}

-- The plan decides: the administrator has set nothing.
abbrev pub IsInherited : Query (Option ℤ) → Type 0
IsInherited (found (some _)) = ⊥
IsInherited (found none) = Unit
IsInherited absent = Unit
IsInherited failed = ⊥

plan_cache_ttl-bounds :
    (now t : ℕ)
    → (plan_cache_ttl now t ≤ quota_cache_ttl)
      × (leb t now ≡ false → now + plan_cache_ttl now t ≤ t)
unfolding plan_cache_ttl
plan_cache_ttl-bounds now t = ground arith

store_inversion :
    (text text' : Text) (ttl ttl' : ℕ)
    → store text ttl ≡ some (text', ttl')
    → (text ≡ text') × (ttl ≡ ttl') × (ltb 0 ttl ≡ true)
store_inversion text text' ttl ttl' h = ground arith

-- What a lookup stores: its own value, for five minutes at most.
abbrev Stores : Lookup ℤ → Text → ℕ → Type 0
Stores r text ttl = (format_int r.value ≡ text) × ttl ≤ quota_cache_ttl

module _ (now : ℕ) (fallback : ℤ) (of_plan : Plan → ℤ) (text : Text) (ttl : ℕ) where
  stored_for :
      (z : ℤ) (life : ℕ)
      → life ≤ quota_cache_ttl
      → store (format_int z) life ≡ some (text, ttl)
      → Stores (record { value = z; stored = store (format_int z) life }) text ttl
  stored_for z life h e =
      let (same, lives, _) = store_inversion (format_int z) text life ttl e in
      (same, omega (arith, h, lives))

  Stores-limit_of_plan :
      (plan : Query Plan)
      → (limit_of_plan now fallback of_plan plan).stored ≡ some (text, ttl)
      → Stores (limit_of_plan now fallback of_plan plan) text ttl
  unfolding limit_of_plan
  Stores-limit_of_plan failed h = cc
  Stores-limit_of_plan absent h = stored_for fallback quota_cache_ttl (omega arith) h
  Stores-limit_of_plan (found p) h =
      stored_for (of_plan p) (plan_cache_ttl now p.expires_at)
        (plan_cache_ttl-bounds now p.expires_at).0 h

  Stores-cached_or :
      (cached : Option ℤ) (override : Query (Option ℤ)) (plan : Query Plan)
      → (cached_or now fallback of_plan cached override plan).stored ≡ some (text, ttl)
      → Stores (cached_or now fallback of_plan cached override plan) text ttl
  unfolding cached_or limit_of_user
  Stores-cached_or (some n) override plan h = cc
  Stores-cached_or none (found (some n)) plan h = stored_for n quota_cache_ttl (omega arith) h
  Stores-cached_or none (found none) plan h = Stores-limit_of_plan plan h
  Stores-cached_or none absent plan h = Stores-limit_of_plan plan h
  Stores-cached_or none failed plan h = cc

  plan_expiry :
      (p : Plan)
      → (limit_of_plan now fallback of_plan (found p)).stored ≡ some (text, ttl)
      → now + ttl ≤ p.expires_at
  unfolding limit_of_plan plan_cache_ttl
  plan_expiry p h = ground (
    arith,
    store_inversion (format_int (of_plan p)) text (plan_cache_ttl now p.expires_at) ttl h,
    plan_cache_ttl-bounds now p.expires_at,
  )

  cached_or-expiry :
      (cached : Option ℤ) (override : Query (Option ℤ)) (p : Plan)
      → IsInherited override
      → (cached_or now fallback of_plan cached override (found p)).stored ≡ some (text, ttl)
      → now + ttl ≤ p.expires_at
  unfolding cached_or limit_of_user
  cached_or-expiry (some n) override p i h = absurd cc
  cached_or-expiry none (found (some n)) p i h = absurd i
  cached_or-expiry none (found none) p i h = plan_expiry p h
  cached_or-expiry none absent p i h = plan_expiry p h
  cached_or-expiry none failed p i h = absurd i

cached_hit :
    (now : ℕ) (fallback : ℤ) (of_plan : Plan → ℤ) (z : ℤ) (text : Text)
    (override : Query (Option ℤ)) (plan : Query Plan)
    → format_int z ≡ text
    → IsInt64 z
    → cached_or now fallback of_plan (parse_int text) override plan
      ≡ record { value = z; stored = none }
unfolding cached_or
cached_hit now fallback of_plan z text override plan e int =
    ap (λ n. cached_or now fallback of_plan n override plan)
      (ap parse_int (sym e) ∙ parse-format_int z int)

-- When a lookup of a user's daily limit stores a value, then for as long as Redis keeps it every
-- lookup gives the same limit, whatever tier and tables it is asked with; Redis keeps it five
-- minutes at most, and never past the end of a plan that the limit was inherited from. The limit
-- must be one of int64.
pub get_user_daily_limit_coherent :
    (d : Defaults) (now : ℕ) (tier : Text) (cached : Option Text) (override : Query (Option ℤ))
    (plan : Query Plan) (text : Text) (ttl : ℕ)
    → (get_user_daily_limit d now tier cached override plan).stored ≡ some (text, ttl)
    → IsInt64 (get_user_daily_limit d now tier cached override plan).value
    → ((now' : ℕ) (tier' : Text) (override' : Query (Option ℤ)) (plan' : Query Plan)
        → get_user_daily_limit d now' tier' (some text) override' plan' ≡ record {
          value = (get_user_daily_limit d now tier cached override plan).value;
          stored = none;
        })
      × ttl ≤ quota_cache_ttl
      × ((p : Plan) → plan ≡ found p → IsInherited override → now + ttl ≤ p.expires_at)
unfolding get_user_daily_limit
get_user_daily_limit_coherent d now tier cached override plan text ttl h int =
    let fallback = tier_daily_request_limit d tier in
    let (same, short) =
      Stores-cached_or now fallback (λ p. p.request) text ttl (cached_int cached) override plan h in
    (
      λ now' tier' override' plan'.
          cached_hit now' (tier_daily_request_limit d tier') (λ p. p.request)
            (cached_or now fallback (λ p. p.request) (cached_int cached) override plan).value text
            override' plan' same int,
      short,
      λ p e i.
          cached_or-expiry now fallback (λ r. r.request) text ttl (cached_int cached) override p i
            (sym (
                ap
                  (λ q.
                    (cached_or now fallback (λ r. r.request) (cached_int cached) override q).stored)
                  e)
              ∙ h),
    )
