-- ===== src/Auth.antt =====
-- main.go: who a request comes from. The cache of keys (`authCacheGet`, `authCachePut`), the key's
-- identity (`lookupAPIKey`), the organisation's consent (`authorizeOrganizationIdentity`), and the
-- request's authentication from them (`authenticateRequest`). The two queries are parameters: the
-- row of a token, and the membership of an organisation and a user. A time is in milliseconds.
pub mod Cache
pub mod Members
pub mod Authorization
pub mod Tests
use acemcp_relay.Prelude.{
  ℕ, ◌+◌, Bool, true, false, not, ◌&&◌, ◌||◌, List, [], ◌∷◌, Option, none, some, text_eq, nat_eq,
  Text, bytes, ◌==◌, ltb, leb, if◌then◌else◌, length, drop, filter_by, any, starts_with,
}
use acemcp_relay.Strings.{trim_space, split}
use acemcp_relay.Quota.Limits.{Query, found, absent, failed, normalize_tier}

pub record AuthIdentity : Type 0 where
  pub user_id : Text
  pub tier : Text
  pub org_id : Text
  pub org_role : Text

-- `TenantID`
unfoldable pub tenant_id : AuthIdentity → Text
tenant_id id = if id.org_id == [] then id.user_id else id.org_id

-- What a key is: a static identity, or no key at all.
pub data KeyStatus : Type 0 where
  valid : AuthIdentity → KeyStatus
  invalid : KeyStatus

pub record AuthCacheEntry : Type 0 where
  pub status : KeyStatus
  pub expires_at : ℕ

-- A Go map, as its pairs; a key stands in it once.
abbrev pub AuthCache : Type 0
AuthCache = List (Text × AuthCacheEntry)

abbrev pub auth_cache_max_entries : ℕ
auth_cache_max_entries = 10000

abbrev pub positive_ttl : ℕ
positive_ttl = 30000

abbrev pub negative_ttl : ℕ
negative_ttl = 5000

-- `now.After(entry.expiresAt)`
abbrev pub is_over : ℕ → AuthCacheEntry → Bool
is_over now entry = ltb entry.expires_at now

unfoldable pub entry_of : Text → AuthCache → Option AuthCacheEntry
entry_of key [] = none
entry_of key ((k, entry) ∷ cache) =
    let rest = entry_of key cache in if k == key then some entry else rest

abbrev pub live_entry : ℕ → Option AuthCacheEntry → Option AuthCacheEntry
live_entry now none = none
live_entry now (some entry) = if is_over now entry then none else some entry

-- `authCacheGet`
unfoldable pub auth_cache_get : Text → ℕ → AuthCache → Option AuthCacheEntry
auth_cache_get key now cache = live_entry now (entry_of key cache)

-- `authCache[key] = entry`
unfoldable pub set_entry : Text → AuthCacheEntry → AuthCache → AuthCache
set_entry key entry cache = (key, entry) ∷ filter_by (λ (k, _). not (k == key)) cache

unfoldable pub drop_expired : ℕ → AuthCache → AuthCache
drop_expired now cache = filter_by (λ (_, entry). not (is_over now entry)) cache

-- `authCachePut`, with the bound as a parameter.
unfoldable pub auth_cache_put : ℕ → ℕ → Text → AuthCacheEntry → AuthCache → AuthCache
auth_cache_put most now key entry cache =
    if not (any (λ (k, _). k == key) cache) && leb most (length cache)
    then (if leb most (length (drop_expired now cache))
        then drop_expired now cache
        else set_entry key entry (drop_expired now cache))
    else set_entry key entry cache

unfoldable pub org_role_owner : Text
unfolding bytes
org_role_owner = bytes "owner"

unfoldable pub org_role_member : Text
unfolding bytes
org_role_member = bytes "member"

-- `normalizeOrgRole`
unfoldable pub normalize_org_role : Text → Text → Text
normalize_org_role role org =
    if trim_space org == []
    then []
    else if any (λ candidate. trim_space candidate == org_role_owner) (split b',' role)
    then org_role_owner
    else org_role_member

-- The row of `api_keys`, with its COALESCE.
pub record KeyRow : Type 0 where
  pub user_id : Text
  pub tier : Text
  pub org_id : Text

-- `lookupAPIKey`, behind its query; `none` is an error.
unfoldable pub lookup_api_key : Query KeyRow → Option KeyStatus
lookup_api_key absent = some invalid
lookup_api_key failed = none
lookup_api_key (found row) = some (
    if trim_space row.user_id == []
    then invalid
    else valid (record {
      user_id = trim_space row.user_id;
      tier = normalize_tier row.tier;
      org_id = trim_space row.org_id;
      org_role = [];
    }))

-- What the authorisation query gives of an organisation and a user.
pub record Membership : Type 0 where
  pub current_role : Text
  pub owner_user_id : Text
  pub seat_limit : ℕ
  pub used_seats : ℕ

pub data AuthResult : Type 0 where
  accepted : AuthIdentity → AuthResult
  rejected : AuthResult
  unavailable : AuthResult

unfoldable pub authorize_member : AuthIdentity → Membership → AuthResult
authorize_member id m =
    let seated =
      accepted
        (record id { org_role = normalize_org_role (trim_space m.current_role) id.org_id }) in
    if trim_space m.current_role == [] || trim_space m.owner_user_id == []
    then rejected
    else if id.user_id == trim_space m.owner_user_id
    then seated
    else if leb m.seat_limit 0 || ltb m.seat_limit m.used_seats
    then rejected
    else seated

unfoldable pub authorize_by : AuthIdentity → Option Membership → AuthResult
authorize_by id none = unavailable
authorize_by id (some m) = authorize_member id m

unfoldable pub bearer : Text
unfolding bytes
bearer = bytes "Bearer "

module _ (sha256_hex : Text → Text) (api_key : Text → Query KeyRow)
    (membership : Text → Text → Option Membership) where
  -- `authorizeOrganizationIdentity`
  unfoldable pub authorize : AuthIdentity → AuthResult
  authorize id =
      if id.org_id == []
      then accepted (record id { org_role = [] })
      else authorize_by id (membership id.org_id id.user_id)

  unfoldable pub authorize_status : KeyStatus → AuthResult
  authorize_status invalid = rejected
  authorize_status (valid id) = authorize id

  abbrev pub fresh_entry : ℕ → KeyStatus → AuthCacheEntry
  fresh_entry now invalid = record { status = invalid; expires_at = now + negative_ttl }
  fresh_entry now (valid id) = record { status = valid id; expires_at = now + positive_ttl }

  unfoldable pub on_miss : ℕ → Text → Option KeyStatus → AuthCache → AuthCache × AuthResult
  on_miss now key none cache = (cache, unavailable)
  on_miss now key (some status) cache = (
    auth_cache_put auth_cache_max_entries now key (fresh_entry now status) cache,
    authorize_status status,
  )

  unfoldable pub by_entry : ℕ → Text → Option AuthCacheEntry → AuthCache → AuthCache × AuthResult
  by_entry now token (some entry) cache = (cache, authorize_status entry.status)
  by_entry now token none cache =
      on_miss now (sha256_hex token) (lookup_api_key (api_key token)) cache

  -- `authenticateRequest`
  unfoldable pub authenticate_request : ℕ → Text → AuthCache → AuthCache × AuthResult
  authenticate_request now header cache =
      let token = drop 7 header in
      let answer = by_entry now token (auth_cache_get (sha256_hex token) now cache) cache in
      if starts_with header bearer then answer else (cache, rejected)
