-- ===== src/Auth/Tests.antt =====
-- Requests authenticated, and the inputs at which the theorems are applied.
use acemcp_relay.Prelude.{
  List, find, none, ◌≡◌, refl, [], ◌∷◌, some, Option, text_eq, nat_eq, bytes, text_beq, Text,
  filter_by, any, starts_with,
}
use acemcp_relay.Strings.{trim_space, split, push_head}
use acemcp_relay.Quota.Limits.{Query, found, failed, normalize_tier, tier_pro, tier_free}
use acemcp_relay.Auth.Members.{
  is_owned, Tables, ask, target_membership, active_entitlement, distinct_users, is_owner,
  target_owner, seat_usage, membership_of,
}
use acemcp_relay.Auth.{
  false, rejected, AuthIdentity, valid, invalid, AuthCacheEntry, AuthCache, entry_of,
  auth_cache_get, set_entry, drop_expired, auth_cache_put, org_role_owner, org_role_member,
  normalize_org_role, KeyRow, lookup_api_key, Membership, accepted, authorize_member, authorize_by,
  authorize, authorize_status, on_miss, by_entry, bearer, authenticate_request,
}
use acemcp_relay.Auth.Authorization.{IsMember, authenticate_request-IsMember}

requests : Unit {0}
unfolding bytes text_beq trim_space split push_head filter_by any starts_with normalize_tier
    tier_pro tier_free entry_of auth_cache_get set_entry drop_expired auth_cache_put org_role_owner
    org_role_member normalize_org_role lookup_api_key authorize_member authorize_by authorize
    target_membership active_entitlement distinct_users is_owner target_owner is_owned seat_usage
    membership_of find authorize_status on_miss by_entry bearer authenticate_request
requests = tt

abbrev identity : AuthIdentity
identity = record {
  user_id = bytes "u";
  tier = bytes "pro";
  org_id = bytes "o";
  org_role = bytes "member";
}

abbrev key : Text → Query KeyRow
key _ = found (record { user_id = bytes "u "; tier = bytes "pro"; org_id = bytes "o" })

abbrev no_keys : Text → Query KeyRow
no_keys _ = failed

-- An organisation of the owner "w", whose subscription has one seat.
abbrev tables : Tables
tables = record {
  members =
      record { organization_id = bytes "o"; user_id = bytes "w"; role = some (bytes "owner") }
      ∷ record { organization_id = bytes "o"; user_id = bytes "u"; role = some (bytes "member") }
      ∷ [];
  organizations = bytes "o" ∷ [];
  subscriptions =
      record { user_id = bytes "w"; starts_at = 1; expires_at = 9; subaccount_limit = 1 } ∷ [];
}

abbrev roles : Text → List Text
roles s = split b',' s

abbrev seats : Text → Text → Option Membership
seats = ask roles false tables 5

abbrev plain : Text → Text
plain s = s

abbrev header : Text
header = bytes "Bearer k"

accepted_member : (authenticate_request plain key seats 5 header []).1 ≡ accepted identity
unfolding requests
accepted_member = refl

-- Two members share one seat, and none of them gets it.
crowded_out :
    authorize plain key
      (ask roles false
        (record tables {
          members =
              record { organization_id = bytes "o"; user_id = bytes "v"; role = none }
              ∷ tables.members;
        })
        5)
      identity
    ≡ rejected
unfolding requests
crowded_out = refl

authenticate_request-IsMember_example : IsMember roles tables 5 (bytes "o") (bytes "u")
unfolding requests
authenticate_request-IsMember_example =
    authenticate_request-IsMember plain key roles false tables 5 5 header [] identity refl refl

abbrev entry : AuthCacheEntry
entry = record { status = valid identity; expires_at = 9 }

abbrev full : AuthCache
full = (bytes "a", record { status = invalid; expires_at = 3 }) ∷ (bytes "b", entry) ∷ []
