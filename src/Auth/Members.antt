-- ===== src/Auth/Members.antt =====
-- main.go: the query of `authorizeOrganizationIdentity` on the tables of members, organisations and
-- subscriptions. The rows of a table stand in the order of their creation and ids, which the query
-- sorts by. PostgreSQL's regexp_split_to_array with the query's pattern is a parameter; a time is a
-- number of milliseconds.
use acemcp_relay.Prelude.{
  ℕ, Bool, false, not, ◌&&◌, List, [], ◌∷◌, Option, none, some, text_eq, nat_eq, Text, bytes, ◌==◌,
  ltb, leb, if◌then◌else◌, filter_by, any, find, length,
}
use acemcp_relay.Auth.{Membership}

-- A row of `member`; the role may be NULL.
pub record Member : Type 0 where
  pub organization_id : Text
  pub user_id : Text
  pub role : Option Text

-- A row of `user_subscriptions`.
pub record Subscription : Type 0 where
  pub user_id : Text
  pub starts_at : ℕ
  pub expires_at : ℕ
  pub subaccount_limit : ℕ

pub record Tables : Type 0 where
  pub members : List Member
  pub organizations : List Text
  pub subscriptions : List Subscription

-- COALESCE(…, '')
abbrev pub coalesce : Option Text → Text
coalesce none = []
coalesce (some s) = s

abbrev pub role_of : Option Member → Text
role_of none = []
role_of (some m) = coalesce m.role

-- `target_membership`
unfoldable pub target_membership : Tables → Text → Text → Option Member
target_membership t org user =
    find (λ m. m.organization_id == org && m.user_id == user && any (λ o. o == org) t.organizations)
      t.members

-- `active_entitlement`
unfoldable pub active_entitlement : Tables → ℕ → Text → Option Subscription
active_entitlement t now owner =
    find (λ s. s.user_id == owner && leb s.starts_at now && ltb now s.expires_at) t.subscriptions

abbrev pub limit_of : Option Subscription → ℕ
limit_of none = 0
limit_of (some s) = s.subaccount_limit

-- The users of some rows, each once.
unfoldable pub distinct_users : List Member → List Text
distinct_users [] = []
distinct_users (m ∷ ms) =
    let rest = distinct_users ms in
    if any (λ u. u == m.user_id) rest then rest else m.user_id ∷ rest

module _ (roles : Text → List Text) where
  unfoldable pub is_owner : Member → Bool
  unfolding bytes
  is_owner m = any (λ r. r == bytes "owner") (roles (coalesce m.role))

  -- `target_owner`: the first owner of an organisation.
  unfoldable pub target_owner : Tables → Text → Option Member
  target_owner t org = find (λ m. m.organization_id == org && is_owner m) t.members

  abbrev is_user : Text → Option Member → Bool
  is_user owner none = false
  is_user owner (some m) = m.user_id == owner

  -- Whether an organisation is one of `owned_organizations`: those whose first owner the user is.
  unfoldable pub is_owned : Tables → Text → Text → Bool
  is_owned t owner org = is_user owner (target_owner t org)

  -- `seat_usage`: the other members of the owner's organisations.
  unfoldable pub seat_usage : Tables → Text → ℕ
  seat_usage t owner = length (
      distinct_users
        (filter_by (λ m. is_owned t owner m.organization_id && not (m.user_id == owner)) t.members))

  abbrev pub owned : Tables → ℕ → Text → Option Member → Membership
  owned t now role none = record {
    current_role = role;
    owner_user_id = [];
    seat_limit = 0;
    used_seats = 0;
  }
  owned t now role (some w) = record {
    current_role = role;
    owner_user_id = w.user_id;
    seat_limit = limit_of (active_entitlement t now w.user_id);
    used_seats = seat_usage t w.user_id;
  }

  -- The row that the query gives.
  unfoldable pub membership_of : Tables → ℕ → Text → Text → Membership
  membership_of t now org user =
      owned t now (role_of (target_membership t org user)) (target_owner t org)

  -- The query, which may fail.
  abbrev pub ask : Bool → Tables → ℕ → Text → Text → Option Membership
  ask fails t now org user = if fails then none else some (membership_of t now org user)
