-- ===== src/Auth/Authorization.antt =====
-- main.go: what an authenticated request has shown, whether or not the cache knew its key.
use acemcp_relay.Prelude.{
  eq_self, text_beq, any, find-any, find, not, ◌&&◌, List, ltb, leb, Bool, ℕ, ◌≤◌, ◌<◌, ◌≡◌, ◌⊎◌,
  inl, inr, refl, sym, subst, true, false, [], Option, none, some, text_eq, nat_eq, Text, ◌==◌,
  arith, drop, starts_with, Bool-cases,
}
use acemcp_relay.Strings.{trim_space}
use acemcp_relay.Quota.Limits.{Query, failed}
use acemcp_relay.Auth.Members.{
  Member, Subscription, Tables, coalesce, role_of, target_membership, active_entitlement, limit_of,
  is_owner, target_owner, seat_usage, owned, membership_of, ask,
}
use acemcp_relay.Auth.{
  AuthIdentity, KeyStatus, valid, invalid, AuthCacheEntry, AuthCache, auth_cache_get, KeyRow,
  lookup_api_key, Membership, accepted, unavailable, authorize_member, authorize_by, authorize,
  authorize_status, on_miss, by_entry, bearer, authenticate_request,
}

-- What the answer of the query shows: a role and an owner, who is the user or leaves a seat to him.
abbrev pub IsSeated : Text → Option Membership → Type 0
IsSeated user none = ⊥
IsSeated user (some m) =
    ((trim_space m.current_role == []) ≡ false)
    × ((trim_space m.owner_user_id == []) ≡ false)
    × ((user == trim_space m.owner_user_id) ≡ true
        ⊎ ((0 < m.seat_limit) × m.used_seats ≤ m.seat_limit))

authorize_member_inversion :
    (id id' : AuthIdentity) (m : Membership)
    → authorize_member id m ≡ accepted id'
    → (id'.org_id ≡ id.org_id) × (id'.user_id ≡ id.user_id) × IsSeated id'.user_id (some m)
unfolding authorize_member
authorize_member_inversion id id' m h = ground arith

authorize_by_inversion :
    (id id' : AuthIdentity) (m : Option Membership)
    → authorize_by id m ≡ accepted id'
    → (id'.org_id ≡ id.org_id) × (id'.user_id ≡ id.user_id) × IsSeated id'.user_id m
unfolding authorize_by
authorize_by_inversion id id' none h = absurd cc
authorize_by_inversion id id' (some m) h = authorize_member_inversion id id' m h

module _ (sha256_hex : Text → Text) (api_key : Text → Query KeyRow)
    (membership : Text → Text → Option Membership) where
  organization_case :
      (id id' : AuthIdentity)
      → authorize_by id (membership id.org_id id.user_id) ≡ accepted id'
      → IsSeated id'.user_id (membership id'.org_id id'.user_id)
  organization_case id id' h =
      let (org, user, member) = authorize_by_inversion id id' (membership id.org_id id.user_id) h in
      subst (λ o. IsSeated id'.user_id (membership o id'.user_id)) (sym org)
        (subst (λ u. IsSeated id'.user_id (membership id.org_id u)) (sym user) member)

  authorize_inversion :
      (id id' : AuthIdentity)
      → authorize sha256_hex api_key membership id ≡ accepted id'
      → (id'.org_id == []) ≡ false
      → IsSeated id'.user_id (membership id'.org_id id'.user_id)
  unfolding authorize
  authorize_inversion id id' h org = elim (Bool-cases (id.org_id == [])) [
    | inl e ↦ absurd (ground (arith, h, e, org))
    | inr e ↦ organization_case id id' (ground (arith, h, e))
  ]

  status_inversion :
      (status : KeyStatus) (id' : AuthIdentity)
      → authorize_status sha256_hex api_key membership status ≡ accepted id'
      → (id'.org_id == []) ≡ false
      → IsSeated id'.user_id (membership id'.org_id id'.user_id)
  unfolding authorize_status
  status_inversion invalid id' h org = absurd cc
  status_inversion (valid id) id' h org = authorize_inversion id id' h org

  miss_inversion :
      (now : ℕ) (key : Text) (status : Option KeyStatus) (cache : AuthCache) (id' : AuthIdentity)
      → (on_miss sha256_hex api_key membership now key status cache).1 ≡ accepted id'
      → (id'.org_id == []) ≡ false
      → IsSeated id'.user_id (membership id'.org_id id'.user_id)
  unfolding on_miss
  miss_inversion now key none cache id' h org = absurd cc
  miss_inversion now key (some status) cache id' h org = status_inversion status id' h org

  entry_inversion :
      (now : ℕ) (token : Text) (entry : Option AuthCacheEntry) (cache : AuthCache)
      (id' : AuthIdentity)
      → (by_entry sha256_hex api_key membership now token entry cache).1 ≡ accepted id'
      → (id'.org_id == []) ≡ false
      → IsSeated id'.user_id (membership id'.org_id id'.user_id)
  unfolding by_entry
  entry_inversion now token (some entry) cache id' h org = status_inversion entry.status id' h org
  entry_inversion now token none cache id' h org =
      miss_inversion now (sha256_hex token) (lookup_api_key (api_key token)) cache id' h org

  answered-IsSeated :
      (now : ℕ) (header : Text) (cache : AuthCache) (id : AuthIdentity)
      → (authenticate_request sha256_hex api_key membership now header cache).1 ≡ accepted id
      → (id.org_id == []) ≡ false
      → IsSeated id.user_id (membership id.org_id id.user_id)
  unfolding authenticate_request
  answered-IsSeated now header cache id h org = elim (Bool-cases (starts_with header bearer)) [
    | inl e ↦
        entry_inversion now (drop 7 header) (auth_cache_get (sha256_hex (drop 7 header)) now cache)
          cache id (ground (arith, h, e)) org
    | inr e ↦ absurd (ground (arith, h, e))
  ]

  -- When the table of keys cannot be read and the cache has no live entry, the request is answered
  -- as unavailable, and nothing is cached of it.
  pub authenticate_request_closed :
      (now : ℕ) (header : Text) (cache : AuthCache)
      → starts_with header bearer ≡ true
      → auth_cache_get (sha256_hex (drop 7 header)) now cache ≡ none
      → api_key (drop 7 header) ≡ failed
      → authenticate_request sha256_hex api_key membership now header cache ≡ (cache, unavailable)
  unfolding authenticate_request by_entry on_miss lookup_api_key
  authenticate_request_closed now header cache e miss down = rw e (rw miss (rw down refl))

-- A member of an organisation in good standing: he has a role in it, it exists, it has an owner, and
-- he is the owner, or the owner's subscription is active and has seats for all the other members of
-- the owner's organisations.
abbrev pub IsMember : (Text → List Text) → Tables → ℕ → Text → Text → Type 0
IsMember roles t now org user =
    (any
        (λ m.
          m.organization_id == org && m.user_id == user && not (trim_space (coalesce m.role) == []))
        t.members
      ≡ true)
    × (any (λ o. o == org) t.organizations ≡ true)
    × ((owner : Text) × (any
            (λ m. m.organization_id == org && m.user_id == owner && is_owner roles m) t.members
          ≡ true)
        × ((user == trim_space owner) ≡ true
            ⊎ (any
                  (λ s.
                    s.user_id == owner
                    && leb s.starts_at now
                    && ltb now s.expires_at
                    && ltb 0 s.subaccount_limit
                    && leb (seat_usage roles t owner) s.subaccount_limit)
                  t.subscriptions
                ≡ true)))

module _ {ℓ} {A : Type ℓ} where
  found_any :
      (p q : A → Bool) (xs : List A) {x : A}
      → find p xs ≡ some x
      → (p x ≡ true → q x ≡ true)
      → any q xs ≡ true
  found_any p q xs e k = (find-any p q xs e (k (find-any p (λ _. true) xs e refl).0)).1

module _ (roles : Text → List Text) (t : Tables) (now : ℕ) (org user : Text) where
  trim_nothing : (trim_space [] == []) ≡ true
  unfolding trim_space text_beq
  trim_nothing = refl

  role_shown :
      (found : Option Member)
      → target_membership t org user ≡ found
      → (trim_space (role_of found) == []) ≡ false
      → (any
            (λ m.
              m.organization_id == org
              && m.user_id == user
              && not (trim_space (coalesce m.role) == []))
            t.members
          ≡ true)
        × (any (λ o. o == org) t.organizations ≡ true)
  unfolding target_membership
  role_shown none e h = absurd (ground (arith, h, trim_nothing))
  role_shown (some m) e h = (
    found_any _ _ t.members e (λ p. ground (arith, p, h)),
    ground (arith, (find-any _ (λ _. true) t.members e refl).0),
  )

  seat_shown :
      (owner : Text) (found : Option Subscription)
      → active_entitlement t now owner ≡ found
      → 0 < limit_of found
      → seat_usage roles t owner ≤ limit_of found
      → any
          (λ s.
            s.user_id == owner
            && leb s.starts_at now
            && ltb now s.expires_at
            && ltb 0 s.subaccount_limit
            && leb (seat_usage roles t owner) s.subaccount_limit)
          t.subscriptions
        ≡ true
  unfolding active_entitlement
  seat_shown owner none e h k = absurd (ground (arith, h))
  seat_shown owner (some s) e h k = found_any _ _ t.subscriptions e (λ p. ground (arith, p, h, k))

  owner_shown :
      (role : Text) (found : Option Member)
      → target_owner roles t org ≡ found
      → IsSeated user (some (owned roles t now role found))
      → (owner : Text) × (any
            (λ m. m.organization_id == org && m.user_id == owner && is_owner roles m)
            t.members
          ≡ true)
        × ((user == trim_space owner) ≡ true
            ⊎ (any
                  (λ s.
                    s.user_id == owner
                    && leb s.starts_at now
                    && ltb now s.expires_at
                    && ltb 0 s.subaccount_limit
                    && leb (seat_usage roles t owner) s.subaccount_limit)
                  t.subscriptions
                ≡ true))
  unfolding target_owner
  owner_shown role none e (_, h, _) = absurd (ground (arith, h, trim_nothing))
  owner_shown role (some w) e (_, _, h) = (
    w.user_id,
    found_any _ _ t.members e (λ p. ground (arith, p, eq_self w.user_id)),
    elim h [
      | inl same ↦ inl same
      | inr (some_seats, within) ↦
          inr (seat_shown w.user_id (active_entitlement t now w.user_id) refl some_seats within)
    ],
  )

  role_kept :
      (role : Text) (found : Option Member)
      → IsSeated user (some (owned roles t now role found))
      → (trim_space role == []) ≡ false
  role_kept role none h = h.0
  role_kept role (some w) h = h.0

  seated-IsMember :
      (fails : Bool)
      → IsSeated user (ask roles fails t now org user)
      → IsMember roles t now org user
  unfolding membership_of
  seated-IsMember true h = absurd h
  seated-IsMember false h =
      let (role, exists) =
        role_shown (target_membership t org user) refl (role_kept _ (target_owner roles t org) h) in
      (role, exists, owner_shown _ (target_owner roles t org) refl h)

-- Whatever the cache holds, a request that is accepted for an organisation comes from a user who is
-- a member of it by the tables as they are at this very request, and who is its owner or has a seat
-- within the owner's subscription, active at the database's time: a member who was removed is
-- refused at once.
pub authenticate_request-IsMember :
    (sha256_hex : Text → Text) (api_key : Text → Query KeyRow) (roles : Text → List Text)
    (fails : Bool) (t : Tables) (at now : ℕ) (header : Text) (cache : AuthCache) (id : AuthIdentity)
    → (authenticate_request sha256_hex api_key (ask roles fails t at) now header cache).1
      ≡ accepted id
    → (id.org_id == []) ≡ false
    → IsMember roles t at id.org_id id.user_id
authenticate_request-IsMember sha256_hex api_key roles fails t at now header cache id h org =
    seated-IsMember roles t at id.org_id id.user_id fails
      (answered-IsSeated sha256_hex api_key (ask roles fails t at) now header cache id h org)
