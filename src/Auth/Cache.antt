-- ===== src/Auth/Cache.antt =====
-- main.go: the cache of keys stays within its bound and forgets no live entry.
use acemcp_relay.Prelude.{
  ℕ, ◌≤◌, ◌<◌, ◌≡◌, refl, ap, Bool, true, false, not, [], ◌∷◌, none, text_eq, nat_eq, Text, ◌==◌,
  arith, length, filter_by, any, eq_iff,
}
use acemcp_relay.Auth.{
  AuthCacheEntry, AuthCache, is_over, entry_of, live_entry, auth_cache_get, set_entry, drop_expired,
  auth_cache_put,
}

length-filter_by-le :
    (p : Text × AuthCacheEntry → Bool) (cache : AuthCache)
    → length (filter_by p cache) ≤ length cache
unfolding filter_by
length-filter_by-le p [] = omega arith
length-filter_by-le p (x ∷ cache) = ground (arith, length-filter_by-le p cache)

length-dropped : (now : ℕ) (cache : AuthCache) → length (drop_expired now cache) ≤ length cache
unfolding drop_expired
length-dropped now cache = length-filter_by-le (λ (_, e). not (is_over now e)) cache

-- The entries of the other keys.
abbrev others : Text → AuthCache → AuthCache
others key cache = filter_by (λ (k, _). not (k == key)) cache

length-others :
    (key : Text) (cache : AuthCache)
    → any (λ (k, _). k == key) cache ≡ true
    → length (others key cache) < length cache
unfolding filter_by any
length-others key [] h = ground arith
length-others key ((k, e) ∷ cache) h =
    ground (arith, length-others key cache, length-filter_by-le (λ (j, _). not (j == key)) cache)

-- Storing an entry never makes the cache exceed its bound.
pub auth_cache_put_bounded :
    (most now : ℕ) (key : Text) (entry : AuthCacheEntry) (cache : AuthCache)
    → length cache ≤ most
    → length (auth_cache_put most now key entry cache) ≤ most
unfolding auth_cache_put set_entry
auth_cache_put_bounded most now key entry cache h = ground (
  arith,
  h,
  length-others key cache,
  length-filter_by-le (λ (k, _). not (k == key)) cache,
  length-filter_by-le (λ (k, _). not (k == key)) (drop_expired now cache),
  length-dropped now cache,
)

-- A key stands in the map once.
abbrev pub IsMap : AuthCache → Type 0
IsMap [] = Unit
IsMap ((k, _) ∷ cache) = any (λ (j, _). j == k) cache ≡ false × IsMap cache

entry_of-others :
    (key other : Text) (cache : AuthCache)
    → (key == other) ≡ false
    → entry_of other (others key cache) ≡ entry_of other cache
unfolding filter_by entry_of
entry_of-others key other [] h = refl
entry_of-others key other ((k, e) ∷ cache) h =
    ground
      (arith, h, eq_iff k key, eq_iff k other, eq_iff key other, entry_of-others key other cache h)

missing :
    (key : Text) (now : ℕ) (cache : AuthCache)
    → any (λ (j, _). j == key) cache ≡ false
    → entry_of key (drop_expired now cache) ≡ none
unfolding any drop_expired filter_by entry_of
missing key now [] h = refl
missing key now ((k, e) ∷ cache) h = ground (arith, h, missing key now cache)

live-drop_expired :
    (key : Text) (now later : ℕ) (cache : AuthCache)
    → IsMap cache
    → now ≤ later
    → live_entry later (entry_of key (drop_expired now cache))
      ≡ live_entry later (entry_of key cache)
unfolding drop_expired filter_by entry_of
live-drop_expired key now later [] v h = refl
live-drop_expired key now later ((k, e) ∷ cache) (once, v) h =
    ground
      (arith, h, eq_iff k key, missing k now cache once, live-drop_expired key now later cache v h)

auth_cache_get-set_entry :
    (key other : Text) (later : ℕ) (entry : AuthCacheEntry) (cache : AuthCache)
    → (key == other) ≡ false
    → auth_cache_get other later (set_entry key entry cache) ≡ auth_cache_get other later cache
unfolding auth_cache_get set_entry entry_of
auth_cache_get-set_entry key other later entry cache h =
    rw h (ap (live_entry later) (entry_of-others key other cache h))

-- Storing one key's entry never changes what another key finds then or later, however full the
-- cache is: live entries are not driven out.
pub auth_cache_put_keeps :
    (most now later : ℕ) (key other : Text) (entry : AuthCacheEntry) (cache : AuthCache)
    → IsMap cache
    → now ≤ later
    → (key == other) ≡ false
    → auth_cache_get other later (auth_cache_put most now key entry cache)
      ≡ auth_cache_get other later cache
unfolding auth_cache_put
auth_cache_put_keeps most now later key other entry cache v h ne = ground (
  arith,
  auth_cache_get-set_entry key other later entry cache ne,
  auth_cache_get-set_entry key other later entry (drop_expired now cache) ne,
  dropped,
)
  where
    dropped : auth_cache_get other later (drop_expired now cache) ≡ auth_cache_get other later cache
    dropped = unfold auth_cache_get in (live-drop_expired other now later cache v h)
