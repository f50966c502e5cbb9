-- ===== src/Sessions/Bounds.antt =====
-- main.go: a new session finds its place, and nothing else is dropped for it.
use acemcp_relay.Prelude.{
  ℕ, zero, suc, ◌<◌, ◌≡◌, refl, sym, Bool, true, false, not, [], ◌∷◌, text_eq, text_beq, nat_eq,
  Text, ◌==◌, leb, arith, length, filter_by, count_by, count_by-le-length,
}
use acemcp_relay.Sessions.{
  Session, Sessions, is_idle, prune_expired, count_for_user, shrink, prepare_slot,
}
use acemcp_relay.Sessions.Eviction.{shrink-le, shrink-lt}

count_by-true : (sessions : Sessions) → count_by (λ (_ : Session). true) sessions ≡ length sessions
unfolding count_by
count_by-true [] = refl
count_by-true (s ∷ sessions) = omega (arith, count_by-true sessions)

-- After a slot was prepared for a user with a name, the user has fewer sessions than the limit for
-- one user and there are fewer sessions than the limit for all, where these limits are set: a new
-- session never exceeds either.
pub prepare_slot_fits :
    (user : Text) (now ttl per_user_limit global_limit : ℕ) (sessions : Sessions)
    → (user == []) ≡ false
    → 0 < per_user_limit
    → 0 < global_limit
    → let (kept, _, _) = prepare_slot user now ttl per_user_limit global_limit sessions in
      (count_for_user user kept < per_user_limit) × (length kept < global_limit)
unfolding prepare_slot count_for_user text_beq
prepare_slot_fits user now ttl per_user_limit global_limit sessions named one all =
    let q : Session → Bool = λ s. s.user_id == user in
    let live = (prune_expired now ttl sessions).0 in
    let own = (shrink user per_user_limit (count_for_user user) (length live) live).0 in
    let kept = (shrink [] global_limit length (length own) own).0 in
    (
      omega (
        arith,
        shrink-lt q user per_user_limit (count_for_user user) (λ s. ground (arith, named))
            (λ l. refl) one (length live) live (count_by-le-length q live),
        shrink-le q [] global_limit length (length own) own,
      ),
      omega (
        arith,
        shrink-lt (λ _. true) [] global_limit length (λ s. refl) (λ l. sym (count_by-true l)) all
            (length own) own (omega (arith, count_by-true own)),
        count_by-true kept,
      ),
    )

shrink_idle :
    (user : Text) (limit : ℕ) (count : Sessions → ℕ) (fuel : ℕ) (sessions : Sessions)
    → leb limit (count sessions) ≡ false
    → shrink user limit count fuel sessions ≡ (sessions, [])
unfolding shrink
shrink_idle user limit count zero sessions h = refl
shrink_idle user limit count (suc fuel) sessions h = ground (arith, h)

-- A slot is prepared without evicting a live session where both limits leave room: only sessions
-- that were idle for longer than their time to live are gone.
pub prepare_slot_keeps :
    (user : Text) (now ttl per_user_limit global_limit : ℕ) (sessions : Sessions)
    → let live = filter_by (λ s. not (is_idle now ttl s)) sessions in
      count_for_user user live < per_user_limit
      → length live < global_limit
      → let (kept, _, evicted) = prepare_slot user now ttl per_user_limit global_limit sessions in
        (kept ≡ live) × (evicted ≡ [])
unfolding prepare_slot prune_expired
prepare_slot_keeps user now ttl per_user_limit global_limit sessions own all =
    let live = filter_by (λ s. not (is_idle now ttl s)) sessions in
    rw (shrink_idle user per_user_limit (count_for_user user) (length live) live (ground arith))
      (rw (shrink_idle [] global_limit length (length live) live (ground arith)) (refl, refl))
