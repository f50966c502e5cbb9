-- ===== src/Quota/Request/Laws.antt =====
-- quota.go: what one reservation of a request guarantees (`reserveRequestQuota`).
use acemcp_relay.Prelude.{
  ℕ, ◌+◌, ◌≡◌, ◌⊎◌, Bool, true, false, not, ◌&&◌, ◌||◌, text_eq, Text, ◌==◌, leb, if◌then◌else◌,
  arith, eq_iff,
}
use acemcp_relay.Prelude.Int.{ℤ, is_pos, pos_part}
use acemcp_relay.Redis.{Redis, Delivery, delivered, not_run, reply_lost, two_days}
use acemcp_relay.Quota.Request.{Reservation, reserve_request_quota, reserve_both, bump}

-- The test that the script makes on one key: its limit is positive and used up.
abbrev pub exhausted : ℤ → ℕ → Bool
exhausted limit used = is_pos limit && leb (pos_part limit) used

-- A member counter of its own: `checkRequestQuotaDetailed` gives one key for both only together
-- with the member limit 0.
abbrev pub IsKeyed : Reservation → Type 0
IsKeyed q = (is_pos q.member_limit ≡ false) ⊎ ((q.member_key == q.pool_key) ≡ false)

-- The counter of the key `j` after an admitted reservation, from its value before.
abbrev pub moved : Reservation → Text → ℕ → ℕ
moved q j used =
    if (is_pos q.member_limit && q.member_key == j) || (is_pos q.pool_limit && q.pool_key == j)
    then used + 1
    else used

module _ (r : Redis) where
  open r use {State, counter, incr_by, expire}

  counter-bump :
      (s : State) (k j : Text)
      → counter (bump r s k) j ≡ (if k == j then counter s k + 1 else counter s j)
  unfolding bump
  counter-bump s k j =
      ground (arith, r.counter-incr_by s k 1 j, r.counter-expire (incr_by s k 1) k two_days j)

  -- How far one reservation moves the counter of the key `j`, once both checks have passed.
  counter-reserve_both :
      (s : State) (q : Reservation) (j : Text)
      → IsKeyed q
      → counter (reserve_both r s q).0 j ≡ moved q j (counter s j)
  unfolding reserve_both
  counter-reserve_both s q j h = ground (
    arith,
    counter-bump s q.member_key j,
    counter-bump s q.member_key q.pool_key,
    counter-bump s q.pool_key j,
    counter-bump (bump r s q.member_key) q.pool_key j,
    eq_iff q.member_key j,
    eq_iff q.pool_key j,
    eq_iff q.member_key q.pool_key,
  )

  -- A reservation whose reply arrives is admitted exactly when no positive limit is used up. Then
  -- it counts once under each limited key and nowhere else; a refused one changes no key at all.
  pub reserve_request_quota_exact :
      (s : State) (q : Reservation)
      → IsKeyed q
      → let (s', d) = reserve_request_quota r delivered s q in
        let refused =
          exhausted q.member_limit (counter s q.member_key)
          || exhausted q.pool_limit (counter s q.pool_key) in
        (d.allowed ≡ not refused)
        × (d.unavailable ≡ false)
        × ((j : Text) → counter s' j ≡ (if refused then counter s j else moved q j (counter s j)))
        × (refused ≡ true → s' ≡ s)
  unfolding reserve_request_quota reserve_both
  reserve_request_quota_exact s q h =
      (ground arith, ground arith, λ j. ground (arith, counter-reserve_both s q j h), ground arith)

  -- What any delivery does to one counter: it runs the whole script or nothing of it.
  pub counter-reserve_request_quota :
      (d : Delivery) (s : State) (q : Reservation) (j : Text)
      → IsKeyed q
      → let used = counter (reserve_request_quota r d s q).0 j in
        (used ≡ counter s j)
        ⊎ ((used ≡ moved q j (counter s j))
            × (exhausted q.member_limit (counter s q.member_key) ≡ false)
            × (exhausted q.pool_limit (counter s q.pool_key) ≡ false))
  unfolding reserve_request_quota reserve_both
  counter-reserve_request_quota delivered s q j h = ground (arith, counter-reserve_both s q j h)
  counter-reserve_request_quota not_run s q j h = ground arith
  counter-reserve_request_quota reply_lost s q j h = ground (arith, counter-reserve_both s q j h)
