-- ===== src/Quota/Request/Runs.antt =====
-- quota.go: sequences of request reservations, in the order in which Redis runs them.
use acemcp_relay.Prelude.{
  ℕ, zero, suc, ◌+◌, ◌-◌, ◌≤◌, ◌<◌, ◌≡◌, refl, inl, true, List, [], ◌∷◌, text_eq, Text, ◌==◌, ltb,
  if◌then◌else◌, arith, eq_iff, eq_self, All, min, replicate,
}
use acemcp_relay.Prelude.Int.{pos, pos_part}
use acemcp_relay.Redis.{Redis, Delivery, delivered}
use acemcp_relay.Quota.Request.{Reservation, personal_reservation, reserve_request_quota}
use acemcp_relay.Quota.Request.Laws.{
  IsKeyed, counter-reserve_request_quota, reserve_request_quota_exact,
}

module _ (r : Redis) where
  open r use {State, counter}

  -- One relay instance after another: the calls of all instances, as Redis serialises them.
  unfoldable pub run : State → List (Delivery × Reservation) → State
  run s [] = s
  run s ((d, q) ∷ calls) = run (reserve_request_quota r d s q).0 calls

  -- How many of the calls were let through.
  unfoldable pub admitted : State → List (Delivery × Reservation) → ℕ
  admitted s [] = 0
  admitted s ((d, q) ∷ calls) =
      let (s', decision) = reserve_request_quota r d s q in
      let rest = admitted s' calls in if decision.allowed then suc rest else rest

-- Every limit that the call sets on the key is positive and at most the cap.
abbrev pub Capped : Text → ℕ → Delivery × Reservation → Type 0
Capped k cap (d, q) =
    IsKeyed q
    × ((q.member_key == k) ≡ true → pos_part q.member_limit ≤ cap)
    × ((q.pool_key == k) ≡ true → pos_part q.pool_limit ≤ cap)

module _ (r : Redis) where
  open r use {State, counter}

  step-Capped :
      (s : State) (k : Text) (cap : ℕ) (c : Delivery × Reservation)
      → counter s k ≤ cap
      → Capped k cap c
      → counter (reserve_request_quota r c.0 s c.1).0 k ≤ cap
  step-Capped s k cap (d, q) h (keyed, member, pool) = ground (
    arith,
    counter-reserve_request_quota r d s q k keyed,
    eq_iff q.member_key k,
    eq_iff q.pool_key k,
  )

  -- Whatever instances call, in whatever order, and whichever replies get lost, a counter that is
  -- within a cap stays within it, if no call allows its key more than the cap.
  pub run-Capped :
      (s : State) (k : Text) (cap : ℕ) (calls : List (Delivery × Reservation))
      → counter s k ≤ cap
      → All (Capped k cap) calls
      → counter (run r s calls) k ≤ cap
  unfolding run
  run-Capped s k cap [] h _ = h
  run-Capped s k cap ((d, q) ∷ calls) h (c, cs) =
      run-Capped (reserve_request_quota r d s q).0 k cap calls (step-Capped s k cap (d, q) h c) cs

  personal_step :
      (s : State) (k : Text) (limit : ℕ)
      → let (s', d) =
          reserve_request_quota r delivered s (personal_reservation k (pos (suc limit))) in
        (d.allowed ≡ ltb (counter s k) (suc limit))
        × (counter s' k ≡ (if ltb (counter s k) (suc limit) then counter s k + 1 else counter s k))
  personal_step s k limit =
      let q = personal_reservation k (pos (suc limit)) in
      let (allowed, _, counted, _) = reserve_request_quota_exact r s q (inl refl) in
      (ground arith, ground (arith, counted k, eq_self k))

  -- Of n requests of one personal tenant with a limit, which come one after another, each of which
  -- gets its reply and between which nothing else changes the tenant's counter, as many are let
  -- through as the limit has left, no more and no fewer.
  pub admitted_personal :
      (n : ℕ) (s : State) (k : Text) (limit : ℕ)
      → 0 < limit
      → admitted r s (replicate n (delivered, personal_reservation k (pos limit)))
        ≡ min n (limit - counter s k)
  unfolding admitted
  admitted_personal zero s k limit h = omega arith
  admitted_personal (suc n) s k (suc limit) h =
      let s' = (reserve_request_quota r delivered s (personal_reservation k (pos (suc limit)))).0 in
      ground (arith, personal_step s k limit, admitted_personal n s' k (suc limit) h)
  admitted_personal (suc n) s k zero h = elim h [ ]
