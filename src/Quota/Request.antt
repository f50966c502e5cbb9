-- ===== src/Quota/Request.antt =====
-- quota.go: the atomic reservation of one request (`reserveRequestQuotaScript`,
-- `reserveRequestQuota`). Counters are numbers without a bound; a limit is a signed integer, and
-- a limit that is not positive means no limit.
pub mod Laws
pub mod Runs
pub mod Tests
use acemcp_relay.Prelude.{
  ℕ, ◌+◌, ◌≡◌, Bool, true, false, not, ◌&&◌, ◌||◌, List, [], ◌∷◌, text_eq, nat_eq, Text, ◌==◌, leb,
  if◌then◌else◌,
}
use acemcp_relay.Prelude.Int.{ℤ, pos, is_pos, pos_part}
use acemcp_relay.Redis.{Redis, Delivery, delivered, not_run, reply_lost, two_days}

pub data Scope : Type 0 where
  unscoped personal member organization : Scope

pub record RequestQuotaDecision : Type 0 where
  pub allowed : Bool
  pub unavailable : Bool
  pub used : ℕ
  pub limit : ℕ
  pub scope : Scope

abbrev pub unavailable_decision : RequestQuotaDecision
unavailable_decision = record {
  allowed = false;
  unavailable = true;
  used = 0;
  limit = 0;
  scope = unscoped;
}

-- The keys and limits of one reservation.
pub record Reservation : Type 0 where
  pub member_key : Text
  pub member_limit : ℤ
  pub pool_key : Text
  pub pool_limit : ℤ

-- The part of `reserveRequestQuota` behind Eval: the reply must have four numbers.
unfoldable pub decision_of_reply : Reservation → List ℕ → Bool → RequestQuotaDecision
decision_of_reply q (allowed ∷ used ∷ limit ∷ scope_id ∷ []) true = record {
  allowed = allowed == 1;
  unavailable = false;
  used = used;
  limit = limit;
  scope =
      if scope_id == 1 && not (q.pool_key == q.member_key)
      then member
      else if scope_id == 2 && not (q.pool_key == q.member_key)
      then organization
      else personal;
}
decision_of_reply q _ _ = unavailable_decision

-- The arguments that `checkRequestQuotaDetailed` passes for a personal tenant.
abbrev pub personal_reservation : Text → ℤ → Reservation
personal_reservation key limit = record {
  member_key = key;
  member_limit = pos 0;
  pool_key = key;
  pool_limit = limit;
}

module _ (r : Redis) where
  open r use {State, counter, incr_by, expire}

  -- `INCR` of one key, with the expiry set on the first increment.
  unfoldable pub bump : State → Text → State
  bump s k = if counter s k + 1 == 1 then expire (incr_by s k 1) k two_days else incr_by s k 1

  -- The script after both checks.
  unfoldable pub reserve_both : State → Reservation → State × List ℕ
  unfolding bump
  reserve_both s q =
      let s1 = if is_pos q.member_limit then bump s q.member_key else s in
      let s2 = if is_pos q.pool_limit then bump s1 q.pool_key else s1 in
      if is_pos q.pool_limit
      then (s2, 1 ∷ (counter s1 q.pool_key + 1) ∷ pos_part q.pool_limit ∷ 2 ∷ [])
      else if is_pos q.member_limit
      then (s2, 1 ∷ (counter s q.member_key + 1) ∷ pos_part q.member_limit ∷ 1 ∷ [])
      else (s2, 1 ∷ 0 ∷ 0 ∷ 0 ∷ [])

  -- `reserveRequestQuotaScript`. A limit stands in a reply only where it is positive.
  unfoldable pub reserve_script : State → Reservation → State × List ℕ
  reserve_script s q =
      if is_pos q.member_limit && leb (pos_part q.member_limit) (counter s q.member_key)
      then (s, 0 ∷ counter s q.member_key ∷ pos_part q.member_limit ∷ 1 ∷ [])
      else if is_pos q.pool_limit && leb (pos_part q.pool_limit) (counter s q.pool_key)
      then (s, 0 ∷ counter s q.pool_key ∷ pos_part q.pool_limit ∷ 2 ∷ [])
      else reserve_both s q

  -- Eval, seen from the caller: the state after it, and the reply if one arrives.
  unfoldable pub eval : Delivery → State → Reservation → State × List ℕ × Bool
  unfolding reserve_script
  eval delivered s q = let (s', reply) = reserve_script s q in (s', reply, true)
  eval not_run s q = (s, [], false)
  eval reply_lost s q = let (s', reply) = reserve_script s q in (s', [], false)

  -- `reserveRequestQuota`
  unfoldable pub reserve_request_quota :
      Delivery → State → Reservation → State × RequestQuotaDecision
  unfolding eval decision_of_reply
  reserve_request_quota d s q =
      if not (is_pos q.member_limit) && not (is_pos q.pool_limit)
      then (s, record unavailable_decision { allowed = true; unavailable = false })
      else (let (s', reply, arrived) = eval d s q in (s', decision_of_reply q reply arrived))
