-- ===== src/Quota/Swift/Charges.antt =====
-- swift_quota.go: one part is charged once, never twice and never beyond the limit.
use acemcp_relay.Prelude.{
  ℕ, ◌≡◌, refl, true, false, Option, none, some, text_eq, nat_eq, Text, ◌==◌, arith, eq_iff,
  eq_self,
}
use acemcp_relay.Prelude.Int.{pos, int_eq}
use acemcp_relay.Redis.{Redis, delivered, two_days}
use acemcp_relay.Quota.Swift.{
  PartCharge, write_part, part_script, swift_script, part_decision, charge_part,
}

-- The ledger's key is not the counter's: the one begins `quota:swift-parts:`, the other
-- `quota:indexbytes:`.
abbrev pub IsSplit : PartCharge → Type 0
IsSplit q = (q.ledger_key == q.counter_key) ≡ false

module _ (r : Redis) where
  open r use {State, counter, hget, incr_by, expire, hset}

  hget-write_part :
      (s : State) (q : PartCharge) → hget (write_part r s q) q.ledger_key q.part ≡ some q.token
  unfolding write_part
  hget-write_part s q = ground (
    arith,
    r.hget-expire
        (expire (hset (incr_by s q.counter_key q.size) q.ledger_key q.part q.token) q.counter_key
          two_days)
        q.ledger_key two_days q.ledger_key q.part,
    r.hget-expire (hset (incr_by s q.counter_key q.size) q.ledger_key q.part q.token) q.counter_key
        two_days q.ledger_key q.part,
    r.hget-hset_self (incr_by s q.counter_key q.size) q.ledger_key q.part q.token q.part,
    eq_self q.part,
  )

  -- A part that the script admits is in the ledger afterwards.
  admitted-ledger :
      (s : State) (q : PartCharge) (found : Option Text)
      → hget s q.ledger_key q.part ≡ found
      → (part_script r s q found).1.status ≡ pos 1
      → hget (part_script r s q found).0 q.ledger_key q.part ≡ some q.token
  unfolding part_script
  admitted-ledger s q none e h = ground (arith, hget-write_part s q)
  admitted-ledger s q (some previous) e h =
      ground (
        arith,
        e,
        eq_iff previous q.token,
        r.hget-expire s q.ledger_key two_days q.ledger_key q.part,
      )

  known_part :
      (s : State) (q : PartCharge) (previous : Text) (metric : ℕ)
      → hget s q.ledger_key q.part ≡ some previous
      → let ((s', metric'), decision, conflict) = charge_part r delivered (s, metric) q in
        (counter s' q.counter_key ≡ counter s q.counter_key)
        × (metric' ≡ metric)
        × (decision.charged ≡ 0)
        × ((previous == q.token) ≡ true → (decision.allowed ≡ true) × (conflict ≡ false))
        × ((previous == q.token) ≡ false → (decision.allowed ≡ false) × (conflict ≡ true))
  unfolding charge_part swift_script part_decision part_script
  known_part s q previous metric e =
      rw e (ground (arith, r.counter-expire s q.ledger_key two_days q.counter_key))

  -- When a call of the charge has run and admitted its part, then a later call for the same part
  -- charges nothing, even where the first reply was lost: with the same content it is admitted,
  -- and with any other it is refused as a conflict.
  pub charge_part_replay :
      (s : State) (q again : PartCharge) (metric : ℕ)
      → (swift_script r s q).1.status ≡ pos 1
      → again.ledger_key ≡ q.ledger_key
      → again.part ≡ q.part
      → let after = (swift_script r s q).0 in
        let ((after', metric'), decision, conflict) =
          charge_part r delivered (after, metric) again in
        (counter after' again.counter_key ≡ counter after again.counter_key)
        × (metric' ≡ metric)
        × (decision.charged ≡ 0)
        × ((q.token == again.token) ≡ true → (decision.allowed ≡ true) × (conflict ≡ false))
        × ((q.token == again.token) ≡ false → (decision.allowed ≡ false) × (conflict ≡ true))
  unfolding swift_script
  charge_part_replay s q again metric h lk pk =
      known_part (swift_script r s q).0 again q.token metric
        (rw lk (rw pk (admitted-ledger s q (hget s q.ledger_key q.part) refl h)))
