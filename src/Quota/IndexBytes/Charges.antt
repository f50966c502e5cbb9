-- ===== src/Quota/IndexBytes/Charges.antt =====
-- quota.go: what charging index bytes guarantees, by file (`chargeIndexFiles`) and by the call
-- (`chargeIndexBytesQuota`).
use acemcp_relay.Prelude.{
  ℕ, ◌+◌, ◌≤◌, ◌<◌, ◌≡◌, ◌≢◌, refl, inl, inr, true, false, ◌||◌, List, [], ◌∷◌, text_eq, nat_eq,
  Text, ◌==◌, ltb, leb, if◌then◌else◌, arith, lookup, All, eq_self, Bool-cases,
}
use acemcp_relay.Prelude.Int.{ℤ, pos, pos_part}
use acemcp_relay.Redis.{Redis, Delivery, delivered, not_run, reply_lost, two_days}
use acemcp_relay.Quota.IndexBytes.{
  Item, is_known, is_taken, collect, write_all, set_expiry, reserve_files_script, charge_script,
  charge_limited, charge_index_bytes, files_decision, bytes_decision, eval_bytes,
}
use acemcp_relay.Quota.IndexBytes.Ledger.{
  hget-set_expiry, counter-set_expiry, known-write_all, counter-write_all, covered, collect-covered,
  collect_of_known,
}

module _ (r : Redis) where
  open r use {State, counter, ttl, hget, incr_by, expire, hset}

  -- What an admitted run of the script leaves behind, with `newly` bytes to charge.
  counter-reserved :
      (s : State) (key ledger : Text) (unseen : List Item) (newly : ℕ)
      → (ledger == key) ≡ false
      → counter (incr_by (write_all r s ledger unseen) key newly) key ≡ counter s key + newly
  counter-reserved s key ledger unseen newly apart = ground (
    arith,
    r.counter-incr_by (write_all r s ledger unseen) key newly key,
    counter-write_all r s ledger unseen key apart,
    eq_self key,
  )

  -- A run that would pass the limit changes nothing.
  reserve_files_refused :
      (s : State) (key ledger : Text) (limit : ℕ) (items : List Item)
      → limit < counter s key + (collect r s ledger [] 0 items).1
      → reserve_files_script r s key ledger limit items ≡ (s, 0 ∷ counter s key ∷ 0 ∷ [])
  unfolding reserve_files_script
  reserve_files_refused s key ledger limit items h = ground arith

  -- A run within the limit counts what it reports, and makes the table's fields known.
  reserve_files_admitted :
      (s : State) (key ledger : Text) (limit : ℕ) (items : List Item)
      → (ledger == key) ≡ false
      → counter s key + (collect r s ledger [] 0 items).1 ≤ limit
      → let newly = (collect r s ledger [] 0 items).1 in
        let (s', reply) = reserve_files_script r s key ledger limit items in
        (counter s' key ≡ counter s key + newly)
        × (reply ≡ 1 ∷ (counter s key + newly) ∷ newly ∷ [])
  unfolding reserve_files_script
  reserve_files_admitted s key ledger limit items apart h =
      let unseen = (collect r s ledger [] 0 items).0 in
      let newly = (collect r s ledger [] 0 items).1 in
      let s1 = incr_by (write_all r s ledger unseen) key newly in
      ground (
        arith,
        counter-reserved s key ledger unseen newly apart,
        counter-set_expiry r s1 key key,
        counter-set_expiry r (set_expiry r s1 key) ledger key,
      )

  known_admitted :
      (s : State) (key ledger : Text) (limit : ℕ) (items : List Item) (t : Text)
      → counter s key + (collect r s ledger [] 0 items).1 ≤ limit
      → 0 < (collect r s ledger [] 0 items).1
      → is_known (hget (reserve_files_script r s key ledger limit items).0 ledger t)
        ≡ (is_taken (lookup t (collect r s ledger [] 0 items).0) || is_known (hget s ledger t))
  unfolding reserve_files_script
  known_admitted s key ledger limit items t h n =
      let unseen = (collect r s ledger [] 0 items).0 in
      let newly = (collect r s ledger [] 0 items).1 in
      let s0 = write_all r s ledger unseen in
      let s1 = incr_by s0 key newly in
      ground (
        arith,
        known-write_all r s ledger unseen t,
        r.hget-incr_by s0 key newly ledger t,
        hget-set_expiry r s1 key ledger t,
        hget-set_expiry r (set_expiry r s1 key) ledger ledger t,
      )

  covered_later :
      (s : State) (key ledger : Text) (limit : ℕ) (items rest : List Item)
      → counter s key + (collect r s ledger [] 0 items).1 ≤ limit
      → 0 < (collect r s ledger [] 0 items).1
      → All (λ item. covered r s ledger (collect r s ledger [] 0 items).0 item ≡ true) rest
      → All
          (λ item.
            covered r (reserve_files_script r s key ledger limit items).0 ledger [] item ≡ true)
          rest
  covered_later s key ledger limit items [] h n c = tt
  covered_later s key ledger limit items ((t, b) ∷ rest) h n (k, c) = (
    ground (arith, known_admitted s key ledger limit items t h n),
    covered_later s key ledger limit items rest h n c,
  )

  reserve_known :
      (s : State) (key ledger : Text) (limit : ℕ) (items : List Item)
      → All (λ item. covered r s ledger [] item ≡ true) items
      → counter s key ≤ limit
      → reserve_files_script r s key ledger limit items ≡ (s, 1 ∷ counter s key ∷ 0 ∷ [])
  unfolding reserve_files_script
  reserve_known s key ledger limit items k h =
      rw (collect_of_known r s ledger items k) (ground arith)

  reserve_nothing :
      (s : State) (key ledger : Text) (limit : ℕ) (items : List Item)
      → counter s key + (collect r s ledger [] 0 items).1 ≤ limit
      → (collect r s ledger [] 0 items).1 ≡ 0
      → reserve_files_script r s key ledger limit items ≡ (s, 1 ∷ counter s key ∷ 0 ∷ [])
  unfolding reserve_files_script
  reserve_nothing s key ledger limit items h n = ground arith

  -- Once a batch has been reserved, sending it again reserves nothing: the script answers yes with
  -- no byte charged and leaves the server as it is.
  reserve_replay :
      (s : State) (key ledger : Text) (limit : ℕ) (items : List Item)
      → (ledger == key) ≡ false
      → counter s key + (collect r s ledger [] 0 items).1 ≤ limit
      → let s' = (reserve_files_script r s key ledger limit items).0 in
        reserve_files_script r s' key ledger limit items ≡ (s', 1 ∷ counter s' key ∷ 0 ∷ [])
  reserve_replay s key ledger limit items apart h =
      elim (Bool-cases (ltb 0 (collect r s ledger [] 0 items).1)) [
        | inl some_new ↦
            let n : 0 < (collect r s ledger [] 0 items).1 = ground arith in
            let s' = (reserve_files_script r s key ledger limit items).0 in
            reserve_known s' key ledger limit items
              (covered_later s key ledger limit items items h n
                (collect-covered r s ledger [] 0 items))
              (omega (arith, (reserve_files_admitted s key ledger limit items apart h).0))
        | inr none_new ↦ let e = reserve_nothing s key ledger limit items h (ground arith) in rw e e
      ]

  -- When an attempt ran to the end, whether or not its reply arrived, and it was within the limit,
  -- then a second attempt with the same files is let through, charges nothing, and changes neither
  -- the server nor the metric.
  pub charge_limited_replay :
      (d : Delivery) (s : State) (total : ℕ) (limit : ℤ) (key ledger : Text) (items : List Item)
      → (ledger == key) ≡ false
      → d ≢ not_run
      → counter s key + (collect r s ledger [] 0 items).1 ≤ pos_part limit
      → let (s', total') = (charge_limited r d (s, total) limit key ledger items).0 in
        let (state, again) = charge_limited r delivered (s', total') limit key ledger items in
        (state ≡ (s', total')) × (again.allowed ≡ true) × (again.charged ≡ 0)
  unfolding charge_limited files_decision
  charge_limited_replay delivered s total limit key ledger items apart ran h =
      ground (arith, reserve_replay s key ledger (pos_part limit) items apart h)
  charge_limited_replay not_run s total limit key ledger items apart ran h = absurd (ran refl)
  charge_limited_replay reply_lost s total limit key ledger items apart ran h =
      ground (arith, reserve_replay s key ledger (pos_part limit) items apart h)

  -- Whatever becomes of the call, a day's counter within the limit stays within it; the bytes that
  -- an arrived reply reports as charged are what the counter and the metric have grown by; and a
  -- call without a reply is refused as unavailable.
  pub charge_limited_counts :
      (d : Delivery) (s : State) (total : ℕ) (limit : ℤ) (key ledger : Text) (items : List Item)
      → (ledger == key) ≡ false
      → counter s key ≤ pos_part limit
      → let ((s', total'), decision) = charge_limited r d (s, total) limit key ledger items in
        (counter s' key ≤ pos_part limit)
        × (d ≡ delivered
            → (counter s' key ≡ counter s key + decision.charged)
              × (total' ≡ total + decision.charged))
        × (d ≢ delivered → (decision.allowed ≡ false) × (decision.unavailable ≡ true))
  unfolding charge_limited files_decision
  charge_limited_counts delivered s total limit key ledger items apart h = ground (
    arith,
    reserve_files_refused s key ledger (pos_part limit) items,
    reserve_files_admitted s key ledger (pos_part limit) items apart,
  )
  charge_limited_counts not_run s total limit key ledger items apart h = ground arith
  charge_limited_counts reply_lost s total limit key ledger items apart h = ground (
    arith,
    reserve_files_refused s key ledger (pos_part limit) items,
    reserve_files_admitted s key ledger (pos_part limit) items apart,
  )

  counter-charge_script :
      (s : State) (key : Text) (requested limit : ℕ)
      → (limit < counter s key + requested
          → charge_script r s key requested limit ≡ (s, 0 ∷ counter s key ∷ []))
        × (counter s key + requested ≤ limit
            → (counter (charge_script r s key requested limit).0 key ≡ counter s key + requested)
              × ((charge_script r s key requested limit).1 ≡ 1 ∷ (counter s key + requested) ∷ []))
  unfolding charge_script
  counter-charge_script s key requested limit =
      let s' = incr_by s key requested in
      let added = r.counter-incr_by s key requested key in
      (
        λ h. ground arith,
        λ h. ground (arith, added, eq_self key, r.counter-expire s' key two_days key),
      )

  -- Charging by the call: a limited call of positive size that is delivered is allowed exactly if
  -- it fits, and then the day's counter and the metric grow by its bytes; refused, nothing changes.
  pub charge_index_bytes_exact :
      (s : State) (total limit bytes : ℕ) (key : Text)
      → 0 < limit
      → 0 < bytes
      → let ((s', total'), decision) =
          charge_index_bytes r delivered (s, total) (pos limit) key (pos bytes) in
        (decision.allowed ≡ leb (counter s key + bytes) limit)
        × (if decision.allowed
            then (counter s' key ≡ counter s key + bytes) × (total' ≡ total + bytes)
            else (s' ≡ s) × (total' ≡ total))
  unfolding charge_index_bytes eval_bytes bytes_decision
  charge_index_bytes_exact s total limit bytes key h k =
      let (refused, admitted) = counter-charge_script s key bytes limit in
      elim (Bool-cases (leb (counter s key + bytes) limit)) [
        | inl e ↦ ground (arith, admitted (ground arith))
        | inr e ↦ ground (arith, refused (ground arith))
      ]
