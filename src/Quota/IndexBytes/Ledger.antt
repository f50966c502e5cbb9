-- ===== src/Quota/IndexBytes/Ledger.antt =====
-- quota.go, `reserveFilesScript`: what the script writes into the ledger and the day's counter.
use acemcp_relay.Prelude.{
  ℕ, ◌+◌, ◌≡◌, refl, ◌∙◌, Bool, true, false, not, ◌&&◌, ◌||◌, List, [], ◌∷◌, text_eq, nat_eq, Text,
  ◌==◌, ltb, if◌then◌else◌, arith, lookup, All, eq_self,
}
use acemcp_relay.Prelude.Int.{pos}
use acemcp_relay.Strings.Decimal.{format_int}
use acemcp_relay.Redis.{Redis, two_days}
use acemcp_relay.Quota.IndexBytes.{Item, is_known, is_taken, collect, write_all, set_expiry}

module _ (r : Redis) where
  open r use {State, counter, ttl, hget, incr_by, expire, hset}

  pub hget-set_expiry : (s : State) (k h f : Text) → hget (set_expiry r s k) h f ≡ hget s h f
  unfolding set_expiry
  hget-set_expiry s k h f = ground (arith, r.hget-expire s k two_days h f)

  pub counter-set_expiry : (s : State) (k j : Text) → counter (set_expiry r s k) j ≡ counter s j
  unfolding set_expiry
  counter-set_expiry s k j = ground (arith, r.counter-expire s k two_days j)

  -- Writing the table `unseen` makes just its fields known besides those that were.
  pub known-write_all :
      (s : State) (ledger : Text) (unseen : List Item) (t : Text)
      → is_known (hget (write_all r s ledger unseen) ledger t)
        ≡ (is_taken (lookup t unseen) || is_known (hget s ledger t))
  unfolding write_all lookup
  known-write_all s ledger [] t = refl
  known-write_all s ledger ((token, bytes) ∷ unseen) t = ground (
    arith,
    known-write_all (hset s ledger token (format_int (pos bytes))) ledger unseen t,
    r.hget-hset_self s ledger token (format_int (pos bytes)) t,
  )

  pub counter-write_all :
      (s : State) (ledger : Text) (unseen : List Item) (k : Text)
      → (ledger == k) ≡ false
      → counter (write_all r s ledger unseen) k ≡ counter s k
  unfolding write_all
  counter-write_all s ledger [] k h = refl
  counter-write_all s ledger ((token, bytes) ∷ unseen) k h =
      counter-write_all (hset s ledger token (format_int (pos bytes))) ledger unseen k h
      ∙ r.counter-hset s ledger token (format_int (pos bytes)) k h

  -- The field of an item needs no charge: it is in the table, or was in the ledger.
  abbrev pub covered : State → Text → List Item → Item → Bool
  covered s ledger unseen (token, bytes) =
      not (ltb 0 bytes) || is_taken (lookup token unseen) || is_known (hget s ledger token)

  collect_keeps :
      (s : State) (ledger : Text) (unseen : List Item) (newly : ℕ) (items : List Item) (t : Text)
      → is_taken (lookup t unseen) ≡ true
      → is_taken (lookup t (collect r s ledger unseen newly items).0) ≡ true
  unfolding collect lookup
  collect_keeps s ledger unseen newly [] t h = h
  collect_keeps s ledger unseen newly ((token, bytes) ∷ items) t h =
      let fresh =
        ltb 0 bytes
        && not (is_taken (lookup token unseen))
        && not (is_known (hget s ledger token)) in
      collect_keeps s ledger (if fresh then (token, bytes) ∷ unseen else unseen)
        (if fresh then newly + bytes else newly) items t (ground (arith, h))

  -- Every item that was asked for is covered by the table that the loop leaves.
  pub collect-covered :
      (s : State) (ledger : Text) (unseen : List Item) (newly : ℕ) (items : List Item)
      → All (λ item. covered s ledger (collect r s ledger unseen newly items).0 item ≡ true) items
  unfolding collect lookup
  collect-covered s ledger unseen newly [] = tt
  collect-covered s ledger unseen newly ((token, bytes) ∷ items) =
      let fresh =
        ltb 0 bytes
        && not (is_taken (lookup token unseen))
        && not (is_known (hget s ledger token)) in
      let unseen' = if fresh then (token, bytes) ∷ unseen else unseen in
      let newly' = if fresh then newly + bytes else newly in
      let kept = collect_keeps s ledger unseen' newly' items token in
      (ground (arith, kept, eq_self token), collect-covered s ledger unseen' newly' items)

  -- If all items are known already, the loop finds nothing to charge.
  pub collect_of_known :
      (s : State) (ledger : Text) (items : List Item)
      → All (λ item. covered s ledger [] item ≡ true) items
      → collect r s ledger [] 0 items ≡ ([], 0)
  unfolding collect lookup
  collect_of_known s ledger [] h = refl
  collect_of_known s ledger ((token, bytes) ∷ items) (k, h) =
      ground (arith, collect_of_known s ledger items h)
