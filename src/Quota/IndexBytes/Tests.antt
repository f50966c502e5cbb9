-- ===== src/Quota/IndexBytes/Tests.antt =====
-- Runs of index byte charges, and the inputs at which their theorems are applied.
use acemcp_relay.Prelude.{
  ◌+◌, ◌≤◌, ◌≡◌, ◌≢◌, refl, true, false, List, [], ◌∷◌, Text, bytes, text_beq, arith, lookup,
}
use acemcp_relay.Prelude.Int.{pos}
use acemcp_relay.Redis.{delivered, reply_lost}
use acemcp_relay.Redis.Memory.{memory, start}
use acemcp_relay.Quota.IndexBytes.{
  Item, collect, write_all, set_expiry, reserve_files_script, charge_limited, charge_index_bytes,
  charge_script, eval_bytes, bytes_decision, files_decision,
}
use acemcp_relay.Quota.IndexBytes.Charges.{charge_limited_replay, charge_limited_counts}

charges : Unit {0}
unfolding bytes text_beq lookup collect write_all set_expiry reserve_files_script charge_limited
    files_decision charge_index_bytes eval_bytes bytes_decision charge_script
charges = tt

abbrev key : Text
key = bytes "quota:indexbytes:u"

abbrev ledger : Text
ledger = bytes "quota:indexfiles:u"

-- One file stands twice in the batch.
abbrev batch : List Item
batch = (bytes "t1", 5) ∷ (bytes "t2", 7) ∷ (bytes "t1", 5) ∷ []

charged_once :
    (charge_limited memory delivered (start, 0) (pos 100) key ledger batch).1.charged ≡ 12
unfolding charges
charged_once = refl

charge_limited_replay_example :
    let (s', total') = (charge_limited memory reply_lost (start, 0) (pos 100) key ledger batch).0 in
    let (state, again) = charge_limited memory delivered (s', total') (pos 100) key ledger batch in
    (state ≡ (s', total')) × (again.allowed ≡ true) × (again.charged ≡ 0)
unfolding charges
charge_limited_replay_example =
    charge_limited_replay memory reply_lost start 0 (pos 100) key ledger batch refl (λ e. cc)
      (omega arith)

charge_limited_counts_example :
    let ((s', total'), decision) =
      charge_limited memory delivered (start, 0) (pos 100) key ledger batch in
    (s'.counters key ≤ 100)
    × (delivered ≡ delivered
        → (s'.counters key ≡ 0 + decision.charged) × (total' ≡ 0 + decision.charged))
    × (delivered ≢ delivered → (decision.allowed ≡ false) × (decision.unavailable ≡ true))
unfolding charges
charge_limited_counts_example =
    charge_limited_counts memory delivered start 0 (pos 100) key ledger batch refl (omega arith)
