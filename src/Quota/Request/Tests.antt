-- ===== src/Quota/Request/Tests.antt =====
-- Runs of request reservations, and the inputs at which their theorems are applied.
use acemcp_relay.Prelude.{
  ◌-◌, ◌≤◌, ◌≡◌, refl, inr, true, List, [], ◌∷◌, bytes, text_beq, text_eq, arith, replicate, min,
}
use acemcp_relay.Prelude.Int.{pos}
use acemcp_relay.Redis.{delivered, reply_lost, Delivery}
use acemcp_relay.Redis.Memory.{memory, start}
use acemcp_relay.Quota.Request.{
  Reservation, personal_reservation, reserve_request_quota, reserve_script, reserve_both, bump,
  eval, decision_of_reply,
}
use acemcp_relay.Quota.Request.Laws.{reserve_request_quota_exact}
use acemcp_relay.Quota.Request.Runs.{run, admitted, run-Capped, admitted_personal}

requests : Unit {0}
unfolding bytes text_beq reserve_request_quota reserve_script reserve_both bump eval
    decision_of_reply run admitted
requests = tt

abbrev of_member : Reservation
of_member = record {
  member_key = bytes "quota:used:org:o:u:d";
  member_limit = pos 1;
  pool_key = bytes "quota:used:o:d";
  pool_limit = pos 2;
}

abbrev twice : List (Delivery × Reservation)
twice = (delivered, of_member) ∷ (reply_lost, of_member) ∷ []

-- The member's limit stops the second request, and the pool is not charged for it.
second_refused : (run memory start twice).counters (bytes "quota:used:o:d") ≡ 1
unfolding requests
second_refused = refl

reserve_request_quota_exact_example :
    (reserve_request_quota memory delivered start of_member).1.allowed ≡ true
unfolding requests
reserve_request_quota_exact_example =
    (reserve_request_quota_exact memory start of_member (inr refl)).0

run-Capped_example : (run memory start twice).counters (bytes "quota:used:o:d") ≤ 2
unfolding requests
run-Capped_example = run-Capped memory start (bytes "quota:used:o:d") 2 twice (omega arith) (
  (inr refl, λ e. omega arith, λ e. omega arith),
  ((inr refl, λ e. omega arith, λ e. omega arith), tt),
)

admitted_personal_example :
    admitted memory start (replicate 5 (delivered, personal_reservation (bytes "k") (pos 3)))
    ≡ min 5 (3 - memory.counter start (bytes "k"))
admitted_personal_example = admitted_personal memory 5 start (bytes "k") 3 (omega arith)
