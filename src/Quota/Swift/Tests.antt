-- ===== src/Quota/Swift/Tests.antt =====
-- Parts charged, and the inputs at which the theorems are applied.
use acemcp_relay.Prelude.{◌≡◌, refl, true, false, some, text_eq, nat_eq, ◌==◌, bytes, text_beq}
use acemcp_relay.Prelude.Int.{pos}
use acemcp_relay.Strings.{trim_space}
use acemcp_relay.Redis.{delivered}
use acemcp_relay.Redis.Memory.{memory, start}
use acemcp_relay.Quota.Swift.{
  PartCharge, write_part, part_script, swift_script, part_decision, charge_part, check_content,
  check_part, check_upload,
}
use acemcp_relay.Quota.Swift.Charges.{charge_part_replay}

parts : Unit {0}
unfolding bytes text_beq trim_space write_part part_script swift_script part_decision charge_part
    check_content check_part check_upload
parts = tt

abbrev part : PartCharge
part = record {
  counter_key = bytes "c";
  ledger_key = bytes "l";
  part = bytes "0";
  token = bytes "t:3";
  size = 3;
  limit = pos 5;
}

abbrev changed : PartCharge
changed = record part { token = bytes "u:3" }

uploaded :
    check_upload
      (λ s. some (bytes "x"))
      (λ s. bytes "eA==")
      (some (bytes "eA=="))
      (some (bytes "j"))
      (some (pos 0))
      (some (bytes " r"))
    ≡ some (record { root = bytes "r"; job = bytes "j"; part = 0; content = bytes "x" })
unfolding parts
uploaded = refl

charge_part_replay_example :
    let after = (swift_script memory start part).0 in
    let ((after', metric'), decision, conflict) = charge_part memory delivered (after, 3) changed in
    (memory.counter after' (bytes "c") ≡ memory.counter after (bytes "c"))
    × (metric' ≡ 3)
    × (decision.charged ≡ 0)
    × ((part.token == changed.token) ≡ true → (decision.allowed ≡ true) × (conflict ≡ false))
    × ((part.token == changed.token) ≡ false → (decision.allowed ≡ false) × (conflict ≡ true))
unfolding parts
charge_part_replay_example = charge_part_replay memory start part changed 3 refl refl refl
