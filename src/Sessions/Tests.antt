-- ===== src/Sessions/Tests.antt =====
-- Sessions that make room, and the inputs at which the theorems are applied.
use acemcp_relay.Prelude.{
  ◌<◌, ◌≡◌, refl, [], ◌∷◌, bytes, text_beq, length, count_by, filter_by, arith,
}
use acemcp_relay.Sessions.{
  Sessions, prune_expired, text_lt, oldest, remove, evict_oldest, count_for_user, shrink,
  prepare_slot,
}
use acemcp_relay.Sessions.Bounds.{prepare_slot_fits}

slots : Unit {0}
unfolding bytes text_beq count_by filter_by prune_expired text_lt oldest remove evict_oldest
    count_for_user shrink prepare_slot
slots = tt

abbrev three : Sessions
three =
    record { id = bytes "b"; user_id = bytes "u"; last_activity = 20 }
    ∷ record { id = bytes "a"; user_id = bytes "u"; last_activity = 20 }
    ∷ record { id = bytes "c"; user_id = bytes "v"; last_activity = 10 }
    ∷ []

-- Of two that were last used at the same time, the smaller id goes.
smaller_goes : (prepare_slot (bytes "u") 30 50 2 9 three).2 ≡ bytes "a" ∷ []
unfolding slots
smaller_goes = refl

prepare_slot_fits_example :
    let (kept, _, _) = prepare_slot (bytes "u") 30 50 2 3 three in
    (count_for_user (bytes "u") kept < 2) × (length kept < 3)
unfolding slots
prepare_slot_fits_example =
    prepare_slot_fits (bytes "u") 30 50 2 3 three refl (omega arith) (omega arith)
