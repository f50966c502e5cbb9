-- ===== src/RateLimit/Tests.antt =====
-- Calls that are admitted and refused, and the input at which the theorem is applied.
use acemcp_relay.Prelude.{
  ◌≡◌, ◌<◌, ◌+◌, ◌-◌, ◌/◌, refl, [], ◌∷◌, bytes, text_beq, lookup, filter_by, arith,
}
use acemcp_relay.Strings.{trim_space}
use acemcp_relay.Index.Jobs.{lce_root_id}
use acemcp_relay.RateLimit.{check, check_index_start, check_delete_root, run, key_of, check_spaced}

limits_run : Unit {0}
unfolding bytes text_beq lookup filter_by trim_space lce_root_id check check_index_start
    check_delete_root run
limits_run = tt

-- The second start comes 5 seconds after the first, the third 30.
start_limited :
    (check_index_start (bytes "u") (bytes "r") 6000 ((key_of (bytes "u") (bytes "r"), 1000) ∷ [])).1
    ≡ 25
unfolding limits_run
start_limited = refl

start_admitted :
    (check_index_start
      (bytes "u")
      (bytes "r")
      31000
      ((key_of (bytes "u") (bytes "r"), 1000) ∷ [])).1
    ≡ 0
unfolding limits_run
start_admitted = refl

-- A root without a name is the default root.
deletion_limited :
    (check_delete_root (bytes "u") [] 2000 ((key_of (bytes "u") (bytes "default"), 1000) ∷ [])).1
    ≡ 59
unfolding limits_run
deletion_limited = refl

check_spaced_example :
    let seen' = run 30000 (check 30000 (bytes "k") 1000 []).0 ((bytes "l", 2000) ∷ []) in
    (check 30000 (bytes "k") 9000 seen' ≡ (seen', (1000 + 30000 - 9000 + 999) / 1000))
    × (0 < (1000 + 30000 - 9000 + 999) / 1000)
unfolding limits_run
check_spaced_example =
    check_spaced 30000 (bytes "k") 1000 [] ((bytes "l", 2000) ∷ []) 9000 (omega arith) refl
      (omega arith, tt) (omega arith)
