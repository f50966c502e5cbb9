-- ===== src/Index/Leases/Tests.antt =====
-- Runs of the lease statements, and the inputs at which their theorems are applied.
use acemcp_relay.Prelude.{
  ◌≡◌, refl, true, false, List, [], ◌∷◌, Text, bytes, text_beq, filter_by, count_by, any, arith,
}
use acemcp_relay.Index.Leases.{
  Request, shared, exclusive, IndexOperationMode, expire, granted, try_acquire, may_acquire,
  conflicts, is_upload_of, renew, release, upload_batch_kind, delete_root_kind,
}
use acemcp_relay.Index.Leases.Safety.{IsSafe, try_acquire-IsSafe}
use acemcp_relay.Index.Leases.Calls.{
  Call, acquires, renews, run, step, run-IsSafe, try_acquire_free,
}

leases : Unit {0}
unfolding bytes text_beq filter_by count_by any expire try_acquire may_acquire conflicts
    is_upload_of renew release upload_batch_kind delete_root_kind run step
leases = tt

abbrev asks : Text → Text → IndexOperationMode → Text → Request
asks token resource mode kind = record {
  token = token;
  user_id = bytes "u";
  resource = resource;
  mode = mode;
  kind = kind;
  deleting = false;
  reconfiguring = false;
}

abbrev upload : Text → Request
upload token = asks token (bytes "job:1") shared (bytes "upload-batch")

empty-IsSafe : IsSafe []
unfolding leases
empty-IsSafe = record { compatible = tt; bounded = λ user resource. ground arith }

abbrev calls : List Call
calls =
    acquires 10 (upload (bytes "a"))
    ∷ acquires 20 (upload (bytes "b"))
    ∷ renews 30 (bytes "u") (bytes "a")
    ∷ acquires 40 (asks (bytes "c") (bytes "*") exclusive (bytes "create-job"))
    ∷ []

run-IsSafe_example : IsSafe (run [] calls)
run-IsSafe_example = run-IsSafe [] calls empty-IsSafe

try_acquire-IsSafe_example : IsSafe (try_acquire 10 (upload (bytes "a")) []).0
try_acquire-IsSafe_example = try_acquire-IsSafe 10 (upload (bytes "a")) [] empty-IsSafe

-- Two upload batches of one job stand side by side; the exclusive request is refused.
two_uploads :
    (try_acquire 40 (asks (bytes "c") (bytes "*") exclusive (bytes "create-job")) (run [] calls)).1
    ≡ false
unfolding leases
two_uploads = refl

abbrev fenced : Request
fenced = record (upload (bytes "a")) { deleting = true }

-- At 200000 both uploads have expired.
try_acquire_free_example :
    try_acquire 200000 (upload (bytes "d")) (run [] calls)
    ≡ (granted 200000 (upload (bytes "d")) ∷ expire 200000 (bytes "u") (run [] calls), true)
unfolding leases
try_acquire_free_example =
    try_acquire_free 200000 (upload (bytes "d")) (run [] calls) refl refl refl
