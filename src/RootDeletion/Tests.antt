-- ===== src/RootDeletion/Tests.antt =====
-- A deletion from its submission to its end, and the inputs at which the theorems are applied.
use acemcp_relay.Prelude.{
  ◌==◌, text_eq, update_where, update_first, find, is_some, ◌≤◌, ◌≡◌, refl, true, false, List, [],
  ◌∷◌, some, bytes, text_beq, arith, count_by,
}
use acemcp_relay.Prelude.Int.{pos}
use acemcp_relay.RootDeletion.{
  RootDeletionJob, Table, claim, take_up, record_error, finish, attempt_current, prune, retry_delay,
}
use acemcp_relay.RootDeletion.Submit.{Submission, new_job, resubmit, admit, answer, submit}
use acemcp_relay.RootDeletion.Worker.{
  completes, replied, process, settlement, root_deletion_receipt, conclude,
}
use acemcp_relay.RootDeletion.Calls.{
  Call, submits, claims, prunes, step, run, active, run-OneActive,
}
use acemcp_relay.RootDeletion.Finality.{finish_final}
use acemcp_relay.RootDeletion.Retries.{record_error_retried}

deletions : Unit {0}
unfolding bytes text_beq update_where update_first find claim record_error finish attempt_current
    prune retry_delay resubmit admit answer submit process settlement root_deletion_receipt conclude
    step run count_by
deletions = tt

abbrev fresh_request : Submission
fresh_request = record {
  tenant_id = bytes "t";
  actor_id = bytes "owner";
  root_id = bytes "root";
  retry_job_id = [];
  new_id = bytes "job";
  busy = false;
  limited = false;
}

abbrev recovery_request : Submission
recovery_request = record fresh_request { retry_job_id = bytes "job" }

abbrev submitted : Table
submitted = new_job 1 fresh_request ∷ []

abbrev job : RootDeletionJob
job = take_up 2 (bytes "a") (new_job 1 fresh_request)

abbrev working : Table
working = job ∷ []

abbrev calls : List Call
calls = submits 1 fresh_request ∷ claims 2 (bytes "a") ∷ []

abbrev later_calls : List Call
later_calls =
    prunes 5
    ∷ submits 6 (record fresh_request { new_id = bytes "next" })
    ∷ claims 2000000 (bytes "b")
    ∷ []

submission_claimed : run [] calls ≡ working
unfolding deletions
submission_claimed = refl

-- A receipt for this job completes it.
confirmed :
    process job (record {
      stopping = false;
      barrier = true;
      lease = true;
      current = true;
      reply = replied (record {
        operation_id = bytes "job";
        root_id = bytes "root";
        deleted = some true;
        deleted_files = some (pos 7);
      });
    })
    ≡ completes 7
unfolding deletions
confirmed = refl

run-OneActive_example : active (bytes "t") (run [] calls) ≤ 1
unfolding deletions
run-OneActive_example = run-OneActive (bytes "t") [] calls none_active
  where
    none_active : active (bytes "t") [] ≤ 1
    none_active = omega arith

-- A worker whose attempt is a later one.
abbrev other_attempt : RootDeletionJob
other_attempt = take_up 8000000 (bytes "c") job

finish_final_example :
    let rows = run (finish 4 job 7 0 working).0 later_calls in
    ((claim 9000000 (bytes "d") rows).1 ≡ some other_attempt → (other_attempt.id == job.id) ≡ false)
    × (attempt_current 9000000 other_attempt rows ≡ false)
    × (conclude 9000000 0 other_attempt (completes 7) rows ≡ rows)
unfolding deletions
finish_final_example =
    finish_final job 4 7 0 working later_calls (λ e. refl, tt) refl (tt, (refl, (tt, tt))) 9000000 0
      (bytes "d") other_attempt other_attempt (completes 7) refl

record_error_retried_example :
    (is_some (claim 5003 (bytes "b") (record_error 3 job false working)).1 ≡ true)
    × (5000 ≤ retry_delay 1)
    × (retry_delay 1 ≤ 600000)
unfolding deletions
record_error_retried_example =
    record_error_retried 3 5003 job false (bytes "b") working refl (omega arith) (omega arith)
