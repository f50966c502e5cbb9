-- ===== src/RootDeletion/Worker.antt =====
-- root_deletion_jobs.go: `processRootDeletion`, from the claimed job to the statement that it ends
-- with. What other components answer is an input: the configuration barrier, the tenant's lease,
-- the ownership test, and the reply of the cloud service (`lceClearIndexRootOperation`).
use acemcp_relay.Prelude.{
  ℕ, Bool, true, false, not, ◌&&◌, none, some, Option, text_eq, Text, ◌==◌, if◌then◌else◌,
}
use acemcp_relay.Prelude.Int.{ℤ, pos, negsuc}
use acemcp_relay.RootDeletion.{RootDeletionJob, Table, finish, record_error}

-- The receipt as JSON decodes it: `deleted` and `deletedFiles` may be absent.
pub record Receipt : Type 0 where
  pub operation_id : Text
  pub root_id : Text
  pub deleted : Option Bool
  pub deleted_files : Option ℤ

-- The outcome of the call: it failed or has no result, the result is an error, its content is not
-- JSON, or it is a receipt.
pub data CloudReply : Type 0 where
  no_reply error_reply malformed : CloudReply
  replied : Receipt → CloudReply

abbrev confirmed_count : Option Bool → Option ℤ → Option ℕ
confirmed_count (some _) (some (pos n)) = some n
confirmed_count (some _) (some (negsuc _)) = none
confirmed_count (some _) none = none
confirmed_count none _ = none

-- `rootDeletionReceipt`, of a receipt that was decoded.
unfoldable pub root_deletion_receipt : Receipt → RootDeletionJob → Option ℕ
root_deletion_receipt receipt job =
    if receipt.operation_id == job.id && receipt.root_id == job.root_id
    then confirmed_count receipt.deleted receipt.deleted_files
    else none

-- What a worker ends with: nothing, an error to record (deferred or not), or a completion.
pub data Outcome : Type 0 where
  leaves : Outcome
  records : Bool → Outcome
  completes : ℕ → Outcome

-- What the worker met on its way: whether it got the barrier and the lease, and whether the job
-- was still its own before it called the cloud service.
pub record Encounter : Type 0 where
  pub stopping : Bool
  pub barrier : Bool
  pub lease : Bool
  pub current : Bool
  pub reply : CloudReply

unfoldable pub settlement : RootDeletionJob → CloudReply → Outcome
settlement job no_reply = records false
settlement job error_reply = records false
settlement job malformed = records false
settlement job (replied receipt) = elim (root_deletion_receipt receipt job) [
  | none ↦ records false
  | some n ↦ completes n
]

-- `processRootDeletion`, up to its last statement.
unfoldable pub process : RootDeletionJob → Encounter → Outcome
process job e =
    if e.stopping
    then leaves
    else if not e.barrier
    then records true
    else if not e.lease
    then records true
    else if not e.current
    then leaves
    else settlement job e.reply

-- Its last statement, at a time and on the table of that time. An error of the completion is
-- recorded.
unfoldable pub conclude : ℕ → ℕ → RootDeletionJob → Outcome → Table → Table
conclude now local job leaves rows = rows
conclude now local job (records defer_only) rows = record_error now job defer_only rows
conclude now local job (completes n) rows =
    let (rows', done) = finish now job n local rows in
    if done then rows' else record_error now job false rows
