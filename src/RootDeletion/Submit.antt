-- ===== src/RootDeletion/Submit.antt =====
-- root_deletion_jobs.go: `submitRootDeletion`, under the tenant's lock. The leases, the index jobs
-- and the configuration jobs that would be in the way are one input, `busy`.
use acemcp_relay.Prelude.{
  update_where, find, ℕ, Bool, false, not, ◌&&◌, ◌||◌, [], ◌∷◌, ◌++◌, Option, none, some, text_eq,
  Text, ◌==◌, if◌then◌else◌,
}
use acemcp_relay.RootDeletion.{RootDeletionJob, Table, queued, no_error, is_active}

-- The errors of `submitRootDeletion`: errIndexOperationBusy, errRootDeletionRateLimited and
-- sql.ErrNoRows.
pub data Refusal : Type 0 where
  operation_busy rate_limited no_rows : Refusal

pub data Reply : Type 0 where
  accepted : RootDeletionJob → Reply
  refused : Refusal → Reply

-- `retry_job_id` is empty for a new deletion. `new_id` is the UUID drawn for a new row.
pub record Submission : Type 0 where
  pub tenant_id : Text
  pub actor_id : Text
  pub root_id : Text
  pub retry_job_id : Text
  pub new_id : Text
  pub busy : Bool
  pub limited : Bool

abbrev pub is_retry : Submission → Bool
is_retry q = not (q.retry_job_id == [])

-- The row that the index on active tenants allows one of.
abbrev pub is_active_of : Text → RootDeletionJob → Bool
is_active_of tenant j = j.tenant_id == tenant && is_active j.status

-- The row that a recovery request names.
abbrev pub is_named : Submission → RootDeletionJob → Bool
is_named q j = j.id == q.retry_job_id && j.tenant_id == q.tenant_id && j.root_id == q.root_id

abbrev pub new_job : ℕ → Submission → RootDeletionJob
new_job now q = record {
  id = q.new_id;
  tenant_id = q.tenant_id;
  actor_id = q.actor_id;
  root_id = q.root_id;
  status = queued;
  attempt_id = none;
  claim_until = none;
  attempt_count = 0;
  recovery_required = false;
  next_attempt_at = now;
  deleted_files = 0;
  error = no_error;
  updated_at = now;
}

abbrev pub is_recoverable : RootDeletionJob → RootDeletionJob → Bool
is_recoverable job j = j.id == job.id && j.tenant_id == job.tenant_id && j.recovery_required

abbrev pub recover : ℕ → RootDeletionJob → RootDeletionJob
recover now j = record j {
  recovery_required = false;
  attempt_count = 0;
  error = no_error;
  next_attempt_at = now;
  updated_at = now;
}

-- With an unfinished deletion of the tenant.
unfoldable pub resubmit : ℕ → Submission → RootDeletionJob → Table → Table × Reply
resubmit now q job rows =
    if not (job.root_id == q.root_id) || is_retry q && not (q.retry_job_id == job.id)
    then (rows, refused operation_busy)
    else if is_retry q && job.recovery_required
    then (update_where (is_recoverable job) (recover now) rows, accepted (recover now job))
    else (rows, accepted job)

-- Without one: a recovery request reads its row, any other submission inserts one.
unfoldable pub admit : ℕ → Submission → Table → Table × Reply
admit now q rows =
    let recorded : Reply = elim (find (is_named q) rows) [
      | none ↦ refused no_rows
      | some job ↦ accepted job
    ] in
    if is_retry q
    then (rows, recorded)
    else if q.busy
    then (rows, refused operation_busy)
    else if q.limited
    then (rows, refused rate_limited)
    else (rows ++ new_job now q ∷ [], accepted (new_job now q))

-- By the tenant's unfinished row, if there is one.
unfoldable pub answer : ℕ → Submission → Table → Option RootDeletionJob → Table × Reply
answer now q rows none = admit now q rows
answer now q rows (some job) = resubmit now q job rows

-- `submitRootDeletion`
unfoldable pub submit : ℕ → Submission → Table → Table × Reply
submit now q rows = answer now q rows (find (is_active_of q.tenant_id) rows)
