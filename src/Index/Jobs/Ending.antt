-- ===== src/Index/Jobs/Ending.antt =====
-- index_jobs.go: how jobs end but by a completion: `failIndexJob`, `sweepExpiredIndexJobs`, and
-- the deletion of a tenant's or a root's state. `index_job_files` refers to `index_jobs` with ON
-- DELETE CASCADE. The cloud aborts that follow a commit change no table.
use mathlib.Core.List.{reverse}
use acemcp_relay.Prelude.{
  ℕ, ◌+◌, Bool, true, false, not, ◌&&◌, ◌||◌, List, [], ◌∷◌, Option, none, some, text_eq, nat_eq,
  Text, bytes, ◌==◌, ltb, if◌then◌else◌, filter_by, any, update_where, find, length,
}
use acemcp_relay.Strings.{trim_space}
use acemcp_relay.Strings.Truncation.{truncate_utf8}
use acemcp_relay.Failure.{IndexFailureDiagnostic}
use acemcp_relay.Index.Jobs.{
  IndexJob, Db, Workspace, IndexedFile, failed, timed_out, Phase, is_running, is_completed,
  is_created, is_publishing, initial_upload_timeout, heartbeat_timeout, is_job, is_open,
  update_jobs, drop_manifest, is_file_of_any, fail_with, lce_root_id,
}

-- A job that fails by a report or by its publication.
abbrev pub fail_now : ℕ → Text → Option IndexFailureDiagnostic → IndexJob → IndexJob
fail_now now failure diagnostic j = record (fail_with failed failure diagnostic j) {
  heartbeat_at = now;
  completed_at = some now;
}

-- `markIndexJobFailed` and the DELETE that follows it in the same transaction; nothing is deleted
-- where no row was updated. The second component is the count of updated rows, above 0 or not.
unfoldable pub mark_failed : ℕ → Text → Text → Text → Option IndexFailureDiagnostic → Db → Db × Bool
mark_failed now user id failure diagnostic db =
    if any (is_open user id) db.jobs
    then (
      drop_manifest id (update_jobs (is_open user id) (fail_now now failure diagnostic) db),
      true,
    )
    else (db, false)

-- The replies of `failIndexJob`: the job as it is (`stands`), or failed now.
pub data FailReply : Type 0 where
  id_required not_found not_running marked : FailReply
  stands : IndexJob → FailReply

abbrev fail_reply : Bool → FailReply
fail_reply true = marked
fail_reply false = not_running

-- `failIndexJob` on the job that it has loaded. `between` is what other transactions do until the
-- tenant's lock is taken.
unfoldable pub fail_loaded :
    (Db → Db)
    → ℕ
    → Text
    → Text
    → Text
    → Option IndexFailureDiagnostic
    → Option IndexJob
    → Db
    → Db × FailReply
fail_loaded between now user id failure diagnostic none db = (db, not_found)
fail_loaded between now user id failure diagnostic (some j) db =
    let (db', updated) = mark_failed now user id failure diagnostic (between db) in
    let locked = if any (is_job user id) (between db).jobs then fail_reply updated else not_found in
    if is_publishing j.phase || is_completed j.status then (db, stands j) else (db', locked)

-- The error text that `failIndexJob` stores.
unfoldable pub reported_failure : Text → Text
unfolding bytes
reported_failure failure =
    let trimmed = trim_space failure in
    let short = truncate_utf8 trimmed 2000 in
    if ltb 2000 (length trimmed)
    then short
    else if trimmed == []
    then bytes "client reported indexing failure"
    else trimmed

-- `failIndexJob`
unfoldable pub fail_index_job :
    (Db → Db) → ℕ → Text → Text → Text → Option IndexFailureDiagnostic → Db → Db × FailReply
fail_index_job between now user id failure diagnostic db =
    let job = trim_space id in
    let loaded = find (is_job user job) db.jobs in
    if job == []
    then (db, id_required)
    else fail_loaded between now user job (reported_failure failure) diagnostic loaded db

-- A job that the sweep or a new start finds expired: the heartbeat stays as it was.
abbrev pub time_out : ℕ → Text → Option IndexFailureDiagnostic → IndexJob → IndexJob
time_out now failure diagnostic j = record (fail_with timed_out failure diagnostic j) {
  completed_at = some now;
}

-- The WHERE of the sweep.
unfoldable pub is_swept : ℕ → IndexJob → Bool
is_swept now j =
    is_running j.status
    && (is_created j.phase && ltb (j.heartbeat_at + initial_upload_timeout) now
        || not (is_created j.phase || is_publishing j.phase)
          && ltb (j.heartbeat_at + heartbeat_timeout) now)

-- The CASE expressions of the sweep.
unfoldable pub swept_error : Phase → Text
unfolding bytes
swept_error phase =
    if is_created phase
    then bytes "index client disconnected before first upload"
    else bytes "index job heartbeat timed out"

unfoldable pub swept_diagnostic : Phase → IndexFailureDiagnostic
unfolding bytes
swept_diagnostic phase = record {
  code = if is_created phase then bytes "client_disconnected" else bytes "heartbeat_timeout";
  origin = if is_created phase then bytes "client" else bytes "relay";
  recovery = bytes "restart_client";
}

abbrev pub sweep_row : ℕ → IndexJob → IndexJob
sweep_row now j = time_out now (swept_error j.phase) (some (swept_diagnostic j.phase)) j

-- `sweepExpiredIndexJobs`; a row that another transaction has locked is skipped, which is the
-- input `is_locked`.
unfoldable pub sweep : (IndexJob → Bool) → ℕ → Db → Db
sweep is_locked now db =
    let p = λ (j : IndexJob). is_swept now j && not (is_locked j) in
    record db {
      jobs = update_where p (sweep_row now) db.jobs;
      job_files = filter_by (λ r. not (is_file_of_any p db.jobs r)) db.job_files;
    }

-- DELETE FROM index_jobs WHERE …, with the rows that refer to the deleted ones.
unfoldable pub delete_jobs : (IndexJob → Bool) → Db → Db
delete_jobs p db = record db {
  jobs = filter_by (λ j. not (p j)) db.jobs;
  job_files = filter_by (λ r. not (is_file_of_any p db.jobs r)) db.job_files;
}

-- `clearUserIndexStateTx`
unfoldable pub clear_user : Text → Db → Db
clear_user user db = record (delete_jobs (λ j. j.user_id == user) db) {
  indexed_files = filter_by (λ r. not (r.user_id == user)) db.indexed_files;
  workspaces = filter_by (λ w. not (w.user_id == user)) db.workspaces;
}

drop_spaces : Text → Text
drop_spaces [] = []
drop_spaces (a ∷ s) = let rest = drop_spaces s in if a == 0x20 then rest else a ∷ s

-- BTRIM, which removes the spaces only.
unfoldable pub btrim : Text → Text
unfolding drop_spaces
btrim s = reverse (drop_spaces (reverse (drop_spaces s)))

-- `CASE WHEN BTRIM(root_id) = '' THEN 'default' ELSE BTRIM(root_id) END`
unfoldable pub stored_root : Text → Text
unfolding bytes
stored_root root = if btrim root == [] then bytes "default" else btrim root

abbrev pub is_job_of_root : Text → Text → IndexJob → Bool
is_job_of_root user root j = j.user_id == user && stored_root j.root_id == lce_root_id root

abbrev pub is_workspace_of_root : Text → Text → Workspace → Bool
is_workspace_of_root user root w = w.user_id == user && stored_root w.root_id == lce_root_id root

-- The join of the second DELETE.
unfoldable pub is_file_of_root : Text → Text → List Workspace → IndexedFile → Bool
is_file_of_root user root rows r =
    r.user_id == user
    && any (λ w. is_workspace_of_root user root w && w.workspace_id == r.workspace_id) rows

-- `clearRootIndexStateTx`
unfoldable pub clear_root : Text → Text → Db → Db
clear_root user root db = record (delete_jobs (is_job_of_root user root) db) {
  indexed_files = filter_by (λ r. not (is_file_of_root user root db.workspaces r)) db.indexed_files;
  workspaces = filter_by (λ w. not (is_workspace_of_root user root w)) db.workspaces;
}
