-- ===== src/Index/Jobs/Start.antt =====
-- index_jobs.go: what `createIndexJob` is made of: `inspectActiveIndexJob`, the transaction that
-- inserts a job with its manifest, and the clean-up after a failed "begin". strings.ToLower is a
-- parameter.
use acemcp_relay.Prelude.{
  ℕ, Bool, true, false, not, ◌&&◌, ◌||◌, List, [], ◌∷◌, ◌++◌, map, Option, none, some, text_eq,
  nat_eq, Text, bytes, ◌==◌, if◌then◌else◌, filter_by, any, update_where, find, length,
}
use acemcp_relay.Prelude.Int.{pos}
use acemcp_relay.Failure.{classify_index_failure}
use acemcp_relay.Index.Manifest.{IndexManifestFile, ManifestError, ManifestDiff, has}
use acemcp_relay.Index.Jobs.{
  IndexJob, JobFile, Db, failed, running, created, done, full, incremental, is_running,
  heartbeat_expired, timed_out_error, is_open, update_jobs, drop_manifest, is_file_of,
  is_file_of_any,
}
use acemcp_relay.Index.Jobs.Ending.{time_out}

pub record StartRequest : Type 0 where
  pub protocol_version : ℕ
  pub workspace_id : Text
  pub workspace_name : Text
  pub branch : Text
  pub revision : Text
  pub files : List IndexManifestFile
  pub unreadable_files : List Text
  pub root_id : Text

-- What the world answers to one start: the UUID it draws, whether the cloud service cleared the old
-- root, the wait that `checkIndexStartRateLimit` returns, the error of the cloud service's "begin",
-- and which of the two clean-up statements after such an error took effect.
pub record StartInput : Type 0 where
  pub job_id : Text
  pub root_cleared : Bool
  pub wait : ℕ
  pub begin_error : Option Text
  pub failure_recorded : Bool
  pub manifest_dropped : Bool

pub data StartError : Type 0 where
  unsupported_protocol workspace_id_required root_id_required root_id_too_long root_not_cleared
        duplicate_key begin_failed :
      StartError
  bad_manifest : ManifestError → StartError

pub data StartReply : Type 0 where
  rejected : StartError → StartReply
  active_job : IndexJob → StartReply
  start_limited : ℕ → StartReply
  unchanged : StartReply
  started : IndexJob → ManifestDiff → StartReply

abbrev pub protocol_version : ℕ
protocol_version = 1

-- The running jobs of a workspace.
abbrev pub is_running_in : Text → Text → IndexJob → Bool
is_running_in user workspace j =
    j.user_id == user && j.workspace_id == workspace && is_running j.status

-- The row of the UPDATE of `inspectActiveIndexJob`.
abbrev pub expire_row : (Text → Text) → ℕ → IndexJob → IndexJob
expire_row lower now j =
    time_out now (timed_out_error j.phase)
      (some (classify_index_failure lower (bytes "timed_out") (timed_out_error j.phase))) j

-- With no healthy job, all running ones of the workspace have expired.
unfoldable pub expire_all : (Text → Text) → ℕ → Text → Text → Db → Db
expire_all lower now user workspace db = record db {
  jobs = update_where (is_running_in user workspace) (expire_row lower now) db.jobs;
  job_files =
      filter_by (λ r. not (is_file_of_any (is_running_in user workspace) db.jobs r)) db.job_files;
}

unfoldable pub inspect_by :
    (Text → Text) → ℕ → Text → Text → Option IndexJob → Db → Db × Option IndexJob
inspect_by lower now user workspace none db = (expire_all lower now user workspace db, none)
inspect_by lower now user workspace (some j) db = (db, some j)

abbrev pub is_healthy : ℕ → Text → Text → IndexJob → Bool
is_healthy now user workspace j =
    is_running_in user workspace j && not (heartbeat_expired j.phase j.heartbeat_at now)

-- `inspectActiveIndexJob`
unfoldable pub inspect_active : (Text → Text) → ℕ → Text → Text → Db → Db × Option IndexJob
inspect_active lower now user workspace db =
    inspect_by lower now user workspace (find (is_healthy now user workspace) db.jobs) db

-- The row that is inserted.
unfoldable pub new_job : ℕ → Text → StartRequest → Text → Bool → ℕ → ManifestDiff → IndexJob
new_job now user q id exists workspace_files d = record {
  id = id;
  user_id = user;
  workspace_id = q.workspace_id;
  workspace_name = q.workspace_name;
  root_id = q.root_id;
  branch = q.branch;
  revision = q.revision;
  mode = if exists then incremental else full;
  phase = created;
  status = running;
  workspace_files = workspace_files;
  total_files = length d.pending;
  indexed_files = 0;
  failed_files = 0;
  total_chunks = d.estimated_chunks;
  indexed_chunks = pos 0;
  chunk_count_fallback = false;
  deleted_count = length d.deleted;
  deletions_sent = false;
  error = [];
  diagnostic = none;
  cloud_revision = 0;
  heartbeat_at = now;
  completed_at = none;
  publishing_since = none;
}

abbrev pub file_row : Text → List Text → IndexManifestFile → JobFile
file_row id pending f = record {
  job_id = id;
  path = f.path;
  hash = f.hash;
  size = f.size;
  estimated_chunks = f.estimated_chunks;
  needs_index = has f.path pending;
  indexed = false;
}

-- The primary key of `index_job_files` among the rows of one COPY.
unfoldable pub has_duplicate : List IndexManifestFile → Bool
has_duplicate [] = false
has_duplicate (f ∷ fs) = any (λ g. g.path == f.path) fs || has_duplicate fs

-- The primary keys that the INSERT and the COPY would violate.
unfoldable pub violates_key : Text → List IndexManifestFile → Db → Bool
violates_key id files db =
    any (λ j. j.id == id) db.jobs
    || has_duplicate files
    || any (λ r. is_file_of id r && any (λ f. f.path == r.path) files) db.job_files

-- The transaction of the INSERT and the COPY, which a violated key rolls back.
unfoldable pub insert_job : IndexJob → List IndexManifestFile → List Text → Db → Db × Bool
insert_job job files pending db = if violates_key job.id files db then (db, false) else (
  record db {
    jobs = job ∷ db.jobs;
    job_files = db.job_files ++ map (file_row job.id pending) files;
  },
  true,
)

-- The UPDATE after a failed "begin", which leaves `failed_files`.
abbrev pub begin_failure : (Text → Text) → ℕ → Text → IndexJob → IndexJob
begin_failure lower now error j =
    let failure = bytes "LCE cloud index begin failed: " ++ error in
    record j {
      status = failed;
      phase = done;
      error = failure;
      diagnostic = some (classify_index_failure lower (bytes "failed") failure);
      heartbeat_at = now;
      completed_at = some now;
    }

-- The two statements of the clean-up are not one transaction, and their errors are dropped.
unfoldable pub clean_up : (Text → Text) → ℕ → Text → StartInput → Text → Db → Db
clean_up lower now user input error db =
    let recorded = update_jobs (is_open user input.job_id) (begin_failure lower now error) db in
    let db' = if input.failure_recorded then recorded else db in
    let dropped = drop_manifest input.job_id db' in if input.manifest_dropped then dropped else db'

-- After the commit: the cloud service's "begin".
unfoldable pub begin_job :
    (Text → Text)
    → ℕ
    → Text
    → StartInput
    → IndexJob
    → ManifestDiff
    → Option Text
    → Db
    → Db × StartReply
begin_job lower now user input job d none db = (db, started job d)
begin_job lower now user input job d (some error) db =
    (clean_up lower now user input error db, rejected begin_failed)

unfoldable pub start_inserted :
    (Text → Text) → ℕ → Text → StartInput → IndexJob → ManifestDiff → Db × Bool → Db × StartReply
start_inserted lower now user input job d (db, true) =
    begin_job lower now user input job d input.begin_error db
start_inserted lower now user input job d (db, false) = (db, rejected duplicate_key)
