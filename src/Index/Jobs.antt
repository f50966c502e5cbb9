-- ===== src/Index/Jobs.antt =====
-- index_jobs.go: the tables of index jobs (`index_jobs`, `index_job_files`, `indexed_files`,
-- `index_workspaces`) and the statements that several operations share. Jobs stand with the newest
-- first, the order in which the code reads them; a time is a number of milliseconds.
pub mod Start
pub mod Admission
pub mod Upload
pub mod Staging
pub mod Uploading
pub mod Publish
pub mod Reconcile
pub mod Ending
pub mod Consistency
pub mod Endings
pub mod Calls
pub mod Statements
pub mod Commits
pub mod Insertion
pub mod Runs
pub mod Tracking
pub mod Lifetime
pub mod Snapshots
pub mod Publication
pub mod Counts
pub mod Exclusion
pub mod Expiry
pub mod Handlers
pub mod Refinement
pub mod Restart
pub mod Tests
use acemcp_relay.Prelude.{
  ℕ, ◌-◌, ◌+◌, ◌<◌, Bool, true, false, not, ◌&&◌, ◌||◌, List, [], ◌∷◌, Option, none, some, text_eq,
  Text, bytes, ◌==◌, ltb, if◌then◌else◌, filter_by, any, update_where, map,
}
use acemcp_relay.Prelude.Int.{ℤ}
use acemcp_relay.Strings.{trim_space}
use acemcp_relay.Failure.{IndexFailureDiagnostic}
use acemcp_relay.Index.Manifest.{IndexManifestFile, Snapshot}

-- `indexJobStatusRunning` and the other statuses
pub data JobStatus : Type 0 where
  running completed failed superseded timed_out : JobStatus

pub data Phase : Type 0 where
  created uploading indexing publishing done : Phase

pub data Mode : Type 0 where
  full incremental : Mode

-- A row of `index_jobs`. The three columns of the diagnostic are empty together.
pub record IndexJob : Type 0 where
  pub id : Text
  pub user_id : Text
  pub workspace_id : Text
  pub workspace_name : Text
  pub root_id : Text
  pub branch : Text
  pub revision : Text
  pub mode : Mode
  pub phase : Phase
  pub status : JobStatus
  pub workspace_files : ℕ
  pub total_files : ℕ
  pub indexed_files : ℕ
  pub failed_files : ℕ
  pub total_chunks : ℤ
  pub indexed_chunks : ℤ
  pub chunk_count_fallback : Bool
  pub deleted_count : ℕ
  pub deletions_sent : Bool
  pub error : Text
  pub diagnostic : Option IndexFailureDiagnostic
  pub cloud_revision : ℕ
  pub heartbeat_at : ℕ
  pub completed_at : Option ℕ
  pub publishing_since : Option ℕ

-- A row of `index_job_files`: the manifest that a job was created with.
pub record JobFile : Type 0 where
  pub job_id : Text
  pub path : Text
  pub hash : Text
  pub size : ℤ
  pub estimated_chunks : ℤ
  pub needs_index : Bool
  pub indexed : Bool

-- A row of `indexed_files`: the snapshot that a workspace was published with.
pub record IndexedFile : Type 0 where
  pub user_id : Text
  pub workspace_id : Text
  pub path : Text
  pub hash : Text
  pub size : ℤ
  pub estimated_chunks : ℤ

-- A row of `index_workspaces`.
pub record Workspace : Type 0 where
  pub user_id : Text
  pub workspace_id : Text
  pub workspace_name : Text
  pub root_id : Text
  pub branch : Text
  pub revision : Text
  pub cloud_revision : ℕ
  pub indexed_at : ℕ

pub record Db : Type 0 where
  pub jobs : List IndexJob
  pub job_files : List JobFile
  pub indexed_files : List IndexedFile
  pub workspaces : List Workspace

-- `indexJobHeartbeatTimeout` and `indexJobInitialUploadTimeout`
abbrev pub heartbeat_timeout : ℕ
heartbeat_timeout = 600000

abbrev pub initial_upload_timeout : ℕ
initial_upload_timeout = 120000

abbrev pub is_running : JobStatus → Bool
is_running running = true
is_running _ = false

abbrev pub is_completed : JobStatus → Bool
is_completed completed = true
is_completed _ = false

abbrev pub is_created : Phase → Bool
is_created created = true
is_created _ = false

abbrev pub is_publishing : Phase → Bool
is_publishing publishing = true
is_publishing _ = false

abbrev pub is_done : Phase → Bool
is_done done = true
is_done _ = false

-- `indexJobHeartbeatExpired`. `heartbeatAt.Before(now.Add(-timeout))` on times before 1970 cannot
-- occur, so the sum stands on the other side.
unfoldable pub heartbeat_expired : Phase → ℕ → ℕ → Bool
heartbeat_expired phase heartbeat_at now =
    if is_publishing phase
    then false
    else ltb
        (heartbeat_at + (if is_created phase then initial_upload_timeout else heartbeat_timeout))
        now

-- `timedOutIndexJobError`
unfoldable pub timed_out_error : Phase → Text
unfolding bytes
timed_out_error phase =
    if is_created phase
    then bytes "index client disconnected before first upload"
    else bytes "index job heartbeat timed out"

-- `WHERE id = $1 AND user_id = $2`, and the same with `AND status = 'running'`
abbrev pub is_job : Text → Text → IndexJob → Bool
is_job user id j = j.id == id && j.user_id == user

abbrev pub is_open : Text → Text → IndexJob → Bool
is_open user id j = is_job user id j && is_running j.status

-- The rows of a job's manifest.
abbrev pub is_file_of : Text → JobFile → Bool
is_file_of id r = r.job_id == id

-- UPDATE index_jobs … WHERE …
unfoldable pub update_jobs : (IndexJob → Bool) → (IndexJob → IndexJob) → Db → Db
update_jobs p f db = record db { jobs = update_where p f db.jobs }

-- DELETE FROM index_job_files WHERE job_id = $1
unfoldable pub drop_manifest : Text → Db → Db
drop_manifest id db = record db { job_files = filter_by (λ r. not (is_file_of id r)) db.job_files }

-- The manifest rows of the jobs that pass a test.
unfoldable pub is_file_of_any : (IndexJob → Bool) → List IndexJob → JobFile → Bool
is_file_of_any p rows r = any (λ j. p j && j.id == r.job_id) rows

-- The columns that every failure writes: the status, the phase, what is left, and the reason.
abbrev pub fail_with : JobStatus → Text → Option IndexFailureDiagnostic → IndexJob → IndexJob
fail_with s failure diagnostic j = record j {
  status = s;
  phase = done;
  failed_files = j.total_files - j.indexed_files;
  error = failure;
  diagnostic = diagnostic;
}

abbrev pub is_in_workspace : Text → Text → IndexedFile → Bool
is_in_workspace user workspace r = r.user_id == user && r.workspace_id == workspace

abbrev pub is_workspace : Text → Text → Workspace → Bool
is_workspace user workspace w = w.user_id == user && w.workspace_id == workspace

abbrev pub snapshot_entry : IndexedFile → Text × IndexManifestFile
snapshot_entry r = (
  r.path,
  record {
    path = r.path;
    hash = r.hash;
    size = r.size;
    estimated_chunks = r.estimated_chunks;
    content = [];
  },
)

-- `loadIndexedSnapshot`
unfoldable pub load_snapshot : Text → Text → Db → Snapshot
load_snapshot user workspace db =
    map snapshot_entry (filter_by (is_in_workspace user workspace) db.indexed_files)

-- `lceIndexRootID`
unfoldable pub lce_root_id : Text → Text
unfolding bytes
lce_root_id value =
    let normalized = trim_space value in if normalized == [] then bytes "default" else normalized
