-- ===== src/Index/Jobs/Tests.antt =====
-- A job from its start to its publication, and the inputs at which the theorems are applied.
use acemcp_relay.Prelude.{
  ℕ, ◌≡◌, ◌<◌, ◌≤◌, refl, true, false, List, [], ◌∷◌, none, some, text_eq, nat_eq, bytes, text_beq,
  Text, arith, ◌&&◌, filter_by, any, find, All, update_where, count_by, lookup, starts_with,
}
use acemcp_relay.Prelude.Int.{pos}
use acemcp_relay.Strings.{trim_space, split, join, trim_prefix, replace_byte}
use acemcp_relay.Index.Path.{normalize_index_path}
use acemcp_relay.Index.Manifest.{
  IndexManifestFile, normalize_manifest, graft_unreadable_paths, diff_manifest, has, is_changed,
  diff_round, diff_loop, sort_files, sort_texts, clean_file, remove, keys, text_leb,
  validate_index_batch_size,
}
use acemcp_relay.Index.Jobs.{
  IndexJob, Db, update_jobs, drop_manifest, is_file_of_any, heartbeat_expired, timed_out_error,
  load_snapshot, is_running,
}
use acemcp_relay.Index.Jobs.Ending.{
  mark_failed, sweep, is_swept, swept_error, swept_diagnostic, delete_jobs, clear_user, clear_root,
  stored_root, btrim, is_file_of_root, sweep_row,
}
use acemcp_relay.Index.Jobs.Start.{
  StartRequest, StartInput, inspect_active, inspect_by, expire_all, new_job, has_duplicate,
  violates_key, insert_job, clean_up, begin_job, start_inserted, expire_row,
}
use acemcp_relay.Index.Jobs.Admission.{
  create_index_job, start_files, start_grafted, start_locked, start_bound, start_inspected,
  start_normalized,
}
use acemcp_relay.Index.Jobs.Upload.{
  start_upload, commit_index_batch, commit_files, commit_rows, UploadRequest, equal_fold,
  validate_index_content, clean_inputs, stage_file, stage_files, deleted_paths, prepare_staged,
  prepare_inputs, prepare_job, prepare_index_batch,
}
use acemcp_relay.Index.Jobs.Publish.{
  hand_over, published, complete_locked, complete_row, completion_error, publish_manifest,
  upsert_workspace, Fields, replied, fields_of, publication_state, publication_failure,
  publish_accepted, extract_cloud_revision, record_revision,
}
use acemcp_relay.Index.Jobs.Calls.{Call, starts, uploads, commits, hands_over, sweeps, step, run}
use acemcp_relay.Index.Jobs.Consistency.{Consistent, is_needed_of}
use acemcp_relay.Index.Jobs.Runs.{run-Consistent}
use acemcp_relay.Index.Jobs.Tracking.{manifest_of}
use acemcp_relay.Index.Jobs.Staging.{
  charged, UploadInput, chunks_staged, upload_index_batch, estimated_total, upload_replied,
  upload_charged, upload_staged, upload_prepared, upload_sized,
}
use acemcp_relay.Index.Jobs.Reconcile.{
  Attempt, complete_under_lease, with_revision, with_content, with_reply, with_known,
  complete_checked, complete_loaded,
}
use acemcp_relay.Index.Jobs.Counts.{running_jobs}
use acemcp_relay.Index.Jobs.Exclusion.{run-OneRunning}
use acemcp_relay.Index.Jobs.Expiry.{sweep_agrees}
use acemcp_relay.Index.Jobs.Publication.{complete_locked_uploaded, published_snapshot}

jobs_run : Unit {0}
unfolding bytes text_beq trim_space filter_by any find update_where count_by lookup starts_with
    normalize_index_path normalize_manifest graft_unreadable_paths diff_manifest has is_changed
    diff_round diff_loop sort_files sort_texts clean_file remove keys text_leb trim_prefix join
    split replace_byte update_jobs drop_manifest is_file_of_any heartbeat_expired timed_out_error
    load_snapshot mark_failed sweep is_swept swept_error swept_diagnostic delete_jobs clear_user
    clear_root stored_root btrim is_file_of_root create_index_job inspect_active inspect_by
    expire_all new_job has_duplicate violates_key insert_job clean_up begin_job start_inserted
    start_files start_grafted start_locked start_bound start_inspected start_normalized start_upload
    commit_index_batch commit_files commit_rows hand_over complete_locked complete_row
    completion_error publish_manifest upsert_workspace step run
jobs_run = tt

handlers_run : Unit {0}
unfolding equal_fold validate_index_content clean_inputs stage_file stage_files deleted_paths
    prepare_staged prepare_inputs prepare_job prepare_index_batch estimated_total upload_replied
    upload_charged upload_staged upload_prepared upload_sized upload_index_batch
    validate_index_batch_size fields_of publication_state publication_failure publish_accepted
    extract_cloud_revision record_revision with_revision with_content with_reply with_known
    complete_checked complete_loaded complete_under_lease
handlers_run = tt

abbrev plain : Text → Text
plain s = s

abbrev file : IndexManifestFile
file = record {
  path = bytes "a";
  hash = bytes "h";
  size = pos 1;
  estimated_chunks = pos 1;
  content = bytes "x";
}

abbrev request : StartRequest
request = record {
  protocol_version = 1;
  workspace_id = bytes "w";
  workspace_name = [];
  branch = [];
  revision = [];
  files = file ∷ [];
  unreadable_files = [];
  root_id = bytes "r";
}

abbrev input : StartInput
input = record {
  job_id = bytes "j";
  root_cleared = true;
  wait = 0;
  begin_error = none;
  failure_recorded = true;
  manifest_dropped = true;
}

abbrev empty : Db
empty = record { jobs = []; job_files = []; indexed_files = []; workspaces = [] }

empty-Consistent : Consistent empty
empty-Consistent = record { distinct = tt; owned = tt; counted = tt; needed = tt; phased = tt }

abbrev created_db : Db
created_db = run plain empty (starts 5 (bytes "u") request input ∷ [])

created_db-Consistent : Consistent created_db
created_db-Consistent =
    run-Consistent plain empty (starts 5 (bytes "u") request input ∷ []) ((refl, refl), tt)
      empty-Consistent

abbrev calls : List Call
calls =
    uploads 6 (bytes "u") (bytes "j")
    ∷ commits 7 (bytes "u") (bytes "j") (file ∷ []) (pos 3) false false
    ∷ sweeps (λ _. false) 900000
    ∷ []

abbrev live_calls : List Call
live_calls =
    uploads 6 (bytes "u") (bytes "j")
    ∷ commits 7 (bytes "u") (bytes "j") (file ∷ []) (pos 3) false false
    ∷ hands_over 8 (bytes "u") (bytes "j")
    ∷ sweeps (λ _. false) 900000
    ∷ []

-- The sweep ends an abandoned job, and takes its manifest away.
abandoned : (run plain created_db calls).job_files ≡ []
unfolding jobs_run
abandoned = refl

run-Consistent_example : Consistent (run plain created_db calls)
run-Consistent_example =
    run-Consistent plain created_db calls (tt, (tt, (tt, tt))) created_db-Consistent

published_snapshot_example :
    load_snapshot
      (bytes "u")
      (bytes "w")
      (complete_locked 9 (bytes "u") (bytes "j") (bytes "r") 4 (run plain created_db live_calls)).0
    ≡ manifest_of (bytes "j") created_db.job_files
unfolding jobs_run
published_snapshot_example =
    published_snapshot plain (bytes "u") (bytes "j") (bytes "w") created_db live_calls
      (tt, (tt, (tt, (tt, tt)))) (tt, (tt, (tt, (tt, tt)))) created_db-Consistent refl 9 (bytes "r")
      4 refl

abbrev live_db : Db
live_db = run plain created_db live_calls

abbrev first_job : List IndexJob → IndexJob → IndexJob
first_job [] j = j
first_job (k ∷ _) j = k

abbrev live_job : IndexJob
live_job = first_job live_db.jobs (
    new_job 0 [] request [] false 0
      (record { pending = []; deleted = []; estimated_chunks = pos 0 }))

complete_locked_uploaded_example :
    (is_running live_job.status ≡ true)
    × All (λ r. is_needed_of live_job.id r ≡ true → r.indexed ≡ true) live_db.job_files
    × ((0 < live_job.deleted_count) → live_job.deletions_sent ≡ true)
unfolding jobs_run
complete_locked_uploaded_example =
    complete_locked_uploaded 9 (bytes "u") (bytes "j") (bytes "r") 4 live_db live_job
      (run-Consistent plain created_db live_calls (tt, (tt, (tt, (tt, tt)))) created_db-Consistent)
      refl refl

run-OneRunning_example :
    running_jobs (bytes "u") (bytes "w") (
      run plain created_db
        (starts 9 (bytes "u") request (record input { job_id = bytes "k" }) ∷ []))
    ≤ 1
unfolding jobs_run
run-OneRunning_example =
    run-OneRunning (bytes "u") (bytes "w") plain created_db
      (starts 9 (bytes "u") request (record input { job_id = bytes "k" }) ∷ []) (ground arith)

sweep_agrees_example :
    (is_swept 900000 live_job ≡ (
      is_running live_job.status && heartbeat_expired live_job.phase live_job.heartbeat_at 900000))
    × (sweep_row 900000 live_job ≡ expire_row plain 900000 live_job)
sweep_agrees_example = sweep_agrees plain (λ phase. refl) 900000 live_job

abbrev alone : ℕ → Db → Db
alone gap db = db

abbrev fields : Fields
fields = record { state = []; error = []; revision = some (pos 4) }

abbrev attempt : Attempt
attempt = record {
  now = 10;
  reply = replied (some (record { top = fields; payload = none }));
  recorded = true;
  others = alone;
}

abbrev upload : UploadRequest
upload = record { job_id = bytes "j"; root_id = bytes "r"; files = file ∷ [] }

abbrev upload_input : UploadInput
upload_input = record {
  now = 9;
  fits_body = true;
  quota = charged;
  reply = chunks_staged (some (pos 2));
}

-- A whole upload, and the completion that follows it.
uploaded_then_published :
    (complete_under_lease plain attempt
      (bytes "u")
      (bytes "j")
      none
      (upload_index_batch (λ _. bytes "h") alone upload_input (bytes "u") upload created_db).0).1
    ≡ published
unfolding jobs_run handlers_run
uploaded_then_published = refl

abbrev clean : IndexManifestFile
clean = record file { content = [] }

abbrev started_job : IndexJob
started_job = new_job 5 (bytes "u") request (bytes "j") false 1 (diff_manifest [] (clean ∷ []))

abbrev published_db : Db
published_db = (complete_locked 9 (bytes "u") (bytes "j") (bytes "r") 4 live_db).0
