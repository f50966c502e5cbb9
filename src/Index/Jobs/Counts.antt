-- ===== src/Index/Jobs/Counts.antt =====
-- index_jobs.go: no transaction but a start raises the number of running jobs of a workspace.
use acemcp_relay.Prelude.{
  ℕ, ◌≤◌, ◌≡◌, Bool, true, false, not, ◌&&◌, List, Option, none, some, text_eq, nat_eq, Text, ◌==◌,
  arith, any, find, Bool-cases, inl, inr, length, count_by, count_by-update_where-le,
  count_by-filter_by-le,
}
use acemcp_relay.Prelude.Int.{ℤ}
use acemcp_relay.Failure.{IndexFailureDiagnostic}
use acemcp_relay.Index.Manifest.{IndexManifestFile}
use acemcp_relay.Index.Jobs.{
  IndexJob, JobFile, Db, is_open, update_jobs, drop_manifest, is_job, is_publishing,
}
use acemcp_relay.Index.Jobs.Ending.{
  clear_root, mark_failed, fail_now, sweep, is_swept, sweep_row, delete_jobs, clear_user,
  is_job_of_root,
}
use acemcp_relay.Index.Jobs.Start.{is_running_in}
use acemcp_relay.Index.Jobs.Upload.{
  start_upload, is_client_owned, commit_index_batch, commit_rows, commit_files, progress,
}
use acemcp_relay.Index.Jobs.Publish.{
  hand_over, hand_off, record_revision, keep_publishing, rotate, complete_locked, complete_row,
  complete, complete_reply, completion_error, publish_manifest, PublishError,
}

module _ (user workspace : Text) where
  abbrev pub running_jobs : Db → ℕ
  running_jobs db = count_by (is_running_in user workspace) db.jobs

  pub update_jobs-le :
      (p : IndexJob → Bool) (f : IndexJob → IndexJob) (db : Db)
      → ((j : IndexJob)
          → p j ≡ true
          → is_running_in user workspace (f j) ≡ true
          → is_running_in user workspace j ≡ true)
      → running_jobs (update_jobs p f db) ≤ running_jobs db
  unfolding update_jobs
  update_jobs-le p f db h = count_by-update_where-le (is_running_in user workspace) p f h db.jobs

  delete_jobs-le :
      (p : IndexJob → Bool) (db : Db) → running_jobs (delete_jobs p db) ≤ running_jobs db
  unfolding delete_jobs
  delete_jobs-le p db =
      count_by-filter_by-le (is_running_in user workspace) (λ j. not (p j)) db.jobs

  module _ (now : ℕ) (user' id : Text) (db : Db) where
    pub start_upload-le : running_jobs (start_upload now user' id db).0 ≤ running_jobs db
    unfolding start_upload
    start_upload-le = update_jobs-le (is_client_owned user' id) _ db (λ j e k. k)

    pub hand_over-le : running_jobs (hand_over now user' id db).0 ≤ running_jobs db
    unfolding hand_over
    hand_over-le = update_jobs-le (is_open user' id) (hand_off now) db (λ j e k. k)

    pub keep_publishing-le : running_jobs (keep_publishing now user' id db) ≤ running_jobs db
    unfolding keep_publishing
    keep_publishing-le = update_jobs-le (is_open user' id) _ db (λ j e k. k)

    pub rotate-le : running_jobs (rotate now user' id db) ≤ running_jobs db
    unfolding rotate
    rotate-le = update_jobs-le (λ j. is_open user' id j && is_publishing j.phase) _ db (λ j e k. k)

    pub record_revision-le :
        (effective : Bool) (revision : ℕ)
        → running_jobs (record_revision effective now user' id revision db) ≤ running_jobs db
    unfolding record_revision
    record_revision-le false revision = omega arith
    record_revision-le true revision = update_jobs-le (is_open user' id) _ db (λ j e k. k)

    pub mark_failed-le :
        (failure : Text) (diagnostic : Option IndexFailureDiagnostic)
        → running_jobs (mark_failed now user' id failure diagnostic db).0 ≤ running_jobs db
    unfolding mark_failed drop_manifest
    mark_failed-le failure diagnostic = elim (Bool-cases (any (is_open user' id) db.jobs)) [
      | inl e ↦ rw e (
          update_jobs-le (is_open user' id) (fail_now now failure diagnostic) db
            (λ j u k. ground (arith, k)))
      | inr e ↦ rw e (omega arith)
    ]

    complete_reply-le :
        (o : Option PublishError) (db' : Db)
        → running_jobs db' ≤ running_jobs db
        → running_jobs (complete_reply o db db').0 ≤ running_jobs db
    complete_reply-le none db' h = h
    complete_reply-le (some e) db' h = omega arith

    publish_manifest-le :
        (root : Text) (revision : ℕ) (j : IndexJob)
        → running_jobs (publish_manifest now user' root revision j db) ≤ running_jobs db
    unfolding publish_manifest drop_manifest update_jobs
    publish_manifest-le root revision j =
        count_by-update_where-le (is_running_in user workspace) (λ k. k.id == j.id)
          (complete now revision) (λ k u w. ground (arith, w)) db.jobs

    complete_row-le :
        (root : Text) (revision : ℕ) (o : Option IndexJob)
        → running_jobs (complete_row now user' root revision o db).0 ≤ running_jobs db
    unfolding complete_row
    complete_row-le root revision none = omega arith
    complete_row-le root revision (some j) =
        complete_reply-le (completion_error j) (publish_manifest now user' root revision j db)
          (publish_manifest-le root revision j)

    pub complete_locked-le :
        (root : Text) (revision : ℕ)
        → running_jobs (complete_locked now user' id root revision db).0 ≤ running_jobs db
    unfolding complete_locked
    complete_locked-le root revision =
        complete_row-le root revision (find (is_job user' id) db.jobs)

    commit_rows-le :
        (n : ℕ) (chunks : ℤ) (fallback sent : Bool) (o : Option (List JobFile))
        → running_jobs (commit_rows now id n chunks fallback sent o db).0 ≤ running_jobs db
    unfolding commit_rows
    commit_rows-le n chunks fallback sent none = omega arith
    commit_rows-le n chunks fallback sent (some rows) =
        update_jobs-le (λ j. j.id == id) (progress now n chunks fallback sent) db (λ j e k. k)

    pub commit_index_batch-le :
        (fs : List IndexManifestFile) (chunks : ℤ) (fallback sent : Bool)
        → running_jobs (commit_index_batch now user' id fs chunks fallback sent db).0
          ≤ running_jobs db
    unfolding commit_index_batch
    commit_index_batch-le fs chunks fallback sent =
        elim (Bool-cases (any (is_open user' id) db.jobs)) [
          | inl e ↦
              rw e
                (commit_rows-le (length fs) chunks fallback sent (commit_files id fs db.job_files))
          | inr e ↦ rw e (omega arith)
        ]

  pub sweep-le :
      (is_locked : IndexJob → Bool) (now : ℕ) (db : Db)
      → running_jobs (sweep is_locked now db) ≤ running_jobs db
  unfolding sweep
  sweep-le is_locked now db =
      count_by-update_where-le (is_running_in user workspace)
        (λ j. is_swept now j && not (is_locked j)) (sweep_row now) (λ j e k. ground (arith, k))
        db.jobs

  pub clear_user-le :
      (user' : Text) (db : Db) → running_jobs (clear_user user' db) ≤ running_jobs db
  unfolding clear_user
  clear_user-le user' db = delete_jobs-le (λ j. j.user_id == user') db

  pub clear_root-le :
      (user' root : Text) (db : Db) → running_jobs (clear_root user' root db) ≤ running_jobs db
  unfolding clear_root
  clear_root-le user' root db = delete_jobs-le (is_job_of_root user' root) db
