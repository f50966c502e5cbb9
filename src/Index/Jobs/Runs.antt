-- ===== src/Index/Jobs/Runs.antt =====
-- index_jobs.go: what holds of the tables after any run of the transactions.
use acemcp_relay.Prelude.{
  ℕ, ◌≡◌, refl, ◌⊎◌, count_by, update_where, sym, true, false, List, [], ◌∷◌, map, Option, none,
  some, text_eq, nat_eq, Text, arith, any, find, All, eq_self, Bool-cases, inl, inr, length,
}
use acemcp_relay.Strings.{trim_space}
use acemcp_relay.Index.Manifest.{
  IndexManifestFile, ManifestDiff, ManifestResult, ok, err, diff_manifest, graft_unreadable_paths,
  normalize_manifest,
}
use acemcp_relay.Index.Jobs.{IndexJob, Workspace, Db, is_done, is_open, is_workspace, load_snapshot}
use acemcp_relay.Index.Jobs.Ending.{clear_root}
use acemcp_relay.Index.Jobs.Start.{
  StartRequest, StartInput, insert_job, violates_key, has_duplicate, file_row, new_job, begin_job,
  start_inserted, inspect_active,
}
use acemcp_relay.Index.Jobs.Admission.{
  rename_workspace, start_files, start_grafted, start_locked, start_bound, start_inspected,
  start_normalized, trimmed, create_index_job,
}
use acemcp_relay.Index.Jobs.Calls.{
  Call, starts, uploads, commits, hands_over, records_revision, keeps_publishing, completes, fails,
  sweeps, rotates, clears_root, clears_user, step, run, IsTidy,
}
use acemcp_relay.Index.Jobs.Consistency.{Consistent, Consistent-jobs, is_needed_of}
use acemcp_relay.Index.Jobs.Statements.{
  start_upload-Consistent, hand_over-Consistent, keep_publishing-Consistent, rotate-Consistent,
  record_revision-Consistent, mark_failed-Consistent, sweep-Consistent, clear_user-Consistent,
  clear_root-Consistent, inspect_active-Consistent, clean_up-Consistent, complete_locked-Consistent,
}
use acemcp_relay.Index.Jobs.Commits.{commit_index_batch-Consistent}
use acemcp_relay.Index.Jobs.Insertion.{inserted-Consistent, needed_of_diff}

-- What the steps of a start can leave.
module _ (lower : Text → Text) (now : ℕ) (user : Text) (input : StartInput) where
  pub start_files_rows :
      (q : StartRequest) (files : List IndexManifestFile) (db : Db)
      → let d = diff_manifest (load_snapshot user q.workspace_id db) files in
        let exists = any (is_workspace user q.workspace_id) db.workspaces in
        let job = new_job now user q input.job_id exists (length files) d in
        let r = (start_files lower now user q input files db).0 in
        (r ≡ record db {
          workspaces =
              update_where (is_workspace user q.workspace_id) (rename_workspace q) db.workspaces;
        })
        ⊎ (r ≡ db)
        ⊎ (r ≡ (start_inserted lower now user input job d (insert_job job files d.pending db)).0)
  unfolding start_files
  start_files_rows q files db = ground arith

  pub start_bound_rows :
      (q : StartRequest) (w : Workspace) (db : Db)
      → let r = (start_bound lower now user q input (some w) db).0 in
        (r ≡ (start_locked lower now user q input db).0)
        ⊎ (r ≡ (start_locked lower now user q input (clear_root user (trim_space w.root_id) db)).0)
        ⊎ (r ≡ db)
  unfolding start_bound
  start_bound_rows q w db = ground arith

  pub create_index_job_rows :
      (request : StartRequest) (db : Db)
      → let q = trimmed request in
        let r = (create_index_job lower now user request input db).0 in
        (r ≡ db) ⊎ (r ≡ (start_normalized lower now user q input (normalize_manifest q.files) db).0)
  unfolding create_index_job
  create_index_job_rows request db = ground arith

module _ (lower : Text → Text) (now : ℕ) (user : Text) (input : StartInput)
    (recorded : input.failure_recorded ≡ true) (dropped : input.manifest_dropped ≡ true) where
  begin_job-Consistent :
      (job : IndexJob) (d : ManifestDiff) (o : Option Text) (db : Db)
      → any (is_open user input.job_id) db.jobs ≡ true
      → Consistent db
      → Consistent (begin_job lower now user input job d o db).0
  unfolding begin_job
  begin_job-Consistent job d none db e v = v
  begin_job-Consistent job d (some error) db e v =
      clean_up-Consistent lower now user db input error recorded dropped e v

  pub start_inserted-Consistent :
      (job : IndexJob) (d : ManifestDiff) (files : List IndexManifestFile) (db : Db)
      → is_open user input.job_id job ≡ true
      → is_done job.phase ≡ false
      → job.indexed_files ≡ 0
      → (has_duplicate files ≡ false
          → job.total_files
            ≡ count_by (is_needed_of job.id) (map (file_row job.id d.pending) files))
      → Consistent db
      → Consistent (start_inserted lower now user input job d (insert_job job files d.pending db)).0
  unfolding start_inserted insert_job violates_key any
  start_inserted-Consistent job d files db active phase zero_indexed total v =
      elim (Bool-cases (violates_key job.id files db)) [
        | inl e ↦ rw e v
        | inr e ↦ rw e (
            begin_job-Consistent job d input.begin_error _ (ground (arith, active)) (
              inserted-Consistent job files d.pending db v (ground (arith, e))
                (ground (arith, active)) (ground (arith, active, phase)) zero_indexed
                (total (ground (arith, e)))))
      ]

  start_files-Consistent :
      (q : StartRequest) (files : List IndexManifestFile) (db : Db)
      → Consistent db
      → Consistent (start_files lower now user q input files db).0
  start_files-Consistent q files db v =
      let d = diff_manifest (load_snapshot user q.workspace_id db) files in
      let exists = any (is_workspace user q.workspace_id) db.workspaces in
      let job = new_job now user q input.job_id exists (length files) d in
      elim (start_files_rows lower now user input q files db) [
        | inl e ↦ rw e (Consistent-jobs db _ refl refl v)
        | inr (inl e) ↦ rw e v
        | inr (inr e) ↦ rw e (
            start_inserted-Consistent job d files db
              (unfold new_job in ground (arith, eq_self user, eq_self input.job_id))
              (unfold new_job in refl) (unfold new_job in refl)
              (λ h.
                unfold new_job in
                sym (needed_of_diff input.job_id (load_snapshot user q.workspace_id db) files h))
              v)
      ]

  start_grafted-Consistent :
      (q : StartRequest) (r : ManifestResult (List IndexManifestFile)) (db : Db)
      → Consistent db
      → Consistent (start_grafted lower now user q input r db).0
  unfolding start_grafted
  start_grafted-Consistent q (err e) db v = v
  start_grafted-Consistent q (ok files) db v = start_files-Consistent q files db v

  start_locked-Consistent :
      (q : StartRequest) (db : Db)
      → Consistent db
      → Consistent (start_locked lower now user q input db).0
  unfolding start_locked
  start_locked-Consistent q db v =
      start_grafted-Consistent q
        (graft_unreadable_paths (load_snapshot user q.workspace_id db) q.files q.unreadable_files)
        db v

  start_bound-Consistent :
      (q : StartRequest) (o : Option Workspace) (db : Db)
      → Consistent db
      → Consistent (start_bound lower now user q input o db).0
  start_bound-Consistent q none db v = unfold start_bound in start_locked-Consistent q db v
  start_bound-Consistent q (some w) db v = elim (start_bound_rows lower now user input q w db) [
    | inl e ↦ rw e (start_locked-Consistent q db v)
    | inr (inl e) ↦ rw e (
        start_locked-Consistent q (clear_root user (trim_space w.root_id) db)
          (clear_root-Consistent user (trim_space w.root_id) db v))
    | inr (inr e) ↦ rw e v
  ]

  start_inspected-Consistent :
      (q : StartRequest) (o : Option IndexJob) (db : Db)
      → Consistent db
      → Consistent (start_inspected lower now user q input o db).0
  unfolding start_inspected
  start_inspected-Consistent q (some j) db v = v
  start_inspected-Consistent q none db v =
      start_bound-Consistent q (find (is_workspace user q.workspace_id) db.workspaces) db v

  start_normalized-Consistent :
      (q : StartRequest) (r : ManifestResult (List IndexManifestFile)) (db : Db)
      → Consistent db
      → Consistent (start_normalized lower now user q input r db).0
  unfolding start_normalized
  start_normalized-Consistent q (err e) db v = v
  start_normalized-Consistent q (ok files) db v =
      let (db', job) = inspect_active lower now user q.workspace_id db in
      start_inspected-Consistent (record q { files = files }) job db'
        (inspect_active-Consistent lower now user db q.workspace_id v)

  create_index_job-Consistent :
      (request : StartRequest) (db : Db)
      → Consistent db
      → Consistent (create_index_job lower now user request input db).0
  create_index_job-Consistent request db v =
      elim (create_index_job_rows lower now user input request db) [
        | inl e ↦ rw e v
        | inr e ↦ rw e (
            start_normalized-Consistent (trimmed request)
              (normalize_manifest (trimmed request).files) db v)
      ]

module _ (lower : Text → Text) where
  pub step-Consistent :
      (db : Db) (c : Call) → IsTidy c → Consistent db → Consistent (step lower db c)
  unfolding step
  step-Consistent db (starts now user q input) (h, k) v =
      create_index_job-Consistent lower now user input h k q db v
  step-Consistent db (uploads now user id) h v = start_upload-Consistent now user id db v
  step-Consistent db (commits now user id files chunks fallback sent) h v =
      commit_index_batch-Consistent now user id files chunks fallback sent db v
  step-Consistent db (hands_over now user id) h v = hand_over-Consistent now user id db v
  step-Consistent db (records_revision effective now user id revision) h v =
      record_revision-Consistent now user id db effective revision v
  step-Consistent db (keeps_publishing now user id) h v =
      keep_publishing-Consistent now user id db v
  step-Consistent db (completes now user id root revision) h v =
      complete_locked-Consistent now user id root revision db v
  step-Consistent db (fails now user id failure diagnostic) h v =
      mark_failed-Consistent now user id failure diagnostic db v
  step-Consistent db (sweeps is_locked now) h v = sweep-Consistent is_locked now db v
  step-Consistent db (rotates now user id) h v = rotate-Consistent now user id db v
  step-Consistent db (clears_root user root) h v = clear_root-Consistent user root db v
  step-Consistent db (clears_user user) h v = clear_user-Consistent user db v

  -- Any run of the transactions, in which every clean-up of a failed start takes effect, keeps the
  -- tables consistent: no identifier of a job stands twice, every manifest row belongs to a running
  -- job and is indexed only if it was to be, a running job's counters `indexed_files` and
  -- `total_files` are the numbers of its rows that are indexed and that were to be, and a job is in
  -- phase `done` exactly when it is not running.
  pub run-Consistent :
      (db : Db) (calls : List Call)
      → All IsTidy calls
      → Consistent db
      → Consistent (run lower db calls)
  unfolding run
  run-Consistent db [] h v = v
  run-Consistent db (c ∷ calls) (k, h) v =
      run-Consistent (step lower db c) calls h (step-Consistent db c k v)
