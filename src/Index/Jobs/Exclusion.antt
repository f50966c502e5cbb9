-- ===== src/Index/Jobs/Exclusion.antt =====
-- index_jobs.go: a workspace never has two running jobs, and so never pays twice for one indexing.
use acemcp_relay.Prelude.{
  ℕ, ◌≤◌, ◌≡◌, refl, Bool, true, false, ◌&&◌, List, [], ◌∷◌, Option, none, some, text_eq, nat_eq,
  Text, ◌==◌, arith, any, find, update_where, eq_iff, inl, inr, length, count_by,
  count_by-update_where-le,
}
use acemcp_relay.Strings.{trim_space}
use acemcp_relay.Index.Manifest.{
  IndexManifestFile, ManifestDiff, ManifestResult, ok, err, diff_manifest, normalize_manifest,
}
use acemcp_relay.Index.Jobs.{
  IndexJob, Workspace, Db, is_open, is_workspace, load_snapshot, drop_manifest,
}
use acemcp_relay.Index.Jobs.Ending.{clear_root}
use acemcp_relay.Index.Jobs.Start.{
  StartRequest, StartInput, insert_job, new_job, begin_job, start_inserted, inspect_active,
  clean_up, begin_failure, expire_all, expire_row, is_running_in, inspect_by, is_healthy,
}
use acemcp_relay.Index.Jobs.Admission.{
  start_files, start_grafted, start_locked, start_bound, start_inspected, start_normalized, trimmed,
  create_index_job,
}
use acemcp_relay.Index.Jobs.Calls.{
  Call, starts, uploads, commits, hands_over, records_revision, keeps_publishing, completes, fails,
  sweeps, rotates, clears_root, clears_user, step, run,
}
use acemcp_relay.Index.Jobs.Runs.{start_files_rows, start_bound_rows, create_index_job_rows}
use acemcp_relay.Index.Jobs.Counts.{
  running_jobs, update_jobs-le, start_upload-le, commit_index_batch-le, hand_over-le,
  record_revision-le, keep_publishing-le, complete_locked-le, mark_failed-le, sweep-le, rotate-le,
  clear_root-le, clear_user-le,
}

module _ (user workspace : Text) where
  -- A start of the workspace itself.
  abbrev is_own : Text → StartRequest → Bool
  is_own user' q = user' == user && q.workspace_id == workspace

  -- There is room for the job that a start may insert.
  abbrev HasRoom : Text → StartRequest → Db → Type 0
  HasRoom user' q db =
      (running_jobs user workspace db ≤ 1)
      × (is_own user' q ≡ true → running_jobs user workspace db ≡ 0)

  module _ (lower : Text → Text) (now : ℕ) (user' : Text) (input : StartInput) where
    clean_up-le :
        (error : Text) (db : Db)
        → running_jobs user workspace (clean_up lower now user' input error db)
          ≤ running_jobs user workspace db
    unfolding clean_up drop_manifest
    clean_up-le error db = ground (
      arith,
      update_jobs-le user workspace (is_open user' input.job_id) (begin_failure lower now error) db
          (λ j e k. ground (arith, k)),
    )

    begin_job-le :
        (job : IndexJob) (d : ManifestDiff) (o : Option Text) (db : Db)
        → running_jobs user workspace (begin_job lower now user' input job d o db).0
          ≤ running_jobs user workspace db
    unfolding begin_job
    begin_job-le job d none db = omega arith
    begin_job-le job d (some error) db = clean_up-le error db

    begun-le :
        (job : IndexJob) (d : ManifestDiff) (r : Db × Bool)
        → running_jobs user workspace (start_inserted lower now user' input job d r).0
          ≤ running_jobs user workspace r.0
    unfolding start_inserted
    begun-le job d (db, true) = begin_job-le job d input.begin_error db
    begun-le job d (db, false) = omega arith

    insert_job-le :
        (q : StartRequest) (exists : Bool) (n : ℕ) (d : ManifestDiff)
        (files : List IndexManifestFile) (db : Db)
        → HasRoom user' q db
        → running_jobs user workspace
            (insert_job (new_job now user' q input.job_id exists n d) files d.pending db).0
          ≤ 1
    unfolding insert_job new_job count_by
    insert_job-le q exists n d files db (h, k) = ground (arith, h, k)

    start_files-le :
        (q : StartRequest) (files : List IndexManifestFile) (db : Db)
        → HasRoom user' q db
        → running_jobs user workspace (start_files lower now user' q input files db).0 ≤ 1
    start_files-le q files db h =
        let d = diff_manifest (load_snapshot user' q.workspace_id db) files in
        let exists = any (is_workspace user' q.workspace_id) db.workspaces in
        let job = new_job now user' q input.job_id exists (length files) d in
        elim (start_files_rows lower now user' input q files db) [
          | inl e ↦ rw e h.0
          | inr (inl e) ↦ rw e h.0
          | inr (inr e) ↦ rw e (
              omega (
                arith,
                begun-le job d (insert_job job files d.pending db),
                insert_job-le q exists (length files) d files db h,
              ))
        ]

    start_grafted-le :
        (q : StartRequest) (r : ManifestResult (List IndexManifestFile)) (db : Db)
        → HasRoom user' q db
        → running_jobs user workspace (start_grafted lower now user' q input r db).0 ≤ 1
    unfolding start_grafted
    start_grafted-le q (err e) db h = h.0
    start_grafted-le q (ok files) db h = start_files-le q files db h

    start_bound-le :
        (q : StartRequest) (o : Option Workspace) (db : Db)
        → HasRoom user' q db
        → running_jobs user workspace (start_bound lower now user' q input o db).0 ≤ 1
    start_bound-le q none db h = unfold start_bound start_locked in start_grafted-le q _ db h
    start_bound-le q (some w) db h =
        let cleared = clear_root user' (trim_space w.root_id) db in
        let smaller = clear_root-le user workspace user' (trim_space w.root_id) db in
        elim (start_bound_rows lower now user' input q w db) [
          | inl e ↦ rw e (unfold start_locked in start_grafted-le q _ db h)
          | inr (inl e) ↦ rw e (
              unfold start_locked in
              start_grafted-le q _ cleared
                (omega (arith, smaller, h.0), λ u. omega (arith, smaller, h.1 u)))
          | inr (inr e) ↦ rw e h.0
        ]

    -- Where no job of the workspace is healthy, none of them is left running.
    expire_all-none :
        (workspace' : Text) (jobs : List IndexJob)
        → (user' == user && workspace' == workspace) ≡ true
        → count_by
            (is_running_in user workspace)
            (update_where (is_running_in user' workspace') (expire_row lower now) jobs)
          ≡ 0
    unfolding count_by update_where
    expire_all-none workspace' [] h = refl
    expire_all-none workspace' (j ∷ js) h =
        ground (
          arith,
          h,
          expire_all-none workspace' js h,
          eq_iff user' user,
          eq_iff workspace' workspace,
        )

    expire_all-HasRoom :
        (q : StartRequest) (db : Db)
        → running_jobs user workspace db ≤ 1
        → HasRoom user' q (expire_all lower now user' q.workspace_id db)
    unfolding expire_all
    expire_all-HasRoom q db h = (
      omega (
        arith,
        h,
        count_by-update_where-le (is_running_in user workspace) (is_running_in user' q.workspace_id)
            (expire_row lower now) (λ j e k. ground (arith, k)) db.jobs,
      ),
      expire_all-none q.workspace_id db.jobs,
    )

    inspected-le :
        (q : StartRequest) (o : Option IndexJob) (db : Db)
        → running_jobs user workspace db ≤ 1
        → let r = inspect_by lower now user' q.workspace_id o db in
          running_jobs user workspace (start_inspected lower now user' q input r.1 r.0).0 ≤ 1
    unfolding inspect_by start_inspected
    inspected-le q (some j) db h = h
    inspected-le q none db h =
        let expired = expire_all lower now user' q.workspace_id db in
        start_bound-le q (find (is_workspace user' q.workspace_id) expired.workspaces) expired
          (expire_all-HasRoom q db h)

    start_normalized-le :
        (q : StartRequest) (r : ManifestResult (List IndexManifestFile)) (db : Db)
        → running_jobs user workspace db ≤ 1
        → running_jobs user workspace (start_normalized lower now user' q input r db).0 ≤ 1
    unfolding start_normalized inspect_active
    start_normalized-le q (err e) db h = h
    start_normalized-le q (ok files) db h =
        inspected-le (record q { files = files })
          (find (is_healthy now user' q.workspace_id) db.jobs) db h

    create_index_job-le :
        (request : StartRequest) (db : Db)
        → running_jobs user workspace db ≤ 1
        → running_jobs user workspace (create_index_job lower now user' request input db).0 ≤ 1
    create_index_job-le request db h =
        elim (create_index_job_rows lower now user' input request db) [
          | inl e ↦ rw e h
          | inr e ↦ rw e (
              start_normalized-le (trimmed request) (normalize_manifest (trimmed request).files) db
                h)
        ]

  module _ (lower : Text → Text) where
    step-le :
        (db : Db) (c : Call)
        → running_jobs user workspace db ≤ 1
        → running_jobs user workspace (step lower db c) ≤ 1
    unfolding step
    step-le db (starts now user' q input) h = create_index_job-le lower now user' input q db h
    step-le db (uploads now user' id) h =
        omega (arith, h, start_upload-le user workspace now user' id db)
    step-le db (commits now user' id files chunks fallback sent) h =
        omega (
          arith,
          h,
          commit_index_batch-le user workspace now user' id db files chunks fallback sent,
        )
    step-le db (hands_over now user' id) h =
        omega (arith, h, hand_over-le user workspace now user' id db)
    step-le db (records_revision effective now user' id revision) h =
        omega (arith, h, record_revision-le user workspace now user' id db effective revision)
    step-le db (keeps_publishing now user' id) h =
        omega (arith, h, keep_publishing-le user workspace now user' id db)
    step-le db (completes now user' id root revision) h =
        omega (arith, h, complete_locked-le user workspace now user' id db root revision)
    step-le db (fails now user' id failure diagnostic) h =
        omega (arith, h, mark_failed-le user workspace now user' id db failure diagnostic)
    step-le db (sweeps is_locked now) h = omega (arith, h, sweep-le user workspace is_locked now db)
    step-le db (rotates now user' id) h = omega (arith, h, rotate-le user workspace now user' id db)
    step-le db (clears_root user' root) h =
        omega (arith, h, clear_root-le user workspace user' root db)
    step-le db (clears_user user') h = omega (arith, h, clear_user-le user workspace user' db)

    -- Any run of the transactions, from tables in which at most one job of the workspace is running,
    -- leaves at most one running there, whatever the starts and their errors are.
    pub run-OneRunning :
        (db : Db) (calls : List Call)
        → running_jobs user workspace db ≤ 1
        → running_jobs user workspace (run lower db calls) ≤ 1
    unfolding run
    run-OneRunning db [] h = h
    run-OneRunning db (c ∷ calls) h = run-OneRunning (step lower db c) calls (step-le db c h)
