-- ===== src/Index/Jobs/Snapshots.antt =====
-- index_jobs.go: a job from its creation to its completion, whatever runs in between: what is
-- published is the manifest that it was created with.
use mathlib.Core.List.{append-nil}
use acemcp_relay.Prelude.{
  ℕ, ◌≡◌, ◌⊎◌, refl, ap, ◌∙◌, Bool, true, false, not, List, [], ◌∷◌, ◌++◌, map, Option, none, some,
  text_eq, nat_eq, Text, ◌==◌, arith, any, find, filter_by, All, eq_iff, Bool-cases, inl, inr,
  length, filter_by-unseen, filter_by-append, filter_by-filter_by-unseen, All-of,
}
use acemcp_relay.Strings.{trim_space}
use acemcp_relay.Index.Manifest.{
  IndexManifestFile, ManifestDiff, ManifestResult, ok, err, diff_manifest, normalize_manifest,
}
use acemcp_relay.Index.Jobs.{
  IndexJob, Workspace, Db, is_open, is_workspace, load_snapshot, is_file_of, update_jobs,
  drop_manifest,
}
use acemcp_relay.Index.Jobs.Ending.{clear_root}
use acemcp_relay.Index.Jobs.Start.{
  StartRequest, StartInput, insert_job, violates_key, file_row, new_job, begin_job, start_inserted,
  inspect_active, clean_up, begin_failure,
}
use acemcp_relay.Index.Jobs.Admission.{
  start_files, start_grafted, start_locked, start_bound, start_inspected, start_normalized, trimmed,
  create_index_job,
}
use acemcp_relay.Index.Jobs.Calls.{
  Call, starts, uploads, commits, hands_over, records_revision, keeps_publishing, completes, fails,
  sweeps, rotates, clears_root, clears_user, step, run, IsTidy,
}
use acemcp_relay.Index.Jobs.Consistency.{Consistent}
use acemcp_relay.Index.Jobs.Statements.{inspect_active-Consistent}
use acemcp_relay.Index.Jobs.Insertion.{file_row-All}
use acemcp_relay.Index.Jobs.Runs.{
  start_files_rows, start_bound_rows, create_index_job_rows, step-Consistent,
}
use acemcp_relay.Index.Jobs.Tracking.{manifest_entry, Follows, Follows-trans, touch-Follows}
use acemcp_relay.Index.Jobs.Lifetime.{
  same-Follows, start_upload-Follows, hand_over-Follows, keep_publishing-Follows, rotate-Follows,
  record_revision-Follows, mark_failed-Follows, complete_locked-Follows, sweep-Follows,
  clear_user-Follows, clear_root-Follows, inspect_active-Follows, commit_index_batch-Follows,
}

-- A start that draws another identifier.
abbrev pub IsFresh : Text → Call → Type 0
IsFresh id (starts _ _ _ input) = (input.job_id == id) ≡ false
IsFresh id _ = Unit

module _ (user id workspace : Text) where
  drop_manifest-Follows :
      (id' : Text) (db : Db)
      → (id' == id) ≡ false
      → Follows user id workspace db (drop_manifest id' db)
  unfolding drop_manifest
  drop_manifest-Follows id' db h e = (
    e,
    ap (map manifest_entry) (
        filter_by-filter_by-unseen (is_file_of id) (λ r. not (is_file_of id' r)) db.job_files
          (All-of (λ r. is_file_of id r ≡ true → not (is_file_of id' r) ≡ true)
            (λ r u. ground (arith, u, h, eq_iff r.job_id id, eq_iff r.job_id id', eq_iff id' id))
            db.job_files)),
  )

  insert_job-Follows :
      (job : IndexJob) (files : List IndexManifestFile) (pending : List Text) (db : Db)
      → (job.id == id) ≡ false
      → Follows user id workspace db (insert_job job files pending db).0
  unfolding insert_job any
  insert_job-Follows job files pending db h = elim (Bool-cases (violates_key job.id files db)) [
    | inl e ↦ rw e (same-Follows user id workspace db)
    | inr e ↦ rw e (λ u. (
      ground (arith, u, h),
      ap (map manifest_entry) (
          filter_by-append (is_file_of id) db.job_files (map (file_row job.id pending) files)
          ∙ ap (λ rest. filter_by (is_file_of id) db.job_files ++ rest)
              (filter_by-unseen (is_file_of id) (map (file_row job.id pending) files)
                (file_row-All job.id pending (λ r. is_file_of id r ≡ false) (λ f. h) files))
          ∙ append-nil (filter_by (is_file_of id) db.job_files)),
    ))
  ]

  module _ (lower : Text → Text) (now : ℕ) (user' : Text) (input : StartInput)
      (fresh : (input.job_id == id) ≡ false) where
    failure_recorded-Follows :
        (error : Text) (db : Db)
        → Follows user id workspace db
            (update_jobs (is_open user' input.job_id) (begin_failure lower now error) db)
    failure_recorded-Follows error db =
        touch-Follows user id workspace (is_open user' input.job_id) (begin_failure lower now error)
          db
          (λ j e.
            ground
              (arith, e, fresh, eq_iff j.id input.job_id, eq_iff j.id id, eq_iff input.job_id id))

    clean_up_rows :
        (error : Text) (db : Db)
        → let recorded =
            update_jobs (is_open user' input.job_id) (begin_failure lower now error) db in
          let r = clean_up lower now user' input error db in
          (r ≡ db)
          ⊎ (r ≡ recorded)
          ⊎ (r ≡ drop_manifest input.job_id db)
          ⊎ (r ≡ drop_manifest input.job_id recorded)
    unfolding clean_up
    clean_up_rows error db = ground arith

    clean_up-Follows :
        (error : Text) (db : Db)
        → Follows user id workspace db (clean_up lower now user' input error db)
    clean_up-Follows error db =
        let recorded =
          update_jobs (is_open user' input.job_id) (begin_failure lower now error) db in
        elim (clean_up_rows error db) [
          | inl e ↦ rw e (same-Follows user id workspace db)
          | inr (inl e) ↦ rw e (failure_recorded-Follows error db)
          | inr (inr (inl e)) ↦ rw e (drop_manifest-Follows input.job_id db fresh)
          | inr (inr (inr e)) ↦ rw e (
              Follows-trans user id workspace db recorded (drop_manifest input.job_id recorded)
                (failure_recorded-Follows error db)
                (drop_manifest-Follows input.job_id recorded fresh))
        ]

    begin_job-Follows :
        (job : IndexJob) (d : ManifestDiff) (o : Option Text) (db : Db)
        → Follows user id workspace db (begin_job lower now user' input job d o db).0
    unfolding begin_job
    begin_job-Follows job d none db = same-Follows user id workspace db
    begin_job-Follows job d (some error) db = clean_up-Follows error db

    begun-Follows :
        (job : IndexJob) (d : ManifestDiff) (r : Db × Bool)
        → Follows user id workspace r.0 (start_inserted lower now user' input job d r).0
    unfolding start_inserted
    begun-Follows job d (db, true) = begin_job-Follows job d input.begin_error db
    begun-Follows job d (db, false) = same-Follows user id workspace db

    start_inserted-Follows :
        (job : IndexJob) (d : ManifestDiff) (files : List IndexManifestFile) (db : Db)
        → (job.id == id) ≡ false
        → Follows user id workspace db
            (start_inserted lower now user' input job d (insert_job job files d.pending db)).0
    start_inserted-Follows job d files db h =
        Follows-trans user id workspace db (insert_job job files d.pending db).0
          (start_inserted lower now user' input job d (insert_job job files d.pending db)).0
          (insert_job-Follows job files d.pending db h)
          (begun-Follows job d (insert_job job files d.pending db))

    start_files-Follows :
        (q : StartRequest) (files : List IndexManifestFile) (db : Db)
        → Follows user id workspace db (start_files lower now user' q input files db).0
    start_files-Follows q files db =
        let d = diff_manifest (load_snapshot user' q.workspace_id db) files in
        let exists = any (is_workspace user' q.workspace_id) db.workspaces in
        let job = new_job now user' q input.job_id exists (length files) d in
        elim (start_files_rows lower now user' input q files db) [
          | inl e ↦ rw e (λ u. (u, refl))
          | inr (inl e) ↦ rw e (same-Follows user id workspace db)
          | inr (inr e) ↦ rw e (start_inserted-Follows job d files db (unfold new_job in fresh))
        ]

    start_locked-Follows :
        (q : StartRequest) (r : ManifestResult (List IndexManifestFile)) (db : Db)
        → Follows user id workspace db (start_grafted lower now user' q input r db).0
    unfolding start_grafted
    start_locked-Follows q (err e) db = same-Follows user id workspace db
    start_locked-Follows q (ok files) db = start_files-Follows q files db

    start_bound-Follows :
        (q : StartRequest) (o : Option Workspace) (db : Db)
        → Consistent db
        → Follows user id workspace db (start_bound lower now user' q input o db).0
    start_bound-Follows q none db v = unfold start_bound start_locked in start_locked-Follows q _ db
    start_bound-Follows q (some w) db v =
        let cleared = clear_root user' (trim_space w.root_id) db in
        elim (start_bound_rows lower now user' input q w db) [
          | inl e ↦ rw e (unfold start_locked in start_locked-Follows q _ db)
          | inr (inl e) ↦ rw e (
              Follows-trans user id workspace db cleared
                (start_locked lower now user' q input cleared).0
                (clear_root-Follows user id workspace db user' (trim_space w.root_id) v)
                (unfold start_locked in start_locked-Follows q _ cleared))
          | inr (inr e) ↦ rw e (same-Follows user id workspace db)
        ]

    start_inspected-Follows :
        (q : StartRequest) (o : Option IndexJob) (db : Db)
        → Consistent db
        → Follows user id workspace db (start_inspected lower now user' q input o db).0
    unfolding start_inspected
    start_inspected-Follows q (some j) db v = same-Follows user id workspace db
    start_inspected-Follows q none db v =
        start_bound-Follows q (find (is_workspace user' q.workspace_id) db.workspaces) db v

    start_normalized-Follows :
        (q : StartRequest) (r : ManifestResult (List IndexManifestFile)) (db : Db)
        → Consistent db
        → Follows user id workspace db (start_normalized lower now user' q input r db).0
    unfolding start_normalized
    start_normalized-Follows q (err e) db v = same-Follows user id workspace db
    start_normalized-Follows q (ok files) db v =
        let (db', job) = inspect_active lower now user' q.workspace_id db in
        Follows-trans user id workspace db db'
          (start_inspected lower now user' (record q { files = files }) input job db').0
          (inspect_active-Follows user id workspace db lower now user' q.workspace_id v)
          (start_inspected-Follows (record q { files = files }) job db'
            (inspect_active-Consistent lower now user' db q.workspace_id v))

    create_index_job-Follows :
        (request : StartRequest) (db : Db)
        → Consistent db
        → Follows user id workspace db (create_index_job lower now user' request input db).0
    create_index_job-Follows request db v =
        elim (create_index_job_rows lower now user' input request db) [
          | inl e ↦ rw e (same-Follows user id workspace db)
          | inr e ↦ rw e (
              start_normalized-Follows (trimmed request)
                (normalize_manifest (trimmed request).files) db v)
        ]

  module _ (lower : Text → Text) where
    step-Follows :
        (db : Db) (c : Call)
        → IsFresh id c
        → Consistent db
        → Follows user id workspace db (step lower db c)
    unfolding step
    step-Follows db (starts now user' q input) h v =
        create_index_job-Follows lower now user' input h q db v
    step-Follows db (uploads now user' id') h v =
        start_upload-Follows user id workspace db now user' id'
    step-Follows db (commits now user' id' files chunks fallback sent) h v =
        commit_index_batch-Follows user id workspace now user' id' files chunks fallback sent db
    step-Follows db (hands_over now user' id') h v =
        hand_over-Follows user id workspace db now user' id'
    step-Follows db (records_revision effective now user' id' revision) h v =
        record_revision-Follows user id workspace db now user' id' effective revision
    step-Follows db (keeps_publishing now user' id') h v =
        keep_publishing-Follows user id workspace db now user' id'
    step-Follows db (completes now user' id' root revision) h v =
        complete_locked-Follows user id workspace db now user' id' root revision v
    step-Follows db (fails now user' id' failure diagnostic) h v =
        mark_failed-Follows user id workspace db now user' id' failure diagnostic v
    step-Follows db (sweeps is_locked now) h v = sweep-Follows user id workspace db is_locked now v
    step-Follows db (rotates now user' id') h v = rotate-Follows user id workspace db now user' id'
    step-Follows db (clears_root user' root) h v =
        clear_root-Follows user id workspace db user' root v
    step-Follows db (clears_user user') h v = clear_user-Follows user id workspace db user' v

    pub run-Follows :
        (db : Db) (calls : List Call)
        → All IsTidy calls
        → All (IsFresh id) calls
        → Consistent db
        → Follows user id workspace db (run lower db calls)
    unfolding run
    run-Follows db [] t h v = same-Follows user id workspace db
    run-Follows db (c ∷ calls) (k, t) (n, h) v =
        Follows-trans user id workspace db (step lower db c) (run lower (step lower db c) calls)
          (step-Follows db c n v)
          (run-Follows (step lower db c) calls t h (step-Consistent lower db c k v))
