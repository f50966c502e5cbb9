-- ===== src/Index/Jobs/Publication.antt =====
-- index_jobs.go: what a completion has shown and what it publishes.
use acemcp_relay.Prelude.{
  ℕ, ◌<◌, ◌≡◌, refl, sym, ap, ◌∙◌, true, not, ◌&&◌, List, [], ◌∷◌, ◌++◌, map, Option, none, some,
  text_eq, nat_eq, Text, ◌==◌, arith, any, find, filter_by, All, eq_iff, eq_self, Bool-cases, inl,
  inr, filter_by_whole, filter_by-append, filter_by-filter_by-none, All-map, find-All, find-any,
  any-implied, count_by-squeeze,
}
use acemcp_relay.Index.Jobs.{
  IndexJob, JobFile, Db, is_running, is_job, is_file_of, is_in_workspace, load_snapshot,
  snapshot_entry, update_jobs, drop_manifest,
}
use acemcp_relay.Index.Jobs.Publish.{
  PublishError, published, completion_error, complete_locked, complete_row, complete_reply,
  publish_manifest, published_row,
}
use acemcp_relay.Index.Jobs.Calls.{Call, run, IsTidy}
use acemcp_relay.Index.Jobs.Consistency.{
  Consistent, IsApart, apart, IsCounted, IsNeeded, is_indexed_of, is_needed_of,
}
use acemcp_relay.Index.Jobs.Runs.{run-Consistent}
use acemcp_relay.Index.Jobs.Tracking.{is_run_of, manifest_of, manifest_entry}
use acemcp_relay.Index.Jobs.Snapshots.{IsFresh, run-Follows}

-- What the completing transaction has found where it publishes.
abbrev IsComplete : IndexJob → Type 0
IsComplete j =
    (is_running j.status ≡ true)
    × (j.indexed_files ≡ j.total_files)
    × ((0 < j.deleted_count) → j.deletions_sent ≡ true)

completion_error-IsComplete : (j : IndexJob) → completion_error j ≡ none → IsComplete j
unfolding completion_error
completion_error-IsComplete j e = ground arith

reply_inversion :
    (o : Option PublishError) (db db' : Db)
    → (complete_reply o db db').1 ≡ published
    → (o ≡ none) × ((complete_reply o db db').0 ≡ db')
reply_inversion none db db' e = (refl, refl)
reply_inversion (some x) db db' e = absurd cc

row_inversion :
    (now : ℕ) (user root : Text) (revision : ℕ) (o : Option IndexJob) (db : Db)
    → let r = complete_row now user root revision o db in
      r.1 ≡ published
      → (j : IndexJob) × (o ≡ some j)
        × (completion_error j ≡ none)
        × (r.0 ≡ publish_manifest now user root revision j db)
unfolding complete_row
row_inversion now user root revision none db e = absurd cc
row_inversion now user root revision (some j) db e =
    let (h, k) =
      reply_inversion (completion_error j) db (publish_manifest now user root revision j db) e in
    (j, refl, h, k)

locked_inversion :
    (now : ℕ) (user id root : Text) (revision : ℕ) (db : Db)
    → let r = complete_locked now user id root revision db in
      r.1 ≡ published
      → (j : IndexJob) × (find (is_job user id) db.jobs ≡ some j)
        × (completion_error j ≡ none)
        × (r.0 ≡ publish_manifest now user root revision j db)
unfolding complete_locked
locked_inversion now user id root revision db e =
    row_inversion now user root revision (find (is_job user id) db.jobs) db e

-- If a completion publishes in consistent tables, then the job that it has found is running, every
-- file of its manifest that was to be indexed is indexed, and its deletions, if it has any, have
-- been sent.
pub complete_locked_uploaded :
    (now : ℕ) (user id root : Text) (revision : ℕ) (db : Db) (j : IndexJob)
    → Consistent db
    → find (is_job user id) db.jobs ≡ some j
    → (complete_locked now user id root revision db).1 ≡ published
    → (is_running j.status ≡ true)
      × All (λ r. is_needed_of j.id r ≡ true → r.indexed ≡ true) db.job_files
      × ((0 < j.deleted_count) → j.deletions_sent ≡ true)
complete_locked_uploaded now user id root revision db j v found e =
    let (k, found', none_left, _) = locked_inversion now user id root revision db e in
    let same : k ≡ j = ground (arith, found, found') in
    let (run, full, sent) =
      completion_error-IsComplete j (ap completion_error (sym same) ∙ none_left) in
    let (indexed, total) =
      find-All (IsCounted db.job_files) (is_job user id) db.jobs {x = j} found v.counted run in
    (
      run,
      All-map (λ r. is_needed_of j.id r ≡ true → is_indexed_of j.id r ≡ true)
          (λ r. is_needed_of j.id r ≡ true → r.indexed ≡ true) (λ r k u. ground (arith, k u))
          db.job_files
          (count_by-squeeze (is_indexed_of j.id) (is_needed_of j.id) db.job_files
            (All-map IsNeeded (λ r. is_indexed_of j.id r ≡ true → is_needed_of j.id r ≡ true)
              (λ r k u. ground (arith, k, u)) db.job_files v.needed)
            (sym indexed ∙ full ∙ total)),
      sent,
    )

published_rows-in :
    (user workspace : Text) (rows : List JobFile)
    → All (λ r. is_in_workspace user workspace r ≡ true) (map (published_row user workspace) rows)
published_rows-in user workspace [] = tt
published_rows-in user workspace (r ∷ rows) =
    (ground (arith, eq_self user, eq_self workspace), published_rows-in user workspace rows)

entries_of_rows :
    (user workspace : Text) (rows : List JobFile)
    → map snapshot_entry (map (published_row user workspace) rows) ≡ map manifest_entry rows
entries_of_rows user workspace [] = refl
entries_of_rows user workspace (r ∷ rows) =
    ap (λ rest. manifest_entry r ∷ rest) (entries_of_rows user workspace rows)

-- The snapshot of the workspace that the completing writes leave.
published_files :
    (now : ℕ) (user root : Text) (revision : ℕ) (j : IndexJob) (db : Db)
    → load_snapshot user j.workspace_id (publish_manifest now user root revision j db)
      ≡ manifest_of j.id db.job_files
unfolding load_snapshot publish_manifest update_jobs drop_manifest
published_files now user root revision j db =
    let files = filter_by (is_file_of j.id) db.job_files in
    let rows = map (published_row user j.workspace_id) files in
    let others = filter_by (λ r. not (is_in_workspace user j.workspace_id r)) db.indexed_files in
    ap (map snapshot_entry) (
      filter_by-append (is_in_workspace user j.workspace_id) others rows
      ∙ ap (λ xs. xs ++ filter_by (is_in_workspace user j.workspace_id) rows)
          (filter_by-filter_by-none (is_in_workspace user j.workspace_id) db.indexed_files)
      ∙ filter_by_whole (is_in_workspace user j.workspace_id) rows
          (published_rows-in user j.workspace_id files))
    ∙ entries_of_rows user j.workspace_id files

published_files_at :
    (now : ℕ) (user root : Text) (revision : ℕ) (j : IndexJob) (db : Db) {id workspace : Text}
    → j.id ≡ id
    → j.workspace_id ≡ workspace
    → load_snapshot user workspace (publish_manifest now user root revision j db)
      ≡ manifest_of id db.job_files
published_files_at now user root revision j db {id} {workspace} i w =
    rw (← i) (rw (← w) (published_files now user root revision j db))

-- The job of an identifier is the one that runs in the workspace.
run_by_id :
    (user id workspace : Text) (db : Db) (j : IndexJob)
    → Consistent db
    → any (is_run_of user id workspace) db.jobs ≡ true
    → find (is_job user id) db.jobs ≡ some j
    → (j.id ≡ id) × (j.workspace_id ≡ workspace)
run_by_id user id workspace db j v e found =
    let p = is_run_of user id workspace in
    let named : is_job user id j ≡ true =
      (find-any (is_job user id) (λ _. true) db.jobs {x = j} found refl).0 in
    let k =
      find-All (IsApart p db.jobs) (is_job user id) db.jobs {x = j} found
        (apart p db.jobs v.distinct) in
    elim (Bool-cases (p j)) [
      | inl u ↦ ground (arith, u, eq_iff j.id id, eq_iff j.workspace_id workspace)
      | inr u ↦
          let here : any (λ x. p x && x.id == j.id) db.jobs ≡ true =
            any-implied p (λ x. p x && x.id == j.id) db.jobs
              (λ x w. ground (arith, w, named, eq_iff j.id id, eq_iff x.id id, eq_iff x.id j.id))
              e in
          absurd (ground (arith, here, k u))
    ]

-- From consistent tables on, let any transactions run in which every clean-up of a failed start
-- takes effect and no start draws the identifier of the job. If afterwards the job still runs in its
-- workspace and its completion publishes, then the workspace's snapshot is the manifest that the job
-- had at first: each of its files with its hash, its size and its estimated chunks, and no other.
pub published_snapshot :
    (lower : Text → Text) (user id workspace : Text) (db : Db) (calls : List Call)
    → All IsTidy calls
    → All (IsFresh id) calls
    → Consistent db
    → any (is_run_of user id workspace) (run lower db calls).jobs ≡ true
    → (now : ℕ) (root : Text) (revision : ℕ)
    → (complete_locked now user id root revision (run lower db calls)).1 ≡ published
    → load_snapshot user workspace
        (complete_locked now user id root revision (run lower db calls)).0
      ≡ manifest_of id db.job_files
published_snapshot lower user id workspace db calls t h v e now root revision done =
    let db' = run lower db calls in
    let (_, kept) = run-Follows user id workspace lower db calls t h v e in
    let (j, found, _, same) = locked_inversion now user id root revision db' done in
    let (i, w) = run_by_id user id workspace db' j (run-Consistent lower db calls t v) e found in
    ap (load_snapshot user workspace) same
    ∙ published_files_at now user root revision j db' i w
    ∙ kept
