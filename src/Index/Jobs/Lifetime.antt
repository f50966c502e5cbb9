-- ===== src/Index/Jobs/Lifetime.antt =====
-- index_jobs.go: each transaction but a start follows a job that it does not end.
use acemcp_relay.Prelude.{
  ℕ, ◌≡◌, refl, sym, ap, ◌∙◌, Bool, true, false, not, ◌&&◌, List, [], ◌∷◌, Option, none, some,
  text_eq, nat_eq, Text, ◌==◌, arith, filter_by, any, update_where, find, eq_self, Bool-cases, inl,
  inr, find-any, any-update_where, length,
}
use acemcp_relay.Prelude.Int.{ℤ}
use acemcp_relay.Index.Manifest.{IndexManifestFile}
use acemcp_relay.Failure.{IndexFailureDiagnostic}
use acemcp_relay.Index.Jobs.{
  IndexJob, JobFile, Db, is_publishing, is_job, is_open, is_file_of, is_file_of_any, update_jobs,
  drop_manifest,
}
use acemcp_relay.Index.Jobs.Ending.{
  mark_failed, fail_now, sweep, is_swept, sweep_row, delete_jobs, clear_user, clear_root,
  is_job_of_root,
}
use acemcp_relay.Index.Jobs.Start.{
  expire_all, expire_row, is_running_in, inspect_active, inspect_by, is_healthy,
}
use acemcp_relay.Index.Jobs.Upload.{
  start_upload, is_client_owned, commit_index_batch, commit_rows, commit_files, is_pending_at,
  progress,
}
use acemcp_relay.Index.Jobs.Publish.{
  hand_over, hand_off, record_revision, keep_publishing, rotate, complete_locked, complete_row,
  complete, complete_reply, completion_error, publish_manifest, PublishError,
}
use acemcp_relay.Index.Jobs.Consistency.{Consistent}
use acemcp_relay.Index.Jobs.Endings.{retire}
use acemcp_relay.Index.Jobs.Statements.{Covers-id}
use acemcp_relay.Index.Jobs.Commits.{commit_files_inversion, mark_at}
use acemcp_relay.Index.Jobs.Tracking.{
  is_run_of, manifest_of, manifest_entry, Follows, touch-Follows, retire-Follows, delete-Follows,
}

module _ (user id workspace : Text) (db : Db) where
  pub same-Follows : Follows user id workspace db db
  same-Follows e = (e, refl)

  module _ (now : ℕ) (user' id' : Text) where
    pub start_upload-Follows : Follows user id workspace db (start_upload now user' id' db).0
    unfolding start_upload
    start_upload-Follows =
        touch-Follows user id workspace (is_client_owned user' id') _ db (λ j e. refl)

    pub hand_over-Follows : Follows user id workspace db (hand_over now user' id' db).0
    unfolding hand_over
    hand_over-Follows =
        touch-Follows user id workspace (is_open user' id') (hand_off now) db (λ j e. refl)

    pub keep_publishing-Follows : Follows user id workspace db (keep_publishing now user' id' db)
    unfolding keep_publishing
    keep_publishing-Follows = touch-Follows user id workspace (is_open user' id') _ db (λ j e. refl)

    pub rotate-Follows : Follows user id workspace db (rotate now user' id' db)
    unfolding rotate
    rotate-Follows =
        touch-Follows user id workspace (λ j. is_open user' id' j && is_publishing j.phase) _ db
          (λ j e. refl)

    pub record_revision-Follows :
        (effective : Bool) (revision : ℕ)
        → Follows user id workspace db (record_revision effective now user' id' revision db)
    unfolding record_revision
    record_revision-Follows false revision = same-Follows
    record_revision-Follows true revision =
        touch-Follows user id workspace (is_open user' id') _ db (λ j e. refl)

    pub mark_failed-Follows :
        (failure : Text) (diagnostic : Option IndexFailureDiagnostic)
        → Consistent db
        → Follows user id workspace db (mark_failed now user' id' failure diagnostic db).0
    unfolding mark_failed update_jobs drop_manifest
    mark_failed-Follows failure diagnostic v = elim (Bool-cases (any (is_open user' id') db.jobs)) [
      | inl e ↦ rw e (
          unfold retire in
          retire-Follows user id workspace (is_open user' id') (is_file_of id') db
            (Covers-id (is_open user' id') id' db (λ j k. ground (arith, k)) e) v
            (fail_now now failure diagnostic) (λ j k. (refl, refl, refl)))
      | inr e ↦ rw e same-Follows
    ]

    publish_manifest-Follows :
        (root : Text) (revision : ℕ) (j : IndexJob)
        → any (λ k. k.id == j.id) db.jobs ≡ true
        → Consistent db
        → Follows user id workspace db (publish_manifest now user' root revision j db)
    unfolding publish_manifest update_jobs drop_manifest
    publish_manifest-Follows root revision j e v =
        unfold retire in
        retire-Follows user id workspace (λ k. k.id == j.id) (is_file_of j.id) db
          (Covers-id (λ k. k.id == j.id) j.id db (λ k u. u) e) v (complete now revision)
          (λ k u. (refl, refl, refl))

    complete_reply-Follows :
        (o : Option PublishError) (db' : Db)
        → Follows user id workspace db db'
        → Follows user id workspace db (complete_reply o db db').0
    complete_reply-Follows none db' f = f
    complete_reply-Follows (some e) db' f = same-Follows

    complete_row-Follows :
        (root : Text) (revision : ℕ) (o : Option IndexJob)
        → find (is_job user' id') db.jobs ≡ o
        → Consistent db
        → Follows user id workspace db (complete_row now user' root revision o db).0
    unfolding complete_row
    complete_row-Follows root revision none e v = same-Follows
    complete_row-Follows root revision (some j) e v =
        complete_reply-Follows (completion_error j) (publish_manifest now user' root revision j db)
          (publish_manifest-Follows root revision j
            (find-any (is_job user' id') (λ k. k.id == j.id) db.jobs {x = j} e (eq_self j.id)).1 v)

    pub complete_locked-Follows :
        (root : Text) (revision : ℕ)
        → Consistent db
        → Follows user id workspace db (complete_locked now user' id' root revision db).0
    unfolding complete_locked
    complete_locked-Follows root revision v =
        complete_row-Follows root revision (find (is_job user' id') db.jobs) refl v

  pub sweep-Follows :
      (is_locked : IndexJob → Bool) (now : ℕ)
      → Consistent db
      → Follows user id workspace db (sweep is_locked now db)
  unfolding sweep
  sweep-Follows is_locked now v =
      let p = λ (j : IndexJob). is_swept now j && not (is_locked j) in
      unfold retire in
      retire-Follows user id workspace p (is_file_of_any p db.jobs) db (λ r. refl) v (sweep_row now)
        (λ j k. (refl, refl, refl))

  delete_jobs-Follows :
      (p : IndexJob → Bool) → Consistent db → Follows user id workspace db (delete_jobs p db)
  unfolding delete_jobs
  delete_jobs-Follows p v =
      delete-Follows user id workspace p (is_file_of_any p db.jobs) db (λ r. refl) v

  pub clear_user-Follows :
      (user' : Text) → Consistent db → Follows user id workspace db (clear_user user' db)
  unfolding clear_user
  clear_user-Follows user' v = delete_jobs-Follows (λ j. j.user_id == user') v

  pub clear_root-Follows :
      (user' root : Text) → Consistent db → Follows user id workspace db (clear_root user' root db)
  unfolding clear_root
  clear_root-Follows user' root v = delete_jobs-Follows (is_job_of_root user' root) v

  module _ (lower : Text → Text) (now : ℕ) (user' workspace' : Text) where
    expire_all-Follows :
        Consistent db → Follows user id workspace db (expire_all lower now user' workspace' db)
    unfolding expire_all
    expire_all-Follows v =
        let p = is_running_in user' workspace' in
        unfold retire in
        retire-Follows user id workspace p (is_file_of_any p db.jobs) db (λ r. refl) v
          (expire_row lower now) (λ j k. (refl, refl, refl))

    inspect_by-Follows :
        (o : Option IndexJob)
        → Consistent db
        → Follows user id workspace db (inspect_by lower now user' workspace' o db).0
    unfolding inspect_by
    inspect_by-Follows none v = expire_all-Follows v
    inspect_by-Follows (some j) v = same-Follows

    pub inspect_active-Follows :
        Consistent db
        → Follows user id workspace db (inspect_active lower now user' workspace' db).0
    unfolding inspect_active
    inspect_active-Follows v = inspect_by-Follows (find (is_healthy now user' workspace') db.jobs) v

-- What is published of a manifest does not show which rows are indexed.
module _ (user id workspace id' : Text) where
  manifest-mark_at :
      (path : Text) (rows : List JobFile)
      → manifest_of id (mark_at id' path rows) ≡ manifest_of id rows
  unfolding filter_by update_where
  manifest-mark_at path [] = refl
  manifest-mark_at path (r ∷ rows) =
      let ih = manifest-mark_at path rows in
      let added = ap (λ rest. manifest_entry r ∷ rest) ih in
      elim (Bool-cases (is_pending_at id' path r)) [
        | inl u ↦
            rw u (elim (Bool-cases (is_file_of id r)) [ inl w ↦ rw w added | inr w ↦ rw w ih ])
        | inr u ↦
            rw u (elim (Bool-cases (is_file_of id r)) [ inl w ↦ rw w added | inr w ↦ rw w ih ])
      ]

  manifest-commit_files :
      (fs : List IndexManifestFile) (rows rows' : List JobFile)
      → commit_files id' fs rows ≡ some rows'
      → manifest_of id rows' ≡ manifest_of id rows
  manifest-commit_files [] rows rows' e =
      unfold commit_files in ap (manifest_of id) (ground (arith, e))
  manifest-commit_files (f ∷ fs) rows rows' e =
      let (_, t) = commit_files_inversion id' f fs rows rows' e in
      manifest-commit_files fs (mark_at id' f.path rows) rows' t ∙ manifest-mark_at f.path rows

module _ (user id workspace : Text) (now : ℕ) (user' id' : Text) (fs : List IndexManifestFile)
    (chunks : ℤ) (fallback sent : Bool) (db : Db) where
  commit_rows-Follows :
      (o : Option (List JobFile))
      → commit_files id' fs db.job_files ≡ o
      → Follows user id workspace db (commit_rows now id' (length fs) chunks fallback sent o db).0
  unfolding commit_rows update_jobs
  commit_rows-Follows none c e = (e, refl)
  commit_rows-Follows (some rows') c e = (
    sym (
          any-update_where (is_run_of user id workspace) (λ j. j.id == id')
            (progress now (length fs) chunks fallback sent) (λ j u. refl) db.jobs)
        ∙ e,
    manifest-commit_files user id workspace id' fs db.job_files rows' c,
  )

  pub commit_index_batch-Follows :
      Follows user id workspace db (commit_index_batch now user' id' fs chunks fallback sent db).0
  unfolding commit_index_batch
  commit_index_batch-Follows = elim (Bool-cases (any (is_open user' id') db.jobs)) [
    | inl e ↦ rw e (commit_rows-Follows (commit_files id' fs db.job_files) refl)
    | inr e ↦ rw e (same-Follows user id workspace db)
  ]
