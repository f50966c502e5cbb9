-- ===== src/Index/Jobs/Statements.antt =====
-- index_jobs.go: what each statement but the insertion and the commit keeps of the tables.
use acemcp_relay.Prelude.{
  ℕ, ◌≡◌, refl, sym, ◌∙◌, Bool, true, false, not, ◌&&◌, Option, none, some, text_eq, nat_eq, Text,
  ◌==◌, arith, any, find, eq_iff, eq_self, Bool-cases, inl, inr, All-of, any_of_All, any-implied,
  find-any,
}
use acemcp_relay.Failure.{IndexFailureDiagnostic}
use acemcp_relay.Index.Jobs.{
  IndexJob, Db, is_publishing, is_job, is_open, is_file_of, is_file_of_any, update_jobs,
  drop_manifest,
}
use acemcp_relay.Index.Jobs.Ending.{
  mark_failed, fail_now, sweep, is_swept, sweep_row, delete_jobs, clear_user, clear_root,
  is_job_of_root,
}
use acemcp_relay.Index.Jobs.Start.{
  expire_all, expire_row, is_running_in, inspect_active, inspect_by, is_healthy, clean_up,
  begin_failure, StartInput,
}
use acemcp_relay.Index.Jobs.Upload.{start_upload, is_client_owned}
use acemcp_relay.Index.Jobs.Publish.{
  hand_over, hand_off, record_revision, keep_publishing, rotate, complete_locked, complete_row,
  complete, complete_reply, completion_error, publish_manifest, PublishError,
}
use acemcp_relay.Index.Jobs.Consistency.{Consistent, Consistent-jobs, touch-Consistent}
use acemcp_relay.Index.Jobs.Endings.{Covers, retire, retire-Consistent, delete-Consistent}

module _ (now : ℕ) (user id : Text) (db : Db) where
  pub start_upload-Consistent : Consistent db → Consistent (start_upload now user id db).0
  unfolding start_upload
  start_upload-Consistent v =
      touch-Consistent (is_client_owned user id) _ db
        (λ j e. (refl, refl, refl, refl, λ k. ground (arith, e))) v

  pub hand_over-Consistent : Consistent db → Consistent (hand_over now user id db).0
  unfolding hand_over
  hand_over-Consistent v =
      touch-Consistent (is_open user id) (hand_off now) db
        (λ j e. (refl, refl, refl, refl, λ k. ground (arith, e))) v

  pub keep_publishing-Consistent : Consistent db → Consistent (keep_publishing now user id db)
  unfolding keep_publishing
  keep_publishing-Consistent v =
      touch-Consistent (is_open user id) _ db
        (λ j e. (refl, refl, refl, refl, λ k. ground (arith, e))) v

  pub rotate-Consistent : Consistent db → Consistent (rotate now user id db)
  unfolding rotate
  rotate-Consistent v =
      touch-Consistent (λ j. is_open user id j && is_publishing j.phase) _ db
        (λ j e. (refl, refl, refl, refl, λ k. k)) v

  pub record_revision-Consistent :
      (effective : Bool) (revision : ℕ)
      → Consistent db
      → Consistent (record_revision effective now user id revision db)
  unfolding record_revision
  record_revision-Consistent false revision v = v
  record_revision-Consistent true revision v =
      touch-Consistent (is_open user id) _ db (λ j e. (refl, refl, refl, refl, λ k. k)) v

-- A test that picks a job by its identifier, and does pick one, covers the rows of its manifest.
pub Covers-id :
    (p : IndexJob → Bool) (id : Text) (db : Db)
    → ((j : IndexJob) → p j ≡ true → (j.id == id) ≡ true)
    → any p db.jobs ≡ true
    → Covers p (is_file_of id) db
unfolding is_file_of_any
Covers-id p id db h e r = elim (Bool-cases (is_file_of id r)) [
  | inl u ↦
      u
      ∙ sym (
          any-implied p (λ j. p j && j.id == r.job_id) db.jobs
            (λ j k. ground (arith, k, h j k, eq_iff r.job_id id)) e)
  | inr u ↦
      u
      ∙ sym (
          any_of_All (λ j. p j && j.id == r.job_id) db.jobs
            (All-of (λ j. (p j && j.id == r.job_id) ≡ false)
              (λ j.
                ground (arith, h j, u, eq_iff j.id id, eq_iff j.id r.job_id, eq_iff r.job_id id))
              db.jobs))
]

pub mark_failed-Consistent :
    (now : ℕ) (user id failure : Text) (diagnostic : Option IndexFailureDiagnostic) (db : Db)
    → Consistent db
    → Consistent (mark_failed now user id failure diagnostic db).0
unfolding mark_failed update_jobs drop_manifest
mark_failed-Consistent now user id failure diagnostic db v =
    elim (Bool-cases (any (is_open user id) db.jobs)) [
      | inl e ↦ rw e (
          unfold retire in
          retire-Consistent (is_open user id) (is_file_of id) db
            (Covers-id (is_open user id) id db (λ j k. ground (arith, k)) e)
            (fail_now now failure diagnostic) (λ j k. (refl, refl, refl)) v)
      | inr e ↦ rw e v
    ]

pub sweep-Consistent :
    (is_locked : IndexJob → Bool) (now : ℕ) (db : Db)
    → Consistent db
    → Consistent (sweep is_locked now db)
unfolding sweep
sweep-Consistent is_locked now db v =
    let p = λ (j : IndexJob). is_swept now j && not (is_locked j) in
    unfold retire in
    retire-Consistent p (is_file_of_any p db.jobs) db (λ r. refl) (sweep_row now)
      (λ j k. (refl, refl, refl)) v

delete_jobs-Consistent :
    (p : IndexJob → Bool) (db : Db) → Consistent db → Consistent (delete_jobs p db)
unfolding delete_jobs
delete_jobs-Consistent p db v = delete-Consistent p (is_file_of_any p db.jobs) db (λ r. refl) v

pub clear_user-Consistent :
    (user : Text) (db : Db) → Consistent db → Consistent (clear_user user db)
unfolding clear_user
clear_user-Consistent user db v =
    Consistent-jobs (delete_jobs (λ j. j.user_id == user) db) _ refl refl
      (delete_jobs-Consistent (λ j. j.user_id == user) db v)

pub clear_root-Consistent :
    (user root : Text) (db : Db) → Consistent db → Consistent (clear_root user root db)
unfolding clear_root
clear_root-Consistent user root db v =
    Consistent-jobs (delete_jobs (is_job_of_root user root) db) _ refl refl
      (delete_jobs-Consistent (is_job_of_root user root) db v)

module _ (lower : Text → Text) (now : ℕ) (user : Text) (db : Db) where
  expire_all-Consistent :
      (workspace : Text) → Consistent db → Consistent (expire_all lower now user workspace db)
  unfolding expire_all
  expire_all-Consistent workspace v =
      let p = is_running_in user workspace in
      unfold retire in
      retire-Consistent p (is_file_of_any p db.jobs) db (λ r. refl) (expire_row lower now)
        (λ j k. (refl, refl, refl)) v

  inspect_by-Consistent :
      (workspace : Text) (o : Option IndexJob)
      → Consistent db
      → Consistent (inspect_by lower now user workspace o db).0
  unfolding inspect_by
  inspect_by-Consistent workspace none v = expire_all-Consistent workspace v
  inspect_by-Consistent workspace (some j) v = v

  pub inspect_active-Consistent :
      (workspace : Text) → Consistent db → Consistent (inspect_active lower now user workspace db).0
  unfolding inspect_active
  inspect_active-Consistent workspace v =
      inspect_by-Consistent workspace (find (is_healthy now user workspace) db.jobs) v

  pub clean_up-Consistent :
      (input : StartInput) (error : Text)
      → input.failure_recorded ≡ true
      → input.manifest_dropped ≡ true
      → any (is_open user input.job_id) db.jobs ≡ true
      → Consistent db
      → Consistent (clean_up lower now user input error db)
  unfolding clean_up update_jobs drop_manifest
  clean_up-Consistent input error e k h v =
      let id = input.job_id in
      rw e (
        rw k (
          unfold retire in
          retire-Consistent (is_open user id) (is_file_of id) db
            (Covers-id (is_open user id) id db (λ j u. ground (arith, u)) h)
            (begin_failure lower now error) (λ j u. (refl, refl, refl)) v))

publish_manifest-Consistent :
    (now : ℕ) (user root : Text) (revision : ℕ) (j : IndexJob) (db : Db)
    → any (λ k. k.id == j.id) db.jobs ≡ true
    → Consistent db
    → Consistent (publish_manifest now user root revision j db)
unfolding publish_manifest update_jobs drop_manifest
publish_manifest-Consistent now user root revision j db e v =
    let p = λ (k : IndexJob). k.id == j.id in
    Consistent-jobs (retire p (complete now revision) (is_file_of j.id) db) _
      (unfold retire in refl) (unfold retire in refl)
      (retire-Consistent p (is_file_of j.id) db (Covers-id p j.id db (λ k u. u) e)
        (complete now revision) (λ k u. (refl, refl, refl)) v)

complete_reply-Consistent :
    (o : Option PublishError) (db db' : Db)
    → Consistent db
    → Consistent db'
    → Consistent (complete_reply o db db').0
complete_reply-Consistent none db db' v v' = v'
complete_reply-Consistent (some e) db db' v v' = v

complete_row-Consistent :
    (now : ℕ) (user id root : Text) (revision : ℕ) (o : Option IndexJob) (db : Db)
    → find (is_job user id) db.jobs ≡ o
    → Consistent db
    → Consistent (complete_row now user root revision o db).0
unfolding complete_row
complete_row-Consistent now user id root revision none db e v = v
complete_row-Consistent now user id root revision (some j) db e v =
    complete_reply-Consistent (completion_error j) db (publish_manifest now user root revision j db)
      v
      (publish_manifest-Consistent now user root revision j db
        (find-any (is_job user id) (λ k. k.id == j.id) db.jobs {x = j} e (eq_self j.id)).1 v)

pub complete_locked-Consistent :
    (now : ℕ) (user id root : Text) (revision : ℕ) (db : Db)
    → Consistent db
    → Consistent (complete_locked now user id root revision db).0
unfolding complete_locked
complete_locked-Consistent now user id root revision db v =
    complete_row-Consistent now user id root revision (find (is_job user id) db.jobs) db refl v
