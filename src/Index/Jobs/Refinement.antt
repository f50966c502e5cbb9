-- ===== src/Index/Jobs/Refinement.antt =====
-- index_jobs.go: the handlers of a job, taken apart into the transactions.
use acemcp_relay.Prelude.{
  ℕ, ◌≡◌, ◌⊎◌, Bool, Option, none, some, text_eq, nat_eq, Text, bytes, arith, find, inl, inr,
}
use acemcp_relay.Strings.{trim_space}
use acemcp_relay.Failure.{IndexFailureDiagnostic}
use acemcp_relay.Index.Jobs.{IndexJob, Db, is_job}
use acemcp_relay.Index.Jobs.Ending.{fail_loaded, fail_index_job, reported_failure}
use acemcp_relay.Index.Jobs.Upload.{UploadRequest}
use acemcp_relay.Index.Jobs.Staging.{UploadInput, upload_index_batch}
use acemcp_relay.Index.Jobs.Publish.{
  Content, CloudReply, no_reply, replied, PublishError, PublishReply, publication_failure,
  extract_cloud_revision, publish_accepted, finish_failed_publication, completion_error, hand_over,
  record_revision,
}
use acemcp_relay.Index.Jobs.Reconcile.{
  Attempt, with_revision, with_content, with_reply, with_known, complete_checked, complete_loaded,
  complete_under_lease, reconcile_aborted, reconcile_pending, reconcile_revision, reconcile_status,
  reconcile_replied, reconcile_publication,
}
use acemcp_relay.Index.Jobs.Consistency.{Consistent}
use acemcp_relay.Index.Jobs.Runs.{step-Consistent}
use acemcp_relay.Index.Jobs.Handlers.{
  Reaches, stays, steps, Interferes, Reaches-trans, branch-Reaches, hand_over-Reaches,
  complete_locked-Reaches, record_revision-Reaches, keep_publishing-Reaches, mark_failed-Reaches,
  finish_failed_publication-Reaches, upload_index_batch-Reaches,
}

module _ (lower : Text → Text) (a : Attempt) (others : Interferes lower a.others)
    (user id : Text) where
  with_revision-Reaches :
      (root : Text) (o : Option ℕ) (db : Db)
      → Reaches lower db (with_revision a user id root o db).0
  unfolding with_revision
  with_revision-Reaches root none db = stays
  with_revision-Reaches root (some revision) db =
      let recorded = record_revision a.recorded a.now user id revision db in
      Reaches-trans lower (record_revision-Reaches lower a.now user id db a.recorded revision) (
        Reaches-trans lower (others 2 recorded)
          (complete_locked-Reaches lower a.now user id (a.others 2 recorded) root revision))

  with_content-Reaches :
      (root : Text) (content : Option Content) (o : Option Text) (db : Db)
      → Reaches lower db (with_content lower a user id root content o db).0
  unfolding with_content
  with_content-Reaches root content (some failure) db =
      finish_failed_publication-Reaches lower a.now user id db failure
  with_content-Reaches root content none db =
      branch-Reaches lower (publish_accepted content) _ _
        (keep_publishing-Reaches lower a.now user id db)
        (with_revision-Reaches root (extract_cloud_revision content) db)

  with_reply-Reaches :
      (root : Text) (reply : CloudReply) (db : Db)
      → Reaches lower db (with_reply lower a user id root reply db).0
  unfolding with_reply
  with_reply-Reaches root no_reply db = stays
  with_reply-Reaches root (replied content) db =
      with_content-Reaches root content (publication_failure content) db

module _ (lower : Text → Text) (a : Attempt) (others : Interferes lower a.others)
    (user : Text) where
  with_known-Reaches :
      (j : IndexJob) (known : Option ℕ) (db : Db)
      → Reaches lower db (with_known lower a user j known db).0
  unfolding with_known
  with_known-Reaches j (some revision) db =
      branch-Reaches lower _ _ _ stays
        (complete_locked-Reaches lower a.now user j.id db j.root_id revision)
  with_known-Reaches j none db =
      branch-Reaches lower _ _ _
        (complete_locked-Reaches lower a.now user j.id db j.root_id j.cloud_revision)
        (with_reply-Reaches lower a others user j.id j.root_id a.reply db)

  complete_checked-Reaches :
      (j : IndexJob) (known : Option ℕ) (o : Option PublishError) (db : Db)
      → Reaches lower db (complete_checked lower a user j known o db).0
  unfolding complete_checked
  complete_checked-Reaches j known (some e) db = stays
  complete_checked-Reaches j known none db =
      let handed = hand_over a.now user j.id (a.others 0 db) in
      let until =
        Reaches-trans lower (others 0 db)
          (hand_over-Reaches lower a.now user j.id (a.others 0 db)) in
      branch-Reaches lower handed.1 _ _
        (Reaches-trans lower until (
          Reaches-trans lower (others 1 handed.0)
            (with_known-Reaches j known (a.others 1 handed.0))))
        until

  complete_loaded-Reaches :
      (known : Option ℕ) (o : Option IndexJob) (db : Db)
      → Reaches lower db (complete_loaded lower a user known o db).0
  unfolding complete_loaded
  complete_loaded-Reaches known none db = stays
  complete_loaded-Reaches known (some j) db =
      branch-Reaches lower _ _ _ stays (complete_checked-Reaches j known (completion_error j) db)

  complete_under_lease-Reaches :
      (id : Text) (known : Option ℕ) (db : Db)
      → Reaches lower db (complete_under_lease lower a user id known db).0
  unfolding complete_under_lease
  complete_under_lease-Reaches id known db =
      complete_loaded-Reaches known (find (is_job user id) db.jobs) db

  module _ (id : Text) where
    reconcile_aborted_rows :
        (content : Option Content) (db : Db)
        → let r = (reconcile_aborted lower a.now user id (replied content) db).0 in
          (r ≡ db)
          ⊎ (r
              ≡ finish_failed_publication lower a.now user id
                  (bytes "cloud publication deadline exceeded; cancellation confirmed")
                  db)
    unfolding reconcile_aborted
    reconcile_aborted_rows content db = ground arith

    reconcile_aborted-Reaches :
        (reply : CloudReply) (db : Db)
        → Reaches lower db (reconcile_aborted lower a.now user id reply db).0
    reconcile_aborted-Reaches no_reply db = unfold reconcile_aborted in stays
    reconcile_aborted-Reaches (replied content) db = elim (reconcile_aborted_rows content db) [
      | inl e ↦ rw e stays
      | inr e ↦ rw e (finish_failed_publication-Reaches lower a.now user id db _)
    ]

    reconcile_pending_rows :
        (content : Option Content) (db : Db)
        → let r = (reconcile_pending lower a user id (replied content) db).0 in
          (r ≡ db) ⊎ (r ≡ (complete_under_lease lower a user id none db).0)
    unfolding reconcile_pending
    reconcile_pending_rows content db = ground arith

    reconcile_pending-Reaches :
        (reply : CloudReply) (db : Db)
        → Reaches lower db (reconcile_pending lower a user id reply db).0
    reconcile_pending-Reaches no_reply db = unfold reconcile_pending in stays
    reconcile_pending-Reaches (replied content) db = elim (reconcile_pending_rows content db) [
      | inl e ↦ rw e stays
      | inr e ↦ rw e (complete_under_lease-Reaches id none db)
    ]

    reconcile_revision-Reaches :
        (o : Option ℕ) (db : Db) → Reaches lower db (reconcile_revision lower a user id o db).0
    unfolding reconcile_revision
    reconcile_revision-Reaches none db = stays
    reconcile_revision-Reaches (some revision) db =
        complete_under_lease-Reaches id (some revision) db

    reconcile_status-Reaches :
        (content : Option Content) (o : Option Text) (otherwise : Db × PublishReply) (db : Db)
        → Reaches lower db otherwise.0
        → Reaches lower db (reconcile_status lower a user id content o otherwise db).0
    unfolding reconcile_status
    reconcile_status-Reaches content (some failure) otherwise db h =
        finish_failed_publication-Reaches lower a.now user id db failure
    reconcile_status-Reaches content none otherwise db h =
        branch-Reaches lower _ _ _ (reconcile_revision-Reaches (extract_cloud_revision content) db)
          h

    reconcile_replied-Reaches :
        (status : CloudReply) (otherwise : Db × PublishReply) (db : Db)
        → Reaches lower db otherwise.0
        → Reaches lower db (reconcile_replied lower a user id status otherwise db).0
    unfolding reconcile_replied
    reconcile_replied-Reaches no_reply otherwise db h = h
    reconcile_replied-Reaches (replied content) otherwise db h =
        reconcile_status-Reaches content (publication_failure content) otherwise db h

    reconcile_publication-Reaches :
        (overdue : Bool) (status abort : CloudReply) (db : Db)
        → Reaches lower db (reconcile_publication lower a user id overdue status abort db).0
    unfolding reconcile_publication
    reconcile_publication-Reaches overdue status abort db =
        let asked = a.others 3 db in
        branch-Reaches lower _ _ _
          (Reaches-trans lower (others 3 db) (
            reconcile_replied-Reaches status _ asked (
              branch-Reaches lower overdue _ _
                (Reaches-trans lower (others 4 asked)
                  (reconcile_aborted-Reaches abort (a.others 4 asked)))
                (reconcile_pending-Reaches status asked))))
          stays

module _ (lower : Text → Text) (between : Db → Db)
    (others : (db : Db) → Reaches lower db (between db)) where
  fail_loaded-Reaches :
      (now : ℕ) (user id failure : Text) (diagnostic : Option IndexFailureDiagnostic)
      (o : Option IndexJob) (db : Db)
      → Reaches lower db (fail_loaded between now user id failure diagnostic o db).0
  unfolding fail_loaded
  fail_loaded-Reaches now user id failure diagnostic none db = stays
  fail_loaded-Reaches now user id failure diagnostic (some j) db =
      branch-Reaches lower _ _ _ stays (
        Reaches-trans lower (others db)
          (mark_failed-Reaches lower now user id (between db) failure diagnostic))

  fail_index_job-Reaches :
      (now : ℕ) (user id failure : Text) (diagnostic : Option IndexFailureDiagnostic) (db : Db)
      → Reaches lower db (fail_index_job between now user id failure diagnostic db).0
  unfolding fail_index_job
  fail_index_job-Reaches now user id failure diagnostic db =
      branch-Reaches lower _ _ _ stays
        (fail_loaded-Reaches now user (trim_space id) (reported_failure failure) diagnostic _ db)

Reaches-Consistent :
    (lower : Text → Text) {db db' : Db} → Reaches lower db db' → Consistent db → Consistent db'
Reaches-Consistent lower stays v = v
Reaches-Consistent lower (steps {mid} h c t) v =
    step-Consistent lower mid c t (Reaches-Consistent lower h v)

-- What a handler leads to is consistent.
abbrev pub Refines : (Text → Text) → Db → Db → Type 0
Refines lower db db' = Reaches lower db db' × Consistent db'

reached :
    (lower : Text → Text) {db db' : Db}
    → Consistent db
    → Reaches lower db db'
    → Refines lower db db'
reached lower v h = (h, Reaches-Consistent lower h v)

-- Where other transactions run in the gaps, an upload, a completion, a reconciliation and a reported
-- failure, whatever they meet and reply, do to the tables what a sequence of the transactions does,
-- and therefore keep them consistent.
handlers_refine :
    (lower sha256_hex : Text → Text) (a : Attempt) (user id : Text) (db : Db) (input : UploadInput)
    (q : UploadRequest) (known : Option ℕ) (overdue : Bool) (status abort : CloudReply)
    (failure : Text) (diagnostic : Option IndexFailureDiagnostic)
    → Interferes lower a.others
    → Consistent db
    → Refines lower db (upload_index_batch sha256_hex a.others input user q db).0
      × Refines lower db (complete_under_lease lower a user id known db).0
      × Refines lower db (reconcile_publication lower a user id overdue status abort db).0
      × Refines lower db (fail_index_job (a.others 0) a.now user id failure diagnostic db).0
handlers_refine lower sha256_hex a user id db input q known overdue status abort failure diagnostic
      others v =
    (
      reached lower v (upload_index_batch-Reaches lower a.others others user sha256_hex input q db),
      reached lower v (complete_under_lease-Reaches lower a others user id known db),
      reached lower v
          (reconcile_publication-Reaches lower a others user id overdue status abort db),
      reached lower v (
          fail_index_job-Reaches lower (a.others 0) (others 0) a.now user id failure diagnostic db),
    )
