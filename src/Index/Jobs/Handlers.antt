-- ===== src/Index/Jobs/Handlers.antt =====
-- index_jobs.go: the handlers, which make several transactions each, against the step relation.
use acemcp_relay.Prelude.{
  ℕ, Bool, true, false, List, Option, none, some, text_eq, nat_eq, Text, bytes, if◌then◌else◌,
}
use acemcp_relay.Failure.{IndexFailureDiagnostic, classify_index_failure}
use acemcp_relay.Index.Manifest.{
  IndexManifestFile, ManifestResult, ok, err, validate_index_batch_size,
}
use acemcp_relay.Index.Jobs.{Db}
use acemcp_relay.Index.Jobs.Ending.{mark_failed}
use acemcp_relay.Index.Jobs.Upload.{
  UploadRequest, Prepared, prepared, unprepared, prepare_index_batch, start_upload,
  commit_index_batch,
}
use acemcp_relay.Index.Jobs.Staging.{
  charged, unknown, denied, UploadInput, QuotaVerdict, StageReply, stage_failed, chunks_staged,
  commit_reply, estimated_total, upload_replied, upload_charged, upload_staged, upload_prepared,
  upload_sized, upload_index_batch, is_nonempty,
}
use acemcp_relay.Index.Jobs.Publish.{
  finish_failed_publication, hand_over, complete_locked, record_revision, keep_publishing,
}
use acemcp_relay.Index.Jobs.Calls.{
  Call, uploads, commits, hands_over, records_revision, keeps_publishing, completes, fails, step,
  IsTidy,
}

-- The tables that transactions lead to, in which every clean-up of a failed start takes effect.
pub data Reaches (lower : Text → Text) (db : Db) : Db → Type 0 where
  stays : Reaches lower db db
  steps :
      {mid : Db}
      → Reaches lower db mid
      → (c : Call) → IsTidy c
      → Reaches lower db (step lower mid c)

-- What other transactions do meanwhile.
abbrev pub Interferes : (Text → Text) → (ℕ → Db → Db) → Type 0
Interferes lower others = (gap : ℕ) (db : Db) → Reaches lower db (others gap db)

module _ (lower : Text → Text) where
  pub Reaches-trans : {a b c : Db} → Reaches lower a b → Reaches lower b c → Reaches lower a c
  Reaches-trans h stays = h
  Reaches-trans h (steps k c t) = steps (Reaches-trans h k) c t

  -- One transaction.
  step-Reaches : (db : Db) (c : Call) → IsTidy c → Reaches lower db (step lower db c)
  step-Reaches db c t = steps stays c t

  -- Either branch of a handler.
  pub branch-Reaches {ℓ} :
      {A : Type ℓ} (b : Bool) (x y : Db × A) {db : Db}
      → Reaches lower db x.0
      → Reaches lower db y.0
      → Reaches lower db (if b then x else y).0
  branch-Reaches true x y h k = h
  branch-Reaches false x y h k = k

  module _ (now : ℕ) (user id : Text) (db : Db) where
    start_upload-Reaches : Reaches lower db (start_upload now user id db).0
    start_upload-Reaches = unfold step in step-Reaches db (uploads now user id) tt

    pub hand_over-Reaches : Reaches lower db (hand_over now user id db).0
    hand_over-Reaches = unfold step in step-Reaches db (hands_over now user id) tt

    pub complete_locked-Reaches :
        (root : Text) (revision : ℕ)
        → Reaches lower db (complete_locked now user id root revision db).0
    complete_locked-Reaches root revision =
        unfold step in step-Reaches db (completes now user id root revision) tt

    pub record_revision-Reaches :
        (effective : Bool) (revision : ℕ)
        → Reaches lower db (record_revision effective now user id revision db)
    record_revision-Reaches effective revision =
        unfold step in step-Reaches db (records_revision effective now user id revision) tt

    pub keep_publishing-Reaches : Reaches lower db (keep_publishing now user id db)
    keep_publishing-Reaches = unfold step in step-Reaches db (keeps_publishing now user id) tt

    pub mark_failed-Reaches :
        (failure : Text) (diagnostic : Option IndexFailureDiagnostic)
        → Reaches lower db (mark_failed now user id failure diagnostic db).0
    mark_failed-Reaches failure diagnostic =
        unfold step in step-Reaches db (fails now user id failure diagnostic) tt

    pub finish_failed_publication-Reaches :
        (failure : Text) → Reaches lower db (finish_failed_publication lower now user id failure db)
    unfolding finish_failed_publication
    finish_failed_publication-Reaches failure =
        mark_failed-Reaches failure (some (classify_index_failure lower (bytes "failed") failure))

  commit_reply-Reaches :
      (r : Db × Bool) {db : Db} → Reaches lower db r.0 → Reaches lower db (commit_reply r).0
  commit_reply-Reaches (db, true) h = h
  commit_reply-Reaches (db, false) h = h

  module _ (meanwhile : ℕ → Db → Db) (others : Interferes lower meanwhile) (user : Text) where
    upload_replied-Reaches :
        (input : UploadInput) (id : Text) (files : List IndexManifestFile) (sent : Bool)
        (reply : StageReply) (db : Db)
        → Reaches lower db (upload_replied meanwhile input user id files sent reply db).0
    unfolding upload_replied
    upload_replied-Reaches input id files sent stage_failed db = others 1 db
    upload_replied-Reaches input id files sent (chunks_staged (some chunks)) db =
        commit_reply-Reaches
          (commit_index_batch input.now user id files chunks false sent (meanwhile 1 db))
          (Reaches-trans (others 1 db) (
            unfold step in
            step-Reaches (meanwhile 1 db) (commits input.now user id files chunks false sent) tt))
    upload_replied-Reaches input id files sent (chunks_staged none) db =
        commit_reply-Reaches
          (commit_index_batch input.now user id files (estimated_total files) true sent
            (meanwhile 1 db))
          (Reaches-trans (others 1 db) (
            unfold step in
            step-Reaches (meanwhile 1 db)
              (commits input.now user id files (estimated_total files) true sent) tt))

    upload_charged-Reaches :
        (input : UploadInput) (id : Text) (files : List IndexManifestFile) (sent : Bool)
        (quota : QuotaVerdict) (db : Db)
        → Reaches lower db (upload_charged meanwhile input user id files sent quota db).0
    unfolding upload_charged
    upload_charged-Reaches input id files sent unknown db = stays
    upload_charged-Reaches input id files sent denied db = stays
    upload_charged-Reaches input id files sent charged db =
        upload_replied-Reaches input id files sent input.reply db

    upload_staged-Reaches :
        (input : UploadInput) (id : Text) (files : List IndexManifestFile) (deleted : List Text)
        (size : ManifestResult ℕ) (db : Db)
        → Reaches lower db (upload_staged meanwhile input user id files deleted size db).0
    unfolding upload_staged
    upload_staged-Reaches input id files deleted (err e) db = stays
    upload_staged-Reaches input id files deleted (ok n) db =
        branch-Reaches input.fits_body _ _
          (upload_charged-Reaches input id files (is_nonempty deleted) input.quota db) stays

    upload_prepared-Reaches :
        (input : UploadInput) (p : Prepared) (db : Db)
        → Reaches lower db (upload_prepared meanwhile input user p db).0
    unfolding upload_prepared
    upload_prepared-Reaches input (unprepared e) db = stays
    upload_prepared-Reaches input (prepared job files deleted) db =
        let beaten = start_upload input.now user job.id (meanwhile 0 db) in
        let until =
          Reaches-trans (others 0 db)
            (start_upload-Reaches input.now user job.id (meanwhile 0 db)) in
        branch-Reaches beaten.1 _ _
          (Reaches-trans until (
            upload_staged-Reaches input job.id files deleted (validate_index_batch_size files)
              beaten.0))
          until

    upload_sized-Reaches :
        (sha256_hex : Text → Text) (input : UploadInput) (q : UploadRequest)
        (size : ManifestResult ℕ) (db : Db)
        → Reaches lower db (upload_sized sha256_hex meanwhile input user q size db).0
    unfolding upload_sized
    upload_sized-Reaches sha256_hex input q (err e) db = stays
    upload_sized-Reaches sha256_hex input q (ok n) db =
        upload_prepared-Reaches input (prepare_index_batch sha256_hex user q db) db

    pub upload_index_batch-Reaches :
        (sha256_hex : Text → Text) (input : UploadInput) (q : UploadRequest) (db : Db)
        → Reaches lower db (upload_index_batch sha256_hex meanwhile input user q db).0
    unfolding upload_index_batch
    upload_index_batch-Reaches sha256_hex input q db =
        branch-Reaches _ _ _ stays (upload_sized-Reaches sha256_hex input _ _ db)
