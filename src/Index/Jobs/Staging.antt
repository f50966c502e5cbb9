-- ===== src/Index/Jobs/Staging.antt =====
-- index_jobs.go: `uploadIndexBatch` around its transactions: the charge of the index quota, the call
-- of the cloud service, and the heartbeat. What other transactions do meanwhile is a parameter, by
-- the number of the gap.
use acemcp_relay.Prelude.{
  ℕ, Bool, true, false, ◌||◌, List, [], ◌∷◌, Option, none, some, text_eq, nat_eq, Text, ◌==◌, ltb,
  if◌then◌else◌, length,
}
use acemcp_relay.Prelude.Int.{ℤ, pos, ◌+ℤ◌, int_eq}
use acemcp_relay.Strings.{trim_space}
use acemcp_relay.Index.Manifest.{
  IndexManifestFile, ManifestResult, ok, err, validate_index_batch_size,
}
use acemcp_relay.Index.Jobs.{Db}
use acemcp_relay.Index.Jobs.Upload.{
  quota_exceeded, body_too_large, commit_rejected, invalid_batch, no_longer_running,
  quota_unavailable, upstream_failed, Prepared, UploadError, UploadRequest, bad_size,
  commit_index_batch, prepare_index_batch, prepared, start_upload, unprepared,
}

-- What the index quota and the cloud service answer; a number of chunks where the reply has one.
pub data QuotaVerdict : Type 0 where
  charged denied unknown : QuotaVerdict

pub data StageReply : Type 0 where
  stage_failed : StageReply
  chunks_staged : Option ℤ → StageReply

pub record UploadInput : Type 0 where
  pub now : ℕ
  pub fits_body : Bool
  pub quota : QuotaVerdict
  pub reply : StageReply

pub data UploadReply : Type 0 where
  committed : UploadReply
  upload_refused : UploadError → UploadReply

unfoldable pub estimated_total : List IndexManifestFile → ℤ
estimated_total [] = pos 0
estimated_total (f ∷ fs) = f.estimated_chunks +ℤ estimated_total fs

-- `commit_rejected`: the job has ended meanwhile, or a file of the batch is committed already.
abbrev pub commit_reply : Db × Bool → Db × UploadReply
commit_reply (db, true) = (db, committed)
commit_reply (db, false) = (db, upload_refused commit_rejected)

abbrev pub is_nonempty : List Text → Bool
is_nonempty [] = false
is_nonempty (_ ∷ _) = true

unfoldable pub upload_replied :
    (ℕ → Db → Db)
    → UploadInput
    → Text
    → Text
    → List IndexManifestFile
    → Bool
    → StageReply
    → Db
    → Db × UploadReply
upload_replied meanwhile input user id files sent stage_failed db =
    (meanwhile 1 db, upload_refused upstream_failed)
upload_replied meanwhile input user id files sent (chunks_staged (some chunks)) db =
    commit_reply (commit_index_batch input.now user id files chunks false sent (meanwhile 1 db))
upload_replied meanwhile input user id files sent (chunks_staged none) db =
    commit_reply (
      commit_index_batch input.now user id files (estimated_total files) true sent (meanwhile 1 db))

-- After the charge of the index quota, which stands even where the rest fails.
unfoldable pub upload_charged :
    (ℕ → Db → Db)
    → UploadInput
    → Text
    → Text
    → List IndexManifestFile
    → Bool
    → QuotaVerdict
    → Db
    → Db × UploadReply
upload_charged meanwhile input user id files sent unknown db =
    (db, upload_refused quota_unavailable)
upload_charged meanwhile input user id files sent denied db = (db, upload_refused quota_exceeded)
upload_charged meanwhile input user id files sent charged db =
    upload_replied meanwhile input user id files sent input.reply db

-- After the heartbeat.
unfoldable pub upload_staged :
    (ℕ → Db → Db)
    → UploadInput
    → Text
    → Text
    → List IndexManifestFile
    → List Text
    → ManifestResult ℕ
    → Db
    → Db × UploadReply
upload_staged meanwhile input user id files deleted (err e) db = (db, upload_refused (bad_size e))
upload_staged meanwhile input user id files deleted (ok _) db =
    let sent = upload_charged meanwhile input user id files (is_nonempty deleted) input.quota db in
    if input.fits_body then sent else (db, upload_refused body_too_large)

unfoldable pub upload_prepared :
    (ℕ → Db → Db) → UploadInput → Text → Prepared → Db → Db × UploadReply
upload_prepared meanwhile input user (unprepared e) db = (db, upload_refused e)
upload_prepared meanwhile input user (prepared job files deleted) db =
    let (db', updated) = start_upload input.now user job.id (meanwhile 0 db) in
    let sent =
      upload_staged meanwhile input user job.id files deleted (validate_index_batch_size files)
        db' in
    if updated then sent else (db', upload_refused no_longer_running)

unfoldable pub upload_sized :
    (Text → Text)
    → (ℕ → Db → Db)
    → UploadInput
    → Text
    → UploadRequest
    → ManifestResult ℕ
    → Db
    → Db × UploadReply
upload_sized sha256_hex meanwhile input user q (err e) db = (db, upload_refused (bad_size e))
upload_sized sha256_hex meanwhile input user q (ok _) db =
    upload_prepared meanwhile input user (prepare_index_batch sha256_hex user q db) db

-- `uploadIndexBatch`, once it has its lease.
unfoldable pub upload_index_batch :
    (Text → Text) → (ℕ → Db → Db) → UploadInput → Text → UploadRequest → Db → Db × UploadReply
upload_index_batch sha256_hex meanwhile input user request db =
    let q = record request {
      job_id = trim_space request.job_id;
      root_id = trim_space request.root_id;
    } in
    let sent =
      upload_sized sha256_hex meanwhile input user q (validate_index_batch_size q.files) db in
    if q.job_id == [] || q.root_id == [] || ltb 50 (length q.files) || ltb 128 (length q.root_id)
    then (db, upload_refused invalid_batch)
    else sent
