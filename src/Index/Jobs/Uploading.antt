-- ===== src/Index/Jobs/Uploading.antt =====
-- index_jobs.go: what an upload does to the manifests, by its reply.
use acemcp_relay.Prelude.{ℕ, ◌≡◌, ◌≢◌, ◌⊎◌, Bool, true, ◌&&◌, List, text_eq, nat_eq, Text, any, All}
use acemcp_relay.Strings.{trim_space}
use acemcp_relay.Index.Manifest.{IndexManifestFile}
use acemcp_relay.Index.Jobs.{IndexJob, JobFile, Db}
use acemcp_relay.Index.Jobs.Upload.{UploadRequest, Prepared, prepared, is_row_at}
use acemcp_relay.Index.Jobs.Staging.{QuotaVerdict, charged, UploadInput, UploadReply, committed}

-- The job's row of a path is uploaded.
abbrev pub is_uploaded_at : Text → Text → JobFile → Bool
is_uploaded_at id path r = is_row_at id path r && r.needs_index && r.indexed

-- Either the manifests are as they were, and the reply is a refusal, or the reply is no refusal, and
-- all the files are uploaded.
abbrev pub IsWhole : Text → List IndexManifestFile → List JobFile → Db × UploadReply → Type 0
IsWhole id files rows r =
    ((r.0.job_files ≡ rows) × (r.1 ≢ committed))
    ⊎ ((r.1 ≡ committed) × All (λ f. any (is_uploaded_at id f.path) r.0.job_files ≡ true) files)

-- By the batch that was prepared: either the manifests are as they were and the reply is a refusal,
-- or the reply is no refusal, the quota was charged, and all the files of the batch are uploaded.
abbrev pub IsWholeOf : List JobFile → QuotaVerdict → Prepared → Db × UploadReply → Type 0
IsWholeOf rows quota p r =
    ((r.0.job_files ≡ rows) × (r.1 ≢ committed))
    ⊎ ((r.1 ≡ committed)
        × (quota ≡ charged)
        × ((job : IndexJob) × (files : List IndexManifestFile) × (deleted : List Text) × (p
              ≡ prepared job files deleted)
            × All (λ f. any (is_uploaded_at job.id f.path) r.0.job_files ≡ true) files))

module _ (user : Text) (rows : List JobFile) where
  module _ (meanwhile : ℕ → Db → Db)
      (kept : (n : ℕ) (db : Db) → (meanwhile n db).job_files ≡ db.job_files)
      (input : UploadInput) where
    -- As above, and a reply that is no refusal needs the charge.
    IsPaid : Text → List IndexManifestFile → QuotaVerdict → Db × UploadReply → Type 0
    IsPaid id files quota r = IsWhole id files rows r × (r.1 ≡ committed → quota ≡ charged)

-- The request with its texts trimmed.
abbrev pub trimmed : UploadRequest → UploadRequest
trimmed q = record q { job_id = trim_space q.job_id; root_id = trim_space q.root_id }
