-- ===== src/Index/Jobs/Upload.antt =====
-- index_jobs.go: the two transactions of `uploadIndexBatch`, `prepareIndexBatch` and
-- `commitIndexBatch`, and the heartbeat between them. SHA-256 in hexadecimal is a parameter.
use acemcp_relay.Prelude.{
  ℕ, ◌+◌, Bool, true, false, not, ◌&&◌, ◌||◌, List, [], ◌∷◌, map, Option, none, some, text_eq,
  nat_eq, Text, ◌==◌, leb, ltb, if◌then◌else◌, filter_by, any, update_where, find, count_by, length,
}
use acemcp_relay.Prelude.Int.{ℤ, pos, ◌+ℤ◌, int_eq}
use acemcp_relay.Strings.{trim_space}
use acemcp_relay.Index.Path.{normalize_index_path}
use acemcp_relay.Index.Manifest.{IndexManifestFile, ManifestError, has, sort_texts}
use acemcp_relay.Index.Jobs.{
  IndexJob, JobFile, IndexedFile, Db, JobStatus, uploading, indexing, is_running, is_publishing,
  is_job, is_open, is_file_of, is_in_workspace, update_jobs,
}

pub record UploadRequest : Type 0 where
  pub job_id : Text
  pub root_id : Text
  pub files : List IndexManifestFile

pub data UploadError : Type 0 where
  invalid_batch job_not_found root_mismatch empty_batch bad_path body_too_large quota_unavailable
        quota_exceeded upstream_failed no_longer_running commit_rejected :
      UploadError
  bad_size : ManifestError → UploadError
  job_is : JobStatus → UploadError
  not_in_job stale content_mismatch : Text → UploadError

-- `validateIndexContent` compares with a digest in lower case, so that strings.EqualFold folds the
-- ASCII letters only.
fold_byte : ℕ → ℕ
fold_byte a = if leb b'A' a && leb a b'Z' then a + 32 else a

unfoldable pub equal_fold : Text → Text → Bool
unfolding fold_byte
equal_fold s t = map fold_byte s == map fold_byte t

-- `validateIndexContent`
unfoldable pub validate_index_content : (Text → Text) → Text → ℤ → Text → Bool
validate_index_content sha256_hex hash size content =
    pos (length content) == size && equal_fold (sha256_hex content) (trim_space hash)

-- The first loop of `prepareIndexBatch`: the inputs with their paths normalised.
unfoldable pub clean_inputs : List Text → List IndexManifestFile → Option (List IndexManifestFile)
clean_inputs seen [] = some []
clean_inputs seen (f ∷ fs) =
    let path = normalize_index_path f.path in
    let rest = clean_inputs (path ∷ seen) fs in
    if path == [] || has path seen
    then none
    else elim rest [ none ↦ none | some out ↦ some (record f { path = path } ∷ out) ]

abbrev pub is_row_at : Text → Text → JobFile → Bool
is_row_at id path r = is_file_of id r && r.path == path

pub data Staging : Type 0 where
  staged : List IndexManifestFile → Staging
  refused : UploadError → Staging

abbrev stage_before : IndexManifestFile → Staging → Staging
stage_before f (staged fs) = staged (f ∷ fs)
stage_before f (refused e) = refused e

-- One input against its row of the manifest.
unfoldable pub stage_file : (Text → Text) → IndexManifestFile → Option JobFile → Staging → Staging
stage_file sha256_hex f none rest = refused (not_in_job f.path)
stage_file sha256_hex f (some r) rest =
    let file = record f { hash = r.hash; estimated_chunks = r.estimated_chunks } in
    if not r.needs_index || r.indexed || not (trim_space f.hash == r.hash)
    then refused (stale f.path)
    else if not (validate_index_content sha256_hex r.hash r.size f.content)
    then refused (content_mismatch f.path)
    else stage_before file rest

-- The second loop of `prepareIndexBatch`.
unfoldable pub stage_files : (Text → Text) → Text → List JobFile → List IndexManifestFile → Staging
stage_files sha256_hex id rows [] = staged []
stage_files sha256_hex id rows (f ∷ fs) =
    stage_file sha256_hex f (find (is_row_at id f.path) rows) (stage_files sha256_hex id rows fs)

-- The paths of the workspace's snapshot that the job's manifest lacks.
unfoldable pub deleted_paths : Text → IndexJob → Db → List Text
deleted_paths user job db =
    let gone = λ (r : IndexedFile).
      is_in_workspace user job.workspace_id r && not (any (is_row_at job.id r.path) db.job_files) in
    sort_texts (map IndexedFile.path (filter_by gone db.indexed_files))

pub data Prepared : Type 0 where
  prepared : IndexJob → List IndexManifestFile → List Text → Prepared
  unprepared : UploadError → Prepared

unfoldable pub prepare_staged : Text → IndexJob → Staging → Db → Prepared
prepare_staged user job (refused e) db = unprepared e
prepare_staged user job (staged files) db =
    let deleted = deleted_paths user job db in
    prepared job files (if not job.deletions_sent && ltb 0 job.deleted_count then deleted else [])

unfoldable pub prepare_inputs :
    (Text → Text) → Text → IndexJob → Option (List IndexManifestFile) → Db → Prepared
prepare_inputs sha256_hex user job none db = unprepared bad_path
prepare_inputs sha256_hex user job (some inputs) db =
    prepare_staged user job (stage_files sha256_hex job.id db.job_files inputs) db

unfoldable pub prepare_job : (Text → Text) → Text → UploadRequest → Option IndexJob → Db → Prepared
prepare_job sha256_hex user q none db = unprepared job_not_found
prepare_job sha256_hex user q (some job) db =
    let inputs = prepare_inputs sha256_hex user job (clean_inputs [] q.files) db in
    if not (is_running job.status)
    then unprepared (job_is job.status)
    else if not (trim_space q.root_id == job.root_id)
    then unprepared root_mismatch
    else if length q.files == 0 && job.deleted_count == 0
    then unprepared empty_batch
    else inputs

-- `prepareIndexBatch`, which reads only.
unfoldable pub prepare_index_batch : (Text → Text) → Text → UploadRequest → Db → Prepared
prepare_index_batch sha256_hex user q db =
    prepare_job sha256_hex user q (find (is_job user q.job_id) db.jobs) db

-- The heartbeat before the upload, and the count of rows that it updates, above 0 or not.
abbrev pub is_client_owned : Text → Text → IndexJob → Bool
is_client_owned user id j = is_open user id j && not (is_publishing j.phase)

unfoldable pub start_upload : ℕ → Text → Text → Db → Db × Bool
start_upload now user id db = (
  update_jobs (is_client_owned user id) (λ j. record j { phase = uploading; heartbeat_at = now })
      db,
  any (is_client_owned user id) db.jobs,
)

-- The row that one UPDATE of `commitIndexBatch` hits.
abbrev pub is_pending_at : Text → Text → JobFile → Bool
is_pending_at id path r = is_row_at id path r && r.needs_index && not r.indexed

-- The loop of `commitIndexBatch`: every file must be pending, and no longer is.
unfoldable pub commit_files : Text → List IndexManifestFile → List JobFile → Option (List JobFile)
commit_files id [] rows = some rows
commit_files id (f ∷ fs) rows =
    let rest =
      commit_files id fs
        (update_where (is_pending_at id f.path) (λ r. record r { indexed = true }) rows) in
    if count_by (is_pending_at id f.path) rows == 1 then rest else none

abbrev pub progress : ℕ → ℕ → ℤ → Bool → Bool → IndexJob → IndexJob
progress now files chunks fallback sent_deletions j = record j {
  phase = indexing;
  indexed_files = j.indexed_files + files;
  indexed_chunks = j.indexed_chunks +ℤ chunks;
  chunk_count_fallback = j.chunk_count_fallback || fallback;
  deletions_sent = j.deletions_sent || sent_deletions;
  heartbeat_at = now;
}

unfoldable pub commit_rows : ℕ → Text → ℕ → ℤ → Bool → Bool → Option (List JobFile) → Db → Db × Bool
commit_rows now id files chunks fallback sent_deletions none db = (db, false)
commit_rows now id files chunks fallback sent_deletions (some rows) db = (
  record (update_jobs (λ j. j.id == id) (progress now files chunks fallback sent_deletions) db) {
    job_files = rows;
  },
  true,
)

-- `commitIndexBatch` with its transaction; `false` is an error, after which it is rolled back.
unfoldable pub commit_index_batch :
    ℕ → Text → Text → List IndexManifestFile → ℤ → Bool → Bool → Db → Db × Bool
commit_index_batch now user id files chunks fallback sent_deletions db =
    let done =
      commit_rows now id (length files) chunks fallback sent_deletions
        (commit_files id files db.job_files) db in
    if any (is_open user id) db.jobs then done else (db, false)
