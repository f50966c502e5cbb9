-- ===== src/Index/Jobs/Publish.antt =====
-- index_jobs.go: the replies of the cloud service, whose content is what JSON decoding gives (`none`
-- where it is not an object), and the statements that end or carry on a publication: the handoff,
-- the completing transaction, `finishFailedPublication` and the turns of the candidates.
use acemcp_relay.Prelude.{
  ℕ, Bool, not, ◌&&◌, ◌||◌, List, [], ◌∷◌, ◌++◌, map, Option, none, some, text_eq, nat_eq, Text,
  bytes, ◌==◌, ltb, if◌then◌else◌, filter_by, any, update_where, find,
}
use acemcp_relay.Prelude.Int.{ℤ, pos, negsuc}
use acemcp_relay.Strings.{trim_space}
use acemcp_relay.Failure.{classify_index_failure}
use acemcp_relay.Index.Jobs.{
  IndexJob, JobFile, IndexedFile, Workspace, Db, JobStatus, completed, publishing, done, is_running,
  is_publishing, is_job, is_open, is_file_of, is_in_workspace, is_workspace, update_jobs,
  drop_manifest,
}
use acemcp_relay.Index.Jobs.Ending.{mark_failed}

-- The members of an object that the code reads; a text is empty, and a revision absent, where the
-- member is missing or of another type.
pub record Fields : Type 0 where
  pub state : Text
  pub error : Text
  pub revision : Option ℤ

pub record Content : Type 0 where
  pub top : Fields
  pub payload : Option Fields

abbrev inner : Content → Option Fields → Fields
inner c none = c.top
inner c (some f) = f

-- The object that is read: the member `payload` where it is one.
unfoldable pub fields_of : Content → Fields
fields_of c = inner c c.payload

-- `publicationState`
unfoldable pub publication_state : Option Content → Text
publication_state none = []
publication_state (some c) = (fields_of c).state

-- `publicationFailure`
unfoldable pub publication_failure : Option Content → Option Text
unfolding bytes
publication_failure none = none
publication_failure (some c) =
    let f = fields_of c in
    if not (f.state == bytes "failed" || f.state == bytes "cancelled")
    then none
    else if trim_space f.error == []
    then some (bytes "cloud publication " ++ f.state)
    else some f.error

-- `publishAccepted`
unfoldable pub publish_accepted : Option Content → Bool
unfolding bytes
publish_accepted content = publication_state content == bytes "publishing"

abbrev natural : Option ℤ → Option ℕ
natural none = none
natural (some (pos n)) = some n
natural (some (negsuc _)) = none

-- `extractCloudRevision`
unfoldable pub extract_cloud_revision : Option Content → Option ℕ
extract_cloud_revision none = none
extract_cloud_revision (some c) = natural (fields_of c).revision

-- `none` is a failed call or an error of the tool.
pub data CloudReply : Type 0 where
  no_reply : CloudReply
  replied : Option Content → CloudReply

pub data PublishError : Type 0 where
  not_found pending_files pending_deletions handoff_lost revision_conflict upstream_failed
        bad_revision unconfirmed bad_status :
      PublishError
  job_is : JobStatus → PublishError

pub data PublishReply : Type 0 where
  published already_completed accepted failed_publication nothing_to_do waits : PublishReply
  refused : PublishError → PublishReply

-- `finishFailedPublication`
unfoldable pub finish_failed_publication : (Text → Text) → ℕ → Text → Text → Text → Db → Db
unfolding bytes
finish_failed_publication lower now user id failure db =
    (mark_failed now user id failure (some (classify_index_failure lower (bytes "failed") failure))
      db).0

-- The tests that both readings of a completion make.
unfoldable pub completion_error : IndexJob → Option PublishError
completion_error j =
    if not (is_running j.status)
    then some (job_is j.status)
    else if not (j.indexed_files == j.total_files)
    then some pending_files
    else if ltb 0 j.deleted_count && not j.deletions_sent
    then some pending_deletions
    else none

abbrev started_since : ℕ → Option ℕ → Option ℕ
started_since now none = some now
started_since now (some t) = some t

-- The handoff to the relay: from here on the sweep leaves the job alone.
abbrev pub hand_off : ℕ → IndexJob → IndexJob
hand_off now j = record j {
  phase = publishing;
  heartbeat_at = now;
  publishing_since = started_since now j.publishing_since;
}

unfoldable pub hand_over : ℕ → Text → Text → Db → Db × Bool
hand_over now user id db =
    (update_jobs (is_open user id) (hand_off now) db, any (is_open user id) db.jobs)

abbrev pub published_row : Text → Text → JobFile → IndexedFile
published_row user workspace r = record {
  user_id = user;
  workspace_id = workspace;
  path = r.path;
  hash = r.hash;
  size = r.size;
  estimated_chunks = r.estimated_chunks;
}

abbrev pub workspace_row : ℕ → Text → Text → ℕ → IndexJob → Workspace
workspace_row now user root cloud_revision j = record {
  user_id = user;
  workspace_id = j.workspace_id;
  workspace_name = j.workspace_name;
  root_id = root;
  branch = j.branch;
  revision = j.revision;
  cloud_revision = cloud_revision;
  indexed_at = now;
}

-- INSERT … ON CONFLICT (user_id, workspace_id) DO UPDATE
unfoldable pub upsert_workspace : Workspace → List Workspace → List Workspace
upsert_workspace w rows =
    if any (is_workspace w.user_id w.workspace_id) rows
    then update_where (is_workspace w.user_id w.workspace_id) (λ _. w) rows
    else w ∷ rows

abbrev pub complete : ℕ → ℕ → IndexJob → IndexJob
complete now cloud_revision j = record j {
  status = completed;
  phase = done;
  total_chunks = if not j.chunk_count_fallback then j.indexed_chunks else j.total_chunks;
  cloud_revision = cloud_revision;
  heartbeat_at = now;
  completed_at = some now;
}

-- The writes of the completing transaction: the snapshot of the workspace becomes the manifest.
unfoldable pub publish_manifest : ℕ → Text → Text → ℕ → IndexJob → Db → Db
publish_manifest now user root cloud_revision j db = drop_manifest j.id (
    update_jobs (λ k. k.id == j.id) (complete now cloud_revision)
      (record db {
        indexed_files =
            filter_by (λ r. not (is_in_workspace user j.workspace_id r)) db.indexed_files
            ++ map (published_row user j.workspace_id) (filter_by (is_file_of j.id) db.job_files);
        workspaces = upsert_workspace (workspace_row now user root cloud_revision j) db.workspaces;
      }))

abbrev pub complete_reply : Option PublishError → Db → Db → Db × PublishReply
complete_reply (some e) db db' = (db, refused e)
complete_reply none db db' = (db', published)

unfoldable pub complete_row : ℕ → Text → Text → ℕ → Option IndexJob → Db → Db × PublishReply
complete_row now user root cloud_revision none db = (db, refused not_found)
complete_row now user root cloud_revision (some j) db =
    complete_reply (completion_error j) db (publish_manifest now user root cloud_revision j db)

-- The completing transaction.
unfoldable pub complete_locked : ℕ → Text → Text → Text → ℕ → Db → Db × PublishReply
complete_locked now user id root cloud_revision db =
    complete_row now user root cloud_revision (find (is_job user id) db.jobs) db

-- The UPDATE that records the revision; its error is only logged.
unfoldable pub record_revision : Bool → ℕ → Text → Text → ℕ → Db → Db
record_revision effective now user id cloud_revision db =
    let db' =
      update_jobs (is_open user id)
        (λ j. record j { cloud_revision = cloud_revision; heartbeat_at = now }) db in
    if effective then db' else db

-- The UPDATE after an accepted publish.
unfoldable pub keep_publishing : ℕ → Text → Text → Db → Db
keep_publishing now user id db =
    update_jobs (is_open user id) (λ j. record j { phase = publishing; heartbeat_at = now }) db

-- The UPDATE of `reconcileIndexPublications` by which the candidates take turns.
unfoldable pub rotate : ℕ → Text → Text → Db → Db
rotate now user id db =
    update_jobs (λ j. is_open user id j && is_publishing j.phase)
      (λ j. record j { heartbeat_at = now }) db
