-- ===== src/Index/Jobs/Admission.antt =====
-- index_jobs.go: `createIndexJob` from its request to its reply, with `resetWorkspaceRootBinding`.
-- It runs under the tenant's exclusive lease (Index/Leases.antt), so that only the sweep, which ends
-- jobs, and reads run beside it: the whole of it is one step here, and a sweep between its commit
-- and the end of "begin" is run after it. strings.ToLower is a parameter.
use acemcp_relay.Prelude.{
  ℕ, not, ◌&&◌, ◌||◌, List, [], Option, none, some, text_eq, nat_eq, Text, ◌==◌, ltb, if◌then◌else◌,
  any, update_where, find, length,
}
use acemcp_relay.Strings.{trim_space}
use acemcp_relay.Index.Manifest.{
  IndexManifestFile, ManifestResult, ok, err, normalize_manifest, graft_unreadable_paths,
  diff_manifest,
}
use acemcp_relay.Index.Jobs.{IndexJob, Db, Workspace, is_workspace, load_snapshot}
use acemcp_relay.Index.Jobs.Ending.{clear_root}
use acemcp_relay.Index.Jobs.Start.{
  root_id_too_long, root_id_required, workspace_id_required, root_not_cleared, unsupported_protocol,
  StartInput, StartReply, StartRequest, active_job, bad_manifest, insert_job, inspect_active,
  new_job, protocol_version, rejected, start_inserted, start_limited, unchanged,
}

-- The UPDATE of a workspace whose files have not changed.
abbrev pub rename_workspace : StartRequest → Workspace → Workspace
rename_workspace q w = record w {
  workspace_name = q.workspace_name;
  root_id = q.root_id;
  branch = q.branch;
  revision = q.revision;
}

-- From the manifest that the job would get.
unfoldable pub start_files :
    (Text → Text)
    → ℕ
    → Text
    → StartRequest
    → StartInput
    → List IndexManifestFile
    → Db
    → Db × StartReply
start_files lower now user q input files db =
    let exists = any (is_workspace user q.workspace_id) db.workspaces in
    let d = diff_manifest (load_snapshot user q.workspace_id db) files in
    let job = new_job now user q input.job_id exists (length files) d in
    let renamed =
      update_where (is_workspace user q.workspace_id) (rename_workspace q) db.workspaces in
    let begun = start_inserted lower now user input job d (insert_job job files d.pending db) in
    if exists && length d.pending == 0 && length d.deleted == 0
    then (record db { workspaces = renamed }, unchanged)
    else if ltb 0 input.wait
    then (db, start_limited input.wait)
    else begun

unfoldable pub start_grafted :
    (Text → Text)
    → ℕ
    → Text
    → StartRequest
    → StartInput
    → ManifestResult (List IndexManifestFile)
    → Db
    → Db × StartReply
start_grafted lower now user q input (err e) db = (db, rejected (bad_manifest e))
start_grafted lower now user q input (ok files) db = start_files lower now user q input files db

-- The main transaction of `createIndexJob`.
unfoldable pub start_locked :
    (Text → Text) → ℕ → Text → StartRequest → StartInput → Db → Db × StartReply
start_locked lower now user q input db =
    start_grafted lower now user q input
      (graft_unreadable_paths (load_snapshot user q.workspace_id db) q.files q.unreadable_files) db

-- `loadIndexedWorkspaceRoot`, `workspaceRootBindingChanged` and `resetWorkspaceRootBinding`, by the
-- stored row of the workspace.
unfoldable pub start_bound :
    (Text → Text) → ℕ → Text → StartRequest → StartInput → Option Workspace → Db → Db × StartReply
start_bound lower now user q input none db = start_locked lower now user q input db
start_bound lower now user q input (some w) db =
    let stay = start_locked lower now user q input db in
    let moved = start_locked lower now user q input (clear_root user (trim_space w.root_id) db) in
    if trim_space w.root_id == trim_space q.root_id
    then stay
    else if input.root_cleared
    then moved
    else (db, rejected root_not_cleared)

unfoldable pub start_inspected :
    (Text → Text) → ℕ → Text → StartRequest → StartInput → Option IndexJob → Db → Db × StartReply
start_inspected lower now user q input (some j) db = (db, active_job j)
start_inspected lower now user q input none db =
    start_bound lower now user q input (find (is_workspace user q.workspace_id) db.workspaces) db

-- The request with its texts trimmed.
abbrev pub trimmed : StartRequest → StartRequest
trimmed q = record q {
  workspace_id = trim_space q.workspace_id;
  workspace_name = trim_space q.workspace_name;
  branch = trim_space q.branch;
  revision = trim_space q.revision;
  root_id = trim_space q.root_id;
}

abbrev max_index_root_id_len : ℕ
max_index_root_id_len = 128

unfoldable pub start_normalized :
    (Text → Text)
    → ℕ
    → Text
    → StartRequest
    → StartInput
    → ManifestResult (List IndexManifestFile)
    → Db
    → Db × StartReply
start_normalized lower now user q input (err e) db = (db, rejected (bad_manifest e))
start_normalized lower now user q input (ok files) db =
    let (db', job) = inspect_active lower now user q.workspace_id db in
    start_inspected lower now user (record q { files = files }) input job db'

-- `createIndexJob`, once it has its lease.
unfoldable pub create_index_job :
    (Text → Text) → ℕ → Text → StartRequest → StartInput → Db → Db × StartReply
create_index_job lower now user request input db =
    let q = trimmed request in
    let answer = start_normalized lower now user q input (normalize_manifest q.files) db in
    if not (q.protocol_version == protocol_version)
    then (db, rejected unsupported_protocol)
    else if q.workspace_id == [] || ltb 128 (length q.workspace_id)
    then (db, rejected workspace_id_required)
    else if q.root_id == []
    then (db, rejected root_id_required)
    else if ltb max_index_root_id_len (length q.root_id)
    then (db, rejected root_id_too_long)
    else answer
