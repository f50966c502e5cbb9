-- ===== src/Index/Jobs/Reconcile.antt =====
-- index_jobs.go: the completion of a job (`completeIndexJobUnderLease`) with its network call, and
-- `reconcileIndexPublication`, which resumes the publications that no client waits for. What other
-- transactions do in the gaps between the statements is a parameter, by the number of the gap.
use acemcp_relay.Prelude.{
  ℕ, Bool, not, ◌&&◌, ◌||◌, Option, none, some, text_eq, nat_eq, Text, bytes, ◌==◌, ltb,
  if◌then◌else◌, any, find,
}
use acemcp_relay.Index.Jobs.{IndexJob, Db, is_completed, is_publishing, is_job, is_open}
use acemcp_relay.Index.Jobs.Publish.{
  not_found, bad_status, unconfirmed, accepted, already_completed, waits, bad_revision,
  failed_publication, handoff_lost, nothing_to_do, revision_conflict, upstream_failed, CloudReply,
  Content, PublishError, PublishReply, complete_locked, completion_error, extract_cloud_revision,
  finish_failed_publication, hand_over, keep_publishing, no_reply, publication_failure,
  publication_state, publish_accepted, record_revision, refused, replied,
}

-- What a completion meets: the reply to its "publish", whether the revision could be recorded, and
-- what others do in the gaps.
pub record Attempt : Type 0 where
  pub now : ℕ
  pub reply : CloudReply
  pub recorded : Bool
  pub others : ℕ → Db → Db

unfoldable pub with_revision : Attempt → Text → Text → Text → Option ℕ → Db → Db × PublishReply
with_revision a user id root none db = (db, refused bad_revision)
with_revision a user id root (some cloud_revision) db =
    complete_locked a.now user id root cloud_revision
      (a.others 2 (record_revision a.recorded a.now user id cloud_revision db))

module _ (lower : Text → Text) where
  unfoldable pub with_content :
      Attempt → Text → Text → Text → Option Content → Option Text → Db → Db × PublishReply
  with_content a user id root content (some failure) db =
      (finish_failed_publication lower a.now user id failure db, failed_publication)
  with_content a user id root content none db =
      let revised = with_revision a user id root (extract_cloud_revision content) db in
      if publish_accepted content then (keep_publishing a.now user id db, accepted) else revised

  -- The network call of a job without a revision.
  unfoldable pub with_reply : Attempt → Text → Text → Text → CloudReply → Db → Db × PublishReply
  with_reply a user id root no_reply db = (db, refused upstream_failed)
  with_reply a user id root (replied content) db =
      with_content a user id root content (publication_failure content) db

  -- After the handoff: the revision is given, recorded already, or asked for.
  unfoldable pub with_known : Attempt → Text → IndexJob → Option ℕ → Db → Db × PublishReply
  with_known a user j (some revision) db =
      let completion = complete_locked a.now user j.id j.root_id revision db in
      if ltb revision 1 || ltb 0 j.cloud_revision && not (j.cloud_revision == revision)
      then (db, refused revision_conflict)
      else completion
  with_known a user j none db =
      let completion = complete_locked a.now user j.id j.root_id j.cloud_revision db in
      let asked = with_reply a user j.id j.root_id a.reply db in
      if ltb 0 j.cloud_revision then completion else asked

  unfoldable pub complete_checked :
      Attempt → Text → IndexJob → Option ℕ → Option PublishError → Db → Db × PublishReply
  complete_checked a user j known (some e) db = (db, refused e)
  complete_checked a user j known none db =
      let (db', handed) = hand_over a.now user j.id (a.others 0 db) in
      let answer = with_known a user j known (a.others 1 db') in
      if handed then answer else (db', refused handoff_lost)

  unfoldable pub complete_loaded :
      Attempt → Text → Option ℕ → Option IndexJob → Db → Db × PublishReply
  complete_loaded a user known none db = (db, refused not_found)
  complete_loaded a user known (some j) db =
      let answer = complete_checked a user j known (completion_error j) db in
      if is_completed j.status then (db, already_completed) else answer

  -- `completeIndexJobUnderLease`
  unfoldable pub complete_under_lease : Attempt → Text → Text → Option ℕ → Db → Db × PublishReply
  complete_under_lease a user id known db =
      complete_loaded a user known (find (is_job user id) db.jobs) db

  -- A publication that is over its age: the reply to its "abort".
  unfoldable pub reconcile_aborted : ℕ → Text → Text → CloudReply → Db → Db × PublishReply
  unfolding bytes
  reconcile_aborted now user id no_reply db = (db, refused upstream_failed)
  reconcile_aborted now user id (replied content) db =
      let state = publication_state content in
      let failure = bytes "cloud publication deadline exceeded; cancellation confirmed" in
      let cancelled = finish_failed_publication lower now user id failure db in
      if state == bytes "aborted" || state == bytes "cancelled"
      then (cancelled, failed_publication)
      else if state == bytes "published" || state == bytes "completed"
      then (db, waits)
      else (db, refused unconfirmed)

  -- A publication that goes on.
  unfoldable pub reconcile_pending : Attempt → Text → Text → CloudReply → Db → Db × PublishReply
  unfolding bytes
  reconcile_pending a user id no_reply db = (db, refused upstream_failed)
  reconcile_pending a user id (replied content) db =
      let state = publication_state content in
      let resumed = complete_under_lease a user id none db in
      if state == bytes "not_submitted"
      then resumed
      else if state == bytes "pending" || state == bytes "leased" || state == bytes "publishing"
      then (db, waits)
      else (db, refused bad_status)

  unfoldable pub reconcile_revision : Attempt → Text → Text → Option ℕ → Db → Db × PublishReply
  reconcile_revision a user id none db = (db, refused bad_revision)
  reconcile_revision a user id (some revision) db =
      complete_under_lease a user id (some revision) db

  -- A reply that is final: a failure, or a completed publication.
  unfoldable pub reconcile_status :
      Attempt
      → Text
      → Text
      → Option Content
      → Option Text
      → Db × PublishReply
      → Db
      → Db × PublishReply
  unfolding bytes
  reconcile_status a user id content (some failure) otherwise db =
      (finish_failed_publication lower a.now user id failure db, failed_publication)
  reconcile_status a user id content none otherwise db =
      let revised = reconcile_revision a user id (extract_cloud_revision content) db in
      if publication_state content == bytes "completed" then revised else otherwise

  unfoldable pub reconcile_replied :
      Attempt → Text → Text → CloudReply → Db × PublishReply → Db → Db × PublishReply
  reconcile_replied a user id no_reply otherwise db = otherwise
  reconcile_replied a user id (replied content) otherwise db =
      reconcile_status a user id content (publication_failure content) otherwise db

  -- `reconcileIndexPublication`, once it has its lease: the replies to "status" and to "abort", and
  -- whether the publication is older than `indexPublicationMaxAge`. Others run during both calls.
  unfoldable pub reconcile_publication :
      Attempt → Text → Text → Bool → CloudReply → CloudReply → Db → Db × PublishReply
  reconcile_publication a user id overdue status abort db =
      let asked = a.others 3 db in
      let aborted = reconcile_aborted a.now user id abort (a.others 4 asked) in
      let pending = reconcile_pending a user id status asked in
      let otherwise = if overdue then aborted else pending in
      let answer = reconcile_replied a user id status otherwise asked in
      if any (λ j. is_open user id j && is_publishing j.phase) db.jobs
      then answer
      else (db, nothing_to_do)
