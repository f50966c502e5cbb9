-- ===== src/Index/Jobs/Calls.antt =====
-- index_jobs.go: any sequence of the transactions on the tables of index jobs, by any instance, at
-- any times and in any order. Those of one tenant run one after another, under the lock that
-- `beginLockedIndexUserTx` takes, and the other statements are single UPDATEs.
use acemcp_relay.Prelude.{ℕ, ◌≡◌, Bool, true, List, [], ◌∷◌, Option, Text, text_eq}
use acemcp_relay.Prelude.Int.{ℤ}
use acemcp_relay.Failure.{IndexFailureDiagnostic}
use acemcp_relay.Index.Manifest.{IndexManifestFile}
use acemcp_relay.Index.Jobs.{IndexJob, Db}
use acemcp_relay.Index.Jobs.Start.{StartRequest, StartInput}
use acemcp_relay.Index.Jobs.Admission.{create_index_job}
use acemcp_relay.Index.Jobs.Upload.{start_upload, commit_index_batch}
use acemcp_relay.Index.Jobs.Publish.{
  hand_over, record_revision, keep_publishing, complete_locked, rotate,
}
use acemcp_relay.Index.Jobs.Ending.{mark_failed, sweep, clear_user, clear_root}

pub data Call : Type 0 where
  starts : ℕ → Text → StartRequest → StartInput → Call
  uploads : ℕ → Text → Text → Call
  commits : ℕ → Text → Text → List IndexManifestFile → ℤ → Bool → Bool → Call
  hands_over : ℕ → Text → Text → Call
  records_revision : Bool → ℕ → Text → Text → ℕ → Call
  keeps_publishing : ℕ → Text → Text → Call
  completes : ℕ → Text → Text → Text → ℕ → Call
  fails : ℕ → Text → Text → Text → Option IndexFailureDiagnostic → Call
  sweeps : (IndexJob → Bool) → ℕ → Call
  rotates : ℕ → Text → Text → Call
  clears_root : Text → Text → Call
  clears_user : Text → Call

module _ (lower : Text → Text) where
  unfoldable pub step : Db → Call → Db
  step db (starts now user q input) = (create_index_job lower now user q input db).0
  step db (uploads now user id) = (start_upload now user id db).0
  step db (commits now user id files chunks fallback sent) =
      (commit_index_batch now user id files chunks fallback sent db).0
  step db (hands_over now user id) = (hand_over now user id db).0
  step db (records_revision effective now user id revision) =
      record_revision effective now user id revision db
  step db (keeps_publishing now user id) = keep_publishing now user id db
  step db (completes now user id root revision) = (complete_locked now user id root revision db).0
  step db (fails now user id failure diagnostic) = (mark_failed now user id failure diagnostic db).0
  step db (sweeps is_locked now) = sweep is_locked now db
  step db (rotates now user id) = rotate now user id db
  step db (clears_root user root) = clear_root user root db
  step db (clears_user user) = clear_user user db

  unfoldable pub run : Db → List Call → Db
  run db [] = db
  run db (c ∷ calls) = run (step db c) calls

-- A start whose clean-up, if it comes to one, takes effect.
abbrev pub IsTidy : Call → Type 0
IsTidy (starts _ _ _ input) = (input.failure_recorded ≡ true) × (input.manifest_dropped ≡ true)
IsTidy _ = Unit
