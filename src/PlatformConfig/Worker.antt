-- ===== src/PlatformConfig/Worker.antt =====
-- platform_config_jobs.go, and `clearAllRelayIndexStateTx` of platform_model_config.go: what a
-- worker does with the job that it has claimed. What the cloud service answers is an input.
use acemcp_relay.Prelude.{
  ℕ, ◌+◌, Bool, true, false, not, ◌&&◌, List, [], Option, none, some, text_eq, nat_eq, Text, ◌==◌,
  leb, if◌then◌else◌, update_where, any, length,
}
use acemcp_relay.RootDeletion.{retry_delay}
use acemcp_relay.Index.Leases.{Lease}
use acemcp_relay.Index.Jobs.{Db}
use acemcp_relay.PlatformConfig.{
  no_message, succeeded, changed_before_commit, expired_before_commit, will_retry, recovery_needed,
  rejected, ClearedIndexes, ConfigStatus, Message, PlatformConfigJob, Table, bool_eq, is_held,
  is_running, max_attempts,
}

abbrev pub is_attempt : Option Text → Option Text → Bool
is_attempt (some a) (some b) = b == a
is_attempt _ _ = false

abbrev pub is_attempt_of : PlatformConfigJob → PlatformConfigJob → Bool
is_attempt_of job j = j.id == job.id && is_attempt job.attempt_id j.attempt_id

-- The row that a worker still owns.
abbrev pub is_current : ℕ → PlatformConfigJob → PlatformConfigJob → Bool
is_current now job j = is_attempt_of job j && is_running j.status && is_held now j.claim_until

-- The state of a receipt, and whether its error is PLATFORM_MODEL_CONFIG_EXPIRED.
pub data ReceiptState : Type 0 where
  completed declined other_state : ReceiptState

pub record CloudOperation : Type 0 where
  pub operation_id : Text
  pub state : ReceiptState
  pub embedding_changed : Bool
  pub result : Text
  pub expired : Bool

abbrev pub is_final : ReceiptState → Bool
is_final other_state = false
is_final _ = true

abbrev pub nothing_cleared : ClearedIndexes
nothing_cleared = record { jobs = 0; files = 0; workspaces = 0; leases = 0 }

-- The index state that a change of the embeddings invalidates.
pub record RelayState : Type 0 where
  pub db : Db
  pub leases : List Lease

-- `clearAllRelayIndexStateTx`; the manifest rows go with their jobs.
unfoldable pub clear_all : RelayState → RelayState × ClearedIndexes
clear_all s = (
  record {
    db = record { jobs = []; job_files = []; indexed_files = []; workspaces = [] };
    leases = [];
  },
  record {
    jobs = length s.db.jobs;
    files = length s.db.indexed_files;
    workspaces = length s.db.workspaces;
    leases = length s.leases;
  },
)

-- What a confirmed receipt writes: the status, the message, and the relay's state after it.
unfoldable pub settle :
    Bool
    → CloudOperation
    → ReceiptState
    → RelayState
    → ConfigStatus × Message × RelayState × ClearedIndexes
settle embedding_changed receipt declined s = (
  rejected,
  (if receipt.expired then expired_before_commit else changed_before_commit),
  s,
  nothing_cleared,
)
settle embedding_changed receipt _ s =
    let (s', cleared) = clear_all s in
    if embedding_changed
    then (succeeded, no_message, s', cleared)
    else (succeeded, no_message, s, nothing_cleared)

abbrev pub conclude_row :
    ℕ → ConfigStatus → Message → Text → ClearedIndexes → PlatformConfigJob → PlatformConfigJob
conclude_row now s message cloud cleared j = record j {
  status = s;
  result = some (cloud, cleared);
  error = message;
  claim_until = none;
  recovery_required = false;
  updated_at = now;
}

abbrev pub confirms : PlatformConfigJob → CloudOperation → Bool
confirms job receipt =
    receipt.operation_id == job.id
    && bool_eq receipt.embedding_changed job.embedding_changed
    && is_final receipt.state

-- `finishPlatformConfigJob`: the table, the relay's state, and whether the job was concluded.
unfoldable pub finish :
    ℕ → PlatformConfigJob → CloudOperation → RelayState → Table → Table × RelayState × Bool
finish now job receipt s rows =
    let (status, message, s', cleared) = settle job.embedding_changed receipt receipt.state s in
    if not (confirms job receipt)
    then (rows, s, false)
    else if not (any (is_current now job) rows)
    then (rows, s, false)
    else (
      update_where (is_attempt_of job) (conclude_row now status message receipt.result cleared)
          rows,
      s',
      true,
    )

-- `deferPlatformConfigJob`
abbrev pub defer_row : ℕ → PlatformConfigJob → PlatformConfigJob → PlatformConfigJob
defer_row now job j = record j {
  claim_until = some now;
  next_attempt_at = now + retry_delay job.attempt_count;
  recovery_required = leb max_attempts job.attempt_count;
  error = if leb max_attempts job.attempt_count then recovery_needed else will_retry;
  updated_at = now;
}

unfoldable pub defer_job : ℕ → PlatformConfigJob → Table → Table
defer_job now job rows = update_where (is_current now job) (defer_row now job) rows

-- What a worker meets: whether it drained the local requests in time, and the reply to its
-- "commit", `none` where the call failed or the reply is not JSON.
pub record Encounter : Type 0 where
  pub drained : Bool
  pub reply : Option CloudOperation

unfoldable pub process_reply :
    ℕ → PlatformConfigJob → Option CloudOperation → RelayState → Table → Table × RelayState
process_reply now job none s rows = (defer_job now job rows, s)
process_reply now job (some receipt) s rows =
    let (rows', s', concluded) = finish now job receipt s rows in
    if concluded then (rows', s') else (defer_job now job rows, s)

-- `processPlatformConfigJob`
unfoldable pub process : ℕ → PlatformConfigJob → Encounter → RelayState → Table → Table × RelayState
process now job e s rows =
    let answer = process_reply now job e.reply s rows in
    if job.embedding_changed && not e.drained then (defer_job now job rows, s) else answer
