-- ===== src/RootDeletion.antt =====
-- root_deletion_jobs.go: the durable queue of root deletions (`root_deletion_jobs`), with the
-- statements that submit, claim, retry, finish and prune jobs. Rows stand in the order of their
-- creation; a time is a number of milliseconds. Each statement is one step: submissions and
-- completions run under the tenant's lock, the others are single UPDATEs.
pub mod Submit
pub mod Worker
pub mod Calls
pub mod Finality
pub mod Retries
pub mod Tests
use acemcp_relay.Prelude.{
  update_where, update_first, find, is_some, count_by_absent, find-append, count_by-update_where-le,
  count_by-update_first-le, find-update_where, All-update_where, All-update_first,
  length-update_where, ℕ, zero, suc, ◌+◌, ◌-◌, ◌*◌, ◌^◌, min, Bool, true, false, not, ◌&&◌, ◌||◌,
  List, [], ◌∷◌, ◌++◌, Option, none, some, text_eq, nat_eq, Text, ◌==◌, leb, ltb, if◌then◌else◌,
  filter_by,
}

pub data Status : Type 0 where
  queued running succeeded failed : Status

-- The texts of the column `error`: none, "will be retried", "retries have stopped".
pub data Detail : Type 0 where
  no_error unconfirmed stopped : Detail

pub record RootDeletionJob : Type 0 where
  pub id : Text
  pub tenant_id : Text
  pub actor_id : Text
  pub root_id : Text
  pub status : Status
  pub attempt_id : Option Text
  pub claim_until : Option ℕ
  pub attempt_count : ℕ
  pub recovery_required : Bool
  pub next_attempt_at : ℕ
  pub deleted_files : ℕ
  pub error : Detail
  pub updated_at : ℕ

abbrev pub Table : Type 0
Table = List RootDeletionJob

abbrev pub max_attempts : ℕ
max_attempts = 5

abbrev pub claim_duration : ℕ
claim_duration = 900000

abbrev pub exhausted_batch : ℕ
exhausted_batch = 100

abbrev pub is_running : Status → Bool
is_running running = true
is_running _ = false

abbrev pub is_queued : Status → Bool
is_queued queued = true
is_queued _ = false

-- `status IN ('queued', 'running')`
abbrev pub is_active : Status → Bool
is_active s = is_queued s || is_running s

abbrev pub is_finished : Status → Bool
is_finished s = not (is_active s)

-- `claim_until < NOW()` and `claim_until > NOW()`: both fail on NULL.
abbrev pub claim_over : ℕ → Option ℕ → Bool
claim_over now none = false
claim_over now (some t) = ltb t now

abbrev pub claim_holds : ℕ → Option ℕ → Bool
claim_holds now none = false
claim_holds now (some t) = ltb now t

abbrev pub is_attempt : Text → Option Text → Bool
is_attempt a none = false
is_attempt a (some b) = b == a

-- `rootDeletionRetryDelay`
unfoldable pub retry_delay : ℕ → ℕ
retry_delay attempts = min 600000 (5000 * 2 ^ min (attempts - 1) 7)

-- The rows that the CTE `exhausted` updates, and their update.
abbrev pub is_exhausted : ℕ → RootDeletionJob → Bool
is_exhausted now j =
    is_running j.status
    && claim_over now j.claim_until
    && leb max_attempts j.attempt_count
    && not j.recovery_required

abbrev pub stop : ℕ → RootDeletionJob → RootDeletionJob
stop now j = record j { recovery_required = true; error = stopped; updated_at = now }

-- The rows that the CTE `candidate` picks one of, and the claim.
abbrev pub is_claimable : ℕ → RootDeletionJob → Bool
is_claimable now j =
    (is_queued j.status || is_running j.status && claim_over now j.claim_until)
    && leb j.next_attempt_at now
    && not j.recovery_required
    && ltb j.attempt_count max_attempts

abbrev pub take_up : ℕ → Text → RootDeletionJob → RootDeletionJob
take_up now attempt j = record j {
  status = running;
  attempt_id = some attempt;
  claim_until = some (now + claim_duration);
  attempt_count = j.attempt_count + 1;
  updated_at = now;
}

-- The row that RETURNING gives.
abbrev pub claimed : ℕ → Text → Option RootDeletionJob → Option RootDeletionJob
claimed now attempt none = none
claimed now attempt (some j) = some (take_up now attempt j)

-- `claimRootDeletion`: the table, and the row as it was claimed. Both CTEs read the table as it
-- was; no row is in both.
unfoldable pub claim : ℕ → Text → Table → Table × Option RootDeletionJob
claim now attempt rows =
    let picked = find (is_claimable now) rows in
    let rows' = update_first exhausted_batch (is_exhausted now) (stop now) rows in
    (update_first 1 (is_claimable now) (take_up now attempt) rows', claimed now attempt picked)

abbrev same_attempt : Option Text → Option Text → Bool
same_attempt none _ = false
same_attempt (some a) b = is_attempt a b

-- `id = $1 AND user_id = $2 AND attempt_id = $3`
abbrev pub is_attempt_of : RootDeletionJob → RootDeletionJob → Bool
is_attempt_of job j =
    j.id == job.id && j.tenant_id == job.tenant_id && same_attempt job.attempt_id j.attempt_id

-- The row that a worker still owns: of its attempt, running and with its claim unexpired.
abbrev pub is_current : ℕ → RootDeletionJob → RootDeletionJob → Bool
is_current now job j = is_attempt_of job j && is_running j.status && claim_holds now j.claim_until

-- `rootDeletionAttemptCurrent`
unfoldable pub attempt_current : ℕ → RootDeletionJob → Table → Bool
attempt_current now job rows = is_some (find (is_current now job) rows)

-- The number of attempts that `recordRootDeletionError` writes.
abbrev pub attempts_after : Bool → ℕ → ℕ
attempts_after defer_only attempts = if defer_only then attempts - 1 else attempts

abbrev pub defer : ℕ → ℕ → RootDeletionJob → RootDeletionJob
defer now attempts j = record j {
  status = running;
  error = if leb max_attempts attempts then stopped else unconfirmed;
  updated_at = now;
  attempt_count = attempts;
  recovery_required = leb max_attempts attempts;
  claim_until = some now;
  next_attempt_at = now + retry_delay attempts;
}

-- `recordRootDeletionError`
unfoldable pub record_error : ℕ → RootDeletionJob → Bool → Table → Table
record_error now job defer_only rows =
    update_where (is_current now job) (defer now (attempts_after defer_only job.attempt_count)) rows

abbrev pub succeed : ℕ → ℕ → RootDeletionJob → RootDeletionJob
succeed now count j = record j {
  status = succeeded;
  deleted_files = count;
  error = no_error;
  updated_at = now;
  claim_until = none;
}

-- `finishRootDeletion`: the table, and whether the relay's own state of the root was cleared with
-- it. `local` is the number of files that clearing it reports.
unfoldable pub finish : ℕ → RootDeletionJob → ℕ → ℕ → Table → Table × Bool
finish now job cloud_count local rows =
    let count = if ltb 0 cloud_count then cloud_count else local in
    if attempt_current now job rows
    then (update_where (is_attempt_of job) (succeed now count) rows, true)
    else (rows, false)

-- `pruneRootDeletionHistory`, without its LIMIT of 1000 rows a call.
unfoldable pub prune : ℕ → Table → Table
prune now rows =
    filter_by (λ j. not (is_finished j.status && ltb j.updated_at (now - 604800000))) rows
