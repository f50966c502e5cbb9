-- ===== src/PlatformConfig.antt =====
-- platform_config_jobs.go: the durable queue of configuration changes (`platform_config_jobs`), of
-- which one at a time is unfinished. Rows stand in the order of their creation; a time is a number
-- of milliseconds. Submissions and completions run under the platform's lock, the other statements
-- are single UPDATEs.
pub mod Calls
pub mod Worker
pub mod Fencing
pub mod Tests
use acemcp_relay.Prelude.{
  ℕ, ◌+◌, ◌-◌, Bool, true, false, not, ◌&&◌, ◌||◌, List, [], ◌∷◌, ◌++◌, Option, none, some, text_eq,
  nat_eq, Text, bytes, ◌==◌, leb, ltb, if◌then◌else◌, update_where, update_first, find, any, length,
}
use acemcp_relay.RootDeletion.{retry_delay}
use acemcp_relay.Index.Leases.{Lease}
use acemcp_relay.Index.Jobs.{Db}

pub data ConfigStatus : Type 0 where
  pending running succeeded rejected : ConfigStatus

-- The texts of the column `error`.
pub data Message : Type 0 where
  no_message will_retry recovery_needed changed_before_commit expired_before_commit : Message

-- `clearedRelayIndexes`
pub record ClearedIndexes : Type 0 where
  pub jobs : ℕ
  pub files : ℕ
  pub workspaces : ℕ
  pub leases : ℕ

-- A row of `platform_config_jobs`. The result holds what the cloud service sent and what was
-- cleared; its third member repeats the column `embedding_changed`.
pub record PlatformConfigJob : Type 0 where
  pub id : Text
  pub section : Text
  pub embedding_changed : Bool
  pub status : ConfigStatus
  pub attempt_id : Option Text
  pub claim_until : Option ℕ
  pub attempt_count : ℕ
  pub recovery_required : Bool
  pub next_attempt_at : ℕ
  pub error : Message
  pub result : Option (Text × ClearedIndexes)
  pub updated_at : ℕ

abbrev pub Table : Type 0
Table = List PlatformConfigJob

-- `platformConfigJobMaxAttempts`
abbrev pub max_attempts : ℕ
max_attempts = 5

abbrev pub claim_duration : ℕ
claim_duration = 900000

abbrev pub is_pending : ConfigStatus → Bool
is_pending pending = true
is_pending _ = false

abbrev pub is_running : ConfigStatus → Bool
is_running running = true
is_running _ = false

-- `status IN ('pending','running')`
abbrev pub is_unfinished : PlatformConfigJob → Bool
is_unfinished j = is_pending j.status || is_running j.status

abbrev pub is_named : Text → PlatformConfigJob → Bool
is_named id j = j.id == id

-- `claim_until < NOW()` and `claim_until > NOW()`: both fail on NULL.
abbrev pub is_over : ℕ → Option ℕ → Bool
is_over now none = false
is_over now (some t) = ltb t now

abbrev pub is_held : ℕ → Option ℕ → Bool
is_held now none = false
is_held now (some t) = ltb now t

pub data ConfigError : Type 0 where
  identity_mismatch operation_busy unconfirmed no_rows : ConfigError

pub data ConfigReply : Type 0 where
  accepted : PlatformConfigJob → ConfigReply
  refused : ConfigError → ConfigReply

abbrev pub new_job : ℕ → Text → Text → Bool → PlatformConfigJob
new_job now id section embedding_changed = record {
  id = id;
  section = section;
  embedding_changed = embedding_changed;
  status = pending;
  attempt_id = none;
  claim_until = none;
  attempt_count = 0;
  recovery_required = false;
  next_attempt_at = now;
  error = no_message;
  result = none;
  updated_at = now;
}

abbrev pub bool_eq : Bool → Bool → Bool
bool_eq a b = if a then b else not b

-- With a row of the same identity, a repeated request gets it again.
unfoldable pub enqueue_by :
    ℕ → Text → Text → Bool → Bool → Option PlatformConfigJob → Table → Table × ConfigReply
enqueue_by now id section embedding_changed obstructed (some j) rows =
    if not (j.section == section) || not (bool_eq j.embedding_changed embedding_changed)
    then (rows, refused identity_mismatch)
    else (rows, accepted j)
enqueue_by now id section embedding_changed obstructed none rows =
    if any is_unfinished rows || embedding_changed && obstructed
    then (rows, refused operation_busy)
    else (
      rows ++ new_job now id section embedding_changed ∷ [],
      accepted (new_job now id section embedding_changed),
    )

-- `enqueuePlatformConfigJob`; `obstructed` is whether a live lease or an unfinished root deletion
-- stands in the other tables.
unfoldable pub enqueue : ℕ → Text → Text → Bool → Bool → Table → Table × ConfigReply
enqueue now id section embedding_changed obstructed rows =
    enqueue_by now id section embedding_changed obstructed (find (is_named id) rows) rows

-- `recoverPlatformConfigJob`
abbrev pub needs_recovery : Text → PlatformConfigJob → Bool
needs_recovery id j = j.id == id && is_running j.status && j.recovery_required

unfoldable pub recover : ℕ → Text → Table → Table
recover now id rows =
    update_where (needs_recovery id)
      (λ j. record j {
        recovery_required = false;
        attempt_count = 0;
        next_attempt_at = now;
        updated_at = now;
        error = no_message;
      })
      rows

abbrev pub is_exhausted : ℕ → PlatformConfigJob → Bool
is_exhausted now j =
    is_running j.status
    && is_over now j.claim_until
    && leb max_attempts j.attempt_count
    && not j.recovery_required

abbrev pub is_claimable : ℕ → PlatformConfigJob → Bool
is_claimable now j =
    (is_pending j.status || is_running j.status && is_over now j.claim_until)
    && leb j.next_attempt_at now
    && not j.recovery_required
    && ltb j.attempt_count max_attempts

abbrev pub take_up : ℕ → Text → PlatformConfigJob → PlatformConfigJob
take_up now attempt j = record j {
  status = running;
  attempt_id = some attempt;
  attempt_count = j.attempt_count + 1;
  claim_until = some (now + claim_duration);
  updated_at = now;
}

abbrev pub stop : ℕ → PlatformConfigJob → PlatformConfigJob
stop now j = record j { recovery_required = true; error = recovery_needed; updated_at = now }

abbrev pub claimed : ℕ → Text → Option PlatformConfigJob → Option PlatformConfigJob
claimed now attempt none = none
claimed now attempt (some j) = some (take_up now attempt j)

-- `claimPlatformConfigJob`: both CTEs read the table as it was; no row is in both.
unfoldable pub claim : ℕ → Text → Table → Table × Option PlatformConfigJob
claim now attempt rows = (
  update_first 1 (is_claimable now) (take_up now attempt)
      (update_where (is_exhausted now) (stop now) rows),
  claimed now attempt (find (is_claimable now) rows),
)
