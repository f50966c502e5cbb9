-- ===== src/PlatformConfig/Calls.antt =====
-- platform_config_jobs.go: any sequence of the statements, by any instance and at any times.
use acemcp_relay.Prelude.{
  ℕ, ◌≤◌, ◌≡◌, ◌⊎◌, refl, Bool, true, false, List, [], ◌∷◌, Option, none, some, text_eq, nat_eq,
  Text, arith, find, any, count_by, count_by-append, count_by-update_where-le,
  count_by-update_first-le, inl, inr, update_where,
}
use acemcp_relay.PlatformConfig.{
  PlatformConfigJob, Table, ConfigStatus, Message, ClearedIndexes, is_unfinished, is_named,
  is_running, enqueue, enqueue_by, new_job, recover, needs_recovery, claim, is_exhausted,
  is_claimable, take_up, stop, is_pending,
}
use acemcp_relay.PlatformConfig.Worker.{
  completed, declined, other_state, CloudOperation, RelayState, Encounter, is_attempt_of,
  is_current, finish, settle, conclude_row, ReceiptState, defer_job, defer_row, process,
  process_reply,
}

pub record State : Type 0 where
  pub rows : Table
  pub relay : RelayState

-- One statement: a submission, a recovery, a claim with its new attempt's id, and the end of a
-- worker's attempt. The relay's state is what the other components have made of it by then.
pub data Call : Type 0 where
  submits : ℕ → Text → Text → Bool → Bool → Call
  recovers : ℕ → Text → Call
  claims : ℕ → Text → Call
  processes : ℕ → PlatformConfigJob → Encounter → Call
  changes : RelayState → Call

unfoldable pub step : State → Call → State
step s (submits now id section embedding_changed obstructed) = record s {
  rows = (enqueue now id section embedding_changed obstructed s.rows).0;
}
step s (recovers now id) = record s { rows = recover now id s.rows }
step s (claims now attempt) = record s { rows = (claim now attempt s.rows).0 }
step s (processes now job e) =
    let (rows, relay) = process now job e s.relay s.rows in record { rows = rows; relay = relay }
step s (changes relay) = record s { relay = relay }

unfoldable pub run : State → List Call → State
run s [] = s
run s (c ∷ calls) = run (step s c) calls

abbrev pub unfinished : Table → ℕ
unfinished rows = count_by is_unfinished rows

unfinished_absent : (rows : Table) → any is_unfinished rows ≡ false → unfinished rows ≡ 0
unfolding any count_by
unfinished_absent [] h = refl
unfinished_absent (j ∷ rows) h = ground (arith, unfinished_absent rows)

unfinished-enqueue_by :
    (now : ℕ) (id section : Text) (embedding_changed obstructed : Bool)
    (o : Option PlatformConfigJob) (rows : Table)
    → unfinished rows ≤ 1
    → unfinished (enqueue_by now id section embedding_changed obstructed o rows).0 ≤ 1
unfolding enqueue_by count_by
unfinished-enqueue_by now id section embedding_changed obstructed (some j) rows h =
    ground (arith, h)
unfinished-enqueue_by now id section embedding_changed obstructed none rows h = ground (
  arith,
  h,
  unfinished_absent rows,
  count_by-append is_unfinished rows (new_job now id section embedding_changed ∷ []),
)

module _ (now : ℕ) (rows : Table) where
  unfinished-recover : (id : Text) → unfinished (recover now id rows) ≤ unfinished rows
  unfolding recover
  unfinished-recover id =
      count_by-update_where-le is_unfinished (needs_recovery id) _ (λ j e k. k) rows

  unfinished-claim : (attempt : Text) → unfinished (claim now attempt rows).0 ≤ unfinished rows
  unfolding claim
  unfinished-claim attempt =
      let stopped = update_where (is_exhausted now) (stop now) rows in
      omega (
        arith,
        count_by-update_where-le is_unfinished (is_exhausted now) (stop now) (λ j e k. k) rows,
        count_by-update_first-le is_unfinished (is_claimable now) (take_up now attempt)
            (λ j e k. ground (arith, e)) 1 stopped,
      )

  unfinished-defer_job :
      (job : PlatformConfigJob) → unfinished (defer_job now job rows) ≤ unfinished rows
  unfolding defer_job
  unfinished-defer_job job =
      count_by-update_where-le is_unfinished (is_current now job) (defer_row now job) (λ j e k. k)
        rows

  unfinished-concluded :
      (job : PlatformConfigJob) (s : ConfigStatus) (message : Message) (cloud : Text)
      (cleared : ClearedIndexes)
      → is_unfinished (conclude_row now s message cloud cleared job) ≡ false
      → unfinished
          (update_where (is_attempt_of job) (conclude_row now s message cloud cleared) rows)
        ≤ unfinished rows
  unfinished-concluded job s message cloud cleared h =
      count_by-update_where-le is_unfinished (is_attempt_of job)
        (conclude_row now s message cloud cleared) (λ j e k. ground (arith, h, k)) rows

-- A confirmed receipt finishes the job.
pub settle_ends :
    (embedding_changed : Bool) (receipt : CloudOperation) (state : ReceiptState) (s : RelayState)
    → let status = (settle embedding_changed receipt state s).0 in
      (is_pending status ≡ false) × (is_running status ≡ false)
unfolding settle
settle_ends embedding_changed receipt declined s = (refl, refl)
settle_ends embedding_changed receipt completed s = ground arith
settle_ends embedding_changed receipt other_state s = ground arith

-- The table after a completion.
unfoldable pub concluded_rows : ℕ → PlatformConfigJob → CloudOperation → RelayState → Table → Table
concluded_rows now job receipt s rows =
    let (status, message, _, cleared) = settle job.embedding_changed receipt receipt.state s in
    update_where (is_attempt_of job) (conclude_row now status message receipt.result cleared) rows

pub finish_cases :
    (now : ℕ) (job : PlatformConfigJob) (receipt : CloudOperation) (s : RelayState) (rows : Table)
    → (finish now job receipt s rows ≡ (rows, s, false))
      ⊎ (((finish now job receipt s rows).0 ≡ concluded_rows now job receipt s rows)
          × ((finish now job receipt s rows).2 ≡ true)
          × (any (is_current now job) rows ≡ true))
unfolding finish concluded_rows
finish_cases now job receipt s rows = ground arith

unfinished-concluded_rows :
    (now : ℕ) (job : PlatformConfigJob) (receipt : CloudOperation) (s : RelayState) (rows : Table)
    → unfinished (concluded_rows now job receipt s rows) ≤ unfinished rows
unfolding concluded_rows
unfinished-concluded_rows now job receipt s rows =
    let r = settle job.embedding_changed receipt receipt.state s in
    unfinished-concluded now rows job r.0 r.1 receipt.result r.3
      (ground (arith, settle_ends job.embedding_changed receipt receipt.state s))

unfinished-finish :
    (now : ℕ) (job : PlatformConfigJob) (receipt : CloudOperation) (s : RelayState) (rows : Table)
    → unfinished (finish now job receipt s rows).0 ≤ unfinished rows
unfinished-finish now job receipt s rows = elim (finish_cases now job receipt s rows) [
  | inl e ↦ rw e (omega arith)
  | inr (e, _, _) ↦ rw e (unfinished-concluded_rows now job receipt s rows)
]

pub process_reply_rows :
    (now : ℕ) (job : PlatformConfigJob) (receipt : CloudOperation) (s : RelayState) (rows : Table)
    → let r = (process_reply now job (some receipt) s rows).0 in
      (r ≡ (finish now job receipt s rows).0) ⊎ (r ≡ defer_job now job rows)
unfolding process_reply
process_reply_rows now job receipt s rows = ground arith

unfinished-process_reply :
    (now : ℕ) (job : PlatformConfigJob) (o : Option CloudOperation) (s : RelayState) (rows : Table)
    → unfinished (process_reply now job o s rows).0 ≤ unfinished rows
unfinished-process_reply now job none s rows =
    unfold process_reply in unfinished-defer_job now rows job
unfinished-process_reply now job (some receipt) s rows =
    elim (process_reply_rows now job receipt s rows) [
      | inl e ↦ rw e (unfinished-finish now job receipt s rows)
      | inr e ↦ rw e (unfinished-defer_job now rows job)
    ]

pub process_rows :
    (now : ℕ) (job : PlatformConfigJob) (e : Encounter) (s : RelayState) (rows : Table)
    → let r = (process now job e s rows).0 in
      (r ≡ defer_job now job rows) ⊎ (r ≡ (process_reply now job e.reply s rows).0)
unfolding process
process_rows now job e s rows = ground arith

unfinished-process :
    (now : ℕ) (job : PlatformConfigJob) (e : Encounter) (s : RelayState) (rows : Table)
    → unfinished (process now job e s rows).0 ≤ unfinished rows
unfinished-process now job e s rows = elim (process_rows now job e s rows) [
  | inl u ↦ rw u (unfinished-defer_job now rows job)
  | inr u ↦ rw u (unfinished-process_reply now job e.reply s rows)
]

step-le : (s : State) (c : Call) → unfinished s.rows ≤ 1 → unfinished (step s c).rows ≤ 1
unfolding step enqueue
step-le s (submits now id section embedding_changed obstructed) h =
    unfinished-enqueue_by now id section embedding_changed obstructed (find (is_named id) s.rows)
      s.rows h
step-le s (recovers now id) h = omega (arith, h, unfinished-recover now s.rows id)
step-le s (claims now attempt) h = omega (arith, h, unfinished-claim now s.rows attempt)
step-le s (processes now job e) h = omega (arith, h, unfinished-process now job e s.relay s.rows)
step-le s (changes relay) h = h

-- Any sequence of the statements, from a table with at most one unfinished configuration change,
-- leaves at most one.
pub run-OneUnfinished :
    (s : State) (calls : List Call) → unfinished s.rows ≤ 1 → unfinished (run s calls).rows ≤ 1
unfolding run
run-OneUnfinished s [] h = h
run-OneUnfinished s (c ∷ calls) h = run-OneUnfinished (step s c) calls (step-le s c h)
