-- ===== src/PlatformConfig/Fencing.antt =====
-- platform_config_jobs.go: a configuration change takes effect once.
use acemcp_relay.Prelude.{
  ℕ, ◌≡◌, ◌⊎◌, refl, Bool, true, false, List, [], ◌∷◌, ◌++◌, Option, none, some, text_eq, nat_eq,
  Text, arith, find, any, All, All-append, All-of, All-map, All-update_where, All-update_with,
  All-update_first, inl, inr, update_where, any_of_All,
}
use acemcp_relay.PlatformConfig.{
  PlatformConfigJob, Table, is_named, is_running, enqueue, enqueue_by, new_job, recover,
  needs_recovery, claim, is_exhausted, is_claimable, take_up, stop,
}
use acemcp_relay.PlatformConfig.Worker.{
  CloudOperation, RelayState, Encounter, is_attempt, is_attempt_of, is_current, finish, defer_job,
  defer_row, process, process_reply,
}
use acemcp_relay.PlatformConfig.Calls.{
  State, Call, submits, recovers, claims, processes, changes, step, run, concluded_rows,
  finish_cases, process_reply_rows, process_rows, settle_ends,
}

-- No row of the attempt is running.
abbrev pub IsOver : PlatformConfigJob → PlatformConfigJob → Type 0
IsOver job j = is_attempt_of job j ≡ true → is_running j.status ≡ false

-- A claim that draws another attempt's identifier.
abbrev pub IsFresh : PlatformConfigJob → Call → Type 0
IsFresh job (claims _ attempt) = is_attempt job.attempt_id (some attempt) ≡ false
IsFresh job _ = Unit

module _ (job : PlatformConfigJob) (now : ℕ) where
  enqueue-IsOver :
      (id section : Text) (embedding_changed obstructed : Bool) (o : Option PlatformConfigJob)
      (rows : Table)
      → All (IsOver job) rows
      → All (IsOver job) (enqueue_by now id section embedding_changed obstructed o rows).0
  enqueue-IsOver id section embedding_changed obstructed o rows v = elim (enqueue_by_rows o) [
    | inl e ↦ rw e v
    | inr e ↦ rw e (
        All-append (IsOver job) rows (new_job now id section embedding_changed ∷ []) v
          (λ u. refl, tt))
  ]
    where
      enqueue_by_rows :
          (o : Option PlatformConfigJob)
          → let r = (enqueue_by now id section embedding_changed obstructed o rows).0 in
            (r ≡ rows) ⊎ (r ≡ rows ++ new_job now id section embedding_changed ∷ [])
      enqueue_by_rows none = unfold enqueue_by in ground arith
      enqueue_by_rows (some j) = unfold enqueue_by in ground arith

  recover-IsOver :
      (id : Text) (rows : Table) → All (IsOver job) rows → All (IsOver job) (recover now id rows)
  unfolding recover
  recover-IsOver id rows v = All-update_where (needs_recovery id) _ (λ j e k. k) rows v

  claim-IsOver :
      (attempt : Text) (rows : Table)
      → is_attempt job.attempt_id (some attempt) ≡ false
      → All (IsOver job) rows
      → All (IsOver job) (claim now attempt rows).0
  unfolding claim
  claim-IsOver attempt rows h v =
      All-update_first (is_claimable now) (take_up now attempt)
        (λ j e k u. absurd (ground (arith, u, h))) 1
        (update_where (is_exhausted now) (stop now) rows)
        (All-update_where (is_exhausted now) (stop now) (λ j e k. k) rows v)

  defer-IsOver :
      (other : PlatformConfigJob) (rows : Table)
      → All (IsOver job) rows
      → All (IsOver job) (defer_job now other rows)
  unfolding defer_job
  defer-IsOver other rows v =
      All-update_where (is_current now other) (defer_row now other) (λ j e k. k) rows v

  concluded-IsOver :
      (other : PlatformConfigJob) (receipt : CloudOperation) (s : RelayState) (rows : Table)
      → All (IsOver job) rows
      → All (IsOver job) (concluded_rows now other receipt s rows)
  unfolding concluded_rows
  concluded-IsOver other receipt s rows v =
      All-update_where (is_attempt_of other) _
        (λ j e k u. (settle_ends other.embedding_changed receipt receipt.state s).1) rows v

  finish-IsOver :
      (other : PlatformConfigJob) (receipt : CloudOperation) (s : RelayState) (rows : Table)
      → All (IsOver job) rows
      → All (IsOver job) (finish now other receipt s rows).0
  finish-IsOver other receipt s rows v = elim (finish_cases now other receipt s rows) [
    | inl e ↦ rw e v
    | inr (e, _, _) ↦ rw e (concluded-IsOver other receipt s rows v)
  ]

  reply-IsOver :
      (other : PlatformConfigJob) (o : Option CloudOperation) (s : RelayState) (rows : Table)
      → All (IsOver job) rows
      → All (IsOver job) (process_reply now other o s rows).0
  reply-IsOver other none s rows v = unfold process_reply in defer-IsOver other rows v
  reply-IsOver other (some receipt) s rows v = elim (process_reply_rows now other receipt s rows) [
    | inl e ↦ rw e (finish-IsOver other receipt s rows v)
    | inr e ↦ rw e (defer-IsOver other rows v)
  ]

  process-IsOver :
      (other : PlatformConfigJob) (e : Encounter) (s : RelayState) (rows : Table)
      → All (IsOver job) rows
      → All (IsOver job) (process now other e s rows).0
  process-IsOver other e s rows v = elim (process_rows now other e s rows) [
    | inl u ↦ rw u (defer-IsOver other rows v)
    | inr u ↦ rw u (reply-IsOver other e.reply s rows v)
  ]

  -- The completion of an attempt ends it.
  concluded_own-IsOver :
      (receipt : CloudOperation) (s : RelayState) (rows : Table)
      → All (IsOver job) (concluded_rows now job receipt s rows)
  unfolding concluded_rows
  concluded_own-IsOver receipt s rows =
      All-update_with (λ _. Unit {0}) (IsOver job) (is_attempt_of job) _
        (λ j e k u. (settle_ends job.embedding_changed receipt receipt.state s).1)
        (λ j e k u. absurd (ground (arith, e, u))) rows (All-of (λ _. Unit {0}) (λ _. tt) rows)

  nothing_left : (rows : Table) → All (IsOver job) rows → any (is_current now job) rows ≡ false
  nothing_left rows v =
      any_of_All (is_current now job) rows
        (All-map (IsOver job) (λ j. is_current now job j ≡ false) (λ j k. ground (arith, k)) rows v)

  finish_over :
      (receipt : CloudOperation) (s : RelayState) (rows : Table)
      → All (IsOver job) rows
      → finish now job receipt s rows ≡ (rows, s, false)
  finish_over receipt s rows v = elim (finish_cases now job receipt s rows) [
    | inl e ↦ e
    | inr (_, _, e) ↦ absurd (ground (arith, e, nothing_left rows v))
  ]

module _ (job : PlatformConfigJob) where
  step-IsOver :
      (s : State) (c : Call)
      → IsFresh job c
      → All (IsOver job) s.rows
      → All (IsOver job) (step s c).rows
  unfolding step enqueue
  step-IsOver s (submits now id section embedding_changed obstructed) h v =
      enqueue-IsOver job now id section embedding_changed obstructed (find (is_named id) s.rows)
        s.rows v
  step-IsOver s (recovers now id) h v = recover-IsOver job now id s.rows v
  step-IsOver s (claims now attempt) h v = claim-IsOver job now attempt s.rows h v
  step-IsOver s (processes now other e) h v = process-IsOver job now other e s.relay s.rows v
  step-IsOver s (changes relay) h v = v

  run-IsOver :
      (s : State) (calls : List Call)
      → All (IsFresh job) calls
      → All (IsOver job) s.rows
      → All (IsOver job) (run s calls).rows
  unfolding run
  run-IsOver s [] h v = v
  run-IsOver s (c ∷ calls) (k, h) v = run-IsOver (step s c) calls h (step-IsOver s c k v)

  finish_own-IsOver :
      (now : ℕ) (receipt : CloudOperation) (s : State)
      → (finish now job receipt s.relay s.rows).2 ≡ true
      → All (IsOver job) (finish now job receipt s.relay s.rows).0
  finish_own-IsOver now receipt s h = elim (finish_cases now job receipt s.relay s.rows) [
    | inl e ↦ absurd (ground (arith, e, h))
    | inr (e, _, _) ↦ rw e (concluded_own-IsOver job now receipt s.relay s.rows)
  ]

  -- Once an attempt has completed its configuration change, no completion by it, with whatever
  -- receipt, changes the table or clears the relay's index state again, whatever statements run in
  -- between, provided that their claims draw other identifiers: what was indexed after the change
  -- is not lost to a repeated reply.
  pub finish_once :
      (now : ℕ) (receipt : CloudOperation) (s : State) (calls : List Call)
      → (finish now job receipt s.relay s.rows).2 ≡ true
      → All (IsFresh job) calls
      → (now' : ℕ) (receipt' : CloudOperation)
      → let (rows, relay, _) = finish now job receipt s.relay s.rows in
        let s' = run (record { rows = rows; relay = relay }) calls in
        finish now' job receipt' s'.relay s'.rows ≡ (s'.rows, s'.relay, false)
  finish_once now receipt s calls h fresh now' receipt' =
      let (rows, relay, _) = finish now job receipt s.relay s.rows in
      let s' = run (record { rows = rows; relay = relay }) calls in
      finish_over job now' receipt' s'.relay s'.rows (
        run-IsOver (record { rows = rows; relay = relay }) calls fresh
          (finish_own-IsOver now receipt s h))
