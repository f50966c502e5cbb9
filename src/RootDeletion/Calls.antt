-- ===== src/RootDeletion/Calls.antt =====
-- root_deletion_jobs.go: any sequence of the statements, by any instance and at any times, and the
-- jobs that stand in the table together.
use acemcp_relay.Prelude.{
  update_where, update_first, find, count_by_absent, count_by-update_where-le,
  count_by-update_first-le, ℕ, ◌+◌, ◌-◌, ◌≤◌, ◌≡◌, ◌⊎◌, refl, Bool, false, not, ◌&&◌, List, [], ◌∷◌,
  ◌++◌, some, none, Option, text_eq, nat_eq, Text, ◌==◌, ltb, arith, count_by, if◌then◌else◌,
  count_by-append, count_by-filter_by-le, Bool-cases, inl, inr, eq_iff,
}
use acemcp_relay.RootDeletion.{
  RootDeletionJob, Table, is_finished, claim, is_exhausted, is_claimable, stop, take_up,
  exhausted_batch, is_current, is_attempt_of, record_error, defer, attempts_after, finish, succeed,
  attempt_current, prune,
}
use acemcp_relay.RootDeletion.Submit.{
  Submission, is_active_of, new_job, is_recoverable, recover, resubmit, admit, answer, submit,
}
use acemcp_relay.RootDeletion.Worker.{Outcome, leaves, records, completes, conclude}

-- One statement, at the time that the database gives it: a submission, a claim with its new
-- attempt's id, the end of a worker's attempt, and the hourly clean-up.
pub data Call : Type 0 where
  submits : ℕ → Submission → Call
  claims : ℕ → Text → Call
  concludes : ℕ → ℕ → RootDeletionJob → Outcome → Call
  prunes : ℕ → Call

unfoldable pub step : Table → Call → Table
step rows (submits now q) = (submit now q rows).0
step rows (claims now attempt) = (claim now attempt rows).0
step rows (concludes now local job outcome) = conclude now local job outcome rows
step rows (prunes now) = prune now rows

unfoldable pub run : Table → List Call → Table
run rows [] = rows
run rows (c ∷ calls) = run (step rows c) calls

-- The unfinished jobs of a tenant.
abbrev pub active : Text → Table → ℕ
active tenant rows = count_by (is_active_of tenant) rows

module _ (now : ℕ) (tenant : Text) (rows : Table) where
  active-record_error :
      (job : RootDeletionJob) (d : Bool)
      → active tenant (record_error now job d rows) ≤ active tenant rows
  unfolding record_error
  active-record_error job d =
      count_by-update_where-le (is_active_of tenant) (is_current now job)
        (defer now (attempts_after d job.attempt_count)) (λ j e k. ground arith) rows

  active-finish :
      (job : RootDeletionJob) (n local : ℕ)
      → active tenant (finish now job n local rows).0 ≤ active tenant rows
  unfolding finish
  active-finish job n local = elim (Bool-cases (attempt_current now job rows)) [
    | inl e ↦ rw e (
        count_by-update_where-le (is_active_of tenant) (is_attempt_of job)
          (succeed now (if ltb 0 n then n else local)) (λ j u k. ground arith) rows)
    | inr e ↦ rw e (omega arith)
  ]

  active-conclude :
      (local : ℕ) (job : RootDeletionJob) (o : Outcome)
      → active tenant (conclude now local job o rows) ≤ active tenant rows
  unfolding conclude
  active-conclude local job leaves = omega arith
  active-conclude local job (records d) = active-record_error job d
  active-conclude local job (completes n) = elim (Bool-cases (finish now job n local rows).1) [
    | inl e ↦ rw e (active-finish job n local)
    | inr e ↦ rw e (active-record_error job false)
  ]

  active-claim : (attempt : Text) → active tenant (claim now attempt rows).0 ≤ active tenant rows
  unfolding claim
  active-claim attempt = omega (
    arith,
    count_by-update_first-le (is_active_of tenant) (is_claimable now) (take_up now attempt)
        (λ j e k. ground arith) 1 (update_first exhausted_batch (is_exhausted now) (stop now) rows),
    count_by-update_first-le (is_active_of tenant) (is_exhausted now) (stop now) (λ j e k. k)
        exhausted_batch rows,
  )

  active-prune : active tenant (prune now rows) ≤ active tenant rows
  unfolding prune
  active-prune =
      count_by-filter_by-le (is_active_of tenant)
        (λ j. not (is_finished j.status && ltb j.updated_at (now - 604800000))) rows

  pub resubmit_rows :
      (q : Submission) (job : RootDeletionJob)
      → ((resubmit now q job rows).0 ≡ rows)
        ⊎ ((resubmit now q job rows).0 ≡ update_where (is_recoverable job) (recover now) rows)
  unfolding resubmit
  resubmit_rows q job = ground arith

  active-resubmit :
      (q : Submission) (job : RootDeletionJob)
      → active tenant (resubmit now q job rows).0 ≤ active tenant rows
  active-resubmit q job = elim (resubmit_rows q job) [
    | inl e ↦ rw e (omega arith)
    | inr e ↦ rw e (
        count_by-update_where-le (is_active_of tenant) (is_recoverable job) (recover now)
          (λ j e k. k) rows)
  ]

  pub admit_rows :
      (q : Submission)
      → ((admit now q rows).0 ≡ rows) ⊎ ((admit now q rows).0 ≡ rows ++ new_job now q ∷ [])
  unfolding admit
  admit_rows q = ground arith

  active-new_job :
      (q : Submission)
      → active tenant (rows ++ new_job now q ∷ [])
        ≡ active tenant rows + (if q.tenant_id == tenant then 1 else 0)
  unfolding count_by
  active-new_job q = ground (arith, count_by-append (is_active_of tenant) rows (new_job now q ∷ []))

  active-admit :
      (q : Submission)
      → find (is_active_of q.tenant_id) rows ≡ none
      → active tenant rows ≤ 1
      → active tenant (admit now q rows).0 ≤ 1
  active-admit q h k = elim (admit_rows q) [
    | inl e ↦ rw e k
    | inr e ↦ rw e (
        ground (
          arith,
          active-new_job q,
          eq_iff q.tenant_id tenant,
          count_by_absent (is_active_of q.tenant_id) rows h,
        ))
  ]

active-answer :
    (now : ℕ) (tenant : Text) (rows : Table) (q : Submission) (found : Option RootDeletionJob)
    → find (is_active_of q.tenant_id) rows ≡ found
    → active tenant rows ≤ 1
    → active tenant (answer now q rows found).0 ≤ 1
unfolding answer
active-answer now tenant rows q none e k = active-admit now tenant rows q e k
active-answer now tenant rows q (some job) e k =
    omega (arith, active-resubmit now tenant rows q job, k)

active-submit :
    (now : ℕ) (tenant : Text) (rows : Table) (q : Submission)
    → active tenant rows ≤ 1
    → active tenant (submit now q rows).0 ≤ 1
unfolding submit
active-submit now tenant rows q k =
    active-answer now tenant rows q (find (is_active_of q.tenant_id) rows) refl k

step-OneActive :
    (tenant : Text) (rows : Table) (c : Call)
    → active tenant rows ≤ 1
    → active tenant (step rows c) ≤ 1
unfolding step
step-OneActive tenant rows (submits now q) k = active-submit now tenant rows q k
step-OneActive tenant rows (claims now attempt) k =
    omega (arith, k, active-claim now tenant rows attempt)
step-OneActive tenant rows (concludes now local job o) k =
    omega (arith, k, active-conclude now tenant rows local job o)
step-OneActive tenant rows (prunes now) k = omega (arith, k, active-prune now tenant rows)

-- Whatever statements run, in whatever order and at whatever times, a tenant that had at most one
-- unfinished deletion has at most one after them: the unique index on active tenants never rejects
-- a submission.
pub run-OneActive :
    (tenant : Text) (rows : Table) (calls : List Call)
    → active tenant rows ≤ 1
    → active tenant (run rows calls) ≤ 1
unfolding run
run-OneActive tenant rows [] k = k
run-OneActive tenant rows (c ∷ calls) k =
    run-OneActive tenant (step rows c) calls (step-OneActive tenant rows c k)
