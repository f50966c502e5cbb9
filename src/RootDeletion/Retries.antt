-- ===== src/RootDeletion/Retries.antt =====
-- root_deletion_jobs.go: repeated submissions, and repeated attempts.
use native.Mathlib.Nat.{pow-suc}
use acemcp_relay.Prelude.{
  find, is_some, find-append, find-update_where, length-update_where, ℕ, zero, suc, ◌+◌, ◌-◌, ◌^◌,
  min, ◌≤◌, ◌<◌, ◌≡◌, refl, ap, sym, ◌∙◌, Bool, true, false, [], ◌∷◌, ◌++◌, Option, some, none,
  text_eq, nat_eq, Text, ◌==◌, arith, inl, inr, eq_self, length,
}
use acemcp_relay.RootDeletion.{
  RootDeletionJob, Table, claim, is_claimable, claimed, is_current, record_error, defer,
  attempts_after, attempt_current, retry_delay, max_attempts,
}
use acemcp_relay.RootDeletion.Submit.{
  Submission, accepted, is_active_of, new_job, is_recoverable, recover, resubmit, admit, answer,
  submit, is_retry,
}
use acemcp_relay.RootDeletion.Calls.{resubmit_rows}

-- The wait between two attempts is five seconds to ten minutes.
retry_delay-bounds : (n : ℕ) → (5000 ≤ retry_delay n) × (retry_delay n ≤ 600000)
unfolding retry_delay
retry_delay-bounds n = (omega (arith, pow_pos (min (n - 1) 7)), omega arith)
  where
    pow_pos : (k : ℕ) → 1 ≤ 2 ^ k
    pow_pos zero = omega arith
    pow_pos (suc k) = omega (arith, pow_pos k, pow-suc 2 k)

-- When the current attempt of a job records an error and fewer than five attempts are used up, a
-- claim of the table so left, at any time from the end of the retry delay on, finds a job to take
-- up; the delay is five seconds to ten minutes.
pub record_error_retried :
    (now later : ℕ) (job : RootDeletionJob) (defer_only : Bool) (attempt : Text) (rows : Table)
    → attempt_current now job rows ≡ true
    → attempts_after defer_only job.attempt_count < max_attempts
    → let delay = retry_delay (attempts_after defer_only job.attempt_count) in
      now + delay ≤ later
      → (is_some (claim later attempt (record_error now job defer_only rows)).1 ≡ true)
        × (5000 ≤ delay)
        × (delay ≤ 600000)
unfolding claim record_error attempt_current
record_error_retried now later job defer_only attempt rows current few late = (
  claimed-is_some (find (is_claimable later) (record_error now job defer_only rows)) (
      find-update_where (is_current now job) (is_claimable later)
        (defer now (attempts_after defer_only job.attempt_count)) claimable rows current),
  (retry_delay-bounds (attempts_after defer_only job.attempt_count)).0,
  (retry_delay-bounds (attempts_after defer_only job.attempt_count)).1,
)
  where
    claimed-is_some :
        (x : Option RootDeletionJob) → is_some x ≡ true → is_some (claimed later attempt x) ≡ true
    claimed-is_some none h = h
    claimed-is_some (some j) h = refl

    claimable :
        (j : RootDeletionJob)
        → is_current now job j ≡ true
        → is_claimable later (defer now (attempts_after defer_only job.attempt_count) j) ≡ true
    claimable j e =
        let after : now + retry_delay (attempts_after defer_only job.attempt_count) ≤ later =
          late in
        ground (arith, few, after, retry_delay-bounds (attempts_after defer_only job.attempt_count))

-- With an unfinished deletion of the same root, a submission answers with it.
settled :
    (now : ℕ) (q : Submission) (job : RootDeletionJob) (rows : Table)
    → find (is_active_of q.tenant_id) rows ≡ some job
    → (job.root_id == q.root_id) ≡ true
    → is_retry q ≡ false
    → submit now q rows ≡ (rows, accepted job)
unfolding submit answer resubmit
settled now q job rows e same plain = rw e (rw same (rw plain refl))

admit_accepts :
    (now : ℕ) (q : Submission) (job : RootDeletionJob) (rows : Table)
    → is_retry q ≡ false
    → (admit now q rows).1 ≡ accepted job
    → ((admit now q rows).0 ≡ rows ++ new_job now q ∷ []) × (new_job now q ≡ job)
unfolding admit
admit_accepts now q job rows plain h = ground (arith, plain)

resubmit_accepts :
    (now : ℕ) (q : Submission) (job other : RootDeletionJob) (rows : Table)
    → is_retry q ≡ false
    → (resubmit now q other rows).1 ≡ accepted job
    → ((resubmit now q other rows).0 ≡ rows) × (other ≡ job) × ((other.root_id == q.root_id) ≡ true)
unfolding resubmit
resubmit_accepts now q job other rows plain h = ground (arith, plain)

-- What an accepted submission leaves behind.
accepted_row :
    (now : ℕ) (q : Submission) (job : RootDeletionJob) (rows : Table)
    (found : Option RootDeletionJob)
    → find (is_active_of q.tenant_id) rows ≡ found
    → is_retry q ≡ false
    → (answer now q rows found).1 ≡ accepted job
    → (find (is_active_of q.tenant_id) (answer now q rows found).0 ≡ some job)
      × ((job.root_id == q.root_id) ≡ true)
unfolding answer
accepted_row now q job rows none e plain h =
    let (inserted, same) = admit_accepts now q job rows plain h in
    (
      rw inserted (
          find-append (is_active_of q.tenant_id) (new_job now q) rows
            (ground (arith, eq_self q.tenant_id)) e
          ∙ ap some same),
      rw (sym same) (eq_self q.root_id),
    )
accepted_row now q job rows (some other) e plain h =
    let (kept, same, root) = resubmit_accepts now q job other rows plain h in
    (rw kept (e ∙ ap some same), rw (sym same) root)

-- When a submission that recovers no job was accepted, the same submission sent again, by any
-- member and at any time, is answered with the same job and changes nothing: a lost reply costs no
-- second deletion.
pub submit_repeated :
    (now later : ℕ) (q again : Submission) (job : RootDeletionJob) (rows : Table)
    → is_retry q ≡ false
    → is_retry again ≡ false
    → again.tenant_id ≡ q.tenant_id
    → again.root_id ≡ q.root_id
    → (submit now q rows).1 ≡ accepted job
    → submit later again (submit now q rows).0 ≡ ((submit now q rows).0, accepted job)
unfolding submit
submit_repeated now later q again job rows plain plain' tenant root h =
    let (found, same) =
      accepted_row now q job rows (find (is_active_of q.tenant_id) rows) refl plain h in
    settled later again job (answer now q rows (find (is_active_of q.tenant_id) rows)).0
      (rw tenant found) (rw root same) plain'

module _ (now : ℕ) (q : Submission) (rows : Table) (retry : is_retry q ≡ true) where
  admit_recovers : (admit now q rows).0 ≡ rows
  unfolding admit
  admit_recovers = rw retry refl

  length-answer :
      (found : Option RootDeletionJob) → length (answer now q rows found).0 ≡ length rows
  unfolding answer
  length-answer none = ap length admit_recovers
  length-answer (some job) = elim (resubmit_rows now [] rows q job) [
    | inl e ↦ ap length e
    | inr e ↦ ap length e ∙ length-update_where (is_recoverable job) (recover now) rows
  ]

  -- A request to recover a job never adds one, and where the tenant has no unfinished deletion it
  -- changes nothing: it cannot delete a root that was indexed again.
  pub submit_recovers :
      (length (submit now q rows).0 ≡ length rows)
      × (find (is_active_of q.tenant_id) rows ≡ none → (submit now q rows).0 ≡ rows)
  unfolding submit answer
  submit_recovers = (
    length-answer (find (is_active_of q.tenant_id) rows),
    λ e. ap (λ found. (answer now q rows found).0) e ∙ admit_recovers,
  )
