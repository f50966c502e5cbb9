-- ===== src/RootDeletion/Finality.antt =====
-- root_deletion_jobs.go: what may follow a finished deletion, whoever works on it.
use acemcp_relay.Prelude.{
  ℕ, ◌-◌, ◌≡◌, refl, ap, Bool, true, false, not, ◌&&◌, List, [], ◌∷◌, Option, some, none, text_eq,
  nat_eq, Text, ◌==◌, ltb, arith, if◌then◌else◌, Bool-cases, inl, inr, All, All-update_where,
  All-update_first, All-filter_by, All-append, update_where, update_first, find, find-any, find-All,
  is_some, eq_iff,
}
use acemcp_relay.RootDeletion.{
  RootDeletionJob, Table, is_active, is_finished, claim, claimed, is_exhausted, is_claimable, stop,
  take_up, exhausted_batch, is_current, is_attempt_of, record_error, defer, attempts_after, finish,
  succeed, attempt_current, prune,
}
use acemcp_relay.RootDeletion.Submit.{
  Submission, is_active_of, new_job, is_recoverable, recover, resubmit, admit, answer, submit,
}
use acemcp_relay.RootDeletion.Worker.{Outcome, leaves, records, completes, conclude}
use acemcp_relay.RootDeletion.Calls.{
  Call, submits, claims, concludes, prunes, step, run, resubmit_rows, admit_rows,
}

abbrev pub is_open : Text → RootDeletionJob → Bool
is_open id j = j.id == id && is_active j.status

-- No row of the id is unfinished.
abbrev pub IsOver : Text → Table → Type 0
IsOver id rows = All (λ j. is_open id j ≡ false) rows

-- A submission draws an id of its own.
abbrev pub IsNew : Text → Call → Type 0
IsNew id (submits now q) = (q.new_id == id) ≡ false
IsNew id (claims _ _) = Unit
IsNew id (concludes _ _ _ _) = Unit
IsNew id (prunes _) = Unit

module _ (id : Text) (now : ℕ) (rows : Table) (v : IsOver id rows) where
  record_error-IsOver :
      (other : RootDeletionJob) (d : Bool) → IsOver id (record_error now other d rows)
  unfolding record_error
  record_error-IsOver other d =
      All-update_where (is_current now other) (defer now (attempts_after d other.attempt_count))
        (λ j e k. ground arith) rows v

  finish-IsOver :
      (other : RootDeletionJob) (n local : ℕ) → IsOver id (finish now other n local rows).0
  unfolding finish
  finish-IsOver other n local = elim (Bool-cases (attempt_current now other rows)) [
    | inl e ↦ rw e (
        All-update_where (is_attempt_of other) (succeed now (if ltb 0 n then n else local))
          (λ j u k. ground arith) rows v)
    | inr e ↦ rw e v
  ]

  conclude-IsOver :
      (local : ℕ) (other : RootDeletionJob) (o : Outcome)
      → IsOver id (conclude now local other o rows)
  unfolding conclude
  conclude-IsOver local other leaves = v
  conclude-IsOver local other (records d) = record_error-IsOver other d
  conclude-IsOver local other (completes n) = elim (Bool-cases (finish now other n local rows).1) [
    | inl e ↦ rw e (finish-IsOver other n local)
    | inr e ↦ rw e (record_error-IsOver other false)
  ]

  claim-IsOver : (attempt : Text) → IsOver id (claim now attempt rows).0
  unfolding claim
  claim-IsOver attempt =
      let stopped_rows =
        All-update_first (is_exhausted now) (stop now) (λ j e k. k) exhausted_batch rows v in
      All-update_first (is_claimable now) (take_up now attempt) (λ j e k. ground arith) 1
        (update_first exhausted_batch (is_exhausted now) (stop now) rows) stopped_rows

  prune-IsOver : IsOver id (prune now rows)
  unfolding prune
  prune-IsOver =
      All-filter_by (λ j. is_open id j ≡ false)
        (λ j. not (is_finished j.status && ltb j.updated_at (now - 604800000))) rows v

  resubmit-IsOver :
      (q : Submission) (other : RootDeletionJob) → IsOver id (resubmit now q other rows).0
  resubmit-IsOver q other = elim (resubmit_rows now [] rows q other) [
    | inl e ↦ rw e v
    | inr e ↦ rw e (
        All-update_where {P = λ j. is_open id j ≡ false} (is_recoverable other) (recover now)
          (λ j u k. k) rows v)
  ]

  admit-IsOver : (q : Submission) → (q.new_id == id) ≡ false → IsOver id (admit now q rows).0
  admit-IsOver q h = elim (admit_rows now [] rows q) [
    | inl e ↦ rw e v
    | inr e ↦
        rw e (
          All-append (λ j. is_open id j ≡ false) rows (new_job now q ∷ []) v
            (ground (arith, h), tt))
  ]

  answer-IsOver :
      (q : Submission) (found : Option RootDeletionJob)
      → (q.new_id == id) ≡ false
      → IsOver id (answer now q rows found).0
  unfolding answer
  answer-IsOver q none h = admit-IsOver q h
  answer-IsOver q (some other) h = resubmit-IsOver q other

  -- Whoever comes back with an attempt of the job changes nothing.
  over_unfound :
      (job : RootDeletionJob) → (job.id == id) ≡ true → find (is_current now job) rows ≡ none
  unfolding find
  over_unfound job e = unfound rows v
    where
      unfound : (js : Table) → IsOver id js → find (is_current now job) js ≡ none
      unfound [] w = refl
      unfound (j ∷ js) (k, w) =
          ground (arith, k, unfound js w, e, eq_iff j.id job.id, eq_iff job.id id, eq_iff j.id id)

  over_unchanged :
      (job : RootDeletionJob) (f : RootDeletionJob → RootDeletionJob)
      → (job.id == id) ≡ true
      → update_where (is_current now job) f rows ≡ rows
  unfolding update_where
  over_unchanged job f e = unchanged rows v
    where
      unchanged : (js : Table) → IsOver id js → update_where (is_current now job) f js ≡ js
      unchanged [] w = refl
      unchanged (j ∷ js) (k, w) =
          ground (arith, k, unchanged js w, e, eq_iff j.id job.id, eq_iff job.id id, eq_iff j.id id)

  over_stale :
      (job : RootDeletionJob) → (job.id == id) ≡ true → attempt_current now job rows ≡ false
  unfolding attempt_current
  over_stale job e = ap is_some (over_unfound job e)

  over_concluded :
      (local : ℕ) (job : RootDeletionJob) (o : Outcome)
      → (job.id == id) ≡ true
      → conclude now local job o rows ≡ rows
  unfolding conclude finish record_error
  over_concluded local job leaves e = refl
  over_concluded local job (records d) e =
      over_unchanged job (defer now (attempts_after d job.attempt_count)) e
  over_concluded local job (completes n) e =
      rw (over_stale job e)
        (over_unchanged job (defer now (attempts_after false job.attempt_count)) e)

  over_unclaimed :
      (attempt : Text) (j : RootDeletionJob)
      → (claim now attempt rows).1 ≡ some j
      → (j.id == id) ≡ false
  unfolding claim
  over_unclaimed attempt j h = of_found (find (is_claimable now) rows) refl h
    where
      of_found :
          (picked : Option RootDeletionJob)
          → find (is_claimable now) rows ≡ picked
          → claimed now attempt picked ≡ some j
          → (j.id == id) ≡ false
      of_found none e k = absurd cc
      of_found (some x) e k =
          let same : x.id ≡ j.id = ground (arith, k) in
          let over : is_open id x ≡ false =
            find-All (λ y. is_open id y ≡ false) (is_claimable now) rows e v in
          let (claimable, _) = find-any (is_claimable now) (λ y. true) rows e refl in
          rw (← same) (ground (arith, over, claimable))

step-IsOver :
    (id : Text) (rows : Table) (c : Call) → IsNew id c → IsOver id rows → IsOver id (step rows c)
unfolding step submit
step-IsOver id rows (submits now q) h v =
    answer-IsOver id now rows v q (find (is_active_of q.tenant_id) rows) h
step-IsOver id rows (claims now attempt) h v = claim-IsOver id now rows v attempt
step-IsOver id rows (concludes now local other o) h v = conclude-IsOver id now rows v local other o
step-IsOver id rows (prunes now) h v = prune-IsOver id now rows v

run-IsOver :
    (id : Text) (rows : Table) (calls : List Call)
    → All (IsNew id) calls
    → IsOver id rows
    → IsOver id (run rows calls)
unfolding run
run-IsOver id rows [] h v = v
run-IsOver id rows (c ∷ calls) (k, h) v =
    run-IsOver id (step rows c) calls h (step-IsOver id rows c k v)

succeeded-IsOver :
    (job : RootDeletionJob) (now n : ℕ) (rows : Table)
    → All (λ j. (j.id == job.id) ≡ true → is_attempt_of job j ≡ true) rows
    → IsOver job.id (update_where (is_attempt_of job) (succeed now n) rows)
unfolding update_where
succeeded-IsOver job now n [] h = tt
succeeded-IsOver job now n (j ∷ rows) (k, h) = elim (Bool-cases (is_attempt_of job j)) [
  | inl e ↦ rw e (ground arith, succeeded-IsOver job now n rows h)
  | inr e ↦ rw e (ground (arith, k, e), succeeded-IsOver job now n rows h)
]

finish_inversion :
    (job : RootDeletionJob) (now n local : ℕ) (rows : Table)
    → All (λ j. (j.id == job.id) ≡ true → is_attempt_of job j ≡ true) rows
    → (finish now job n local rows).1 ≡ true
    → IsOver job.id (finish now job n local rows).0
unfolding finish
finish_inversion job now n local rows own h = elim (Bool-cases (attempt_current now job rows)) [
  | inl e ↦ rw e (succeeded-IsOver job now (if ltb 0 n then n else local) rows own)
  | inr e ↦ ground arith
]

-- Once an attempt has completed a deletion, where the row of the job is the attempt's, the deletion
-- is never run again, whatever statements follow, provided that their submissions draw other ids: no
-- claim takes the job up, under any attempt's id, and no worker that holds an attempt of it, be it
-- the same one, an earlier or a later one, finds it current or changes the table.
pub finish_final :
    (job : RootDeletionJob) (now n local : ℕ) (rows : Table) (calls : List Call)
    → All (λ j. (j.id == job.id) ≡ true → is_attempt_of job j ≡ true) rows
    → (finish now job n local rows).1 ≡ true
    → All (IsNew job.id) calls
    → (now' local' : ℕ) (attempt : Text) (j other : RootDeletionJob) (o : Outcome)
    → (other.id == job.id) ≡ true
    → let rows' = run (finish now job n local rows).0 calls in
      ((claim now' attempt rows').1 ≡ some j → (j.id == job.id) ≡ false)
      × (attempt_current now' other rows' ≡ false)
      × (conclude now' local' other o rows' ≡ rows')
finish_final job now n local rows calls own h new now' local' attempt j other o same =
    let rows' = run (finish now job n local rows).0 calls in
    let v =
      run-IsOver job.id (finish now job n local rows).0 calls new
        (finish_inversion job now n local rows own h) in
    (
      over_unclaimed job.id now' rows' v attempt j,
      over_stale job.id now' rows' v other same,
      over_concluded job.id now' rows' v local' other o same,
    )
