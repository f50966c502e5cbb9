-- ===== src/Index/Jobs/Expiry.antt =====
-- index_jobs.go: the two places that end an abandoned job, the SQL of `sweepExpiredIndexJobs` and the
-- Go of `inspectActiveIndexJob`.
use acemcp_relay.Prelude.{
  ℕ, ◌≡◌, refl, sym, ap, ◌&&◌, some, text_eq, Text, bytes, arith, lookup, any, starts_with,
  text_beq,
}
use acemcp_relay.Strings.{trim_space, contains}
use acemcp_relay.Failure.{or_zero, classify_index_failure, code_of, diagnostics_by_code}
use acemcp_relay.Failure.Rules.{disconnected_rule, timeout_rule, timed_out}
use acemcp_relay.Index.Jobs.{
  IndexJob, Phase, created, uploading, indexing, publishing, done, is_running, heartbeat_expired,
  timed_out_error,
}
use acemcp_relay.Index.Jobs.Ending.{is_swept, sweep_row, swept_error, swept_diagnostic, time_out}
use acemcp_relay.Index.Jobs.Start.{expire_row}

swept-heartbeat_expired :
    (now : ℕ) (j : IndexJob)
    → is_swept now j ≡ (is_running j.status && heartbeat_expired j.phase j.heartbeat_at now)
unfolding is_swept heartbeat_expired
swept-heartbeat_expired now j = ground arith

swept-timed_out_error : (phase : Phase) → swept_error phase ≡ timed_out_error phase
unfolding swept_error timed_out_error
swept-timed_out_error phase = refl

trimmed_error : (phase : Phase) → trim_space (timed_out_error phase) ≡ timed_out_error phase
unfolding timed_out_error trim_space bytes
trimmed_error created = refl
trimmed_error uploading = refl
trimmed_error indexing = refl
trimmed_error publishing = refl
trimmed_error done = refl

classified :
    (phase : Phase)
    → lookup (code_of (bytes "timed_out") (timed_out_error phase)) diagnostics_by_code
      ≡ some (swept_diagnostic phase)
unfolding timed_out_error swept_diagnostic bytes code_of diagnostics_by_code lookup contains
    starts_with any text_beq disconnected_rule timeout_rule timed_out
classified created = refl
classified uploading = refl
classified indexing = refl
classified publishing = refl
classified done = refl

diagnosed :
    (lower : Text → Text) (phase : Phase)
    → lower (timed_out_error phase) ≡ timed_out_error phase
    → classify_index_failure lower (bytes "timed_out") (timed_out_error phase)
      ≡ swept_diagnostic phase
unfolding classify_index_failure
diagnosed lower phase h = rw (trimmed_error phase) (rw h (ap or_zero (classified phase)))

-- Where lower casing leaves the two error texts as they are, the SQL of the sweep and the Go code of
-- a start agree: they end the same running jobs, those whose heartbeat has expired, and write the
-- same row, its error and its diagnostic included.
pub sweep_agrees :
    (lower : Text → Text)
    → ((phase : Phase) → lower (timed_out_error phase) ≡ timed_out_error phase)
    → (now : ℕ) (j : IndexJob)
    → (is_swept now j ≡ (is_running j.status && heartbeat_expired j.phase j.heartbeat_at now))
      × (sweep_row now j ≡ expire_row lower now j)
unfolding swept_error timed_out_error
sweep_agrees lower h now j = (
  swept-heartbeat_expired now j,
  ap (λ d. time_out now (swept_error j.phase) (some d) j)
      (sym (diagnosed lower j.phase (h j.phase))),
)
