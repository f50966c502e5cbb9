-- ===== src/Lifecycle/Tests.antt =====
-- Writes that are started, refused and drained, and the input at which the theorem is applied.
use acemcp_relay.Prelude.{◌≡◌, refl, true}
use acemcp_relay.Lifecycle.{
  BackgroundWrites, run_write, write_done, seal, runs, ends, seals, Steps, stay, step, unused,
  drained_for_good,
}

abbrev drained : BackgroundWrites
drained = record { closed = true; active = 0; started = 1; finished = 1 }

-- One write is started, the server seals, and the write ends.
stopping : Steps unused drained
unfolding run_write write_done seal
stopping = step runs (step seals (step (ends {n = 0} refl) stay))

-- A late handler is refused.
late : Steps drained drained
unfolding run_write
late = step runs stay

drained_for_good_example : (drained.finished ≡ drained.started) × (drained ≡ drained)
drained_for_good_example = drained_for_good stopping (refl, refl) late
