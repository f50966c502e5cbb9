-- ===== src/Lifecycle.antt =====
-- server_lifecycle.go: the background writes (`backgroundWrites`) that a stopping server waits for.
-- The mutex makes each step below one step; the goroutines' ends come in between.
pub mod Tests
use acemcp_relay.Prelude.{
  ℕ, suc, ◌+◌, ◌-◌, ◌≡◌, refl, sym, subst, ◌∙◌, Bool, true, false, if◌then◌else◌, arith,
}

-- `active` is the counter of the wait group. What was started and what is finished stands beside
-- it.
pub record BackgroundWrites : Type 0 where
  pub closed : Bool
  pub active : ℕ
  pub started : ℕ
  pub finished : ℕ

-- `run`: the state, and whether the function was started.
unfoldable pub run_write : BackgroundWrites → BackgroundWrites × Bool
run_write w =
    if w.closed
    then (w, false)
    else (record w { active = w.active + 1; started = w.started + 1 }, true)

-- `w.active.Done()`, at the end of a function that runs.
unfoldable pub write_done : BackgroundWrites → BackgroundWrites
write_done w = record w { active = w.active - 1; finished = w.finished + 1 }

-- The part of `drain` before it waits.
unfoldable pub seal : BackgroundWrites → BackgroundWrites
seal w = record w { closed = true }

-- One step of any goroutine. A function can end only while one runs.
pub data Step : BackgroundWrites → BackgroundWrites → Type 0 where
  runs : {w : BackgroundWrites} → Step w (run_write w).0
  ends : {w : BackgroundWrites} {n : ℕ} → w.active ≡ suc n → Step w (write_done w)
  seals : {w : BackgroundWrites} → Step w (seal w)

pub data Steps : BackgroundWrites → BackgroundWrites → Type 0 where
  stay : {w : BackgroundWrites} → Steps w w
  step : {u v w : BackgroundWrites} → Step u v → Steps v w → Steps u w

abbrev pub unused : BackgroundWrites
unused = record { closed = false; active = 0; started = 0; finished = 0 }

-- Every function that was started runs or is finished.
abbrev pub IsBalanced : BackgroundWrites → Type 0
IsBalanced w = w.started ≡ w.active + w.finished

Step-IsBalanced : {u v : BackgroundWrites} → Step u v → IsBalanced u → IsBalanced v
unfolding run_write write_done seal
Step-IsBalanced (runs {w = w}) h = ground (arith, h)
Step-IsBalanced (ends {w = w} {n = n} e) h = ground (arith, h, e)
Step-IsBalanced (seals {w = w}) h = h

Steps-IsBalanced : {u v : BackgroundWrites} → Steps u v → IsBalanced u → IsBalanced v
Steps-IsBalanced stay h = h
Steps-IsBalanced (step s t) h = Steps-IsBalanced t (Step-IsBalanced s h)

-- The state in which `drain` returns.
abbrev pub IsDrained : BackgroundWrites → Type 0
IsDrained w = (w.closed ≡ true) × (w.active ≡ 0)

Step-IsDrained : {u v : BackgroundWrites} → Step u v → IsDrained u → v ≡ u
unfolding run_write write_done seal
Step-IsDrained (runs {w = w}) (c, a) = ground (arith, c)
Step-IsDrained (ends {w = w} {n = n} e) (c, a) = absurd (ground (arith, e, a))
Step-IsDrained (seals {w = w}) (c, a) = ground (arith, c)

Steps-IsDrained : {u v : BackgroundWrites} → Steps u v → IsDrained u → v ≡ u
Steps-IsDrained stay h = refl
Steps-IsDrained (step s t) h =
    let e = Step-IsDrained s h in Steps-IsDrained t (subst IsDrained (sym e) h) ∙ e

-- When the writes are drained, in whatever order functions were started, ended and refused, every
-- function that was started is finished, and whatever is tried afterwards changes nothing: no
-- write is lost and none begins behind the server's back.
pub drained_for_good :
    {v w : BackgroundWrites}
    → Steps unused v
    → IsDrained v
    → Steps v w
    → (v.finished ≡ v.started) × (w ≡ v)
drained_for_good {v = v} {w = w} before drained after =
    let balanced = Steps-IsBalanced before refl in
    (ground (arith, balanced, drained.1), Steps-IsDrained after drained)
