-- ===== src/PlatformConfig/Tests.antt =====
-- A configuration change from its submission on, and the inputs at which the theorems are applied.
use acemcp_relay.Prelude.{
  ◌≡◌, ◌≤◌, refl, true, false, List, [], ◌∷◌, bytes, text_beq, text_eq, arith, any, find,
  update_where, update_first, count_by,
}
use acemcp_relay.RootDeletion.{retry_delay}
use acemcp_relay.PlatformConfig.{
  PlatformConfigJob, take_up, new_job, enqueue, enqueue_by, recover, claim,
}
use acemcp_relay.PlatformConfig.Worker.{
  completed, CloudOperation, RelayState, clear_all, settle, finish, defer_job, process,
  process_reply,
}
use acemcp_relay.PlatformConfig.Calls.{
  State, Call, submits, recovers, claims, changes, step, run, unfinished, run-OneUnfinished,
}
use acemcp_relay.PlatformConfig.Fencing.{finish_once}

config_run : Unit {0}
unfolding bytes text_beq any find update_where update_first count_by retry_delay enqueue enqueue_by
    recover claim clear_all settle finish defer_job process process_reply step run
config_run = tt

abbrev no_index : RelayState
no_index = record {
  db = record { jobs = []; job_files = []; indexed_files = []; workspaces = [] };
  leases = [];
}

abbrev fresh : State
fresh = record { rows = []; relay = no_index }

abbrev calls : List Call
calls =
    submits 1 (bytes "c") (bytes "embedding") true false
    ∷ submits 2 (bytes "d") (bytes "embedding") true false
    ∷ claims 3 (bytes "a")
    ∷ []

abbrev job : PlatformConfigJob
job = take_up 3 (bytes "a") (new_job 1 (bytes "c") (bytes "embedding") true)

-- The second change is refused, and the first is claimed.
one_claimed : (run fresh calls).rows ≡ job ∷ []
unfolding config_run
one_claimed = refl

run-OneUnfinished_example : unfinished (run fresh calls).rows ≤ 1
run-OneUnfinished_example = run-OneUnfinished fresh calls (unfold config_run in ground arith)

abbrev receipt : CloudOperation
receipt = record {
  operation_id = bytes "c";
  state = completed;
  embedding_changed = true;
  result = [];
  expired = false;
}

abbrev claimed : State
claimed = record { rows = job ∷ []; relay = no_index }

finish_once_example :
    let (rows, relay, _) = finish 4 job receipt no_index (job ∷ []) in
    let s' =
      run
        (record { rows = rows; relay = relay })
        (changes no_index ∷ recovers 5 (bytes "c") ∷ []) in
    finish 6 job receipt s'.relay s'.rows ≡ (s'.rows, s'.relay, false)
unfolding config_run
finish_once_example =
    finish_once job 4 receipt claimed (changes no_index ∷ recovers 5 (bytes "c") ∷ []) refl
      (tt, (tt, tt)) 6 receipt
