-- ===== src/Tests/Tables.antt =====
-- The theorems on the tables and counters of the master, at a master for sixteen nodes and, for the
-- overrun of `mercury_netMgr_InitState`, for one.
use wbms.Prelude.{◌≡◌, refl, List, [], ◌∷◌, ltb→lt}
use wbms.Types.{timeout_err}
use wbms.Kernel.Simulated.{World, simulated}
use wbms.Bms.{Bms, Run, done, halted, fault, no_fuel}
use wbms.Bms.Post.{Post}
use wbms.NetMgr.Clients.{init_state}
use wbms.NetMgr.Clients.Init.{init_state-fault}
use wbms.NetMgr.Counters.{error_count_update, log_error, count_error, count_client_error}
use wbms.NetMgr.Counters.Laws.{total, IsBalanced, error_count_update-IsBalanced}
use wbms.NetMgr.States.{node_idx}
use wbms.Invariant.Consistent.{IsConsistent}
use wbms.Invariant.Events.{
  Event, ok_received, addr_rq_received, ok_timer, start, diagnose, handle_all,
  handle_all-IsConsistent,
}
use wbms.Samples.{master}

init_state-fault_example : init_state (master 1) ≡ fault
init_state-fault_example = init_state-fault (master 1) (ltb→lt 1 16 refl)

master-IsBalanced : IsBalanced (master 16)
unfolding total
master-IsBalanced = record { pec = refl; timeout = refl; mismatch = refl; dropped = refl }

abbrev end_of : {A : Type 0} → Run World A → Bms World
end_of (done a s) = s
end_of (halted n s) = s
end_of fault = master 0
end_of no_fuel = master 0

after_error : Bms World
unfolding error_count_update log_error count_error count_client_error node_idx
after_error = end_of (error_count_update 18 timeout_err (master 16))

error_count_update-IsBalanced_example : IsBalanced after_error
unfolding after_error
error_count_update-IsBalanced_example =
    error_count_update-IsBalanced 18 timeout_err (master 16) refl master-IsBalanced

master-IsConsistent : IsConsistent 16 (master 16)
master-IsConsistent = record {
  clients = refl;
  nodes = refl;
  transactions = refl;
  packets = refl;
  latencies = refl;
  balanced = master-IsBalanced;
  paired_counts = refl;
}

-- Two nodes join and start, one of them is lost, and the diagnostic thread runs.
abbrev events : List Event
events =
    addr_rq_received 1 (9 ∷ 0 ∷ 0 ∷ 0 ∷ [])
    ∷ addr_rq_received 1 (8 ∷ 0 ∷ 0 ∷ 0 ∷ [])
    ∷ start
    ∷ ok_received 17 (1 ∷ 1 ∷ [])
    ∷ ok_timer 0
    ∷ diagnose
    ∷ []

handle_all-IsConsistent_example :
    Post (IsConsistent 16) (handle_all ⦃k = simulated⦄ 20 events (master 16))
handle_all-IsConsistent_example =
    handle_all-IsConsistent ⦃k = simulated⦄ 20 events (master 16) master-IsConsistent
