-- ===== src/Runtime/Calls.antt =====
-- The threads of the manager as calls in any order: events of the monitors and the feedback of the
-- manager (controller/distributed_job_manager.py) for the state machine, its requests for nodes, and
-- what the monitor's thread does to the pool and to the snapshot, which the proxy's lock keeps apart.
pub mod Live
pub mod Begun
use cluster_manager_das.Prelude.{ℕ, String, Bool, List, [], ◌∷◌}
use cluster_manager_das.NodePool.Calls.{PoolCall, after_call}
use cluster_manager_das.Runtime.RunState.{starting}
use cluster_manager_das.Runtime.Proxy.{FaultReport, NodePoolProxy, release_nodes, handle_faults}
use cluster_manager_das.Runtime.Apply.{Round}
use cluster_manager_das.Runtime.Apply.Rounds.{apply_resources}
use cluster_manager_das.Runtime.Context.{set_run_state}
use cluster_manager_das.Runtime.Machine.{on_event, on_started, on_stopped}
use cluster_manager_das.Runtime.Machine.State.{Event, JobStateMachine}
use cluster_manager_das.Runtime.Machine.Handlers.{on_ctx}

-- A call, with its time and, where it may ask the blacklist to note a fault, which reports raise.
pub data JobCall : Type 0 where
  event_comes : (FaultReport → Bool) → ℕ → Event → JobCall
  job_started : (FaultReport → Bool) → ℕ → JobCall
  job_stopped : (FaultReport → Bool) → ℕ → JobCall
  nodes_released : ℕ → JobCall
  stop_given_up : ℕ → JobCall
  pool_called : PoolCall → JobCall
  nodes_requested : Bool → ℕ → ℕ → List Round → JobCall
  faults_noted : List String → List String → List (String × String) → JobCall

abbrev pub on_proxy : (NodePoolProxy → NodePoolProxy) → JobStateMachine → JobStateMachine
on_proxy change m = on_ctx (λ c. record c { node_pool_proxy = change c.node_pool_proxy }) m

-- `release_runing_nodes` of the proxy, after a start that failed or a stop
unfoldable pub release_job : ℕ → JobStateMachine → JobStateMachine
unfolding release_nodes
release_job now m = on_proxy (release_nodes now) m

-- The end of `_stop_training` after three stops that failed: the job goes on to a start.
unfoldable pub give_up_stop : ℕ → JobStateMachine → JobStateMachine
unfolding release_job set_run_state
give_up_stop now m = on_ctx (set_run_state starting) (release_job now m)

unfoldable pub after_job_call : JobCall → JobStateMachine → JobStateMachine
unfolding on_event on_started on_stopped release_job give_up_stop after_call apply_resources
    handle_faults
after_job_call (event_comes raises now e) m = (on_event raises now e m).1
after_job_call (job_started raises now) m = (on_started raises now m).1
after_job_call (job_stopped raises now) m = (on_stopped raises now m).1
after_job_call (nodes_released now) m = release_job now m
after_job_call (stop_given_up now) m = give_up_stop now m
after_job_call (pool_called call) m =
    on_proxy (λ x. record x { node_pool = after_call call x.node_pool }) m
after_job_call (nodes_requested has_slurm required slots rounds) m =
    on_proxy (λ x. (apply_resources has_slurm required slots rounds x).1) m
after_job_call (faults_noted failed running reasons) m =
    on_proxy (handle_faults failed running reasons) m

unfoldable pub after_job_calls : List JobCall → JobStateMachine → JobStateMachine
unfolding after_job_call
after_job_calls [] m = m
after_job_calls (c ∷ cs) m = after_job_calls cs (after_job_call c m)
