-- ===== src/Lib.antt =====
-- Verification of the cluster manager's control of the nodes of a training job, and of the rank
-- groups of stack-analyzer.
--
-- The program (hcu-training-reliability/cluster_manager) keeps a training job alive on a cluster. A
-- pool of nodes is split into running, backup and abnormal nodes and written to files after every
-- change; a request for nodes asks a blacklist which backup nodes are healthy, degraded or fatal, and
-- takes the nodes of the last run again where it can; monitors mark nodes abnormal, which takes the
-- job off its nodes, and recovered nodes go back to the backup list.
--
-- Files, with paths from the repository's root, where
-- MANAGER = hcu-training-reliability/cluster_manager:
--   Prelude       shared names; `Prelude.Names` has lists of node names as the program uses them (a
--                 Python set that is iterated only after sorting is the list without repetitions),
--                 and `Prelude.Names.Strip` is `str.strip`; `Prelude.Exec` is a method that mutates an
--                 object and may raise: the state comes back beside the exception.
--   Hostfile      MANAGER/utils/file_utils.py: read_hostfile, write_slotsfile, write_hostfile. A file
--                 is the list of its lines.
--   NodePool      MANAGER/node_management/node_pool.py. `State` has the fields of `NodePool`, the
--                 files as a record `Disk` (each file may be unwritable, which
--                 _persist_all_nodes logs), the derived lists and _validate_and_fix_constraints with
--                 its assertions. `Marking` has reset_node_pool, add_total_nodes, add_normal_nodes,
--                 add_abnormal_nodes and its two callers, remove_abnormal_nodes and
--                 release_runing_nodes. `Allocation` has apply_node_num_resources and
--                 apply_node_list_resources, with the choice of nodes in `Allocation.Select`.
--                 `Startup` has __init__, clean_init and _check_and_sync_total_nodes. `Calls` puts
--                 the methods together as calls that clients make in any order, but for clean_init.
--   NodePool.Partition  the rules of the pool as an invariant, and the methods under it.
--
--   Runtime       MANAGER/runtime and what it calls. `Rank` is _parse_rank_from_fault of
--                 runtime_context.py, character by character; `RunState` is run_state_manager.py with
--                 its file; `Proxy` has the methods of NodePoolProxy (monitor/nhc_monitor.py) that
--                 the job's thread calls, with the snapshot of the run and its file; `Context` is
--                 RuntimeContext with handle_runtime_fault; `Machine` is job_state_machine.py:
--                 `Machine.Handlers` has the transitions, `Machine` the tables, the dispatch with its
--                 trace, on_event, on_train_success, next_action and init_state. `Calls` puts events,
--                 the manager's feedback and requests for nodes (controller/distributed_job_manager.py),
--                 and what the monitor's thread does to the pool and the snapshot (_handle_faults of
--                 NHCMonitor) together in any order, as the proxy's lock does.
--                 `Runtime.Apply` is NodePoolProxy.apply_node_num_resources with _resubmit_job and
--                 _try_load_additional_nodes: `Apply.Rounds` has the branches of a round.
--   Blacklist     MANAGER/node_management/node_blacklist_manager.py. `Records` has the fault types,
--                 the configuration and the records of a node, `Scoring` the ScoringEngine, `Rack`
--                 the RackFaultDetector, `Manager` the BlacklistManager, `Storage` the
--                 PersistenceManager with its two files.
--   Topology      stack-analyzer/stack_analyzer/megatron_topology.py. `Ranks` has
--                 generate_masked_orthogonal_rank_groups, `Layout` MegatronRankGenerator and
--                 infer_parallel_topology, `Tokens` the operations on texts that they use.
--   NodeExpr      MANAGER/utils/string_utils.py: `Expand` has split_outside_brackets, expand_range and
--                 node_expr_parser, `Texts` the numbers of a given width, `Sinfo` parse_sinfo_R and
--                 match_failed_nodes on the lines of the scheduler's answer.
--
-- The parts interact as in the program: an event reaches the machine, whose handler asks the context
-- to handle the fault; the context finds the node and has the proxy mark it abnormal in the pool; the
-- machine then stops the job, the manager releases the nodes, requests new ones and starts again. The
-- request runs in rounds: the proxy asks the pool, the pool asks the blacklist, the health check
-- looks at the nodes, and a shortage is met from the scheduler's queue, from additional nodes or from
-- abnormal nodes that have recovered.
--
-- The blacklist is a parameter of the pool's requests: a function from candidates to an answer, or to
-- `none` where it raises. What the pool relies on is `IsLawful` of `NodePool.Allocation.Promise`;
-- `Blacklist.Lawful` is about allocate_nodes as such a function, and `Blacklist.Pool` puts the two
-- together. For add_fault_nodes the blacklist is a test that says which fault reports raise. The
-- floating-point numbers of the scores are an interface, `Floats`, and where their order
-- matters `IsOrdered` says what is documented of it. Times are numbers of seconds, given to each
-- call; the files of the proxy can always be written; the state file, the blacklist's and the pool's
-- files may be impossible to open for writing, and keep their content then. A write that fails on a
-- file that was opened is left out. Texts have ASCII digits and letters only. What the scheduler and the
-- health checks answer is given with each round of a request, in any order and of any content.
--
-- The loop of the request runs over the list of its rounds, and ends as `waiting` where they are used
-- up; the theorems about it hold for every list of rounds. expand_range recurses on fuel, a step for
-- each "]" of the text and one more, and the digits of a number on the number and one more. The other
-- loops recurse on the list or the text that they read. The machine's trace keeps thirty entries, as
-- in the source.
--
-- Not modelled: logging, locks, the log monitors, launchers, the health checks themselves, the calls
-- of the job queue, notifications and the report of training metrics, which are input and output; the
-- calls of other threads while a request pauses; the reports that the blacklist prints; the capture
-- of stacks by stack-analyzer; the other programs of the repository (hcu-envcheck, hygon-ft-k8s,
-- hcu_resiliency_ext).
pub mod Prelude
pub mod Hostfile
pub mod NodePool
pub mod Runtime
pub mod Blacklist
pub mod Topology
pub mod NodeExpr
