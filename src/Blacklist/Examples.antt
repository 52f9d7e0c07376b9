-- ===== src/Blacklist/Examples.antt =====
-- Runs of the blacklist, with numbers in place of floating-point ones.
use cluster_manager_das.Prelude.{
  ℕ, ◌+◌, ◌-◌, ◌*◌, ◌/◌, ◌≤◌, String, true, false, List, [], ◌∷◌, ◌++◌, none, some, ◌≡◌, refl,
  arith, leb, length, head?, Bool-cases, inl, inr, ◌||◌,
}
use cluster_manager_das.Prelude.Names.{first_ones, contains}
use cluster_manager_das.Prelude.Exec.{ok}
use cluster_manager_das.NodePool.State.{NodePool}
use cluster_manager_das.NodePool.Allocation.{apply_node_num_resources}
use cluster_manager_das.NodePool.Allocation.Promise.{IsLawful, IsAllotted}
use cluster_manager_das.NodePool.Examples.{pool, pool-IsPartition}
use cluster_manager_das.Blacklist.Floats.{Floats, IsOrdered, hours_between, seconds_between}
use cluster_manager_das.Blacklist.Records.{hcu, network, BlacklistConfig, NodeRecord}
use cluster_manager_das.Blacklist.Scoring.{score_node, no_worse}
use cluster_manager_das.Blacklist.Manager.{
  BlacklistManager, Report, find_node, fatal_node, allocate_nodes, report_fault, is_fatal_report,
}
use cluster_manager_das.Blacklist.Storage.{Files, damaged, save, load}
use cluster_manager_das.Blacklist.Lawful.{asked, holds_fatal, allocate_nodes-IsLawful}
use cluster_manager_das.Blacklist.Pool.{safe, apply_node_num_resources_served}
use cluster_manager_das.Blacklist.Choice.{allocate_nodes_best, allocate_nodes_counted}
use cluster_manager_das.Blacklist.Bans.{IsWaiting, IsKept, report_fault-IsKept}
use cluster_manager_das.Blacklist.Restored.{rounded, with_main, load-save, save_recovers}

instance unfoldable nat_floats : Floats ℕ
nat_floats = record {
  of_nat = λ n. n;
  add = λ x y. x + y;
  sub = λ x y. x - y;
  mul = λ x y. x * y;
  div = λ x y. x / y;
  exp = λ x. 1;
  round_two = λ x. x;
  at_most = leb;
}

nat_floats-IsOrdered : IsOrdered nat_floats
unfolding nat_floats
nat_floats-IsOrdered = record {
  at_most_total = λ x y. ground arith;
  at_most_trans = λ x y z h k. ground (arith, h, k);
}

abbrev config : BlacklistConfig ℕ
config = record {
  decay_lambda = 0;
  soft_ban_window_hours = 24;
  auto_whitelist_hours = 168;
  rack_fault_threshold = 3;
  rack_fault_window_seconds = 120;
  fault_weights = λ t. none;
  fault_severities = λ t. none;
  fault_soft_ban_thresholds = λ t. none;
  fault_auto_ban_thresholds = λ t. none;
  uptime_penalty_weight = 1;
  uptime_reference_hours = 24;
}

-- A node with one network fault, and one that is fatal.
abbrev once_faulty : NodeRecord ℕ
once_faulty = record {
  node_name = "b";
  fault_records =
      record {
        fault_type = network;
        timestamp = 100;
        description = "timeout";
        error_code = none;
        hcu_id = none;
        micro_step = none;
        base_score = 10;
        uptime_hours = none;
        uptime_penalty = 0;
      }
      ∷ [];
  fatal = false;
  soft_banned = false;
  last_fault_time = some 100;
  last_healthy_time = none;
  fault_score = 10;
}

abbrev clean_again : NodeRecord ℕ
clean_again = record once_faulty { node_name = "c"; fault_records = []; fault_score = 0 }

abbrev broken : NodeRecord ℕ
broken = record once_faulty { node_name = "d"; fatal = true }

abbrev manager : BlacklistManager ℕ
manager = record {
  config = config;
  nodes = ("b", once_faulty) ∷ ("c", clean_again) ∷ ("d", broken) ∷ [];
  rack_detector = record { timeline = []; node_to_rack = []; events = [] };
  dirty = false;
}

abbrev report : Report
report = record {
  node_name = "b";
  fault_type = hcu;
  description = "";
  error_code = none;
  hcu_id = some 3;
  micro_step = none;
}

abbrev files : Files ℕ
files = record { main = none; backup = none; main_writable = true; backup_writable = true }

allocate_nodes-IsLawful_example : IsLawful (asked 200 manager) (holds_fatal manager)
allocate_nodes-IsLawful_example = allocate_nodes-IsLawful 200 manager

apply_node_num_resources_served_example :
    (new : List String) × (q : NodePool) × (apply_node_num_resources (asked 200 manager) 2 8 pool
      ≡ (ok (some (head? (pool.running_nodes ++ new))), q))
    × IsAllotted (asked 200 manager) (holds_fatal manager) pool 2 new q
unfolding safe find_node fatal_node
apply_node_num_resources_served_example =
    apply_node_num_resources_served 200 manager pool 2 8 pool-IsPartition (omega arith)
      (omega arith) refl

allocate_nodes_counted_example :
    let (r, missing) = allocate_nodes 200 ("a" ∷ "b" ∷ "d" ∷ []) 3 manager in
    (3 ≤ length r.healthy_nodes + length r.backup_nodes + missing)
    × (1 ≤ missing
        → (length r.healthy_nodes + length r.backup_nodes + missing ≡ 3)
          × ((x : String)
              → contains x ("a" ∷ "b" ∷ "d" ∷ []) ≡ true
              → fatal_node (find_node x manager.nodes) ≡ false
              → (contains x r.healthy_nodes || contains x r.backup_nodes) ≡ true))
allocate_nodes_counted_example = allocate_nodes_counted 200 ("a" ∷ "b" ∷ "d" ∷ []) 3 manager

allocate_nodes_best_example :
    no_worse (score_node config 200 ("c", clean_again)) (score_node config 200 ("b", once_faulty))
    ≡ true
unfolding allocate_nodes find_node contains nat_floats first_ones
allocate_nodes_best_example =
    allocate_nodes_best nat_floats-IsOrdered 200 ("a" ∷ "b" ∷ "c" ∷ []) 2 manager "c" "b"
      clean_again once_faulty refl refl refl refl refl refl

-- Between a time and one that is not later lies no hour.
no_hours : (now t : ℕ) → now ≤ t → hours_between ⦃f = nat_floats⦄ now t ≡ 0
unfolding hours_between seconds_between nat_floats
no_hours now t h = elim (Bool-cases (leb t now)) [
  | inl e ↦ let none_passed : now - t ≡ 0 = omega (arith, h) in rw (e, none_passed) refl
  | inr e ↦ let none_passed : 0 - (t - now) ≡ 0 = omega arith in rw (e, none_passed) refl
]

always-IsWaiting : (now : ℕ) → IsWaiting config now
unfolding nat_floats
always-IsWaiting now t h = rw (no_hours now t h) refl

report_fault-IsKept_example :
    let (noted, q) = report_fault 200 201 "HCU" report manager in
    IsKept (find_node "d" manager.nodes) (find_node "d" q.nodes)
    × (noted ≡ true
        → is_fatal_report config report ≡ true
        → fatal_node (find_node "b" q.nodes) ≡ true)
report_fault-IsKept_example =
    report_fault-IsKept 200 201 "HCU" report manager "d" (always-IsWaiting 200)

load-save_example :
    ((save manager.nodes files).0 ≡ true)
    × (load (save manager.nodes files).1 ≡ (rounded manager.nodes, (save manager.nodes files).1))
load-save_example = load-save manager.nodes files refl

save_recovers_example :
    ((save manager.nodes files).1.backup ≡ (save manager.nodes files).1.main)
    × (load (with_main (some damaged) (save manager.nodes files).1)
        ≡ (rounded manager.nodes, (save (rounded manager.nodes) files).1))
save_recovers_example = save_recovers manager.nodes files refl refl
