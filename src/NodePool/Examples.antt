-- ===== src/NodePool/Examples.antt =====
-- Runs of the pool on small clusters.
use cluster_manager_das.Prelude.{
  String, Bool, true, false, List, [], ◌∷◌, none, some, ◌≡◌, refl, arith, eq_iff, ◌==◌, ◌&&◌, inl,
  ◌++◌, not, head?,
}
use cluster_manager_das.Prelude.Names.{contains, dedup, sort, diff, inter, insert}
use cluster_manager_das.Prelude.Names.Strip.{valid_nodes, strip}
use cluster_manager_das.NodePool.State.{NodePool, Disk, deduplicate_and_sort, success}
use cluster_manager_das.Prelude.Names.Laws.{contains-diff, contains-inter}
use cluster_manager_das.NodePool.Allocation.{
  Allocate, get_available_nodes_with_blacklist, group_candidates, apply_node_num_resources,
  apply_node_list_resources,
}
use cluster_manager_das.NodePool.Allocation.Promise.{
  IsLawful, apply_node_num_resources_allots, IsAllotted,
}
use cluster_manager_das.NodePool.Allocation.Listed.{apply_node_list_resources_allots, IsListed}
use cluster_manager_das.NodePool.Calls.{
  PoolCall, add_abnormal, apply_num, remove_abnormal, release, reset, apply_list, abnormal_at,
  after_calls,
}
use cluster_manager_das.NodePool.Calls.Reachable.{
  after_calls-IsPartition, apply_list_law, abnormal_law, apply_law, remove_law, release_law,
  position_law, reset_law,
}
use mathlib.Core.Option.{some-injective}
use cluster_manager_das.Prelude.Exec.{ok, err, value_error}
use cluster_manager_das.Hostfile.{read_hostfile}
use cluster_manager_das.NodePool.Marking.{
  add_abnormal_nodes, add_total_nodes, remove_abnormal_nodes, reset_node_pool,
}
use cluster_manager_das.NodePool.Startup.{init_node_pool}
use cluster_manager_das.NodePool.Startup.Restored.{init_node_pool_first}
use cluster_manager_das.NodePool.Partition.Marked.{marked_answer, IsMarked}
use cluster_manager_das.NodePool.Partition.Marking.{
  add_abnormal_nodes_accepts, add_abnormal_nodes_refuses,
}
use cluster_manager_das.NodePool.Partition.Restoring.{remove_abnormal_nodes-Kept}
use cluster_manager_das.NodePool.Partition.Resetting.{
  reset_node_pool_accepts, reset_node_pool_refuses,
}
use cluster_manager_das.NodePool.Partition.Stale.{
  add_total_nodes_stale, remove_abnormal_nodes_stale,
}
use cluster_manager_das.NodePool.Partition.Rules.{Kept, IsNormalSynced, IsPartition}
use cluster_manager_das.NodePool.Partition.Names.{IsNames}

abbrev pub disk : Disk
disk = record {
  total_lines = "a" ∷ "b" ∷ "c" ∷ "d" ∷ [];
  running_lines = "a" ∷ [];
  backup_lines = "b" ∷ "c" ∷ [];
  abnormal_lines = "d" ∷ [];
  normal_lines = "a" ∷ "b" ∷ "c" ∷ [];
  slots_lines = [];
  succ_additional_lines = none;
  writable = λ file. true;
  slots_writable = true;
}

abbrev pub pool : NodePool
pool = record {
  total_nodes = "a" ∷ "b" ∷ "c" ∷ "d" ∷ [];
  running_nodes = "a" ∷ [];
  backup_nodes = "b" ∷ "c" ∷ [];
  abnormal_nodes = "d" ∷ [];
  normal_nodes = "a" ∷ "b" ∷ "c" ∷ [];
  last_running_nodes = "c" ∷ [];
  len_running_abnormal_nodes = 0;
  disk = disk;
}

-- No name equals two different names.
two_names : (a b x : String) → (a == b) ≡ false → ((a == x) && (b == x)) ≡ false
two_names a b x e = ground (arith, eq_iff a x, eq_iff b x, eq_iff a b)

clean_name : IsNames ("a" ∷ "b" ∷ "c" ∷ "d" ∷ [])
unfolding strip contains
clean_name = record {
  clean = ((refl, refl), ((refl, refl), ((refl, refl), ((refl, refl), tt))));
  nodup = (refl, (refl, (refl, (refl, tt))));
}

pub pool-IsPartition : IsPartition pool
unfolding strip contains
pool-IsPartition = record {
  names_total = clean_name;
  names_running = record { clean = ((refl, refl), tt); nodup = (refl, tt) };
  names_backup = record { clean = ((refl, refl), ((refl, refl), tt)); nodup = (refl, (refl, tt)) };
  names_abnormal = record { clean = ((refl, refl), tt); nodup = (refl, tt) };
  names_last = record { clean = ((refl, refl), tt); nodup = (refl, tt) };
  cover = λ x. ground arith;
  running_backup = λ x. ground (arith, two_names "a" "b" x refl, two_names "a" "c" x refl);
  running_abnormal = λ x. ground (arith, two_names "a" "d" x refl);
  backup_abnormal = λ x. ground (arith, two_names "b" "d" x refl, two_names "c" "d" x refl);
}

-- A blacklist on which "c" is degraded and "e" is fatal.
abbrev pub some_blacklist : Allocate
some_blacklist candidates n = some (record {
  healthy_nodes = diff candidates ("c" ∷ "e" ∷ []);
  backup_nodes = inter candidates ("c" ∷ []);
  rejected_nodes = inter candidates ("e" ∷ []);
})

abbrev pub is_e : String → Bool
is_e x = "e" == x

pub some_blacklist-IsLawful : IsLawful some_blacklist is_e
unfolding contains
some_blacklist-IsLawful = record {
  apart = λ candidates n r e x. rw (← some-injective _ _ e) (
      ground (
        arith,
        contains-diff x candidates ("c" ∷ "e" ∷ []),
        contains-inter x candidates ("c" ∷ []),
      ));
  no_fatal = λ candidates n r e x. rw (← some-injective _ _ e) (
      ground (
        arith,
        contains-diff x candidates ("c" ∷ "e" ∷ []),
        contains-inter x candidates ("c" ∷ []),
        two_names "c" "e" x refl,
      ));
}

abbrev pool_calls : List PoolCall
pool_calls =
    add_abnormal ("a" ∷ [])
    ∷ apply_num some_blacklist 2 8
    ∷ remove_abnormal ("d" ∷ []) "running"
    ∷ release
    ∷ apply_list some_blacklist ("c" ∷ "x" ∷ []) 8
    ∷ abnormal_at 0
    ∷ reset ("b" ∷ "a" ∷ []) []
    ∷ []

abbrev two_lists : List String × List String
two_lists = ("b" ∷ "a" ∷ [], "d" ∷ [])

apply_node_num_resources_allots_example :
    (new : List String) × (q : NodePool) × (apply_node_num_resources some_blacklist 2 8 pool
      ≡ (ok (some (head? (pool.running_nodes ++ new))), q))
    × IsAllotted some_blacklist is_e pool 2 new q
apply_node_num_resources_allots_example =
    apply_node_num_resources_allots some_blacklist is_e some_blacklist-IsLawful pool
      pool-IsPartition _ refl 2 8
      (unfold get_available_nodes_with_blacklist group_candidates deduplicate_and_sort valid_nodes
          strip dedup sort insert inter diff contains in
        ground arith)
      (ground arith) refl

apply_node_list_resources_allots_example :
    (new : List String) × (q : NodePool) × (apply_node_list_resources some_blacklist
        ("c" ∷ "x" ∷ [])
        8
        pool
      ≡ (ok (some (head? (pool.running_nodes ++ new))), q))
    × IsListed pool
        (get_available_nodes_with_blacklist some_blacklist pool.backup_nodes)
        ("c" ∷ "x" ∷ [])
        new
        q
apply_node_list_resources_allots_example =
    apply_node_list_resources_allots some_blacklist is_e some_blacklist-IsLawful pool
      pool-IsPartition ("c" ∷ "x" ∷ []) 8 refl
      (unfold get_available_nodes_with_blacklist group_candidates deduplicate_and_sort valid_nodes
          strip dedup sort insert inter diff contains in
        ground arith)
      (ground arith) refl

none_abnormal :
    (x : String)
    → contains x (deduplicate_and_sort []) ≡ true
    → contains x (deduplicate_and_sort ("b" ∷ "a" ∷ [])) ≡ true
unfolding deduplicate_and_sort valid_nodes dedup sort contains
none_abnormal x m = cc

after_calls-IsPartition_example : IsPartition (after_calls pool_calls pool)
after_calls-IsPartition_example =
    after_calls-IsPartition pool_calls pool
      (
        abnormal_law,
        (
          apply_law is_e some_blacklist-IsLawful,
          (
            remove_law,
            (
              release_law,
              (
                apply_list_law is_e some_blacklist-IsLawful,
                (position_law, (reset_law none_abnormal, tt)),
              ),
            ),
          ),
        ),
      )
      pool-IsPartition

add_abnormal_nodes_accepts_example :
    (q : NodePool) × (add_abnormal_nodes (" a" ∷ "b" ∷ []) pool
      ≡ (ok (marked_answer (deduplicate_and_sort (" a" ∷ "b" ∷ [])) pool), q))
    × IsPartition q
    × IsMarked (deduplicate_and_sort (" a" ∷ "b" ∷ [])) pool q
unfolding deduplicate_and_sort valid_nodes strip dedup sort insert contains
add_abnormal_nodes_accepts_example =
    add_abnormal_nodes_accepts pool (" a" ∷ "b" ∷ []) pool-IsPartition refl
      λ x m. ground (arith, two_names "a" "d" x refl, two_names "b" "d" x refl)

add_abnormal_nodes_refuses_example :
    add_abnormal_nodes ("a" ∷ "d" ∷ []) pool ≡ (ok (false, false, none, none), pool)
unfolding deduplicate_and_sort valid_nodes strip dedup sort insert contains
add_abnormal_nodes_refuses_example =
    add_abnormal_nodes_refuses pool ("a" ∷ "d" ∷ []) "d" (inl (refl, refl))

remove_abnormal_nodes-Kept_example : Kept (remove_abnormal_nodes ("d" ∷ []) "running" pool)
remove_abnormal_nodes-Kept_example =
    remove_abnormal_nodes-Kept pool pool-IsPartition ("d" ∷ []) "running"

reset_node_pool_accepts_example :
    (q : NodePool) × (reset_node_pool two_lists.0 ("a" ∷ []) pool ≡ (ok tt, q))
    × IsPartition q
    × IsNormalSynced q
    × (q.running_nodes ≡ [])
    × ((x : String)
        → contains x q.backup_nodes ≡ (
            contains x (deduplicate_and_sort two_lists.0)
            && not (contains x (deduplicate_and_sort ("a" ∷ [])))))
unfolding deduplicate_and_sort valid_nodes strip dedup sort insert contains
reset_node_pool_accepts_example =
    reset_node_pool_accepts pool two_lists.0 ("a" ∷ []) λ x m. ground arith

reset_node_pool_refuses_example :
    ((reset_node_pool two_lists.0 two_lists.1 pool).0 ≡ err value_error)
    × (¬ IsPartition (reset_node_pool two_lists.0 two_lists.1 pool).1)
unfolding deduplicate_and_sort valid_nodes strip dedup sort insert contains
reset_node_pool_refuses_example = reset_node_pool_refuses pool two_lists.0 two_lists.1 "d" refl refl

pool_synced : IsNormalSynced pool
unfolding contains
pool_synced x =
    ground (arith, two_names "a" "d" x refl, two_names "b" "d" x refl, two_names "c" "d" x refl)

add_total_nodes_stale_example :
    (q : NodePool) × (add_total_nodes ("x" ∷ []) pool
      ≡ (ok (some (diff (deduplicate_and_sort ("x" ∷ [])) pool.total_nodes)), q))
    × (q.normal_nodes ≡ pool.normal_nodes)
    × (contains "x" q.total_nodes ≡ true)
    × (¬ IsNormalSynced q)
unfolding deduplicate_and_sort valid_nodes strip dedup sort insert contains
add_total_nodes_stale_example =
    add_total_nodes_stale pool pool-IsPartition ("x" ∷ []) "x" refl refl pool_synced

remove_abnormal_nodes_stale_example :
    (q : NodePool) × (remove_abnormal_nodes ("d" ∷ []) "backup" pool ≡ (ok (success, true), q))
    × (contains "d" q.abnormal_nodes ≡ false)
    × (q.disk ≡ pool.disk)
    × (¬ IsNormalSynced q)
unfolding deduplicate_and_sort valid_nodes strip dedup sort insert contains
remove_abnormal_nodes_stale_example =
    remove_abnormal_nodes_stale pool pool-IsPartition ("d" ∷ []) "d" refl (λ z m. ground arith) refl
      pool_synced

abbrev empty_disk : Disk
empty_disk = record disk { total_lines = []; running_lines = []; backup_lines = [] }

abbrev some_hostfile : List String
some_hostfile = "b slots=8" ∷ "# spare" ∷ "a" ∷ []

init_node_pool_first_example :
    (q : NodePool) × (init_node_pool some_hostfile empty_disk ≡ some q)
    × IsPartition q
    × IsNormalSynced q
    × (q.running_nodes ≡ [])
    × (q.total_nodes ≡ deduplicate_and_sort (read_hostfile some_hostfile))
    × (q.abnormal_nodes ≡ [])
    × ((x : String)
        → contains x q.backup_nodes
          ≡ contains x (deduplicate_and_sort (read_hostfile some_hostfile)))
unfolding deduplicate_and_sort valid_nodes strip dedup sort insert contains read_hostfile
init_node_pool_first_example = init_node_pool_first some_hostfile empty_disk refl refl
