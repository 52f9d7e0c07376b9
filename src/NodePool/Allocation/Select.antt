-- ===== src/NodePool/Allocation/Select.antt =====
-- node_pool.py: which nodes `apply_node_num_resources` and `apply_node_list_resources` take from the
-- backup list, and in which order.
use cluster_manager_das.Prelude.{
  ℕ, ◌-◌, String, Bool, true, false, ◌&&◌, ◌||◌, not, List, [], ◌∷◌, ◌++◌, leb, nat_eq, length,
  take, is_empty, if◌then◌else◌,
}
use cluster_manager_das.Prelude.Names.{contains, inter, diff, remove}
use cluster_manager_das.Prelude.Exec.{Exec, Result, ok, err, value_error, modify, pure, raise, ◌>>◌}
use cluster_manager_das.NodePool.State.{NodePool, deduplicate_and_sort}

-- What the loops write: the local lists `standby_nodes` and `new_running_nodes`, and the pool's
-- backup list.
pub record Draft : Type 0 where
  pub standby : List String
  pub new : List String
  pub backup : List String

-- `self._backup_nodes.remove(node)` raises where the node is not in the list.
unfoldable pub remove_backup : String → Exec Draft Unit
remove_backup node d =
    if contains node d.backup
    then (pure tt) (record d { backup = remove node d.backup })
    else (raise value_error) d

unfoldable pub append_new : String → Draft → Draft
append_new node d = record d { new = d.new ++ node ∷ [] }

-- `for node in new_running_nodes: self._backup_nodes.remove(node)`
unfoldable pub remove_all : List String → Exec Draft Unit
unfolding remove_backup
remove_all [] = pure tt
remove_all (node ∷ nodes) = remove_backup node >> remove_all nodes

-- A last running node that is used again.
unfoldable pub reuse : String → Exec Draft Unit
unfolding append_new remove_backup
reuse node = do modify (append_new node); remove_backup node

unfoldable pub take_first : List String → Exec Draft Unit
unfolding append_new remove_backup
take_first [] = pure tt
take_first (node ∷ rest) = do
  modify (λ d. record d { standby = rest })
  remove_backup node
  modify (append_new node)

-- `_pick_and_assign_standby`
unfoldable pub pick_and_assign_standby : Exec Draft Unit
unfolding take_first
pick_and_assign_standby d = take_first d.standby d

-- One last running node: it is used again if it is healthy, or degraded where that is allowed, and
-- replaced otherwise. `backup` is the backup list before the loop.
unfoldable pub assign : (backup healthy degraded : List String) → Bool → String → Exec Draft Unit
unfolding reuse pick_and_assign_standby
assign backup healthy degraded allow node =
    if contains node backup && (contains node healthy || contains node degraded && allow)
    then reuse node
    else pick_and_assign_standby

-- The loop over the last running nodes.
unfoldable pub recycle :
    (backup healthy degraded : List String) → Bool → ℕ → List String → Exec Draft Unit
recycle backup healthy degraded allow nodes_num [] d = (pure tt) d
recycle backup healthy degraded allow nodes_num (node ∷ nodes) d =
    if leb nodes_num (length d.new)
    then (pure tt) d
    else (assign backup healthy degraded allow node
          >> recycle backup healthy degraded allow nodes_num nodes)
        d

-- How many of the last running nodes are not healthy.
unfoldable pub replacements_needed : (backup healthy last : List String) → ℕ
replacements_needed backup healthy last = let bad = diff last (inter backup healthy) in length bad

-- The replacements, and whether a degraded node may be used: only if the healthy ones do not suffice.
unfoldable pub standby_plan : (backup healthy degraded last : List String) → List String × Bool
unfolding replacements_needed
standby_plan backup healthy degraded last =
    let standby_healthy = deduplicate_and_sort (inter (diff backup last) healthy) in
    let standby_degraded = deduplicate_and_sort (inter (diff backup last) degraded) in
    if leb (replacements_needed backup healthy last) (length standby_healthy)
    then (standby_healthy, false)
    else (standby_healthy ++ standby_degraded, true)

-- The loop's local lists go, and the backup list stays written, also where the loop raised.
abbrev pub finish : NodePool → Result (Unit {0}) × Draft → Result (List String) × NodePool
finish p (ok u, d) = (ok d.new, record p { backup_nodes = d.backup })
finish p (err e, d) = (err e, record p { backup_nodes = d.backup })

-- The nodes that a first allocation takes: healthy ones, then degraded ones.
unfoldable pub fresh_nodes : ℕ → (healthy degraded : List String) → List String
fresh_nodes nodes_num healthy degraded =
    let from_healthy = take nodes_num healthy in
    from_healthy ++ take (nodes_num - length from_healthy) degraded

-- The mode that uses the last running nodes again.
unfoldable pub recycle_nodes : ℕ → (healthy degraded : List String) → Exec NodePool (List String)
unfolding standby_plan recycle assign
recycle_nodes nodes_num healthy degraded p =
    let (standby, allow) = standby_plan p.backup_nodes healthy degraded p.last_running_nodes in
    finish p (
      recycle p.backup_nodes healthy degraded allow nodes_num p.last_running_nodes
        (record { standby = standby; new = []; backup = p.backup_nodes }))

-- The mode of a first allocation.
unfoldable pub select_fresh : ℕ → (healthy degraded : List String) → Exec NodePool (List String)
unfolding fresh_nodes remove_all
select_fresh nodes_num healthy degraded p =
    let new = fresh_nodes nodes_num healthy degraded in
    finish p (remove_all new (record { standby = []; new = new; backup = p.backup_nodes }))

-- The two modes of `apply_node_num_resources`.
unfoldable pub select_nodes : ℕ → (healthy degraded : List String) → Exec NodePool (List String)
unfolding recycle_nodes select_fresh
select_nodes nodes_num healthy degraded p =
    if not (is_empty p.last_running_nodes) && nat_eq nodes_num (length p.last_running_nodes)
    then recycle_nodes nodes_num healthy degraded p
    else select_fresh nodes_num healthy degraded p

-- The local variables of `apply_node_list_resources` beside the draft: the sets of nodes still free.
pub record Targets : Type 0 where
  pub healthy_set : List String
  pub degraded_set : List String
  pub draft : Draft

-- The draft's operations on `Targets`.
abbrev pub on_draft : Exec Draft Unit → Exec Targets Unit
on_draft m t = ((m t.draft).0, record t { draft = (m t.draft).1 })

-- The target itself is taken, and is no replacement any more; `standby` is `replacement_pool`.
unfoldable pub take_target : String → Exec Targets Unit
unfolding append_new remove_backup
take_target node = do
  on_draft (modify (append_new node))
  on_draft (remove_backup node)
  on_draft (modify (λ d. record d { standby = remove node d.standby }))

-- `popped_node` leaves the set that it stands in.
unfoldable pub discard_popped : String → Targets → Targets
discard_popped popped t =
    if contains popped t.degraded_set
    then record t { degraded_set = remove popped t.degraded_set }
    else record t { healthy_set = remove popped t.healthy_set }

unfoldable pub take_replacement : String → List String → Exec Targets Unit
unfolding append_new remove_backup discard_popped
take_replacement popped rest = do
  on_draft (modify (λ d. record d { standby = rest }))
  on_draft (remove_backup popped)
  on_draft (modify (append_new popped))
  modify (discard_popped popped)

-- The loop over the target nodes; it breaks where no replacement is left.
unfoldable pub assign_targets : List String → Exec Targets Unit
unfolding take_target take_replacement
assign_targets [] t = (pure tt) t
assign_targets (node ∷ nodes) t =
    if contains node t.healthy_set
    then (do
      take_target node
      modify (λ u. record u { healthy_set = remove node u.healthy_set })
      assign_targets nodes)
        t
    else if contains node t.degraded_set
    then (do
      take_target node
      modify (λ u. record u { degraded_set = remove node u.degraded_set })
      assign_targets nodes)
        t
    else elim t.draft.standby [
      | [] ↦ (pure tt) t
      | popped ∷ rest ↦ (do take_replacement popped rest; assign_targets nodes) t
    ]

-- The choice of nodes of `apply_node_list_resources`.
unfoldable pub select_targets :
    List String → (healthy degraded : List String) → Exec NodePool (List String)
unfolding assign_targets
select_targets targets healthy degraded p =
    let (r, t) = assign_targets targets (record {
      healthy_set = healthy;
      degraded_set = degraded;
      draft = record { standby = healthy ++ degraded; new = []; backup = p.backup_nodes };
    }) in
    finish p (r, t.draft)
