-- ===== src/Runtime/Context/Removed.antt =====
-- Handling a fault that can be located takes the node behind it out of the pool.
use cluster_manager_das.Prelude.{
  ℕ, zero, suc, String, Bool, true, false, ◌||◌, ◌==◌, eq_iff, eq_refl, List, [], ◌∷◌, Option, none,
  some, ◌≡◌, refl, arith, get_elem?, is_empty, ◌∙◌, sym, Bool-cases, inl, inr, ap, ◌*◌, ◌/◌, ◌≤◌,
  ◌<◌, length, leb,
}
use mathlib.Core.Path.{subst}
use mathlib.Core.Option.{some-injective}
use cluster_manager_das.Prelude.Names.{contains, inter}
use cluster_manager_das.Prelude.Names.Laws.{contains-inter}
use cluster_manager_das.Prelude.Names.Strip.{IsClean, AllClean}
use cluster_manager_das.Prelude.Exec.{Result, ok, err}
use cluster_manager_das.NodePool.State.{deduplicate_and_sort}
use cluster_manager_das.NodePool.Partition.Names.{
  contains-deduplicate_and_sort, contains-of_is_empty,
}
use cluster_manager_das.NodePool.Partition.Rules.{IsPartition}
use cluster_manager_das.NodePool.Partition.Marking.{add_abnormal_nodes_accepts}
use cluster_manager_das.Runtime.Proxy.{
  NodeSnapshot, FaultReport, NodePoolProxy, add_current_snapshot_param, report_fault, on_pool,
  note_fault, add_fault_node, add_found_node, add_fault_node_no,
}
use native.Mathlib.Nat.{le-div_iff_mul-le}
use cluster_manager_das.Runtime.Rank.{number}
use cluster_manager_das.Runtime.Context.{
  integer, node_number, positive, int_of, Value, Payload, RuntimeContext, locate, message_of,
  answered, mark_node_number, handle_runtime_fault,
}
use cluster_manager_das.Runtime.Context.Isolation.{IsKept}

contains-get_elem :
    (xs : List String) (n : ℕ) (x : String) → get_elem? xs n ≡ some x → contains x xs ≡ true
unfolding contains
contains-get_elem [] n x e = cc
contains-get_elem (y ∷ xs) zero x e = rw (some-injective _ _ e, eq_refl x) refl
contains-get_elem (y ∷ xs) (suc n) x e = ground (arith, contains-get_elem xs n x e)

IsClean-contains : (xs : List String) (x : String) → AllClean xs → contains x xs ≡ true → IsClean x
unfolding contains
IsClean-contains [] x h m = cc
IsClean-contains (y ∷ xs) x h m = elim (Bool-cases (y == x)) [
  | inl e ↦ subst IsClean ((eq_iff y x).0 e) h.0
  | inr e ↦ IsClean-contains xs x h.1 (ground arith)
]

-- The pool has given up a node: it is abnormal, nothing runs, and the nodes of the run are kept for
-- the next one.
pub record IsRemoved (node : String) (x y : NodePoolProxy) : Type 0 where
  pub abnormal : contains node y.node_pool.abnormal_nodes ≡ true
  pub stopped : (z : String) → contains z y.node_pool.running_nodes ≡ false
  pub remembered : y.node_pool.last_running_nodes ≡ x.node_pool.running_nodes
  pub partition : IsPartition y.node_pool

note_fault-IsRemoved :
    (node message : String) (o : Option NodeSnapshot) (x y : NodePoolProxy)
    → IsRemoved node x y
    → ((note_fault o node message false y).0 ≡ ok tt)
      × IsRemoved node x (note_fault o node message false y).1
unfolding note_fault add_current_snapshot_param
note_fault-IsRemoved node message none x y h = (refl, h)
note_fault-IsRemoved node message (some s) x y h = (
  refl,
  record {
    abnormal = h.abnormal;
    stopped = h.stopped;
    remembered = h.remembered;
    partition = h.partition;
  },
)

module _ (raises : FaultReport → Bool) (quiet : (r : FaultReport) → raises r ≡ false)
    (message : String) (cur_iter : Option ℕ) (x : NodePoolProxy) (h : IsKept x) (node : String)
    (runs : contains node x.node_pool.running_nodes ≡ true) where
  contains-only : (z : String) → contains z (deduplicate_and_sort (node ∷ [])) ≡ (node == z)
  contains-only z =
      contains-deduplicate_and_sort z (node ∷ [])
        (IsClean-contains x.node_pool.running_nodes node h.partition.names_running.clean runs, tt)
      ∙ unfold contains in ground arith

  fits :
      (z : String)
      → contains z (deduplicate_and_sort (node ∷ [])) ≡ true
      → (contains z x.node_pool.total_nodes ≡ true)
        × (contains z x.node_pool.abnormal_nodes ≡ false)
  fits z m =
      let e : node ≡ z = (eq_iff node z).0 (sym (contains-only z) ∙ m) in
      subst
        (λ y.
          (contains y x.node_pool.total_nodes ≡ true)
          × (contains y x.node_pool.abnormal_nodes ≡ false))
        e
        (
          ground (arith, h.partition.cover node, runs),
          ground (arith, h.partition.running_abnormal node, runs),
        )

  some_node : is_empty (deduplicate_and_sort (node ∷ [])) ≡ false
  some_node = ground (
    arith,
    contains-only node,
    eq_refl node,
    contains-of_is_empty node (deduplicate_and_sort (node ∷ [])),
  )

  conflicts : is_empty (inter (deduplicate_and_sort (node ∷ [])) x.node_pool.running_nodes) ≡ false
  conflicts = ground (
    arith,
    contains-only node,
    eq_refl node,
    runs,
    contains-inter node (deduplicate_and_sort (node ∷ [])) x.node_pool.running_nodes,
    contains-of_is_empty node (inter (deduplicate_and_sort (node ∷ [])) x.node_pool.running_nodes),
  )

  pub add_fault_node-IsRemoved :
      ((add_fault_node raises node message cur_iter x).0 ≡ ok tt)
      × IsRemoved node x (add_fault_node raises node message cur_iter x).1
  unfolding add_fault_node on_pool report_fault
  add_fault_node-IsRemoved =
      let (q, done, part, marked) =
        add_abnormal_nodes_accepts x.node_pool (node ∷ []) h.partition some_node fits in
      rw (done, quiet (record { node_name = node; description = message; micro_step = cur_iter }))
        (note_fault-IsRemoved node message _ x _ (record {
          abnormal = ground (arith, marked.abnormal node, contains-only node, eq_refl node);
          stopped = λ z. ground (arith, marked.running z, conflicts);
          remembered = marked.remembered ∙ rw conflicts refl;
          partition = part;
        }))

answered-IsRemoved :
    (node : String) (c : RuntimeContext) (y : Result (Unit {0}) × NodePoolProxy)
    → y.0 ≡ ok tt
    → IsRemoved node c.node_pool_proxy y.1
    → ((answered y c).0 ≡ true) × IsRemoved node c.node_pool_proxy (answered y c).1.node_pool_proxy
unfolding answered
answered-IsRemoved node c (ok u, y) e r = (refl, r)
answered-IsRemoved node c (err f, y) e r = cc

module _ (raises : FaultReport → Bool) (reason : Payload) (c : RuntimeContext) (info : Value)
    (fault_type : String)
    (rank : (fault_type == "global_rank" || fault_type == "mpi_rank" || fault_type == "rank")
      ≡ true)
    (n : ℕ) (located : locate c.config fault_type info ≡ some n) where
  -- Where a rank fault is located at a position of the running list, the pool follows its rules
  -- with the snapshot's file in step, and the blacklist raises nothing, handling it succeeds and
  -- removes the node at that position: it is abnormal, the job is taken off every node, and the
  -- nodes of the run are remembered.
  pub handle_runtime_fault_removes :
      ((r : FaultReport) → raises r ≡ false)
      → IsKept c.node_pool_proxy
      → (node : String) → get_elem? c.node_pool_proxy.node_pool.running_nodes n ≡ some node
      → ((handle_runtime_fault raises info fault_type reason c).0 ≡ true)
        × IsRemoved node c.node_pool_proxy
            (handle_runtime_fault raises info fault_type reason c).1.node_pool_proxy
  unfolding handle_runtime_fault mark_node_number add_fault_node_no add_found_node
  handle_runtime_fault_removes quiet h node found =
      let r =
        add_fault_node-IsRemoved raises quiet (message_of reason.data_of) reason.cur_iter
          c.node_pool_proxy h node (contains-get_elem _ n node found) in
      rw (rank, located, found) (answered-IsRemoved node c _ r.0 r.1)

  missed :
      get_elem? c.node_pool_proxy.node_pool.running_nodes n ≡ none
      → handle_runtime_fault raises info fault_type reason c ≡ (true, c)
  unfolding handle_runtime_fault mark_node_number add_fault_node_no add_found_node answered
  missed lost = rw (rank, located, lost) refl

get_elem-past : (xs : List String) (n : ℕ) → length xs ≤ n → get_elem? xs n ≡ none
get_elem-past [] n h = refl
get_elem-past (x ∷ xs) zero h = absurd (omega arith)
get_elem-past (x ∷ xs) (suc n) h = get_elem-past xs n (omega arith)

-- A training rank within the allocation, which has a positive number of slots for each node and a
-- required number of nodes, whose node lies past the nodes that still run, counts as handled although
-- nothing is marked: the context stays as it was.
pub handle_runtime_fault_misses :
    (raises : FaultReport → Bool) (reason : Payload) (c : RuntimeContext) (rank slots required : ℕ)
    → c.config.slots_per_node ≡ integer (number (suc slots))
    → c.config.required_nodes_num ≡ suc required
    → rank < suc required * suc slots
    → length c.node_pool_proxy.node_pool.running_nodes * suc slots ≤ rank
    → handle_runtime_fault raises (integer (number rank)) "global_rank" reason c ≡ (true, c)
unfolding locate node_number positive int_of
handle_runtime_fault_misses raises reason c rank slots required per nodes within past =
    let inside : leb (suc required) (rank / suc slots) ≡ false = ground (
      arith,
      within,
      (le-div_iff_mul-le {k = suc slots} {x = suc required} {y = rank} (omega arith)).0,
    ) in
    let there : locate c.config "global_rank" (integer (number rank)) ≡ some (rank / suc slots) =
      rw (per, nodes, inside) (ground arith) in
    missed raises reason c (integer (number rank)) "global_rank" refl (rank / suc slots) there
      (get_elem-past _ _ ((le-div_iff_mul-le {k = suc slots} (omega arith)).1 past))

-- A training rank past the allocation, which has a positive number of slots for each node and a
-- required number of nodes, is refused, and nothing changes.
pub handle_runtime_fault_refuses :
    (raises : FaultReport → Bool) (reason : Payload) (c : RuntimeContext) (rank slots required : ℕ)
    → c.config.slots_per_node ≡ integer (number (suc slots))
    → c.config.required_nodes_num ≡ suc required
    → suc required * suc slots ≤ rank
    → handle_runtime_fault raises (integer (number rank)) "global_rank" reason c ≡ (false, c)
unfolding handle_runtime_fault mark_node_number locate node_number positive int_of
handle_runtime_fault_refuses raises reason c rank slots required per nodes past =
    let beyond : suc required ≤ rank / suc slots =
      (le-div_iff_mul-le {k = suc slots} (omega arith)).1 past in
    let outside : leb (suc required) (rank / suc slots) ≡ true = ground arith in
    let nowhere : locate c.config "global_rank" (integer (number rank)) ≡ none =
      rw (per, nodes, outside) (ground arith) in
    ap (λ o. mark_node_number raises reason o c) nowhere
