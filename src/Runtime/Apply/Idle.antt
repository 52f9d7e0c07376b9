-- ===== src/Runtime/Apply/Idle.antt =====
-- What the steps of a round do to an empty running list: it stays empty.
use cluster_manager_das.Prelude.{
  ℕ, String, Bool, true, false, not, ◌||◌, List, [], ◌∷◌, Option, none, some, ◌≡◌, refl, ◌∙◌,
  is_empty, ltb, Bool-cases, if_cases, inl, inr,
}
use cluster_manager_das.Prelude.Names.{first_ones, diff, inter}
use cluster_manager_das.Prelude.Names.Strip.{valid_nodes}
use cluster_manager_das.Prelude.Exec.{Result, ok, err, Exec, assert, continue, ◌>>◌}
use cluster_manager_das.Hostfile.{read_hostfile}
use cluster_manager_das.NodePool.State.{
  NodePool, deduplicate_and_sort, success, fix_constraints, validate_and_fix_constraints,
  persist_all_nodes, sync_normal_nodes,
}
use cluster_manager_das.NodePool.Marking.{
  add_total_nodes, extend_total, add_normal_nodes, restore_to_backup, reset_node_pool, reset_lists,
  reset_backup, release_runing_nodes,
}
use cluster_manager_das.Runtime.Proxy.{
  NodeSnapshot, NodePoolProxy, release_nodes, file_snapshot, on_pool,
}
use cluster_manager_das.Runtime.Apply.{
  Probe, Attempt, load_given, load_additional, added_nodes, note_added, resubmit_job,
}
use cluster_manager_das.Runtime.Apply.Rounds.{recover_nodes}

-- A method of the pool that leaves the running list as it is.
abbrev pub IsStill : {A : Type 0} → Exec NodePool A → Type 0
IsStill m = (p : NodePool) → (m p).1.running_nodes ≡ p.running_nodes

pub still_continue :
    {A B : Type 0} (r : Result A) (f : A → Exec NodePool B) (p q : NodePool)
    → ((a : A) → IsStill (f a))
    → p.running_nodes ≡ q.running_nodes
    → (continue r f p).1.running_nodes ≡ q.running_nodes
still_continue (ok a) f p q h e = h a p ∙ e
still_continue (err x) f p q h e = e

pub IsStill-asserts : (a b c d : Bool) → IsStill (assert a >> assert b >> assert c >> assert d)
IsStill-asserts false b c d p = refl
IsStill-asserts true false c d p = refl
IsStill-asserts true true false d p = refl
IsStill-asserts true true true false p = refl
IsStill-asserts true true true true p = refl

pub IsStill-validate : IsStill validate_and_fix_constraints
unfolding validate_and_fix_constraints fix_constraints
IsStill-validate p = IsStill-asserts _ _ _ _ (fix_constraints p)

-- The running list after a method is the given one.
abbrev pub IsLeft : {A : Type 0} → List String → Result {0} A × NodePool → Type 0
IsLeft xs o = o.1.running_nodes ≡ xs

-- The end of the methods that add nodes.
pub still_checked :
    {A : Type 0} (a : A) (p : NodePool)
    → (continue
        (validate_and_fix_constraints p).0
        (λ _ q. (ok a, persist_all_nodes q))
        (validate_and_fix_constraints p).1).1.running_nodes
      ≡ p.running_nodes
unfolding persist_all_nodes
still_checked a p =
    still_continue (validate_and_fix_constraints p).0 _ (validate_and_fix_constraints p).1 p
      (λ _ q. refl) (IsStill-validate p)

pub still_checked_unit :
    (p : NodePool)
    → (continue
        (validate_and_fix_constraints p).0
        (λ _ q. (ok tt, persist_all_nodes q))
        (validate_and_fix_constraints p).1).1.running_nodes
      ≡ p.running_nodes
still_checked_unit = still_checked tt

pub IsStill-add_total : (nodes : List String) → IsStill (add_total_nodes nodes)
unfolding add_total_nodes extend_total
IsStill-add_total nodes p = if_cases (IsLeft p.running_nodes) _ _ _ refl (still_checked _ _)

pub IsStill-add_normal : (nodes : List String) → IsStill (add_normal_nodes nodes)
unfolding add_normal_nodes restore_to_backup sync_normal_nodes
IsStill-add_normal nodes p =
    let restored = inter (deduplicate_and_sort nodes) p.abnormal_nodes in
    let changed = sync_normal_nodes (restore_to_backup restored p) in
    elim (Bool-cases (not (is_empty (diff (deduplicate_and_sort nodes) p.total_nodes)))) [
      | inl e ↦ rw e refl
      | inr e ↦ elim (Bool-cases (is_empty restored)) [
        | inl k ↦ rw (e, k) refl
        | inr k ↦ rw (e, k) (still_checked (success, true, restored) changed)
      ]
    ]

-- A reset leaves nothing running, whether it succeeds or raises.
pub none_reset :
    (total abnormal : List String) (p : NodePool)
    → (reset_node_pool total abnormal p).1.running_nodes ≡ []
unfolding reset_node_pool reset_lists reset_backup sync_normal_nodes
none_reset total abnormal p = if_cases (IsLeft []) _ _ _ (still_checked_unit _) refl

abbrev pub IsIdle : NodePoolProxy → Type 0
IsIdle x = x.node_pool.running_nodes ≡ []

pub IsIdle-filed :
    (now : ℕ) (nodes : List String) (o : Option NodeSnapshot) (x : NodePoolProxy)
    → IsIdle x
    → IsIdle (file_snapshot now nodes o x)
unfolding file_snapshot
IsIdle-filed now nodes none x h = h
IsIdle-filed now nodes (some s) x h = h

pub none_released :
    (p : NodePool) → p.running_nodes ≡ [] → (release_runing_nodes p).running_nodes ≡ []
unfolding release_runing_nodes persist_all_nodes
none_released p h = elim (Bool-cases (is_empty p.running_nodes)) [
  | inl e ↦ rw e h
  | inr e ↦ rw e refl
]

pub IsIdle-release : (now : ℕ) (x : NodePoolProxy) → IsIdle x → IsIdle (release_nodes now x)
unfolding release_nodes
IsIdle-release now x h =
    IsIdle-filed now x.node_pool.running_nodes x.current_snapshot
      (record x { node_pool = release_runing_nodes x.node_pool }) (none_released x.node_pool h)

pub IsIdle-resubmit :
    (attempts : List Attempt) (x : NodePoolProxy) → IsIdle x → IsIdle (resubmit_job attempts x).1
unfolding resubmit_job on_pool
IsIdle-resubmit [] x h = h
IsIdle-resubmit (a ∷ rest) x h = elim (Bool-cases (a.submitted || ltb 0 a.queued_after)) [
  | inl e ↦ rw e (none_reset (read_hostfile a.hostfile_lines) [] x.node_pool)
  | inr e ↦ rw e (IsIdle-resubmit rest x h)
]

pub IsIdle-added :
    (answer : Result (Option (List String))) (x : NodePoolProxy)
    → IsIdle x
    → IsIdle (added_nodes answer x).1
unfolding added_nodes note_added
IsIdle-added (err e) x h = h
IsIdle-added (ok none) x h = h
IsIdle-added (ok (some added)) x h = if_cases IsIdle _ _ _ h h

pub IsIdle-load :
    (check : List String → List String) (lines : Option (List String)) (x : NodePoolProxy)
    → IsIdle x
    → IsIdle (load_given check lines x).1
unfolding load_given load_additional on_pool
IsIdle-load check none x h = h
IsIdle-load check (some lines) x h =
    let passed = check (first_ones [] (valid_nodes lines)) in
    elim (Bool-cases (is_empty (valid_nodes lines) || is_empty passed)) [
      | inl e ↦ rw e h
      | inr e ↦ rw e (IsIdle-added _ _ (IsStill-add_total passed x.node_pool ∙ h))
    ]

pub IsIdle-recover :
    (probe : Probe) (x : NodePoolProxy) → IsIdle x → IsIdle (recover_nodes probe x).1
unfolding recover_nodes on_pool
IsIdle-recover probe x h = elim (Bool-cases (not probe.probe_ok || is_empty probe.healthy_nodes)) [
  | inl e ↦ rw e h
  | inr e ↦ rw e (IsStill-add_normal probe.healthy_nodes x.node_pool ∙ h)
]
