-- ===== src/NodePool/Partition/Marking.antt =====
-- `add_abnormal_nodes` and its callers: what is accepted, what is refused, and that the rules hold.
use cluster_manager_das.Prelude.{
  String, true, false, List, ◌≡◌, refl, ◌⊎◌, inl, inr, ◌&&◌, not, arith, is_empty, none, Bool-cases,
}
use cluster_manager_das.Prelude.Names.{contains, inter, diff}
use cluster_manager_das.Prelude.Names.Laws.{contains-inter}
use cluster_manager_das.Prelude.Exec.{ok}
use cluster_manager_das.NodePool.State.{NodePool, deduplicate_and_sort}
use cluster_manager_das.NodePool.Marking.{
  mark_abnormal, add_abnormal_nodes, validate_abnormal_candidates,
}
use cluster_manager_das.NodePool.Partition.Names.{
  IsNames-deduplicate_and_sort, contains-of_is_empty, contains-of_diff, is_empty-diff,
  is_empty-inter,
}
use cluster_manager_das.NodePool.Partition.Rules.{IsPartition, Kept}
use cluster_manager_das.NodePool.Partition.Marked.{
  IsMarked, marked_answer, mark_abnormal_lem, after_marking, after_marking-IsPartition,
  after_marking-IsMarked,
}

-- In a pool that follows its rules, marking one or more nodes of the total, none of them abnormal
-- yet, succeeds: the answer names them and those of them that ran, the rules hold after it, and the
-- lists are as `IsMarked` says.
pub add_abnormal_nodes_accepts :
    (p : NodePool) (nodes : List String)
    → IsPartition p
    → is_empty (deduplicate_and_sort nodes) ≡ false
    → ((x : String)
        → contains x (deduplicate_and_sort nodes) ≡ true
        → (contains x p.total_nodes ≡ true) × (contains x p.abnormal_nodes ≡ false))
    → (q : NodePool) × (add_abnormal_nodes nodes p
        ≡ (ok (marked_answer (deduplicate_and_sort nodes) p), q))
      × IsPartition q
      × IsMarked (deduplicate_and_sort nodes) p q
unfolding add_abnormal_nodes validate_abnormal_candidates
add_abnormal_nodes_accepts p nodes h some_node fit =
    let valid = deduplicate_and_sort nodes in
    let v = IsNames-deduplicate_and_sort nodes in
    let sub = λ (x : String) (m : contains x valid ≡ true). (fit x m).0 in
    (
      after_marking p h valid v sub,
      rw
          (
            is_empty-diff valid p.total_nodes sub,
            is_empty-inter valid p.abnormal_nodes (λ x. ground (arith, fit x)),
            some_node,
          )
          (mark_abnormal_lem p h valid v sub),
      after_marking-IsPartition p h valid v sub,
      after_marking-IsMarked p h valid v sub,
    )

-- Marking is refused, and changes nothing, where the list is empty after cleaning, or holds a node
-- outside the total or one that is abnormal already.
pub add_abnormal_nodes_refuses :
    (p : NodePool) (nodes : List String) (x : String)
    → ((contains x (deduplicate_and_sort nodes) ≡ true)
        × ((contains x p.total_nodes && not (contains x p.abnormal_nodes)) ≡ false))
      ⊎ (is_empty (deduplicate_and_sort nodes) ≡ true)
    → add_abnormal_nodes nodes p ≡ (ok (false, false, none, none), p)
unfolding add_abnormal_nodes validate_abnormal_candidates
add_abnormal_nodes_refuses p nodes x why =
    let valid = deduplicate_and_sort nodes in
    ground (
      arith,
      contains-of_diff x valid p.total_nodes,
      contains-inter x valid p.abnormal_nodes,
      contains-of_is_empty x (inter valid p.abnormal_nodes),
    )

module _ (p : NodePool) (h : IsPartition p) where
  -- Whatever the nodes, marking raises nothing and keeps the rules.
  pub add_abnormal_nodes-Kept : (nodes : List String) → Kept (add_abnormal_nodes nodes p)
  unfolding add_abnormal_nodes validate_abnormal_candidates
  add_abnormal_nodes-Kept nodes = elim (Bool-cases (is_empty (diff valid p.total_nodes))) [
    | inr e ↦ rw e (record { value = _; returned = refl; partition = h })
    | inl e ↦ rw e (elim (Bool-cases (is_empty (inter valid p.abnormal_nodes))) [
      | inr f ↦ rw f (record { value = _; returned = refl; partition = h })
      | inl f ↦ rw f (elim (Bool-cases (is_empty valid)) [
        | inl g ↦ rw g (record { value = _; returned = refl; partition = h })
        | inr g ↦ rw g (marks e)
      ])
    ])
  ]
    where
      valid : List String
      valid = deduplicate_and_sort nodes

      marks : is_empty (diff valid p.total_nodes) ≡ true → Kept (mark_abnormal valid p)
      marks e =
          let v = IsNames-deduplicate_and_sort nodes in
          let sub = λ (x : String). contains-of_diff x valid p.total_nodes e in
          rw (mark_abnormal_lem p h valid v sub) (record {
            value = _;
            returned = refl;
            partition = after_marking-IsPartition p h valid v sub;
          })
