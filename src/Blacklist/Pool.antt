-- ===== src/Blacklist/Pool.antt =====
-- The node pool with the program's own blacklist behind it.
use cluster_manager_das.Prelude.{
  ℕ, zero, suc, ◌+◌, ◌-◌, ◌≤◌, String, true, false, ◌&&◌, ◌||◌, not, List, [], ◌∷◌, ◌++◌, Option,
  none, some, ◌≡◌, refl, arith, length, take, length-append, head?, Bool-cases, inl, inr,
  if◌then◌else◌,
}
use cluster_manager_das.Prelude.Names.{contains, first_ones, inter, IsNodup}
use cluster_manager_das.Prelude.Names.Laws.{contains-append, IsNodup-append}
use cluster_manager_das.Prelude.Names.Counting.{length-le_of_subset}
use cluster_manager_das.Prelude.Exec.{ok}
use cluster_manager_das.NodePool.State.{NodePool, deduplicate_and_sort}
use cluster_manager_das.NodePool.Partition.Rules.{IsPartition}
use cluster_manager_das.NodePool.Allocation.{
  apply_node_num_resources, get_available_nodes_with_blacklist, group_candidates,
}
use cluster_manager_das.NodePool.Allocation.Promise.{
  IsAllotted, groups, contains-group, apply_node_num_resources_allots,
}
use cluster_manager_das.Blacklist.Floats.{Floats}
use cluster_manager_das.Blacklist.Records.{BlacklistConfig, NodeRecord}
use cluster_manager_das.Blacklist.Scoring.{
  get_scored_nodes, sort_by_availability, insert_scored, ScoredNode,
}
use cluster_manager_das.Blacklist.Manager.{
  Nodes, BlacklistManager, find_node, fatal_node, is_listed, unlisted, add_recoverable, recoverable,
  fill_up, allocate_nodes,
}
use cluster_manager_das.Blacklist.Lawful.{
  keys, names_of, is_usable, asked, holds_fatal, contains-unlisted, contains-recoverable,
  contains-first_ones, contains-sort_by_availability, names-get_scored_nodes,
  allocate_nodes-IsLawful, same_node,
}

-- The names that the blacklist does not hold as fatal.
unfoldable pub safe : {F : Type 0} → BlacklistManager F → List String → List String
unfolding find_node fatal_node
safe m [] = []
safe m (x ∷ xs) =
    let rest = safe m xs in if fatal_node (find_node x m.nodes) then rest else x ∷ rest

pub take_all : (n : ℕ) (xs : List String) → length xs ≤ n → take n xs ≡ xs
take_all zero [] h = refl
take_all zero (x ∷ xs) h = ground arith
take_all (suc n) [] h = refl
take_all (suc n) (x ∷ xs) h = rw (take_all n xs (omega (arith, h))) refl

module _ {F : Type 0} where
  contains-safe :
      (x : String) (m : BlacklistManager F) (xs : List String)
      → contains x (safe m xs) ≡ (contains x xs && not (fatal_node (find_node x m.nodes)))
  unfolding contains safe
  contains-safe x m [] = refl
  contains-safe x m (c ∷ cs) =
      ground (arith, contains-safe x m cs, same_node fatal_node c x m.nodes)

  IsNodup-safe : (m : BlacklistManager F) (xs : List String) → IsNodup xs → IsNodup (safe m xs)
  unfolding safe
  IsNodup-safe m [] h = tt
  IsNodup-safe m (x ∷ xs) h = ground (arith, IsNodup-safe m xs h.1, contains-safe x m xs, h.0)

  length-add_recoverable :
      (c : String) (o : Option (NodeRecord F)) (rest : Nodes F)
      → (if is_listed o then 0 else 1) + length (keys (add_recoverable c o rest))
        ≤ 1 + length (keys rest)
  unfolding add_recoverable is_listed
  length-add_recoverable c none rest = omega arith
  length-add_recoverable c (some node) rest = ground arith

  -- No candidate is both unlisted and recoverable.
  length-unseen :
      (nodes : Nodes F) (seen candidates : List String)
      → length (unlisted nodes candidates)
          + length (keys (recoverable nodes (first_ones seen candidates)))
        ≤ length candidates
  unfolding unlisted recoverable first_ones
  length-unseen nodes seen [] = omega arith
  length-unseen nodes seen (c ∷ cs) = elim (Bool-cases (contains c seen)) [
    | inl e ↦ rw e (ground (arith, length-unseen nodes seen cs))
    | inr e ↦ rw e (
        ground (
          arith,
          length-add_recoverable c (find_node c nodes)
              (recoverable nodes (first_ones (c ∷ seen) cs)),
          length-unseen nodes (c ∷ seen) cs,
        ))
  ]

  pub safe_cases : (o : Option (NodeRecord F)) → fatal_node o ≡ false → is_usable o ≡ is_listed o
  unfolding fatal_node is_listed
  safe_cases none h = refl
  safe_cases (some node) h = ground arith

module _ {F : Type 0} ⦃f : Floats F⦄ where
  length-insert_scored :
      (a : ScoredNode F) (bs : List (ScoredNode F))
      → length (names_of (insert_scored a bs)) ≡ 1 + length (names_of bs)
  unfolding insert_scored
  length-insert_scored a [] = refl
  length-insert_scored a (b ∷ bs) = ground (arith, length-insert_scored a bs)

  pub length-sort_by_availability :
      (scored : List (ScoredNode F))
      → length (names_of (sort_by_availability scored)) ≡ length (names_of scored)
  unfolding sort_by_availability
  length-sort_by_availability [] = refl
  length-sort_by_availability (a ∷ rest) =
      omega (
        arith,
        length-insert_scored a (sort_by_availability rest),
        length-sort_by_availability rest,
      )

  -- Asked for as many nodes as it is offered, the blacklist leaves no usable node out.
  pub contains-fill_up :
      (cfg : BlacklistConfig F) (now shortage : ℕ) (nodes : Nodes F) (x : String)
      → length (keys nodes) ≤ shortage
      → contains x (fill_up cfg now shortage nodes) ≡ contains x (keys nodes)
  unfolding fill_up
  contains-fill_up cfg now shortage nodes x enough =
      let scored = get_scored_nodes cfg now nodes in
      let same : names_of scored ≡ keys nodes = names-get_scored_nodes cfg now nodes in
      let fits : length (names_of (sort_by_availability scored)) ≤ shortage =
        rw (length-sort_by_availability scored, same) enough in
      rw (take_all shortage _ fits, contains-sort_by_availability x scored, same) refl

  -- Where the pool asks for a place for each of its backup nodes, what the blacklist does not hold as
  -- fatal is offered.
  offered_lem :
      (now : ℕ) (m : BlacklistManager F) (backup : List String) (x : String)
      → contains x (safe m backup) ≡ true
      → let r = (allocate_nodes now backup (length backup) m).0 in
        (contains x r.healthy_nodes || contains x r.backup_nodes) ≡ true
  unfolding allocate_nodes
  offered_lem now m backup x s =
      let shortage = length backup - length (unlisted m.nodes backup) in
      ground (
        arith,
        contains-safe x m backup,
        contains-unlisted x m.nodes backup,
        contains-recoverable x m.nodes (first_ones [] backup),
        contains-first_ones x backup,
        safe_cases (find_node x m.nodes),
        contains-fill_up m.config now shortage (recoverable m.nodes (first_ones [] backup)) x
            (omega (arith, length-unseen m.nodes [] backup)),
      )

  counted_lem :
      (now : ℕ) (m : BlacklistManager F) (p : NodePool) (h : IsPartition p) (x : String)
      → contains x (safe m p.backup_nodes) ≡ true
      → let a = get_available_nodes_with_blacklist (asked now m) p.backup_nodes in
        contains x (a.healthy ++ a.degraded) ≡ true
  unfolding get_available_nodes_with_blacklist group_candidates
  counted_lem now m p h x s =
      let backup = p.backup_nodes in
      let r = (allocate_nodes now backup (length backup) m).0 in
      ground (
        arith,
        offered_lem now m backup x s,
        contains-safe x m backup,
        contains-append x (deduplicate_and_sort (inter r.healthy_nodes backup))
            (deduplicate_and_sort (inter r.backup_nodes backup)),
        contains-group backup h.names_backup r.healthy_nodes x,
        contains-group backup h.names_backup r.backup_nodes x,
      )

  -- The pool counts every backup node that is not fatal.
  pub length-safe :
      (now : ℕ) (m : BlacklistManager F) (p : NodePool)
      → IsPartition p
      → let a = get_available_nodes_with_blacklist (asked now m) p.backup_nodes in
        length (safe m p.backup_nodes) ≤ length a.healthy + length a.degraded
  length-safe now m p h =
      let a = get_available_nodes_with_blacklist (asked now m) p.backup_nodes in
      let g = groups (asked now m) (holds_fatal m) (allocate_nodes-IsLawful now m) p h in
      let sub : (x : String)
          → contains x (safe m p.backup_nodes) ≡ true
          → contains x (a.healthy ++ a.degraded) ≡ true =
        λ x s. counted_lem now m p h x s in
      omega (
        arith,
        length-append a.healthy a.degraded,
        length-le_of_subset (safe m p.backup_nodes) (a.healthy ++ a.degraded)
            (IsNodup-safe m p.backup_nodes h.names_backup.nodup)
            (IsNodup-append a.healthy a.degraded g.names_healthy.nodup g.names_degraded.nodup
              g.apart)
            sub,
      )

  -- With the program's own blacklist, and a pool that follows its rules, a request for as many
  -- nodes as the backup list has that are not fatal on it, or fewer, with positive slots and a
  -- slots file that can be written, succeeds by the rules of a request: exactly the wanted number
  -- of backup nodes, none of them fatal on the blacklist.
  pub apply_node_num_resources_served :
      (now : ℕ) (m : BlacklistManager F) (p : NodePool) (n slots : ℕ)
      → IsPartition p
      → n ≤ length (safe m p.backup_nodes)
      → 1 ≤ slots
      → p.disk.slots_writable ≡ true
      → (new : List String) × (q : NodePool) × (apply_node_num_resources (asked now m) n slots p
          ≡ (ok (some (head? (p.running_nodes ++ new))), q))
        × IsAllotted (asked now m) (holds_fatal m) p n new q
  apply_node_num_resources_served now m p n slots h few positive writable =
      let law = allocate_nodes-IsLawful now m in
      apply_node_num_resources_allots (asked now m) (holds_fatal m) law p h
        (allocate_nodes now p.backup_nodes (length p.backup_nodes) m).0 refl n slots
        (omega (arith, length-safe now m p h)) positive writable
