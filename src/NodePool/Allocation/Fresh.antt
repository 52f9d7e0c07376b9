-- ===== src/NodePool/Allocation/Fresh.antt =====
-- The nodes of a first allocation: the healthy ones first, then as many degraded ones as are missing.
use cluster_manager_das.Prelude.{
  ℕ, zero, suc, ◌+◌, ◌-◌, ◌≤◌, String, true, false, List, [], ◌∷◌, ◌≡◌, refl, ◌&&◌, not, arith,
  length, length-append, length-take, take, Bool-cases, inl, inr, eq_iff, leb,
}
use cluster_manager_das.Prelude.Names.{contains, remove, IsNodup}
use cluster_manager_das.Prelude.Names.Laws.{
  contains-append, contains-remove, IsNodup-append, IsNodup-remove, contains_congr,
}
use cluster_manager_das.Prelude.Exec.{ok}
use cluster_manager_das.NodePool.Allocation.Select.{remove_all, fresh_nodes}
use cluster_manager_das.NodePool.Allocation.Loop.{is_allowed}
use cluster_manager_das.NodePool.Allocation.Plan.{IsGrouped}

contains-take :
    (x : String) (n : ℕ) (xs : List String) → contains x (take n xs) ≡ true → contains x xs ≡ true
unfolding contains
contains-take x zero xs m = cc
contains-take x (suc n) [] m = cc
contains-take x (suc n) (y ∷ xs) m = ground (arith, contains-take x n xs)

IsNodup-take : (n : ℕ) (xs : List String) → IsNodup xs → IsNodup (take n xs)
IsNodup-take zero xs h = tt
IsNodup-take (suc n) [] h = tt
IsNodup-take (suc n) (x ∷ xs) h = (ground (arith, contains-take x n xs), IsNodup-take n xs h.1)

-- Removing nodes that are all there, each once, raises nothing.
pub remove_all_lem :
    (nodes standby new backup : List String)
    → IsNodup nodes
    → IsNodup backup
    → ((x : String) → contains x nodes ≡ true → contains x backup ≡ true)
    → (rest : List String) × (remove_all nodes
          (record { standby = standby; new = new; backup = backup })
        ≡ (ok tt, record { standby = standby; new = new; backup = rest }))
      × IsNodup rest
      × ((x : String) → contains x rest ≡ (contains x backup && not (contains x nodes)))
unfolding remove_all contains
remove_all_lem [] standby new backup n b sub = (backup, refl, b, λ x. ground arith)
remove_all_lem (y ∷ nodes) standby new backup n b sub =
    let there : contains y backup ≡ true = sub y (ground (arith, (eq_iff y y).1 refl)) in
    let (rest, run, d, same) =
      remove_all_lem nodes standby new (remove y backup) n.1 (IsNodup-remove y backup b) (λ x m.
        ground (arith, sub x, n.0, contains_congr y x nodes, contains-remove x y backup b)) in
    (rest, rw there run, d, λ x. ground (arith, same x, contains-remove x y backup b))

module _ (backup healthy degraded : List String) (g : IsGrouped backup healthy degraded) (n : ℕ)
    (fits : n ≤ length healthy + length degraded) where
  pub length-fresh_nodes : length (fresh_nodes n healthy degraded) ≡ n
  unfolding fresh_nodes
  length-fresh_nodes = omega (
    arith,
    length-append (take n healthy) (take (n - length (take n healthy)) degraded),
    length-take n healthy,
    length-take (n - length (take n healthy)) degraded,
  )

  pub fresh_nodes-IsNodup : IsNodup (fresh_nodes n healthy degraded)
  unfolding fresh_nodes
  fresh_nodes-IsNodup =
      IsNodup-append _ _ (IsNodup-take n healthy g.names_healthy.nodup)
        (IsNodup-take _ degraded g.names_degraded.nodup)
        λ x. ground (
          arith,
          contains-take x n healthy,
          contains-take x (n - length (take n healthy)) degraded,
          g.apart x,
        )

  -- Every chosen node is healthy or degraded, and healthy where the healthy ones suffice.
  pub fresh_nodes_allowed :
      (x : String)
      → contains x (fresh_nodes n healthy degraded) ≡ true
      → is_allowed healthy degraded (not (leb n (length healthy))) x ≡ true
  unfolding fresh_nodes
  fresh_nodes_allowed x m = elim (Bool-cases (leb n (length healthy))) [
    | inl e ↦
        let none_left : n - length (take n healthy) ≡ 0 = ground (arith, length-take n healthy) in
        let nothing : contains x (take (n - length (take n healthy)) degraded) ≡ false =
          rw none_left (unfold contains in refl) in
        rw e (
          ground (
            arith,
            contains-append x (take n healthy) (take (n - length (take n healthy)) degraded),
            contains-take x n healthy,
            nothing,
          ))
    | inr e ↦ rw e (
        ground (
          arith,
          contains-append x (take n healthy) (take (n - length (take n healthy)) degraded),
          contains-take x n healthy,
          contains-take x (n - length (take n healthy)) degraded,
        ))
  ]
