-- ===== src/Topology/Examples.antt =====
-- Small layouts of ranks.
use cluster_manager_das.Prelude.{ℕ, true, false, List, [], ◌∷◌, none, ◌≡◌, refl, inl, arith}
use cluster_manager_das.Prelude.Exec.{ok, err, value_error}
use cluster_manager_das.Topology.Ranks.{generate_masked_orthogonal_rank_groups, rank_at, enabled}
use cluster_manager_das.Topology.Digits.{product, place}
use cluster_manager_das.Topology.Groups.{
  IsSharedOut, rank_at-place, generate_masked_orthogonal_rank_groups-IsSharedOut,
}
use cluster_manager_das.Topology.Layout.{ParallelTopology, Layout, dp_of, infer_parallel_topology}
use cluster_manager_das.Topology.Generated.{IsTopology}
use cluster_manager_das.Topology.Inferred.{
  infer_parallel_topology_shares, infer_parallel_topology_refuses,
}

abbrev two_by_three : List ℕ
two_by_three = 2 ∷ 3 ∷ []

rank_at-place_example :
    rank_at two_by_three (true ∷ false ∷ []) 2 1 ≡ place two_by_three (true ∷ false ∷ []) 2 1
rank_at-place_example = rank_at-place two_by_three (true ∷ false ∷ []) 2 1 refl

generate_masked_orthogonal_rank_groups-IsSharedOut_example :
    IsSharedOut (product two_by_three) (product (enabled two_by_three (false ∷ true ∷ []))) (
      generate_masked_orthogonal_rank_groups
        (product two_by_three)
        two_by_three
        (false ∷ true ∷ []))
generate_masked_orthogonal_rank_groups-IsSharedOut_example =
    generate_masked_orthogonal_rank_groups-IsSharedOut two_by_three (false ∷ true ∷ [])
      (omega arith, (omega arith, tt)) refl

-- Two pipeline stages of two tensor ranks each, with the data dimension left to the program.
abbrev layout : Layout
layout = record {
  pp_size = 2;
  tp_size = 2;
  dp_size = none;
  cp_size = 1;
  ep_size = 1;
  order = none;
  use_tp_pp_dp_mapping = false;
}

abbrev context_layout : Layout
context_layout = record layout { cp_size = 2 }

infer_parallel_topology_shares_example :
    (t : ParallelTopology) × (infer_parallel_topology 8 layout ≡ ok t) × IsTopology 8 2 2 2 t
unfolding dp_of
infer_parallel_topology_shares_example =
    infer_parallel_topology_shares 8 2 layout
      (omega arith, omega arith, omega arith, omega arith, omega arith) refl (inl refl) refl refl

infer_parallel_topology_refuses_example : infer_parallel_topology 8 context_layout ≡ err value_error
infer_parallel_topology_refuses_example =
    infer_parallel_topology_refuses 8 context_layout refl (omega arith) (omega arith)
