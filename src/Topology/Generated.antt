-- ===== src/Topology/Generated.antt =====
-- The topology of a generator, and the generators of the two orders that the program uses itself.
use cluster_manager_das.Prelude.{
  ℕ, ◌*◌, ◌≤◌, ◌<◌, String, Bool, true, false, not, ◌&&◌, List, [], ◌∷◌, ◌≡◌, refl, inl, inr, arith,
  length, nat_eq, ltb, if◌then◌else◌, Bool-cases,
}
use cluster_manager_das.Prelude.Exec.{ok}
use cluster_manager_das.Topology.Tokens.{lower, split_on, is_within, is_prefix, replaced_by}
use cluster_manager_das.Topology.Ranks.{generate_masked_orthogonal_rank_groups, enabled}
use cluster_manager_das.Topology.Digits.{product}
use cluster_manager_das.Topology.Place.{AllPositive}
use cluster_manager_das.Topology.Groups.{
  IsSharedOut, generate_masked_orthogonal_rank_groups-IsSharedOut,
}
use cluster_manager_das.Topology.Layout.{
  ParallelTopology, MegatronRankGenerator, new_generator, complete_order, size_of, sizes_of, mark,
  mark_all, get_ranks, topology_of,
}

-- The generator of a default order: the sizes in the order of the tokens.
pub default_generator :
    (tp ep dp pp cp : ℕ)
    → (not (nat_eq ep 1) && not (nat_eq cp 1)) ≡ false
    → new_generator tp ep dp pp cp "tp-cp-ep-dp-pp"
      ≡ ok (record {
        rank_offset = 0;
        world_size = tp * dp * pp * cp * ep;
        order = "tp-cp-ep-dp-pp";
        ordered_size = tp ∷ cp ∷ ep ∷ dp ∷ pp ∷ [];
      })
unfolding new_generator complete_order sizes_of size_of lower replaced_by split_on is_within
    is_prefix
default_generator tp ep dp pp cp e = rw e refl

pub mapped_generator :
    (tp ep dp pp cp : ℕ)
    → (not (nat_eq ep 1) && not (nat_eq cp 1)) ≡ false
    → new_generator tp ep dp pp cp "tp-cp-ep-pp-dp"
      ≡ ok (record {
        rank_offset = 0;
        world_size = tp * dp * pp * cp * ep;
        order = "tp-cp-ep-pp-dp";
        ordered_size = tp ∷ cp ∷ ep ∷ pp ∷ dp ∷ [];
      })
unfolding new_generator complete_order sizes_of size_of lower replaced_by split_on is_within
    is_prefix
mapped_generator tp ep dp pp cp e = rw e refl

-- The topology of `world_size` ranks: the groups of each dimension share out the ranks, and there are
-- no groups of a tensor dimension with one rank.
pub record IsTopology (world_size pp tp dp : ℕ) (t : ParallelTopology) : Type 0 where
  pub pp_shared : IsSharedOut world_size pp t.pp_groups
  pub dp_shared : IsSharedOut world_size dp t.dp_groups
  pub tp_shared : 1 < tp → IsSharedOut world_size tp t.tp_groups
  pub tp_none : tp ≤ 1 → t.tp_groups ≡ []

pub shared :
    (world_size size : ℕ) (sizes : List ℕ) (mask : List Bool)
    → AllPositive sizes
    → length sizes ≡ length mask
    → product sizes ≡ world_size
    → product (enabled sizes mask) ≡ size
    → IsSharedOut world_size size (generate_masked_orthogonal_rank_groups world_size sizes mask)
shared world_size size sizes mask h e p q =
    rw (← p, ← q) (generate_masked_orthogonal_rank_groups-IsSharedOut sizes mask h e)

-- Where the dimensions of a token are marked, its ranks are the groups of that mask.
pub tensor_groups :
    (tp world_size : ℕ) (sizes : List ℕ) (mask : List Bool)
    → AllPositive sizes
    → length sizes ≡ length mask
    → product sizes ≡ world_size
    → product (enabled sizes mask) ≡ tp
    → (groups : List (List ℕ)) × ((if ltb 1 tp
          then ok (generate_masked_orthogonal_rank_groups world_size sizes mask)
          else ok [])
        ≡ ok groups)
      × (1 < tp → IsSharedOut world_size tp groups)
      × (tp ≤ 1 → groups ≡ [])
tensor_groups tp world_size sizes mask h e p q = elim (Bool-cases (ltb 1 tp)) [
  | inl c ↦ (
    generate_masked_orthogonal_rank_groups world_size sizes mask,
    rw c refl,
    λ m. shared world_size tp sizes mask h e p q,
    λ m. elim (not_both tp m c) [ ],
  )
  | inr c ↦ ([], rw c refl, λ m. elim (not_neither tp m c) [ ], λ m. refl)
]
  where
    not_both : (n : ℕ) → n ≤ 1 → ltb 1 n ≡ true → ⊥
    not_both n m c = ground (arith, m, c)

    not_neither : (n : ℕ) → 1 < n → ltb 1 n ≡ false → ⊥
    not_neither n m c = ground (arith, m, c)

-- A generator without an offset.
abbrev pub generator_of : ℕ → String → List ℕ → MegatronRankGenerator
generator_of world_size order sizes = record {
  rank_offset = 0;
  world_size = world_size;
  order = order;
  ordered_size = sizes;
}

-- A mask that enables one dimension, of the given size.
abbrev pub IsMaskOf : ℕ → List ℕ → List Bool → Type 0
IsMaskOf size sizes mask = (length sizes ≡ length mask) × (product (enabled sizes mask) ≡ size)

-- The topology of a generator that marks one dimension for each token.
pub topology_lem :
    (tp pp dp world : ℕ) (order : String) (sizes : List ℕ) (tp_mask pp_mask dp_mask : List Bool)
    → AllPositive sizes
    → product sizes ≡ world
    → IsMaskOf tp sizes tp_mask
    → IsMaskOf pp sizes pp_mask
    → IsMaskOf dp sizes dp_mask
    → let g = generator_of world order sizes in
      (get_ranks "tp" g ≡ ok (generate_masked_orthogonal_rank_groups world sizes tp_mask))
      → (get_ranks "pp" g ≡ ok (generate_masked_orthogonal_rank_groups world sizes pp_mask))
      → (get_ranks "dp" g ≡ ok (generate_masked_orthogonal_rank_groups world sizes dp_mask))
      → (t : ParallelTopology) × (topology_of tp g ≡ ok t) × IsTopology world pp tp dp t
unfolding topology_of
topology_lem tp pp dp world order sizes tp_mask pp_mask dp_mask h all mt mp md et ep ed =
    let (tensor, e, many, one) = tensor_groups tp world sizes tp_mask h mt.0 all mt.1 in
    (
      record {
        pp_groups = generate_masked_orthogonal_rank_groups world sizes pp_mask;
        tp_groups = tensor;
        dp_groups = generate_masked_orthogonal_rank_groups world sizes dp_mask;
      },
      rw (et, ep, ed, e) refl,
      record {
        pp_shared = shared world pp sizes pp_mask h mp.0 all mp.1;
        dp_shared = shared world dp sizes dp_mask h md.0 all md.1;
        tp_shared = many;
        tp_none = one;
      },
    )

abbrev pub tp_first : List Bool
tp_first = true ∷ false ∷ false ∷ false ∷ false ∷ []

abbrev pub fourth : List Bool
fourth = false ∷ false ∷ false ∷ true ∷ false ∷ []

abbrev pub fifth : List Bool
fifth = false ∷ false ∷ false ∷ false ∷ true ∷ []

module _ (tp ep dp pp cp : ℕ)
    (positive : (1 ≤ tp) × (1 ≤ cp) × (1 ≤ ep) × (1 ≤ dp) × (1 ≤ pp)) where
  pub default-IsTopology :
      (t : ParallelTopology) × (topology_of tp
          (generator_of (tp * dp * pp * cp * ep) "tp-cp-ep-dp-pp" (tp ∷ cp ∷ ep ∷ dp ∷ pp ∷ []))
        ≡ ok t)
      × IsTopology (tp * dp * pp * cp * ep) pp tp dp t
  unfolding get_ranks mark_all mark split_on product enabled
  default-IsTopology =
      let (t, c, e, d, p) = positive in
      topology_lem tp pp dp (tp * dp * pp * cp * ep) "tp-cp-ep-dp-pp" (tp ∷ cp ∷ ep ∷ dp ∷ pp ∷ [])
        tp_first fifth fourth (t, (c, (e, (d, (p, tt))))) (grind arith) (refl, grind arith)
        (refl, grind arith) (refl, grind arith) refl refl refl

  pub mapped-IsTopology :
      (t : ParallelTopology) × (topology_of tp
          (generator_of (tp * dp * pp * cp * ep) "tp-cp-ep-pp-dp" (tp ∷ cp ∷ ep ∷ pp ∷ dp ∷ []))
        ≡ ok t)
      × IsTopology (tp * dp * pp * cp * ep) pp tp dp t
  unfolding get_ranks mark_all mark split_on product enabled
  mapped-IsTopology =
      let (t, c, e, d, p) = positive in
      topology_lem tp pp dp (tp * dp * pp * cp * ep) "tp-cp-ep-pp-dp" (tp ∷ cp ∷ ep ∷ pp ∷ dp ∷ [])
        tp_first fourth fifth (t, (c, (e, (p, (d, tt))))) (grind arith) (refl, grind arith)
        (refl, grind arith) (refl, grind arith) refl refl refl
