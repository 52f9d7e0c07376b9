-- ===== src/Topology/Ranks.antt =====
-- `generate_masked_orthogonal_rank_groups` and its helpers.
use cluster_manager_das.Prelude.{
  ℕ, zero, suc, ◌+◌, ◌*◌, ◌/◌, ◌%◌, Bool, List, [], ◌∷◌, map, if◌then◌else◌,
}

-- `prefix_product(values, init)`
unfoldable pub prefix_product : List ℕ → ℕ → List ℕ
prefix_product [] init = init ∷ []
prefix_product (value ∷ values) init = init ∷ prefix_product values (init * value)

-- `inner_product`, over the pairs of `zip`
unfoldable pub inner_product : List ℕ → List ℕ → ℕ
inner_product (x ∷ xs) (y ∷ ys) = x * y + inner_product xs ys
inner_product _ _ = 0

-- The digits of `decompose`, over the pairs of `zip`.
unfoldable pub digits : ℕ → List ℕ → List ℕ → List ℕ
digits index (size ∷ shape) (step ∷ stride) = (index / step) % size ∷ digits index shape stride
digits index _ _ = []

-- `decompose(index, shape)`, whose stride is `prefix_product(shape)`
unfoldable pub decompose : ℕ → List ℕ → List ℕ
unfolding digits prefix_product
decompose index shape = digits index shape (prefix_product shape 1)

-- `[x for x, enabled in zip(xs, mask) if enabled]`
unfoldable pub enabled : List ℕ → List Bool → List ℕ
enabled (x ∷ xs) (b ∷ mask) = let rest = enabled xs mask in if b then x ∷ rest else rest
enabled _ _ = []

-- `[x for x, enabled in zip(xs, mask) if not enabled]`
unfoldable pub disabled : List ℕ → List Bool → List ℕ
disabled (x ∷ xs) (b ∷ mask) = let rest = disabled xs mask in if b then rest else x ∷ rest
disabled _ _ = []

-- `values[-1]` of a list that `prefix_product` gives, which is never empty.
unfoldable pub last_of : List ℕ → ℕ
last_of [] = 0
last_of (x ∷ []) = x
last_of (x ∷ y ∷ ys) = last_of (y ∷ ys)

-- `range(first, first + count)`
unfoldable pub range_from : ℕ → ℕ → List ℕ
range_from first zero = []
range_from first (suc count) = first ∷ range_from (first + 1) count

-- One rank: `rank_in_group` in the group `group_index`.
unfoldable pub rank_at : List ℕ → List Bool → ℕ → ℕ → ℕ
unfolding decompose inner_product enabled disabled prefix_product
rank_at parallel_size mask group_index rank_in_group =
    let stride = prefix_product parallel_size 1 in
    inner_product (decompose rank_in_group (enabled parallel_size mask)) (enabled stride mask)
    + inner_product (decompose group_index (disabled parallel_size mask)) (disabled stride mask)

-- `generate_masked_orthogonal_rank_groups`
unfoldable pub generate_masked_orthogonal_rank_groups : ℕ → List ℕ → List Bool → List (List ℕ)
unfolding rank_at last_of range_from
generate_masked_orthogonal_rank_groups world_size parallel_size mask =
    let group_size = last_of (prefix_product (enabled parallel_size mask) 1) in
    map (λ g. map (rank_at parallel_size mask g) (range_from 0 group_size))
      (range_from 0 (world_size / group_size))
