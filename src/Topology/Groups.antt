-- ===== src/Topology/Groups.antt =====
-- The groups that `generate_masked_orthogonal_rank_groups` gives share out the ranks.
use mathlib.Core.Path.{subst}
use mathlib.Core.Option.{some-injective}
use native.Mathlib.Nat.{mul-div_cancel_left, mul_left_comm, mul_assoc}
use cluster_manager_das.Prelude.{
  ℕ, zero, suc, ◌+◌, ◌*◌, ◌/◌, ◌<◌, Bool, true, false, List, [], ◌∷◌, some, ◌≡◌, refl, sym, ap, ◌∙◌,
  arith, length, get_elem?, map,
}
use cluster_manager_das.Topology.Ranks.{
  prefix_product, enabled, disabled, last_of, range_from, rank_at,
  generate_masked_orthogonal_rank_groups,
}
use cluster_manager_das.Topology.Digits.{product, place, rank_from}
use cluster_manager_das.Topology.Place.{
  AllPositive, group_of, index_of, place-lt, group_of-lt, index_of-lt, place-group_of,
  group_of-place,
}

-- The groups share out the ranks below `world_size`: each has `group_size` ranks, and each rank below
-- `world_size`, and no other, stands in one group at one place.
pub record IsSharedOut (world_size group_size : ℕ) (groups : List (List ℕ)) : Type 0 where
  pub counted :
      (g : ℕ) (ranks : List ℕ) → get_elem? groups g ≡ some ranks → length ranks ≡ group_size
  pub covered :
      (r : ℕ)
      → r < world_size
      → (g i : ℕ) × (ranks : List ℕ) × (get_elem? groups g ≡ some ranks)
        × (get_elem? ranks i ≡ some r)
  pub bounded :
      (g i r : ℕ) (ranks : List ℕ)
      → get_elem? groups g ≡ some ranks
      → get_elem? ranks i ≡ some r
      → r < world_size
  pub single :
      (g i h j r : ℕ) (ranks others : List ℕ)
      → get_elem? groups g ≡ some ranks
      → get_elem? ranks i ≡ some r
      → get_elem? groups h ≡ some others
      → get_elem? others j ≡ some r
      → (g ≡ h) × (i ≡ j)

absurd_lt : (k : ℕ) → k < 0 → ⊥
absurd_lt k h = omega (arith, h)

module _ {A : Type 0} (f : ℕ → A) where
  length-range_from : (first count : ℕ) → length (map f (range_from first count)) ≡ count
  unfolding range_from
  length-range_from first zero = refl
  length-range_from first (suc count) = omega (arith, length-range_from (first + 1) count)

  get_range_from :
      (first count k : ℕ)
      → k < count
      → get_elem? (map f (range_from first count)) k ≡ some (f (first + k))
  unfolding range_from
  get_range_from first zero k h = elim (absurd_lt k h) [ ]
  get_range_from first (suc count) zero h = ap (λ n. some (f n)) (omega arith)
  get_range_from first (suc count) (suc k) h =
      get_range_from (first + 1) count k (omega (arith, h)) ∙ ap (λ n. some (f n)) (omega arith)

  got_range_from :
      (first count k : ℕ) (x : A)
      → get_elem? (map f (range_from first count)) k ≡ some x
      → k < count
  unfolding range_from
  got_range_from first zero k x h = cc
  got_range_from first (suc count) zero x h = omega arith
  got_range_from first (suc count) (suc k) x h =
      omega (arith, got_range_from (first + 1) count k x h)

  -- What stands at a place of a mapped range.
  at_range :
      (count k : ℕ) (x : A)
      → get_elem? (map f (range_from 0 count)) k ≡ some x
      → (k < count) × (f k ≡ x)
  at_range count k x h =
      let small = got_range_from 0 count k x h in
      let there = get_range_from 0 count k small in
      (small, some-injective _ _ (ap (λ n. some (f n)) (omega arith) ∙ sym there ∙ h))

last_of_later :
    (x : ℕ) (xs : List ℕ) (init : ℕ)
    → last_of (x ∷ prefix_product xs init) ≡ last_of (prefix_product xs init)
unfolding last_of prefix_product
last_of_later x [] init = refl
last_of_later x (y ∷ ys) init = refl

last_of-prefix_product :
    (xs : List ℕ) (init : ℕ) → last_of (prefix_product xs init) ≡ init * product xs
unfolding prefix_product product last_of
last_of-prefix_product [] init = omega arith
last_of-prefix_product (x ∷ xs) init =
    last_of_later init xs (init * x) ∙ last_of-prefix_product xs (init * x) ∙ grind arith

mul_swap : (a s b p : ℕ) → a * b ≡ p → a * (s * b) ≡ s * p
mul_swap a s b p e = mul_left_comm a s b ∙ ap (λ n. s * n) e

mul_first : (a s b p : ℕ) → a * b ≡ p → s * a * b ≡ s * p
mul_first a s b p e = mul_assoc s a b ∙ ap (λ n. s * n) e

-- The sizes of the groups and their number multiply to the number of ranks.
product_split :
    (sizes : List ℕ) (mask : List Bool)
    → length sizes ≡ length mask
    → product (enabled sizes mask) * product (disabled sizes mask) ≡ product sizes
unfolding product enabled disabled
product_split [] [] e = refl
product_split [] (b ∷ mask) e = omega (arith, e)
product_split (s ∷ sizes) [] e = omega (arith, e)
product_split (s ∷ sizes) (true ∷ mask) e =
    mul_first _ s _ _ (product_split sizes mask (omega (arith, e)))
product_split (s ∷ sizes) (false ∷ mask) e =
    mul_swap _ s _ _ (product_split sizes mask (omega (arith, e)))

product_pos :
    (sizes : List ℕ) (mask : List Bool) → AllPositive sizes → 0 < product (enabled sizes mask)
unfolding product enabled
product_pos [] mask h = omega arith
product_pos (s ∷ sizes) [] h = omega arith
product_pos (s ∷ sizes) (true ∷ mask) h = grind (arith, product_pos sizes mask h.1, h.0)
product_pos (s ∷ sizes) (false ∷ mask) h = product_pos sizes mask h.1

-- If the mask has as many entries as there are sizes, the sum of products that the code computes for a
-- group and a place in it is the number that has their digits in the mixed radix of the sizes.
pub rank_at-place :
    (sizes : List ℕ) (mask : List Bool) (g i : ℕ)
    → length sizes ≡ length mask
    → rank_at sizes mask g i ≡ place sizes mask g i
unfolding rank_at
rank_at-place sizes mask g i e = rank_from sizes mask 1 g i e ∙ omega arith

-- The groups, with the number and the size that the code computes.
groups_lem :
    (sizes : List ℕ) (mask : List Bool)
    → AllPositive sizes
    → length sizes ≡ length mask
    → generate_masked_orthogonal_rank_groups (product sizes) sizes mask
      ≡ map
          (λ g. map (rank_at sizes mask g) (range_from 0 (product (enabled sizes mask))))
          (range_from 0 (product (disabled sizes mask)))
unfolding generate_masked_orthogonal_rank_groups
groups_lem sizes mask h e =
    let size : last_of (prefix_product (enabled sizes mask) 1) ≡ product (enabled sizes mask) =
      last_of-prefix_product (enabled sizes mask) 1 ∙ omega arith in
    let number : product sizes / product (enabled sizes mask) ≡ product (disabled sizes mask) =
      rw (← product_split sizes mask e)
        (mul-div_cancel_left (product (disabled sizes mask)) (product_pos sizes mask h)) in
    rw (size, number) refl

-- The parts of the sharing, for the ranks as they are placed.
module _ (sizes : List ℕ) (mask : List Bool) (h : AllPositive sizes)
    (e : length sizes ≡ length mask) where
  abbrev ranks_of : ℕ → List ℕ
  ranks_of g = map (rank_at sizes mask g) (range_from 0 (product (enabled sizes mask)))

  abbrev all_groups : List (List ℕ)
  all_groups = map ranks_of (range_from 0 (product (disabled sizes mask)))

  -- A rank that stands at a place is the one that the place stands for.
  placed :
      (g i r : ℕ) (ranks : List ℕ)
      → get_elem? all_groups g ≡ some ranks
      → get_elem? ranks i ≡ some r
      → (g < product (disabled sizes mask))
        × (i < product (enabled sizes mask))
        × (place sizes mask g i ≡ r)
  placed g i r ranks here there =
      let group = at_range ranks_of (product (disabled sizes mask)) g ranks here in
      let inside : get_elem? (ranks_of g) i ≡ some r =
        subst (λ rs. get_elem? rs i ≡ some r) (sym group.1) there in
      let rank = at_range (rank_at sizes mask g) (product (enabled sizes mask)) i r inside in
      (group.0, rank.0, sym (rank_at-place sizes mask g i e) ∙ rank.1)

  -- A rank below the product stands in its group.
  found :
      (r : ℕ)
      → r < product sizes
      → (get_elem? all_groups (group_of sizes mask r) ≡ some (ranks_of (group_of sizes mask r)))
        × (get_elem? (ranks_of (group_of sizes mask r)) (index_of sizes mask r) ≡ some r)
  found r k =
      let g = group_of sizes mask r in
      let i = index_of sizes mask r in
      (
        get_range_from ranks_of 0 (product (disabled sizes mask)) g (group_of-lt sizes mask r h)
            ∙ ap (λ n. some (ranks_of n)) (omega arith),
        get_range_from (rank_at sizes mask g) 0 (product (enabled sizes mask)) i
              (index_of-lt sizes mask r h)
            ∙ ap (λ n. some (rank_at sizes mask g n)) (omega arith)
            ∙ ap some (rank_at-place sizes mask g i e ∙ place-group_of sizes mask r h e k),
      )

  all_groups-IsSharedOut : IsSharedOut (product sizes) (product (enabled sizes mask)) all_groups
  all_groups-IsSharedOut = record {
    counted = λ g ranks here.
        let group = at_range ranks_of (product (disabled sizes mask)) g ranks here in
        subst (λ rs. length rs ≡ product (enabled sizes mask)) group.1
          (length-range_from (rank_at sizes mask g) 0 (product (enabled sizes mask)));
    covered = λ r k.
        let there = found r k in
        (
          group_of sizes mask r,
          index_of sizes mask r,
          ranks_of (group_of sizes mask r),
          there.0,
          there.1,
        );
    bounded = λ g i r ranks here there.
        let p = placed g i r ranks here there in
        subst (λ n. n < product sizes) p.2 (place-lt sizes mask g i h e);
    single = λ g i g' i' r ranks others here there here' there'.
        let p = placed g i r ranks here there in
        let q = placed g' i' r others here' there' in
        let a = group_of-place sizes mask g i h e p.0 p.1 in
        let b = group_of-place sizes mask g' i' h e q.0 q.1 in
        let same : place sizes mask g i ≡ place sizes mask g' i' = p.2 ∙ sym q.2 in
        (
          sym a.0 ∙ ap (group_of sizes mask) same ∙ b.0,
          sym a.1 ∙ ap (index_of sizes mask) same ∙ b.1,
        );
  }

-- For positive sizes, as many as the mask has entries, whose product is the number of ranks, the groups
-- share out the ranks: each group has the product of the enabled sizes, and each rank below their
-- number stands in exactly one group at exactly one place.
pub generate_masked_orthogonal_rank_groups-IsSharedOut :
    (sizes : List ℕ) (mask : List Bool)
    → AllPositive sizes
    → length sizes ≡ length mask
    → IsSharedOut
        (product sizes)
        (product (enabled sizes mask))
        (generate_masked_orthogonal_rank_groups (product sizes) sizes mask)
generate_masked_orthogonal_rank_groups-IsSharedOut sizes mask h e =
    rw (groups_lem sizes mask h e) (all_groups-IsSharedOut sizes mask h e)
