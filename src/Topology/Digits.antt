-- ===== src/Topology/Digits.antt =====
-- A rank as a number of mixed radix: the digits of the enabled dimensions count the ranks of a group,
-- the others count the groups.
use native.Mathlib.Nat.{div-div-eq-div-mul, div-one}
use cluster_manager_das.Prelude.{
  ℕ, ◌+◌, ◌*◌, ◌/◌, ◌%◌, Bool, true, false, List, [], ◌∷◌, ◌≡◌, refl, arith, length,
}
use cluster_manager_das.Topology.Ranks.{
  prefix_product, inner_product, digits, decompose, enabled, disabled,
}

-- `math.prod`
unfoldable pub product : List ℕ → ℕ
product [] = 1
product (x ∷ xs) = x * product xs

-- The rank by its digits, one dimension after the other.
unfoldable pub place : List ℕ → List Bool → ℕ → ℕ → ℕ
place (size ∷ sizes) (true ∷ mask) g i = i % size + size * place sizes mask g (i / size)
place (size ∷ sizes) (false ∷ mask) g i = g % size + size * place sizes mask (g / size) i
place _ _ g i = 0

one_mul : (n : ℕ) → 1 * n ≡ n
one_mul n = omega arith

-- The digits of a number from a stride on are those of its quotient.
digits-div :
    (index step : ℕ) (shape : List ℕ)
    → digits index shape (prefix_product shape step)
      ≡ digits (index / step) shape (prefix_product shape 1)
unfolding digits prefix_product
digits-div index step [] = refl
digits-div index step (size ∷ shape) =
    let tail = digits-div index (step * size) shape in
    let split = digits-div (index / step) (1 * size) shape in
    let same : index / step / (1 * size) ≡ index / (step * size) =
      rw (one_mul size) (div-div-eq-div-mul index step size) in
    rw (div-one (index / step), tail, split, same) refl

-- The digits after the first one.
digits_after :
    (index size : ℕ) (shape : List ℕ)
    → digits index shape (prefix_product shape (1 * size)) ≡ decompose (index / size) shape
unfolding decompose
digits_after index size shape = rw (one_mul size) (digits-div index size shape)

first_digit :
    (d step size x y p : ℕ) → x + y ≡ step * size * p → (d * step + x) + y ≡ step * (d + size * p)
first_digit d step size x y p e = grind (arith, e)

second_digit :
    (d step size x y p : ℕ) → x + y ≡ step * size * p → x + (d * step + y) ≡ step * (d + size * p)
second_digit d step size x y p e = grind (arith, e)

-- The code's sum of products, with strides from `step` on, is the number with these digits.
pub rank_from :
    (sizes : List ℕ) (mask : List Bool) (step g i : ℕ)
    → length sizes ≡ length mask
    → let stride = prefix_product sizes step in
      inner_product (decompose i (enabled sizes mask)) (enabled stride mask)
        + inner_product (decompose g (disabled sizes mask)) (disabled stride mask)
      ≡ step * place sizes mask g i
unfolding inner_product decompose enabled disabled prefix_product place digits
rank_from [] [] step g i e = omega arith
rank_from [] (b ∷ mask) step g i e = omega arith
rank_from (s ∷ sizes) [] step g i e = omega arith
rank_from (s ∷ sizes) (true ∷ mask) step g i e =
    let ih = rank_from sizes mask (step * s) g (i / s) (omega (arith, e)) in
    rw (digits_after i s (enabled sizes mask), div-one i) (first_digit (i % s) step s _ _ _ ih)
rank_from (s ∷ sizes) (false ∷ mask) step g i e =
    let ih = rank_from sizes mask (step * s) (g / s) i (omega (arith, e)) in
    rw (digits_after g s (disabled sizes mask), div-one g) (second_digit (g % s) step s _ _ _ ih)
