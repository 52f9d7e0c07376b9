-- ===== src/Topology/Place.antt =====
-- The numbers below the product of the sizes are the pairs of a group and a place in it.
use native.Mathlib.Nat.{
  mod-lt, mod-add-div, mod-eq_of_lt, div-eq_of_lt, div-lt_iff_lt-mul, add-mul-div_left,
  add-mul-mod_self_left,
}
use cluster_manager_das.Prelude.{
  ℕ, zero, suc, ◌+◌, ◌*◌, ◌/◌, ◌%◌, ◌≤◌, ◌<◌, Bool, true, false, List, [], ◌∷◌, ◌≡◌, refl, ◌∙◌,
  arith, length,
}
use cluster_manager_das.Topology.Ranks.{enabled, disabled}
use cluster_manager_das.Topology.Digits.{product, place}

abbrev pub AllPositive : List ℕ → Type 0
AllPositive [] = Unit
AllPositive (x ∷ xs) = (1 ≤ x) × AllPositive xs

-- The group of a rank, and its place in the group.
unfoldable pub group_of : List ℕ → List Bool → ℕ → ℕ
group_of (size ∷ sizes) (true ∷ mask) r = group_of sizes mask (r / size)
group_of (size ∷ sizes) (false ∷ mask) r = r % size + size * group_of sizes mask (r / size)
group_of _ _ r = 0

unfoldable pub index_of : List ℕ → List Bool → ℕ → ℕ
index_of (size ∷ sizes) (true ∷ mask) r = r % size + size * index_of sizes mask (r / size)
index_of (size ∷ sizes) (false ∷ mask) r = index_of sizes mask (r / size)
index_of _ _ r = 0

pub mul_mono : (s a b : ℕ) → a ≤ b → s * a ≤ s * b
mul_mono zero a b h = omega arith
mul_mono (suc s) a b h = grind (arith, mul_mono s a b h)

digit-lt : (d s q p : ℕ) → d < s → q < p → d + s * q < s * p
digit-lt d s q p h k = grind (arith, mul_mono s (q + 1) p (omega (arith, k)), h)

first_div : (d s q : ℕ) → d < s → (d + s * q) / s ≡ q
first_div d s q h = add-mul-div_left d q (omega (arith, h)) ∙ (rw (div-eq_of_lt h) (omega arith))

first_mod : (d s q : ℕ) → d < s → (d + s * q) % s ≡ d
first_mod d s q h = add-mul-mod_self_left d s q ∙ mod-eq_of_lt h

pub div-lt-product : (r s p : ℕ) → 1 ≤ s → r < s * p → r / s < p
div-lt-product r s p h k = (div-lt_iff_lt-mul (omega (arith, h))).1 (grind (arith, k))

pub place-lt :
    (sizes : List ℕ) (mask : List Bool) (g i : ℕ)
    → AllPositive sizes
    → length sizes ≡ length mask
    → place sizes mask g i < product sizes
unfolding place product
place-lt [] [] g i h e = omega arith
place-lt [] (b ∷ mask) g i h e = omega arith
place-lt (s ∷ sizes) [] g i h e = omega (arith, e)
place-lt (s ∷ sizes) (true ∷ mask) g i h e =
    digit-lt (i % s) s (place sizes mask g (i / s)) (product sizes) (mod-lt i (omega (arith, h.0)))
      (place-lt sizes mask g (i / s) h.1 (omega (arith, e)))
place-lt (s ∷ sizes) (false ∷ mask) g i h e =
    digit-lt (g % s) s (place sizes mask (g / s) i) (product sizes) (mod-lt g (omega (arith, h.0)))
      (place-lt sizes mask (g / s) i h.1 (omega (arith, e)))

pub group_of-lt :
    (sizes : List ℕ) (mask : List Bool) (r : ℕ)
    → AllPositive sizes
    → group_of sizes mask r < product (disabled sizes mask)
unfolding group_of product disabled
group_of-lt [] mask r h = omega arith
group_of-lt (s ∷ sizes) [] r h = omega arith
group_of-lt (s ∷ sizes) (true ∷ mask) r h = group_of-lt sizes mask (r / s) h.1
group_of-lt (s ∷ sizes) (false ∷ mask) r h =
    digit-lt (r % s) s _ _ (mod-lt r (omega (arith, h.0))) (group_of-lt sizes mask (r / s) h.1)

pub index_of-lt :
    (sizes : List ℕ) (mask : List Bool) (r : ℕ)
    → AllPositive sizes
    → index_of sizes mask r < product (enabled sizes mask)
unfolding index_of product enabled
index_of-lt [] mask r h = omega arith
index_of-lt (s ∷ sizes) [] r h = omega arith
index_of-lt (s ∷ sizes) (true ∷ mask) r h =
    digit-lt (r % s) s _ _ (mod-lt r (omega (arith, h.0))) (index_of-lt sizes mask (r / s) h.1)
index_of-lt (s ∷ sizes) (false ∷ mask) r h = index_of-lt sizes mask (r / s) h.1

-- Every number below the product stands at its place in its group.
pub place-group_of :
    (sizes : List ℕ) (mask : List Bool) (r : ℕ)
    → AllPositive sizes
    → length sizes ≡ length mask
    → r < product sizes
    → place sizes mask (group_of sizes mask r) (index_of sizes mask r) ≡ r
unfolding place group_of index_of product
place-group_of [] [] r h e k = omega (arith, k)
place-group_of [] (b ∷ mask) r h e k = omega (arith, e)
place-group_of (s ∷ sizes) [] r h e k = omega (arith, e)
place-group_of (s ∷ sizes) (true ∷ mask) r h e k =
    let small : r % s < s = mod-lt r (omega (arith, h.0)) in
    let ih =
      place-group_of sizes mask (r / s) h.1 (omega (arith, e)) (div-lt-product r s _ h.0 k) in
    rw (first_mod (r % s) s _ small, first_div (r % s) s _ small, ih) (mod-add-div r s)
place-group_of (s ∷ sizes) (false ∷ mask) r h e k =
    let small : r % s < s = mod-lt r (omega (arith, h.0)) in
    let ih =
      place-group_of sizes mask (r / s) h.1 (omega (arith, e)) (div-lt-product r s _ h.0 k) in
    rw (first_mod (r % s) s _ small, first_div (r % s) s _ small, ih) (mod-add-div r s)

-- A group and a place in it are found again from the rank.
pub group_of-place :
    (sizes : List ℕ) (mask : List Bool) (g i : ℕ)
    → AllPositive sizes
    → length sizes ≡ length mask
    → g < product (disabled sizes mask)
    → i < product (enabled sizes mask)
    → (group_of sizes mask (place sizes mask g i) ≡ g)
      × (index_of sizes mask (place sizes mask g i) ≡ i)
unfolding place group_of index_of product enabled disabled
group_of-place [] [] g i h e k l = (omega (arith, k), omega (arith, l))
group_of-place [] (b ∷ mask) g i h e k l = omega (arith, e)
group_of-place (s ∷ sizes) [] g i h e k l = omega (arith, e)
group_of-place (s ∷ sizes) (true ∷ mask) g i h e k l =
    let small : i % s < s = mod-lt i (omega (arith, h.0)) in
    let ih =
      group_of-place sizes mask g (i / s) h.1 (omega (arith, e)) k (div-lt-product i s _ h.0 l) in
    rw (first_mod (i % s) s _ small, first_div (i % s) s _ small, ih.0, ih.1)
      (refl, mod-add-div i s)
group_of-place (s ∷ sizes) (false ∷ mask) g i h e k l =
    let small : g % s < s = mod-lt g (omega (arith, h.0)) in
    let ih =
      group_of-place sizes mask (g / s) i h.1 (omega (arith, e)) (div-lt-product g s _ h.0 k) l in
    rw (first_mod (g % s) s _ small, first_div (g % s) s _ small, ih.0, ih.1)
      (mod-add-div g s, refl)
