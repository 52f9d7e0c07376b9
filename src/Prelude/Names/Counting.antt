-- ===== src/Prelude/Names/Counting.antt =====
-- How many names a list without repetitions shares with another.
use Prim.Native.Nat.{◌+◌, ◌≤◌}
use Prim.Native.String.{String}
use mathlib.Core.Path.{◌≡◌, refl}
use mathlib.Core.Bool.{true}
use mathlib.Core.List.{List, [], ◌∷◌}
use native.Mathlib.Omega.{arith}
use cluster_manager_das.Prelude.Tests.{eq_refl}
use cluster_manager_das.Prelude.Lists.{length}
use cluster_manager_das.Prelude.Names.Ops.{
  contains, dedup, insert, sort, inter, diff, remove, IsNodup,
}
use cluster_manager_das.Prelude.Names.Laws.{
  contains-remove, contains-inter, IsNodup-remove, IsNodup-inter, contains_congr,
}

pub length-insert : (x : String) (xs : List String) → length (insert x xs) ≡ length xs + 1
unfolding insert
length-insert x [] = omega arith
length-insert x (y ∷ xs) = ground (arith, length-insert x xs)

pub length-sort : (xs : List String) → length (sort xs) ≡ length xs
unfolding sort
length-sort [] = refl
length-sort (x ∷ xs) = omega (arith, length-insert x (sort xs), length-sort xs)

-- A list without repetitions is its own set.
pub dedup-IsNodup : (xs : List String) → IsNodup xs → dedup xs ≡ xs
unfolding dedup
dedup-IsNodup [] h = refl
dedup-IsNodup (x ∷ xs) h = rw (dedup-IsNodup xs h.1, h.0)

pub length-remove :
    (x : String) (xs : List String) → contains x xs ≡ true → length (remove x xs) + 1 ≡ length xs
unfolding remove contains
length-remove x [] h = cc
length-remove x (y ∷ xs) h = ground (arith, length-remove x xs)

-- Names without repetitions that all stand in `ys` are no more than those of `ys`.
pub length-le_of_subset :
    (xs ys : List String)
    → IsNodup xs
    → IsNodup ys
    → ((x : String) → contains x xs ≡ true → contains x ys ≡ true)
    → length xs ≤ length ys
unfolding contains
length-le_of_subset [] ys h k sub = omega arith
length-le_of_subset (x ∷ xs) ys h k sub =
    let ih =
      length-le_of_subset xs (remove x ys) h.1 (IsNodup-remove x ys k)
        λ z m. ground (arith, sub z, contains-remove z x ys k, contains_congr x z xs, m, h.0) in
    let here : contains x ys ≡ true = ground (arith, sub x, eq_refl x) in
    omega (arith, ih, length-remove x ys here)

-- What two lists without repetitions share is counted alike from both sides.
pub length-inter_comm :
    (xs ys : List String) → IsNodup xs → IsNodup ys → length (inter xs ys) ≡ length (inter ys xs)
length-inter_comm xs ys h k = omega (
  arith,
  length-le_of_subset (inter xs ys) (inter ys xs) (IsNodup-inter xs ys h) (IsNodup-inter ys xs k)
      (swap xs ys),
  length-le_of_subset (inter ys xs) (inter xs ys) (IsNodup-inter ys xs k) (IsNodup-inter xs ys h)
      (swap ys xs),
)
  where
    swap :
        (vs ws : List String) (z : String)
        → contains z (inter vs ws) ≡ true
        → contains z (inter ws vs) ≡ true
    swap vs ws z m = ground (arith, contains-inter z vs ws, contains-inter z ws vs)

-- A list falls into what stands in `ys` and what does not.
pub length-inter-diff :
    (xs ys : List String) → length (inter xs ys) + length (diff xs ys) ≡ length xs
unfolding inter diff
length-inter-diff [] ys = omega arith
length-inter-diff (x ∷ xs) ys = ground (arith, length-inter-diff xs ys)
