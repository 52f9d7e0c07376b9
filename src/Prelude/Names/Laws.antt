-- ===== src/Prelude/Names/Laws.antt =====
-- What the operations on names contain, and that they keep names single.
use mathlib.Core.Path.{◌≡◌, refl}
use mathlib.Core.Bool.{true, false, not, ◌&&◌, ◌||◌}
use mathlib.Core.List.{List, [], ◌∷◌, ◌++◌}
use native.Mathlib.Omega.{arith}
use text.Mathlib.Text.{◌==◌}
use text.Mathlib.TextEquality.{eq_iff}
use Prim.Native.String.{String}
use cluster_manager_das.Prelude.Tests.{eq_refl}
use cluster_manager_das.Prelude.Names.Ops.{
  contains, dedup, insert, sort, inter, diff, remove, IsNodup,
}

-- An equal name is contained in the same lists.
pub contains_congr :
    (x y : String) (ys : List String) → (x == y) ≡ true → contains x ys ≡ contains y ys
contains_congr x y ys e = rw ((eq_iff x y).0 e)

pub contains-append :
    (x : String) (xs ys : List String) → contains x (xs ++ ys) ≡ (contains x xs || contains x ys)
unfolding contains
contains-append x [] ys = refl
contains-append x (y ∷ xs) ys = ground (arith, contains-append x xs ys)

pub contains-dedup : (x : String) (xs : List String) → contains x (dedup xs) ≡ contains x xs
unfolding contains dedup
contains-dedup x [] = refl
contains-dedup x (y ∷ xs) =
    ground (arith, contains-dedup x xs, contains-dedup y xs, contains_congr y x (dedup xs))

pub contains-insert :
    (x y : String) (ys : List String) → contains x (insert y ys) ≡ (y == x || contains x ys)
unfolding contains insert
contains-insert x y [] = refl
contains-insert x y (z ∷ ys) = ground (arith, contains-insert x y ys)

pub contains-sort : (x : String) (xs : List String) → contains x (sort xs) ≡ contains x xs
unfolding contains sort
contains-sort x [] = refl
contains-sort x (y ∷ xs) = ground (arith, contains-insert x y (sort xs), contains-sort x xs)

pub contains-inter :
    (x : String) (xs ys : List String) → contains x (inter xs ys) ≡ (contains x xs && contains x ys)
unfolding contains inter
contains-inter x [] ys = refl
contains-inter x (y ∷ xs) ys = ground (arith, contains-inter x xs ys, contains_congr y x ys)

pub contains-diff :
    (x : String) (xs ys : List String)
    → contains x (diff xs ys) ≡ (contains x xs && not (contains x ys))
unfolding contains diff
contains-diff x [] ys = refl
contains-diff x (y ∷ xs) ys = ground (arith, contains-diff x xs ys, contains_congr y x ys)

pub contains-remove :
    (x y : String) (xs : List String)
    → IsNodup xs
    → contains x (remove y xs) ≡ (contains x xs && not (y == x))
unfolding contains remove
contains-remove x y [] h = refl
contains-remove x y (z ∷ xs) h = ground (
  arith,
  contains-remove x y xs h.1,
  contains_congr z x xs,
  contains_congr z y xs,
  eq_iff z y,
  eq_iff z x,
  eq_iff y x,
)

pub IsNodup-dedup : (xs : List String) → IsNodup (dedup xs)
unfolding dedup
IsNodup-dedup [] = tt
IsNodup-dedup (x ∷ xs) = ground (arith, IsNodup-dedup xs)

pub IsNodup-insert :
    (x : String) (xs : List String) → contains x xs ≡ false → IsNodup xs → IsNodup (insert x xs)
unfolding insert contains
IsNodup-insert x [] n h = ground arith
IsNodup-insert x (y ∷ xs) n h =
    ground (arith, IsNodup-insert x xs, contains-insert y x xs, eq_iff x y, eq_iff y x)

pub IsNodup-sort : (xs : List String) → IsNodup xs → IsNodup (sort xs)
unfolding sort
IsNodup-sort [] h = tt
IsNodup-sort (x ∷ xs) h =
    IsNodup-insert x (sort xs) (ground (arith, contains-sort x xs)) (IsNodup-sort xs h.1)

pub IsNodup-inter : (xs ys : List String) → IsNodup xs → IsNodup (inter xs ys)
unfolding inter
IsNodup-inter [] ys h = tt
IsNodup-inter (x ∷ xs) ys h = ground (arith, IsNodup-inter xs ys h.1, contains-inter x xs ys)

pub IsNodup-diff : (xs ys : List String) → IsNodup xs → IsNodup (diff xs ys)
unfolding diff
IsNodup-diff [] ys h = tt
IsNodup-diff (x ∷ xs) ys h = ground (arith, IsNodup-diff xs ys h.1, contains-diff x xs ys)

pub IsNodup-remove : (x : String) (xs : List String) → IsNodup xs → IsNodup (remove x xs)
unfolding remove
IsNodup-remove x [] h = tt
IsNodup-remove x (y ∷ xs) h = ground (arith, IsNodup-remove x xs h.1, contains-remove y x xs h.1)

pub IsNodup-append :
    (xs ys : List String)
    → IsNodup xs
    → IsNodup ys
    → ((x : String) → (contains x xs && contains x ys) ≡ false)
    → IsNodup (xs ++ ys)
unfolding contains
IsNodup-append [] ys h k d = k
IsNodup-append (x ∷ xs) ys h k d = (
  ground (arith, d x, contains-append x xs ys, eq_refl x),
  IsNodup-append xs ys h.1 k (λ z. ground (arith, d z)),
)
