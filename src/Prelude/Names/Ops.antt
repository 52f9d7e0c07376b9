-- ===== src/Prelude/Names/Ops.antt =====
-- The operations on lists of names, executable.
use Prim.Native.String.{String, compare}
use mathlib.Core.Path.{◌≡◌}
use mathlib.Core.Bool.{Bool, false, ◌||◌}
use mathlib.Core.List.{List, [], ◌∷◌}
use text.Mathlib.Text.{◌==◌, is_le}
use cluster_manager_das.Prelude.Tests.{if◌then◌else◌}

-- `x in xs`
unfoldable pub contains : String → List String → Bool
contains x [] = false
contains x (y ∷ ys) = y == x || contains x ys

-- The elements of `list(set(xs))`, each once. Python leaves their order open; every use sorts them.
unfoldable pub dedup : List String → List String
dedup [] = []
dedup (x ∷ xs) = let rest = dedup xs in if contains x rest then rest else x ∷ rest

-- Each name once, at its first place, but for those seen before: the keys of a dictionary.
unfoldable pub first_ones : List String → List String → List String
first_ones seen [] = []
first_ones seen (x ∷ xs) =
    let skipped = first_ones seen xs in
    let kept = first_ones (x ∷ seen) xs in if contains x seen then skipped else x ∷ kept

unfoldable pub insert : String → List String → List String
insert x [] = x ∷ []
insert x (y ∷ ys) = let rest = insert x ys in if is_le (compare x y) then x ∷ y ∷ ys else y ∷ rest

-- `sorted(xs)`
unfoldable pub sort : List String → List String
sort [] = []
sort (x ∷ xs) = insert x (sort xs)

-- `[x for x in xs if x in ys]`, and on sets `xs & ys`
unfoldable pub inter : List String → List String → List String
inter [] ys = []
inter (x ∷ xs) ys = let rest = inter xs ys in if contains x ys then x ∷ rest else rest

-- `[x for x in xs if x not in ys]`, and on sets `xs - ys`
unfoldable pub diff : List String → List String → List String
diff [] ys = []
diff (x ∷ xs) ys = let rest = diff xs ys in if contains x ys then rest else x ∷ rest

-- `xs.remove(x)` where `x` is in `xs`: the first occurrence goes.
unfoldable pub remove : String → List String → List String
remove x [] = []
remove x (y ∷ ys) = let rest = remove x ys in if y == x then ys else y ∷ rest

-- No name stands twice.
abbrev pub IsNodup : List String → Type 0
IsNodup [] = Unit
IsNodup (x ∷ xs) = (contains x xs ≡ false) × IsNodup xs
