-- ===== src/NodePool/Partition/Names.antt =====
-- Lists of names as the pool keeps them, and what `_deduplicate_and_sort` does to them.
use cluster_manager_das.Prelude.{
  String, true, false, List, [], ◌∷◌, ◌≡◌, refl, ◌∙◌, ◌&&◌, arith, is_empty, eq_refl, ap, length,
}
use cluster_manager_das.Prelude.Names.{contains, inter, diff, dedup, IsNodup}
use cluster_manager_das.Prelude.Names.Laws.{
  contains-sort, contains-dedup, IsNodup-sort, IsNodup-dedup, contains-inter, contains-diff,
}
use cluster_manager_das.Prelude.Names.Counting.{length-sort, dedup-IsNodup}
use cluster_manager_das.Prelude.Names.Strip.{
  AllClean, IsClean-contains, valid_nodes, AllClean-valid_nodes, valid_nodes-AllClean,
  AllClean-sort, AllClean-dedup,
}
use cluster_manager_das.NodePool.State.{deduplicate_and_sort}

-- Clean names, each once.
pub record IsNames (xs : List String) : Type 0 where
  pub clean : AllClean xs
  pub nodup : IsNodup xs

pub IsNames-deduplicate_and_sort : (xs : List String) → IsNames (deduplicate_and_sort xs)
unfolding deduplicate_and_sort
IsNames-deduplicate_and_sort xs = record {
  clean =
      AllClean-sort (dedup (valid_nodes xs))
        (AllClean-dedup (valid_nodes xs) (AllClean-valid_nodes xs));
  nodup = IsNodup-sort (dedup (valid_nodes xs)) (IsNodup-dedup (valid_nodes xs));
}

-- Clean names stay as they are, but for order and repetitions.
pub contains-deduplicate_and_sort :
    (x : String) (xs : List String)
    → AllClean xs
    → contains x (deduplicate_and_sort xs) ≡ contains x xs
unfolding deduplicate_and_sort
contains-deduplicate_and_sort x xs c =
    contains-sort x (dedup (valid_nodes xs))
    ∙ contains-dedup x (valid_nodes xs)
    ∙ ap (contains x) (valid_nodes-AllClean xs c)

pub length-deduplicate_and_sort :
    (xs : List String) → IsNames xs → length (deduplicate_and_sort xs) ≡ length xs
unfolding deduplicate_and_sort
length-deduplicate_and_sort xs h =
    length-sort (dedup (valid_nodes xs))
    ∙ ap (λ ys. length (dedup ys)) (valid_nodes-AllClean xs h.clean)
    ∙ ap length (dedup-IsNodup xs h.nodup)

pub is_empty-of_contains :
    (xs : List String) → ((x : String) → contains x xs ≡ false) → is_empty xs ≡ true
unfolding contains
is_empty-of_contains [] h = refl
is_empty-of_contains (x ∷ xs) h = ground (arith, h x, eq_refl x)

pub contains-of_is_empty :
    (x : String) (xs : List String) → is_empty xs ≡ true → contains x xs ≡ false
unfolding contains
contains-of_is_empty x [] h = refl
contains-of_is_empty x (y ∷ xs) h = cc

-- `xs & ys == set()` passes for disjoint lists.
pub is_empty-inter :
    (xs ys : List String)
    → ((x : String) → (contains x xs && contains x ys) ≡ false)
    → is_empty (inter xs ys) ≡ true
is_empty-inter xs ys h = is_empty-of_contains (inter xs ys) (λ x. contains-inter x xs ys ∙ h x)

-- `xs - ys == set()` passes where `ys` covers `xs`.
pub is_empty-diff :
    (xs ys : List String)
    → ((x : String) → contains x xs ≡ true → contains x ys ≡ true)
    → is_empty (diff xs ys) ≡ true
is_empty-diff xs ys h =
    is_empty-of_contains (diff xs ys) (λ x. ground (arith, contains-diff x xs ys, h x))

-- Where `xs - ys` is empty, `ys` covers `xs`.
pub contains-of_diff :
    (x : String) (xs ys : List String)
    → is_empty (diff xs ys) ≡ true
    → contains x xs ≡ true
    → contains x ys ≡ true
contains-of_diff x xs ys e h =
    ground (arith, contains-diff x xs ys, contains-of_is_empty x (diff xs ys) e)

-- Names that all stand in a list of clean names are clean.
pub AllClean-of_subset :
    (xs ys : List String)
    → AllClean ys
    → ((x : String) → contains x xs ≡ true → contains x ys ≡ true)
    → AllClean xs
unfolding contains
AllClean-of_subset [] ys c sub = tt
AllClean-of_subset (x ∷ xs) ys c sub = (
  IsClean-contains x ys c (sub x (ground (arith, eq_refl x))),
  AllClean-of_subset xs ys c (λ z m. sub z (ground arith)),
)
