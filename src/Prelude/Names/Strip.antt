-- ===== src/Prelude/Names/Strip.antt =====
-- `str.strip`, and the cleaning of a list of names by `NodePool._deduplicate_and_sort`.
use Prim.Native.Nat.{ℕ}
use Prim.Native.Char.{Char, code}
use Prim.Native.String.{String}
use mathlib.Core.Path.{◌≡◌, refl, ap, ◌∙◌}
use mathlib.Core.Logic.{inl, inr}
use mathlib.Core.Bool.{Bool, true, false, ◌&&◌, ◌||◌}
use mathlib.Core.List.{List, [], ◌∷◌, ◌++◌}
use native.Mathlib.Omega.{arith}
use text.Mathlib.Text.{◌==◌}
use text.Mathlib.TextEquality.{eq_iff}
use cluster_manager_das.Prelude.Tests.{if◌then◌else◌, leb, nat_eq, Bool-cases}
use cluster_manager_das.Prelude.Names.Ops.{contains, inter, diff, sort, dedup, insert, remove}

-- The code points that Python's `str.isspace` accepts.
unfoldable pub is_space : ℕ → Bool
is_space c =
    leb 9 c && leb c 13
    || leb 28 c && leb c 32
    || nat_eq c 0x85
    || nat_eq c 0xa0
    || nat_eq c 0x1680
    || leb 0x2000 c && leb c 0x200a
    || nat_eq c 0x2028
    || nat_eq c 0x2029
    || nat_eq c 0x202f
    || nat_eq c 0x205f
    || nat_eq c 0x3000

-- `s.lstrip()`
lstrip : String → String
lstrip String.[] = String.[]
lstrip (String.◌∷◌ c s) = let rest = lstrip s in if is_space (code c) then rest else String.◌∷◌ c s

-- One more character in front of a text that is stripped on the right.
trim_cons : Char → String → String
trim_cons c String.[] = if is_space (code c) then String.[] else String.◌∷◌ c String.[]
trim_cons c (String.◌∷◌ d s) = String.◌∷◌ c (String.◌∷◌ d s)

-- `s.rstrip()`
rstrip : String → String
rstrip String.[] = String.[]
rstrip (String.◌∷◌ c s) = trim_cons c (rstrip s)

-- `s.strip()`
unfoldable pub strip : String → String
unfolding lstrip rstrip trim_cons is_space
strip s = rstrip (lstrip s)

rstrip-trim_cons : (c : Char) (s : String) → rstrip s ≡ s → rstrip (trim_cons c s) ≡ trim_cons c s
unfolding rstrip trim_cons
rstrip-trim_cons c String.[] h = elim (Bool-cases (is_space (code c))) [
  | inl e ↦ rw e refl
  | inr e ↦ rw e (rw e refl)
]
rstrip-trim_cons c (String.◌∷◌ d s) h = rw h

rstrip_idem : (s : String) → rstrip (rstrip s) ≡ rstrip s
unfolding rstrip
rstrip_idem String.[] = refl
rstrip_idem (String.◌∷◌ c s) = rstrip-trim_cons c (rstrip s) (rstrip_idem s)

lstrip-trim_cons :
    (c : Char) (s : String) → is_space (code c) ≡ false → lstrip (trim_cons c s) ≡ trim_cons c s
unfolding lstrip trim_cons
lstrip-trim_cons c String.[] h = rw h (rw h refl)
lstrip-trim_cons c (String.◌∷◌ d s) h = rw h refl

lstrip-strip : (s : String) → lstrip (rstrip (lstrip s)) ≡ rstrip (lstrip s)
unfolding lstrip rstrip
lstrip-strip String.[] = refl
lstrip-strip (String.◌∷◌ c s) = elim (Bool-cases (is_space (code c))) [
  | inl e ↦ rw e (lstrip-strip s)
  | inr e ↦ rw e (lstrip-trim_cons c (rstrip s) e)
]

-- Stripping a stripped text changes nothing.
pub strip_idem : (s : String) → strip (strip s) ≡ strip s
unfolding strip
strip_idem s = ap rstrip (lstrip-strip s) ∙ rstrip_idem (lstrip s)

-- A name as the pool stores it: not empty, with no white space at its ends.
abbrev pub IsClean : String → Type 0
IsClean s = ((s == "") ≡ false) × (strip s ≡ s)

-- `[node.strip() for node in nodes if node and str(node).strip()]`
unfoldable pub valid_nodes : List String → List String
valid_nodes [] = []
valid_nodes (n ∷ ns) =
    let rest = valid_nodes ns in if n == "" || strip n == "" then rest else strip n ∷ rest

-- Every name of a list is clean.
abbrev pub AllClean : List String → Type 0
AllClean [] = Unit
AllClean (x ∷ xs) = IsClean x × AllClean xs

pub AllClean-valid_nodes : (xs : List String) → AllClean (valid_nodes xs)
unfolding valid_nodes
AllClean-valid_nodes [] = tt
AllClean-valid_nodes (x ∷ xs) = ground (arith, AllClean-valid_nodes xs, strip_idem x)

-- Names that are clean already are kept as they are.
pub valid_nodes-AllClean : (xs : List String) → AllClean xs → valid_nodes xs ≡ xs
unfolding valid_nodes
valid_nodes-AllClean [] h = refl
valid_nodes-AllClean (x ∷ xs) h = rw (h.0.1, h.0.0, valid_nodes-AllClean xs h.1)

pub AllClean-append : (xs ys : List String) → AllClean xs → AllClean ys → AllClean (xs ++ ys)
AllClean-append [] ys h k = k
AllClean-append (x ∷ xs) ys h k = (h.0, AllClean-append xs ys h.1 k)

pub AllClean-dedup : (xs : List String) → AllClean xs → AllClean (dedup xs)
unfolding dedup
AllClean-dedup [] h = tt
AllClean-dedup (x ∷ xs) h = ground (arith, AllClean-dedup xs h.1)

AllClean-insert : (x : String) (xs : List String) → IsClean x → AllClean xs → AllClean (insert x xs)
unfolding insert
AllClean-insert x [] c h = (c, tt)
AllClean-insert x (y ∷ xs) c h = ground (arith, AllClean-insert x xs c h.1)

pub AllClean-sort : (xs : List String) → AllClean xs → AllClean (sort xs)
unfolding sort
AllClean-sort [] h = tt
AllClean-sort (x ∷ xs) h = AllClean-insert x (sort xs) h.0 (AllClean-sort xs h.1)

pub AllClean-inter : (xs ys : List String) → AllClean xs → AllClean (inter xs ys)
unfolding inter
AllClean-inter [] ys h = tt
AllClean-inter (x ∷ xs) ys h = ground (arith, AllClean-inter xs ys h.1)

pub AllClean-diff : (xs ys : List String) → AllClean xs → AllClean (diff xs ys)
unfolding diff
AllClean-diff [] ys h = tt
AllClean-diff (x ∷ xs) ys h = ground (arith, AllClean-diff xs ys h.1)

pub AllClean-remove : (x : String) (xs : List String) → AllClean xs → AllClean (remove x xs)
unfolding remove
AllClean-remove x [] h = tt
AllClean-remove x (y ∷ xs) h = ground (arith, AllClean-remove x xs h.1)

-- A member of a list of clean names is clean.
pub IsClean-contains :
    (x : String) (xs : List String) → AllClean xs → contains x xs ≡ true → IsClean x
unfolding contains
IsClean-contains x [] h m = cc
IsClean-contains x (y ∷ xs) h m = elim (Bool-cases (y == x)) [
  | inl e ↦ rw (← (eq_iff y x).0 e) h.0
  | inr e ↦ IsClean-contains x xs h.1 (ground arith)
]

-- No character of the text is white space.
abbrev pub NoSpace : String → Type 0
NoSpace String.[] = Unit
NoSpace (String.◌∷◌ c s) = (is_space (code c) ≡ false) × NoSpace s

trim_cons-solid :
    (c : Char) (s : String) → is_space (code c) ≡ false → trim_cons c s ≡ String.◌∷◌ c s
unfolding trim_cons
trim_cons-solid c String.[] e = rw e refl
trim_cons-solid c (String.◌∷◌ d s) e = refl

rstrip-solid : (s : String) → NoSpace s → rstrip s ≡ s
unfolding rstrip
rstrip-solid String.[] h = refl
rstrip-solid (String.◌∷◌ c s) h = rw (rstrip-solid s h.1) (trim_cons-solid c s h.0)

pub strip-solid : (s : String) → NoSpace s → strip s ≡ s
unfolding strip lstrip
strip-solid String.[] h = refl
strip-solid (String.◌∷◌ c s) h = rw h.0 (rstrip-solid (String.◌∷◌ c s) h)

-- Some character passes a test.
unfoldable pub any_char : (Char → Bool) → String → Bool
any_char p String.[] = false
any_char p (String.◌∷◌ c s) = p c || any_char p s

any_char-trim_cons :
    (p : Char → Bool) (c : Char) (s : String)
    → any_char p (trim_cons c s) ≡ true
    → (p c || any_char p s) ≡ true
unfolding any_char trim_cons
any_char-trim_cons p c String.[] h = kept (is_space (code c)) h
  where
    kept :
        (b : Bool)
        → any_char p (if b then String.[] else String.◌∷◌ c String.[]) ≡ true
        → (p c || false) ≡ true
    kept true h = cc
    kept false h = h
any_char-trim_cons p c (String.◌∷◌ d s) h = h

any_char-rstrip :
    (p : Char → Bool) (s : String) → any_char p (rstrip s) ≡ true → any_char p s ≡ true
unfolding any_char rstrip
any_char-rstrip p String.[] h = h
any_char-rstrip p (String.◌∷◌ c s) h =
    ground (arith, any_char-trim_cons p c (rstrip s) h, any_char-rstrip p s)

any_char-lstrip :
    (p : Char → Bool) (s : String) → any_char p (lstrip s) ≡ true → any_char p s ≡ true
unfolding any_char lstrip
any_char-lstrip p String.[] h = h
any_char-lstrip p (String.◌∷◌ c s) h = elim (Bool-cases (is_space (code c))) [
  | inl e ↦ ground (arith, any_char-lstrip p s, h, e)
  | inr e ↦ ground (arith, h, e)
]

-- A stripped text has no characters of its own.
pub any_char-strip :
    (p : Char → Bool) (s : String) → any_char p (strip s) ≡ true → any_char p s ≡ true
unfolding strip
any_char-strip p s h = any_char-lstrip p s (any_char-rstrip p (lstrip s) h)
