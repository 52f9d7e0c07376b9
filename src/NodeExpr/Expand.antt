-- ===== src/NodeExpr/Expand.antt =====
-- `split_outside_brackets`, `expand_range` and `node_expr_parser`.
use Prim.Native.Char.{Char, code}
use cluster_manager_das.Prelude.{
  ℕ, zero, suc, ◌+◌, ◌-◌, String, ◌&&◌, List, [], ◌∷◌, ◌++◌, Option, none, some, map, nat_eq, ltb,
  ◌==◌, if◌then◌else◌,
}
use cluster_manager_das.Prelude.Names.Strip.{strip}
use cluster_manager_das.Runtime.Rank.{Integer, number, minus, parse_int, after_first, up_to}
use cluster_manager_das.NodeExpr.Texts.{padded, length_of, append_text}

-- A character in front of the first part.
abbrev pub in_front : Char → List String → List String
in_front c [] = String.◌∷◌ c String.[] ∷ []
in_front c (part ∷ parts) = String.◌∷◌ c part ∷ parts

-- The parts between the commas that stand outside brackets, at the given depth; a bracket that
-- closes none is kept.
unfoldable pub split_at_depth : ℕ → String → List String
split_at_depth depth String.[] = String.[] ∷ []
split_at_depth depth (String.◌∷◌ c s) =
    let deeper = split_at_depth (depth + 1) s in
    let shallower = split_at_depth (depth - 1) s in
    let same = split_at_depth depth s in
    if nat_eq (code c) b'['
    then in_front c deeper
    else if nat_eq (code c) b']'
    then in_front c shallower
    else if nat_eq (code c) b',' && nat_eq depth 0
    then String.[] ∷ same
    else in_front c same

-- The parts that are not empty once they are stripped.
unfoldable pub stripped_parts : List String → List String
unfolding strip
stripped_parts [] = []
stripped_parts (part ∷ parts) =
    let rest = stripped_parts parts in if strip part == "" then rest else strip part ∷ rest

-- `split_outside_brackets`
unfoldable pub split_outside_brackets : String → List String
unfolding split_at_depth stripped_parts
split_outside_brackets s = stripped_parts (split_at_depth 0 s)

-- `s.split(",")`
unfoldable pub split_commas : String → List String
split_commas String.[] = String.[] ∷ []
split_commas (String.◌∷◌ c s) =
    let rest = split_commas s in if nat_eq (code c) b',' then String.[] ∷ rest else in_front c rest

-- The numbers from `first` on, `count` of them, each of the given width.
unfoldable pub numbered : ℕ → ℕ → ℕ → List String
unfolding padded
numbered width first zero = []
numbered width first (suc count) = padded width first ∷ numbered width (first + 1) count

-- The longer of two texts.
abbrev longer : String → String → ℕ
longer s t = if ltb (length_of s) (length_of t) then length_of t else length_of s

-- The range between two texts where both are numbers, and the item itself where one is not. The first
-- text has no "-", so its number is not negative.
unfoldable pub range_between :
    String → String → String → Option Integer → Option Integer → List String
unfolding numbered length_of
range_between item s t (some (number a)) (some (number b)) = numbered (longer s t) a (b + 1 - a)
range_between item s t (some (number a)) (some (minus b)) = []
range_between item s t (some (minus a)) (some b) = []
range_between item s t _ _ = item ∷ []

-- One item of a range: `item.split("-", 1)` where it has a "-".
unfoldable pub expand_item : String → Option String → List String
unfolding range_between parse_int up_to
expand_item item none = item ∷ []
expand_item item (some end) =
    range_between item (up_to b'-' item) end (parse_int (up_to b'-' item)) (parse_int end)

-- The items of a range, `range_items`
unfoldable pub expand_items : List String → List String
unfolding expand_item strip after_first
expand_items [] = []
expand_items (part ∷ parts) =
    let item = strip part in expand_item item (after_first b'-' item) ++ expand_items parts

-- What one step of `expand_range` finds: the text before the first "[", the items up to the next
-- "]", and what follows; nothing where either is missing.
abbrev pub Step : Type 0
Step = Option (String × List String × String)

abbrev pub closed : String → String → Option String → Step
closed prefix range none = none
closed prefix range (some suffix) = some (prefix, expand_items (split_commas range), suffix)

abbrev pub opened : String → Option String → Step
opened prefix none = none
opened prefix (some rest) = closed prefix (up_to b']' rest) (after_first b']' rest)

unfoldable pub next_step : String → Step
unfolding expand_items split_commas up_to after_first
next_step expr = opened (up_to b'[' expr) (after_first b'[' expr)

-- The two lists together, where both are there.
abbrev pub joined : Option (List String) → Option (List String) → Option (List String)
joined (some xs) (some ys) = some (xs ++ ys)
joined _ _ = none

abbrev pub prefixed : String → Option (List String) → Option (List String)
prefixed prefix none = none
prefixed prefix (some xs) = some (map (append_text prefix) xs)

-- The two loops at the end of `expand_range`, over the recursive call.
unfoldable pub combine :
    (String → Option (List String)) → String → String → List String → Option (List String)
combine again prefix suffix [] = some []
combine again prefix suffix (item ∷ items) =
    joined (prefixed prefix (again (append_text item suffix))) (combine again prefix suffix items)

unfoldable pub expand_step : (String → Option (List String)) → String → Step → Option (List String)
unfolding combine
expand_step again expr none = some (expr ∷ [])
expand_step again expr (some (prefix, items, suffix)) = combine again prefix suffix items

-- `expand_range` on fuel; each step takes a "]" away.
unfoldable pub expand_with : ℕ → String → Option (List String)
unfolding expand_step next_step
expand_with zero expr = none
expand_with (suc fuel) expr = expand_step (expand_with fuel) expr (next_step expr)

unfoldable pub count_char : ℕ → String → ℕ
count_char c String.[] = 0
count_char c (String.◌∷◌ d s) =
    let rest = count_char c s in if nat_eq (code d) c then rest + 1 else rest

-- `expand_range`, with a step for each "]" and one more.
unfoldable pub expand_range : String → Option (List String)
unfolding expand_with count_char
expand_range expr = expand_with (count_char b']' expr + 1) expr

-- The loop of `node_expr_parser`; a count in parentheses at the end is cut off.
unfoldable pub expand_all : List String → Option (List String)
unfolding expand_range strip up_to
expand_all [] = some []
expand_all (expr ∷ exprs) = joined (expand_range (strip (up_to b'(' expr))) (expand_all exprs)

-- `node_expr_parser`
unfoldable pub node_expr_parser : String → Option (List String)
unfolding expand_all split_outside_brackets
node_expr_parser s = expand_all (split_outside_brackets s)
