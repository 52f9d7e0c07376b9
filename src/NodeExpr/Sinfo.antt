-- ===== src/NodeExpr/Sinfo.antt =====
-- `parse_sinfo_R` and `match_failed_nodes`: the reasons that the scheduler gives for nodes it has
-- taken out of service.
use Prim.Native.Char.{code}
use cluster_manager_das.Prelude.{String, List, [], ◌∷◌, Option, none, some, ◌==◌, if◌then◌else◌}
use cluster_manager_das.Prelude.Names.Strip.{strip, is_space}
use cluster_manager_das.NodeExpr.Texts.{append_text}
use cluster_manager_das.NodeExpr.Expand.{in_front, node_expr_parser, stripped_parts}

-- The pieces between single spaces.
unfoldable pub split_spaces : String → List String
unfolding is_space
split_spaces String.[] = String.[] ∷ []
split_spaces (String.◌∷◌ c s) =
    let rest = split_spaces s in if is_space (code c) then String.[] ∷ rest else in_front c rest

-- `line.split()`
abbrev pub words : String → List String
words line = stripped_parts (split_spaces line)

-- `" ".join(words)`
unfoldable pub join_words : List String → String
join_words [] = ""
join_words (word ∷ []) = word
join_words (word ∷ next ∷ rest) = append_text word (append_text " " (join_words (next ∷ rest)))

-- `parts[:-4]` and `parts[-1]`, where there are five parts or more.
abbrev Columns : Type 0
Columns = Option (List String × String)

abbrev one_more : String → Columns → Columns
one_more word none = none
one_more word (some (reason, nodes)) = some (word ∷ reason, nodes)

unfoldable pub columns : List String → Columns
columns (word ∷ a ∷ b ∷ c ∷ nodes ∷ []) = some (word ∷ [], nodes)
columns (word ∷ a ∷ b ∷ c ∷ d ∷ e ∷ rest) = one_more word (columns (a ∷ b ∷ c ∷ d ∷ e ∷ rest))
columns _ = none

-- `node_reason_map`, in the order of the insertions.
abbrev pub Reasons : Type 0
Reasons = List (String × String)

unfoldable pub lookup : String → Reasons → Option String
lookup node [] = none
lookup node ((key, reason) ∷ rest) =
    let found = lookup node rest in if key == node then some reason else found

-- `reasons[node] = reason`
unfoldable pub put_reason : String → String → Reasons → Reasons
put_reason node reason [] = (node, reason) ∷ []
put_reason node reason ((key, old) ∷ rest) =
    let later = put_reason node reason rest in
    if key == node then (key, reason) ∷ rest else (key, old) ∷ later

unfoldable pub put_reasons : List String → String → Reasons → Reasons
unfolding put_reason
put_reasons [] reason reasons = reasons
put_reasons (node ∷ nodes) reason reasons =
    put_reasons nodes reason (put_reason node reason reasons)

-- The nodes of a line and their reason; none where the line is blank, has too few parts, or its nodes
-- cannot be read.
abbrev pub Line : Type 0
Line = Option (List String × String)

abbrev with_reason : String → Option (List String) → Line
with_reason reason none = none
with_reason reason (some nodes) = some (nodes, reason)

abbrev with_columns : Columns → Line
with_columns none = none
with_columns (some (reason, nodes)) = with_reason (join_words reason) (node_expr_parser nodes)

-- The body of the loop of `parse_sinfo_R`, up to the nodes. A blank line has no parts.
unfoldable pub read_line : String → Line
unfolding strip columns join_words split_spaces
read_line line = with_columns (columns (words (strip line)))

abbrev pub note_line : Line → Reasons → Reasons
note_line none reasons = reasons
note_line (some (nodes, reason)) reasons = put_reasons nodes reason reasons

unfoldable pub note_lines : List String → Reasons → Reasons
unfolding read_line put_reasons
note_lines [] reasons = reasons
note_lines (line ∷ lines) reasons = note_lines lines (note_line (read_line line) reasons)

-- The lines after the header, which is the first line that is not blank: `raw_text.strip()` takes the
-- blank ones in front away.
unfoldable pub after_header : List String → List String
unfolding strip
after_header [] = []
after_header (line ∷ lines) =
    let rest = after_header lines in if strip line == "" then rest else lines

-- `parse_sinfo_R` on the lines of the text.
unfoldable pub parse_sinfo_R : List String → Reasons
unfolding note_lines after_header
parse_sinfo_R lines = note_lines (after_header lines) []

abbrev pub keep_found : String → Option String → Reasons → Reasons
keep_found node none result = result
keep_found node (some reason) result = put_reason node reason result

-- The loop of `match_failed_nodes`
unfoldable pub match_nodes : Reasons → List String → Reasons → Reasons
unfolding lookup put_reason
match_nodes reasons [] result = result
match_nodes reasons (node ∷ nodes) result =
    match_nodes reasons nodes (keep_found node (lookup node reasons) result)

-- `match_failed_nodes`
unfoldable pub match_failed_nodes : List String → List String → Reasons
unfolding match_nodes parse_sinfo_R
match_failed_nodes lines check_nodes = match_nodes (parse_sinfo_R lines) check_nodes []
