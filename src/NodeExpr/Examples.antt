-- ===== src/NodeExpr/Examples.antt =====
-- Expressions for nodes, as the cluster's tools print them.
use cluster_manager_das.Prelude.{String, List, [], ◌∷◌, some, ◌≡◌, refl}
use cluster_manager_das.Prelude.Names.Strip.{strip}
use cluster_manager_das.Runtime.Rank.{
  parse_int, parse_signed, read_digits, is_digit, up_to, after_first,
}
use cluster_manager_das.NodeExpr.Texts.{padded, decimal, decimal_with, digit_text, zeros, length_of}
use cluster_manager_das.NodeExpr.Expand.{
  node_expr_parser, expand_all, expand_range, expand_with, expand_step, next_step, combine,
  expand_items, expand_item, range_between, numbered, split_commas, split_outside_brackets,
  split_at_depth, stripped_parts, count_char,
}
use cluster_manager_das.Prelude.Names.{contains}
use cluster_manager_das.Prelude.Names.Strip.{is_space}
use cluster_manager_das.NodeExpr.Sinfo.{
  match_failed_nodes, match_nodes, parse_sinfo_R, note_lines, read_line, after_header, lookup,
  put_reason, put_reasons, columns, join_words, split_spaces,
}
use cluster_manager_das.NodeExpr.Reported.{match_failed_nodes_lem, last_reason}
use cluster_manager_das.NodeExpr.Ends.{node_expr_parser_ends}

two_parts_test :
    node_expr_parser "b1n[08-10,3] (3), b2[1,2]n5"
    ≡ some ("b1n08" ∷ "b1n09" ∷ "b1n10" ∷ "b1n3" ∷ "b21n5" ∷ "b22n5" ∷ [])
unfolding node_expr_parser expand_all expand_range expand_with expand_step next_step combine
    expand_items expand_item range_between numbered split_commas split_outside_brackets
    split_at_depth stripped_parts count_char padded decimal decimal_with digit_text zeros length_of
    strip parse_int parse_signed read_digits is_digit up_to after_first
two_parts_test = refl

node_expr_parser_ends_example :
    (nodes : List String) × node_expr_parser "b1n[08-10,3] (3), b2[1,2]n5" ≡ some nodes
node_expr_parser_ends_example = node_expr_parser_ends "b1n[08-10,3] (3), b2[1,2]n5"

abbrev sinfo_lines : List String
sinfo_lines =
    "" ∷ "REASON USER TIMESTAMP STATE NODELIST" ∷ "under repair root 2026-01-01 down node[01-02]"
    ∷ "broken" ∷ []

match_failed_nodes_test :
    match_failed_nodes sinfo_lines ("node01" ∷ "node03" ∷ []) ≡ ("node01", "under repair") ∷ []
unfolding match_failed_nodes match_nodes parse_sinfo_R note_lines read_line after_header lookup
    put_reason put_reasons columns join_words split_spaces node_expr_parser expand_all expand_range
    expand_with expand_step next_step combine expand_items expand_item range_between numbered
    split_commas split_outside_brackets split_at_depth stripped_parts count_char padded decimal
    decimal_with digit_text zeros length_of strip parse_int parse_signed read_digits is_digit
    is_space up_to after_first
match_failed_nodes_test = refl

match_failed_nodes_lem_example :
    lookup "node01" (match_failed_nodes sinfo_lines ("node01" ∷ "node03" ∷ []))
    ≡ last_reason "node01" (after_header sinfo_lines)
unfolding contains
match_failed_nodes_lem_example =
    match_failed_nodes_lem sinfo_lines ("node01" ∷ "node03" ∷ []) "node01"
