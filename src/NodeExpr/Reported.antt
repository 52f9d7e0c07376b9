-- ===== src/NodeExpr/Reported.antt =====
-- Which reason a node is given: the one of the last line that names it.
use cluster_manager_das.Prelude.{
  String, Bool, true, false, List, [], ◌∷◌, Option, none, some, ◌≡◌, refl, ap, sym, ◌∙◌, ◌==◌,
  eq_iff, ◌||◌, if◌then◌else◌,
}
use cluster_manager_das.Prelude.Names.{contains}
use cluster_manager_das.NodeExpr.Sinfo.{
  Reasons, Line, lookup, put_reason, put_reasons, note_line, note_lines, read_line, after_header,
  parse_sinfo_R, keep_found, match_nodes, match_failed_nodes,
}

-- The first of two answers, if there is one.
abbrev first_of : Option String → Option String → Option String
first_of none b = b
first_of (some a) b = some a

-- The reason that a line gives to a node.
abbrev given_by : String → Line → Option String
given_by node none = none
given_by node (some (nodes, reason)) = if contains node nodes then some reason else none

-- The reason that the last of the lines naming a node gives to it.
unfoldable pub last_reason : String → List String → Option String
last_reason node [] = none
last_reason node (line ∷ lines) = first_of (last_reason node lines) (given_by node (read_line line))

-- What `lookup` finds after `put_reason`, by the three comparisons of keys that they make.
lookup_put_reason_cases :
    (n key reason old : String) (rest later : Reasons)
    → (km kn mn : Bool) → (km ≡ true → kn ≡ mn)
    → (kn ≡ true → mn ≡ true → km ≡ true)
    → key == n ≡ kn
    → lookup n later ≡ (if mn then some reason else lookup n rest)
    → lookup n (if km then (key, reason) ∷ rest else (key, old) ∷ later)
      ≡ (if mn then some reason else lookup n ((key, old) ∷ rest))
unfolding lookup
lookup_put_reason_cases n key reason old rest later true true true h k e ih = rw e refl
lookup_put_reason_cases n key reason old rest later true false false h k e ih = rw e refl
lookup_put_reason_cases n key reason old rest later true true false h k e ih = cc (h refl)
lookup_put_reason_cases n key reason old rest later true false true h k e ih = cc (h refl)
lookup_put_reason_cases n key reason old rest later false true true h k e ih = cc (k refl refl)
lookup_put_reason_cases n key reason old rest later false true false h k e ih = rw e refl
lookup_put_reason_cases n key reason old rest later false false true h k e ih = rw e ih
lookup_put_reason_cases n key reason old rest later false false false h k e ih = rw e ih

lookup-put_reason :
    (n m reason : String) (reasons : Reasons)
    → lookup n (put_reason m reason reasons) ≡ (if m == n then some reason else lookup n reasons)
unfolding lookup put_reason
lookup-put_reason n m reason [] = refl
lookup-put_reason n m reason ((key, old) ∷ rest) =
    lookup_put_reason_cases n key reason old rest (put_reason m reason rest) (key == m) (key == n)
      (m == n) (λ p. ap (λ x. x == n) ((eq_iff key m).0 p))
      (λ p q. (eq_iff key m).1 (((eq_iff key n).0 p) ∙ sym ((eq_iff m n).0 q))) refl
      (lookup-put_reason n m reason rest)

lookup-put_reasons :
    (n reason : String) (nodes : List String) (reasons : Reasons)
    → lookup n (put_reasons nodes reason reasons)
      ≡ (if contains n nodes then some reason else lookup n reasons)
unfolding put_reasons contains
lookup-put_reasons n reason [] reasons = refl
lookup-put_reasons n reason (m ∷ nodes) reasons =
    lookup-put_reasons n reason nodes (put_reason m reason reasons)
    ∙ merged (m == n) (contains n nodes) (lookup-put_reason n m reason reasons)
  where
    merged :
        (a b : Bool)
        → lookup n (put_reason m reason reasons) ≡ (if a then some reason else lookup n reasons)
        → (if b then some reason else lookup n (put_reason m reason reasons))
          ≡ (if a || b then some reason else lookup n reasons)
    merged true true e = refl
    merged true false e = e
    merged false true e = refl
    merged false false e = e

lookup-note_line :
    (n : String) (line : Line) (reasons : Reasons)
    → lookup n (note_line line reasons) ≡ first_of (given_by n line) (lookup n reasons)
lookup-note_line n none reasons = refl
lookup-note_line n (some (nodes, reason)) reasons =
    lookup-put_reasons n reason nodes reasons ∙ chosen (contains n nodes)
  where
    chosen :
        (b : Bool)
        → (if b then some reason else lookup n reasons)
          ≡ first_of (if b then some reason else none) (lookup n reasons)
    chosen true = refl
    chosen false = refl

first_of_assoc : (a b c : Option String) → first_of a (first_of b c) ≡ first_of (first_of a b) c
first_of_assoc none b c = refl
first_of_assoc (some x) b c = refl

lookup-note_lines :
    (n : String) (lines : List String) (reasons : Reasons)
    → lookup n (note_lines lines reasons) ≡ first_of (last_reason n lines) (lookup n reasons)
unfolding note_lines last_reason
lookup-note_lines n [] reasons = refl
lookup-note_lines n (line ∷ lines) reasons =
    lookup-note_lines n lines (note_line (read_line line) reasons)
    ∙ ap (first_of (last_reason n lines)) (lookup-note_line n (read_line line) reasons)
    ∙ first_of_assoc (last_reason n lines) (given_by n (read_line line)) (lookup n reasons)

first_of-none : (a : Option String) → first_of a none ≡ a
first_of-none none = refl
first_of-none (some x) = refl

lookup-parse_sinfo_R :
    (n : String) (lines : List String)
    → lookup n (parse_sinfo_R lines) ≡ last_reason n (after_header lines)
unfolding parse_sinfo_R lookup
lookup-parse_sinfo_R n lines =
    lookup-note_lines n (after_header lines) [] ∙ first_of-none (last_reason n (after_header lines))

-- What one step of the loop of `match_failed_nodes` leaves for a node.
lookup-keep_found :
    (n m : String) (found : Option String) (result : Reasons)
    → lookup n (keep_found m found result)
      ≡ first_of (if m == n then found else none) (lookup n result)
lookup-keep_found n m none result = empty (m == n)
  where
    empty : (b : Bool) → lookup n result ≡ first_of (if b then none else none) (lookup n result)
    empty true = refl
    empty false = refl
lookup-keep_found n m (some reason) result = lookup-put_reason n m reason result ∙ chosen (m == n)
  where
    chosen :
        (b : Bool)
        → (if b then some reason else lookup n result)
          ≡ first_of (if b then some reason else none) (lookup n result)
    chosen true = refl
    chosen false = refl

lookup-match_nodes :
    (n : String) (reasons : Reasons) (nodes : List String) (result : Reasons)
    → lookup n (match_nodes reasons nodes result)
      ≡ first_of (if contains n nodes then lookup n reasons else none) (lookup n result)
unfolding match_nodes contains
lookup-match_nodes n reasons [] result = refl
lookup-match_nodes n reasons (m ∷ nodes) result =
    lookup-match_nodes n reasons nodes (keep_found m (lookup m reasons) result)
    ∙ ap (first_of (if contains n nodes then lookup n reasons else none))
        (lookup-keep_found n m (lookup m reasons) result)
    ∙ merged (m == n) (contains n nodes) (λ e. ap (λ x. lookup x reasons) ((eq_iff m n).0 e))
  where
    merged :
        (a b : Bool)
        → (a ≡ true → lookup m reasons ≡ lookup n reasons)
        → first_of
            (if b then lookup n reasons else none)
            (first_of (if a then lookup m reasons else none) (lookup n result))
          ≡ first_of (if a || b then lookup n reasons else none) (lookup n result)
    merged true true same = rw (same refl) (twice (lookup n reasons) (lookup n result))
      where
        twice : (x y : Option String) → first_of x (first_of x y) ≡ first_of x y
        twice none y = refl
        twice (some a) y = refl
    merged true false same = rw (same refl) refl
    merged false true same = refl
    merged false false same = refl

-- Among the nodes that are asked for, each has the reason of the last line after the header that
-- names it; a node that no line names, or that is not asked for, has none.
pub match_failed_nodes_lem :
    (lines check_nodes : List String) (node : String)
    → lookup node (match_failed_nodes lines check_nodes)
      ≡ (if contains node check_nodes then last_reason node (after_header lines) else none)
unfolding match_failed_nodes lookup
match_failed_nodes_lem lines check_nodes node =
    lookup-match_nodes node (parse_sinfo_R lines) check_nodes []
    ∙ first_of-none (if contains node check_nodes then lookup node (parse_sinfo_R lines) else none)
    ∙ ap (λ x. if contains node check_nodes then x else none) (lookup-parse_sinfo_R node lines)
