-- ===== src/NodeExpr/Ends.antt =====
-- `expand_range` and the digits of a number: their fuel is enough.
use cluster_manager_das.Prelude.{
  ℕ, zero, suc, ◌+◌, ◌<◌, ◌/◌, ◌%◌, String, List, [], ◌∷◌, Option, none, some, ◌≡◌, refl, arith,
  ltb, Bool-cases, inl, inr,
}
use cluster_manager_das.Prelude.Names.Strip.{strip}
use cluster_manager_das.Runtime.Rank.{after_first, up_to}
use cluster_manager_das.NodeExpr.Texts.{append_text, digit_text, decimal_with}
use cluster_manager_das.NodeExpr.Expand.{
  split_commas, expand_items, count_char, next_step, opened, closed, joined, prefixed, combine,
  expand_step, expand_with, expand_range, expand_all, split_outside_brackets, node_expr_parser,
}
use cluster_manager_das.NodeExpr.Free.{
  AllFree, AllFree-items, count_char-append, count_char-free, count_char-after_first,
  after_first-le, has_char-up_to,
}

-- More fuel than the number changes nothing: `decimal` gives one more than that.
decimal_with_more :
    (fuel n : ℕ) (rest : String)
    → n < fuel
    → decimal_with (suc fuel) n rest ≡ decimal_with fuel n rest
unfolding decimal_with
decimal_with_more zero n rest h = absurd (omega arith)
decimal_with_more (suc fuel) n rest h = elim (Bool-cases (ltb n 10)) [
  | inl e ↦ rw e refl
  | inr e ↦ rw e (
      decimal_with_more fuel (n / 10) (append_text (digit_text (n % 10)) rest)
        (ground (arith, h, e)))
]

-- The computation returns.
abbrev Ends : Option (List String) → Type 0
Ends result = (xs : List String) × result ≡ some xs

Ends-joined : (a b : Option (List String)) → Ends a → Ends b → Ends (joined a b)
Ends-joined none b (xs, e) q = cc
Ends-joined (some xs) none p (ys, e) = cc
Ends-joined (some xs) (some ys) p q = (_, refl)

Ends-prefixed : (prefix : String) (a : Option (List String)) → Ends a → Ends (prefixed prefix a)
Ends-prefixed prefix none (xs, e) = cc
Ends-prefixed prefix (some xs) p = (_, refl)

-- The recursive call returns on texts with fewer than `n` of "]".
abbrev EndsBelow : ℕ → (String → Option (List String)) → Type 0
EndsBelow n again = (s : String) → count_char b']' s < n → Ends (again s)

Ends-combine :
    (n : ℕ) (again : String → Option (List String))
    → EndsBelow n again
    → (prefix suffix : String) → count_char b']' suffix < n
    → (items : List String) → AllFree items
    → Ends (combine again prefix suffix items)
unfolding combine
Ends-combine n again ends prefix suffix below [] free = ([], refl)
Ends-combine n again ends prefix suffix below (item ∷ items) free =
    Ends-joined _ _
      (Ends-prefixed prefix (again (append_text item suffix)) (
        ends (append_text item suffix)
          (ground (arith, below, count_char-append b']' item suffix, count_char-free item free.0))))
      (Ends-combine n again ends prefix suffix below items free.1)

Ends-closed :
    (n : ℕ) (again : String → Option (List String))
    → EndsBelow n again
    → (expr prefix rest : String) → count_char b']' rest < n + 1
    → (found : Option String) → after_first b']' rest ≡ found
    → Ends (expand_step again expr (closed prefix (up_to b']' rest) found))
unfolding expand_step
Ends-closed n again ends expr prefix rest below none e = (expr ∷ [], refl)
Ends-closed n again ends expr prefix rest below (some suffix) e =
    Ends-combine n again ends prefix suffix
      (ground (arith, below, count_char-after_first b']' rest suffix e))
      (expand_items (split_commas (up_to b']' rest)))
      (AllFree-items (up_to b']' rest) (has_char-up_to b']' rest))

Ends-opened :
    (n : ℕ) (again : String → Option (List String))
    → EndsBelow n again
    → (expr : String) → count_char b']' expr < n + 1
    → (prefix : String) (found : Option String) → after_first b'[' expr ≡ found
    → Ends (expand_step again expr (opened prefix found))
unfolding expand_step
Ends-opened n again ends expr below prefix none e = (expr ∷ [], refl)
Ends-opened n again ends expr below prefix (some rest) e =
    Ends-closed n again ends expr prefix rest
      (ground (arith, below, after_first-le b'[' b']' expr rest e)) (after_first b']' rest) refl

Ends-expand_with : (fuel : ℕ) → EndsBelow fuel (expand_with fuel)
unfolding expand_with next_step
Ends-expand_with zero expr below = absurd (omega arith)
Ends-expand_with (suc fuel) expr below =
    Ends-opened fuel (expand_with fuel) (Ends-expand_with fuel) expr (ground (arith, below))
      (up_to b'[' expr) (after_first b'[' expr) refl

Ends-expand_range : (expr : String) → Ends (expand_range expr)
unfolding expand_range
Ends-expand_range expr = Ends-expand_with (count_char b']' expr + 1) expr (omega arith)

Ends-expand_all : (exprs : List String) → Ends (expand_all exprs)
unfolding expand_all
Ends-expand_all [] = ([], refl)
Ends-expand_all (expr ∷ exprs) =
    Ends-joined _ _ (Ends-expand_range (strip (up_to b'(' expr))) (Ends-expand_all exprs)

-- The parser ends on every text, with a list of nodes: a range is replaced by names without a "]",
-- so each nested call of `expand_range` has fewer of them than its caller.
pub node_expr_parser_ends : (s : String) → (nodes : List String) × node_expr_parser s ≡ some nodes
unfolding node_expr_parser
node_expr_parser_ends s = Ends-expand_all (split_outside_brackets s)
