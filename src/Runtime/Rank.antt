-- ===== src/Runtime/Rank.antt =====
-- runtime_context.py: `_parse_rank_from_fault`. A text is read character by character; digits are the
-- ASCII ones.
pub mod Located
use Prim.Native.Char.{Char, code}
use cluster_manager_das.Prelude.{
  ℕ, ◌+◌, ◌-◌, ◌*◌, zero, suc, String, Bool, true, false, ◌&&◌, ◌||◌, Option, none, some, leb,
  nat_eq, if◌then◌else◌,
}
use cluster_manager_das.Prelude.Names.Strip.{strip}

-- What `int` gives: a natural number, or `minus n` for -(n + 1).
pub data Integer : Type 0 where
  number minus : ℕ → Integer

unfoldable pub is_digit : Char → Bool
is_digit c = leb b'0' (code c) && leb (code c) b'9'

-- The digits of a number, most significant first, with `n` read before them. Python lets one
-- underscore stand between two digits; `after` says that the last character was a digit.
unfoldable pub read_digits : Bool → ℕ → String → Option ℕ
unfolding is_digit
read_digits after n String.[] = if after then some n else none
read_digits after n (String.◌∷◌ c s) =
    let digit = is_digit c in
    let rest = read_digits digit (if digit then n * 10 + (code c - b'0') else n) s in
    if digit || after && nat_eq (code c) b'_' then rest else none

abbrev negated : Option ℕ → Option Integer
negated none = none
negated (some zero) = some (number 0)
negated (some (suc n)) = some (minus n)

abbrev counted : Option ℕ → Option Integer
counted none = none
counted (some n) = some (number n)

-- `int(s)` of a stripped text; `none` stands for `ValueError`.
unfoldable pub parse_signed : String → Option Integer
unfolding read_digits
parse_signed String.[] = none
parse_signed (String.◌∷◌ c s) =
    if nat_eq (code c) b'-'
    then negated (read_digits false 0 s)
    else if nat_eq (code c) b'+'
    then counted (read_digits false 0 s)
    else counted (read_digits false 0 (String.◌∷◌ c s))

unfoldable pub parse_int : String → Option Integer
unfolding strip parse_signed
parse_int s = parse_signed (strip s)

-- `c in s`
unfoldable pub has_char : ℕ → String → Bool
has_char c String.[] = false
has_char c (String.◌∷◌ d s) = nat_eq (code d) c || has_char c s

-- The text after the first `c`: `s.split(c)` without its first part, joined again.
unfoldable pub after_first : ℕ → String → Option String
after_first c String.[] = none
after_first c (String.◌∷◌ d s) =
    let rest = after_first c s in if nat_eq (code d) c then some s else rest

-- The text up to the first `c`, or all of it.
unfoldable pub up_to : ℕ → String → String
up_to c String.[] = String.[]
up_to c (String.◌∷◌ d s) =
    let rest = up_to c s in if nat_eq (code d) c then String.[] else String.◌∷◌ d rest

-- The text after the last `c`: what follows `s.rfind(c)`.
unfoldable pub after_last : ℕ → String → Option String
unfolding has_char
after_last c String.[] = none
after_last c (String.◌∷◌ d s) =
    let rest = after_last c s in
    if has_char c s then rest else if nat_eq (code d) c then some s else none

-- `"".join(ch for ch in s if ch.isdigit())`
unfoldable pub keep_digits : String → String
unfolding is_digit
keep_digits String.[] = String.[]
keep_digits (String.◌∷◌ c s) =
    let rest = keep_digits s in if is_digit c then String.◌∷◌ c rest else rest

-- "[prterun-a05r3n07-802797@1,76]": the digits of the second part.
unfoldable pub rank_of_second_part : Option String → Option Integer
unfolding up_to keep_digits parse_int
rank_of_second_part none = none
rank_of_second_part (some s) = parse_int (keep_digits (up_to b',' s))

-- "Process name: [[24917,1],18]": what stands between the last comma and the next bracket.
unfoldable pub rank_before_bracket : Option String → Option Integer
unfolding has_char up_to parse_int
rank_before_bracket none = none
rank_before_bracket (some s) = if has_char b']' s then parse_int (up_to b']' s) else none

-- `_parse_rank_from_fault`; `none` stands for `ValueError`.
unfoldable pub parse_rank_from_fault : String → Option Integer
unfolding has_char after_first after_last rank_of_second_part rank_before_bracket
parse_rank_from_fault s =
    if has_char b'@' s
    then rank_of_second_part (after_first b',' s)
    else rank_before_bracket (after_last b',' s)
