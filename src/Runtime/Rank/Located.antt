-- ===== src/Runtime/Rank/Located.antt =====
-- The rank of a fault is the number that the launcher printed last.
use Prim.Native.Char.{Char, code, nul}
use Prim.Native.String.{◌++◌}
use Prim.Native.String.append
use cluster_manager_das.Prelude.{
  ℕ, ◌+◌, ◌-◌, ◌*◌, String, true, false, ◌||◌, some, nat_eq, ◌≡◌, refl, arith, Bool-cases, inl, inr,
}
use cluster_manager_das.Prelude.Names.Strip.{NoSpace, strip-solid, is_space}
use cluster_manager_das.Runtime.Rank.{
  number, is_digit, read_digits, parse_signed, parse_int, has_char, after_first, after_last, up_to,
  keep_digits, rank_of_second_part, rank_before_bracket, parse_rank_from_fault,
}

-- The text is digits only.
abbrev pub AllDigits : String → Type 0
AllDigits String.[] = Unit
AllDigits (String.◌∷◌ c s) = (is_digit c ≡ true) × AllDigits s

-- No character of the text is a digit.
abbrev pub NoDigits : String → Type 0
NoDigits String.[] = Unit
NoDigits (String.◌∷◌ c s) = (is_digit c ≡ false) × NoDigits s

-- The number that digits write in base ten, after `n`.
unfoldable pub value : ℕ → String → ℕ
value n String.[] = n
value n (String.◌∷◌ c s) = value (n * 10 + (code c - b'0')) s

AllDigits-NoSpace : (ds : String) → AllDigits ds → NoSpace ds
AllDigits-NoSpace String.[] h = tt
AllDigits-NoSpace (String.◌∷◌ c s) h =
    (unfold is_space is_digit in ground (arith, h.0), AllDigits-NoSpace s h.1)

read_digits_value : (n : ℕ) (ds : String) → AllDigits ds → read_digits true n ds ≡ some (value n ds)
unfolding read_digits value
read_digits_value n String.[] h = refl
read_digits_value n (String.◌∷◌ c s) h =
    rw (h.0, read_digits_value (n * 10 + (code c - b'0')) s h.1) refl

-- A number as it is printed is read back.
parse_int_value :
    (c : Char) (ds : String)
    → AllDigits (String.◌∷◌ c ds)
    → parse_int (String.◌∷◌ c ds) ≡ some (number (value 0 (String.◌∷◌ c ds)))
unfolding parse_int parse_signed read_digits value
parse_int_value c ds h =
    let not_minus : nat_eq (code c) b'-' ≡ false = unfold is_digit in ground (arith, h.0) in
    let not_plus : nat_eq (code c) b'+' ≡ false = unfold is_digit in ground (arith, h.0) in
    rw
      (
        strip-solid (String.◌∷◌ c ds) (AllDigits-NoSpace (String.◌∷◌ c ds) h),
        not_minus,
        not_plus,
        h.0,
        read_digits_value (0 + (code c - b'0')) ds h.1,
      )
      refl

after_first-append :
    (c : Char) (s t : String)
    → has_char (code c) s ≡ false
    → after_first (code c) (s ++ String.◌∷◌ c t) ≡ some t
unfolding after_first has_char
after_first-append c String.[] t h = rw (append.nil (String.◌∷◌ c t)) (ground arith)
after_first-append c (String.◌∷◌ d s) t h =
    rw (append.cons d s (String.◌∷◌ c t)) (ground (arith, after_first-append c s t))

has_char-append : (c : ℕ) (s t : String) → has_char c (s ++ t) ≡ (has_char c s || has_char c t)
unfolding has_char
has_char-append c String.[] t = rw (append.nil t) refl
has_char-append c (String.◌∷◌ d s) t =
    rw (append.cons d s t) (ground (arith, has_char-append c s t))

after_last-append :
    (c : Char) (s t : String)
    → has_char (code c) t ≡ false
    → after_last (code c) (s ++ String.◌∷◌ c t) ≡ some t
unfolding after_last has_char
after_last-append c String.[] t h = rw (append.nil (String.◌∷◌ c t)) (ground arith)
after_last-append c (String.◌∷◌ d s) t h =
    rw (append.cons d s (String.◌∷◌ c t))
      (ground (arith, after_last-append c s t, has_char-append (code c) s (String.◌∷◌ c t)))

has_char-AllDigits :
    (c : Char) (ds : String) → is_digit c ≡ false → AllDigits ds → has_char (code c) ds ≡ false
unfolding has_char is_digit
has_char-AllDigits c String.[] e h = refl
has_char-AllDigits c (String.◌∷◌ d s) e h = ground (arith, has_char-AllDigits c s e h.1, h.0)

up_to-append :
    (c : Char) (s t : String)
    → has_char (code c) s ≡ false
    → up_to (code c) (s ++ String.◌∷◌ c t) ≡ s
unfolding up_to has_char
up_to-append c String.[] t h = rw (append.nil (String.◌∷◌ c t)) (ground arith)
up_to-append c (String.◌∷◌ d s) t h =
    rw (append.cons d s (String.◌∷◌ c t)) (ground (arith, up_to-append c s t))

keep_digits-NoDigits : (s : String) → NoDigits s → keep_digits (up_to b',' s) ≡ String.[]
unfolding keep_digits up_to
keep_digits-NoDigits String.[] h = refl
keep_digits-NoDigits (String.◌∷◌ c s) h = elim (Bool-cases (nat_eq (code c) b',')) [
  | inl e ↦ rw e refl
  | inr e ↦ rw (e, h.0) (keep_digits-NoDigits s h.1)
]

keep_digits-AllDigits :
    (ds s : String) → AllDigits ds → NoDigits s → keep_digits (up_to b',' (ds ++ s)) ≡ ds
unfolding keep_digits up_to
keep_digits-AllDigits String.[] s h k = rw (append.nil s) (keep_digits-NoDigits s k)
keep_digits-AllDigits (String.◌∷◌ c ds) s h k =
    let not_comma : nat_eq (code c) b',' ≡ false = unfold is_digit in ground (arith, h.0) in
    rw (append.cons c ds s, not_comma, h.0, keep_digits-AllDigits ds s h.1 k) refl

abbrev pub first_char : String → Char
first_char String.[] = nul
first_char (String.◌∷◌ c s) = c

abbrev comma : Char
comma = first_char ","

abbrev bracket : Char
bracket = first_char "]"

-- In a text like "[prterun-host-pid@1,76]", with nothing but digits `c ∷ ds` between the first comma
-- and a rest without digits, and "@" in front of the comma, the rank is the number that these digits
-- write; the digits in front of the comma, of the host's name and of the process, do not count.
pub parse_rank_from_fault_launcher :
    (before after : String) (c : Char) (ds : String)
    → has_char b'@' before ≡ true
    → has_char b',' before ≡ false
    → AllDigits (String.◌∷◌ c ds)
    → NoDigits after
    → parse_rank_from_fault (before ++ "," ++ (String.◌∷◌ c ds) ++ after)
      ≡ some (number (value 0 (String.◌∷◌ c ds)))
unfolding parse_rank_from_fault rank_of_second_part
parse_rank_from_fault_launcher before after c ds at no_comma h k =
    rw
      (
        has_char-append b'@' before _,
        at,
        append.cons comma "" _,
        append.nil _,
        after_first-append comma before _ no_comma,
        keep_digits-AllDigits (String.◌∷◌ c ds) after h k,
      )
      (parse_int_value c ds h)

-- In a text like "Process name: [[24917,1],18]", without "@", with nothing but digits `c ∷ ds`
-- between the last comma and the next bracket, the rank is the number that these digits write.
pub parse_rank_from_fault_process :
    (before after : String) (c : Char) (ds : String)
    → has_char b'@' before ≡ false
    → has_char b'@' after ≡ false
    → has_char b',' after ≡ false
    → AllDigits (String.◌∷◌ c ds)
    → parse_rank_from_fault (before ++ "," ++ (String.◌∷◌ c ds) ++ "]" ++ after)
      ≡ some (number (value 0 (String.◌∷◌ c ds)))
unfolding parse_rank_from_fault rank_before_bracket
parse_rank_from_fault_process before after c ds at at' no_comma h =
    let number_at : has_char b'@' (String.◌∷◌ c ds) ≡ false =
      has_char-AllDigits (first_char "@") (String.◌∷◌ c ds) refl h in
    let number_comma : has_char b',' (String.◌∷◌ c ds) ≡ false =
      has_char-AllDigits comma (String.◌∷◌ c ds) refl h in
    let number_bracket : has_char b']' (String.◌∷◌ c ds) ≡ false =
      has_char-AllDigits bracket (String.◌∷◌ c ds) refl h in
    let tail : String = String.◌∷◌ c ds ++ String.◌∷◌ bracket after in
    let tail_at : has_char b'@' tail ≡ false =
      rw (has_char-append b'@' (String.◌∷◌ c ds) _, number_at) (unfold has_char in at') in
    let tail_comma : has_char b',' tail ≡ false =
      rw (has_char-append b',' (String.◌∷◌ c ds) _, number_comma) (unfold has_char in no_comma) in
    let tail_bracket : has_char b']' tail ≡ true =
      rw (has_char-append b']' (String.◌∷◌ c ds) _, number_bracket) (unfold has_char in refl) in
    let text_at : has_char b'@' (before ++ String.◌∷◌ comma tail) ≡ false =
      rw (has_char-append b'@' before _, at) (unfold has_char in tail_at) in
    rw
      (
        append.cons bracket "" after,
        append.nil after,
        append.cons comma "" _,
        append.nil _,
        text_at,
        after_last-append comma before tail tail_comma,
        tail_bracket,
        up_to-append bracket (String.◌∷◌ c ds) after number_bracket,
      )
      (parse_int_value c ds h)
