-- ===== src/NodeExpr/Free.antt =====
-- The items of a range have no "]", so that a step of `expand_range` takes one away.
use Prim.Native.Char.{Char, code}
use Prim.Native.String.append
use cluster_manager_das.Prelude.{
  ℕ, zero, suc, ◌+◌, ◌-◌, ◌/◌, ◌%◌, ◌≤◌, String, Bool, true, false, List, [], ◌∷◌, ◌++◌, Option,
  none, some, ◌≡◌, refl, ap, arith, nat_eq, ltb, Bool-cases, if_cases, inl, inr, if◌then◌else◌,
}
use mathlib.Core.Option.{some-injective}
use cluster_manager_das.Prelude.Names.Strip.{strip, any_char, any_char-strip}
use cluster_manager_das.Runtime.Rank.{
  Integer, number, minus, parse_int, has_char, after_first, up_to,
}
use cluster_manager_das.NodeExpr.Texts.{
  padded, decimal, decimal_with, digit_text, zeros, append_text, length_of,
}
use cluster_manager_das.NodeExpr.Expand.{
  in_front, split_commas, numbered, range_between, expand_item, expand_items, count_char,
}

-- The text has no "]".
abbrev pub IsFree : String → Type 0
IsFree s = has_char b']' s ≡ false

abbrev pub AllFree : List String → Type 0
AllFree [] = Unit
AllFree (s ∷ rest) = IsFree s × AllFree rest

pub count_char-append :
    (c : ℕ) (s t : String) → count_char c (append_text s t) ≡ count_char c s + count_char c t
unfolding count_char
count_char-append c String.[] t = rw (append.nil t) (omega arith)
count_char-append c (String.◌∷◌ d s) t =
    rw (append.cons d s t) (ground (arith, count_char-append c s t))

pub count_char-free : (s : String) → IsFree s → count_char b']' s ≡ 0
unfolding count_char has_char
count_char-free String.[] h = refl
count_char-free (String.◌∷◌ d s) h = ground (arith, h, count_char-free s)

pub has_char-up_to : (c : ℕ) (s : String) → has_char c (up_to c s) ≡ false
unfolding has_char up_to
has_char-up_to c String.[] = refl
has_char-up_to c (String.◌∷◌ d s) = elim (Bool-cases (nat_eq (code d) c)) [
  | inl e ↦ rw e refl
  | inr e ↦ rw e (rw e (has_char-up_to c s))
]

-- The rest after the first one has one less, and no more of another character.
pub count_char-after_first :
    (c : ℕ) (s t : String) → after_first c s ≡ some t → count_char c s ≡ count_char c t + 1
unfolding count_char after_first
count_char-after_first c String.[] t h = cc
count_char-after_first c (String.◌∷◌ d s) t h =
    counted (nat_eq (code d) c) (count_char-after_first c s t) h
  where
    counted :
        (b : Bool)
        → (after_first c s ≡ some t → count_char c s ≡ count_char c t + 1)
        → (if b then some s else after_first c s) ≡ some t
        → (if b then count_char c s + 1 else count_char c s) ≡ count_char c t + 1
    counted true ih e = ap (λ u. count_char c u + 1) (some-injective _ _ e)
    counted false ih e = ih e

pub after_first-le :
    (c d : ℕ) (s t : String) → after_first c s ≡ some t → count_char d t ≤ count_char d s
unfolding count_char after_first
after_first-le c d String.[] t h = cc
after_first-le c d (String.◌∷◌ x s) t h = below (nat_eq (code x) c) (after_first-le c d s t) h
  where
    below :
        (b : Bool)
        → (after_first c s ≡ some t → count_char d t ≤ count_char d s)
        → (if b then some s else after_first c s) ≡ some t
        → count_char d t ≤ (if nat_eq (code x) d then count_char d s + 1 else count_char d s)
    below true ih e = ground (arith, ap (count_char d) (some-injective _ _ e))
    below false ih e = ground (arith, ih e)

IsFree-append : (s t : String) → IsFree s → IsFree t → IsFree (append_text s t)
unfolding has_char
IsFree-append String.[] t h k = rw (append.nil t) k
IsFree-append (String.◌∷◌ d s) t h k = rw (append.cons d s t) (ground (arith, h, IsFree-append s t))

IsFree-digit_text : (n : ℕ) → IsFree (digit_text n)
unfolding digit_text has_char
IsFree-digit_text zero = refl
IsFree-digit_text (suc zero) = refl
IsFree-digit_text (suc (suc zero)) = refl
IsFree-digit_text (suc (suc (suc zero))) = refl
IsFree-digit_text (suc (suc (suc (suc zero)))) = refl
IsFree-digit_text (suc (suc (suc (suc (suc zero))))) = refl
IsFree-digit_text (suc (suc (suc (suc (suc (suc zero)))))) = refl
IsFree-digit_text (suc (suc (suc (suc (suc (suc (suc zero))))))) = refl
IsFree-digit_text (suc (suc (suc (suc (suc (suc (suc (suc zero)))))))) = refl
IsFree-digit_text (suc (suc (suc (suc (suc (suc (suc (suc (suc n))))))))) = refl

IsFree-decimal_with : (fuel n : ℕ) (rest : String) → IsFree rest → IsFree (decimal_with fuel n rest)
unfolding decimal_with
IsFree-decimal_with zero n rest h = h
IsFree-decimal_with (suc fuel) n rest h =
    if_cases IsFree (ltb n 10) _ _ (IsFree-append (digit_text n) rest (IsFree-digit_text n) h) (
      IsFree-decimal_with fuel (n / 10) (append_text (digit_text (n % 10)) rest)
        (IsFree-append (digit_text (n % 10)) rest (IsFree-digit_text (n % 10)) h))

IsFree-zeros : (n : ℕ) (s : String) → IsFree s → IsFree (zeros n s)
unfolding zeros has_char
IsFree-zeros zero s h = h
IsFree-zeros (suc n) s h = IsFree-append "0" (zeros n s) refl (IsFree-zeros n s h)

IsFree-padded : (width n : ℕ) → IsFree (padded width n)
unfolding padded decimal has_char
IsFree-padded width n =
    IsFree-zeros (width - length_of (decimal n)) (decimal n) (IsFree-decimal_with (n + 1) n "" refl)

AllFree-numbered : (width first count : ℕ) → AllFree (numbered width first count)
unfolding numbered
AllFree-numbered width first zero = tt
AllFree-numbered width first (suc count) =
    (IsFree-padded width first, AllFree-numbered width (first + 1) count)

AllFree-append : (xs ys : List String) → AllFree xs → AllFree ys → AllFree (xs ++ ys)
AllFree-append [] ys h k = k
AllFree-append (x ∷ xs) ys h k = (h.0, AllFree-append xs ys h.1 k)

AllFree-range_between :
    (item s t : String) (a b : Option Integer) → IsFree item → AllFree (range_between item s t a b)
unfolding range_between
AllFree-range_between item s t (some (number a)) (some (number b)) h = AllFree-numbered _ _ _
AllFree-range_between item s t (some (number a)) (some (minus b)) h = tt
AllFree-range_between item s t (some (minus a)) (some b) h = tt
AllFree-range_between item s t none b h = (h, tt)
AllFree-range_between item s t (some (number a)) none h = (h, tt)
AllFree-range_between item s t (some (minus a)) none h = (h, tt)

AllFree-expand_item :
    (item : String) (end : Option String) → IsFree item → AllFree (expand_item item end)
unfolding expand_item
AllFree-expand_item item none h = (h, tt)
AllFree-expand_item item (some end) h =
    AllFree-range_between item (up_to b'-' item) end (parse_int (up_to b'-' item)) (parse_int end) h

has_char-any_char : (c : ℕ) (s : String) → has_char c s ≡ any_char (λ d. nat_eq (code d) c) s
unfolding has_char any_char
has_char-any_char c String.[] = refl
has_char-any_char c (String.◌∷◌ d s) = ground (arith, has_char-any_char c s)

IsFree-strip : (s : String) → IsFree s → IsFree (strip s)
IsFree-strip s h = elim (Bool-cases (has_char b']' (strip s))) [
  | inl e ↦ ground (
    arith,
    h,
    e,
    has_char-any_char b']' s,
    has_char-any_char b']' (strip s),
    any_char-strip (λ d. nat_eq (code d) b']') s,
  )
  | inr e ↦ e
]

AllFree-expand_items : (parts : List String) → AllFree parts → AllFree (expand_items parts)
unfolding expand_items
AllFree-expand_items [] h = tt
AllFree-expand_items (part ∷ parts) h =
    AllFree-append (expand_item (strip part) (after_first b'-' (strip part))) (expand_items parts)
      (AllFree-expand_item (strip part) (after_first b'-' (strip part)) (IsFree-strip part h.0))
      (AllFree-expand_items parts h.1)

AllFree-in_front :
    (c : Char) (parts : List String)
    → nat_eq (code c) b']' ≡ false
    → AllFree parts
    → AllFree (in_front c parts)
unfolding has_char
AllFree-in_front c [] e h = (ground (arith, e), tt)
AllFree-in_front c (part ∷ parts) e h = (ground (arith, e, h.0), h.1)

AllFree-split_commas : (s : String) → IsFree s → AllFree (split_commas s)
unfolding split_commas has_char
AllFree-split_commas String.[] h = (refl, tt)
AllFree-split_commas (String.◌∷◌ c s) h =
    let rest = AllFree-split_commas s (ground (arith, h)) in
    if_cases AllFree (nat_eq (code c) b',') _ _ (refl, rest)
      (AllFree-in_front c (split_commas s) (ground (arith, h)) rest)

-- The items between the brackets.
pub AllFree-items : (range : String) → IsFree range → AllFree (expand_items (split_commas range))
AllFree-items range h = AllFree-expand_items (split_commas range) (AllFree-split_commas range h)
