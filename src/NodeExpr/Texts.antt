-- ===== src/NodeExpr/Texts.antt =====
-- Texts as the expressions use them: parts between commas, and numbers of a given width.
use Prim.Native.String.{◌++◌}
use cluster_manager_das.Prelude.{ℕ, zero, suc, ◌+◌, ◌-◌, ◌/◌, ◌%◌, String, ltb, if◌then◌else◌}

-- `s + t`
abbrev pub append_text : String → String → String
append_text s t = s ++ t

-- `len(s)`
unfoldable pub length_of : String → ℕ
length_of String.[] = 0
length_of (String.◌∷◌ c s) = length_of s + 1

-- The text of one digit.
unfoldable pub digit_text : ℕ → String
digit_text zero = "0"
digit_text (suc zero) = "1"
digit_text (suc (suc zero)) = "2"
digit_text (suc (suc (suc zero))) = "3"
digit_text (suc (suc (suc (suc zero)))) = "4"
digit_text (suc (suc (suc (suc (suc zero))))) = "5"
digit_text (suc (suc (suc (suc (suc (suc zero)))))) = "6"
digit_text (suc (suc (suc (suc (suc (suc (suc zero))))))) = "7"
digit_text (suc (suc (suc (suc (suc (suc (suc (suc zero)))))))) = "8"
digit_text _ = "9"

-- The digits of a number in front of a text, on fuel; `decimal` gives enough, since each step divides
-- the number by ten.
unfoldable pub decimal_with : ℕ → ℕ → String → String
unfolding digit_text
decimal_with zero n rest = rest
decimal_with (suc fuel) n rest =
    let more = decimal_with fuel (n / 10) (digit_text (n % 10) ++ rest) in
    if ltb n 10 then digit_text n ++ rest else more

-- `str(n)`
unfoldable pub decimal : ℕ → String
unfolding decimal_with
decimal n = decimal_with (n + 1) n ""

-- Zeros in front.
unfoldable pub zeros : ℕ → String → String
zeros zero s = s
zeros (suc n) s = "0" ++ zeros n s

-- `f"{n:0{width}d}"`
unfoldable pub padded : ℕ → ℕ → String
unfolding decimal zeros length_of
padded width n = zeros (width - length_of (decimal n)) (decimal n)
