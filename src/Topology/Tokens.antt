-- ===== src/Topology/Tokens.antt =====
-- The texts that name dimensions: lower case, search and `split`. A text is taken to be ASCII.
use Prim.Native.Char.{Char, code}
use cluster_manager_das.Prelude.{
  ℕ, String, Bool, true, false, ◌&&◌, ◌||◌, List, [], ◌∷◌, nat_eq, if◌then◌else◌,
}

-- `t.startswith(s)`
unfoldable pub is_prefix : String → String → Bool
is_prefix String.[] t = true
is_prefix (String.◌∷◌ c s) String.[] = false
is_prefix (String.◌∷◌ c s) (String.◌∷◌ d t) = nat_eq (code c) (code d) && is_prefix s t

-- `s in t`
unfoldable pub is_within : String → String → Bool
unfolding is_prefix
is_within s String.[] = is_prefix s String.[]
is_within s (String.◌∷◌ d t) = is_prefix s (String.◌∷◌ d t) || is_within s t

-- A character in front of the first part.
abbrev in_front : Char → List String → List String
in_front c [] = String.◌∷◌ c String.[] ∷ []
in_front c (part ∷ parts) = String.◌∷◌ c part ∷ parts

-- `s.split(c)` for a character
unfoldable pub split_on : ℕ → String → List String
split_on c String.[] = "" ∷ []
split_on c (String.◌∷◌ d s) =
    let rest = split_on c s in if nat_eq (code d) c then "" ∷ rest else in_front d rest

-- The character at the same place of the second text as `c` has in the first one.
unfoldable pub replaced_by : String → String → Char → Char
replaced_by (String.◌∷◌ a s) (String.◌∷◌ b t) c =
    let rest = replaced_by s t c in if nat_eq (code a) (code c) then b else rest
replaced_by _ _ c = c

-- `s.lower()`
unfoldable pub lower : String → String
unfolding replaced_by
lower String.[] = String.[]
lower (String.◌∷◌ c s) =
    String.◌∷◌ (replaced_by "ABCDEFGHIJKLMNOPQRSTUVWXYZ" "abcdefghijklmnopqrstuvwxyz" c) (lower s)
