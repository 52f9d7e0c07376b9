-- ===== src/Hostfile.antt =====
-- hcu-training-reliability/cluster_manager/utils/file_utils.py: host files, as lists of lines.
use Prim.Native.Char.{code}
use cluster_manager_das.Prelude.{
  ℕ, String, ◌==◌, Bool, false, ◌||◌, List, [], ◌∷◌, Option, none, some, is_empty, nat_eq, leb, map,
  if◌then◌else◌,
}
use cluster_manager_das.Prelude.Names.{sort, dedup}
use cluster_manager_das.Prelude.Names.Strip.{strip, is_space}

-- `text.split()[0]` of a text that does not begin with white space.
unfoldable pub first_word : String → String
unfolding is_space
first_word String.[] = String.[]
first_word (String.◌∷◌ c s) =
    let rest = first_word s in if is_space (code c) then String.[] else String.◌∷◌ c rest

-- `text.startswith('#')`
unfoldable pub is_comment : String → Bool
is_comment String.[] = false
is_comment (String.◌∷◌ c s) = nat_eq (code c) b'#'

-- The host that a line of a host file names; blank lines and comments name none.
unfoldable pub host_of : String → Option String
unfolding strip is_comment first_word
host_of line =
    let stripped = strip line in
    if stripped == "" || is_comment stripped then none else some (first_word stripped)

unfoldable pub hosts_of : List String → List String
unfolding host_of
hosts_of [] = []
hosts_of (line ∷ lines) =
    let rest = hosts_of lines in elim (host_of line) [ none ↦ rest | some host ↦ host ∷ rest ]

-- `read_hostfile` on a file that exists and can be read.
unfoldable pub read_hostfile : List String → List String
unfolding hosts_of
read_hostfile lines = sort (dedup (hosts_of lines))

-- `write_slotsfile` on a path that can be written: the hosts are sorted, and an empty list or no
-- slots leave the file as it was.
unfoldable pub write_slotsfile : List String → ℕ → List (String × ℕ) → List (String × ℕ)
write_slotsfile hosts slots old =
    if is_empty hosts || leb slots 0 then old else map (λ host. (host, slots)) (sort (dedup hosts))

-- `write_hostfile` on a path that can be written.
unfoldable pub write_hostfile : List String → List String → List String
write_hostfile hosts old = if is_empty hosts then old else sort (dedup hosts)
