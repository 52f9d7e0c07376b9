-- ===== src/Topology/Layout.antt =====
-- `MegatronRankGenerator` and `infer_parallel_topology`. Sizes are natural numbers.
use Prim.Native.String.{◌++◌}
use cluster_manager_das.Prelude.{
  ℕ, ◌+◌, ◌*◌, ◌/◌, ◌%◌, String, Bool, true, false, not, ◌&&◌, ◌==◌, List, [], ◌∷◌, Option, none,
  some, map, nat_eq, ltb, if◌then◌else◌,
}
use cluster_manager_das.Prelude.Exec.{Result, ok, err, value_error, key_error, zero_division_error}
use cluster_manager_das.Topology.Tokens.{is_within, split_on, lower}
use cluster_manager_das.Topology.Ranks.{generate_masked_orthogonal_rank_groups}

-- `ParallelTopology` of models.py: a set of ranks is a list of them.
pub record ParallelTopology : Type 0 where
  pub pp_groups : List (List ℕ)
  pub tp_groups : List (List ℕ)
  pub dp_groups : List (List ℕ)

-- The fields of `MegatronRankGenerator` that `get_ranks` reads.
pub record MegatronRankGenerator : Type 0 where
  pub rank_offset : ℕ
  pub world_size : ℕ
  pub order : String
  pub ordered_size : List ℕ

-- The value that follows a first result, where that is no error.
abbrev pub and_then : {A B : Type 0} → Result A → (A → Result B) → Result B
and_then (ok a) g = g a
and_then (err e) g = err e

-- The loop that appends the dimensions which the order leaves out.
unfoldable pub complete_order : List (String × ℕ) → String → Result String
unfolding is_within
complete_order [] order = ok order
complete_order ((name, size) ∷ rest) order =
    let kept = complete_order rest order in
    let longer = complete_order rest (order ++ "-" ++ name) in
    if is_within name order then kept else if nat_eq size 1 then longer else err value_error

-- `name_to_size[token]`
unfoldable pub size_of : String → List (String × ℕ) → Result ℕ
size_of token [] = err key_error
size_of token ((name, size) ∷ rest) =
    let found = size_of token rest in if name == token then ok size else found

unfoldable pub sizes_of : List (String × ℕ) → List String → Result (List ℕ)
unfolding size_of
sizes_of table [] = ok []
sizes_of table (token ∷ tokens) =
    and_then (size_of token table)
      (λ size. and_then (sizes_of table tokens) (λ rest. ok (size ∷ rest)))

-- `MegatronRankGenerator(tp=…, ep=…, dp=…, pp=…, cp=…, order=…)`, without an offset
unfoldable pub new_generator : ℕ → ℕ → ℕ → ℕ → ℕ → String → Result MegatronRankGenerator
unfolding complete_order sizes_of lower split_on
new_generator tp ep dp pp cp order =
    let table = ("tp", tp) ∷ ("pp", pp) ∷ ("dp", dp) ∷ ("ep", ep) ∷ ("cp", cp) ∷ [] in
    if not (nat_eq ep 1) && not (nat_eq cp 1)
    then err value_error
    else and_then (complete_order table (lower order)) (λ normalized.
      and_then (sizes_of table (split_on b'-' normalized)) (λ sizes. ok (record {
        rank_offset = 0;
        world_size = tp * dp * pp * cp * ep;
        order = normalized;
        ordered_size = sizes;
      })))

-- `mask[ordered_tokens.index(item)] = True`, where `none` stands for the ValueError
unfoldable pub mark : String → List String → List Bool → Option (List Bool)
mark item (token ∷ tokens) (b ∷ mask) =
    let rest = mark item tokens mask in
    if token == item
    then some (true ∷ mask)
    else elim rest [ none ↦ none | some bs ↦ some (b ∷ bs) ]
mark item _ _ = none

unfoldable pub mark_all : List String → List String → List Bool → Result (List Bool)
unfolding mark
mark_all [] tokens mask = ok mask
mark_all (item ∷ items) tokens mask = elim (mark item tokens mask) [
  | none ↦ err value_error
  | some bs ↦ mark_all items tokens bs
]

-- `get_ranks`
unfoldable pub get_ranks : String → MegatronRankGenerator → Result (List (List ℕ))
unfolding mark_all split_on generate_masked_orthogonal_rank_groups
get_ranks token g =
    let tokens = split_on b'-' g.order in
    and_then (mark_all (split_on b'-' token) tokens (map (λ t. false) tokens)) (λ mask.
      let groups = generate_masked_orthogonal_rank_groups g.world_size g.ordered_size mask in
      ok (
        if nat_eq g.rank_offset 0
        then groups
        else map (λ ranks. map (λ r. r + g.rank_offset) ranks) groups))

-- `order or DEFAULT_PARALLEL_ORDER`
abbrev or_default_order : Option String → String
or_default_order none = "tp-cp-ep-dp-pp"
or_default_order (some order) = if order == "" then "tp-cp-ep-dp-pp" else order

-- `resolve_parallel_order`
unfoldable pub resolve_parallel_order : Option String → Bool → String
resolve_parallel_order order use_tp_pp_dp_mapping =
    if use_tp_pp_dp_mapping then "tp-cp-ep-pp-dp" else or_default_order order

-- The arguments of `infer_parallel_topology` that follow the number of ranks.
pub record Layout : Type 0 where
  pub pp_size : ℕ
  pub tp_size : ℕ
  pub dp_size : Option ℕ
  pub cp_size : ℕ
  pub ep_size : ℕ
  pub order : Option String
  pub use_tp_pp_dp_mapping : Bool

abbrev pub given_or : ℕ → Option ℕ → ℕ
given_or n none = n
given_or n (some m) = m

-- `dp_size`, with its default
unfoldable pub dp_of : ℕ → Layout → ℕ
dp_of world_size l = given_or (world_size / (l.pp_size * l.tp_size)) l.dp_size

-- The groups of a generator, those of the tensor dimension only where it has more than one rank.
unfoldable pub topology_of : ℕ → MegatronRankGenerator → Result ParallelTopology
unfolding get_ranks
topology_of tp g = and_then (get_ranks "pp" g) (λ pp_groups.
    and_then (if ltb 1 tp then get_ranks "tp" g else ok []) (λ tp_groups.
      and_then (get_ranks "dp" g) (λ dp_groups.
        ok (record { pp_groups = pp_groups; tp_groups = tp_groups; dp_groups = dp_groups }))))

-- `infer_parallel_topology`
unfoldable pub infer_parallel_topology : ℕ → Layout → Result ParallelTopology
unfolding dp_of new_generator topology_of resolve_parallel_order
infer_parallel_topology world_size l =
    let dp = dp_of world_size l in
    if ltb world_size 1
    then err value_error
    else if nat_eq (l.pp_size * l.tp_size) 0
    then err zero_division_error
    else if not (nat_eq (world_size % (l.pp_size * l.tp_size)) 0)
    then err value_error
    else if not (nat_eq (l.tp_size * l.pp_size * dp * l.cp_size * l.ep_size) world_size)
    then err value_error
    else and_then
        (new_generator l.tp_size l.ep_size dp l.pp_size l.cp_size
          (resolve_parallel_order l.order l.use_tp_pp_dp_mapping))
        (topology_of l.tp_size)
