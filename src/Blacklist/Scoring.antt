-- ===== src/Blacklist/Scoring.antt =====
-- `ScoringEngine`: the score of a node, the order of the nodes by it, and when a node is banned.
use cluster_manager_das.Prelude.{
  ℕ, ◌+◌, String, Bool, true, false, ◌&&◌, ◌||◌, not, ◌==◌, List, [], ◌∷◌, Option, none, some, leb,
  nat_eq, map, if◌then◌else◌,
}
use Prim.Native.Char.{code}
use cluster_manager_das.Runtime.Rank.{Integer, number, parse_int}
use cluster_manager_das.Prelude.Names.{contains}
use cluster_manager_das.Blacklist.Floats.{Floats, at_least_zero, hours_between, seconds_between}
use cluster_manager_das.Blacklist.Records.{
  FaultType, FaultSeverity, normal, warning, fatal_severity, BlacklistConfig, FaultRecord,
  NodeRecord, is_manual, same_type, count_faults, weight, soft_ban_threshold, auto_ban_threshold,
}

-- The codes of `FATAL_XID_CODES`, `WARNING_XID_CODES` and `FATAL_ERROR_CODES`.
abbrev fatal_xid_codes : List ℕ
fatal_xid_codes = 76 ∷ 61 ∷ 62 ∷ 63 ∷ 64 ∷ 65 ∷ 68 ∷ []

abbrev warning_xid_codes : List ℕ
warning_xid_codes = 31 ∷ 32 ∷ 48 ∷ 49 ∷ 55 ∷ []

abbrev fatal_error_codes : List String
fatal_error_codes = "HCU_RESET" ∷ "BAD_OP" ∷ "SDMA_QUEUE_ERROR" ∷ "CP_QUEUE_ERROR" ∷ []

unfoldable pub has_number : ℕ → List ℕ → Bool
has_number n [] = false
has_number n (m ∷ ms) = nat_eq m n || has_number n ms

-- `code.replace("Xid", "")`
unfoldable pub without_xid : String → String
without_xid (String.◌∷◌ a (String.◌∷◌ b (String.◌∷◌ c s))) =
    let skipped = without_xid s in
    let kept = without_xid (String.◌∷◌ b (String.◌∷◌ c s)) in
    if nat_eq (code a) b'X' && nat_eq (code b) b'i' && nat_eq (code c) b'd'
    then skipped
    else String.◌∷◌ a kept
without_xid s = s

-- The severity of a number, where it is one that is listed.
unfoldable pub xid_severity : Option Integer → Option FaultSeverity
unfolding has_number
xid_severity (some (number n)) =
    if has_number n fatal_xid_codes
    then some fatal_severity
    else if has_number n warning_xid_codes
    then some warning
    else none
xid_severity _ = none

abbrev severity_or : FaultSeverity → Option FaultSeverity → FaultSeverity
severity_or s none = s
severity_or s (some t) = t

-- `determine_severity`
unfoldable pub determine_severity : Option String → FaultSeverity
unfolding xid_severity without_xid parse_int contains
determine_severity none = normal
determine_severity (some text) =
    if text == ""
    then normal
    else severity_or (if contains text fatal_error_codes then fatal_severity else normal)
        (xid_severity (parse_int (without_xid text)))

-- `ScoredNode`
pub record ScoredNode (F : Type 0) : Type 0 where
  pub node_name : String
  pub fault_score : F
  pub is_fatal : Bool
  pub is_soft_banned : Bool
  pub total_fault_count : ℕ
  pub last_fault_weight : F

-- `False` before `True`, then what follows.
abbrev pub fatal_then : Bool → Bool → Bool → Bool
fatal_then true false rest = false
fatal_then false true rest = true
fatal_then _ _ rest = rest

module _ {F : Type 0} ⦃f : Floats F⦄ where
  -- `compute_uptime_penalty`
  unfoldable pub compute_uptime_penalty : BlacklistConfig F → F → Option F → F
  compute_uptime_penalty cfg base none = f.of_nat 0
  compute_uptime_penalty cfg base (some hours) =
      if f.at_most base (f.of_nat 0)
      then f.of_nat 0
      else let tau =
          if f.at_most cfg.uptime_reference_hours (f.div (f.of_nat 1) (f.of_nat 100))
          then f.div (f.of_nat 1) (f.of_nat 100)
          else cfg.uptime_reference_hours in
        f.div (f.mul cfg.uptime_penalty_weight base) (f.add (f.of_nat 1) (f.div hours tau))

  -- The weight and the penalty of one record; records of an old format have no weight of their own.
  unfoldable pub undecayed : BlacklistConfig F → FaultRecord F → F
  unfolding compute_uptime_penalty weight
  undecayed cfg r =
      if f.at_most r.base_score (f.of_nat 0)
      then f.add (weight cfg r.fault_type)
          (compute_uptime_penalty cfg (weight cfg r.fault_type) r.uptime_hours)
      else f.add r.base_score r.uptime_penalty

  -- The loop of `compute_score`, with the sum so far.
  unfoldable pub add_scores : BlacklistConfig F → ℕ → F → List (FaultRecord F) → F
  unfolding undecayed is_manual at_least_zero hours_between
  add_scores cfg now score [] = score
  add_scores cfg now score (r ∷ rs) =
      let decay = f.exp (
        f.mul (f.sub (f.of_nat 0) cfg.decay_lambda)
          (at_least_zero (hours_between now r.timestamp))) in
      add_scores cfg now
        (if is_manual r.fault_type then score else f.add score (f.mul (undecayed cfg r) decay)) rs

  -- `compute_score`
  unfoldable pub compute_score : BlacklistConfig F → ℕ → NodeRecord F → F
  unfolding add_scores
  compute_score cfg now n = f.round_two (add_scores cfg now (f.of_nat 0) n.fault_records)

  -- The weight of the last fault that is not manual, with the one found so far.
  unfoldable pub last_weight : BlacklistConfig F → F → List (FaultRecord F) → F
  unfolding is_manual weight
  last_weight cfg found [] = found
  last_weight cfg found (r ∷ rs) =
      last_weight cfg (if is_manual r.fault_type then found else weight cfg r.fault_type) rs

  unfoldable pub score_node : BlacklistConfig F → ℕ → String × NodeRecord F → ScoredNode F
  unfolding compute_score last_weight count_faults
  score_node cfg now (name, n) = record {
    node_name = name;
    fault_score = compute_score cfg now n;
    is_fatal = n.fatal;
    is_soft_banned = n.soft_banned;
    total_fault_count = count_faults n.fault_records;
    last_fault_weight = last_weight cfg (f.of_nat 0) n.fault_records;
  }

  -- `get_scored_nodes`
  unfoldable pub get_scored_nodes :
      BlacklistConfig F → ℕ → List (String × NodeRecord F) → List (ScoredNode F)
  unfolding score_node
  get_scored_nodes cfg now nodes = map (score_node cfg now) nodes

  -- `<=` on numbers, then on what follows where they are equal, as on tuples.
  abbrev pub then_by : F → F → Bool → Bool
  then_by x y rest = f.at_most x y && (not (f.at_most y x) || rest)

  -- The order of the keys of `sort_by_availability`: the more available node first.
  unfoldable pub no_worse : ScoredNode F → ScoredNode F → Bool
  no_worse a b = fatal_then a.is_fatal b.is_fatal (
      then_by a.fault_score b.fault_score (
        then_by a.last_fault_weight b.last_fault_weight
          (leb a.total_fault_count b.total_fault_count)))

  -- `sorted` is stable: an earlier node stays in front of one with an equal key.
  unfoldable pub insert_scored : ScoredNode F → List (ScoredNode F) → List (ScoredNode F)
  unfolding no_worse
  insert_scored a [] = a ∷ []
  insert_scored a (b ∷ bs) =
      let rest = insert_scored a bs in if no_worse a b then a ∷ b ∷ bs else b ∷ rest

  -- `sort_by_availability`
  unfoldable pub sort_by_availability : List (ScoredNode F) → List (ScoredNode F)
  unfolding insert_scored
  sort_by_availability [] = []
  sort_by_availability (a ∷ rest) = insert_scored a (sort_by_availability rest)

  -- Whether a record lies in the window of `check_soft_ban`.
  unfoldable pub in_window : BlacklistConfig F → ℕ → FaultRecord F → Bool
  unfolding seconds_between
  in_window cfg now r =
      f.at_most (f.of_nat 0) (seconds_between now r.timestamp)
      && f.at_most (seconds_between now r.timestamp)
          (f.mul cfg.soft_ban_window_hours (f.of_nat 3600))

  -- The records of a type among those that pass a test.
  unfoldable pub count_type : (FaultRecord F → Bool) → FaultType → List (FaultRecord F) → ℕ
  unfolding same_type
  count_type test t [] = 0
  count_type test t (r ∷ rs) =
      let rest = count_type test t rs in
      if test r && same_type r.fault_type t then rest + 1 else rest

  -- Some type that occurs does so as often as its threshold says.
  unfoldable pub reaches :
      (FaultType → ℕ)
      → (FaultRecord F → Bool)
      → Bool
      → List (FaultRecord F)
      → List (FaultRecord F)
      → Bool
  unfolding count_type
  reaches threshold test found records [] = found
  reaches threshold test found records (r ∷ rs) =
      reaches threshold test
        (found || test r && leb (threshold r.fault_type) (count_type test r.fault_type records))
        records rs

  -- `check_soft_ban`
  unfoldable pub check_soft_ban : BlacklistConfig F → ℕ → NodeRecord F → Bool
  unfolding reaches in_window soft_ban_threshold
  check_soft_ban cfg now n =
      reaches (soft_ban_threshold cfg) (in_window cfg now) false n.fault_records n.fault_records

  -- `should_auto_ban`
  unfoldable pub should_auto_ban : BlacklistConfig F → NodeRecord F → Bool
  unfolding reaches auto_ban_threshold
  should_auto_ban cfg n =
      reaches (auto_ban_threshold cfg) (λ r. true) false n.fault_records n.fault_records

  unfoldable pub waited : BlacklistConfig F → ℕ → Option ℕ → Bool
  unfolding hours_between
  waited cfg now none = false
  waited cfg now (some last) = f.at_most cfg.auto_whitelist_hours (hours_between now last)

  -- `should_auto_whitelist`
  unfoldable pub should_auto_whitelist : BlacklistConfig F → ℕ → NodeRecord F → Bool
  unfolding waited
  should_auto_whitelist cfg now n = waited cfg now n.last_fault_time
