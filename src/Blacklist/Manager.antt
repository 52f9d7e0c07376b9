-- ===== src/Blacklist/Manager.antt =====
-- `BlacklistManager`: the reports of faults, the allocation of nodes, and what operators do.
use cluster_manager_das.Prelude.{
  ℕ, ◌-◌, String, Bool, true, false, ◌&&◌, ◌||◌, not, ◌==◌, List, [], ◌∷◌, ◌++◌, Option, none, some,
  length, take, map, if◌then◌else◌,
}
use cluster_manager_das.Prelude.Names.{first_ones}
use cluster_manager_das.NodePool.Allocation.{AllocationResult}
use cluster_manager_das.Blacklist.Floats.{Floats}
use cluster_manager_das.Blacklist.Records.{
  FaultType, network, FaultSeverity, fatal_severity, BlacklistConfig, FaultRecord, NodeRecord,
  weight, severity, uptime_of, latest, new_node, clear_node,
}
use cluster_manager_das.Blacklist.Scoring.{
  determine_severity, compute_uptime_penalty, compute_score, get_scored_nodes, sort_by_availability,
  check_soft_ban, should_auto_ban, should_auto_whitelist,
}
use cluster_manager_das.Blacklist.Rack.{RackFaultDetector, record_network_fault}

-- The dictionary of nodes, in the order of their first faults.
abbrev pub Nodes : Type 0 → Type 0
Nodes F = List (String × NodeRecord F)

-- `self._nodes.get(name)`
unfoldable pub find_node : {F : Type 0} → String → Nodes F → Option (NodeRecord F)
find_node name [] = none
find_node name ((n, node) ∷ rest) =
    let found = find_node name rest in if n == name then some node else found

-- `self._nodes[name] = node`
unfoldable pub put_node : {F : Type 0} → String → NodeRecord F → Nodes F → Nodes F
put_node name node [] = (name, node) ∷ []
put_node name node ((n, old) ∷ rest) =
    let changed = put_node name node rest in
    if n == name then (n, node) ∷ rest else (n, old) ∷ changed

-- `del self._nodes[name]`
unfoldable pub delete_node : {F : Type 0} → String → Nodes F → Nodes F
delete_node name [] = []
delete_node name ((n, node) ∷ rest) =
    let kept = delete_node name rest in if n == name then rest else (n, node) ∷ kept

-- The fields of `BlacklistManager` that its methods change, and its configuration.
pub record BlacklistManager (F : Type 0) : Type 0 where
  pub config : BlacklistConfig F
  pub nodes : Nodes F
  pub rack_detector : RackFaultDetector
  pub dirty : Bool

-- The arguments of `report_fault`
pub record Report : Type 0 where
  pub node_name : String
  pub fault_type : FaultType
  pub description : String
  pub error_code : Option String
  pub hcu_id : Option ℕ
  pub micro_step : Option ℕ

unfoldable pub is_network : FaultType → Bool
is_network network = true
is_network _ = false

unfoldable pub is_fatal_severity : FaultSeverity → Bool
is_fatal_severity fatal_severity = true
is_fatal_severity _ = false

-- A candidate in front of the others, where the blacklist has it and not as fatal.
unfoldable pub add_recoverable : {F : Type 0} → String → Option (NodeRecord F) → Nodes F → Nodes F
add_recoverable n none rest = rest
add_recoverable n (some node) rest = if node.fatal then rest else (n, node) ∷ rest

-- The candidates in the blacklist that are not fatal, as the dictionary `bl_recoverable`.
unfoldable pub recoverable : {F : Type 0} → Nodes F → List String → Nodes F
unfolding find_node add_recoverable
recoverable nodes [] = []
recoverable nodes (n ∷ ns) = add_recoverable n (find_node n nodes) (recoverable nodes ns)

-- Whether the blacklist has a node as fatal: the second value of `is_blacklisted`.
unfoldable pub fatal_node : {F : Type 0} → Option (NodeRecord F) → Bool
fatal_node none = false
fatal_node (some node) = node.fatal

-- Whether the blacklist has a node.
unfoldable pub is_listed : {F : Type 0} → Option (NodeRecord F) → Bool
is_listed none = false
is_listed (some node) = true

-- The candidates in the blacklist that are fatal.
unfoldable pub fatal_ones : {F : Type 0} → Nodes F → List String → List String
unfolding find_node fatal_node
fatal_ones nodes [] = []
fatal_ones nodes (n ∷ ns) =
    let rest = fatal_ones nodes ns in if fatal_node (find_node n nodes) then n ∷ rest else rest

-- The candidates that the blacklist does not have, in their order.
unfoldable pub unlisted : {F : Type 0} → Nodes F → List String → List String
unfolding find_node is_listed
unlisted nodes [] = []
unlisted nodes (n ∷ ns) =
    let rest = unlisted nodes ns in if is_listed (find_node n nodes) then rest else n ∷ rest

module _ {F : Type 0} ⦃f : Floats F⦄ where
  -- The node that a name stands for, a new one where there is none.
  abbrev pub node_or_new : String → Option (NodeRecord F) → NodeRecord F
  node_or_new name none = new_node name
  node_or_new name (some node) = node

  -- The record of a report, with the hours since the node's last fault and the penalty for them. An
  -- empty description stands for the text of its type, `text`.
  unfoldable pub fault_record :
      BlacklistConfig F → ℕ → String → Report → NodeRecord F → FaultRecord F
  unfolding weight uptime_of compute_uptime_penalty
  fault_record cfg now text r node =
      let hours = uptime_of now node.fault_records node.last_fault_time in
      record {
        fault_type = r.fault_type;
        timestamp = now;
        description = if r.description == "" then text else r.description;
        error_code = r.error_code;
        hcu_id = r.hcu_id;
        micro_step = r.micro_step;
        base_score = weight cfg r.fault_type;
        uptime_hours = hours;
        uptime_penalty = compute_uptime_penalty cfg (weight cfg r.fault_type) hours;
      }

  -- `add_fault` and the new score, computed at `later`.
  unfoldable pub add_fault : BlacklistConfig F → ℕ → ℕ → FaultRecord F → NodeRecord F → NodeRecord F
  unfolding latest compute_score
  add_fault cfg now later r node =
      let added = record node {
        fault_records = node.fault_records ++ r ∷ [];
        last_fault_time = latest now node.last_fault_time;
      } in
      record added { fault_score = f.round_two (compute_score cfg later added) }

  -- The report is of a fatal fault.
  unfoldable pub is_fatal_report : BlacklistConfig F → Report → Bool
  unfolding determine_severity severity is_fatal_severity
  is_fatal_report cfg r =
      is_fatal_severity (determine_severity r.error_code)
      || is_fatal_severity (severity cfg r.fault_type)

  -- The bans at the end of `report_fault`, step by step: fatal, soft ban, ban by number, and the
  -- lifting of bans.
  unfoldable pub mark_fatal : Bool → NodeRecord F → NodeRecord F
  mark_fatal test node = if test then record node { fatal = true } else node

  unfoldable pub mark_soft : Bool → NodeRecord F → NodeRecord F
  mark_soft test node = if test then record node { soft_banned = true } else node

  unfoldable pub lift_bans : Bool → NodeRecord F → NodeRecord F
  lift_bans test node = if test then record node { fatal = false; soft_banned = false } else node

  unfoldable pub judge : BlacklistConfig F → ℕ → Report → NodeRecord F → NodeRecord F
  unfolding mark_fatal mark_soft lift_bans is_fatal_report check_soft_ban should_auto_ban
      should_auto_whitelist
  judge cfg now r node =
      let a = mark_fatal (is_fatal_report cfg r) node in
      let b = mark_soft (not a.soft_banned && not a.fatal && check_soft_ban cfg now a) a in
      let c = mark_fatal (should_auto_ban cfg b) b in
      lift_bans ((c.fatal || c.soft_banned) && should_auto_whitelist cfg now c) c

  -- The part of `report_fault` for the node itself.
  unfoldable pub note_node : ℕ → ℕ → String → Report → BlacklistManager F → BlacklistManager F
  unfolding judge add_fault fault_record find_node put_node new_node
  note_node now later text r m =
      let node = node_or_new r.node_name (find_node r.node_name m.nodes) in
      record m {
        nodes =
            put_node r.node_name
              (judge m.config now r
                (add_fault m.config now later (fault_record m.config now text r node) node))
              m.nodes;
        dirty = true;
      }

  -- `report_fault`, at the time `now`, with the score computed at `later`; `text` describes the type.
  unfoldable pub report_fault :
      ℕ → ℕ → String → Report → BlacklistManager F → Bool × BlacklistManager F
  unfolding note_node is_network record_network_fault
  report_fault now later text r m =
      let (raised, detector) = record_network_fault m.config r.node_name now m.rack_detector in
      if is_network r.fault_type
      then (if raised
          then (false, record m { rack_detector = detector })
          else (true, note_node now later text r (record m { rack_detector = detector })))
      else (true, note_node now later text r m)

  -- The nodes that `allocate_nodes` takes from the blacklist.
  unfoldable pub fill_up : BlacklistConfig F → ℕ → ℕ → Nodes F → List String
  unfolding get_scored_nodes sort_by_availability
  fill_up cfg now shortage nodes =
      take shortage (map (λ s. s.node_name) (sort_by_availability (get_scored_nodes cfg now nodes)))

  -- `allocate_nodes`: the three lists of the answer, and the shortage that is left. A candidate that
  -- is repeated is so only among the healthy ones: the others are kept in a dictionary and a set.
  unfoldable pub allocate_nodes : ℕ → List String → ℕ → BlacklistManager F → AllocationResult × ℕ
  unfolding unlisted recoverable fatal_ones fill_up
  allocate_nodes now all_nodes required m =
      let healthy = unlisted m.nodes all_nodes in
      let names = first_ones [] all_nodes in
      let backup = fill_up m.config now (required - length healthy) (recoverable m.nodes names) in
      (
        record {
          healthy_nodes = healthy;
          backup_nodes = backup;
          rejected_nodes = fatal_ones m.nodes names;
        },
        required - length healthy - length backup,
      )

  -- `report_healthy`
  unfoldable pub report_healthy : ℕ → String → BlacklistManager F → BlacklistManager F
  unfolding find_node put_node
  report_healthy now name m = elim (find_node name m.nodes) [
    | none ↦ m
    | some node ↦ record m {
      nodes = put_node name (record node { last_healthy_time = some now }) m.nodes;
      dirty = true;
    }
  ]

  -- `remove_node`
  unfoldable pub remove_node : String → BlacklistManager F → Bool × BlacklistManager F
  unfolding find_node delete_node
  remove_node name m = elim (find_node name m.nodes) [
    | none ↦ (false, m)
    | some node ↦ (true, record m { nodes = delete_node name m.nodes; dirty = true })
  ]

  -- `clear_node_history`
  unfoldable pub clear_node_history : String → BlacklistManager F → Bool × BlacklistManager F
  unfolding find_node put_node clear_node
  clear_node_history name m = elim (find_node name m.nodes) [
    | none ↦ (false, m)
    | some node ↦ (true, record m { nodes = put_node name (clear_node node) m.nodes; dirty = true })
  ]

-- `is_blacklisted`
unfoldable pub is_blacklisted : {F : Type 0} → String → BlacklistManager F → Bool × Bool
unfolding find_node fatal_node
is_blacklisted name m = elim (find_node name m.nodes) [
  | none ↦ (false, false)
  | some node ↦ (node.fatal || node.soft_banned, node.fatal)
]
