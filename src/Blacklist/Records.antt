-- ===== src/Blacklist/Records.antt =====
-- Fault types with their defaults, the configuration, and the records of a node. A time is a number
-- of seconds.
use cluster_manager_das.Prelude.{
  ℕ, ◌+◌, String, Bool, true, false, List, [], ◌∷◌, Option, none, some, ltb, if◌then◌else◌,
}
use cluster_manager_das.Blacklist.Floats.{Floats, at_least_zero, hours_between}

-- `FaultType`
pub data FaultType : Type 0 where
  network hcu gradient_inf manual : FaultType

-- `FaultSeverity`
pub data FaultSeverity : Type 0 where
  normal warning fatal_severity : FaultSeverity

-- `_FAULT_TYPE_DEFAULTS`, column by column
unfoldable pub default_weight : FaultType → ℕ
default_weight network = 10
default_weight hcu = 100
default_weight gradient_inf = 30
default_weight manual = 0

unfoldable pub default_severity : FaultType → FaultSeverity
default_severity network = normal
default_severity hcu = fatal_severity
default_severity gradient_inf = warning
default_severity manual = normal

unfoldable pub default_soft_ban : FaultType → ℕ
default_soft_ban network = 3
default_soft_ban hcu = 1
default_soft_ban gradient_inf = 2
default_soft_ban manual = 999

unfoldable pub default_auto_ban : FaultType → ℕ
default_auto_ban network = 5
default_auto_ban hcu = 2
default_auto_ban gradient_inf = 5
default_auto_ban manual = 999

abbrev pub or_default {ℓ} : {A : Type ℓ} → A → Option A → A
or_default d none = d
or_default d (some a) = a

-- `BlacklistConfig`; the tables that override the defaults give `none` where they have no entry.
-- `inf_fault_min_steps` and the paths are not read by the operations.
pub record BlacklistConfig (F : Type 0) : Type 0 where
  pub decay_lambda : F
  pub soft_ban_window_hours : F
  pub auto_whitelist_hours : F
  pub rack_fault_threshold : ℕ
  pub rack_fault_window_seconds : F
  pub fault_weights : FaultType → Option F
  pub fault_severities : FaultType → Option FaultSeverity
  pub fault_soft_ban_thresholds : FaultType → Option ℕ
  pub fault_auto_ban_thresholds : FaultType → Option ℕ
  pub uptime_penalty_weight : F
  pub uptime_reference_hours : F

-- `FaultRecord`
pub record FaultRecord (F : Type 0) : Type 0 where
  pub fault_type : FaultType
  pub timestamp : ℕ
  pub description : String
  pub error_code : Option String
  pub hcu_id : Option ℕ
  pub micro_step : Option ℕ
  pub base_score : F
  pub uptime_hours : Option F
  pub uptime_penalty : F

-- `NodeRecord`; its own dirty flag is never read.
pub record NodeRecord (F : Type 0) : Type 0 where
  pub node_name : String
  pub fault_records : List (FaultRecord F)
  pub fatal : Bool
  pub soft_banned : Bool
  pub last_fault_time : Option ℕ
  pub last_healthy_time : Option ℕ
  pub fault_score : F

unfoldable pub is_manual : FaultType → Bool
is_manual manual = true
is_manual _ = false

unfoldable pub same_type : FaultType → FaultType → Bool
same_type network network = true
same_type hcu hcu = true
same_type gradient_inf gradient_inf = true
same_type manual manual = true
same_type _ _ = false

-- The count behind `total_fault_count`
unfoldable pub count_faults : {F : Type 0} → List (FaultRecord F) → ℕ
unfolding is_manual
count_faults [] = 0
count_faults (r ∷ rs) =
    let rest = count_faults rs in if is_manual r.fault_type then rest else rest + 1

-- The later one of a time and the last fault's.
unfoldable pub latest : ℕ → Option ℕ → Option ℕ
latest now none = some now
latest now (some last) = if ltb last now then some now else some last

module _ {F : Type 0} where
  -- `BlacklistConfig.severity`
  unfoldable pub severity : BlacklistConfig F → FaultType → FaultSeverity
  unfolding default_severity
  severity cfg t = or_default (default_severity t) (cfg.fault_severities t)

  unfoldable pub soft_ban_threshold : BlacklistConfig F → FaultType → ℕ
  unfolding default_soft_ban
  soft_ban_threshold cfg t = or_default (default_soft_ban t) (cfg.fault_soft_ban_thresholds t)

  unfoldable pub auto_ban_threshold : BlacklistConfig F → FaultType → ℕ
  unfolding default_auto_ban
  auto_ban_threshold cfg t = or_default (default_auto_ban t) (cfg.fault_auto_ban_thresholds t)

module _ {F : Type 0} ⦃f : Floats F⦄ where
  -- `BlacklistConfig.weight`
  unfoldable pub weight : BlacklistConfig F → FaultType → F
  unfolding default_weight
  weight cfg t = or_default (f.of_nat (default_weight t)) (cfg.fault_weights t)

  -- The hours since the last fault, as `add_fault` notes them: none for the first fault.
  unfoldable pub uptime_of : ℕ → List (FaultRecord F) → Option ℕ → Option F
  unfolding at_least_zero hours_between
  uptime_of now [] last = none
  uptime_of now (r ∷ rs) none = none
  uptime_of now (r ∷ rs) (some last) = some (at_least_zero (hours_between now last))

  -- `NodeRecord(node_name=…)`
  unfoldable pub new_node : String → NodeRecord F
  new_node name = record {
    node_name = name;
    fault_records = [];
    fatal = false;
    soft_banned = false;
    last_fault_time = none;
    last_healthy_time = none;
    fault_score = f.of_nat 0;
  }

  -- `NodeRecord.clear`
  unfoldable pub clear_node : NodeRecord F → NodeRecord F
  clear_node n = record n {
    fault_records = [];
    fatal = false;
    soft_banned = false;
    last_fault_time = none;
    fault_score = f.of_nat 0;
  }
