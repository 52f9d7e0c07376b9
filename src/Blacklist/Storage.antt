-- ===== src/Blacklist/Storage.antt =====
-- `PersistenceManager`: the two files of the blacklist, what is written into them and read back. A
-- file is what its JSON text stands for; a time is kept as it is by its ISO text.
use cluster_manager_das.Prelude.{
  ℕ, zero, suc, String, Bool, true, false, List, [], ◌∷◌, Option, none, some, map, if◌then◌else◌,
}
use cluster_manager_das.Blacklist.Floats.{Floats}
use cluster_manager_das.Blacklist.Records.{
  FaultType, network, hcu, gradient_inf, manual, FaultRecord, NodeRecord, or_default, count_faults,
}
use cluster_manager_das.Blacklist.Manager.{Nodes, BlacklistManager}

-- `int(fault_type)`
unfoldable pub fault_number : FaultType → ℕ
fault_number network = 1
fault_number hcu = 2
fault_number gradient_inf = 3
fault_number manual = 4

-- `FaultType(number)`, where `none` stands for the ValueError
unfoldable pub fault_of_number : ℕ → Option FaultType
fault_of_number (suc zero) = some network
fault_of_number (suc (suc zero)) = some hcu
fault_of_number (suc (suc (suc zero))) = some gradient_inf
fault_of_number (suc (suc (suc (suc zero)))) = some manual
fault_of_number _ = none

unfoldable pub type_of : Option ℕ → Option FaultType
unfolding fault_of_number
type_of none = none
type_of (some n) = fault_of_number n

-- The dictionary of a fault: `none` where a key is missing or its value is null.
pub record StoredFault (F : Type 0) : Type 0 where
  pub fault_type : Option ℕ
  pub timestamp : Option ℕ
  pub description : Option String
  pub error_code : Option String
  pub hcu_id : Option ℕ
  pub micro_step : Option ℕ
  pub base_score : Option F
  pub uptime_hours : Option F
  pub uptime_penalty : Option F

-- The dictionary of a node, in the same way.
pub record StoredNode (F : Type 0) : Type 0 where
  pub node_name : Option String
  pub fault_records : Option (List (StoredFault F))
  pub fatal : Option Bool
  pub soft_banned : Option Bool
  pub last_fault_time : Option ℕ
  pub last_healthy_time : Option ℕ
  pub fault_score : Option F
  pub total_fault_count : Option ℕ

-- What a file holds: no JSON, or the dictionary under "blacklist".
pub data Content (F : Type 0) : Type 0 where
  damaged : Content F
  blacklist : List (String × StoredNode F) → Content F

-- The two files, where `none` is a file that does not exist, and whether each can be written. The
-- temporary file is left out: it is renamed to the main file, or removed.
pub record Files (F : Type 0) : Type 0 where
  pub main : Option (Content F)
  pub backup : Option (Content F)
  pub main_writable : Bool
  pub backup_writable : Bool

module _ {F : Type 0} ⦃f : Floats F⦄ where
  abbrev pub rounded_hours : Option F → Option F
  rounded_hours none = none
  rounded_hours (some h) = some (f.round_two h)

  -- `FaultRecord.to_dict`
  unfoldable pub store_fault : FaultRecord F → StoredFault F
  unfolding fault_number
  store_fault r = record {
    fault_type = some (fault_number r.fault_type);
    timestamp = some r.timestamp;
    description = some r.description;
    error_code = r.error_code;
    hcu_id = r.hcu_id;
    micro_step = r.micro_step;
    base_score = some (f.round_two r.base_score);
    uptime_hours = rounded_hours r.uptime_hours;
    uptime_penalty = some (f.round_two r.uptime_penalty);
  }

  -- `NodeRecord.to_dict`
  unfoldable pub store_node : NodeRecord F → StoredNode F
  unfolding store_fault count_faults
  store_node n = record {
    node_name = some n.node_name;
    fault_records = some (map store_fault n.fault_records);
    fatal = some n.fatal;
    soft_banned = some n.soft_banned;
    last_fault_time = n.last_fault_time;
    last_healthy_time = n.last_healthy_time;
    fault_score = some n.fault_score;
    total_fault_count = some (count_faults n.fault_records);
  }

  -- `FaultRecord.from_dict` for a type and a time that are there
  unfoldable pub fault_with : StoredFault F → Option FaultType → Option ℕ → Option (FaultRecord F)
  fault_with d (some t) (some time) = some (record {
    fault_type = t;
    timestamp = time;
    description = or_default "" d.description;
    error_code = d.error_code;
    hcu_id = d.hcu_id;
    micro_step = d.micro_step;
    base_score = or_default (f.of_nat 0) d.base_score;
    uptime_hours = d.uptime_hours;
    uptime_penalty = or_default (f.of_nat 0) d.uptime_penalty;
  })
  fault_with d _ _ = none

  -- `FaultRecord.from_dict`, where `none` stands for an exception
  unfoldable pub read_fault : StoredFault F → Option (FaultRecord F)
  unfolding fault_with type_of
  read_fault d = fault_with d (type_of d.fault_type) d.timestamp

  abbrev both :
      Option (FaultRecord F) → Option (List (FaultRecord F)) → Option (List (FaultRecord F))
  both (some r) (some rs) = some (r ∷ rs)
  both _ _ = none

  unfoldable pub read_faults : List (StoredFault F) → Option (List (FaultRecord F))
  unfolding read_fault
  read_faults [] = some []
  read_faults (d ∷ ds) = both (read_fault d) (read_faults ds)

  -- `NodeRecord.from_dict` for a name and faults that can be read
  unfoldable pub node_with :
      StoredNode F → Option String → Option (List (FaultRecord F)) → Option (NodeRecord F)
  node_with d (some name) (some records) = some (record {
    node_name = name;
    fault_records = records;
    fatal = or_default false d.fatal;
    soft_banned = or_default false d.soft_banned;
    last_fault_time = d.last_fault_time;
    last_healthy_time = d.last_healthy_time;
    fault_score = or_default (f.of_nat 0) d.fault_score;
  })
  node_with d _ _ = none

  -- `NodeRecord.from_dict`, where `none` stands for an exception
  unfoldable pub read_node : StoredNode F → Option (NodeRecord F)
  unfolding node_with read_faults
  read_node d = node_with d d.node_name (read_faults (or_default [] d.fault_records))

  abbrev pub keep_read : String → Option (NodeRecord F) → Nodes F → Nodes F
  keep_read name none rest = rest
  keep_read name (some node) rest = (name, node) ∷ rest

  -- The loop of `_load_file`, which skips what cannot be read. The keys of a JSON dictionary are
  -- distinct.
  unfoldable pub read_nodes : List (String × StoredNode F) → Nodes F
  unfolding read_node
  read_nodes [] = []
  read_nodes ((name, d) ∷ rest) = keep_read name (read_node d) (read_nodes rest)

  -- `_load_file`
  unfoldable pub load_file : Option (Content F) → Option (Nodes F)
  unfolding read_nodes
  load_file none = none
  load_file (some damaged) = none
  load_file (some (blacklist entries)) = some (read_nodes entries)

  -- The data that `save` writes.
  unfoldable pub stored : Nodes F → Content F
  unfolding store_node
  stored nodes = blacklist (map (λ e. (e.0, store_node e.1)) nodes)

  -- `save`: the answer, and the files. The main file is replaced first and copied then.
  unfoldable pub save : Nodes F → Files F → Bool × Files F
  unfolding stored
  save nodes d =
      if d.main_writable
      then (
        true,
        record d {
          main = some (stored nodes);
          backup = if d.backup_writable then some (stored nodes) else d.backup;
        },
      )
      else (false, d)

  -- A main file that exists and cannot be read: the backup, if that can be.
  unfoldable pub recover : Option (Nodes F) → Files F → Nodes F × Files F
  unfolding save
  recover none d = ([], d)
  recover (some nodes) d = (nodes, (save nodes d).1)

  -- A main file that exists, by what `_load_file` makes of it.
  unfoldable pub load_or_recover : Option (Nodes F) → Files F → Nodes F × Files F
  unfolding recover load_file
  load_or_recover (some nodes) d = (nodes, d)
  load_or_recover none d = recover (load_file d.backup) d

  -- A main file that does not exist is created, without a node.
  unfoldable pub create_main : Files F → Files F
  create_main d = record d { main = if d.main_writable then some (blacklist []) else none }

  unfoldable pub load_main : Option (Content F) → Files F → Nodes F × Files F
  unfolding load_or_recover create_main load_file
  load_main none d = ([], create_main d)
  load_main (some c) d = load_or_recover (load_file (some c)) d

  -- `load`
  unfoldable pub load : Files F → Nodes F × Files F
  unfolding load_main
  load d = load_main d.main d

  -- `_do_persist`
  unfoldable pub do_persist : BlacklistManager F → Files F → BlacklistManager F × Files F
  unfolding save
  do_persist m d =
      let (done, files) = save m.nodes d in
      (record m { dirty = if done then false else m.dirty }, files)
