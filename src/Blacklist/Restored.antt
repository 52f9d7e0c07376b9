-- ===== src/Blacklist/Restored.antt =====
-- What a restart finds of the blacklist: `load` after `save`.
use cluster_manager_das.Prelude.{true, List, [], ◌∷◌, Option, some, ◌≡◌, refl, map}
use cluster_manager_das.Blacklist.Floats.{Floats}
use cluster_manager_das.Blacklist.Records.{
  FaultType, network, hcu, gradient_inf, manual, FaultRecord, NodeRecord,
}
use cluster_manager_das.Blacklist.Manager.{Nodes}
use cluster_manager_das.Blacklist.Storage.{
  Files, Content, damaged, fault_number, fault_of_number, type_of, rounded_hours, store_fault,
  store_node, read_fault, fault_with, read_faults, read_node, node_with, read_nodes, load_file,
  stored, save, recover, load_or_recover, load_main, load,
}

fault_of_number-fault_number : (t : FaultType) → fault_of_number (fault_number t) ≡ some t
unfolding fault_of_number fault_number
fault_of_number-fault_number network = refl
fault_of_number-fault_number hcu = refl
fault_of_number-fault_number gradient_inf = refl
fault_of_number-fault_number manual = refl

module _ {F : Type 0} ⦃f : Floats F⦄ where
  -- What is left of a fault, and of a node, by rounding its numbers.
  unfoldable pub rounded_fault : FaultRecord F → FaultRecord F
  rounded_fault r = record r {
    base_score = f.round_two r.base_score;
    uptime_hours = rounded_hours r.uptime_hours;
    uptime_penalty = f.round_two r.uptime_penalty;
  }

  unfoldable pub rounded_node : NodeRecord F → NodeRecord F
  unfolding rounded_fault
  rounded_node n = record n { fault_records = map rounded_fault n.fault_records }

  abbrev pub rounded : Nodes F → Nodes F
  rounded nodes = map (λ e. (e.0, rounded_node e.1)) nodes

  read_fault-store_fault : (r : FaultRecord F) → read_fault (store_fault r) ≡ some (rounded_fault r)
  unfolding read_fault store_fault type_of fault_with rounded_fault
  read_fault-store_fault r = rw (fault_of_number-fault_number r.fault_type) refl

  read_faults-store_fault :
      (rs : List (FaultRecord F)) → read_faults (map store_fault rs) ≡ some (map rounded_fault rs)
  unfolding read_faults
  read_faults-store_fault [] = refl
  read_faults-store_fault (r ∷ rs) = rw (read_fault-store_fault r, read_faults-store_fault rs) refl

  read_node-store_node : (n : NodeRecord F) → read_node (store_node n) ≡ some (rounded_node n)
  unfolding read_node store_node node_with rounded_node
  read_node-store_node n = rw (read_faults-store_fault n.fault_records) refl

  read_nodes-store_node :
      (nodes : Nodes F) → read_nodes (map (λ e. (e.0, store_node e.1)) nodes) ≡ rounded nodes
  unfolding read_nodes
  read_nodes-store_node [] = refl
  read_nodes-store_node ((name, n) ∷ rest) =
      rw (read_node-store_node n, read_nodes-store_node rest) refl

  -- If the main file can be written, `save` succeeds and `load` then gives the saved nodes, with
  -- their numbers rounded to two digits, and leaves the files as they are.
  pub load-save :
      (nodes : Nodes F) (d : Files F)
      → d.main_writable ≡ true
      → ((save nodes d).0 ≡ true) × (load (save nodes d).1 ≡ (rounded nodes, (save nodes d).1))
  unfolding save load load_main load_or_recover load_file stored
  load-save nodes d w = rw (w, read_nodes-store_node nodes) (refl, refl)

  abbrev pub with_main : Option (Content F) → Files F → Files F
  with_main c d = record d { main = c }

  -- If both files can be written, `save` leaves the new nodes in the backup, and where the main file
  -- is damaged afterwards `load` gives the saved nodes as well, rounded, and both files hold what is
  -- stored of them.
  pub save_recovers :
      (nodes : Nodes F) (d : Files F)
      → d.main_writable ≡ true
      → d.backup_writable ≡ true
      → ((save nodes d).1.backup ≡ (save nodes d).1.main)
        × (load (with_main (some damaged) (save nodes d).1)
            ≡ (rounded nodes, (save (rounded nodes) d).1))
  unfolding save load load_main load_or_recover recover load_file stored
  save_recovers nodes d w b = rw (w, b, read_nodes-store_node nodes) (refl, refl)
