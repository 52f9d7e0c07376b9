-- ===== src/Blacklist/Rack.antt =====
-- `RackFaultDetector`: many nodes with network faults at a time mean a fault of their rack or switch,
-- which no single node answers for.
use cluster_manager_das.Prelude.{
  ℕ, String, Bool, true, false, ◌==◌, List, [], ◌∷◌, ◌++◌, Option, none, some, ltb, length, map,
  if◌then◌else◌,
}
use cluster_manager_das.Prelude.Names.{dedup}
use cluster_manager_das.Blacklist.Floats.{Floats}
use cluster_manager_das.Blacklist.Records.{BlacklistConfig}

-- `RackFaultEvent`, without its text
pub record RackFaultEvent : Type 0 where
  pub affected_nodes : List String
  pub fault_time : ℕ
  pub estimated_rack_id : Option String

-- The fields of `RackFaultDetector`; `node_to_rack` is a dictionary, and `events` are the events that
-- the callbacks were given, the last one first (what a callback raises is dropped).
pub record RackFaultDetector : Type 0 where
  pub timeline : List (ℕ × String)
  pub node_to_rack : List (String × String)
  pub events : List RackFaultEvent

unfoldable pub find_rack : String → List (String × String) → Option String
find_rack name [] = none
find_rack name ((n, rack) ∷ rest) =
    let found = find_rack name rest in if n == name then some rack else found

-- The racks of the nodes that have one.
unfoldable pub racks_of : List (String × String) → List String → List String
unfolding find_rack
racks_of table [] = []
racks_of table (n ∷ ns) =
    let rest = racks_of table ns in
    elim (find_rack n table) [ none ↦ rest | some rack ↦ rack ∷ rest ]

-- The only element, where there is one only.
unfoldable pub only : List String → Option String
only (rack ∷ []) = some rack
only _ = none

-- The event of `_detect`; the order of the nodes, which Python leaves open, is that of their faults.
unfoldable pub rack_event : ℕ → List (String × String) → List (ℕ × String) → RackFaultEvent
unfolding racks_of only
rack_event now table line =
    let nodes = dedup (map (λ e. e.1) line) in
    record {
      affected_nodes = nodes;
      fault_time = now;
      estimated_rack_id = only (dedup (racks_of table nodes));
    }

module _ {F : Type 0} ⦃f : Floats F⦄ where
  -- `_cleanup`
  unfoldable pub recent : BlacklistConfig F → ℕ → List (ℕ × String) → List (ℕ × String)
  recent cfg now [] = []
  recent cfg now ((t, n) ∷ rest) =
      let kept = recent cfg now rest in
      if f.at_most (f.of_nat t) (f.sub (f.of_nat now) cfg.rack_fault_window_seconds)
      then kept
      else (t, n) ∷ kept

  -- The timeline with a new fault at its end, cut to the window.
  unfoldable pub timeline_with :
      BlacklistConfig F → String → ℕ → RackFaultDetector → List (ℕ × String)
  unfolding recent
  timeline_with cfg name now d = recent cfg now (d.timeline ++ (now, name) ∷ [])

  -- `record_network_fault`: whether an event was raised, and the detector afterwards.
  unfoldable pub record_network_fault :
      BlacklistConfig F → String → ℕ → RackFaultDetector → Bool × RackFaultDetector
  unfolding timeline_with rack_event
  record_network_fault cfg name now d =
      let line = timeline_with cfg name now d in
      if ltb (length (dedup (map (λ e. e.1) line))) cfg.rack_fault_threshold
      then (false, record d { timeline = line })
      else (
        true,
        record d { timeline = []; events = rack_event now d.node_to_rack line ∷ d.events },
      )
