-- ===== src/Blacklist/Bans.antt =====
-- The bans: what `report_fault` does to the bans of the node it is about and of the other nodes.
use cluster_manager_das.Prelude.{
  ℕ, ◌≤◌, String, Bool, true, false, ◌&&◌, ◌||◌, not, ◌==◌, [], ◌∷◌, Option, none, some, ◌≡◌, refl,
  ap, ◌∙◌, arith, ltb, eq_iff, Bool-cases, inl, inr, if◌then◌else◌,
}
use cluster_manager_das.Blacklist.Floats.{Floats, hours_between}
use cluster_manager_das.Blacklist.Records.{
  BlacklistConfig, FaultRecord, NodeRecord, latest, new_node,
}
use cluster_manager_das.Blacklist.Scoring.{
  check_soft_ban, should_auto_ban, should_auto_whitelist, waited,
}
use cluster_manager_das.Blacklist.Rack.{record_network_fault}
use cluster_manager_das.Blacklist.Manager.{
  Nodes, BlacklistManager, Report, find_node, put_node, node_or_new, fault_record, add_fault,
  is_fatal_report, is_network, mark_fatal, mark_soft, lift_bans, judge, note_node, report_fault,
  fatal_node,
}

pub find_node-put_node :
    {F : Type 0} (x y : String) (node : NodeRecord F) (nodes : Nodes F)
    → find_node x (put_node y node nodes) ≡ (if y == x then some node else find_node x nodes)
unfolding find_node put_node
find_node-put_node x y node [] = refl
find_node-put_node x y node ((n, old) ∷ rest) = elim (Bool-cases (n == y)) [
  | inl e ↦ rw ((eq_iff n y).0 e) (rw ((eq_iff y y).1 refl) (ground arith))
  | inr e ↦
      rw e (ground (arith, find_node-put_node x y node rest, eq_iff n x, eq_iff y x, eq_iff n y))
]

-- Whether the blacklist bans a node at all.
abbrev pub banned_node : {F : Type 0} → Option (NodeRecord F) → Bool
banned_node none = false
banned_node (some node) = node.fatal || node.soft_banned

refused : (p : Bool) {q : Bool} → q ≡ false → (p && q) ≡ false
refused p e = ground (arith, e)

or_kept : (p q : Bool) → q ≡ true → (p || q) ≡ true
or_kept p q e = ground (arith, e)

or_mono :
    (p q r s : Bool)
    → (p ≡ true → r ≡ true)
    → (q ≡ true → s ≡ true)
    → (p || q) ≡ true
    → (r || s) ≡ true
or_mono p q r s h k e = ground (arith, h, k, e)

or_first : (p q : Bool) → p ≡ true → (p || q) ≡ true
or_first p q e = ground (arith, e)

module _ {F : Type 0} ⦃f : Floats F⦄ where
  -- The time that a node must be without faults is longer than no time at all.
  abbrev pub IsWaiting : BlacklistConfig F → ℕ → Type 0
  IsWaiting cfg now =
      (t : ℕ) → now ≤ t → f.at_most cfg.auto_whitelist_hours (hours_between now t) ≡ false

  latest_lem :
      (cfg : BlacklistConfig F) (now : ℕ) (last : Option ℕ)
      → IsWaiting cfg now
      → waited cfg now (latest now last) ≡ false
  unfolding waited latest
  latest_lem cfg now none w = w now (omega arith)
  latest_lem cfg now (some last) w = elim (Bool-cases (ltb last now)) [
    | inl e ↦ rw e (w now (omega arith))
    | inr e ↦ rw e (w last (ground arith))
  ]

  -- The test for lifting bans fails right after a fault was added.
  should_auto_whitelist-add_fault :
      (cfg : BlacklistConfig F) (now later : ℕ) (r : FaultRecord F) (node : NodeRecord F)
      → IsWaiting cfg now
      → waited cfg now (add_fault cfg now later r node).last_fault_time ≡ false
  unfolding add_fault
  should_auto_whitelist-add_fault cfg now later r node w = latest_lem cfg now node.last_fault_time w

  marked_fatal :
      (test : Bool) (node : NodeRecord F)
      → ((mark_fatal test node).fatal ≡ (test || node.fatal))
        × ((mark_fatal test node).soft_banned ≡ node.soft_banned)
        × ((mark_fatal test node).last_fault_time ≡ node.last_fault_time)
  unfolding mark_fatal
  marked_fatal true node = (refl, refl, refl)
  marked_fatal false node = (refl, refl, refl)

  marked_soft :
      (test : Bool) (node : NodeRecord F)
      → ((mark_soft test node).soft_banned ≡ (test || node.soft_banned))
        × ((mark_soft test node).fatal ≡ node.fatal)
        × ((mark_soft test node).last_fault_time ≡ node.last_fault_time)
  unfolding mark_soft
  marked_soft true node = (refl, refl, refl)
  marked_soft false node = (refl, refl, refl)

  not_lifted : (test : Bool) (node : NodeRecord F) → test ≡ false → lift_bans test node ≡ node
  unfolding lift_bans
  not_lifted test node e = rw e refl

  -- Where the test for lifting bans fails, the judgement only adds bans, and a fatal report makes the
  -- node fatal.
  judge_lem :
      (cfg : BlacklistConfig F) (now : ℕ) (r : Report) (node : NodeRecord F)
      → waited cfg now node.last_fault_time ≡ false
      → (node.fatal ≡ true → (judge cfg now r node).fatal ≡ true)
        × (node.soft_banned ≡ true → (judge cfg now r node).soft_banned ≡ true)
        × (is_fatal_report cfg r ≡ true → (judge cfg now r node).fatal ≡ true)
  unfolding judge should_auto_whitelist
  judge_lem cfg now r node e =
      let a = mark_fatal (is_fatal_report cfg r) node in
      let soft = not a.soft_banned && not a.fatal && check_soft_ban cfg now a in
      let b = mark_soft soft a in
      let c = mark_fatal (should_auto_ban cfg b) b in
      let fa = marked_fatal (is_fatal_report cfg r) node in
      let fb = marked_soft soft a in
      let fc = marked_fatal (should_auto_ban cfg b) b in
      let late : c.last_fault_time ≡ node.last_fault_time = fc.2 ∙ fb.2 ∙ fa.2 in
      let never : ((c.fatal || c.soft_banned) && waited cfg now c.last_fault_time) ≡ false =
        refused (c.fatal || c.soft_banned) (ap (waited cfg now) late ∙ e) in
      rw (not_lifted _ c never) (
        λ h. fc.0 ∙ or_kept _ _ (fb.1 ∙ fa.0 ∙ or_kept _ _ h),
        λ h. fc.1 ∙ fb.0 ∙ or_kept _ _ (fa.1 ∙ h),
        λ h. fc.0 ∙ or_kept _ _ (fb.1 ∙ fa.0 ∙ or_first _ _ h),
      )

  -- The bans of a node that was there stay when its report is noted.
  add_fault_lem :
      (cfg : BlacklistConfig F) (now later : ℕ) (r : Report) (record_of : FaultRecord F)
      (node : NodeRecord F)
      → IsWaiting cfg now
      → let judged = judge cfg now r (add_fault cfg now later record_of node) in
        (node.fatal ≡ true → judged.fatal ≡ true)
        × (node.soft_banned ≡ true → judged.soft_banned ≡ true)
        × (is_fatal_report cfg r ≡ true → judged.fatal ≡ true)
  unfolding add_fault
  add_fault_lem cfg now later r record_of node w =
      judge_lem cfg now r (add_fault cfg now later record_of node)
        (should_auto_whitelist-add_fault cfg now later record_of node w)

  -- What a report leaves of a node: bans that only grow.
  abbrev pub IsKept : Option (NodeRecord F) → Option (NodeRecord F) → Type 0
  IsKept old new =
      (fatal_node old ≡ true → fatal_node new ≡ true)
      × (banned_node old ≡ true → banned_node new ≡ true)

  kept_lem :
      (cfg : BlacklistConfig F) (now later : ℕ) (r : Report) (text : String)
      (old : Option (NodeRecord F))
      → IsWaiting cfg now
      → let node = node_or_new r.node_name old in
        let judged =
          judge cfg now r (add_fault cfg now later (fault_record cfg now text r node) node) in
        IsKept old (some judged) × (is_fatal_report cfg r ≡ true → judged.fatal ≡ true)
  unfolding fatal_node
  kept_lem cfg now later r text none w =
      ((λ h. cc, λ h. cc), (add_fault_lem cfg now later r _ (new_node r.node_name) w).2)
  kept_lem cfg now later r text (some node) w =
      let k = add_fault_lem cfg now later r (fault_record cfg now text r node) node w in
      ((k.0, or_mono _ _ _ _ k.0 k.1), k.2)

  IsKept-same : (old : Option (NodeRecord F)) → IsKept old old
  IsKept-same old = (λ h. h, λ h. h)

  IsKept-put :
      (x y : String) (node : NodeRecord F) (nodes : Nodes F)
      → IsKept (find_node y nodes) (some node)
      → IsKept (find_node x nodes) (find_node x (put_node y node nodes))
  IsKept-put x y node nodes k = elim (Bool-cases (y == x)) [
    | inl e ↦
        let here : find_node x (put_node y node nodes) ≡ some node =
          rw (find_node-put_node x y node nodes, e) refl in
        rw (here, ← (eq_iff y x).0 e) k
    | inr e ↦
        let there : find_node x (put_node y node nodes) ≡ find_node x nodes =
          rw (find_node-put_node x y node nodes, e) refl in
        rw there (IsKept-same (find_node x nodes))
  ]

  -- What a report does that is noted for its node.
  noted_lem :
      (now later : ℕ) (text : String) (r : Report) (m : BlacklistManager F) (x : String)
      → IsWaiting m.config now
      → IsKept (find_node x m.nodes) (find_node x (note_node now later text r m).nodes)
        × (is_fatal_report m.config r ≡ true
            → fatal_node (find_node r.node_name (note_node now later text r m).nodes) ≡ true)
  unfolding note_node fatal_node
  noted_lem now later text r m x w =
      let k = kept_lem m.config now later r text (find_node r.node_name m.nodes) w in
      (
        IsKept-put x r.node_name _ m.nodes k.0,
        λ h.
            rw
              (
                find_node-put_node r.node_name r.node_name _ m.nodes,
                (eq_iff r.node_name r.node_name).1 refl,
              )
              (k.1 h),
      )

  -- The three outcomes of a report: of a rack, of a node with a network fault, of another fault.
  outcome_cases :
      (P : Bool × BlacklistManager F → Type 0) (network raised : Bool)
      (rack node other : Bool × BlacklistManager F)
      → P rack
      → P node
      → P other
      → P (if network then (if raised then rack else node) else other)
  outcome_cases P true true rack node other h k l = h
  outcome_cases P true false rack node other h k l = k
  outcome_cases P false raised rack node other h k l = l

  -- If the time that a node must be without faults is longer than no time at all, a report lifts no
  -- ban: a node that was fatal stays fatal, and one that was banned stays banned, also where the
  -- report is of a rack. A fatal report that is noted for its node makes that node fatal.
  pub report_fault-IsKept :
      (now later : ℕ) (text : String) (r : Report) (m : BlacklistManager F) (x : String)
      → IsWaiting m.config now
      → let (noted, q) = report_fault now later text r m in
        IsKept (find_node x m.nodes) (find_node x q.nodes)
        × (noted ≡ true
            → is_fatal_report m.config r ≡ true
            → fatal_node (find_node r.node_name q.nodes) ≡ true)
  unfolding report_fault
  report_fault-IsKept now later text r m x w =
      let (raised, detector) = record_network_fault m.config r.node_name now m.rack_detector in
      let there = noted_lem now later text r (record m { rack_detector = detector }) x w in
      let here = noted_lem now later text r m x w in
      outcome_cases
        (λ o.
          IsKept (find_node x m.nodes) (find_node x o.1.nodes)
          × (o.0 ≡ true
              → is_fatal_report m.config r ≡ true
              → fatal_node (find_node r.node_name o.1.nodes) ≡ true))
        (is_network r.fault_type) raised _ _ _ (IsKept-same (find_node x m.nodes), λ h. cc)
        (there.0, λ h. there.1) (here.0, λ h. here.1)
