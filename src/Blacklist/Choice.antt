-- ===== src/Blacklist/Choice.antt =====
-- Which nodes `allocate_nodes` takes from the blacklist, and how many.
use Prim.Native.Nat.{min}
use mathlib.Core.Path.{subst}
use mathlib.Core.Option.{some-injective}
use cluster_manager_das.Prelude.{
  ℕ, zero, suc, ◌+◌, ◌-◌, ◌≤◌, String, Bool, true, false, ◌||◌, List, [], ◌∷◌, Option, none, some,
  ◌≡◌, refl, sym, ap, ◌∙◌, arith, length, take, length-take, Bool-cases, inl, inr, if◌then◌else◌,
  ◌==◌, eq_iff,
}
use cluster_manager_das.Prelude.Names.{contains, first_ones}
use cluster_manager_das.Blacklist.Floats.{Floats, IsOrdered}
use cluster_manager_das.Blacklist.Records.{BlacklistConfig, NodeRecord}
use cluster_manager_das.Blacklist.Scoring.{
  ScoredNode, no_worse, score_node, get_scored_nodes, insert_scored, sort_by_availability,
}
use cluster_manager_das.Blacklist.Manager.{
  Nodes, BlacklistManager, find_node, fatal_node, unlisted, add_recoverable, recoverable, fill_up,
  allocate_nodes,
}
use cluster_manager_das.Blacklist.Lawful.{
  keys, names_of, is_usable, contains-unlisted, contains-recoverable, contains-first_ones,
  contains-sort_by_availability, names-get_scored_nodes,
}
use cluster_manager_das.Blacklist.Best.{IsBelow, IsRanked, IsRanked-sort_by_availability}
use cluster_manager_das.Blacklist.Pool.{length-sort_by_availability, contains-fill_up, safe_cases}

module _ {F : Type 0} where
  -- Each entry is the one that the dictionary has under its name.
  abbrev AllKnown : Nodes F → Nodes F → Type 0
  AllKnown nodes [] = Unit
  AllKnown nodes ((n, node) ∷ rest) = (find_node n nodes ≡ some node) × AllKnown nodes rest

  AllKnown-if :
      (nodes : Nodes F) (test : Bool) (xs ys : Nodes F)
      → AllKnown nodes xs
      → AllKnown nodes ys
      → AllKnown nodes (if test then xs else ys)
  AllKnown-if nodes true xs ys h k = h
  AllKnown-if nodes false xs ys h k = k

  AllKnown-add_recoverable :
      (nodes : Nodes F) (c : String) (o : Option (NodeRecord F)) (rest : Nodes F)
      → find_node c nodes ≡ o
      → AllKnown nodes rest
      → AllKnown nodes (add_recoverable c o rest)
  unfolding add_recoverable
  AllKnown-add_recoverable nodes c none rest e h = h
  AllKnown-add_recoverable nodes c (some node) rest e h =
      AllKnown-if nodes node.fatal rest ((c, node) ∷ rest) h (e, h)

  AllKnown-recoverable :
      (nodes : Nodes F) (candidates : List String) → AllKnown nodes (recoverable nodes candidates)
  unfolding recoverable
  AllKnown-recoverable nodes [] = tt
  AllKnown-recoverable nodes (c ∷ cs) =
      AllKnown-add_recoverable nodes c (find_node c nodes) (recoverable nodes cs) refl
        (AllKnown-recoverable nodes cs)

module _ {F : Type 0} ⦃f : Floats F⦄ (cfg : BlacklistConfig F) (now : ℕ) (nodes : Nodes F) where
  -- The score is that of the dictionary's node.
  abbrev IsScored : ScoredNode F → Type 0
  IsScored s =
      (node : NodeRecord F) × (find_node s.node_name nodes ≡ some node)
      × (s ≡ score_node cfg now (s.node_name, node))

  abbrev AllScored : List (ScoredNode F) → Type 0
  AllScored [] = Unit
  AllScored (s ∷ rest) = IsScored s × AllScored rest

  AllScored-get_scored_nodes :
      (entries : Nodes F) → AllKnown nodes entries → AllScored (get_scored_nodes cfg now entries)
  unfolding get_scored_nodes score_node
  AllScored-get_scored_nodes [] h = tt
  AllScored-get_scored_nodes ((n, node) ∷ rest) h =
      ((node, h.0, refl), AllScored-get_scored_nodes rest h.1)

  AllScored-insert_scored :
      (s : ScoredNode F) (rest : List (ScoredNode F))
      → IsScored s
      → AllScored rest
      → AllScored (insert_scored s rest)
  unfolding insert_scored
  AllScored-insert_scored s [] h k = (h, tt)
  AllScored-insert_scored s (t ∷ rest) h k = elim (Bool-cases (no_worse s t)) [
    | inl e ↦ rw e (h, k)
    | inr e ↦ rw e (k.0, AllScored-insert_scored s rest h k.1)
  ]

  AllScored-sort_by_availability :
      (scored : List (ScoredNode F)) → AllScored scored → AllScored (sort_by_availability scored)
  unfolding sort_by_availability
  AllScored-sort_by_availability [] h = tt
  AllScored-sort_by_availability (s ∷ rest) h =
      AllScored-insert_scored s (sort_by_availability rest) h.0
        (AllScored-sort_by_availability rest h.1)

  scored_is :
      (s : ScoredNode F) (x : String) (node : NodeRecord F)
      → IsScored s
      → (s.node_name == x) ≡ true
      → find_node x nodes ≡ some node
      → s ≡ score_node cfg now (x, node)
  scored_is s x node (known, k, e) q h =
      let same : s.node_name ≡ x = (eq_iff s.node_name x).0 q in
      let found : find_node x nodes ≡ some known =
        subst (λ n. find_node n nodes ≡ some known) same k in
      let one : known ≡ node = some-injective _ _ (sym found ∙ h) in
      e ∙ ap (λ n. score_node cfg now (n, known)) same ∙ ap (λ k. score_node cfg now (x, k)) one

  below_lem :
      (s : ScoredNode F) (rest : List (ScoredNode F)) (y : String) (b : NodeRecord F)
      → IsBelow s rest
      → AllScored rest
      → contains y (names_of rest) ≡ true
      → find_node y nodes ≡ some b
      → no_worse s (score_node cfg now (y, b)) ≡ true
  unfolding contains
  below_lem s [] y b h k m e = cc
  below_lem s (t ∷ rest) y b h k m e = elim (Bool-cases (t.node_name == y)) [
    | inl q ↦ subst (λ t. no_worse s t ≡ true) (scored_is t y b k.0 q e) h.0
    | inr q ↦ below_lem s rest y b h.1 k.1 (ground arith) e
  ]

  -- In a ranked list, those taken are no worse than those left.
  taken_lem :
      (n : ℕ) (scored : List (ScoredNode F)) (x y : String) (a b : NodeRecord F)
      → IsRanked scored
      → AllScored scored
      → contains x (take n (names_of scored)) ≡ true
      → contains y (take n (names_of scored)) ≡ false
      → contains y (names_of scored) ≡ true
      → find_node x nodes ≡ some a
      → find_node y nodes ≡ some b
      → no_worse (score_node cfg now (x, a)) (score_node cfg now (y, b)) ≡ true
  unfolding contains
  taken_lem zero scored x y a b r k h l m e g = cc
  taken_lem (suc n) [] x y a b r k h l m e g = cc
  taken_lem (suc n) (s ∷ rest) x y a b r k h l m e g = elim (Bool-cases (s.node_name == x)) [
    | inl q ↦
        subst (λ t. no_worse t (score_node cfg now (y, b)) ≡ true) (scored_is s x a k.0 q e)
          (below_lem s rest y b r.0 k.1 (ground arith) g)
    | inr q ↦ taken_lem n rest x y a b r.1 k.1 (ground arith) (ground arith) (ground arith) e g
  ]

module _ {F : Type 0} ⦃f : Floats F⦄ where
  -- If the numbers are ordered, a node that `allocate_nodes` takes from the blacklist is no worse, by
  -- fatality, score, last weight and number of faults, than a candidate of the blacklist that is not
  -- fatal and is not taken.
  pub allocate_nodes_best :
      IsOrdered f
      → (now : ℕ) (candidates : List String) (required : ℕ) (m : BlacklistManager F) (x y : String)
        (a b : NodeRecord F)
      → find_node x m.nodes ≡ some a
      → find_node y m.nodes ≡ some b
      → contains x (allocate_nodes now candidates required m).0.backup_nodes ≡ true
      → contains y candidates ≡ true
      → b.fatal ≡ false
      → contains y (allocate_nodes now candidates required m).0.backup_nodes ≡ false
      → no_worse (score_node m.config now (x, a)) (score_node m.config now (y, b)) ≡ true
  unfolding allocate_nodes fill_up
  allocate_nodes_best o now candidates required m x y a b e g chosen there alive left =
      let cfg = m.config in
      let shortage = required - length (unlisted m.nodes candidates) in
      let entries = recoverable m.nodes (first_ones [] candidates) in
      let scored = get_scored_nodes cfg now entries in
      let usable : is_usable (find_node y m.nodes) ≡ true = rw g (ground (arith, alive)) in
      let here : contains y (keys entries) ≡ true = ground (
        arith,
        contains-recoverable y m.nodes (first_ones [] candidates),
        contains-first_ones y candidates,
      ) in
      let offered : contains y (names_of (sort_by_availability scored)) ≡ true =
        rw (contains-sort_by_availability y scored, names-get_scored_nodes cfg now entries) here in
      taken_lem cfg now m.nodes shortage (sort_by_availability scored) x y a b
        (IsRanked-sort_by_availability o scored)
        (AllScored-sort_by_availability cfg now m.nodes scored (
          AllScored-get_scored_nodes cfg now m.nodes entries
            (AllKnown-recoverable m.nodes (first_ones [] candidates))))
        chosen left offered e g

  length-fill_up :
      (cfg : BlacklistConfig F) (now shortage : ℕ) (entries : Nodes F)
      → length (fill_up cfg now shortage entries) ≡ min shortage (length (keys entries))
  unfolding fill_up
  length-fill_up cfg now shortage entries =
      let scored = get_scored_nodes cfg now entries in
      rw
        (
          length-take shortage (names_of (sort_by_availability scored)),
          length-sort_by_availability scored,
          names-get_scored_nodes cfg now entries,
        )
        refl

  -- `allocate_nodes` answers with as many nodes as are required, unless its last value says how many
  -- are missing, and where some are missing every candidate is offered that is not fatal.
  pub allocate_nodes_counted :
      (now : ℕ) (candidates : List String) (required : ℕ) (m : BlacklistManager F)
      → let (r, missing) = allocate_nodes now candidates required m in
        (required ≤ length r.healthy_nodes + length r.backup_nodes + missing)
        × (1 ≤ missing
            → (length r.healthy_nodes + length r.backup_nodes + missing ≡ required)
              × ((x : String)
                  → contains x candidates ≡ true
                  → fatal_node (find_node x m.nodes) ≡ false
                  → (contains x r.healthy_nodes || contains x r.backup_nodes) ≡ true))
  unfolding allocate_nodes
  allocate_nodes_counted now candidates required m =
      let healthy = unlisted m.nodes candidates in
      let entries = recoverable m.nodes (first_ones [] candidates) in
      let shortage = required - length healthy in
      let counted = length-fill_up m.config now shortage entries in
      (
        omega (arith, counted),
        λ some_missing. (
          omega (arith, counted, some_missing),
          λ x c alive. ground (
            arith,
            contains-unlisted x m.nodes candidates,
            contains-recoverable x m.nodes (first_ones [] candidates),
            contains-first_ones x candidates,
            safe_cases (find_node x m.nodes),
            contains-fill_up m.config now shortage entries x (omega (arith, counted, some_missing)),
          ),
        ),
      )
