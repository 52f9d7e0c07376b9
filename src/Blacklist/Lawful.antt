-- ===== src/Blacklist/Lawful.antt =====
-- `allocate_nodes` keeps what the pool relies on in a blacklist.
use mathlib.Core.Path.{subst}
use mathlib.Core.Option.{some-injective}
use cluster_manager_das.Prelude.{
  ℕ, zero, suc, ◌-◌, String, Bool, true, false, ◌||◌, ◌&&◌, not, List, [], ◌∷◌, Option, none, some,
  ◌≡◌, refl, arith, length, take, map, ◌==◌, eq_iff,
}
use cluster_manager_das.Prelude.Names.{contains, first_ones}
use cluster_manager_das.Prelude.Names.Laws.{contains_congr}
use cluster_manager_das.NodePool.Allocation.{Allocate}
use cluster_manager_das.NodePool.Allocation.Promise.{IsLawful}
use cluster_manager_das.Blacklist.Floats.{Floats}
use cluster_manager_das.Blacklist.Records.{BlacklistConfig, NodeRecord}
use cluster_manager_das.Blacklist.Scoring.{
  ScoredNode, score_node, get_scored_nodes, insert_scored, sort_by_availability,
}
use cluster_manager_das.Blacklist.Manager.{
  Nodes, BlacklistManager, find_node, fatal_node, is_listed, unlisted, add_recoverable, recoverable,
  fill_up, allocate_nodes,
}

pub contains-take :
    (x : String) (n : ℕ) (xs : List String) → contains x (take n xs) ≡ true → contains x xs ≡ true
unfolding contains
contains-take x zero xs h = cc
contains-take x (suc n) [] h = cc
contains-take x (suc n) (y ∷ xs) h = ground (arith, contains-take x n xs)

contains-unseen :
    (x : String) (seen xs : List String)
    → contains x (first_ones seen xs) ≡ (contains x xs && not (contains x seen))
unfolding contains first_ones
contains-unseen x seen [] = refl
contains-unseen x seen (y ∷ xs) = ground (
  arith,
  contains-unseen x seen xs,
  contains-unseen x (y ∷ seen) xs,
  eq_iff y x,
  contains_congr y x seen,
)

pub contains-first_ones :
    (x : String) (xs : List String) → contains x (first_ones [] xs) ≡ contains x xs
unfolding contains
contains-first_ones x xs = ground (arith, contains-unseen x [] xs)

module _ {F : Type 0} where
  abbrev pub keys : Nodes F → List String
  keys nodes = map (λ e. e.0) nodes

  -- Whether the blacklist has a node, and not as a fatal one.
  abbrev pub is_usable : Option (NodeRecord F) → Bool
  is_usable none = false
  is_usable (some node) = not node.fatal

  -- An equal name finds the same node.
  pub same_node :
      {A : Type 0} (g : Option (NodeRecord F) → A) (c x : String) (nodes : Nodes F)
      → (c == x) ≡ true
      → g (find_node c nodes) ≡ g (find_node x nodes)
  same_node g c x nodes e = rw ((eq_iff c x).0 e)

  pub contains-unlisted :
      (x : String) (nodes : Nodes F) (candidates : List String)
      → contains x (unlisted nodes candidates)
        ≡ (contains x candidates && not (is_listed (find_node x nodes)))
  unfolding contains unlisted
  contains-unlisted x nodes [] = refl
  contains-unlisted x nodes (c ∷ cs) =
      ground (arith, contains-unlisted x nodes cs, same_node is_listed c x nodes)

  contains-add_recoverable :
      (x c : String) (o : Option (NodeRecord F)) (rest : Nodes F)
      → contains x (keys (add_recoverable c o rest))
        ≡ (c == x && is_usable o || contains x (keys rest))
  unfolding contains add_recoverable
  contains-add_recoverable x c none rest = ground arith
  contains-add_recoverable x c (some node) rest = ground arith

  pub contains-recoverable :
      (x : String) (nodes : Nodes F) (candidates : List String)
      → contains x (keys (recoverable nodes candidates))
        ≡ (contains x candidates && is_usable (find_node x nodes))
  unfolding contains recoverable
  contains-recoverable x nodes [] = refl
  contains-recoverable x nodes (c ∷ cs) = ground (
    arith,
    contains-add_recoverable x c (find_node c nodes) (recoverable nodes cs),
    contains-recoverable x nodes cs,
    same_node is_usable c x nodes,
  )

  -- A node that is usable is listed and not fatal.
  usable_cases :
      (o : Option (NodeRecord F))
      → is_usable o ≡ true
      → (is_listed o ≡ true) × (fatal_node o ≡ false)
  unfolding fatal_node is_listed
  usable_cases none h = cc
  usable_cases (some node) h = (refl, ground arith)

  unlisted_not_fatal : (o : Option (NodeRecord F)) → is_listed o ≡ false → fatal_node o ≡ false
  unfolding fatal_node is_listed
  unlisted_not_fatal none h = refl
  unlisted_not_fatal (some node) h = cc

module _ {F : Type 0} ⦃f : Floats F⦄ where
  abbrev pub names_of : List (ScoredNode F) → List String
  names_of scored = map (λ s. s.node_name) scored

  pub contains-insert_scored :
      (x : String) (a : ScoredNode F) (bs : List (ScoredNode F))
      → contains x (names_of (insert_scored a bs)) ≡ (a.node_name == x || contains x (names_of bs))
  unfolding contains insert_scored
  contains-insert_scored x a [] = refl
  contains-insert_scored x a (b ∷ bs) = ground (arith, contains-insert_scored x a bs)

  pub contains-sort_by_availability :
      (x : String) (scored : List (ScoredNode F))
      → contains x (names_of (sort_by_availability scored)) ≡ contains x (names_of scored)
  unfolding contains sort_by_availability
  contains-sort_by_availability x [] = refl
  contains-sort_by_availability x (a ∷ rest) = ground (
    arith,
    contains-insert_scored x a (sort_by_availability rest),
    contains-sort_by_availability x rest,
  )

  pub names-get_scored_nodes :
      (cfg : BlacklistConfig F) (now : ℕ) (nodes : Nodes F)
      → names_of (get_scored_nodes cfg now nodes) ≡ keys nodes
  unfolding get_scored_nodes score_node
  names-get_scored_nodes cfg now [] = refl
  names-get_scored_nodes cfg now ((n, node) ∷ rest) = rw (names-get_scored_nodes cfg now rest) refl

  -- What is taken from the blacklist is a candidate that the blacklist has and that is not fatal.
  pub fill_up_lem :
      (cfg : BlacklistConfig F) (now shortage : ℕ) (nodes : Nodes F) (candidates : List String)
      (x : String)
      → contains x (fill_up cfg now shortage (recoverable nodes candidates)) ≡ true
      → (contains x candidates && is_usable (find_node x nodes)) ≡ true
  unfolding fill_up
  fill_up_lem cfg now shortage nodes candidates x m =
      let scored = get_scored_nodes cfg now (recoverable nodes candidates) in
      let here : contains x (names_of scored) ≡ true = ground (
        arith,
        contains-take x shortage (names_of (sort_by_availability scored)) m,
        contains-sort_by_availability x scored,
      ) in
      let there : contains x (keys (recoverable nodes candidates)) ≡ true =
        rw (← names-get_scored_nodes cfg now (recoverable nodes candidates)) here in
      ground (arith, contains-recoverable x nodes candidates, there)

  -- What the pool asks of the blacklist, as `allocate_nodes` answers it at a time.
  abbrev pub asked : ℕ → BlacklistManager F → Allocate
  asked now m candidates n = some (allocate_nodes now candidates n m).0

  abbrev pub holds_fatal : BlacklistManager F → String → Bool
  holds_fatal m x = fatal_node (find_node x m.nodes)

  -- `allocate_nodes`, asked at any time with any nodes on the blacklist, offers no node in two groups
  -- and no fatal node, as the pool relies on.
  pub allocate_nodes-IsLawful :
      (now : ℕ) (m : BlacklistManager F) → IsLawful (asked now m) (holds_fatal m)
  unfolding allocate_nodes
  allocate_nodes-IsLawful now m = record {
    apart = λ candidates n r e x.
        let o = find_node x m.nodes in
        let shortage = n - length (unlisted m.nodes candidates) in
        subst (λ r. (contains x r.healthy_nodes && contains x r.backup_nodes) ≡ false)
          (some-injective _ _ e)
          (ground (
            arith,
            contains-unlisted x m.nodes candidates,
            fill_up_lem m.config now shortage m.nodes (first_ones [] candidates) x,
            contains-first_ones x candidates,
            usable_cases o,
          ));
    no_fatal = λ candidates n r e x.
        let o = find_node x m.nodes in
        let shortage = n - length (unlisted m.nodes candidates) in
        subst
          (λ r.
            (contains x r.healthy_nodes || contains x r.backup_nodes) ≡ true
            → holds_fatal m x ≡ false)
          (some-injective _ _ e)
          (λ h. ground (
            arith,
            h,
            contains-unlisted x m.nodes candidates,
            fill_up_lem m.config now shortage m.nodes (first_ones [] candidates) x,
            contains-first_ones x candidates,
            usable_cases o,
            unlisted_not_fatal o,
          ));
  }
