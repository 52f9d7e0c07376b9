-- ===== src/Runtime/Apply/Granted.antt =====
-- What a call of `apply_node_num_resources` leaves that grants nodes.
use cluster_manager_das.Prelude.{
  ℕ, String, Bool, true, false, List, [], ◌∷◌, ◌++◌, sym, ◌∙◌, ◌≡◌, refl, ap,
}
use mathlib.Core.Path.{subst}
use cluster_manager_das.Runtime.Proxy.{NodePoolProxy}
use cluster_manager_das.Runtime.Apply.{
  Round, Request, Outcome, granted, refused, raised, waiting, Turn, done, again,
}
use cluster_manager_das.Runtime.Apply.Rounds.{one_round, run_rounds, apply_resources}
use cluster_manager_das.Runtime.Apply.Grant.{IsGrant, GrantsWell, checked, granted_round}

unfoldable master_name : Outcome → String
master_name (granted m) = m
master_name _ = ""

module _ (has_slurm : Bool) (required slots : ℕ) where
  -- The rounds, without an end: where the loop stands after them.
  unfoldable pub turns : List Round → Turn × NodePoolProxy → Turn × NodePoolProxy
  unfolding one_round
  turns [] t = t
  turns (round ∷ rounds) (done o, x) = (done o, x)
  turns (round ∷ rounds) (again q, x) = turns rounds (one_round has_slurm required slots round q x)

  -- A grant in some round: the rounds before it lead to a request that goes on, and its own health
  -- check is the one whose healthy nodes are granted.
  pub record IsGranted (start : Turn × NodePoolProxy) (rounds : List Round) (master : String)
      (y : NodePoolProxy) : Type 0 where
    pub earlier : List Round
    pub round : Round
    pub later : List Round
    pub split : rounds ≡ earlier ++ round ∷ later
    pub request : Request
    pub before : NodePoolProxy
    pub reached : turns earlier start ≡ (again request, before)
    pub grants : IsGrant required (checked slots round request before) round.now master y

  granted_now :
      (rounds : List Round) (round : Round) (q : Request) (x : NodePoolProxy)
      (t : Turn × NodePoolProxy) (master : String)
      → t ≡ one_round has_slurm required slots round q x
      → GrantsWell required (checked slots round q x) round.now t
      → (run_rounds has_slurm required slots rounds t).0 ≡ granted master
      → ((t : Turn × NodePoolProxy) (q : Request) (x : NodePoolProxy)
          → t ≡ (again q, x)
          → (run_rounds has_slurm required slots rounds t).0 ≡ granted master
          → IsGranted t rounds master (run_rounds has_slurm required slots rounds t).1)
      → IsGranted
          (again q, x)
          (round ∷ rounds)
          master
          (run_rounds has_slurm required slots rounds t).1
  unfolding run_rounds turns master_name
  granted_now rounds round q x (done (granted m), y) master e h g ih = record {
    earlier = [];
    round = round;
    later = rounds;
    split = refl;
    request = q;
    before = x;
    reached = refl;
    grants =
        subst (λ n. IsGrant required (checked slots round q x) round.now n y) (ap master_name g) h;
  }
  granted_now rounds round q x (done refused, y) master e h g ih = cc
  granted_now rounds round q x (done (raised _), y) master e h g ih = cc
  granted_now rounds round q x (done waiting, y) master e h g ih = cc
  granted_now rounds round q x (again r, y) master e h g ih =
      let w = ih (again r, y) r y refl g in
      record {
        earlier = round ∷ w.earlier;
        round = w.round;
        later = w.later;
        split = ap (λ rs. round ∷ rs) w.split;
        request = w.request;
        before = w.before;
        reached = ap (turns w.earlier) (sym e) ∙ w.reached;
        grants = w.grants;
      }

  granted_rounds :
      (rounds : List Round) (q : Request) (x : NodePoolProxy) (master : String)
      → (run_rounds has_slurm required slots rounds (again q, x)).0 ≡ granted master
      → IsGranted
          (again q, x)
          rounds
          master
          (run_rounds has_slurm required slots rounds (again q, x)).1
  unfolding run_rounds
  granted_rounds [] q x master g = cc
  granted_rounds (round ∷ rounds) q x master g =
      granted_now rounds round q x (one_round has_slurm required slots round q x) master refl
        (granted_round has_slurm required slots round q x) g
        (λ t r y e.
          subst
            (λ s.
              (run_rounds has_slurm required slots rounds s).0 ≡ granted master
              → IsGranted s rounds master (run_rounds has_slurm required slots rounds s).1)
            (sym e) (granted_rounds rounds r y master))

  -- A call that grants a master grants it in one of the rounds: earlier rounds left the request going,
  -- the health check of that round, of the nodes in the pool's file of running nodes, worked, and found
  -- nothing faulty or as many healthy nodes as are required. The snapshot, its file and the slots file
  -- have that check's healthy nodes, of which the master is the first, with 8 slots for each, whatever
  -- number of slots was asked for.
  pub apply_resources_grants :
      (rounds : List Round) (x : NodePoolProxy) (master : String)
      → (apply_resources has_slurm required slots rounds x).0 ≡ granted master
      → IsGranted
          (
            again
                (record { actual_required_num = required; need_apply = true; slots_bound = false }),
            record x { required_num = required },
          )
          rounds
          master
          (apply_resources has_slurm required slots rounds x).1
  unfolding apply_resources
  apply_resources_grants rounds x master g =
      granted_rounds rounds
        (record { actual_required_num = required; need_apply = true; slots_bound = false })
        (record x { required_num = required }) master g
