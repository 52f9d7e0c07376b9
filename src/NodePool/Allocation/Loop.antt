-- ===== src/NodePool/Allocation/Loop.antt =====
-- The loop over the last running nodes takes one node for each of them, as long as there are enough
-- replacements.
use cluster_manager_das.Prelude.{
  ℕ, ◌+◌, ◌≤◌, String, Bool, true, false, List, [], ◌∷◌, ◌++◌, ◌≡◌, refl, ◌∙◌, ◌&&◌, ◌||◌, arith,
  ◌==◌, eq_iff, eq_refl, length, length-append, if◌then◌else◌, Bool-cases, inl, inr, leb,
}
use cluster_manager_das.Prelude.Names.{contains, remove, IsNodup}
use cluster_manager_das.Prelude.Names.Laws.{contains-append, contains-remove, contains_congr}
use cluster_manager_das.Prelude.Exec.{ok}
use cluster_manager_das.NodePool.Allocation.Select.{
  Draft, remove_backup, append_new, reuse, pick_and_assign_standby, take_first, assign, recycle,
}
use cluster_manager_das.NodePool.Allocation.Moves.{IsSplit, IsSplit-move}

-- A last running node that the loop uses again.
abbrev pub is_reusable : (all healthy degraded : List String) → Bool → String → Bool
is_reusable all healthy degraded allow x =
    contains x all && (contains x healthy || contains x degraded && allow)

-- A node that the loop may hand out: healthy, or degraded where that is allowed.
abbrev pub is_allowed : (healthy degraded : List String) → Bool → String → Bool
is_allowed healthy degraded allow x = contains x healthy || contains x degraded && allow

-- How many of the nodes must be replaced.
abbrev pub replaced : (all healthy degraded : List String) → Bool → List String → ℕ
replaced all healthy degraded allow [] = 0
replaced all healthy degraded allow (x ∷ xs) =
    (if is_reusable all healthy degraded allow x then 0 else 1)
    + replaced all healthy degraded allow xs

-- What holds before each round, with the nodes of `rest` to come.
pub record IsReady (all healthy degraded : List String) (allow : Bool) (rest : List String)
    (d : Draft) : Type 0 where
  pub split : IsSplit all (is_allowed healthy degraded allow) d.new d.backup
  pub nodup_rest : IsNodup rest
  pub nodup_standby : IsNodup d.standby
  pub enough : replaced all healthy degraded allow rest ≤ length d.standby
  pub apart : (x : String) → (contains x rest && contains x d.standby) ≡ false
  pub rest_there :
      (x : String)
      → contains x rest ≡ true
      → is_reusable all healthy degraded allow x ≡ true
      → contains x d.backup ≡ true
  pub standby_there :
      (x : String)
      → contains x d.standby ≡ true
      → (contains x d.backup && is_allowed healthy degraded allow x) ≡ true

module _ (all healthy degraded : List String) (allow : Bool) where
  -- The draft after a round that uses `n` again.
  abbrev after_reuse : String → Draft → Draft
  after_reuse n d = record d { new = d.new ++ n ∷ []; backup = remove n d.backup }

  -- The draft after a round that takes the first replacement.
  abbrev after_pick : String → List String → Draft → Draft
  after_pick s ss d = record { standby = ss; new = d.new ++ s ∷ []; backup = remove s d.backup }

  module _ (n : String) (rest : List String) (d : Draft)
      (r : IsReady all healthy degraded allow (n ∷ rest) d) where
    reuse-IsReady :
        is_reusable all healthy degraded allow n ≡ true
        → IsReady all healthy degraded allow rest (after_reuse n d)
    unfolding contains
    reuse-IsReady u = record {
      split =
          IsSplit-move all _ d.new d.backup r.split n (r.rest_there n (ground (arith, eq_refl n)) u)
            (ground arith);
      nodup_rest = r.nodup_rest.1;
      nodup_standby = r.nodup_standby;
      enough = ground (arith, r.enough);
      apart = λ x. ground (arith, r.apart x);
      rest_there = λ x m v. ground (
        arith,
        r.rest_there x,
        r.nodup_rest.0,
        contains_congr n x rest,
        contains-remove x n d.backup r.split.nodup_backup,
      );
      standby_there = λ x m.
          ground (
            arith,
            r.standby_there x,
            r.apart x,
            contains-remove x n d.backup r.split.nodup_backup,
          );
    }

    reuse_lem :
        is_reusable all healthy degraded allow n ≡ true
        → assign all healthy degraded allow n d ≡ (ok tt, after_reuse n d)
    unfolding assign reuse append_new remove_backup contains
    reuse_lem u =
        let there : contains n d.backup ≡ true = r.rest_there n (ground (arith, eq_refl n)) u in
        rw (u, there)

  module _ (n : String) (rest : List String) (s : String) (ss new backup : List String)
      (r : IsReady all healthy degraded allow
        (n ∷ rest)
        (record { standby = s ∷ ss; new = new; backup = backup }))
      (u : is_reusable all healthy degraded allow n ≡ false) where
    abbrev standby_draft : Draft
    standby_draft = record { standby = s ∷ ss; new = new; backup = backup }

    pick_there : (contains s backup && is_allowed healthy degraded allow s) ≡ true
    pick_there = unfold contains in r.standby_there s (ground (arith, eq_refl s))

    pick-IsReady : IsReady all healthy degraded allow rest (after_pick s ss standby_draft)
    unfolding contains
    pick-IsReady = record {
      split =
          IsSplit-move all _ new backup r.split s (ground (arith, pick_there))
            (ground (arith, pick_there));
      nodup_rest = r.nodup_rest.1;
      nodup_standby = r.nodup_standby.1;
      enough = ground (arith, r.enough);
      apart = λ x. ground (arith, r.apart x);
      rest_there = λ x m v.
          ground
            (arith, r.rest_there x, r.apart x, contains-remove x s backup r.split.nodup_backup);
      standby_there = λ x m. ground (
        arith,
        r.standby_there x,
        r.nodup_standby.0,
        contains_congr s x ss,
        contains-remove x s backup r.split.nodup_backup,
      );
    }

    pick_lem :
        assign all healthy degraded allow n standby_draft ≡ (ok tt, after_pick s ss standby_draft)
    unfolding assign pick_and_assign_standby take_first append_new remove_backup
    pick_lem = let there : contains s backup ≡ true = ground (arith, pick_there) in rw (u, there)

-- What the loop leaves: the split, one more node for each of `rest`, the nodes that were there
-- before, and every node of `rest` that could be used again.
pub record IsFilled (all healthy degraded : List String) (allow : Bool) (count : ℕ)
    (rest new : List String) (d : Draft) : Type 0 where
  pub split : IsSplit all (is_allowed healthy degraded allow) d.new d.backup
  pub filled : length d.new ≡ count
  pub grown : (x : String) → contains x new ≡ true → contains x d.new ≡ true
  pub reused :
      (x : String)
      → contains x rest ≡ true
      → is_reusable all healthy degraded allow x ≡ true
      → contains x d.new ≡ true

module _ (all healthy degraded : List String) (allow : Bool) (nodes_num : ℕ) where
  -- After a round that added the node `y`, which is `n` itself if `n` could be used again.
  IsFilled-round :
      (n y : String) (rest new : List String) (d : Draft)
      → (is_reusable all healthy degraded allow n ≡ true → y ≡ n)
      → IsFilled all healthy degraded allow nodes_num rest (new ++ y ∷ []) d
      → IsFilled all healthy degraded allow nodes_num (n ∷ rest) new d
  unfolding contains
  IsFilled-round n y rest new d same f = record {
    split = f.split;
    filled = f.filled;
    grown = λ x m. f.grown x (ground (arith, contains-append x new (y ∷ [])));
    reused = λ x m u. elim (Bool-cases (n == x)) [
      | inl e ↦
          let nx : n ≡ x = (eq_iff n x).0 e in
          let yx : y ≡ x = same (rw nx u) ∙ nx in
          f.grown x (ground (arith, contains-append x new (y ∷ []), (eq_iff y x).1 yx))
      | inr e ↦ f.reused x (ground arith) u
    ];
  }

  -- From a state that is ready the loop ends without an exception, and fills the list.
  pub recycle_lem :
      (rest standby new backup : List String)
      → IsReady all healthy degraded allow rest
          (record { standby = standby; new = new; backup = backup })
      → length new + length rest ≡ nodes_num
      → (d' : Draft) × (recycle all healthy degraded allow nodes_num rest
            (record { standby = standby; new = new; backup = backup })
          ≡ (ok tt, d'))
        × IsFilled all healthy degraded allow nodes_num rest new d'
  unfolding recycle
  recycle_lem [] standby new backup r e = (
    _,
    refl,
    record {
      split = r.split;
      filled = omega arith;
      grown = λ x m. m;
      reused = λ x m u. unfold contains in cc;
    },
  )
  recycle_lem (n ∷ rest) [] new backup r e =
      let more : leb nodes_num (length new) ≡ false = ground arith in
      let u : is_reusable all healthy degraded allow n ≡ true = ground (arith, r.enough) in
      let (d', run, f) =
        recycle_lem rest [] (new ++ n ∷ []) (remove n backup)
          (reuse-IsReady all healthy degraded allow n rest _ r u)
          (omega (arith, length-append new (n ∷ []))) in
      (
        d',
        rw (more, reuse_lem all healthy degraded allow n rest _ r u) run,
        IsFilled-round n n rest new d' (λ _. refl) f,
      )
  recycle_lem (n ∷ rest) (s ∷ ss) new backup r e =
      let more : leb nodes_num (length new) ≡ false = ground arith in
      elim (Bool-cases (is_reusable all healthy degraded allow n)) [
        | inl u ↦
            let (d', run, f) =
              recycle_lem rest (s ∷ ss) (new ++ n ∷ []) (remove n backup)
                (reuse-IsReady all healthy degraded allow n rest _ r u)
                (omega (arith, length-append new (n ∷ []))) in
            (
              d',
              rw (more, reuse_lem all healthy degraded allow n rest _ r u) run,
              IsFilled-round n n rest new d' (λ _. refl) f,
            )
        | inr u ↦
            let (d', run, f) =
              recycle_lem rest ss (new ++ s ∷ []) (remove s backup)
                (pick-IsReady all healthy degraded allow n rest s ss new backup r u)
                (omega (arith, length-append new (s ∷ []))) in
            (
              d',
              rw (more, pick_lem all healthy degraded allow n rest s ss new backup r u) run,
              IsFilled-round n s rest new d' (λ v. cc (u, v)) f,
            )
      ]
