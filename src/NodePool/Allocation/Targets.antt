-- ===== src/NodePool/Allocation/Targets.antt =====
-- The loop of `apply_node_list_resources` never removes a node that is gone, and takes a node for each
-- target while there are any.
use cluster_manager_das.Prelude.{
  ◌+◌, ◌≤◌, length-append, String, true, false, List, [], ◌∷◌, ◌++◌, ◌≡◌, refl, ◌&&◌, ◌||◌, not,
  arith, ◌==◌, eq_iff, eq_refl, Bool-cases, inl, inr, length, ap, sym,
}
use mathlib.Core.Path.{subst}
use cluster_manager_das.Prelude.Names.{contains, remove, IsNodup}
use cluster_manager_das.Prelude.Names.Laws.{
  contains-append, contains-remove, contains_congr, IsNodup-remove,
}
use cluster_manager_das.Prelude.Names.Counting.{length-remove}
use cluster_manager_das.Prelude.Exec.{ok, pure, ◌>>◌}
use cluster_manager_das.NodePool.Allocation.Select.{
  Draft, Targets, remove_backup, append_new, take_target, discard_popped, take_replacement,
  assign_targets,
}
use cluster_manager_das.NodePool.Allocation.Moves.{IsSplit, IsSplit-move}
use cluster_manager_das.NodePool.Allocation.Loop.{is_allowed}

-- What holds between two turns of the loop: the backup list is split between the new nodes and the
-- rest, the replacements are the free nodes of the two sets, and those are backup nodes still.
pub record IsFree (all healthy degraded : List String) (t : Targets) : Type 0 where
  pub split : IsSplit all (is_allowed healthy degraded true) t.draft.new t.draft.backup
  pub nodup_healthy : IsNodup t.healthy_set
  pub nodup_degraded : IsNodup t.degraded_set
  pub nodup_standby : IsNodup t.draft.standby
  pub apart : (x : String) → (contains x t.healthy_set && contains x t.degraded_set) ≡ false
  pub standby_free :
      (x : String)
      → contains x t.draft.standby ≡ (contains x t.healthy_set || contains x t.degraded_set)
  pub there : (x : String) → contains x t.draft.standby ≡ true → contains x t.draft.backup ≡ true
  pub allowed :
      (x : String) → contains x t.draft.standby ≡ true → is_allowed healthy degraded true x ≡ true

-- The draft after a node was taken, with the replacements that are left.
abbrev moved : String → List String → Draft → Draft
moved node standby d = record {
  standby = standby;
  new = d.new ++ node ∷ [];
  backup = remove node d.backup;
}

module _ (all healthy degraded : List String) (t : Targets) (h : IsFree all healthy degraded t)
    (node : String) (free : contains node t.draft.standby ≡ true) where
  take_target_lem :
      take_target node t
      ≡ (ok tt, record t { draft = moved node (remove node t.draft.standby) t.draft })
  unfolding take_target append_new remove_backup
  take_target_lem = rw (h.there node free) refl

  -- A free node is taken, and leaves the set that it stands in.
  moved-IsFree :
      (standby hs ds : List String)
      → IsNodup standby
      → IsNodup hs
      → IsNodup ds
      → ((x : String) → contains x standby ≡ (contains x t.draft.standby && not (node == x)))
      → ((x : String) → contains x hs ≡ (contains x t.healthy_set && not (node == x)))
      → ((x : String) → contains x ds ≡ (contains x t.degraded_set && not (node == x)))
      → IsFree all healthy degraded
          (record { healthy_set = hs; degraded_set = ds; draft = moved node standby t.draft })
  moved-IsFree standby hs ds n nh nd s sh sd = record {
    split =
        IsSplit-move all (is_allowed healthy degraded true) t.draft.new t.draft.backup h.split node
          (h.there node free) (h.allowed node free);
    nodup_healthy = nh;
    nodup_degraded = nd;
    nodup_standby = n;
    apart = λ x. ground (arith, sh x, sd x, h.apart x);
    standby_free = λ x. ground (arith, s x, sh x, sd x, h.standby_free x);
    there = λ x m.
        ground
          (arith, m, s x, h.there x, contains-remove x node t.draft.backup h.split.nodup_backup);
    allowed = λ x m. h.allowed x (ground (arith, m, s x));
  }

  -- A list without the node has nothing more to lose.
  other_list :
      (xs : List String)
      → contains node xs ≡ false
      → (x : String) → contains x xs ≡ (contains x xs && not (node == x))
  other_list xs out x = ground (arith, contains_congr node x xs, out)

-- What the loop over some targets adds to the new nodes: one for each target while there are enough
-- replacements, and every target that is free.
pub record IsGrown (nodes : List String) (t u : Targets) : Type 0 where
  pub counted :
      length nodes ≤ length t.draft.standby → length u.draft.new ≡ length t.draft.new + length nodes
  pub kept : (x : String) → contains x t.draft.new ≡ true → contains x u.draft.new ≡ true
  pub taken :
      (x : String)
      → contains x nodes ≡ true
      → contains x t.draft.standby ≡ true
      → contains x u.draft.new ≡ true

-- One turn, in which `y` is taken for the target `node`.
IsGrown-turn :
    (node y : String) (nodes : List String) (t v u : Targets)
    → v.draft.new ≡ t.draft.new ++ y ∷ []
    → length v.draft.standby + 1 ≡ length t.draft.standby
    → ((x : String) → contains x v.draft.standby ≡ (contains x t.draft.standby && not (y == x)))
    → (contains node t.draft.standby ≡ true → (y == node) ≡ true)
    → IsGrown nodes v u
    → IsGrown (node ∷ nodes) t u
unfolding contains
IsGrown-turn node y nodes t v u grows shrinks left own g = record {
  counted = λ fits. omega (
    arith,
    fits,
    g.counted (omega (arith, fits, shrinks)),
    ap length grows,
    length-append t.draft.new (y ∷ []),
  );
  kept = λ x m. g.kept x (there x (ground (arith, m)));
  taken = λ x m s. elim (Bool-cases (y == x)) [
    | inl e ↦ g.kept x (there x (ground (arith, e)))
    | inr e ↦
        g.taken x
          (ground (
            arith,
            m,
            e,
            s,
            own,
            eq_iff node x,
            eq_iff y x,
            eq_iff y node,
            contains_congr node x t.draft.standby,
          ))
          (ground (arith, left x, s, e))
  ];
}
  where
    there : (x : String) → (contains x t.draft.new || y == x) ≡ true → contains x v.draft.new ≡ true
    there x m = rw grows (ground (arith, m, contains-append x t.draft.new (y ∷ [])))

module _ (all healthy degraded : List String) where
  -- The loop over the rest of the targets raises nothing.
  abbrev Runs : List String → Targets → Type 0
  Runs nodes t =
      (u : Targets) × (assign_targets nodes t ≡ (ok tt, u))
      × IsFree all healthy degraded u
      × IsGrown nodes t u

  -- A target that is not free, with the replacements that there are.
  replaced_lem :
      (node : String) (nodes : List String)
      → ((t : Targets) → IsFree all healthy degraded t → Runs nodes t)
      → (t : Targets) → IsFree all healthy degraded t
      → contains node t.draft.standby ≡ false
      → (standby : List String) → standby ≡ t.draft.standby
      → (u : Targets) × ((elim standby [
        | [] ↦ (pure tt) t
        | popped ∷ rest ↦ (do take_replacement popped rest; assign_targets nodes) t
      ])
          ≡ (ok tt, u))
        × IsFree all healthy degraded u
        × IsGrown (node ∷ nodes) t u
  unfolding take_replacement append_new remove_backup discard_popped contains
  replaced_lem node nodes ih t h gone [] e = (
    t,
    refl,
    h,
    record {
      counted = λ fits. ground (arith, ap length e);
      kept = λ x m. m;
      taken = λ x m s. ground (arith, s, ap (contains x) e);
    },
  )
  replaced_lem node nodes ih t h gone (popped ∷ rest) e =
      let same = λ (x : String). ap (contains x) e in
      let n : IsNodup (popped ∷ rest) = subst IsNodup (sym e) h.nodup_standby in
      let free : contains popped t.draft.standby ≡ true =
        ground (arith, same popped, eq_refl popped) in
      let left : (x : String)
          → contains x rest ≡ (contains x t.draft.standby && not (popped == x)) =
        λ x. ground (arith, same x, n.0, contains_congr popped x rest) in
      let shorter : length rest + 1 ≡ length t.draft.standby = ground (arith, ap length e) in
      elim (Bool-cases (contains popped t.degraded_set)) [
        | inl d ↦
            let out : contains popped t.healthy_set ≡ false = ground (arith, d, h.apart popped) in
            let v : Targets = record {
              healthy_set = t.healthy_set;
              degraded_set = remove popped t.degraded_set;
              draft = moved popped rest t.draft;
            } in
            let r = ih v (
              moved-IsFree all healthy degraded t h popped free rest t.healthy_set
                (remove popped t.degraded_set) n.1 h.nodup_healthy
                (IsNodup-remove popped t.degraded_set h.nodup_degraded) left
                (other_list all healthy degraded t h popped free t.healthy_set out)
                (λ x. contains-remove x popped t.degraded_set h.nodup_degraded)) in
            rw (h.there popped free, d)
              (
                r.0,
                r.1,
                r.2,
                IsGrown-turn node popped nodes t v r.0 refl shorter left (λ m. cc) r.3,
              )
        | inr d ↦
            let v : Targets = record {
              healthy_set = remove popped t.healthy_set;
              degraded_set = t.degraded_set;
              draft = moved popped rest t.draft;
            } in
            let r = ih v (
              moved-IsFree all healthy degraded t h popped free rest (remove popped t.healthy_set)
                t.degraded_set n.1 (IsNodup-remove popped t.healthy_set h.nodup_healthy)
                h.nodup_degraded left (λ x. contains-remove x popped t.healthy_set h.nodup_healthy)
                (other_list all healthy degraded t h popped free t.degraded_set d)) in
            rw (h.there popped free, d)
              (
                r.0,
                r.1,
                r.2,
                IsGrown-turn node popped nodes t v r.0 refl shorter left (λ m. cc) r.3,
              )
      ]

  -- The loop raises nothing.
  pub assign_targets_lem :
      (nodes : List String) (t : Targets) → IsFree all healthy degraded t → Runs nodes t
  unfolding assign_targets
  assign_targets_lem [] t h = (
    t,
    refl,
    h,
    record {
      counted = λ fits. omega arith;
      kept = λ x m. m;
      taken = λ x m s. unfold contains in cc;
    },
  )
  assign_targets_lem (node ∷ nodes) t h = elim (Bool-cases (contains node t.healthy_set)) [
    | inl e ↦
        let free : contains node t.draft.standby ≡ true = ground (arith, e, h.standby_free node) in
        let out : contains node t.degraded_set ≡ false = ground (arith, e, h.apart node) in
        let v : Targets = record {
          healthy_set = remove node t.healthy_set;
          degraded_set = t.degraded_set;
          draft = moved node (remove node t.draft.standby) t.draft;
        } in
        let r = assign_targets_lem nodes v (
          moved-IsFree all healthy degraded t h node free (remove node t.draft.standby)
            (remove node t.healthy_set) t.degraded_set
            (IsNodup-remove node t.draft.standby h.nodup_standby)
            (IsNodup-remove node t.healthy_set h.nodup_healthy) h.nodup_degraded
            (λ x. contains-remove x node t.draft.standby h.nodup_standby)
            (λ x. contains-remove x node t.healthy_set h.nodup_healthy)
            (other_list all healthy degraded t h node free t.degraded_set out)) in
        rw (e, take_target_lem all healthy degraded t h node free)
          (
            r.0,
            r.1,
            r.2,
            IsGrown-turn node node nodes t v r.0 refl (length-remove node t.draft.standby free)
                (λ x. contains-remove x node t.draft.standby h.nodup_standby) (λ m. eq_refl node)
                r.3,
          )
    | inr e ↦ elim (Bool-cases (contains node t.degraded_set)) [
      | inl d ↦
          let free : contains node t.draft.standby ≡ true =
            ground (arith, d, h.standby_free node) in
          let v : Targets = record {
            healthy_set = t.healthy_set;
            degraded_set = remove node t.degraded_set;
            draft = moved node (remove node t.draft.standby) t.draft;
          } in
          let r = assign_targets_lem nodes v (
            moved-IsFree all healthy degraded t h node free (remove node t.draft.standby)
              t.healthy_set (remove node t.degraded_set)
              (IsNodup-remove node t.draft.standby h.nodup_standby) h.nodup_healthy
              (IsNodup-remove node t.degraded_set h.nodup_degraded)
              (λ x. contains-remove x node t.draft.standby h.nodup_standby)
              (other_list all healthy degraded t h node free t.healthy_set e)
              (λ x. contains-remove x node t.degraded_set h.nodup_degraded)) in
          rw (e, d, take_target_lem all healthy degraded t h node free)
            (
              r.0,
              r.1,
              r.2,
              IsGrown-turn node node nodes t v r.0 refl (length-remove node t.draft.standby free)
                  (λ x. contains-remove x node t.draft.standby h.nodup_standby) (λ m. eq_refl node)
                  r.3,
            )
      | inr d ↦
          rw (e, d)
            (replaced_lem node nodes (λ s k. assign_targets_lem nodes s k) t h
              (ground (arith, e, d, h.standby_free node)) t.draft.standby refl)
    ]
  ]
