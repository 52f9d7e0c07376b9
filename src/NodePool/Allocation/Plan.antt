-- ===== src/NodePool/Allocation/Plan.antt =====
-- The replacements that `apply_node_num_resources` plans for suffice, whichever plan it takes.
use cluster_manager_das.Prelude.{
  ◌+◌, ◌≤◌, String, Bool, true, false, List, [], ◌∷◌, ◌++◌, ◌≡◌, refl, ◌∙◌, ◌&&◌, not, arith,
  length, length-append, leb,
}
use cluster_manager_das.Prelude.Names.{contains, inter, diff, IsNodup}
use cluster_manager_das.Prelude.Names.Laws.{
  contains-inter, contains-diff, contains-append, IsNodup-append, IsNodup-diff,
}
use cluster_manager_das.Prelude.Names.Counting.{
  length-le_of_subset, length-inter_comm, length-inter-diff,
}
use cluster_manager_das.Prelude.Names.Strip.{AllClean-inter, AllClean-diff}
use cluster_manager_das.NodePool.State.{deduplicate_and_sort}
use cluster_manager_das.NodePool.Partition.Names.{
  IsNames, IsNames-deduplicate_and_sort, contains-deduplicate_and_sort,
}
use cluster_manager_das.NodePool.Allocation.Select.{replacements_needed}
use cluster_manager_das.NodePool.Allocation.Loop.{is_reusable, is_allowed, replaced, IsReady}

-- The blacklist's groups of the backup nodes.
pub record IsGrouped (backup healthy degraded : List String) : Type 0 where
  pub names_healthy : IsNames healthy
  pub names_degraded : IsNames degraded
  pub healthy_there : (x : String) → contains x healthy ≡ true → contains x backup ≡ true
  pub degraded_there : (x : String) → contains x degraded ≡ true → contains x backup ≡ true
  pub apart : (x : String) → (contains x healthy && contains x degraded) ≡ false

replaced-eq :
    (backup healthy degraded : List String) (allow : Bool) (usable last : List String)
    → ((x : String) → is_reusable backup healthy degraded allow x ≡ contains x usable)
    → replaced backup healthy degraded allow last ≡ length (diff last usable)
unfolding diff
replaced-eq backup healthy degraded allow usable [] same = refl
replaced-eq backup healthy degraded allow usable (x ∷ last) same =
    ground (arith, same x, replaced-eq backup healthy degraded allow usable last same)

-- The backup nodes of a group that did not run last.
abbrev pub standby_of : (backup last group : List String) → List String
standby_of backup last group = deduplicate_and_sort (inter (diff backup last) group)

module _ (backup healthy degraded last : List String) (b : IsNames backup)
    (g : IsGrouped backup healthy degraded) (l : IsNames last) where
  pub contains-standby :
      (x : String) (group : List String)
      → contains x (standby_of backup last group)
        ≡ (contains x backup && not (contains x last) && contains x group)
  contains-standby x group =
      contains-deduplicate_and_sort x (inter (diff backup last) group)
        (AllClean-inter _ _ (AllClean-diff backup last b.clean))
      ∙ ground (arith, contains-inter x (diff backup last) group, contains-diff x backup last)

  pub standby-IsNodup : IsNodup (standby_of backup last healthy ++ standby_of backup last degraded)
  standby-IsNodup =
      IsNodup-append _ _ (IsNames-deduplicate_and_sort _).nodup
        (IsNames-deduplicate_and_sort _).nodup
        λ x. ground (arith, contains-standby x healthy, contains-standby x degraded, g.apart x)

  -- Where degraded nodes may be used, the replacements suffice if the last nodes are no more than
  -- the healthy and the degraded nodes together.
  pub enough_degraded :
      length last ≤ length healthy + length degraded
      → replaced backup healthy degraded true last
        ≤ length (standby_of backup last healthy ++ standby_of backup last degraded)
  enough_degraded fits = omega (
    arith,
    replaced-eq backup healthy degraded true (healthy ++ degraded) last same,
    length-inter-diff last (healthy ++ degraded),
    length-inter-diff (healthy ++ degraded) last,
    length-inter_comm last (healthy ++ degraded) l.nodup both,
    length-append healthy degraded,
    length-le_of_subset (diff (healthy ++ degraded) last)
        (standby_of backup last healthy ++ standby_of backup last degraded) (IsNodup-diff _ _ both)
        standby-IsNodup stand_by,
  )
    where
      both : IsNodup (healthy ++ degraded)
      both = IsNodup-append healthy degraded g.names_healthy.nodup g.names_degraded.nodup g.apart

      same :
          (x : String)
          → is_reusable backup healthy degraded true x ≡ contains x (healthy ++ degraded)
      same x =
          ground (arith, contains-append x healthy degraded, g.healthy_there x, g.degraded_there x)

      stand_by :
          (x : String)
          → contains x (diff (healthy ++ degraded) last) ≡ true
          → contains x (standby_of backup last healthy ++ standby_of backup last degraded) ≡ true
      stand_by x m = ground (
        arith,
        contains-diff x (healthy ++ degraded) last,
        contains-append x healthy degraded,
        contains-append x (standby_of backup last healthy) (standby_of backup last degraded),
        contains-standby x healthy,
        contains-standby x degraded,
        g.healthy_there x,
        g.degraded_there x,
      )

  -- If there are as many healthy nodes as ran last, those that did not run suffice as replacements.
  pub healthy_replace :
      length last ≤ length healthy
      → leb (replacements_needed backup healthy last) (length (standby_of backup last healthy))
        ≡ true
  unfolding replacements_needed
  healthy_replace fits = ground (
    arith,
    fits,
    replaced-eq backup healthy degraded false (inter backup healthy) last
        (λ x. ground (arith, contains-inter x backup healthy)),
    replaced-eq backup healthy degraded false healthy last (λ x. ground (arith, g.healthy_there x)),
    length-inter-diff last healthy,
    length-inter-diff healthy last,
    length-inter_comm last healthy l.nodup g.names_healthy.nodup,
    length-le_of_subset (diff healthy last) (standby_of backup last healthy)
        (IsNodup-diff _ _ g.names_healthy.nodup) (IsNames-deduplicate_and_sort _).nodup
        (λ x m.
          ground (
            arith,
            m,
            contains-diff x healthy last,
            contains-standby x healthy,
            g.healthy_there x,
          )),
  )

  -- Where only healthy nodes may be used, the test of the plan says that the replacements suffice.
  pub enough_healthy :
      leb (replacements_needed backup healthy last) (length (standby_of backup last healthy)) ≡ true
      → replaced backup healthy degraded false last ≤ length (standby_of backup last healthy)
  unfolding replacements_needed
  enough_healthy t = ground (
    arith,
    replaced-eq backup healthy degraded false (inter backup healthy) last
        λ x. ground (arith, contains-inter x backup healthy),
  )

  pub ready :
      (allow : Bool) (standby : List String)
      → IsNodup standby
      → replaced backup healthy degraded allow last ≤ length standby
      → ((x : String)
          → contains x standby ≡ true
          → (contains x last ≡ false)
            × ((contains x backup && is_allowed healthy degraded allow x) ≡ true))
      → IsReady backup healthy degraded allow last
          (record { standby = standby; new = []; backup = backup })
  unfolding contains
  ready allow standby n enough fit = record {
    split = record {
      nodup_new = tt;
      nodup_backup = b.nodup;
      disjoint = λ x. refl;
      together = λ x. refl;
      permitted = λ x m. cc;
    };
    nodup_rest = l.nodup;
    nodup_standby = n;
    enough = enough;
    apart = λ x. ground (arith, fit x);
    rest_there = λ x m u. ground arith;
    standby_there = λ x m. (fit x m).1;
  }
