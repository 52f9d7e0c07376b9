-- ===== src/NodePool/Allocation/Moves.antt =====
-- One node goes from the backup list to the new running nodes.
use cluster_manager_das.Prelude.{
  String, Bool, true, false, List, [], ◌∷◌, ◌++◌, ◌≡◌, refl, ◌&&◌, ◌||◌, arith, ◌==◌, eq_iff,
  Bool-cases, inl, inr,
}
use cluster_manager_das.Prelude.Names.{contains, remove, IsNodup}
use cluster_manager_das.Prelude.Names.Laws.{
  contains-append, contains-remove, IsNodup-append, IsNodup-remove, contains_congr,
}

-- The backup list `all` before the loop is split between the new running nodes, all of them
-- `allowed`, and the present backup list.
pub record IsSplit (all : List String) (allowed : String → Bool) (new backup : List String)
    : Type 0 where
  pub nodup_new : IsNodup new
  pub nodup_backup : IsNodup backup
  pub disjoint : (x : String) → (contains x new && contains x backup) ≡ false
  pub together : (x : String) → contains x all ≡ (contains x new || contains x backup)
  pub permitted : (x : String) → contains x new ≡ true → allowed x ≡ true

module _ (all : List String) (allowed : String → Bool) (new backup : List String)
    (h : IsSplit all allowed new backup) (y : String) (m : contains y backup ≡ true) where
  pub contains-moved : (x : String) → contains x (new ++ y ∷ []) ≡ (contains x new || y == x)
  unfolding contains
  contains-moved x = ground (arith, contains-append x new (y ∷ []))

  -- The split survives the move of a node that is allowed.
  pub IsSplit-move : allowed y ≡ true → IsSplit all allowed (new ++ y ∷ []) (remove y backup)
  IsSplit-move a = record {
    nodup_new = IsNodup-append new (y ∷ []) h.nodup_new (unfold contains in (refl, tt)) λ x.
        unfold contains in ground (arith, h.disjoint x, m, eq_iff y x, contains_congr y x backup);
    nodup_backup = IsNodup-remove y backup h.nodup_backup;
    disjoint = λ x.
        ground (arith, contains-moved x, h.disjoint x, contains-remove x y backup h.nodup_backup);
    together = λ x. ground (
      arith,
      contains-moved x,
      h.together x,
      contains-remove x y backup h.nodup_backup,
      m,
      contains_congr y x backup,
    );
    permitted = λ x c. permitted_after x c;
  }
    where
      permitted_after : (x : String) → contains x (new ++ y ∷ []) ≡ true → allowed x ≡ true
      permitted_after x c = elim (Bool-cases (y == x)) [
        | inl e ↦ rw (← (eq_iff y x).0 e) a
        | inr e ↦ h.permitted x (ground (arith, contains-moved x))
      ]
