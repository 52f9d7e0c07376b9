-- ===== src/Blacklist/Best.antt =====
-- The order of `sort_by_availability`: what is taken from the blacklist is no worse than what is left.
use cluster_manager_das.Prelude.{
  Bool, true, false, ◌||◌, List, [], ◌∷◌, ◌≡◌, refl, arith, leb, Bool-cases, inl, inr,
}
use cluster_manager_das.Blacklist.Floats.{Floats, IsOrdered}
use cluster_manager_das.Blacklist.Scoring.{
  ScoredNode, insert_scored, sort_by_availability, no_worse, then_by, fatal_then,
}

module _ {F : Type 0} ⦃f : Floats F⦄ where
  -- Every node of a list is no better than the given one.
  abbrev pub IsBelow : ScoredNode F → List (ScoredNode F) → Type 0
  IsBelow a [] = Unit
  IsBelow a (b ∷ bs) = (no_worse a b ≡ true) × IsBelow a bs

  -- Each node is no worse than those after it.
  abbrev pub IsRanked : List (ScoredNode F) → Type 0
  IsRanked [] = Unit
  IsRanked (a ∷ rest) = IsBelow a rest × IsRanked rest

module _ {F : Type 0} ⦃f : Floats F⦄ (o : IsOrdered f) where
  then_by_total : (x y : F) (p q : Bool) → (p || q) ≡ true → (then_by x y p || then_by y x q) ≡ true
  then_by_total x y p q h = ground (arith, h, o.at_most_total x y)

  then_by_trans :
      (x y z : F) (p q r : Bool)
      → (p ≡ true → q ≡ true → r ≡ true)
      → then_by x y p ≡ true
      → then_by y z q ≡ true
      → then_by x z r ≡ true
  then_by_trans x y z p q r h a b =
      ground (arith, h, o.at_most_trans x y z, o.at_most_trans y z x, o.at_most_trans z x y)

  fatal_total : (p q r s : Bool) → (r || s) ≡ true → (fatal_then p q r || fatal_then q p s) ≡ true
  fatal_total true true r s h = h
  fatal_total true false r s h = refl
  fatal_total false true r s h = refl
  fatal_total false false r s h = h

  fatal_trans :
      (p q r s t u : Bool)
      → (s ≡ true → t ≡ true → u ≡ true)
      → fatal_then p q s ≡ true
      → fatal_then q r t ≡ true
      → fatal_then p r u ≡ true
  fatal_trans true true true s t u h a b = h a b
  fatal_trans true true false s t u h a b = cc
  fatal_trans true false r s t u h a b = cc
  fatal_trans false true true s t u h a b = refl
  fatal_trans false true false s t u h a b = cc
  fatal_trans false false true s t u h a b = refl
  fatal_trans false false false s t u h a b = h a b

  no_worse_total : (a b : ScoredNode F) → (no_worse a b || no_worse b a) ≡ true
  unfolding no_worse
  no_worse_total a b =
      let fewer = leb a.total_fault_count b.total_fault_count in
      let more = leb b.total_fault_count a.total_fault_count in
      let lighter = then_by a.last_fault_weight b.last_fault_weight fewer in
      let heavier = then_by b.last_fault_weight a.last_fault_weight more in
      fatal_total a.is_fatal b.is_fatal (then_by a.fault_score b.fault_score lighter)
        (then_by b.fault_score a.fault_score heavier)
        (then_by_total a.fault_score b.fault_score lighter heavier
          (then_by_total a.last_fault_weight b.last_fault_weight fewer more (ground arith)))

  no_worse_trans :
      (a b c : ScoredNode F) → no_worse a b ≡ true → no_worse b c ≡ true → no_worse a c ≡ true
  unfolding no_worse
  no_worse_trans a b c =
      fatal_trans a.is_fatal b.is_fatal c.is_fatal _ _ _
        (then_by_trans _ _ _ _ _ _ (then_by_trans _ _ _ _ _ _ λ x y. ground arith))

  IsBelow-trans :
      (a b : ScoredNode F) (cs : List (ScoredNode F))
      → no_worse a b ≡ true
      → IsBelow b cs
      → IsBelow a cs
  IsBelow-trans a b [] h k = tt
  IsBelow-trans a b (c ∷ cs) h k = (no_worse_trans a b c h k.0, IsBelow-trans a b cs h k.1)

  IsBelow-insert_scored :
      (a b : ScoredNode F) (cs : List (ScoredNode F))
      → no_worse a b ≡ true
      → IsBelow a cs
      → IsBelow a (insert_scored b cs)
  unfolding insert_scored
  IsBelow-insert_scored a b [] h k = (h, tt)
  IsBelow-insert_scored a b (c ∷ cs) h k = elim (Bool-cases (no_worse b c)) [
    | inl e ↦ rw e (h, k)
    | inr e ↦ rw e (k.0, IsBelow-insert_scored a b cs h k.1)
  ]

  IsRanked-insert_scored :
      (a : ScoredNode F) (bs : List (ScoredNode F)) → IsRanked bs → IsRanked (insert_scored a bs)
  unfolding insert_scored
  IsRanked-insert_scored a [] h = (tt, tt)
  IsRanked-insert_scored a (b ∷ bs) h = elim (Bool-cases (no_worse a b)) [
    | inl e ↦ rw e ((e, IsBelow-trans a b bs e h.0), h)
    | inr e ↦ rw e (
      IsBelow-insert_scored b a bs (ground (arith, no_worse_total a b)) h.0,
      IsRanked-insert_scored a bs h.1,
    )
  ]

  pub IsRanked-sort_by_availability :
      (scored : List (ScoredNode F)) → IsRanked (sort_by_availability scored)
  unfolding sort_by_availability
  IsRanked-sort_by_availability [] = tt
  IsRanked-sort_by_availability (a ∷ rest) =
      IsRanked-insert_scored a (sort_by_availability rest) (IsRanked-sort_by_availability rest)
