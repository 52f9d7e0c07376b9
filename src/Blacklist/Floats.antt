-- ===== src/Blacklist/Floats.antt =====
-- The floating-point numbers of the scores, which are Python's: an interface with the operations that
-- the scores use, and what is documented of their order. A score is never NaN.
use cluster_manager_das.Prelude.{ℕ, ◌-◌, Bool, true, ◌≡◌, ◌||◌, leb, if◌then◌else◌}

pub record Floats (F : Type 0) : Type 0 where
  pub of_nat : ℕ → F
  pub add : F → F → F
  pub sub : F → F → F
  pub mul : F → F → F
  pub div : F → F → F
  pub exp : F → F
  -- `round(x, 2)`
  pub round_two : F → F
  -- `x <= y`
  pub at_most : F → F → Bool

-- "x <= y" on numbers other than NaN.
pub record IsOrdered {F : Type 0} (f : Floats F) : Type 0 where
  pub at_most_total : (x y : F) → (f.at_most x y || f.at_most y x) ≡ true
  pub at_most_trans :
      (x y z : F) → f.at_most x y ≡ true → f.at_most y z ≡ true → f.at_most x z ≡ true

module _ {F : Type 0} ⦃f : Floats F⦄ where
  -- `max(x, 0.0)`
  unfoldable pub at_least_zero : F → F
  at_least_zero x = if f.at_most x (f.of_nat 0) then f.of_nat 0 else x

  -- `(later - earlier).total_seconds()` for times in seconds
  unfoldable pub seconds_between : ℕ → ℕ → F
  seconds_between later earlier =
      if leb earlier later
      then f.of_nat (later - earlier)
      else f.sub (f.of_nat 0) (f.of_nat (earlier - later))

  -- the same in hours
  unfoldable pub hours_between : ℕ → ℕ → F
  unfolding seconds_between
  hours_between later earlier = f.div (seconds_between later earlier) (f.of_nat 3600)
