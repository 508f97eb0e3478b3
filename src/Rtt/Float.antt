-- ===== src/Rtt/Float.antt =====
-- The floating-point arithmetic that lib/rtt.c computes with, as a parameter.
use unpv13e.Base.{ℕ, ◌≡◌, Bool, false, ℤ}

-- `D` holds the values of `double`; a `float` is a value that `narrow` leaves alone. `lit a b` is
-- the constant a / b, and `trunc` the conversion to `int`.
pub record Floats : Type 1 where
  pub D : Type 0
  pub lit : ℕ → ℕ → D
  pub add : D → D → D
  pub sub : D → D → D
  pub mul : D → D → D
  pub div : D → D → D
  pub neg : D → D
  pub lt : D → D → Bool
  pub narrow : D → D
  pub trunc : D → ℤ

-- The integers of the timer's limits are floats, and are ordered.
pub record HasLimits (f : Floats) (lo hi : ℕ) : Type 0 where
  pub narrow_lo : f.narrow (f.lit lo 1) ≡ f.lit lo 1
  pub narrow_hi : f.narrow (f.lit hi 1) ≡ f.lit hi 1
  pub lo_self : f.lt (f.lit lo 1) (f.lit lo 1) ≡ false
  pub hi_self : f.lt (f.lit hi 1) (f.lit hi 1) ≡ false
  pub hi_lo : f.lt (f.lit hi 1) (f.lit lo 1) ≡ false
