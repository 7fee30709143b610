-- ===== src/Floats.antt =====
-- float64. The arithmetic of the machine and Go's package math are a parameter (fmod is math.Mod): dec m k is the
-- literal m / 10^k, of_int is float64(n), to_int is int64(x), nanos is float64(n) / 1e9 for a time of n nanoseconds.
use drones.Common.{ℕ, Bool}
use drones.Message.{ℤ}

pub record Floats (F : Type 0) : Type 0 where
  pub lt : F → F → Bool
  pub le : F → F → Bool
  pub eq : F → F → Bool
  pub add : F → F → F
  pub sub : F → F → F
  pub mul : F → F → F
  pub div : F → F → F
  pub neg : F → F
  pub abs : F → F
  pub sqrt : F → F
  pub sin : F → F
  pub cos : F → F
  pub atan2 : F → F → F
  pub fmod : F → F → F
  pub pi : F
  pub dec : ℕ → ℕ → F
  pub of_int : ℤ → F
  pub nanos : ℕ → F
  pub to_int : F → ℤ

-- A whole number as a float64.
abbrev pub lit : {F : Type 0} → Floats F → ℕ → F
lit fl n = fl.dec n 0
