-- ===== src/Platform/Runtime.antt =====
-- The effects of the standard library that the services use, on a world `W`.
use movra.Prelude.{ℕ, ◌<◌, String, Option}
use movra.Prelude.Int.{ℤ}
use movra.Platform.Time.{Time}

pub record Runtime (W : Type 0) : Type 0 where
  -- `time.Now()`
  pub now : W → Time × W
  -- `rand.Int(rand.Reader, big.NewInt(max))`
  pub rand_int : ℕ → W → ℕ × W
  -- `select` on `time.After(d)` and `ctx.Done()`: `ctx.Err()` if the context ended first
  pub interrupted : ℤ → W → Option String × W

-- A random number stays below its bound.
pub record RandomLaws {W : Type 0} (rt : Runtime W) : Type 0 where
  pub rand_int_lt : (max : ℕ) (w : W) → 0 < max → (rt.rand_int max w).0 < max
