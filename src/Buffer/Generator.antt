-- ===== src/Buffer/Generator.antt =====
-- `plot_points_generator` of src/buffer.rs: a plot that asks for the value at a time by a callback.
use ocdscope.Prelude.{
  ℕ, ◌+◌, Bool, ◌&&◌, Option, none, some, List, [], ◌∷◌, ltb, if◌then◌else◌, length, get_elem?, ok,
  ◌>>=◌, expect, debug_assert,
}
use ocdscope.Float.{Floats}
use ocdscope.Buffer.{
  PlotPoint, SampleBuffer, Run, index_before_at, plot_points, last_of, time_bounds,
}

-- `f64::max`, `f64::min` and `f64::NAN`.
pub record Extrema (fl : Floats) : Type 0 where
  pub max : fl.F64 → fl.F64 → fl.F64
  pub min : fl.F64 → fl.F64 → fl.F64
  pub nan : fl.F64

-- The two forms of `PlotPoints` that the buffer makes: points, and a callback for the values in a
-- range of times, with the number of points to ask for.
pub data PlotPoints (fl : Floats) : Type 0 where
  owned : List (PlotPoint fl) → PlotPoints fl
  from_explicit_callback : (fl.F64 → Run fl.F64) → fl.F64 × fl.F64 → ℕ → PlotPoints fl

module _ (fl : Floats) where
  open fl use {F64, le, add, sub, mul, div, nat_f64}

  unfoldable pub weighted : PlotPoint fl → PlotPoint fl → F64 → F64
  weighted a b t =
      let alpha = div (sub t a.x) (sub b.x a.x) in
      add (mul a.y (sub (nat_f64 1) alpha)) (mul b.y alpha)

  unfoldable pub interpolate : Bool → F64 → PlotPoint fl → PlotPoint fl → Run F64
  unfolding weighted
  interpolate debug t a b = do _ ← debug_assert debug (le a.x t && le t b.x); ok (weighted a b t)

module _ (fl : Floats) (extrema : Extrema fl) where
  open fl use {F64}
  open extrema use {max, min, nan}

  unfoldable pub first_value : List (PlotPoint fl) → F64
  first_value [] = nan
  first_value (p ∷ ps) = p.y

  unfoldable pub last_value : List (PlotPoint fl) → F64
  last_value [] = nan
  last_value (p ∷ ps) = (last_of fl p ps).y

  -- The `match` on the index that was found. `debug` is whether `debug_assert!` is compiled.
  unfoldable pub value_from : Bool → List (PlotPoint fl) → F64 → Option ℕ → Run F64
  unfolding first_value last_value interpolate
  value_from debug samples t none = ok (first_value samples)
  value_from debug samples t (some i) =
      if ltb (i + 1) (length samples)
      then (expect (get_elem? samples i) >>= λ a.
          expect (get_elem? samples (i + 1)) >>= λ b. interpolate fl debug t a b)
      else if ltb i (length samples)
      then (expect (get_elem? samples i) >>= λ p. ok p.y)
      else ok (last_value samples)

  unfoldable pub generator : Bool → List (PlotPoint fl) → F64 → Run F64
  unfolding value_from
  generator debug samples t = do
    found ← index_before_at fl samples t
    value_from debug samples t found

  -- The range is cut to the times of the buffer.
  unfoldable pub clipped : Option (F64 × F64) → F64 → F64 → F64 × F64
  clipped none from_t to_t = (from_t, to_t)
  clipped (some (min_t, max_t)) from_t to_t = (max from_t min_t, min to_t max_t)

  unfoldable pub generated :
      Bool → SampleBuffer fl → F64 → F64 → ℕ → List (PlotPoint fl) → PlotPoints fl
  unfolding generator clipped
  generated debug b from_t to_t points [] = owned []
  generated debug b from_t to_t points (p ∷ ps) =
      from_explicit_callback (generator debug (p ∷ ps)) (clipped (time_bounds fl b) from_t to_t)
        points

  unfoldable pub plot_points_generator :
      Bool → SampleBuffer fl → F64 → F64 → ℕ → F64 → Run (PlotPoints fl)
  unfolding generated
  plot_points_generator debug b from_t to_t points scale = do
    subview ← plot_points fl b from_t to_t scale
    ok (generated debug b from_t to_t points subview)
