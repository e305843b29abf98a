-- ===== src/Buffer.antt =====
-- The sample buffer of one signal, src/buffer.rs.
use ocdscope.Prelude.{
  ℕ, zero, suc, ◌+◌, ◌*◌, ◌/◌, Bool, true, false, ◌&&◌, Option, none, some, List, [], ◌∷◌, ◌++◌,
  map, ltb, leb, if◌then◌else◌, length, get_elem?, Outcome, ok, err, panic, ◌>>=◌, expect, slice,
  slice_from,
}
use ocdscope.Float.{Floats}
pub mod Generator
pub mod Interpolated
pub mod Plotted
pub mod Search
mod Tests
pub mod Views

-- A loop that is still running when its fuel is used up.
pub data Running : Type 0 where
  running : Running

abbrev pub Run {ℓ} : Type ℓ → Type ℓ
Run A = Outcome Running A

pub record PlotPoint (fl : Floats) : Type 0 where
  pub x : fl.F64
  pub y : fl.F64

pub record SampleBuffer (fl : Floats) : Type 0 where
  pub samples : List (PlotPoint fl)

module _ (fl : Floats) where
  open fl use {F64, lt, le, sub, mul}

  unfoldable pub new : SampleBuffer fl
  new = record { samples = [] }

  unfoldable pub push : SampleBuffer fl → F64 → F64 → SampleBuffer fl
  push b t value = record { samples = b.samples ++ record { x = t; y = value } ∷ [] }

  -- The bytes in use and the bytes allocated, by the capacity of the vector; a point has two `f64`.
  unfoldable pub memory_footprint : SampleBuffer fl → ℕ → ℕ × ℕ
  memory_footprint b capacity = (length b.samples * 16, capacity * 16)

  -- `while a + 1 < b`. Where neither test passes (a NaN), `a` and `b` stay as they are.
  unfoldable pub search : ℕ → List (PlotPoint fl) → F64 → ℕ → ℕ → Run ℕ
  search zero samples t a b = err running
  search (suc fuel) samples t a b = elim (ltb (a + 1) b) [
    | false ↦ ok a
    | true ↦ elim (get_elem? samples ((a + b) / 2)) [
      | none ↦ panic
      | some p ↦ elim (lt t p.x) [
        | true ↦ search fuel samples t a ((a + b) / 2)
        | false ↦ elim (le p.x t) [
          | true ↦ search fuel samples t ((a + b) / 2) b
          | false ↦ search fuel samples t a b
        ]
      ]
    ]
  ]

  -- The index of the last sample that is not after `t`, with as much fuel as there are samples.
  unfoldable pub index_before_at : List (PlotPoint fl) → F64 → Run (Option ℕ)
  index_before_at samples t = do
    a ← search (suc (length samples)) samples t 0 (length samples)
    p ← expect (get_elem? samples a)
    ok (if lt t p.x then none else if ltb a (length samples) then some a else none)

  -- The `match` on the two indices.
  unfoldable pub window : List (PlotPoint fl) → Option ℕ → Option ℕ → Run (List (PlotPoint fl))
  window samples (some a) (some b) =
      if leb (length samples) b then slice_from a samples else slice a b samples
  window samples none (some b) = if ltb b (length samples) then slice 0 b samples else ok samples
  window samples from_i none = ok samples

  unfoldable pub scaled : F64 → PlotPoint fl → PlotPoint fl
  scaled scale p = record p { y = mul p.y scale }

  unfoldable pub plot_points : SampleBuffer fl → F64 → F64 → F64 → Run (List (PlotPoint fl))
  plot_points b from_t to_t scale = do
    from_i ← index_before_at b.samples from_t
    to_i ← index_before_at b.samples to_t
    points ← window b.samples from_i to_i
    ok (map (scaled scale) points)

  abbrev pub last_of : PlotPoint fl → List (PlotPoint fl) → PlotPoint fl
  last_of p [] = p
  last_of p (q ∷ qs) = last_of q qs

  unfoldable pub time_bounds_of : List (PlotPoint fl) → Option (F64 × F64)
  time_bounds_of [] = none
  time_bounds_of (p ∷ ps) = some (p.x, (last_of p ps).x)

  unfoldable pub time_bounds : SampleBuffer fl → Option (F64 × F64)
  unfolding time_bounds_of
  time_bounds b = time_bounds_of b.samples

  unfoldable pub truncate_samples : List (PlotPoint fl) → F64 → Run (List (PlotPoint fl))
  truncate_samples [] keep_seconds = ok []
  truncate_samples (p ∷ ps) keep_seconds =
      let truncate_timestamp = sub (last_of p ps).x keep_seconds in
      if lt p.x truncate_timestamp
      then (index_before_at (p ∷ ps) truncate_timestamp >>= λ found.
          expect found >>= λ a. slice_from (a + 1) (p ∷ ps))
      else ok (p ∷ ps)

  unfoldable pub truncate : SampleBuffer fl → F64 → Run (SampleBuffer fl)
  truncate b keep_seconds = do
    samples ← truncate_samples b.samples keep_seconds
    ok (record { samples = samples })
