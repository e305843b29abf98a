-- ===== src/Buffer/Interpolated.antt =====
-- The callback of `plot_points_generator` (src/buffer.rs), against a walk over the samples from the
-- first one on.
use ocdscope.Prelude.{
  ℕ, suc, ◌+◌, ◌≡◌, refl, ◌∙◌, inl, inr, Bool, true, false, some, List, [], ◌∷◌, ltb, if◌then◌else◌,
  length, ok, debug_assert, arith,
}
use ocdscope.Float.{Floats, IsIeee}
use ocdscope.Buffer.{PlotPoint}
use ocdscope.Buffer.Search.{rank, IsSorted, AreNumbers, tested, index_before_at_lem}
use ocdscope.Buffer.Generator.{
  Extrema, weighted, interpolate, first_value, last_value, value_from, generator,
}

module _ (fl : Floats) where
  open fl use {F64, lt}

  -- The value at `t` on the line through two points: their values, each weighted by how near `t` is.
  abbrev pub on_line : PlotPoint fl → PlotPoint fl → F64 → F64
  on_line a b t =
      let part = fl.div (fl.sub t a.x) (fl.sub b.x a.x) in
      fl.add (fl.mul a.y (fl.sub (fl.nat_f64 1) part)) (fl.mul b.y part)

  -- The value at a time that is not before `p`: on the line between the neighbours of the time, and
  -- that of the last sample from there on.
  unfoldable pub line_at : PlotPoint fl → List (PlotPoint fl) → F64 → F64
  line_at p [] t = p.y
  line_at p (q ∷ qs) t = if lt t q.x then on_line p q t else line_at q qs t

  -- The value at a time; before the first sample it is that of the first sample.
  unfoldable pub value_at : PlotPoint fl → List (PlotPoint fl) → F64 → F64
  unfolding line_at
  value_at p ps t = if lt t p.x then p.y else line_at p ps t

module _ (fl : Floats) (extrema : Extrema fl) (ieee : IsIeee fl) where
  open fl use {F64, lt, le}
  open ieee use {IsNumber, lt→le}

  value_from-shift :
      (debug : Bool) (p q : PlotPoint fl) (qs : List (PlotPoint fl)) (t : F64) (n : ℕ)
      → value_from fl extrema debug (p ∷ q ∷ qs) t (some (suc n))
        ≡ value_from fl extrema debug (q ∷ qs) t (some n)
  unfolding value_from last_value
  value_from-shift debug p q qs t n =
      let next : suc n + 1 ≡ suc (n + 1) = omega arith in
      let wide : ltb (suc n + 1) (length (p ∷ q ∷ qs)) ≡ ltb (n + 1) (length (q ∷ qs)) =
        ground arith in
      let inside : ltb (suc n) (length (p ∷ q ∷ qs)) ≡ ltb n (length (q ∷ qs)) = ground arith in
      rw (wide, inside, next) refl

  interpolate_inside :
      (debug : Bool) (t : F64) (a b : PlotPoint fl)
      → le a.x t ≡ true
      → lt t b.x ≡ true
      → interpolate fl debug t a b ≡ ok (on_line fl a b t)
  unfolding interpolate weighted debug_assert
  interpolate_inside false t a b low high = refl
  interpolate_inside true t a b low high = rw (low, lt→le t b.x high) refl

  value_from-line_at :
      (debug : Bool) (p : PlotPoint fl) (ps : List (PlotPoint fl)) (t : F64)
      → AreNumbers fl ieee ps
      → IsNumber t
      → le p.x t ≡ true
      → value_from fl extrema debug (p ∷ ps) t (some (rank fl ps t)) ≡ ok (line_at fl p ps t)
  unfolding value_from rank line_at
  value_from-line_at debug p [] t numbers number low = refl
  value_from-line_at debug p (q ∷ qs) t (numberq, numbers) number low =
      elim (tested fl ieee t q.x number numberq) [
        | inl (later, gt) ↦
            let wide : ltb (0 + 1) (length (p ∷ q ∷ qs)) ≡ true = ground arith in
            rw (rank, gt, wide, line_at, later) (interpolate_inside debug t p q low later)
        | inr (later, ge) ↦
            rw (rank, later, ge)
              (value_from-shift debug p q qs t (rank fl qs t)
                ∙ value_from-line_at debug q qs t numbers number ge)
      ]

  -- The callback on samples in time order: no panic, also of its assertion.
  pub generator-value_at :
      (debug : Bool) (p : PlotPoint fl) (ps : List (PlotPoint fl)) (t : F64)
      → IsSorted fl (p ∷ ps)
      → AreNumbers fl ieee (p ∷ ps)
      → IsNumber t
      → generator fl extrema debug (p ∷ ps) t ≡ ok (value_at fl p ps t)
  unfolding generator value_at value_from first_value rank
  generator-value_at debug p ps t sorted (numberp, numbers) number =
      let found = index_before_at_lem fl ieee p ps t sorted (numberp, numbers) number in
      elim (tested fl ieee t p.x number numberp) [
        | inl (later, gt) ↦ rw (found, rank, gt, later) refl
        | inr (later, ge) ↦
            rw (found, rank, ge, later) (value_from-line_at debug p ps t numbers number ge)
      ]
