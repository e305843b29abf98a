-- ===== src/Buffer/Tests.antt =====
-- The theorems on the sample buffer at concrete inputs.
use ocdscope.Prelude.{
  ℕ, zero, suc, true, ltb, if◌then◌else◌, ◌+◌, ◌*◌, ◌≡◌, refl, sym, ap, le→leb, none, some, List,
  [], ◌∷◌, map, get_elem?, ok, err, arith,
}
use ocdscope.Float.Sample.{apply, numbers, numbers-IsIeee}
use ocdscope.Buffer.{PlotPoint, running, search, index_before_at, scaled, plot_points}
use ocdscope.Buffer.Generator.{Extrema, PlotPoints, plot_points_generator}
use ocdscope.Buffer.Plotted.{shown, IsPlotted, plot_points_generator-IsPlotted}
use ocdscope.Buffer.Search.{before, rank, IsSorted, IsIncomparable, index_before_at_lem, search_nan}
use ocdscope.Buffer.Views.{visible, plot_points-visible, Truncated, truncate-Truncated}

abbrev Point : Type 0
Point = PlotPoint numbers

abbrev at : ℕ → Point
at n = record { x = some n; y = some 1 }

abbrev points : List Point
points = at 1 ∷ at 3 ∷ at 5 ∷ []

-- The point at index `i` has the time `2 * i + 1`.
point_time : (i : ℕ) (p : Point) → get_elem? points i ≡ some p → p.x ≡ some (2 * i + 1)
point_time zero p e = let same : at 1 ≡ p = cc in ap (λ (q : Point). q.x) (sym same)
point_time (suc zero) p e = let same : at 3 ≡ p = cc in ap (λ (q : Point). q.x) (sym same)
point_time (suc (suc zero)) p e = let same : at 5 ≡ p = cc in ap (λ (q : Point). q.x) (sym same)
point_time (suc (suc (suc i))) p e = absurd (cc)

in_order : IsSorted numbers points
in_order i j p q h e f =
    rw (point_time i p e, point_time j q f) (le→leb (2 * i + 1) (2 * j + 1) (omega arith))

index_before_at_lem_example :
    index_before_at numbers points (some 4) ≡ ok (before numbers (rank numbers points (some 4)))
index_before_at_lem_example =
    index_before_at_lem numbers numbers-IsIeee (at 1) (at 3 ∷ at 5 ∷ []) (some 4) in_order
      (tt, (tt, (tt, tt))) tt

plot_points-visible_example :
    plot_points numbers (record { samples = points }) (some 2) (some 4) (some 10)
    ≡ ok (
        map
          (scaled numbers (some 10))
          (visible numbers points (rank numbers points (some 2)) (rank numbers points (some 4))))
plot_points-visible_example =
    plot_points-visible numbers numbers-IsIeee (at 1) (at 3 ∷ at 5 ∷ []) (some 2) (some 4) (some 10)
      in_order (tt, (tt, (tt, tt))) tt tt refl

abbrev larger : ℕ → ℕ → ℕ
larger a b = if ltb a b then b else a

abbrev extrema : Extrema numbers
extrema = record { max = apply larger; min = apply (λ a b. if ltb a b then a else b); nan = none }

-- Between the points at 1 and 3.
plot_points_generator-IsPlotted_example :
    (plot : PlotPoints numbers) × (plot_points_generator numbers extrema true
        (record { samples = points })
        (some 1)
        (some 5)
        100
        (some 10)
      ≡ ok plot)
    × IsPlotted numbers numbers-IsIeee extrema
        (shown numbers numbers-IsIeee points (some 1) (some 5) (some 10))
        (extrema.max (some 1) (some 1), extrema.min (some 5) (some 5))
        100
        (some 2)
        plot
plot_points_generator-IsPlotted_example =
    plot_points_generator-IsPlotted numbers numbers-IsIeee extrema true (at 1) (at 3 ∷ at 5 ∷ [])
      (some 1) (some 5) (some 10) 100 (some 2) in_order (tt, (tt, (tt, tt))) tt tt refl tt

truncate-Truncated_example : Truncated numbers numbers-IsIeee (at 1) (at 3 ∷ at 5 ∷ []) (some 2)
truncate-Truncated_example =
    truncate-Truncated numbers numbers-IsIeee (at 1) (at 3 ∷ at 5 ∷ []) (some 2) in_order
      (tt, (tt, (tt, tt))) tt

nan-IsIncomparable : IsIncomparable numbers none
nan-IsIncomparable none = (refl, refl)
nan-IsIncomparable (some x) = (refl, refl)

search_nan_example : search numbers 1000 points none 0 3 ≡ err running
search_nan_example =
    search_nan numbers 1000 points none 0 3 nan-IsIncomparable (omega arith) (omega arith)
