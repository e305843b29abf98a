-- ===== src/Buffer/Plotted.antt =====
-- `plot_points_generator` of src/buffer.rs on a buffer in time order.
use ocdscope.Prelude.{
  ℕ, zero, suc, ◌-◌, ◌≡◌, refl, sym, ap, Bool, true, some, List, [], ◌∷◌, map, get_elem?, take,
  drop, ok, All,
}
use ocdscope.Float.{Floats, IsIeee}
use ocdscope.Buffer.{PlotPoint, Run, scaled, last_of, time_bounds}
use ocdscope.Buffer.Search.{rank, IsSorted, AreNumbers}
use ocdscope.Buffer.Views.{visible, IsSorted-tail, plot_points-visible}
use ocdscope.Buffer.Interpolated.{value_at, generator-value_at}
use ocdscope.Buffer.Generator.{
  Extrema, PlotPoints, owned, from_explicit_callback, generator, clipped, generated,
  plot_points_generator,
}

module _ {ℓ} {A : Type ℓ} where
  get_elem?-take :
      (n i : ℕ) (xs : List A) {x : A} → get_elem? (take n xs) i ≡ some x → get_elem? xs i ≡ some x
  get_elem?-take zero i xs e = absurd (cc)
  get_elem?-take (suc n) i [] e = e
  get_elem?-take (suc n) zero (y ∷ ys) e = e
  get_elem?-take (suc n) (suc i) (y ∷ ys) e = get_elem?-take n i ys e

module _ (fl : Floats) where
  open fl use {F64}

  IsSorted-take : (n : ℕ) (ps : List (PlotPoint fl)) → IsSorted fl ps → IsSorted fl (take n ps)
  IsSorted-take n ps h i j p q le_ij e f =
      h i j p q le_ij (get_elem?-take n i ps e) (get_elem?-take n j ps f)

  IsSorted-drop : (n : ℕ) (ps : List (PlotPoint fl)) → IsSorted fl ps → IsSorted fl (drop n ps)
  IsSorted-drop zero ps h = h
  IsSorted-drop (suc n) [] h = h
  IsSorted-drop (suc n) (p ∷ ps) h = IsSorted-drop n ps (IsSorted-tail fl p ps h)

  IsSorted-visible :
      (ps : List (PlotPoint fl)) (f t : ℕ) → IsSorted fl ps → IsSorted fl (visible fl ps f t)
  IsSorted-visible ps f zero h = h
  IsSorted-visible ps zero (suc b) h = IsSorted-take b ps h
  IsSorted-visible ps (suc a) (suc b) h = IsSorted-take (b - a) (drop a ps) (IsSorted-drop a ps h)

  scaled_from :
      (scale : F64) (ps : List (PlotPoint fl)) (i : ℕ) {q : PlotPoint fl}
      → get_elem? (map (scaled fl scale) ps) i ≡ some q
      → (p : PlotPoint fl) × (get_elem? ps i ≡ some p) × (p.x ≡ q.x)
  unfolding scaled
  scaled_from scale [] i e = absurd (cc)
  scaled_from scale (p ∷ ps) zero {q} e =
      let same : scaled fl scale p ≡ q = cc in (p, refl, ap (λ (r : PlotPoint fl). r.x) same)
  scaled_from scale (p ∷ ps) (suc i) e = scaled_from scale ps i e

  IsSorted-scaled :
      (scale : F64) (ps : List (PlotPoint fl))
      → IsSorted fl ps
      → IsSorted fl (map (scaled fl scale) ps)
  IsSorted-scaled scale ps h i j p q le_ij e f =
      let (p', ep, xp) = scaled_from scale ps i e in
      let (q', eq, xq) = scaled_from scale ps j f in rw (sym xp, sym xq) (h i j p' q' le_ij ep eq)

module _ {ℓ κ} {A : Type ℓ} (P : A → Type κ) where
  All-take : (n : ℕ) (xs : List A) → All P xs → All P (take n xs)
  All-take zero xs h = tt
  All-take (suc n) [] h = h
  All-take (suc n) (x ∷ xs) (px, h) = (px, All-take n xs h)

  All-drop : (n : ℕ) (xs : List A) → All P xs → All P (drop n xs)
  All-drop zero xs h = h
  All-drop (suc n) [] h = h
  All-drop (suc n) (x ∷ xs) (px, h) = All-drop n xs h

module _ (fl : Floats) (ieee : IsIeee fl) where
  open fl use {F64, le}
  open ieee use {IsNumber}

  abbrev Timed : PlotPoint fl → Type 0
  Timed p = IsNumber p.x

  AreNumbers-visible :
      (ps : List (PlotPoint fl)) (f t : ℕ)
      → AreNumbers fl ieee ps
      → AreNumbers fl ieee (visible fl ps f t)
  AreNumbers-visible ps f zero h = h
  AreNumbers-visible ps zero (suc b) h = All-take Timed b ps h
  AreNumbers-visible ps (suc a) (suc b) h =
      All-take Timed (b - a) (drop a ps) (All-drop Timed a ps h)

  AreNumbers-scaled :
      (scale : F64) (ps : List (PlotPoint fl))
      → AreNumbers fl ieee ps
      → AreNumbers fl ieee (map (scaled fl scale) ps)
  unfolding scaled
  AreNumbers-scaled scale [] h = tt
  AreNumbers-scaled scale (p ∷ ps) (number, h) = (number, AreNumbers-scaled scale ps h)

  -- The points that a window shows.
  abbrev pub shown : List (PlotPoint fl) → F64 → F64 → F64 → List (PlotPoint fl)
  shown samples from_t to_t scale =
      map (scaled fl scale) (visible fl samples (rank fl samples from_t) (rank fl samples to_t))

  module _ (extrema : Extrema fl) where
    -- A plot of the points is empty where they are none; else its callback is asked for times in the
    -- range, and gives at `t` the value on the lines through the points.
    pub data IsPlotted (points : List (PlotPoint fl)) (range : F64 × F64) (count : ℕ) (t : F64)
        : PlotPoints fl → Type 0 where
      nothing_shown : points ≡ [] → IsPlotted points range count t (owned [])
      on_lines :
          (p : PlotPoint fl) (ps : List (PlotPoint fl)) (callback : F64 → Run F64)
          → points ≡ p ∷ ps
          → callback t ≡ ok (value_at fl p ps t)
          → IsPlotted points range count t (from_explicit_callback callback range count)

    generated-IsPlotted :
        (debug : Bool) (p : PlotPoint fl) (ps samples : List (PlotPoint fl)) (from_t to_t : F64)
        (count : ℕ) (t : F64)
        → IsSorted fl samples
        → AreNumbers fl ieee samples
        → IsNumber t
        → IsPlotted samples
            (extrema.max from_t p.x, extrema.min to_t (last_of fl p ps).x)
            count
            t
            (generated fl extrema debug (record { samples = p ∷ ps }) from_t to_t count samples)
    unfolding generated clipped time_bounds
    generated-IsPlotted debug p ps [] from_t to_t count t sorted numbers number = nothing_shown refl
    generated-IsPlotted debug p ps (q ∷ qs) from_t to_t count t sorted numbers number =
        on_lines q qs (generator fl extrema debug (q ∷ qs)) refl
          (generator-value_at fl extrema ieee debug q qs t sorted numbers number)

    -- On a non-empty buffer of numbers in time order, for a window whose ends are numbers in order,
    -- there is no panic. The plot is empty where the window shows no point; else it asks for `count`
    -- times in the window cut to the times of the buffer. At any time that is a number the callback
    -- then does not panic, also where its `debug_assert!` is compiled, and gives the value on the
    -- line between the neighbours of the time among the points shown, that of the first point before
    -- it, and that of the last point from there on.
    pub plot_points_generator-IsPlotted :
        (debug : Bool) (p : PlotPoint fl) (ps : List (PlotPoint fl)) (from_t to_t scale : F64)
        (count : ℕ) (t : F64)
        → IsSorted fl (p ∷ ps)
        → AreNumbers fl ieee (p ∷ ps)
        → IsNumber from_t
        → IsNumber to_t
        → le from_t to_t ≡ true
        → IsNumber t
        → (plot : PlotPoints fl) × (plot_points_generator fl extrema debug
              (record { samples = p ∷ ps })
              from_t
              to_t
              count
              scale
            ≡ ok plot)
          × IsPlotted
              (shown (p ∷ ps) from_t to_t scale)
              (extrema.max from_t p.x, extrema.min to_t (last_of fl p ps).x)
              count
              t
              plot
    unfolding plot_points_generator
    plot_points_generator-IsPlotted debug p ps from_t to_t scale count t sorted numbers low high
          ordered number =
        let points = shown (p ∷ ps) from_t to_t scale in
        let low_rank = rank fl (p ∷ ps) from_t in
        let high_rank = rank fl (p ∷ ps) to_t in
        let plain = visible fl (p ∷ ps) low_rank high_rank in
        (
          generated fl extrema debug (record { samples = p ∷ ps }) from_t to_t count points,
          rw (plot_points-visible fl ieee p ps from_t to_t scale sorted numbers low high ordered)
              refl,
          generated-IsPlotted debug p ps points from_t to_t count t
              (IsSorted-scaled fl scale plain
                (IsSorted-visible fl (p ∷ ps) low_rank high_rank sorted))
              (AreNumbers-scaled scale plain
                (AreNumbers-visible (p ∷ ps) low_rank high_rank numbers))
              number,
        )
