-- ===== src/App/Cutting.antt =====
-- Truncation of all buffers of the application (src/main.rs).
use ocdscope.Prelude.{
  ℕ, ◌≡◌, refl, sym, ap, ◌∙◌, inl, inr, true, List, [], ◌∷◌, ◌++◌, ◌==◌, ok, All, Bool-cases, zero,
  suc, arith,
}
use mathlib.Core.Path.{subst}
use ocdscope.Float.{Floats, IsIeee}
use ocdscope.Buffer.{PlotPoint, SampleBuffer, last_of, truncate_samples, truncate}
use ocdscope.Buffer.Search.{IsSorted, AreNumbers}
use ocdscope.Buffer.Views.{truncate-Truncated}
use ocdscope.App.Messages.{truncate_all}
use ocdscope.App.Stored.{points_of}
use ocdscope.App.Timed.{
  IsClock, IsTimed, AreTimed, IsTimed-append_right, IsTimed-get_elem?, IsTimed-last_of,
}

module _ (fl : Floats) where
  open fl use {F64, le, sub}

  -- What is kept of the points is an end of them, and none of the points in front of it is after the
  -- time of the last point less `keep_seconds`.
  abbrev pub Shortened : F64 → List (PlotPoint fl) → List (PlotPoint fl) → Type 0
  Shortened keep_seconds [] kept = kept ≡ []
  Shortened keep_seconds (p ∷ ps) kept =
      (dropped : List (PlotPoint fl)) × (p ∷ ps ≡ dropped ++ kept)
      × All (λ (q : PlotPoint fl). le q.x (sub (last_of fl p ps).x keep_seconds) ≡ true) dropped

module _ (fl : Floats) (ieee : IsIeee fl) (keep_seconds : fl.F64)
    (clock : IsClock fl ieee keep_seconds) where
  open fl use {F64, le, sub}

  pub IsTimed-IsSorted :
      (low high : ℕ) (ps : List (PlotPoint fl)) → IsTimed fl low high ps → IsSorted fl ps
  IsTimed-IsSorted low high (p ∷ ps) (n, e, b, h) zero j x y _ f g =
      let (m, k, c) = IsTimed-get_elem? fl n high j (p ∷ ps) y (n, e, omega arith, h) g in
      let same : p ≡ x = cc in
      rw (ap (λ (r : PlotPoint fl). r.x) (sym same) ∙ e, k) (clock.time_mono n m c)
  IsTimed-IsSorted low high (p ∷ ps) (n, e, b, h) (suc i) zero x y l f g = absurd (omega arith)
  IsTimed-IsSorted low high (p ∷ ps) (n, e, b, h) (suc i) (suc j) x y l f g =
      IsTimed-IsSorted n high ps h i j x y (omega arith) f g
  IsTimed-IsSorted low high [] h i j x y l f g = absurd (cc)

  pub IsTimed-AreNumbers :
      (low high : ℕ) (ps : List (PlotPoint fl)) → IsTimed fl low high ps → AreNumbers fl ieee ps
  IsTimed-AreNumbers low high [] h = tt
  IsTimed-AreNumbers low high (p ∷ ps) (n, e, b, h) =
      (subst ieee.IsNumber (sym e) (clock.time-IsNumber n), IsTimed-AreNumbers n high ps h)

  -- What `truncate` makes of a buffer in time order.
  abbrev pub Cut : ℕ → SampleBuffer fl → Type 0
  Cut high b =
      (kept : List (PlotPoint fl)) × (truncate fl b keep_seconds ≡ ok (record { samples = kept }))
      × Shortened fl keep_seconds b.samples kept
      × IsTimed fl 0 high kept

  pub truncate-Cut : (high : ℕ) (b : SampleBuffer fl) → IsTimed fl 0 high b.samples → Cut high b
  unfolding truncate truncate_samples
  truncate-Cut high b h = go b.samples refl h
    where
      go : (ps : List (PlotPoint fl)) → b.samples ≡ ps → IsTimed fl 0 high ps → Cut high b
      go [] e h = ([], rw (truncate, e) refl, rw e refl, h)
      go (p ∷ ps) e h =
          let (m, f) = IsTimed-last_of fl 0 high p ps h in
          let cut =
            truncate-Truncated fl ieee p ps keep_seconds (IsTimed-IsSorted 0 high (p ∷ ps) h)
              (IsTimed-AreNumbers 0 high (p ∷ ps) h)
              (subst (λ x. ieee.IsNumber (sub x keep_seconds)) (sym f) (clock.cutoff-IsNumber m)) in
          (
            cut.kept,
            rw (truncate, e, cut.result) refl,
            rw e (cut.dropped, cut.split, cut.old),
            IsTimed-append_right fl 0 high cut.dropped cut.kept
                (subst (IsTimed fl 0 high) cut.split h),
          )

  -- All buffers are truncated, each signal keeps an end of its points, and time order is kept.
  abbrev pub AllCut : ℕ → List (ℕ × SampleBuffer fl) → Type 0
  AllCut high bs =
      (bs' : List (ℕ × SampleBuffer fl)) × (truncate_all fl keep_seconds bs ≡ ok bs')
      × ((id : ℕ) → Shortened fl keep_seconds (points_of fl id bs) (points_of fl id bs'))
      × AreTimed fl high bs'

  pub truncate_all-AllCut :
      (high : ℕ) (bs : List (ℕ × SampleBuffer fl)) → AreTimed fl high bs → AllCut high bs
  unfolding truncate_all points_of
  truncate_all-AllCut high [] h = ([], refl, λ id. refl, tt)
  truncate_all-AllCut high ((key, b) ∷ bs) (hb, h) =
      let (kept, cut, shorter, timed) = truncate-Cut high b hb in
      let (bs', cuts, shorters, timeds) = truncate_all-AllCut high bs h in
      (
        (key, record { samples = kept }) ∷ bs',
        rw (truncate_all, cut, cuts) refl,
        λ id. elim (Bool-cases (id == key)) [
          | inl e ↦ rw (points_of, e) shorter
          | inr e ↦ rw (points_of, e) (shorters id)
        ],
        (timed, timeds),
      )
