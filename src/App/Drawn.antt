-- ===== src/App/Drawn.antt =====
-- Drawing (src/main.rs) on buffers in time order.
use ocdscope.Prelude.{
  ℕ, ◌≡◌, ◌≢◌, refl, sym, ◌∙◌, ◌++◌, Bool, true, false, Option, none, some, List, [], ◌∷◌, map,
  ◌==◌, if◌then◌else◌, ok, All, Bool-cases, Option-cases, inl, inr,
}
use mathlib.Core.Path.{subst}
use ocdscope.Float.{Floats, IsIeee}
use ocdscope.Buffer.{PlotPoint, SampleBuffer, Run, scaled}
use ocdscope.Buffer.Search.{rank}
use ocdscope.Buffer.Views.{visible, plot_points-visible}
use ocdscope.Export.{get}
use ocdscope.App.{SignalConfig, OcdScope}
use ocdscope.App.Timed.{IsClock, IsTimed}
use ocdscope.App.Cutting.{IsTimed-IsSorted, IsTimed-AreNumbers}
use ocdscope.App.Plot.{Line, drawn_from, drawn_to, draw_signal, draw_signals, draw}

module _ (fl : Floats) where
  open fl use {F64, le}

  -- The buffer has points, and they are in time order.
  abbrev pub IsDrawable : ℕ → List (PlotPoint fl) → Type 0
  IsDrawable high samples = (samples ≢ []) × IsTimed fl 0 high samples

  abbrev pub AreDrawable : ℕ → List (ℕ × SampleBuffer fl) → Type 0
  AreDrawable high = All (λ (kb : ℕ × SampleBuffer fl). IsDrawable high kb.1.samples)

  -- The line of a signal, by how many of its samples are not after each end of the window.
  pub line_of : SignalConfig fl → F64 → F64 → Option (List (PlotPoint fl)) → List (Line fl)
  line_of signal from_t to_t none = []
  line_of signal from_t to_t (some samples) =
      record {
        name = signal.name;
        points =
            map (scaled fl signal.scale)
              (visible fl samples (rank fl samples from_t) (rank fl samples to_t));
      }
      ∷ []

  -- The lines of the enabled signals, in their order.
  pub lines_of : List (SignalConfig fl) → List (ℕ × SampleBuffer fl) → F64 → F64 → List (Line fl)
  lines_of [] bs from_t to_t = []
  lines_of (signal ∷ signals) bs from_t to_t =
      let rest = lines_of signals bs from_t to_t in
      if signal.enabled then line_of signal from_t to_t (get fl signal.id bs) ++ rest else rest

  get-IsDrawable :
      (high id : ℕ) (bs : List (ℕ × SampleBuffer fl)) (samples : List (PlotPoint fl))
      → AreDrawable high bs
      → get fl id bs ≡ some samples
      → IsDrawable high samples
  unfolding get
  get-IsDrawable high id [] samples h e = absurd (cc)
  get-IsDrawable high id ((key, b) ∷ bs) samples (hb, h) e = elim (Bool-cases (id == key)) [
    | inl f ↦
        let here : get fl id ((key, b) ∷ bs) ≡ some b.samples = rw (get, f) refl in
        let same : b.samples ≡ samples = cc in subst (IsDrawable high) same hb
    | inr f ↦
        let there : get fl id ((key, b) ∷ bs) ≡ get fl id bs = rw (get, f) refl in
        get-IsDrawable high id bs samples h (sym there ∙ e)
  ]

branch :
    {A : Type 0} (b : Bool) (x y : Run A) (u v : A)
    → x ≡ ok v
    → y ≡ ok u
    → (elim b [ false ↦ x | true ↦ y ]) ≡ ok (if b then u else v)
branch true x y u v e f = f
branch false x y u v e f = e

module _ (fl : Floats) (ieee : IsIeee fl) (keep_seconds : fl.F64)
    (clock : IsClock fl ieee keep_seconds) (from_t to_t : fl.F64) (low : ieee.IsNumber from_t)
    (high : ieee.IsNumber to_t) (ordered : fl.le from_t to_t ≡ true) where
  draw_signal-line_of :
      (latest : ℕ) (signal : SignalConfig fl) (samples : List (PlotPoint fl))
      → IsDrawable fl latest samples
      → draw_signal fl signal (some samples) from_t to_t
        ≡ ok (line_of fl signal from_t to_t (some samples))
  unfolding draw_signal line_of
  draw_signal-line_of latest signal [] (some_point, _) = absurd (some_point refl)
  draw_signal-line_of latest signal (p ∷ ps) (_, timed) =
      rw
        (plot_points-visible fl ieee p ps from_t to_t signal.scale
          (IsTimed-IsSorted fl ieee keep_seconds clock 0 latest (p ∷ ps) timed)
          (IsTimed-AreNumbers fl ieee keep_seconds clock 0 latest (p ∷ ps) timed) low high ordered)
        refl

  drawn :
      (latest : ℕ) (signal : SignalConfig fl) (bs : List (ℕ × SampleBuffer fl))
      → AreDrawable fl latest bs
      → draw_signal fl signal (get fl signal.id bs) from_t to_t
        ≡ ok (line_of fl signal from_t to_t (get fl signal.id bs))
  unfolding draw_signal line_of
  drawn latest signal bs h = elim (Option-cases (get fl signal.id bs)) [
    | inl e ↦ rw e refl
    | inr (samples, e) ↦ rw e (
        draw_signal-line_of latest signal samples
          (get-IsDrawable fl latest signal.id bs samples h e))
  ]

  draw_signals-lines_of :
      (latest : ℕ) (signals : List (SignalConfig fl)) (bs : List (ℕ × SampleBuffer fl))
      → AreDrawable fl latest bs
      → draw_signals fl signals bs from_t to_t ≡ ok (lines_of fl signals bs from_t to_t)
  unfolding draw_signals lines_of
  draw_signals-lines_of latest [] bs h = refl
  draw_signals-lines_of latest (signal ∷ signals) bs h =
      let rest = draw_signals-lines_of latest signals bs h in
      branch signal.enabled _ _ _ _ rest (rw (drawn latest signal bs h, rest) refl)

-- With buffers that have points, in time order, and times that are a clock as floats, drawing does
-- not panic, if the ends of the window that is drawn are numbers in order. It draws one line for each
-- enabled signal that has a buffer, in the order of the signals: its samples in the window, by how
-- many of them are not after each end, with scaled values.
pub draw-lines_of :
    (fl : Floats) (ieee : IsIeee fl) (s : OcdScope fl) (x_min x_max : fl.F64)
    → IsClock fl ieee s.buffer_auto_truncate_at
    → ieee.IsNumber (drawn_from fl x_min x_max)
    → ieee.IsNumber (drawn_to fl x_min x_max)
    → fl.le (drawn_from fl x_min x_max) (drawn_to fl x_min x_max) ≡ true
    → AreDrawable fl s.max_time s.samples
    → draw fl s x_min x_max
      ≡ ok (lines_of fl s.signals s.samples (drawn_from fl x_min x_max) (drawn_to fl x_min x_max))
unfolding draw
draw-lines_of fl ieee s x_min x_max clock low high ordered h =
    draw_signals-lines_of fl ieee s.buffer_auto_truncate_at clock (drawn_from fl x_min x_max)
      (drawn_to fl x_min x_max) low high ordered s.max_time s.signals s.samples h
