-- ===== src/App/Plot.antt =====
-- What the plot of src/main.rs draws: the enabled signals that have samples, in a window that is wider
-- than the visible one.
use ocdscope.Prelude.{
  ℕ, ◌++◌, ◌&&◌, true, false, Option, none, some, List, [], ◌∷◌, if◌then◌else◌, ok, ◌>>=◌,
}
use ocdscope.Text.{Bytes}
use ocdscope.Float.{Floats}
use ocdscope.Buffer.{PlotPoint, SampleBuffer, Run, plot_points}
use ocdscope.Export.{get}
use ocdscope.App.{SignalConfig, OcdScope}

pub record Line (fl : Floats) : Type 0 where
  pub name : Bytes
  pub points : List (PlotPoint fl)

module _ (fl : Floats) where
  open fl use {F64, nat_f64, le, add, sub, div}

  -- `width == 0.0`, and the literal `0.1`.
  unfoldable pub margin : F64 → F64
  margin width =
      if le width (nat_f64 0) && le (nat_f64 0) width then div (nat_f64 1) (nat_f64 10) else width

  -- The ends of the window that is drawn, by the ends of the visible one.
  unfoldable pub drawn_from : F64 → F64 → F64
  unfolding margin
  drawn_from x_min x_max = sub x_min (div (margin (sub x_max x_min)) (nat_f64 2))

  unfoldable pub drawn_to : F64 → F64 → F64
  unfolding margin
  drawn_to x_min x_max = add x_max (div (margin (sub x_max x_min)) (nat_f64 2))

  -- The line of a signal, where it has a buffer.
  unfoldable pub draw_signal :
      SignalConfig fl → Option (List (PlotPoint fl)) → F64 → F64 → Run (List (Line fl))
  draw_signal signal none from_t to_t = ok []
  draw_signal signal (some samples) from_t to_t = do
    points ← plot_points fl (record { samples = samples }) from_t to_t signal.scale
    ok (record { name = signal.name; points = points } ∷ [])

  unfoldable pub draw_signals :
      List (SignalConfig fl) → List (ℕ × SampleBuffer fl) → F64 → F64 → Run (List (Line fl))
  unfolding draw_signal
  draw_signals [] samples from_t to_t = ok []
  draw_signals (signal ∷ signals) samples from_t to_t = elim signal.enabled [
    | false ↦ draw_signals signals samples from_t to_t
    | true ↦ draw_signal signal (get fl signal.id samples) from_t to_t >>= λ line.
        draw_signals signals samples from_t to_t >>= λ lines. ok (line ++ lines)
  ]

  -- The lines of a plot whose visible window is from `x_min` to `x_max`.
  unfoldable pub draw : OcdScope fl → F64 → F64 → Run (List (Line fl))
  unfolding drawn_from drawn_to draw_signals
  draw s x_min x_max =
      draw_signals s.signals s.samples (drawn_from x_min x_max) (drawn_to x_min x_max)
