-- ===== src/App/Frame/Release.antt =====
-- In release builds an export (src/main.rs, src/export.rs) does not panic.
use ocdscope.Prelude.{
  ℕ, ◌≡◌, ◌≢◌, refl, ◌==◌, inl, inr, true, false, Option, none, some, List, [], ◌∷◌, map, length,
  Outcome, ok, err, panic, ◌>>=◌, Bool-cases,
}
use ocdscope.Text.{Bytes, codes, same, lower_byte}
use ocdscope.Float.{Floats}
use ocdscope.Buffer.{SampleBuffer, Run}
use ocdscope.Export.{
  ExportError, Column, signal_buffers, min_samples, table, csv_by, write_csv, npy_by, write_npy,
}
use ocdscope.Export.Rows.{rows_from-any}
use ocdscope.App.{SignalConfig, OcdScope, Message}
use ocdscope.App.Picked.{Written, reported, export_by, export_picked}

module _ (fl : Floats) where
  open fl use {F64}

  table-release :
      (signals : List (SignalConfig fl)) (samples : List (ℕ × SampleBuffer fl))
      → table fl false signals samples ≢ panic
  unfolding table min_samples
  table-release signals samples = go (signal_buffers fl signals samples) refl
    where
      go :
          (bs : List (Column fl))
          → signal_buffers fl signals samples ≡ bs
          → table fl false signals samples ≢ panic
      go bs e = elim (Bool-cases (length bs == length signals)) [
        | inr f ↦ rw (table, e, f) (λ h. cc)
        | inl f ↦ found bs e f
      ]
        where
          found :
              (bs : List (Column fl))
              → signal_buffers fl signals samples ≡ bs
              → (length bs == length signals) ≡ true
              → table fl false signals samples ≢ panic
          found [] e f = rw (table, e, f) (λ h. cc)
          found (c ∷ cs) e f =
              rw (table, e, f, e, rows_from-any fl false c cs (λ g. absurd (cc))) (λ h. cc)

  module _ (display : F64 → Bytes) (export_message : ExportError → Message) where
    csv_by-release :
        (header : Bytes) (o : Outcome ExportError (ℕ × List (List F64)))
        → o ≢ panic
        → (csv_by fl display header o).result ≢ panic
    unfolding csv_by
    csv_by-release header (ok (n, rows)) h e = cc
    csv_by-release header (err x) h e = cc
    csv_by-release header panic h e = h refl

    npy_by-release :
        (width : ℕ) (o : Outcome ExportError (ℕ × List (List F64)))
        → o ≢ panic
        → (npy_by fl width o).result ≢ panic
    unfolding npy_by
    npy_by-release width (ok (n, rows)) h e = cc
    npy_by-release width (err x) h e = cc
    npy_by-release width panic h e = h refl

    write_csv-release :
        (signals : List (SignalConfig fl)) (samples : List (ℕ × SampleBuffer fl))
        → (write_csv fl display false signals samples).result ≢ panic
    unfolding write_csv
    write_csv-release [] samples e = cc
    write_csv-release (s ∷ signals) samples e =
        csv_by-release _ (table fl false (s ∷ signals) samples)
          (table-release (s ∷ signals) samples) e

    write_npy-release :
        (signals : List (SignalConfig fl)) (samples : List (ℕ × SampleBuffer fl))
        → (write_npy fl false signals samples).result ≢ panic
    unfolding write_npy
    write_npy-release [] samples e = cc
    write_npy-release (s ∷ signals) samples e =
        npy_by-release _ (table fl false (s ∷ signals) samples)
          (table-release (s ∷ signals) samples) e

    abbrev Passes : Run (OcdScope fl × Written fl) → Type 0
    Passes m = m ≢ panic

    reported-release :
        (s : OcdScope fl) (title : Bytes) (o : Outcome ExportError (Unit {0})) (x : Written fl)
        → o ≢ panic
        → Passes (reported fl display export_message s title o >>= λ s'. ok (s', x))
    unfolding reported
    reported-release s title (ok _) x h e = cc
    reported-release s title (err y) x h e = cc
    reported-release s title panic x h e = h refl

    export_by-release :
        (s : OcdScope fl) (ext : Bytes) → Passes (export_by fl display export_message false s ext)
    unfolding export_by
    export_by-release s ext = elim (Bool-cases (same ext (codes "csv"))) [
      | inl e ↦ rw (export_by, e) (reported-release s _ _ _ (write_csv-release s.signals s.samples))
      | inr e ↦ elim (Bool-cases (same ext (codes "npy"))) [
        | inl f ↦
            rw (export_by, e, f) (reported-release s _ _ _ (write_npy-release s.signals s.samples))
        | inr f ↦ rw (export_by, e, f) (λ h. cc)
      ]
    ]

    -- Of a name whose extension is text, or that has none.
    pub export_picked-release :
        (s : OcdScope fl) (picked : Option (Option Bytes))
        → picked ≢ some none
        → export_picked fl display export_message false s picked ≢ panic
    unfolding export_picked
    export_picked-release s none h e = cc
    export_picked-release s (some none) h e = h refl
    export_picked-release s (some (some extension)) h e =
        export_by-release s (map lower_byte extension) e
