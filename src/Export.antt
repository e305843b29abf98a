-- ===== src/Export.antt =====
-- The export of samples, src/export.rs: what is written to a file that takes all of it. `Display` of
-- `f64` is an argument. The NumPy writer is given a shape and then the numbers of each row.
pub mod Rows
mod Tests
use ocdscope.Prelude.{
  debug_assert, ◌&&◌, ℕ, zero, suc, ◌+◌, ◌++◌, ◌==◌, Bool, true, false, not, Option, none, some,
  List, [], ◌∷◌, map, if◌then◌else◌, leb, length, get_elem?, Outcome, ok, err, panic, ◌>>=◌, expect,
}
use ocdscope.Text.{Bytes, codes}
use ocdscope.Float.{Floats}
use ocdscope.Buffer.{PlotPoint, SampleBuffer}
use ocdscope.App.{SignalConfig}

pub data ExportError : Type 0 where
  no_buffer no_signal : ExportError

unfoldable pub join_from : Bytes → List Bytes → Bytes
join_from row [] = row
join_from row (item ∷ items) = join_from (row ++ codes "," ++ item) items

-- The text of `write_csv_row`.
unfoldable pub csv_row : List Bytes → Bytes
unfolding join_from
csv_row [] = codes "\n"
csv_row (item ∷ items) = join_from item items ++ codes "\n"

module _ (fl : Floats) where
  open fl use {F64, le}

  abbrev pub Column : Type 0
  Column = List (PlotPoint fl)

  -- `samples.get(&id)`
  unfoldable pub get : ℕ → List (ℕ × SampleBuffer fl) → Option Column
  get id [] = none
  get id ((key, b) ∷ bs) = let rest = get id bs in if id == key then some b.samples else rest

  -- The buffers of the signals that have one.
  unfoldable pub signal_buffers : List (SignalConfig fl) → List (ℕ × SampleBuffer fl) → List Column
  unfolding get
  signal_buffers [] samples = []
  signal_buffers (signal ∷ signals) samples = elim (get signal.id samples) [
    | none ↦ signal_buffers signals samples
    | some b ↦ b ∷ signal_buffers signals samples
  ]

  -- The length of the shortest column, the first of which is `c`.
  unfoldable pub shortest : Column → List Column → ℕ
  shortest c [] = length c
  shortest c (d ∷ ds) = let rest = shortest d ds in if leb (length c) rest then length c else rest

  unfoldable pub min_samples : List Column → Option ℕ
  unfolding shortest
  min_samples [] = none
  min_samples (c ∷ cs) = some (shortest c cs)

  -- `buffer.samples()[i].y` of each buffer.
  unfoldable pub values_at : ℕ → List Column → Outcome ExportError (List F64)
  values_at i [] = ok []
  values_at i (c ∷ cs) = do p ← expect (get_elem? c i); ys ← values_at i cs; ok (p.y ∷ ys)

  -- `debug_assert_eq!(t, buffer.samples()[i].x)` of each buffer; a buffer without the sample panics
  -- when the values are read.
  unfoldable pub same_times : ℕ → F64 → List Column → Bool
  same_times i t [] = true
  same_times i t (c ∷ cs) = elim (get_elem? c i) [
    | none ↦ same_times i t cs
    | some q ↦ (le t q.x && le q.x t) && same_times i t cs
  ]

  -- One row. The time of the first buffer is read too, and in debug builds asserted to be that of all.
  unfoldable pub row_at : Bool → ℕ → List Column → Outcome ExportError (List F64)
  unfolding same_times
  row_at debug i buffers = do
    first ← expect (get_elem? buffers 0)
    p ← expect (get_elem? first i)
    _ ← debug_assert debug (same_times i p.x buffers)
    values_at i buffers

  -- The rows of `count` indices from `i` on.
  unfoldable pub rows_from : Bool → ℕ → ℕ → List Column → Outcome ExportError (List (List F64))
  unfolding row_at values_at
  rows_from debug i zero buffers = ok []
  rows_from debug i (suc count) buffers = do
    row ← row_at debug i buffers
    rows ← rows_from debug (i + 1) count buffers
    ok (row ∷ rows)

  -- How many samples are exported, and the rows.
  unfoldable pub table :
      Bool
      → List (SignalConfig fl)
      → List (ℕ × SampleBuffer fl)
      → Outcome ExportError (ℕ × List (List F64))
  unfolding signal_buffers min_samples rows_from
  table debug signals samples =
      let buffers = signal_buffers signals samples in
      if not (length buffers == length signals) then err no_buffer else elim (min_samples buffers) [
        | none ↦ err no_signal
        | some n ↦ rows_from debug 0 n buffers >>= λ rows. ok (n, rows)
      ]

  -- What an export leaves: the contents of the file, if one is made, and the result.
  pub record Exported (A : Type 0) : Type 0 where
    pub file : Option (List A)
    pub result : Outcome ExportError (Unit {0})

  module _ (display : F64 → Bytes) where
    unfoldable pub csv_by : Bytes → Outcome ExportError (ℕ × List (List F64)) → Exported Bytes
    csv_by header (ok (n, rows)) = record {
      file = some (header ∷ map (λ row. csv_row (map display row)) rows);
      result = ok tt;
    }
    csv_by header (err e) = record { file = some (header ∷ []); result = err e }
    csv_by header panic = record { file = some (header ∷ []); result = panic }

    unfoldable pub write_csv :
        Bool → List (SignalConfig fl) → List (ℕ × SampleBuffer fl) → Exported Bytes
    unfolding csv_by table csv_row
    write_csv debug [] samples = record { file = none; result = ok tt }
    write_csv debug (s ∷ signals) samples =
        csv_by (csv_row (map (λ (signal : SignalConfig fl). signal.name) (s ∷ signals)))
          (table debug (s ∷ signals) samples)

  -- What the NumPy writer is given.
  pub data Npy : Type 0 where
    shape : ℕ → ℕ → Npy
    row_of : List F64 → Npy

  unfoldable pub npy_by : ℕ → Outcome ExportError (ℕ × List (List F64)) → Exported Npy
  npy_by width (ok (n, rows)) = record {
    file = some (shape n width ∷ map row_of rows);
    result = ok tt;
  }
  npy_by width (err e) = record { file = some []; result = err e }
  npy_by width panic = record { file = some []; result = panic }

  unfoldable pub write_npy :
      Bool → List (SignalConfig fl) → List (ℕ × SampleBuffer fl) → Exported Npy
  unfolding npy_by table
  write_npy debug [] samples = record { file = none; result = ok tt }
  write_npy debug (s ∷ signals) samples =
      npy_by (length (signal_buffers (s ∷ signals) samples)) (table debug (s ∷ signals) samples)
