-- ===== src/Export/Tests.antt =====
-- The theorems on the export at concrete inputs.
use ocdscope.Prelude.{
  suc, zero, ℕ, ◌≡◌, refl, true, Option, none, some, List, [], ◌∷◌, map, length, ok, err,
}
use ocdscope.Text.{Bytes, codes, format_uint}
use ocdscope.Float.Sample.{numbers}
use ocdscope.Buffer.{PlotPoint, SampleBuffer}
use ocdscope.App.{SignalConfig}
use ocdscope.Export.{same_times, csv_row, no_buffer, get, write_csv, shape, row_of, write_npy}
use ocdscope.Export.Rows.{HaveSameTimes, AreFound, zip_rows, exports-zip_rows, exports_missing}

abbrev signal : ℕ → Bytes → SignalConfig numbers
signal id name = record { id = id; name = name; enabled = true; scale = some 1 }

abbrev at : ℕ → ℕ → PlotPoint numbers
at t v = record { x = some t; y = some v }

abbrev a_points : List (PlotPoint numbers)
a_points = at 1 10 ∷ at 2 20 ∷ []

abbrev b_points : List (PlotPoint numbers)
b_points = at 1 30 ∷ []

abbrev samples : List (ℕ × SampleBuffer numbers)
samples = (4, record { samples = b_points }) ∷ (3, record { samples = a_points }) ∷ []

abbrev display : Option ℕ → Bytes
display none = codes "NaN"
display (some n) = format_uint n

abbrev signals : List (SignalConfig numbers)
signals = signal 4 (codes "b") ∷ []

all_found : AreFound numbers (signal 3 (codes "a") ∷ signals) samples (a_points ∷ b_points ∷ [])
unfolding get
all_found = (refl, (refl, tt))

same : HaveSameTimes numbers a_points (b_points ∷ [])
unfolding same_times
same zero p e = let at_1 : at 1 10 ≡ p = cc in rw⁻¹ at_1 refl
same (suc zero) p e = let at_2 : at 2 20 ≡ p = cc in rw⁻¹ at_2 refl
same (suc (suc i)) p e = absurd (cc)

exports-zip_rows_example :
    (write_csv numbers display true (signal 3 (codes "a") ∷ signals) samples ≡ record {
      file = some (
          csv_row (codes "a" ∷ codes "b" ∷ [])
          ∷ map (λ row. csv_row (map display row)) (zip_rows numbers a_points (b_points ∷ [])));
      result = ok tt;
    })
    × (write_npy numbers true (signal 3 (codes "a") ∷ signals) samples ≡ record {
      file = some (
          shape (length (zip_rows numbers a_points (b_points ∷ []))) 2
          ∷ map row_of (zip_rows numbers a_points (b_points ∷ [])));
      result = ok tt;
    })
exports-zip_rows_example =
    exports-zip_rows numbers true display (signal 3 (codes "a")) signals samples a_points
      (b_points ∷ []) all_found (λ _. same)

missing : get numbers 9 samples ≡ none
unfolding get
missing = refl

exports_missing_example :
    (write_csv numbers display true (signal 9 (codes "c") ∷ signals) samples
      ≡ record { file = some (csv_row (codes "c" ∷ codes "b" ∷ []) ∷ []); result = err no_buffer })
    × (write_npy numbers true (signal 9 (codes "c") ∷ signals) samples
        ≡ record { file = some []; result = err no_buffer })
exports_missing_example =
    exports_missing numbers true display (signal 9 (codes "c")) signals samples 0
      (signal 9 (codes "c")) refl missing
