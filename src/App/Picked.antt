-- ===== src/App/Picked.antt =====
-- The file that the user picks for an export, in src/main.rs.
use ocdscope.Prelude.{
  Bool, ◌>>=◌, panic, ok, ◌++◌, Option, none, some, map, Outcome, err, if◌then◌else◌,
}
use ocdscope.Text.{Bytes, codes, same, lower_byte}
use ocdscope.Float.{Floats}
use ocdscope.Buffer.{Run}
use ocdscope.Export.{ExportError, Exported, Npy, write_csv, write_npy}
use ocdscope.App.{Message, text, OcdScope, show_error}

-- What the export wrote: nothing, or one of the two kinds of file.
pub data Written (fl : Floats) : Type 0 where
  nothing : Written fl
  csv : Exported fl Bytes → Written fl
  npy : Exported fl (Npy fl) → Written fl

module _ (fl : Floats) (display : fl.F64 → Bytes) (export_message : ExportError → Message) where
  -- An error is shown under the title of the export.
  unfoldable pub reported : OcdScope fl → Bytes → Outcome ExportError (Unit {0}) → Run (OcdScope fl)
  reported s title (ok _) = ok s
  reported s title (err e) = ok (show_error fl s title (export_message e))
  reported s title panic = panic

  -- The exports assert in debug builds that the signals have their samples at the same times.
  unfoldable pub export_by : Bool → OcdScope fl → Bytes → Run (OcdScope fl × Written fl)
  unfolding reported
  export_by debug s ext =
      if same ext (codes "csv")
      then (let x = write_csv fl display debug s.signals s.samples in
          reported s (codes "CSV export error") x.result >>= λ s'. ok (s', csv x))
      else (if same ext (codes "npy")
          then (let x = write_npy fl debug s.signals s.samples in
              reported s (codes "NumPy export error") x.result >>= λ s'. ok (s', npy x))
          else ok (
            show_error fl s (codes "Unsupported export format")
                (text (codes "Cannot export file with extension \"" ++ ext ++ codes "\"")),
            nothing,
          ))

  -- A name without an extension is ignored; an extension that is no text (`some none`) panics.
  unfoldable pub export_picked :
      Bool → OcdScope fl → Option (Option Bytes) → Run (OcdScope fl × Written fl)
  unfolding export_by
  export_picked debug s none = ok (s, nothing)
  export_picked debug s (some none) = panic
  export_picked debug s (some (some extension)) = export_by debug s (map lower_byte extension)
