-- ===== src/Export/Rows.antt =====
-- The rows that src/export.rs writes, against taking the first sample of every column in turn.
use ocdscope.Prelude.{
  debug_assert, Bool, ℕ, zero, suc, ◌+◌, ◌<◌, ◌≤◌, ◌≡◌, refl, sym, ap, ◌∙◌, inl, inr, true, false,
  Option, none, some, List, [], ◌∷◌, map, ◌==◌, length, get_elem?, ok, err, Option-cases, arith,
}
use ocdscope.Text.{Bytes}
use ocdscope.Float.{Floats}
use ocdscope.Buffer.{PlotPoint, SampleBuffer}
use ocdscope.App.{SignalConfig}
use ocdscope.Export.{
  same_times, no_buffer, csv_row, Column, get, signal_buffers, shortest, min_samples, values_at,
  row_at, rows_from, table, csv_by, write_csv, shape, row_of, npy_by, write_npy,
}

module _ (fl : Floats) where
  open fl use {F64}

  -- The values of the first samples, and the columns without them, if all columns have one.
  heads : List (Column fl) → Option (List F64 × List (Column fl))
  heads [] = some ([], [])
  heads ([] ∷ cs) = none
  heads ((p ∷ ps) ∷ cs) = elim (heads cs) [
    | none ↦ none
    | some (ys, rest) ↦ some (p.y ∷ ys, ps ∷ rest)
  ]

  -- The rows of columns of which `c` is the first, until one column ends.
  pub zip_rows : Column fl → List (Column fl) → List (List F64)
  zip_rows [] cs = []
  zip_rows (p ∷ ps) cs = elim (heads cs) [
    | none ↦ []
    | some (ys, rest) ↦ (p.y ∷ ys) ∷ zip_rows ps rest
  ]

  -- What the columns `cs` behind the first one do, where they have heads and where they have not.
  data HeadCases (cs : List (Column fl)) : Type 0 where
    over : heads cs ≡ none → ((c : Column fl) → shortest fl c cs ≡ 0) → HeadCases cs
    more :
        (ys : List F64) (rest : List (Column fl))
        → heads cs ≡ some (ys, rest)
        → values_at fl 0 cs ≡ ok ys
        → ((i : ℕ) → values_at fl (suc i) cs ≡ values_at fl i rest)
        → ((p : PlotPoint fl) (ps : Column fl)
            → shortest fl (p ∷ ps) cs ≡ suc (shortest fl ps rest))
        → HeadCases cs

  shortest_empty : (c : Column fl) (cs : List (Column fl)) → shortest fl c ([] ∷ cs) ≡ 0
  unfolding shortest
  shortest_empty c [] = ground arith
  shortest_empty c (d ∷ ds) = ground arith

  head-cases : (cs : List (Column fl)) → HeadCases cs
  unfolding heads values_at shortest
  head-cases [] = more [] [] refl refl (λ i. refl) (λ p ps. refl)
  head-cases ([] ∷ cs) = over refl (λ c. shortest_empty c cs)
  head-cases ((p ∷ ps) ∷ cs) = elim (head-cases cs) [
    | over e h ↦ over (rw (heads, e) refl) (λ c. ground (arith, h (p ∷ ps)))
    | more ys rest e at_0 at_suc short ↦
        more (p.y ∷ ys) (ps ∷ rest) (rw (heads, e) refl) (rw at_0 refl)
          (λ i. elim (Option-cases (get_elem? ps i)) [
            | inl f ↦ rw f refl
            | inr (q, f) ↦ rw (f, at_suc i) refl
          ])
          (λ q qs. ground (arith, short p ps))
  ]

  -- Behind the first row, the rows are those of the columns without their heads.
  rows_from-tail :
      (i count : ℕ) (p : PlotPoint fl) (ps : Column fl) (cs rest : List (Column fl))
      → ((i : ℕ) → values_at fl (suc i) cs ≡ values_at fl i rest)
      → rows_from fl false (suc i) count ((p ∷ ps) ∷ cs) ≡ rows_from fl false i count (ps ∷ rest)
  unfolding rows_from row_at values_at debug_assert
  rows_from-tail i zero p ps cs rest h = refl
  rows_from-tail i (suc count) p ps cs rest h =
      let shift : suc i + 1 ≡ suc (i + 1) = omega arith in
      let next : rows_from fl false (suc i + 1) count ((p ∷ ps) ∷ cs)
          ≡ rows_from fl false (i + 1) count (ps ∷ rest) =
        ap (λ n. rows_from fl false n count ((p ∷ ps) ∷ cs)) shift
        ∙ rows_from-tail (i + 1) count p ps cs rest h in
      rw (h i, next) refl

  shortest_nil : (cs : List (Column fl)) → shortest fl [] cs ≡ 0
  unfolding shortest
  shortest_nil [] = refl
  shortest_nil (d ∷ ds) = ground arith

  -- Counting up to the shortest column and reading each index is taking heads until a column ends.
  rows_from-zip_rows :
      (c : Column fl) (cs : List (Column fl))
      → rows_from fl false 0 (shortest fl c cs) (c ∷ cs) ≡ ok (zip_rows c cs)
  unfolding rows_from row_at values_at debug_assert zip_rows
  rows_from-zip_rows [] cs = rw (shortest_nil cs) refl
  rows_from-zip_rows (p ∷ ps) cs = elim (head-cases cs) [
    | over e h ↦ rw (h (p ∷ ps), zip_rows, e) refl
    | more ys rest e at_0 at_suc short ↦
        let later : rows_from fl false (0 + 1) (shortest fl ps rest) ((p ∷ ps) ∷ cs)
            ≡ ok (zip_rows ps rest) =
          ap (λ n. rows_from fl false n (shortest fl ps rest) ((p ∷ ps) ∷ cs)) (omega arith)
          ∙ rows_from-tail 0 (shortest fl ps rest) p ps cs rest at_suc
          ∙ rows_from-zip_rows ps rest in
        rw (short p ps, at_0, later, zip_rows, e) refl
  ]

  -- The samples at one index have one time: what `debug_assert_eq!` of the exports asserts.
  abbrev pub HaveSameTimes : Column fl → List (Column fl) → Type 0
  HaveSameTimes c cs =
      (i : ℕ) (p : PlotPoint fl) → get_elem? c i ≡ some p → same_times fl i p.x (c ∷ cs) ≡ true

  row_at-release :
      (i : ℕ) (c : Column fl) (cs : List (Column fl))
      → HaveSameTimes c cs
      → row_at fl true i (c ∷ cs) ≡ row_at fl false i (c ∷ cs)
  unfolding row_at debug_assert
  row_at-release i c cs h = elim (Option-cases (get_elem? c i)) [
    | inl e ↦ rw e refl
    | inr (p, e) ↦ rw (e, h i p e) refl
  ]

  -- Where the assertion holds, a debug build writes what a release build writes.
  rows_from-release :
      (i count : ℕ) (c : Column fl) (cs : List (Column fl))
      → HaveSameTimes c cs
      → rows_from fl true i count (c ∷ cs) ≡ rows_from fl false i count (c ∷ cs)
  unfolding rows_from
  rows_from-release i zero c cs h = refl
  rows_from-release i (suc count) c cs h =
      rw (row_at-release i c cs h, rows_from-release (i + 1) count c cs h) refl

  pub rows_from-any :
      (debug : Bool) (c : Column fl) (cs : List (Column fl))
      → (debug ≡ true → HaveSameTimes c cs)
      → rows_from fl debug 0 (shortest fl c cs) (c ∷ cs) ≡ ok (zip_rows c cs)
  rows_from-any true c cs h =
      rows_from-release 0 (shortest fl c cs) c cs (h refl) ∙ rows_from-zip_rows c cs
  rows_from-any false c cs h = rows_from-zip_rows c cs

  zip_rows-length :
      (c : Column fl) (cs : List (Column fl)) → length (zip_rows c cs) ≡ shortest fl c cs
  unfolding zip_rows
  zip_rows-length [] cs = sym (shortest_nil cs)
  zip_rows-length (p ∷ ps) cs = elim (head-cases cs) [
    | over e h ↦ rw (zip_rows, e, h (p ∷ ps)) refl
    | more ys rest e at_0 at_suc short ↦
        rw (zip_rows, e, short p ps) (ap suc (zip_rows-length ps rest))
  ]

  -- Each signal has a buffer, and these are the samples in them.
  abbrev pub AreFound :
      List (SignalConfig fl) → List (ℕ × SampleBuffer fl) → List (Column fl) → Type 0
  AreFound [] samples [] = Unit
  AreFound [] samples (c ∷ cs) = ⊥
  AreFound (s ∷ signals) samples [] = ⊥
  AreFound (s ∷ signals) samples (c ∷ cs) =
      (get fl s.id samples ≡ some c) × AreFound signals samples cs

  signal_buffers-AreFound :
      (signals : List (SignalConfig fl)) (samples : List (ℕ × SampleBuffer fl))
      (cs : List (Column fl))
      → AreFound signals samples cs
      → (signal_buffers fl signals samples ≡ cs) × ((length cs == length signals) ≡ true)
  unfolding signal_buffers
  signal_buffers-AreFound [] samples [] h = (refl, refl)
  signal_buffers-AreFound [] samples (c ∷ cs) h = absurd h
  signal_buffers-AreFound (s ∷ signals) samples [] h = absurd h
  signal_buffers-AreFound (s ∷ signals) samples (c ∷ cs) (e, h) =
      let (f, g) = signal_buffers-AreFound signals samples cs h in
      (rw (signal_buffers, e) (ap (λ l. c ∷ l) f), ground (arith, g))

  table-zip_rows :
      (debug : Bool) (signals : List (SignalConfig fl)) (samples : List (ℕ × SampleBuffer fl))
      (c : Column fl) (cs : List (Column fl))
      → AreFound signals samples (c ∷ cs)
      → (debug ≡ true → HaveSameTimes c cs)
      → table fl debug signals samples ≡ ok (shortest fl c cs, zip_rows c cs)
  unfolding table min_samples
  table-zip_rows debug signals samples c cs h same =
      let (f, g) = signal_buffers-AreFound signals samples (c ∷ cs) h in
      rw (f, g, f, rows_from-any debug c cs same) refl

  -- If each signal of a list has a buffer, and in debug builds the samples at one index have one time,
  -- both exports succeed, without a panic. The CSV file has a
  -- row of the names, and a row for each sample up to the end of the shortest buffer: the values of
  -- all signals at it. The NumPy file has the same rows, in the shape of as many rows as there are
  -- and as many columns as signals.
  pub exports-zip_rows :
      (debug : Bool) (display : F64 → Bytes) (s : SignalConfig fl)
      (signals : List (SignalConfig fl)) (samples : List (ℕ × SampleBuffer fl)) (c : Column fl)
      (cs : List (Column fl))
      → AreFound (s ∷ signals) samples (c ∷ cs)
      → (debug ≡ true → HaveSameTimes c cs)
      → (write_csv fl display debug (s ∷ signals) samples ≡ record {
        file = some (
            csv_row (map (λ (signal : SignalConfig fl). signal.name) (s ∷ signals))
            ∷ map (λ row. csv_row (map display row)) (zip_rows c cs));
        result = ok tt;
      })
        × (write_npy fl debug (s ∷ signals) samples ≡ record {
          file =
              some (
                shape (length (zip_rows c cs)) (length (s ∷ signals)) ∷ map row_of (zip_rows c cs));
          result = ok tt;
        })
  unfolding write_csv csv_by write_npy npy_by
  exports-zip_rows debug display s signals samples c cs h same =
      let t = table-zip_rows debug (s ∷ signals) samples c cs h same in
      let (f, g) = signal_buffers-AreFound (s ∷ signals) samples (c ∷ cs) h in
      let width : length (c ∷ cs) ≡ length (s ∷ signals) = ground (arith, g) in
      (rw t refl, rw (t, f, width, zip_rows-length c cs) refl)

  signal_buffers-length :
      (signals : List (SignalConfig fl)) (samples : List (ℕ × SampleBuffer fl))
      → length (signal_buffers fl signals samples) ≤ length signals
  unfolding signal_buffers
  signal_buffers-length [] samples = omega arith
  signal_buffers-length (s ∷ signals) samples = elim (Option-cases (get fl s.id samples)) [
    | inl e ↦ rw (signal_buffers, e) (omega (arith, signal_buffers-length signals samples))
    | inr (b, e) ↦ rw (signal_buffers, e) (omega (arith, signal_buffers-length signals samples))
  ]

  signal_buffers-missing :
      (signals : List (SignalConfig fl)) (samples : List (ℕ × SampleBuffer fl)) (i : ℕ)
      (s : SignalConfig fl)
      → get_elem? signals i ≡ some s
      → get fl s.id samples ≡ none
      → length (signal_buffers fl signals samples) < length signals
  unfolding signal_buffers
  signal_buffers-missing [] samples i s e h = absurd (cc)
  signal_buffers-missing (r ∷ signals) samples zero s e h =
      let same : get fl r.id samples ≡ none =
        (let eq : r ≡ s = cc in ap (λ (z : SignalConfig fl). get fl z.id samples) eq ∙ h) in
      rw (signal_buffers, same) (omega (arith, signal_buffers-length signals samples))
  signal_buffers-missing (r ∷ signals) samples (suc i) s e h =
      let rest = signal_buffers-missing signals samples i s e h in
      elim (Option-cases (get fl r.id samples)) [
        | inl f ↦ rw (signal_buffers, f) (omega (arith, rest))
        | inr (b, f) ↦ rw (signal_buffers, f) (omega (arith, rest))
      ]

  -- If some signal of the list has no buffer, both exports fail with that error, and what was in the
  -- file is gone: the CSV file then has the row of the names only, and the NumPy file is empty.
  pub exports_missing :
      (debug : Bool) (display : F64 → Bytes) (s : SignalConfig fl)
      (signals : List (SignalConfig fl)) (samples : List (ℕ × SampleBuffer fl)) (i : ℕ)
      (r : SignalConfig fl)
      → get_elem? (s ∷ signals) i ≡ some r
      → get fl r.id samples ≡ none
      → (write_csv fl display debug (s ∷ signals) samples ≡ record {
        file = some (csv_row (map (λ (signal : SignalConfig fl). signal.name) (s ∷ signals)) ∷ []);
        result = err no_buffer;
      })
        × (write_npy fl debug (s ∷ signals) samples
            ≡ record { file = some []; result = err no_buffer })
  unfolding write_csv csv_by write_npy npy_by table
  exports_missing debug display s signals samples i r e h =
      let short = signal_buffers-missing (s ∷ signals) samples i r e h in
      let unequal : (length (signal_buffers fl (s ∷ signals) samples) == length (s ∷ signals))
          ≡ false =
        ground (arith, short) in
      (rw unequal refl, rw unequal refl)
