-- ===== src/Buffer/Views.antt =====
-- `plot_points` and `truncate` of src/buffer.rs on a buffer in time order.
use ocdscope.Prelude.{
  ℕ, zero, suc, ◌+◌, ◌-◌, ◌≤◌, ◌≡◌, refl, sym, ap, ◌∙◌, ◌⊎◌, inl, inr, true, false, some, List, [],
  ◌∷◌, ◌++◌, map, leb, lt→ltb, length, take, drop, take-append-drop, ok, slice_from, slice_in_range,
  slice_front, slice_from_in_range, All, arith, Bool-cases,
}
use ocdscope.Float.{Floats, IsIeee}
use ocdscope.Buffer.{
  PlotPoint, Running, index_before_at, window, scaled, plot_points, last_of, truncate_samples,
}
use ocdscope.Buffer.Search.{rank, before, IsSorted, AreNumbers, index_before_at_lem}

module _ (fl : Floats) where
  open fl use {F64, lt, le}

  rank-le : (samples : List (PlotPoint fl)) (t : F64) → rank fl samples t ≤ length samples
  unfolding rank
  rank-le [] t = omega arith
  rank-le (p ∷ ps) t = ground (arith, rank-le ps t)

  -- The samples that are counted are not after `t`.
  take-rank :
      (samples : List (PlotPoint fl)) (t : F64)
      → All (λ (p : PlotPoint fl). le p.x t ≡ true) (take (rank fl samples t) samples)
  unfolding rank
  take-rank [] t = tt
  take-rank (p ∷ ps) t = elim (Bool-cases (le p.x t)) [
    | inl e ↦ rw (rank, e) (e, take-rank ps t)
    | inr e ↦ rw (rank, e) tt
  ]

  pub IsSorted-tail :
      (p : PlotPoint fl) (ps : List (PlotPoint fl)) → IsSorted fl (p ∷ ps) → IsSorted fl ps
  IsSorted-tail p ps h i j a b le_ij = h (suc i) (suc j) a b (omega arith)

  -- The samples that `plot_points` draws, by how many are not after each end of the window.
  abbrev pub visible : List (PlotPoint fl) → ℕ → ℕ → List (PlotPoint fl)
  visible samples from_rank zero = samples
  visible samples zero (suc b) = take b samples
  visible samples (suc a) (suc b) = take (b - a) (drop a samples)

  window-visible :
      (samples : List (PlotPoint fl)) (f t : ℕ)
      → f ≤ t
      → t ≤ length samples
      → window fl samples (before fl f) (before fl t) ≡ ok (visible samples f t)
  unfolding window
  window-visible samples zero zero h k = refl
  window-visible samples (suc a) zero h k = refl
  window-visible samples zero (suc b) h k =
      rw (lt→ltb b (length samples) k) (slice_front b samples (omega arith))
  window-visible samples (suc a) (suc b) h k =
      let inside : leb (length samples) b ≡ false = ground arith in
      rw inside (slice_in_range a b samples (omega arith) (omega arith))

module _ (fl : Floats) (ieee : IsIeee fl) where
  open fl use {F64, lt, le, sub}
  open ieee use {IsNumber, lt_or_ge, not_le, lt→le, le_trans}

  rank_mono :
      (samples : List (PlotPoint fl)) (s t : F64)
      → le s t ≡ true
      → rank fl samples s ≤ rank fl samples t
  unfolding rank
  rank_mono [] s t h = omega arith
  rank_mono (p ∷ ps) s t h = ground (arith, rank_mono ps s t h, le_trans p.x s t)

  -- Samples behind one that is after `t` are after it.
  All-after :
      (p : PlotPoint fl) (ps : List (PlotPoint fl)) (t : F64)
      → IsSorted fl (p ∷ ps)
      → le p.x t ≡ false
      → All (λ (q : PlotPoint fl). le q.x t ≡ false) (p ∷ ps)
  All-after p [] t sorted e = (e, tt)
  All-after p (q ∷ qs) t sorted e =
      let next : le q.x t ≡ false = elim (Bool-cases (le q.x t)) [
        | inr f ↦ f
        | inl f ↦ f ∙ sym (le_trans p.x q.x t (sorted 0 1 p q (omega arith) refl refl) f) ∙ e
      ] in
      (e, All-after q qs t (IsSorted-tail fl p (q ∷ qs) sorted) next)

  -- The samples that are not counted are after `t`.
  drop-rank :
      (samples : List (PlotPoint fl)) (t : F64)
      → IsSorted fl samples
      → All (λ (p : PlotPoint fl). le p.x t ≡ false) (drop (rank fl samples t) samples)
  unfolding rank
  drop-rank [] t sorted = tt
  drop-rank (p ∷ ps) t sorted = elim (Bool-cases (le p.x t)) [
    | inl e ↦ rw (rank, e) (drop-rank ps t (IsSorted-tail fl p ps sorted))
    | inr e ↦ rw (rank, e) (All-after p ps t sorted e)
  ]

  -- On a non-empty buffer of numbers in time order, a window whose ends are numbers in order does
  -- not panic. It draws the samples from the last one not after its start (or the first one) up to,
  -- and without, the last one not after its end, with scaled values; a window that ends before the
  -- first sample draws the whole buffer.
  pub plot_points-visible :
      (p : PlotPoint fl) (ps : List (PlotPoint fl)) (from_t to_t scale : F64)
      → IsSorted fl (p ∷ ps)
      → AreNumbers fl ieee (p ∷ ps)
      → IsNumber from_t
      → IsNumber to_t
      → le from_t to_t ≡ true
      → plot_points fl (record { samples = p ∷ ps }) from_t to_t scale
        ≡ ok (
            map
              (scaled fl scale)
              (visible fl (p ∷ ps) (rank fl (p ∷ ps) from_t) (rank fl (p ∷ ps) to_t)))
  unfolding plot_points
  plot_points-visible p ps from_t to_t scale sorted numbers numberf numbert ordered = rw (
    index_before_at_lem fl ieee p ps from_t sorted numbers numberf,
    index_before_at_lem fl ieee p ps to_t sorted numbers numbert,
    window-visible fl (p ∷ ps) (rank fl (p ∷ ps) from_t) (rank fl (p ∷ ps) to_t)
        (rank_mono (p ∷ ps) from_t to_t ordered) (rank-le fl (p ∷ ps) to_t),
  )

  -- What `truncate` leaves of the samples: `dropped` stood in front of `kept`.
  pub record Truncated (p : PlotPoint fl) (ps : List (PlotPoint fl)) (keep_seconds : F64)
      : Type 0 where
    pub dropped : List (PlotPoint fl)
    pub kept : List (PlotPoint fl)
    pub result : truncate_samples fl (p ∷ ps) keep_seconds ≡ ok kept
    pub split : p ∷ ps ≡ dropped ++ kept
    pub old :
        All (λ (q : PlotPoint fl). le q.x (sub (last_of fl p ps).x keep_seconds) ≡ true) dropped
    pub cutoff :
        ((lt p.x (sub (last_of fl p ps).x keep_seconds) ≡ true)
          × All (λ (q : PlotPoint fl). le q.x (sub (last_of fl p ps).x keep_seconds) ≡ false) kept)
        ⊎ ((lt p.x (sub (last_of fl p ps).x keep_seconds) ≡ false) × (dropped ≡ []))

  truncate_old :
      (p : PlotPoint fl) (ps : List (PlotPoint fl)) (keep_seconds : F64)
      → let t = sub (last_of fl p ps).x keep_seconds in
        IsSorted fl (p ∷ ps)
        → AreNumbers fl ieee (p ∷ ps)
        → IsNumber t
        → lt p.x t ≡ true
        → truncate_samples fl (p ∷ ps) keep_seconds ≡ ok (drop (rank fl (p ∷ ps) t) (p ∷ ps))
  unfolding truncate_samples rank
  truncate_old p ps keep_seconds sorted numbers number older =
      let t = sub (last_of fl p ps).x keep_seconds in
      let counted : rank fl (p ∷ ps) t ≡ rank fl ps t + 1 =
        rw (rank, lt→le p.x t older) (omega arith) in
      let next : rank fl (p ∷ ps) t ≡ suc (rank fl ps t) = omega (arith, counted) in
      let found : index_before_at fl (p ∷ ps) t ≡ ok (some (rank fl ps t)) =
        index_before_at_lem fl ieee p ps t sorted numbers number
        ∙ ap (λ n. ok (before fl n)) next in
      let cut : slice_from {E = Running} (rank fl ps t + 1) (p ∷ ps)
          ≡ ok (drop (rank fl ps t + 1) (p ∷ ps)) =
        slice_from_in_range (rank fl ps t + 1) (p ∷ ps) (omega (arith, rank-le fl ps t)) in
      rw (older, found, cut) (ap (λ n. ok (drop n (p ∷ ps))) (sym counted))

  -- On a non-empty buffer of numbers in time order, if the cut-off (the time of the last sample
  -- less `keep_seconds`) is a number, truncation does not panic. It drops a front part of the
  -- samples, none of them after the cut-off; if the first sample is before the cut-off, what it
  -- keeps is all after it, and otherwise it drops nothing.
  pub truncate-Truncated :
      (p : PlotPoint fl) (ps : List (PlotPoint fl)) (keep_seconds : F64)
      → IsSorted fl (p ∷ ps)
      → AreNumbers fl ieee (p ∷ ps)
      → IsNumber (sub (last_of fl p ps).x keep_seconds)
      → Truncated p ps keep_seconds
  truncate-Truncated p ps keep_seconds sorted numbers number =
      let t = sub (last_of fl p ps).x keep_seconds in
      elim (Bool-cases (lt p.x t)) [
        | inr recent ↦ record {
          dropped = [];
          kept = p ∷ ps;
          result = unfold truncate_samples in rw recent;
          split = refl;
          old = tt;
          cutoff = inr (recent, refl);
        }
        | inl old ↦ record {
          dropped = take (rank fl (p ∷ ps) t) (p ∷ ps);
          kept = drop (rank fl (p ∷ ps) t) (p ∷ ps);
          result = truncate_old p ps keep_seconds sorted numbers number old;
          split = sym (take-append-drop (rank fl (p ∷ ps) t) (p ∷ ps));
          old = take-rank fl (p ∷ ps) t;
          cutoff = inl (old, drop-rank (p ∷ ps) t sorted);
        }
      ]
