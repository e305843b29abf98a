-- ===== src/App/Timed.antt =====
-- The times of the stored points (src/main.rs): the buffers stay in time order, so that truncation
-- does not panic.
use ocdscope.Prelude.{
  ℕ, zero, suc, ◌≤◌, ◌≡◌, refl, sym, ap, ◌∙◌, inl, inr, true, some, List, [], ◌∷◌, ◌++◌, ltb, ◌==◌,
  if◌then◌else◌, get_elem?, All, Bool-cases, arith,
}
use mathlib.Core.Path.{subst}
use ocdscope.Float.{Floats, IsIeee}
use ocdscope.Sampler.{Sample}
use ocdscope.Buffer.{PlotPoint, Run, SampleBuffer, push, last_of, truncate_samples, truncate}
use ocdscope.Buffer
use ocdscope.App.{OcdScope}
use ocdscope.App.Messages.{time, store, store_all, take_sample, take_samples}

-- What the times of samples are in floating point: numbers, in the order of the microseconds, and
-- still numbers after `keep_seconds` is taken from them.
pub record IsClock (fl : Floats) (ieee : IsIeee fl) (keep_seconds : fl.F64) : Type 0 where
  pub time-IsNumber : (n : ℕ) → ieee.IsNumber (time fl n)
  pub time_mono : (m n : ℕ) → m ≤ n → fl.le (time fl m) (time fl n) ≡ true
  pub cutoff-IsNumber : (n : ℕ) → ieee.IsNumber (fl.sub (time fl n) keep_seconds)

module _ (fl : Floats) where
  open fl use {F64, le, sub}

  -- The points have times from `low` to `high` microseconds, in order.
  abbrev pub IsTimed : ℕ → ℕ → List (PlotPoint fl) → Type 0
  IsTimed low high [] = low ≤ high
  IsTimed low high (p ∷ ps) = (n : ℕ) × (p.x ≡ time fl n) × (low ≤ n) × IsTimed n high ps

  -- The samples come in the order of their times, none before `low`.
  abbrev pub IsAscending : ℕ → List (Sample F64) → Type 0
  IsAscending low [] = Unit
  IsAscending low ((t, values) ∷ xs) = (low ≤ t) × IsAscending t xs

  -- The time of the last sample.
  abbrev pub last_time : ℕ → List (Sample F64) → ℕ
  last_time low [] = low
  last_time low ((t, values) ∷ xs) = last_time t xs

  pub IsAscending-append :
      (low : ℕ) (xs ys : List (Sample F64))
      → IsAscending low (xs ++ ys)
      → IsAscending low xs × IsAscending (last_time low xs) ys
  IsAscending-append low [] ys h = (tt, h)
  IsAscending-append low ((t, values) ∷ xs) ys (k, h) =
      let (left, right) = IsAscending-append t xs ys h in ((k, left), right)

  -- Every buffer is in time order, up to the time `high`.
  abbrev pub AreTimed : ℕ → List (ℕ × SampleBuffer fl) → Type 0
  AreTimed high = All (λ (kb : ℕ × SampleBuffer fl). IsTimed 0 high kb.1.samples)

  IsTimed-bounds : (low high : ℕ) (ps : List (PlotPoint fl)) → IsTimed low high ps → low ≤ high
  IsTimed-bounds low high [] h = h
  IsTimed-bounds low high (p ∷ ps) (n, _, le, h) = omega (arith, IsTimed-bounds n high ps h)

  IsTimed-later :
      (low high high' : ℕ) (ps : List (PlotPoint fl))
      → high ≤ high'
      → IsTimed low high ps
      → IsTimed low high' ps
  IsTimed-later low high high' [] k h = omega arith
  IsTimed-later low high high' (p ∷ ps) k (n, e, le, h) =
      (n, e, le, IsTimed-later n high high' ps k h)

  IsTimed-push :
      (low high t : ℕ) (y : F64) (ps : List (PlotPoint fl))
      → high ≤ t
      → IsTimed low high ps
      → IsTimed low t (ps ++ record { x = time fl t; y = y } ∷ [])
  IsTimed-push low high t y [] k h = (t, refl, omega arith, omega arith)
  IsTimed-push low high t y (p ∷ ps) k (n, e, le, h) = (n, e, le, IsTimed-push n high t y ps k h)

  IsTimed-lower :
      (low low' high : ℕ) (ps : List (PlotPoint fl))
      → low' ≤ low
      → IsTimed low high ps
      → IsTimed low' high ps
  IsTimed-lower low low' high [] k h = omega arith
  IsTimed-lower low low' high (p ∷ ps) k (n, e, le, h) = (n, e, omega arith, h)

  pub IsTimed-append_right :
      (low high : ℕ) (ps qs : List (PlotPoint fl))
      → IsTimed low high (ps ++ qs)
      → IsTimed low high qs
  IsTimed-append_right low high [] qs h = h
  IsTimed-append_right low high (p ∷ ps) qs (n, e, le, h) =
      IsTimed-lower n low high qs le (IsTimed-append_right n high ps qs h)

  pub IsTimed-get_elem? :
      (low high j : ℕ) (ps : List (PlotPoint fl)) (q : PlotPoint fl)
      → IsTimed low high ps
      → get_elem? ps j ≡ some q
      → (m : ℕ) × (q.x ≡ time fl m) × (low ≤ m)
  IsTimed-get_elem? low high j [] q h e = absurd (cc)
  IsTimed-get_elem? low high zero (p ∷ ps) q (n, e', le, h) e =
      let same : p ≡ q = cc in (n, ap (λ (r : PlotPoint fl). r.x) (sym same) ∙ e', le)
  IsTimed-get_elem? low high (suc j) (p ∷ ps) q (n, e', le, h) e =
      let (m, f, k) = IsTimed-get_elem? n high j ps q h e in (m, f, omega arith)

  pub IsTimed-last_of :
      (low high : ℕ) (p : PlotPoint fl) (ps : List (PlotPoint fl))
      → IsTimed low high (p ∷ ps)
      → (m : ℕ) × ((last_of fl p ps).x ≡ time fl m)
  IsTimed-last_of low high p [] (n, e, le, h) = (n, e)
  IsTimed-last_of low high p (q ∷ qs) (n, e, le, h) = IsTimed-last_of n high q qs h

  AreTimed-later :
      (high high' : ℕ) (bs : List (ℕ × SampleBuffer fl))
      → high ≤ high'
      → AreTimed high bs
      → AreTimed high' bs
  AreTimed-later high high' [] k h = tt
  AreTimed-later high high' ((i, b) ∷ bs) k (hb, h) =
      (IsTimed-later 0 high high' b.samples k hb, AreTimed-later high high' bs k h)

  AreTimed-store :
      (high t i : ℕ) (y : F64) (bs : List (ℕ × SampleBuffer fl))
      → high ≤ t
      → AreTimed high bs
      → AreTimed t (store fl i (time fl t) y bs)
  unfolding store push Buffer.new
  AreTimed-store high t i y [] k h = (IsTimed-push 0 high t y [] k (omega arith), tt)
  AreTimed-store high t i y ((j, b) ∷ bs) k (hb, h) = elim (Bool-cases (i == j)) [
    | inl e ↦ rw (store, e) (IsTimed-push 0 high t y b.samples k hb, AreTimed-later high t bs k h)
    | inr e ↦
        rw (store, e) (IsTimed-later 0 high t b.samples k hb, AreTimed-store high t i y bs k h)
  ]

  AreTimed-store_all :
      (high t : ℕ) (values : List (ℕ × F64)) (bs : List (ℕ × SampleBuffer fl))
      → high ≤ t
      → AreTimed high bs
      → AreTimed t (store_all fl (time fl t) values bs)
  unfolding store_all
  AreTimed-store_all high t [] bs k h = AreTimed-later high t bs k h
  AreTimed-store_all high t ((i, y) ∷ values) bs k h =
      AreTimed-store_all t t values _ (omega arith) (AreTimed-store high t i y bs k h)

  -- Samples in the order of their times, none before `max_time`, leave every buffer in time order up
  -- to the new `max_time`, which is not before the old one.
  pub take_samples-AreTimed :
      (xs : List (Sample F64)) (s : OcdScope fl)
      → IsAscending s.max_time xs
      → AreTimed s.max_time s.samples
      → AreTimed (take_samples fl xs s).max_time (take_samples fl xs s).samples
        × (s.max_time ≤ (take_samples fl xs s).max_time)
  unfolding take_samples take_sample
  take_samples-AreTimed [] s _ h = (h, omega arith)
  take_samples-AreTimed ((t, values) ∷ xs) s (k, a) h =
      let latest : (if ltb s.max_time t then t else s.max_time) ≡ t = ground arith in
      let (timed, later) =
        take_samples-AreTimed xs (take_sample fl (t, values) s)
          (subst (λ m. IsAscending m xs) (sym latest) a)
          (subst (λ m. AreTimed m (store_all fl (time fl t) values s.samples)) (sym latest)
            (AreTimed-store_all s.max_time t values s.samples k h)) in
      (timed, omega (arith, latest))

  pub take_samples-last_time :
      (xs : List (Sample F64)) (s : OcdScope fl)
      → IsAscending s.max_time xs
      → (take_samples fl xs s).max_time ≡ last_time s.max_time xs
  unfolding take_samples take_sample
  take_samples-last_time [] s _ = refl
  take_samples-last_time ((t, values) ∷ xs) s (k, a) =
      let latest : (if ltb s.max_time t then t else s.max_time) ≡ t = ground arith in
      take_samples-last_time xs (take_sample fl (t, values) s)
        (subst (λ m. IsAscending m xs) (sym latest) a)
      ∙ ap (λ m. last_time m xs) latest
