-- ===== src/App/Stored.antt =====
-- The points that the application stores of the samples of its sampler (src/main.rs).
use ocdscope.Prelude.{
  ℕ, ◌≡◌, refl, sym, ap, Bool, ◌∙◌, inl, inr, true, false, List, [], ◌∷◌, ◌++◌, append_assoc,
  append-nil, ◌==◌, Bool-cases, if◌then◌else◌, arith,
}
use ocdscope.Float.{Floats}
use ocdscope.Sampler.{Sample}
use ocdscope.Buffer.{PlotPoint, SampleBuffer, push}
use ocdscope.Buffer
use ocdscope.App.{OcdScope}
use ocdscope.App.Messages.{time, store, store_all, take_sample, take_samples}

module _ (fl : Floats) where
  open fl use {F64}

  -- The points stored of the signal `id`; a signal without a buffer has none.
  unfoldable pub points_of : ℕ → List (ℕ × SampleBuffer fl) → List (PlotPoint fl)
  points_of id [] = []
  points_of id ((key, b) ∷ bs) = let rest = points_of id bs in if id == key then b.samples else rest

  abbrev pub point : F64 → F64 → PlotPoint fl
  point t y = record { x = t; y = y }

  -- The points of the signal `id` that come with a time, and with a list of samples.
  unfoldable pub points_at : ℕ → F64 → List (ℕ × F64) → List (PlotPoint fl)
  points_at id t [] = []
  points_at id t ((i, y) ∷ values) =
      let rest = points_at id t values in if id == i then point t y ∷ rest else rest

  unfoldable pub points_in : ℕ → List (Sample F64) → List (PlotPoint fl)
  unfolding points_at
  points_in id [] = []
  points_in id ((t, values) ∷ xs) = points_at id (time fl t) values ++ points_in id xs

  points_of-store :
      (id i : ℕ) (t y : F64) (bs : List (ℕ × SampleBuffer fl))
      → points_of id (store fl i t y bs)
        ≡ points_of id bs ++ (if id == i then point t y ∷ [] else [])
  unfolding points_of store push Buffer.new
  points_of-store id i t y [] = refl
  points_of-store id i t y ((key, b) ∷ bs) = elim (Bool-cases (i == key)) [
    | inl e ↦ elim (Bool-cases (id == key)) [
      | inl f ↦
          let g : (id == i) ≡ true = ground arith in rw (points_of, store, e, points_of, f, g) refl
      | inr f ↦
          let g : (id == i) ≡ false = ground arith in
          rw (points_of, store, e, points_of, f, g) (sym (append-nil (points_of id bs)))
    ]
    | inr e ↦ elim (Bool-cases (id == key)) [
      | inl f ↦
          let g : (id == i) ≡ false = ground arith in
          rw (points_of, store, e, points_of, f, g) (sym (append-nil b.samples))
      | inr f ↦ rw (points_of, store, e, points_of, f) (points_of-store id i t y bs)
    ]
  ]

  points_of-store_all :
      (id : ℕ) (t : F64) (values : List (ℕ × F64)) (bs : List (ℕ × SampleBuffer fl))
      → points_of id (store_all fl t values bs) ≡ points_of id bs ++ points_at id t values
  unfolding store_all points_at
  points_of-store_all id t [] bs = sym (append-nil (points_of id bs))
  points_of-store_all id t ((i, y) ∷ values) bs =
      points_of-store_all id t values (store fl i t y bs)
      ∙ ap (λ l. l ++ points_at id t values) (points_of-store id i t y bs)
      ∙ append_assoc (points_of id bs) _ _
      ∙ ap (λ l. points_of id bs ++ l) (go (id == i))
    where
      go :
          (b : Bool)
          → (if b then point t y ∷ [] else []) ++ points_at id t values
            ≡ (if b then point t y ∷ points_at id t values else points_at id t values)
      go true = refl
      go false = refl

  -- Whatever samples are taken, each signal then has the points it had, and behind them a point for
  -- each value of it in the samples, in their order, at the time of its sample.
  pub points_of-take_samples :
      (id : ℕ) (xs : List (Sample F64)) (s : OcdScope fl)
      → points_of id (take_samples fl xs s).samples ≡ points_of id s.samples ++ points_in id xs
  unfolding take_samples take_sample points_in
  points_of-take_samples id [] s = sym (append-nil (points_of id s.samples))
  points_of-take_samples id ((t, values) ∷ xs) s =
      points_of-take_samples id xs (take_sample fl (t, values) s)
      ∙ ap (λ l. l ++ points_in id xs) (points_of-store_all id (time fl t) values s.samples)
      ∙ append_assoc (points_of id s.samples) _ _
