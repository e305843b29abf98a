-- ===== src/Fake/Picking.antt =====
-- The signals that a sample of the fake sampler holds (src/sampler/fakesampler.rs).
use ocdscope.Prelude.{
  ℕ, zero, suc, ◌+◌, ◌<◌, ◌≡◌, refl, ap, ◌⊎◌, inl, inr, true, Option, none, some, List, [], ◌∷◌,
  map, length, get_elem?, Option-cases, All, arith,
}
use ocdscope.Float.{Floats}
use ocdscope.Sampler.{sent, continue, failed_with, invalid_signals}
use ocdscope.Fake.{Waves, pick, Round, Thread, waves_at, send_sample, take_sample}

module _ {A : Type 0} where
  -- The values of the signals `ids`, in their order, each looked up in `ys`.
  record Picked (ys : List A) (ids : List ℕ) (samples : List (ℕ × A)) : Type 0 where
    names : map (λ (s : ℕ × A). s.0) samples ≡ ids
    values : All (λ (s : ℕ × A). get_elem? ys s.0 ≡ some s.1) samples

  get_elem?-in_range : (ys : List A) (i : ℕ) (y : A) → get_elem? ys i ≡ some y → i < length ys
  get_elem?-in_range [] i y e = absurd (cc)
  get_elem?-in_range (x ∷ xs) zero y e = omega arith
  get_elem?-in_range (x ∷ xs) (suc i) y e = omega (arith, get_elem?-in_range xs i y e)

  get_elem?-out_of_range : (ys : List A) (i : ℕ) → get_elem? ys i ≡ none → i < length ys → ⊥
  get_elem?-out_of_range [] i e h = omega arith
  get_elem?-out_of_range (x ∷ xs) zero e h = cc
  get_elem?-out_of_range (x ∷ xs) (suc i) e h = get_elem?-out_of_range xs i e (omega arith)

  -- Either all signals are there and are picked, or one is not there and nothing is.
  abbrev PickCases : List A → List ℕ → Option (List (ℕ × A)) → Type 0
  PickCases ys ids picked =
      (All (λ i. i < length ys) ids
        × ((samples : List (ℕ × A)) × (picked ≡ some samples) × Picked ys ids samples))
      ⊎ ((All (λ i. i < length ys) ids → ⊥) × (picked ≡ none))

  pick-cases : (ys : List A) (ids : List ℕ) → PickCases ys ids (pick ys ids)
  unfolding pick
  pick-cases ys [] = inl (tt, ([], refl, record { names = refl; values = tt }))
  pick-cases ys (i ∷ ids) = elim (Option-cases (get_elem? ys i)) [
    | inl e ↦ inr (λ (h, _). get_elem?-out_of_range ys i e h, rw (pick, e) refl)
    | inr (y, e) ↦ elim (pick-cases ys ids) [
      | inr (h, none_left) ↦ inr (λ (_, k). h k, rw (pick, e, none_left) refl)
      | inl (inside, (samples, found, p)) ↦ inl (
        (get_elem?-in_range ys i y e, inside),
        (
          (i, y) ∷ samples,
          rw (pick, e, found) refl,
          record { names = ap (λ l. i ∷ l) p.names; values = (e, p.values) },
        ),
      )
    ]
  ]

module _ (fl : Floats) (waves : Waves fl) where
  open fl use {F64, add, mul}

  -- The thread after a sample.
  abbrev pub sampled : Thread fl waves → Thread fl waves
  sampled t = record t {
    t = add t.t waves.period_secs;
    last_sampled_at = t.last_sampled_at + waves.period;
  }

  -- With some signals active and the samples received, sampling has one of two results. If all
  -- active signals are below 3, as the available ones are, one sample is sent, with the time of the
  -- thread moved on by one period, and for each active signal, in their order, the wave that it
  -- stands for. Otherwise nothing is sent, and the thread fails as the signals are not valid.
  take_sample-cases :
      (t : Thread fl waves) (r : Round) (id : ℕ) (ids : List ℕ)
      → t.active_ids ≡ id ∷ ids
      → r.samples_open ≡ true
      → r.has_place ≡ true
      → let ys = waves_at fl waves (sampled t).t in
        (All (λ i. i < 3) (id ∷ ids)
          × ((samples : List (ℕ × F64)) × (take_sample fl waves t r ≡ (
            sent (waves.as_u64 (mul (sampled t).t waves.mega), samples) ∷ [],
            continue (sampled t),
          ))
              × Picked ys (id ∷ ids) samples))
        ⊎ ((All (λ i. i < 3) (id ∷ ids) → ⊥)
            × (take_sample fl waves t r ≡ ([], failed_with invalid_signals)))
  unfolding take_sample waves_at send_sample
  take_sample-cases t r id ids a o place =
      elim (pick-cases (waves_at fl waves (sampled t).t) (id ∷ ids)) [
        | inl (inside, (samples, found, p)) ↦
            inl (inside, (samples, rw (a, found, o, place) refl, p))
        | inr (outside, found) ↦ inr (outside, rw (a, found) refl)
      ]
