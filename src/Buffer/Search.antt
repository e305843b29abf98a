-- ===== src/Buffer/Search.antt =====
-- `index_before_at` of src/buffer.rs, against counting the samples that are not after `t`.
use ocdscope.Prelude.{
  true_ne_false, ℕ, zero, suc, ◌+◌, ◌/◌, ◌≤◌, ◌<◌, ◌≡◌, refl, sym, ap, ◌∙◌, ◌⊎◌, inl, inr, true,
  false, Option, none, some, List, [], ◌∷◌, ltb, lt→ltb, length, get_elem?, ok, err, All, arith,
  Bool-cases,
}
use mathlib.Core.Path.{subst}
use ocdscope.Float.{Floats, IsIeee}
use ocdscope.Buffer.{PlotPoint, running, search, index_before_at}

module _ (fl : Floats) where
  open fl use {F64, lt, le}

  -- How many samples from the first on are not after `t`.
  unfoldable pub rank : List (PlotPoint fl) → F64 → ℕ
  rank [] t = 0
  rank (p ∷ ps) t = elim (le p.x t) [ true ↦ suc (rank ps t) | false ↦ 0 ]

  -- The index of the last of them.
  abbrev pub before : ℕ → Option ℕ
  before zero = none
  before (suc n) = some n

  abbrev pub IsSorted : List (PlotPoint fl) → Type 0
  IsSorted samples =
      (i j : ℕ) (p q : PlotPoint fl)
      → i ≤ j
      → get_elem? samples i ≡ some p
      → get_elem? samples j ≡ some q
      → le p.x q.x ≡ true

  pub in_range :
      (samples : List (PlotPoint fl)) (i : ℕ)
      → i < length samples
      → (p : PlotPoint fl) × (get_elem? samples i ≡ some p)
  in_range [] i h = absurd (omega arith)
  in_range (q ∷ qs) zero h = (q, refl)
  in_range (q ∷ qs) (suc i) h = in_range qs i (omega arith)

  out_of_range :
      (samples : List (PlotPoint fl)) (i : ℕ) → length samples ≤ i → get_elem? samples i ≡ none
  out_of_range [] i h = refl
  out_of_range (p ∷ ps) zero h = absurd (omega arith)
  out_of_range (p ∷ ps) (suc i) h = out_of_range ps i (omega arith)

module _ (fl : Floats) (ieee : IsIeee fl) where
  open fl use {F64, lt, le}
  open ieee use {IsNumber, lt_or_ge, not_le, le_trans}

  abbrev pub AreNumbers : List (PlotPoint fl) → Type 0
  AreNumbers samples = All (λ (p : PlotPoint fl). IsNumber p.x) samples

  get_elem?-IsNumber :
      (samples : List (PlotPoint fl)) (i : ℕ) {p : PlotPoint fl}
      → AreNumbers samples
      → get_elem? samples i ≡ some p
      → IsNumber p.x
  get_elem?-IsNumber [] i h e = absurd (cc)
  get_elem?-IsNumber (q ∷ qs) zero {p} (hq, h) e =
      let same : q ≡ p = cc in subst (λ (r : PlotPoint fl). IsNumber r.x) same hq
  get_elem?-IsNumber (q ∷ qs) (suc i) (hq, h) e = get_elem?-IsNumber qs i h e

  -- Samples up to `i` are not after `t`; samples from `i` on are after it.
  abbrev NotAfter : List (PlotPoint fl) → F64 → ℕ → Type 0
  NotAfter samples t i = (p : PlotPoint fl) → get_elem? samples i ≡ some p → le p.x t ≡ true

  abbrev After : List (PlotPoint fl) → F64 → ℕ → Type 0
  After samples t i = (p : PlotPoint fl) → get_elem? samples i ≡ some p → le p.x t ≡ false

  -- The loop keeps: `a` is 0 or not after `t`, and `b` is the end or after `t`.
  record Inv (samples : List (PlotPoint fl)) (t : F64) (a b : ℕ) : Type 0 where
    ordered : a < b
    inside : b ≤ length samples
    low : (a ≡ 0) ⊎ NotAfter samples t a
    high : After samples t b

  none-some : (q : PlotPoint fl) → ◌≡◌ {A = Option (PlotPoint fl)} none (some q) → ⊥
  none-some q e = cc

  -- The test of a round, on a sample that is a number.
  pub tested :
      (t x : F64)
      → IsNumber t
      → IsNumber x
      → (lt t x ≡ true) × (le x t ≡ false) ⊎ (lt t x ≡ false) × (le x t ≡ true)
  tested t x number numberx = elim (Bool-cases (lt t x)) [
    | inl e ↦ inl (e, not_le t x e)
    | inr e ↦ elim (lt_or_ge t x number numberx) [
      | inl q ↦ absurd (true_ne_false (sym q ∙ e))
      | inr q ↦ inr (e, q)
    ]
  ]

  -- The loop ends with neighbours, without a panic, in as many rounds as the range is wide.
  search-Inv :
      (fuel : ℕ) (samples : List (PlotPoint fl)) (t : F64) (a b : ℕ)
      → AreNumbers samples
      → IsNumber t
      → Inv samples t a b
      → b ≤ a + fuel
      → (r : ℕ) × (search fl fuel samples t a b ≡ ok r) × Inv samples t r (r + 1)
  unfolding search
  search-Inv zero samples t a b numbers number inv enough = absurd (omega (arith, inv.ordered))
  search-Inv (suc fuel) samples t a b numbers number inv enough =
      elim (Bool-cases (ltb (a + 1) b)) [
        | inr ended ↦
            let end : b ≡ a + 1 = ground (arith, inv.ordered) in
            (a, rw (search, ended), subst (Inv samples t a) end inv)
        | inl wide ↦
            let i = (a + b) / 2 in
            let apart : a + 1 < b = ground arith in
            let (p, read) = in_range fl samples i (omega (arith, inv.inside)) in
            elim (tested t p.x number (get_elem?-IsNumber samples i numbers read)) [
              | inl (later, ge) ↦
                  let inv' : Inv samples t a i = record {
                    ordered = omega arith;
                    inside = omega (arith, inv.inside);
                    low = inv.low;
                    high = λ q e. let same : q ≡ p = cc in rw same ge;
                  } in
                  let (r, run, kept) =
                    search-Inv fuel samples t a i numbers number inv' (omega arith) in
                  (r, rw (search, wide, read, later) run, kept)
              | inr (later, ge) ↦
                  let inv' : Inv samples t i b = record {
                    ordered = omega arith;
                    inside = inv.inside;
                    low = inr (λ q e. let same : q ≡ p = cc in rw same ge);
                    high = inv.high;
                  } in
                  let (r, run, kept) =
                    search-Inv fuel samples t i b numbers number inv' (omega arith) in
                  (r, rw (search, wide, read, later, ge) run, kept)
            ]
      ]

  -- A sample that is not after `t` has none in front of it that is.
  rank_unique :
      (samples : List (PlotPoint fl)) (t : F64) (r : ℕ)
      → r < length samples
      → ((i : ℕ) → i ≤ r → NotAfter samples t i)
      → After samples t (r + 1)
      → rank fl samples t ≡ suc r
  unfolding rank
  rank_unique [] t r h low high = absurd (omega arith)
  rank_unique (p ∷ []) t zero h low high = rw (rank, low 0 (omega arith) p refl)
  rank_unique (p ∷ q ∷ qs) t zero h low high = rw (rank, low 0 (omega arith) p refl, high q refl)
  rank_unique (p ∷ ps) t (suc r) h low high =
      rw (rank, low 0 (omega arith) p refl)
        (ap suc (
          rank_unique ps t r (omega arith) (λ i le_r. low (suc i) (omega arith))
            (λ q e. high q (
              let shift : suc r + 1 ≡ suc (r + 1) = omega arith in
              ap (get_elem? (p ∷ ps)) shift ∙ e))))

  rank_first :
      (p : PlotPoint fl) (ps : List (PlotPoint fl)) (t : F64)
      → le p.x t ≡ false
      → rank fl (p ∷ ps) t ≡ 0
  unfolding rank
  rank_first p ps t e = rw (rank, e)

  -- The end of the search: `r` is the index found, and `q` the sample there.
  module _ (p : PlotPoint fl) (ps : List (PlotPoint fl)) (t : F64) (r : ℕ) (q : PlotPoint fl)
      (run : search fl (suc (length (p ∷ ps))) (p ∷ ps) t 0 (length (p ∷ ps)) ≡ ok r)
      (inv : Inv (p ∷ ps) t r (r + 1)) (read : get_elem? (p ∷ ps) r ≡ some q) where
    found_none :
        lt t q.x ≡ true
        → le q.x t ≡ false
        → index_before_at fl (p ∷ ps) t ≡ ok (before fl (rank fl (p ∷ ps) t))
    unfolding index_before_at
    found_none later gt = elim inv.low [
      | inr low ↦ absurd (true_ne_false (sym (low q read) ∙ gt))
      | inl zero_r ↦
          let at_zero : get_elem? (p ∷ ps) r ≡ some p = ap (get_elem? (p ∷ ps)) zero_r in
          let same : p ≡ q = cc in
          rw (run, read, later, rank_first p ps t (ap (λ (z : PlotPoint fl). le z.x t) same ∙ gt))
    ]

    found_some :
        IsSorted fl (p ∷ ps)
        → lt t q.x ≡ false
        → le q.x t ≡ true
        → index_before_at fl (p ∷ ps) t ≡ ok (before fl (rank fl (p ∷ ps) t))
    unfolding index_before_at
    found_some sorted later ge =
        let within : r < length (p ∷ ps) = omega (arith, inv.inside) in
        let counted : rank fl (p ∷ ps) t ≡ suc r =
          rank_unique (p ∷ ps) t r within
            (λ i le_r z e. le_trans z.x q.x t (sorted i r z q le_r e read) ge) inv.high in
        rw (run, read, later, lt→ltb r (length (p ∷ ps)) within, counted)

  -- On a non-empty buffer of numbers in time order, and for a time that is a number, the search
  -- ends, does not panic, and finds the last sample that is not after the time, or nothing if all
  -- are after it.
  pub index_before_at_lem :
      (p : PlotPoint fl) (ps : List (PlotPoint fl)) (t : F64)
      → IsSorted fl (p ∷ ps)
      → AreNumbers (p ∷ ps)
      → IsNumber t
      → index_before_at fl (p ∷ ps) t ≡ ok (before fl (rank fl (p ∷ ps) t))
  index_before_at_lem p ps t sorted numbers number =
      let samples = p ∷ ps in
      let start : Inv samples t 0 (length samples) = record {
        ordered = omega arith;
        inside = omega arith;
        low = inl refl;
        high = λ q e.
            absurd (none-some q (sym (out_of_range fl samples (length samples) (omega arith)) ∙ e));
      } in
      let (r, run, inv) =
        search-Inv (suc (length samples)) samples t 0 (length samples) numbers number start
          (omega arith) in
      let (q, read) = in_range fl samples r (omega (arith, inv.inside)) in
      elim (tested t q.x number (get_elem?-IsNumber samples r numbers read)) [
        | inl (later, gt) ↦ found_none p ps t r q run inv read later gt
        | inr (later, ge) ↦ found_some p ps t r q run inv read sorted later ge
      ]

module _ (fl : Floats) where
  open fl use {F64, lt, le}

  -- Both comparisons with `t` fail, as they do where `t` is NaN.
  abbrev pub IsIncomparable : F64 → Type 0
  IsIncomparable t = (x : F64) → (lt t x ≡ false) × (le x t ≡ false)

  -- With a time that is incomparable to all others, as NaN is, the search between two indices that
  -- are not neighbours does not end: it is still running after any number of rounds.
  pub search_nan :
      (fuel : ℕ) (samples : List (PlotPoint fl)) (t : F64) (a b : ℕ)
      → IsIncomparable t
      → a + 1 < b
      → b ≤ length samples
      → search fl fuel samples t a b ≡ err running
  unfolding search
  search_nan zero samples t a b nan wide inside = refl
  search_nan (suc fuel) samples t a b nan wide inside =
      let (p, read) = in_range fl samples ((a + b) / 2) (omega arith) in
      rw (search, lt→ltb (a + 1) b wide, read, (nan p.x).0, (nan p.x).1)
        (search_nan fuel samples t a b nan wide inside)
