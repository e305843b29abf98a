-- ===== src/App/Frame/Filled.antt =====
-- No buffer of the application (src/main.rs) is ever empty: one is made for its first sample, and
-- truncation leaves the last one.
use ocdscope.Prelude.{
  ◌≤◌, true_ne_false, ℕ, ◌≡◌, ◌≢◌, refl, sym, ap, ◌∙◌, Bool, true, false, Option, none, some, List,
  [], ◌∷◌, ◌++◌, append-nil, ◌==◌, All, Bool-cases, Option-cases, inl, inr, Ensures, Ensures->>=,
}
use mathlib.Core.Path.{subst}
use ocdscope.Float.{Floats, IsIeee}
use ocdscope.Sampler.{Sample}
use ocdscope.Buffer.{PlotPoint, SampleBuffer, push, last_of, truncate}
use ocdscope.Buffer
use ocdscope.App.{OcdScope, Handle}
use ocdscope.App.Messages.{
  Inbox, read_notifications, drop_terminated, handle_messages, time, store, store_all, take_sample,
  take_samples, truncate_all, auto_truncate, read_samples,
}
use ocdscope.App.Timed.{
  take_samples-last_time, last_time, IsClock, IsAscending, IsTimed, AreTimed, take_samples-AreTimed,
}
use ocdscope.App.Cutting.{Shortened, truncate-Cut}
use ocdscope.App.Notified.{Same, take_notifications-Told}
use ocdscope.App.Handling.{take_samples_only}
use ocdscope.App.Drawn.{AreDrawable}

module _ (fl : Floats) where
  open fl use {F64, le, sub}

  -- Every time up to `high` is after itself less `keep_seconds`: with `f64`, as long as the times are
  -- not so large that `keep_seconds` is lost in the rounding.
  abbrev pub IsRecent : ℕ → F64 → Type 0
  IsRecent high keep_seconds =
      (n : ℕ) → n ≤ high → le (time fl n) (sub (time fl n) keep_seconds) ≡ false

  IsTimed-bounded :
      (low high : ℕ) (p : PlotPoint fl) (ps : List (PlotPoint fl))
      → IsTimed fl low high (p ∷ ps)
      → (m : ℕ) × ((last_of fl p ps).x ≡ time fl m) × (m ≤ high)
  IsTimed-bounded low high p [] (n, e, le, h) = (n, e, h)
  IsTimed-bounded low high p (q ∷ qs) (n, e, le, h) = IsTimed-bounded n high q qs h

  abbrev pub AreFilled : List (ℕ × SampleBuffer fl) → Type 0
  AreFilled = All (λ (kb : ℕ × SampleBuffer fl). kb.1.samples ≢ [])

  pub AreDrawable-AreFilled :
      (high : ℕ) (bs : List (ℕ × SampleBuffer fl))
      → AreDrawable fl high bs
      → AreFilled bs × AreTimed fl high bs
  AreDrawable-AreFilled high [] h = (tt, tt)
  AreDrawable-AreFilled high (b ∷ bs) ((f, t), h) =
      let (fs, ts) = AreDrawable-AreFilled high bs h in ((f, fs), (t, ts))

  pub AreFilled-AreDrawable :
      (high : ℕ) (bs : List (ℕ × SampleBuffer fl))
      → AreFilled bs
      → AreTimed fl high bs
      → AreDrawable fl high bs
  AreFilled-AreDrawable high [] _ _ = tt
  AreFilled-AreDrawable high (b ∷ bs) (f, fs) (t, ts) =
      ((f, t), AreFilled-AreDrawable high bs fs ts)

  append-ne-nil : (ps : List (PlotPoint fl)) (p : PlotPoint fl) → ps ++ p ∷ [] ≢ []
  append-ne-nil [] p e = cc
  append-ne-nil (q ∷ ps) p e = cc

  store-AreFilled :
      (id : ℕ) (t y : F64) (bs : List (ℕ × SampleBuffer fl))
      → AreFilled bs
      → AreFilled (store fl id t y bs)
  unfolding store push Buffer.new
  store-AreFilled id t y [] h = (append-ne-nil [] _, tt)
  store-AreFilled id t y ((key, b) ∷ bs) (f, h) = elim (Bool-cases (id == key)) [
    | inl e ↦ rw (store, e) (append-ne-nil b.samples _, h)
    | inr e ↦ rw (store, e) (f, store-AreFilled id t y bs h)
  ]

  store_all-AreFilled :
      (t : F64) (values : List (ℕ × F64)) (bs : List (ℕ × SampleBuffer fl))
      → AreFilled bs
      → AreFilled (store_all fl t values bs)
  unfolding store_all
  store_all-AreFilled t [] bs h = h
  store_all-AreFilled t ((id, y) ∷ values) bs h =
      store_all-AreFilled t values (store fl id t y bs) (store-AreFilled id t y bs h)

  take_samples-AreFilled :
      (xs : List (Sample F64)) (s : OcdScope fl)
      → AreFilled s.samples
      → AreFilled (take_samples fl xs s).samples
  unfolding take_samples take_sample
  take_samples-AreFilled [] s h = h
  take_samples-AreFilled ((t, values) ∷ xs) s h =
      take_samples-AreFilled xs (take_sample fl (t, values) s)
        (store_all-AreFilled (time fl t) values s.samples h)

  All-last_of :
      (P : PlotPoint fl → Type 0) (p : PlotPoint fl) (ps : List (PlotPoint fl))
      → All P (p ∷ ps)
      → P (last_of fl p ps)
  All-last_of P p [] (h, _) = h
  All-last_of P p (q ∷ qs) (_, h) = All-last_of P q qs h

module _ (fl : Floats) (ieee : IsIeee fl) (keep_seconds : fl.F64) (high : ℕ)
    (clock : IsClock fl ieee keep_seconds) (recent : IsRecent fl high keep_seconds) where
  open fl use {F64, le, sub}

  truncate-filled :
      (b : SampleBuffer fl)
      → b.samples ≢ []
      → IsTimed fl 0 high b.samples
      → Ensures (truncate fl b keep_seconds) (λ b'. b'.samples ≢ [])
  truncate-filled b some_point timed = go b.samples refl
    where
      go :
          (ps : List (PlotPoint fl))
          → b.samples ≡ ps
          → Ensures (truncate fl b keep_seconds) (λ b'. b'.samples ≢ [])
      go [] e = absurd (some_point e)
      go (p ∷ ps) e =
          let (kept, cut, shorter, _) = truncate-Cut fl ieee keep_seconds clock high b timed in
          rw cut (λ gone.
            let (dropped, split, old) = subst (λ l. Shortened fl keep_seconds l kept) e shorter in
            let all : p ∷ ps ≡ dropped = split ∙ ap (λ l. dropped ++ l) gone ∙ append-nil dropped in
            let (m, f, bound) =
              IsTimed-bounded fl 0 high p ps (subst (IsTimed fl 0 high) e timed) in
            let last =
              All-last_of fl
                (λ (q : PlotPoint fl). le q.x (sub (last_of fl p ps).x keep_seconds) ≡ true) p ps
                (subst
                  (All (λ (q : PlotPoint fl). le q.x (sub (last_of fl p ps).x keep_seconds) ≡ true))
                  (sym all) old) in
            true_ne_false
              (sym (subst (λ x. le x (sub x keep_seconds) ≡ true) f last) ∙ recent m bound))

  truncate_all-AreFilled :
      (bs : List (ℕ × SampleBuffer fl))
      → AreFilled fl bs
      → AreTimed fl high bs
      → Ensures (truncate_all fl keep_seconds bs) (AreFilled fl)
  unfolding truncate_all
  truncate_all-AreFilled [] f h = tt
  truncate_all-AreFilled ((key, b) ∷ bs) (fb, f) (hb, h) =
      Ensures->>= (λ (b' : SampleBuffer fl). b'.samples ≢ []) (AreFilled fl)
        (truncate fl b keep_seconds) _ (truncate-filled b fb hb)
        (λ b' fb'.
          Ensures->>= (AreFilled fl) (AreFilled fl) (truncate_all fl keep_seconds bs) _
            (truncate_all-AreFilled bs f h) (λ bs' f'. (fb', f')))

module _ (fl : Floats) (ieee : IsIeee fl) where
  auto_truncate-AreFilled :
      (s : OcdScope fl)
      → IsClock fl ieee s.buffer_auto_truncate_at
      → IsRecent fl s.max_time s.buffer_auto_truncate_at
      → AreFilled fl s.samples
      → AreTimed fl s.max_time s.samples
      → Ensures (auto_truncate fl s) (λ (s' : OcdScope fl). AreFilled fl s'.samples)
  unfolding auto_truncate
  auto_truncate-AreFilled s clock recent f h = elim (Bool-cases s.buffer_auto_truncate) [
    | inr e ↦ rw (auto_truncate, e) f
    | inl e ↦
        rw (auto_truncate, e)
          (Ensures->>= (AreFilled fl) (λ (s' : OcdScope fl). AreFilled fl s'.samples)
            (truncate_all fl s.buffer_auto_truncate_at s.samples) _
            (truncate_all-AreFilled fl ieee s.buffer_auto_truncate_at s.max_time clock recent
              s.samples f h)
            (λ bs fs. fs))
  ]

  read_samples-AreFilled :
      (o : Option Handle) (s : OcdScope fl) (xs : List (Sample fl.F64))
      → IsClock fl ieee s.buffer_auto_truncate_at
      → IsRecent fl (last_time fl s.max_time xs) s.buffer_auto_truncate_at
      → AreFilled fl s.samples
      → AreTimed fl s.max_time s.samples
      → IsAscending fl s.max_time xs
      → Ensures (read_samples fl o s xs) (λ (s' : OcdScope fl). AreFilled fl s'.samples)
  unfolding read_samples
  read_samples-AreFilled none s xs clock recent f h ascending = f
  read_samples-AreFilled (some sampler) s xs clock recent f h ascending =
      let s1 = take_samples fl xs s in
      let same : s1.buffer_auto_truncate_at ≡ s.buffer_auto_truncate_at =
        ap (λ (s : OcdScope fl). s.buffer_auto_truncate_at) (take_samples_only fl xs s) in
      auto_truncate-AreFilled s1 (subst (IsClock fl ieee) (sym same) clock)
        (rw (same, take_samples-last_time fl xs s ascending) recent)
        (take_samples-AreFilled fl xs s f) (take_samples-AreTimed fl xs s ascending h).0

  read_notifications-Same :
      (o : Option Handle) (s : OcdScope fl) (inbox : Inbox fl)
      → Same fl s (read_notifications fl o s inbox.notifications).0
  unfolding read_notifications
  read_notifications-Same none s inbox = (refl, refl, refl, refl, refl)
  read_notifications-Same (some sampler) s inbox =
      (take_notifications-Told fl (record s { current_sampler = none }) false
        inbox.notifications).0.same

  drop_terminated-Same :
      (s : OcdScope fl) (b : Bool) → Ensures (drop_terminated fl (s, b)) (λ r. Same fl s r.0)
  unfolding drop_terminated
  drop_terminated-Same s false = (refl, refl, refl, refl, refl)
  drop_terminated-Same s true = elim (Option-cases s.current_sampler) [
    | inl e ↦ rw (drop_terminated, e) tt
    | inr (sampler, e) ↦ rw (drop_terminated, e) (refl, refl, refl, refl, refl)
  ]

  -- The messages of a frame leave no buffer empty.
  pub handle_messages-AreFilled :
      (s : OcdScope fl) (inbox : Inbox fl)
      → IsClock fl ieee s.buffer_auto_truncate_at
      → IsRecent fl (last_time fl s.max_time inbox.sampled) s.buffer_auto_truncate_at
      → AreFilled fl s.samples
      → AreTimed fl s.max_time s.samples
      → IsAscending fl s.max_time inbox.sampled
      → Ensures (handle_messages fl s inbox) (λ r. AreFilled fl r.0.samples)
  unfolding handle_messages
  handle_messages-AreFilled s inbox clock recent f h ascending =
      let told = read_notifications fl s.current_sampler s inbox.notifications in
      let (_, samples, max_time, _, at) = read_notifications-Same s.current_sampler s inbox in
      Ensures->>= (λ (r : OcdScope fl × _). Same fl told.0 r.0)
        (λ (r : OcdScope fl × _). AreFilled fl r.0.samples) (drop_terminated fl told) _
        (drop_terminated-Same told.0 told.1)
        (λ r (_, samples', max_time', _, at').
          Ensures->>= (λ (s' : OcdScope fl). AreFilled fl s'.samples)
            (λ (r : OcdScope fl × _). AreFilled fl r.0.samples)
            (read_samples fl r.0.current_sampler r.0 inbox.sampled) _
            (read_samples-AreFilled r.0.current_sampler r.0 inbox.sampled
              (subst (IsClock fl ieee) (sym (at' ∙ at)) clock)
              (rw (at' ∙ at, max_time' ∙ max_time) recent)
              (subst (AreFilled fl) (sym (samples' ∙ samples)) f)
              (rw (samples' ∙ samples, max_time' ∙ max_time) h)
              (subst (λ m. IsAscending fl m inbox.sampled) (sym (max_time' ∙ max_time)) ascending))
            (λ s' k. k))
