-- ===== src/App/Handling.antt =====
-- What `handle_messages` of src/main.rs does with the messages of one frame.
use ocdscope.Prelude.{
  ℕ, ◌≡◌, refl, sym, ap, ◌∙◌, ◌||◌, Bool, true, false, none, some, List, [], ◌∷◌, ◌++◌, ok,
  Bool-cases, inl, inr,
}
use mathlib.Core.Path.{subst}
use ocdscope.Float.{Floats, IsIeee}
use ocdscope.Sampler.{Sample}
use ocdscope.Sampler.Commands.{stop}
use ocdscope.Buffer.{PlotPoint, SampleBuffer}
use ocdscope.App.{OcdScope, Handle}
use ocdscope.App.Messages.{
  Inbox, take_notifications, read_notifications, drop_terminated, take_sample, take_samples,
  auto_truncate, read_samples, handle_messages,
}
use ocdscope.App.Notified.{statuses_in, known, ends, has_error, Same, Told, take_notifications-Told}
use ocdscope.App.Stored.{points_of, points_in, points_of-take_samples}
use ocdscope.App.Timed.{
  IsClock, IsAscending, AreTimed, last_time, take_samples-AreTimed, take_samples-last_time,
}
use ocdscope.App.Cutting.{Shortened, truncate_all-AllCut}

module _ (fl : Floats) where
  open fl use {F64}

  pub take_samples_only :
      (xs : List (Sample F64)) (s : OcdScope fl)
      → take_samples fl xs s ≡ record s {
        samples = (take_samples fl xs s).samples;
        max_time = (take_samples fl xs s).max_time;
      }
  unfolding take_samples take_sample
  take_samples_only [] s = refl
  take_samples_only (x ∷ xs) s = take_samples_only xs (take_sample fl x s)

  -- What is kept of points where buffers are truncated, and where they are not.
  abbrev pub Kept : Bool → F64 → List (PlotPoint fl) → List (PlotPoint fl) → Type 0
  Kept true keep_seconds points kept = Shortened fl keep_seconds points kept
  Kept false keep_seconds points kept = kept ≡ points

  -- A frame in which the sampler goes on.
  pub record Received (s : OcdScope fl) (inbox : Inbox fl) (s' : OcdScope fl) : Type 0 where
    pub sampler : s'.current_sampler ≡ s.current_sampler
    pub status :
        s'.current_sampler_status ≡ known s.current_sampler_status (statuses_in inbox.notifications)
    pub error_dialog : s'.show_error_dialog ≡ has_error inbox.notifications || s.show_error_dialog
    pub signals : s'.signals ≡ s.signals
    pub truncates_at : s'.buffer_auto_truncate_at ≡ s.buffer_auto_truncate_at
    pub latest : s'.max_time ≡ last_time fl s.max_time inbox.sampled
    pub in_order : AreTimed fl s'.max_time s'.samples
    pub points :
        (id : ℕ)
        → Kept s.buffer_auto_truncate s.buffer_auto_truncate_at
            (points_of fl id s.samples ++ points_in fl id inbox.sampled)
            (points_of fl id s'.samples)

  -- A frame in which the sampler has terminated.
  pub record Dropped (s : OcdScope fl) (inbox : Inbox fl) (s' : OcdScope fl) : Type 0 where
    pub sampler : s'.current_sampler ≡ none
    pub status :
        s'.current_sampler_status ≡ known s.current_sampler_status (statuses_in inbox.notifications)
    pub error_dialog : s'.show_error_dialog ≡ has_error inbox.notifications || s.show_error_dialog
    pub same : Same fl s s'

  -- If there is a sampler and `Terminated` is among the notifications, the sampler is told to stop and
  -- dropped, and the samples that came with them are not stored. The status is the last one notified,
  -- and the dialog for errors is shown if an error is notified, or if it was shown before.
  pub handle_messages-Dropped :
      (s : OcdScope fl) (inbox : Inbox fl) (sampler : Handle)
      → s.current_sampler ≡ some sampler
      → ends (statuses_in inbox.notifications) ≡ true
      → (s' : OcdScope fl) × (handle_messages fl s inbox ≡ ok (s', stop ∷ [])) × Dropped s inbox s'
  unfolding handle_messages read_notifications drop_terminated read_samples
  handle_messages-Dropped s inbox sampler here over =
      let s0 = record s { current_sampler = none } in
      let (s1, ended) = take_notifications fl inbox.notifications (s0, false) in
      let (told, e, _) = take_notifications-Told fl s0 false inbox.notifications in
      (
        record s1 { current_sampler = none },
        rw (here, e ∙ over) refl,
        record {
          sampler = refl;
          status = told.status;
          error_dialog = told.error_dialog;
          same = told.same;
        },
      )

module _ (fl : Floats) (ieee : IsIeee fl) where
  open fl use {F64}

  auto_truncate-Kept :
      (s : OcdScope fl)
      → IsClock fl ieee s.buffer_auto_truncate_at
      → AreTimed fl s.max_time s.samples
      → (bs : List (ℕ × SampleBuffer fl)) × (auto_truncate fl s ≡ ok (record s { samples = bs }))
        × ((id : ℕ)
            → Kept fl s.buffer_auto_truncate s.buffer_auto_truncate_at
                (points_of fl id s.samples)
                (points_of fl id bs))
        × AreTimed fl s.max_time bs
  unfolding auto_truncate
  auto_truncate-Kept s clock timed = elim (Bool-cases s.buffer_auto_truncate) [
    | inr e ↦ (s.samples, rw (auto_truncate, e) refl, λ id. rw e refl, timed)
    | inl e ↦
        let (bs, cuts, shorter, timeds) =
          truncate_all-AllCut fl ieee s.buffer_auto_truncate_at clock s.max_time s.samples timed in
        (bs, rw (auto_truncate, e, cuts) refl, λ id. rw e (shorter id), timeds)
  ]

  -- The samples of a frame, as a frame without notifications.
  read_samples-Received :
      (s : OcdScope fl) (sampler : Handle) (xs : List (Sample F64))
      → IsClock fl ieee s.buffer_auto_truncate_at
      → AreTimed fl s.max_time s.samples
      → IsAscending fl s.max_time xs
      → (s' : OcdScope fl) × (read_samples fl (some sampler) s xs ≡ ok s')
        × Received fl s (record { notifications = []; sampled = xs }) s'
  unfolding read_samples statuses_in has_error
  read_samples-Received s sampler xs clock timed ascending =
      let (later, _) = take_samples-AreTimed fl xs s ascending timed in
      let s2 = record s {
        samples = (take_samples fl xs s).samples;
        max_time = (take_samples fl xs s).max_time;
      } in
      let (bs, cuts, kept, timeds) = auto_truncate-Kept s2 clock later in
      (
        record s2 { samples = bs },
        ap (auto_truncate fl) (take_samples_only fl xs s) ∙ cuts,
        record {
          sampler = refl;
          status = refl;
          error_dialog = refl;
          signals = refl;
          truncates_at = refl;
          latest = take_samples-last_time fl xs s ascending;
          in_order = timeds;
          points = λ id.
              subst
                (λ ps.
                  Kept fl s.buffer_auto_truncate s.buffer_auto_truncate_at ps (points_of fl id bs))
                (points_of-take_samples fl id xs s) (kept id);
        },
      )

  Received-Told :
      (s s1 s' : OcdScope fl) (inbox : Inbox fl) (sampler : Handle)
      → Told fl s s1 inbox.notifications
      → s1.current_sampler ≡ s.current_sampler
      → Received fl s1 (record { notifications = []; sampled = inbox.sampled }) s'
      → Received fl s inbox s'
  unfolding statuses_in has_error
  Received-Told s s1 s' inbox sampler told here r =
      let (signals, samples, max_time, truncates, at) = told.same in
      record {
        sampler = r.sampler ∙ here;
        status = r.status ∙ told.status;
        error_dialog = r.error_dialog ∙ told.error_dialog;
        signals = r.signals ∙ signals;
        truncates_at = r.truncates_at ∙ at;
        latest = r.latest ∙ ap (λ m. last_time fl m inbox.sampled) max_time;
        in_order = r.in_order;
        points = λ id. rw (sym samples, sym truncates, sym at) (r.points id);
      }

  -- With a sampler that goes on, on buffers in time order and samples that come in time order, none
  -- before `max_time`, a frame does not panic, if times are a clock: numbers as floats, in the order of
  -- their microseconds, and still numbers after the length of the buffers is taken from them. The sampler stays, no command goes to it, and the
  -- status is the last one notified. Each signal has the points it had and behind them those of the
  -- samples, shortened at the front where buffers are truncated; and the buffers are in time order
  -- again, up to the new `max_time`.
  pub handle_messages-Received :
      (s : OcdScope fl) (inbox : Inbox fl) (sampler : Handle)
      → IsClock fl ieee s.buffer_auto_truncate_at
      → s.current_sampler ≡ some sampler
      → ends (statuses_in inbox.notifications) ≡ false
      → AreTimed fl s.max_time s.samples
      → IsAscending fl s.max_time inbox.sampled
      → (s' : OcdScope fl) × (handle_messages fl s inbox ≡ ok (s', [])) × Received fl s inbox s'
  unfolding handle_messages read_notifications drop_terminated
  handle_messages-Received s inbox sampler clock here goes_on timed ascending =
      let s0 = record s { current_sampler = none } in
      let (s1, ended) = take_notifications fl inbox.notifications (s0, false) in
      let (told, e, _) = take_notifications-Told fl s0 false inbox.notifications in
      let (_, samples, max_time, _, at) = told.same in
      let s2 = record s1 { current_sampler = some sampler } in
      let (s', read, r) =
        read_samples-Received s2 sampler inbox.sampled (subst (IsClock fl ieee) (sym at) clock)
          (rw (max_time, samples) timed) (rw max_time ascending) in
      let told' : Told fl s s2 inbox.notifications = record {
        status = told.status;
        error_dialog = told.error_dialog;
        same = told.same;
      } in
      (
        s',
        rw (here, e ∙ goes_on, read) refl,
        Received-Told s s2 s' inbox sampler told' (sym here) r,
      )
