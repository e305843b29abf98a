-- ===== src/App/Delivery.antt =====
-- The messages of a sampler thread (src/sampler/) as they come to the application (src/main.rs) in one
-- frame after another.
mod Tests
use ocdscope.Prelude.{
  ◌≡◌, ◌≢◌, refl, sym, ap, ◌∙◌, ◌⊎◌, inl, inr, Bool, true, false, Option, none, some, List, [], ◌∷◌,
  ◌++◌, Outcome, ok, ◌>>=◌, Bool-cases,
}
use mathlib.Core.Path.{subst}
use ocdscope.Float.{Floats, IsIeee}
use ocdscope.Sampler.{
  Status, initializing, terminated, Notification, new_status, rate_info, info, error, Sample,
}
use ocdscope.Sampler.Commands.{Command, stop}
use ocdscope.Sampler.Lifecycle.{statuses}
use ocdscope.Sampler.History.{Leads, IsHistory, last_status, IsHistory-split, last_status-append}
use ocdscope.Buffer.{Run}
use ocdscope.App.{OcdScope, Handle}
use ocdscope.App.Messages.{
  Inbox, read_notifications, drop_terminated, read_samples, handle_messages,
}
use ocdscope.App.Notified.{statuses_in, known, ends}
use ocdscope.App.Timed.{IsClock, IsAscending, IsAscending-append, AreTimed, last_time}
use ocdscope.App.Handling.{handle_messages-Dropped, handle_messages-Received}
use ocdscope.App.Starting.{Started, progress, progress-Leads}
use ocdscope.App.Following.{
  notifications_of, samples_of, statuses_in-notifications_of, known-last_status, stays_terminated,
  last_status-ends,
}

statuses_in-append :
    (ns ms : List Notification) → statuses_in (ns ++ ms) ≡ statuses_in ns ++ statuses_in ms
unfolding statuses_in
statuses_in-append [] ms = refl
statuses_in-append (new_status s ∷ ns) ms = ap (λ l. s ∷ l) (statuses_in-append ns ms)
statuses_in-append (rate_info n m ∷ ns) ms = statuses_in-append ns ms
statuses_in-append (info m ∷ ns) ms = statuses_in-append ns ms
statuses_in-append (error f ∷ ns) ms = statuses_in-append ns ms

known-append :
    (o : Option Status) (xs ys : List Status) → known o (xs ++ ys) ≡ known (known o xs) ys
known-append o [] ys = refl
known-append o (x ∷ xs) ys = known-append (some x) xs ys

-- What was known before does not matter once a status is notified.
known_anew :
    (o : Option Status) (s : Status) (xs : List Status)
    → xs ≢ []
    → known o xs ≡ some (last_status s xs)
known_anew o s [] h = absurd (h refl)
known_anew o s (x ∷ xs) h = known-last_status x xs

ends-ne : (xs : List Status) → ends xs ≡ true → xs ≢ []
unfolding ends
ends-ne [] e h = absurd (cc)
ends-ne (x ∷ xs) e h = cc

module _ (fl : Floats) where
  open fl use {F64}

  -- `handle_messages` of one frame after another, in which nothing is clicked.
  unfoldable pub handle_frames : OcdScope fl → List (Inbox fl) → Run (OcdScope fl × List Command)
  handle_frames s [] = ok (s, [])
  handle_frames s (inbox ∷ inboxes) = do
    first ← handle_messages fl s inbox
    later ← handle_frames first.0 inboxes
    ok (later.0, first.1 ++ later.1)

  abbrev pub notified_in : List (Inbox fl) → List Notification
  notified_in [] = []
  notified_in (inbox ∷ inboxes) = inbox.notifications ++ notified_in inboxes

  abbrev pub sampled_in : List (Inbox fl) → List (Sample F64)
  sampled_in [] = []
  sampled_in (inbox ∷ inboxes) = inbox.sampled ++ sampled_in inboxes

  -- Without a sampler no messages are read.
  handle_messages-idle :
      (s : OcdScope fl) (inbox : Inbox fl)
      → s.current_sampler ≡ none
      → handle_messages fl s inbox ≡ ok (s, [])
  unfolding handle_messages read_notifications drop_terminated read_samples
  handle_messages-idle s inbox e =
      ap
        (λ o. drop_terminated fl (read_notifications fl o s inbox.notifications) >>= λ told.
          read_samples fl told.0.current_sampler told.0 inbox.sampled >>= λ s'. ok (s', told.1))
        e
      ∙ ap (λ o. read_samples fl o s inbox.sampled >>= λ s'. ok (s', [])) e

  handle_frames_idle :
      (s : OcdScope fl) (inboxes : List (Inbox fl))
      → s.current_sampler ≡ none
      → handle_frames s inboxes ≡ ok (s, [])
  unfolding handle_frames
  handle_frames_idle s [] e = refl
  handle_frames_idle s (inbox ∷ inboxes) e =
      rw (handle_messages-idle s inbox e, handle_frames_idle s inboxes e) refl

  -- The statuses in the messages of the frames.
  abbrev told_in : List (Inbox fl) → List Status
  told_in [] = []
  told_in (inbox ∷ inboxes) = statuses_in inbox.notifications ++ told_in inboxes

  statuses_in-notified_in :
      (inboxes : List (Inbox fl)) → statuses_in (notified_in inboxes) ≡ told_in inboxes
  unfolding statuses_in
  statuses_in-notified_in [] = refl
  statuses_in-notified_in (inbox ∷ inboxes) =
      statuses_in-append inbox.notifications (notified_in inboxes)
      ∙ ap (λ l. statuses_in inbox.notifications ++ l) (statuses_in-notified_in inboxes)

module _ (fl : Floats) (ieee : IsIeee fl) where
  open fl use {F64}

  -- After the frames, without a panic, the application knows the status `x`, and has the sampler until
  -- it is `Terminated`.
  pub record Delivered (s : OcdScope fl) (inboxes : List (Inbox fl)) (sampler : Handle) (x : Status)
      : Type 0 where
    pub scope : OcdScope fl
    pub calls : List Command
    pub result : handle_frames fl s inboxes ≡ ok (scope, calls)
    pub status : scope.current_sampler_status ≡ some x
    pub sampler_there :
        (x ≡ terminated) × (scope.current_sampler ≡ none) × (calls ≡ stop ∷ [])
        ⊎ (x ≢ terminated) × (scope.current_sampler ≡ some sampler) × (calls ≡ [])

  frames-Delivered :
      (inboxes : List (Inbox fl)) (s : OcdScope fl) (sampler : Handle) (before x : Status)
      → IsClock fl ieee s.buffer_auto_truncate_at
      → s.current_sampler ≡ some sampler
      → known s.current_sampler_status (told_in fl inboxes) ≡ some x
      → before ≢ terminated
      → Leads before (told_in fl inboxes) x
      → AreTimed fl s.max_time s.samples
      → IsAscending fl s.max_time (sampled_in fl inboxes)
      → Delivered s inboxes sampler x
  unfolding handle_frames
  frames-Delivered [] s sampler before x clock here heard ne (history, last) timed ascending =
      record {
        scope = s;
        calls = [];
        result = refl;
        status = heard;
        sampler_there = inr (λ e. ne (last ∙ e), here, refl);
      }
  frames-Delivered (inbox ∷ inboxes) s sampler before x clock here heard ne (history, last) timed
        ascending =
      let xs = statuses_in inbox.notifications in
      let ys = told_in fl inboxes in
      let (first, rest) = IsHistory-split before xs ys history in
      let (now, later) =
        IsAscending-append fl s.max_time inbox.sampled (sampled_in fl inboxes) ascending in
      let last' = sym (last_status-append before xs ys) ∙ last in
      elim (last_status-ends before xs first ne) [
        | inl (over, l) ↦
            let (s', result, d) = handle_messages-Dropped fl s inbox sampler here over in
            let end : x ≡ terminated = sym last' ∙ stays_terminated _ ys l rest in
            record {
              scope = s';
              calls = stop ∷ [];
              result = rw (result, handle_frames_idle fl s' inboxes d.sampler) refl;
              status =
                  d.status
                  ∙ known_anew s.current_sampler_status before xs (ends-ne xs over)
                  ∙ ap some (l ∙ sym end);
              sampler_there = inl (end, d.sampler, refl);
            }
        | inr (on, l) ↦
            let (s', result, r) =
              handle_messages-Received fl ieee s inbox sampler clock here on timed now in
            let d =
              frames-Delivered inboxes s' sampler (last_status before xs) x
                (subst (IsClock fl ieee) (sym r.truncates_at) clock) (r.sampler ∙ here)
                (ap (λ o. known o ys) r.status
                  ∙ sym (known-append s.current_sampler_status xs ys)
                  ∙ heard)
                l (rest, last') r.in_order
                (subst (λ m. IsAscending fl m (sampled_in fl inboxes)) (sym r.latest) later) in
            record {
              scope = d.scope;
              calls = d.calls;
              result = rw (result, d.result) refl;
              status = d.status;
              sampler_there = d.sampler_there;
            }
      ]

  -- From the start of a sampler of any kind on, whatever status is known before (that of the sampler
  -- before it, or none): if frames, in which nothing is clicked, bring one after another what the
  -- thread has sent since its start, in any rounds, and a status is among it, then no frame panics,
  -- and after them the application knows the status in which the thread now is, or in which it
  -- panicked. It keeps the sampler, without a command to it, unless that is `Terminated`, as it is
  -- where the thread has ended, also with an error of its start; then the sampler was told to stop,
  -- once, and dropped. The buffers are in time order before, the samples come in time order, and
  -- times are a clock as floats (`IsClock`).
  pub started-Delivered :
      (k : Started fl) (inboxes : List (Inbox fl)) (s : OcdScope fl) (sampler : Handle)
      → notified_in fl inboxes ≡ notifications_of (progress fl k).0
      → sampled_in fl inboxes ≡ samples_of (progress fl k).0
      → IsClock fl ieee s.buffer_auto_truncate_at
      → s.current_sampler ≡ some sampler
      → statuses (progress fl k).0 ≢ []
      → AreTimed fl s.max_time s.samples
      → IsAscending fl s.max_time (samples_of (progress fl k).0)
      → Delivered s inboxes sampler (progress fl k).1
  started-Delivered k inboxes s sampler notified sampled clock here told timed ascending =
      let (es, now) = progress fl k in
      let same : told_in fl inboxes ≡ statuses es =
        sym (statuses_in-notified_in fl inboxes)
        ∙ ap statuses_in notified
        ∙ statuses_in-notifications_of es in
      let leads : Leads initializing (told_in fl inboxes) now =
        subst (λ xs. Leads initializing xs now) (sym same) (progress-Leads fl k) in
      frames-Delivered inboxes s sampler initializing now clock here
        (known_anew s.current_sampler_status initializing (told_in fl inboxes)
            (λ e. told (sym same ∙ e))
          ∙ ap some leads.1)
        (λ e. cc) leads timed (subst (IsAscending fl s.max_time) (sym sampled) ascending)
