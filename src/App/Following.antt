-- ===== src/App/Following.antt =====
-- How the application (src/main.rs) follows the status of its sampler: a sampler thread and
-- `handle_messages` together.
use ocdscope.Prelude.{
  true_ne_false, ◌≡◌, ◌≢◌, refl, sym, ap, ◌∙◌, ◌⊎◌, inl, inr, true, false, none, some, List, [],
  ◌∷◌, ok, Bool-cases,
}
use mathlib.Core.Path.{subst}
use ocdscope.Float.{Floats, IsIeee}
use ocdscope.Sampler.{
  Status, terminated, same_status, Notification, new_status, rate_info, info, error, Sample, Effect,
  sent, notified, run,
}
use ocdscope.Sampler.Commands.{Command, stop}
use ocdscope.Sampler.Lifecycle.{
  Moves, stays, starts, pauses, resumes, stops, stops_paused, statuses, same_status_refl,
}
use ocdscope.Sampler.History.{
  end_status, Announces-Leads, IsHistory, last_status, Leads, same_status-eq,
}
use ocdscope.Rtt.Packet.{RttScopePacketStructure}
use ocdscope.Rtt.Sampler.{Thread, Round, round}
use ocdscope.Rtt.Lifecycle.{rtt-Announces}
use ocdscope.App.{OcdScope, Handle}
use ocdscope.App.Messages.{Inbox, handle_messages}
use ocdscope.App.Notified.{statuses_in, known, ends}
use ocdscope.App.Timed.{IsClock, IsAscending, AreTimed}
use ocdscope.App.Handling.{handle_messages-Dropped, handle_messages-Received}

module _ {V : Type 0} where
  -- What a thread puts into its two channels.
  unfoldable pub notifications_of : List (Effect V) → List Notification
  notifications_of [] = []
  notifications_of (sent x ∷ es) = notifications_of es
  notifications_of (notified n ∷ es) = n ∷ notifications_of es

  unfoldable pub samples_of : List (Effect V) → List (Sample V)
  samples_of [] = []
  samples_of (sent x ∷ es) = x ∷ samples_of es
  samples_of (notified n ∷ es) = samples_of es

  pub statuses_in-notifications_of :
      (es : List (Effect V)) → statuses_in (notifications_of es) ≡ statuses es
  unfolding statuses_in statuses notifications_of
  statuses_in-notifications_of [] = refl
  statuses_in-notifications_of (sent x ∷ es) = statuses_in-notifications_of es
  statuses_in-notifications_of (notified (new_status s) ∷ es) =
      ap (λ l. s ∷ l) (statuses_in-notifications_of es)
  statuses_in-notifications_of (notified (rate_info n m) ∷ es) = statuses_in-notifications_of es
  statuses_in-notifications_of (notified (info m) ∷ es) = statuses_in-notifications_of es
  statuses_in-notifications_of (notified (error f) ∷ es) = statuses_in-notifications_of es

pub known-last_status :
    (s : Status) (xs : List Status) → known (some s) xs ≡ some (last_status s xs)
known-last_status s [] = refl
known-last_status s (x ∷ xs) = known-last_status x xs

-- Nothing but `Terminated` follows on `Terminated`.
no_return : (s x : Status) → s ≡ terminated → Moves s x → x ≡ terminated
no_return _ _ e (stays s) = e
no_return _ _ e starts = cc
no_return _ _ e pauses = cc
no_return _ _ e resumes = cc
no_return _ _ e stops = refl
no_return _ _ e stops_paused = refl

pub stays_terminated :
    (s : Status) (xs : List Status)
    → s ≡ terminated
    → IsHistory s xs
    → last_status s xs ≡ terminated
stays_terminated s [] e h = e
stays_terminated s (x ∷ xs) e (inl (m, _), h) = stays_terminated x xs (no_return s x e m) h
stays_terminated s (x ∷ xs) e (inr f, h) = stays_terminated x xs f h

terminated_same : (x : Status) → x ≡ terminated → same_status x terminated ≡ true
terminated_same x e = ap (λ z. same_status z terminated) e ∙ same_status_refl terminated

-- A history tells of `Terminated` exactly if it ends there.
pub last_status-ends :
    (s : Status) (xs : List Status)
    → IsHistory s xs
    → s ≢ terminated
    → (ends xs ≡ true) × (last_status s xs ≡ terminated)
      ⊎ (ends xs ≡ false) × (last_status s xs ≢ terminated)
unfolding ends
last_status-ends s [] h ne = inr (refl, ne)
last_status-ends s (x ∷ xs) (_, h) ne = elim (Bool-cases (same_status x terminated)) [
  | inl e ↦ inl (rw e refl, stays_terminated x xs (same_status-eq x terminated e) h)
  | inr e ↦
      let other : x ≢ terminated = λ f. true_ne_false (sym (terminated_same x f) ∙ e) in
      elim (last_status-ends x xs h other) [
        | inl (f, l) ↦ inl (rw e f, l)
        | inr (f, l) ↦ inr (rw e f, l)
      ]
]

-- A frame that brings what a thread has sent.
abbrev pub inbox_of : (fl : Floats) → List (Effect fl.F64) → Inbox fl
inbox_of fl es = record { notifications = notifications_of es; sampled = samples_of es }

module _ (fl : Floats) (ieee : IsIeee fl) where
  open fl use {F64}

  -- The application knows the status `x`, and has the sampler until it is `Terminated`.
  pub record Follows (s : OcdScope fl) (inbox : Inbox fl) (sampler : Handle) (x : Status)
      : Type 0 where
    pub scope : OcdScope fl
    pub calls : List Command
    pub result : handle_messages fl s inbox ≡ ok (scope, calls)
    pub status : scope.current_sampler_status ≡ some x
    pub sampler_there :
        (x ≡ terminated) × (scope.current_sampler ≡ none) × (calls ≡ stop ∷ [])
        ⊎ (x ≢ terminated) × (scope.current_sampler ≡ some sampler) × (calls ≡ [])

  heard-Follows :
      (s : OcdScope fl) (inbox : Inbox fl) (sampler : Handle) (before x : Status)
      → IsClock fl ieee s.buffer_auto_truncate_at
      → s.current_sampler ≡ some sampler
      → known s.current_sampler_status (statuses_in inbox.notifications) ≡ some x
      → before ≢ terminated
      → Leads before (statuses_in inbox.notifications) x
      → AreTimed fl s.max_time s.samples
      → IsAscending fl s.max_time inbox.sampled
      → Follows s inbox sampler x
  heard-Follows s inbox sampler before x clock here heard ne (history, last) timed ascending =
      elim (last_status-ends before (statuses_in inbox.notifications) history ne) [
        | inl (over, l) ↦
            let (s', result, d) = handle_messages-Dropped fl s inbox sampler here over in
            record {
              scope = s';
              calls = stop ∷ [];
              result = result;
              status = d.status ∙ heard;
              sampler_there = inl (sym last ∙ l, d.sampler, refl);
            }
        | inr (on, l) ↦
            let (s', result, r) =
              handle_messages-Received fl ieee s inbox sampler clock here on timed ascending in
            record {
              scope = s';
              calls = [];
              result = result;
              status = r.status ∙ heard;
              sampler_there = inr (λ e. l (last ∙ e), r.sampler ∙ here, refl);
            }
      ]

  history-Follows :
      (s : OcdScope fl) (inbox : Inbox fl) (sampler : Handle) (before x : Status)
      → IsClock fl ieee s.buffer_auto_truncate_at
      → s.current_sampler ≡ some sampler
      → s.current_sampler_status ≡ some before
      → before ≢ terminated
      → Leads before (statuses_in inbox.notifications) x
      → AreTimed fl s.max_time s.samples
      → IsAscending fl s.max_time inbox.sampled
      → Follows s inbox sampler x
  history-Follows s inbox sampler before x clock here was ne (history, last) timed ascending =
      heard-Follows s inbox sampler before x clock here
        (ap (λ o. known o (statuses_in inbox.notifications)) was
          ∙ known-last_status before (statuses_in inbox.notifications)
          ∙ ap some last)
        ne (history, last) timed ascending

  -- If the application knows the status of an RTT sampler that has not terminated, and the frame
  -- brings what the thread has sent in any rounds, then the frame does not panic and the application
  -- knows the status in which the thread now is, or in which it panicked. It keeps the sampler, without a command to it,
  -- unless that is `Terminated`, as it is where the thread has ended, well or with an error; then the sampler is told to
  -- stop, and dropped. The buffers are in time order before, the samples come
  -- in time order, and times are a clock as floats (`IsClock`).
  pub rtt-Follows :
      (st : RttScopePacketStructure) (rs : List Round) (t : Thread) (s : OcdScope fl)
      (sampler : Handle)
      → IsClock fl ieee s.buffer_auto_truncate_at
      → s.current_sampler ≡ some sampler
      → s.current_sampler_status ≡ some t.status
      → t.status ≢ terminated
      → AreTimed fl s.max_time s.samples
      → IsAscending fl s.max_time (samples_of (run (round fl st) rs t).0)
      → Follows s
          (inbox_of fl (run (round fl st) rs t).0)
          sampler
          (end_status (λ (t : Thread). t.status) (run (round fl st) rs t).1)
  rtt-Follows st rs t s sampler clock here was ne timed ascending =
      let status_of = λ (t : Thread). t.status in
      let leads =
        Announces-Leads status_of (round fl st) t.status (run (round fl st) rs t)
          (rtt-Announces fl st rs t) in
      let same = statuses_in-notifications_of (run (round fl st) rs t).0 in
      history-Follows s (inbox_of fl (run (round fl st) rs t).0) sampler t.status _ clock here was
        ne
        (subst (λ xs. Leads t.status xs (end_status status_of (run (round fl st) rs t).1))
          (sym same) leads)
        timed ascending
