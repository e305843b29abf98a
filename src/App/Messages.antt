-- ===== src/App/Messages.antt =====
-- `handle_messages` of src/main.rs: what the application does with the messages of its sampler.
use ocdscope.Prelude.{
  ℕ, Bool, true, false, Option, none, some, List, [], ◌∷◌, ltb, ◌==◌, if◌then◌else◌, ok, ◌>>=◌,
  expect,
}
use ocdscope.Text.{codes}
use ocdscope.Float.{Floats}
use ocdscope.Sampler.{
  terminated, same_status, Notification, new_status, rate_info, info, error, Sample,
}
use ocdscope.Sampler.Commands.{Command, stop}
use ocdscope.Buffer.{Run, SampleBuffer, push, truncate}
use ocdscope.Buffer
use ocdscope.App.{OcdScope, Handle, text, rate, caused_by, show_error}

-- What the two channels of the sampler hold when they are read.
pub record Inbox (fl : Floats) : Type 0 where
  pub notifications : List Notification
  pub sampled : List (Sample fl.F64)

module _ (fl : Floats) where
  open fl use {F64, nat_f64, mul, micro}

  -- One notification; the test is whether `Terminated` was notified so far.
  unfoldable pub take_notification : Notification → OcdScope fl × Bool → OcdScope fl × Bool
  take_notification (new_status status) (s, sampler_terminated) = (
    record s { current_sampler_status = some status },
    if same_status status terminated then true else sampler_terminated,
  )
  take_notification (rate_info n elapsed) (s, sampler_terminated) =
      (record s { last_sampler_info = rate n elapsed }, sampler_terminated)
  take_notification (info message) (s, sampler_terminated) =
      (record s { last_sampler_info = text message }, sampler_terminated)
  take_notification (error f) (s, sampler_terminated) =
      (show_error fl s (codes "Sampler error") (caused_by f), sampler_terminated)

  unfoldable pub take_notifications : List Notification → OcdScope fl × Bool → OcdScope fl × Bool
  unfolding take_notification
  take_notifications [] s = s
  take_notifications (n ∷ ns) s = take_notifications ns (take_notification n s)

  -- While the notifications are read the sampler is out of its place.
  unfoldable pub read_notifications :
      Option Handle → OcdScope fl → List Notification → OcdScope fl × Bool
  unfolding take_notifications
  read_notifications none s ns = (s, false)
  read_notifications (some sampler) s ns =
      let (s', sampler_terminated) =
        take_notifications ns (record s { current_sampler = none }, false) in
      (record s' { current_sampler = some sampler }, sampler_terminated)

  -- A sampler that has terminated is stopped and dropped. What `stop` asserts in debug builds stands in
  -- `update`, and what it does in its sampler.
  unfoldable pub drop_terminated : OcdScope fl × Bool → Run (OcdScope fl × List Command)
  drop_terminated (s, false) = ok (s, [])
  drop_terminated (s, true) =
      expect s.current_sampler >>= λ _. ok (record s { current_sampler = none }, stop ∷ [])

  unfoldable pub time : ℕ → F64
  time t = mul (nat_f64 t) micro

  -- `entry(id).or_insert_with(SampleBuffer::new).push(t, y)`
  unfoldable pub store : ℕ → F64 → F64 → List (ℕ × SampleBuffer fl) → List (ℕ × SampleBuffer fl)
  store id t y [] = (id, push fl (Buffer.new fl) t y) ∷ []
  store id t y ((key, b) ∷ bs) =
      let rest = store id t y bs in if id == key then (key, push fl b t y) ∷ bs else (key, b) ∷ rest

  unfoldable pub store_all :
      F64 → List (ℕ × F64) → List (ℕ × SampleBuffer fl) → List (ℕ × SampleBuffer fl)
  unfolding store
  store_all t [] bs = bs
  store_all t ((id, y) ∷ values) bs = store_all t values (store id t y bs)

  unfoldable pub take_sample : Sample F64 → OcdScope fl → OcdScope fl
  unfolding store_all
  take_sample (t, values) s = record s {
    samples = store_all (time t) values s.samples;
    max_time = if ltb s.max_time t then t else s.max_time;
  }

  unfoldable pub take_samples : List (Sample F64) → OcdScope fl → OcdScope fl
  unfolding take_sample
  take_samples [] s = s
  take_samples (x ∷ xs) s = take_samples xs (take_sample x s)

  unfoldable pub truncate_all : F64 → List (ℕ × SampleBuffer fl) → Run (List (ℕ × SampleBuffer fl))
  truncate_all keep_seconds [] = ok []
  truncate_all keep_seconds ((key, b) ∷ bs) = do
    b' ← truncate fl b keep_seconds
    bs' ← truncate_all keep_seconds bs
    ok ((key, b') ∷ bs')

  unfoldable pub auto_truncate : OcdScope fl → Run (OcdScope fl)
  unfolding truncate_all
  auto_truncate s =
      if s.buffer_auto_truncate
      then (truncate_all s.buffer_auto_truncate_at s.samples >>= λ samples.
          ok (record s { samples = samples }))
      else ok s

  -- The samples are read where there is still a sampler.
  unfoldable pub read_samples : Option Handle → OcdScope fl → List (Sample F64) → Run (OcdScope fl)
  unfolding auto_truncate take_samples
  read_samples none s xs = ok s
  read_samples (some sampler) s xs = auto_truncate (take_samples xs s)

  unfoldable pub handle_messages : OcdScope fl → Inbox fl → Run (OcdScope fl × List Command)
  handle_messages s inbox = do
    told ← drop_terminated (read_notifications s.current_sampler s inbox.notifications)
    s' ← read_samples told.0.current_sampler told.0 inbox.sampled
    ok (s', told.1)
