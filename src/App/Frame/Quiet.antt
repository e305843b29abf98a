-- ===== src/App/Frame/Quiet.antt =====
-- What the messages of a frame leave as it is in the application (src/main.rs): they open no dialog
-- for a connection, and do not change how much is kept of the buffers.
use ocdscope.Prelude.{
  ◌≡◌, refl, sym, ap, ◌∙◌, Bool, true, false, Option, none, some, List, [], ◌∷◌, ok, err, panic,
  Ensures, Ensures-Unit, Ensures->>=, either_way,
}
use ocdscope.Float.{Floats}
use ocdscope.Sampler.{Notification, new_status, rate_info, info, error, Sample}
use ocdscope.Buffer.{Run}
use ocdscope.App.{OcdScope, Handle, show_error, close_all_dialogs}
use ocdscope.App.Messages.{
  Inbox, take_notification, take_notifications, read_notifications, drop_terminated, take_samples,
  truncate_all, auto_truncate, read_samples, handle_messages,
}
use ocdscope.App.Handling.{take_samples_only}

Ensures-weaken :
    {A : Type 0} (P Q : A → Type 0) (m : Run A) → Ensures m P → ((a : A) → P a → Q a) → Ensures m Q
Ensures-weaken P Q (ok a) h k = k a h
Ensures-weaken P Q (err e) h k = tt
Ensures-weaken P Q panic h k = tt

module _ (fl : Floats) where
  open fl use {F64}

  abbrev pub Closes : OcdScope fl → OcdScope fl → Type 0
  Closes s s' =
      (s'.show_connect_dialog ≡ true → s.show_connect_dialog ≡ true)
      × (s'.buffer_auto_truncate_at ≡ s.buffer_auto_truncate_at)

  Closes-trans : (s s' s'' : OcdScope fl) → Closes s s' → Closes s' s'' → Closes s s''
  Closes-trans s s' s'' (h, e) (k, f) = (λ x. h (k x), f ∙ e)

  take_notification-Closes :
      (n : Notification) (s : OcdScope fl) (b : Bool) → Closes s (take_notification fl n (s, b)).0
  unfolding take_notification show_error close_all_dialogs
  take_notification-Closes (new_status x) s b = (λ h. h, refl)
  take_notification-Closes (rate_info n m) s b = (λ h. h, refl)
  take_notification-Closes (info m) s b = (λ h. h, refl)
  take_notification-Closes (error f) s b = (λ h. absurd (cc), refl)

  take_notifications-Closes :
      (ns : List Notification) (s : OcdScope fl) (b : Bool)
      → Closes s (take_notifications fl ns (s, b)).0
  unfolding take_notifications
  take_notifications-Closes [] s b = (λ h. h, refl)
  take_notifications-Closes (n ∷ ns) s b =
      let (s', b') = take_notification fl n (s, b) in
      Closes-trans s s' (take_notifications fl ns (s', b')).0 (take_notification-Closes n s b)
        (take_notifications-Closes ns s' b')

  read_notifications-Closes :
      (o : Option Handle) (s : OcdScope fl) (ns : List Notification)
      → Closes s (read_notifications fl o s ns).0
  unfolding read_notifications
  read_notifications-Closes none s ns = (λ h. h, refl)
  read_notifications-Closes (some sampler) s ns =
      take_notifications-Closes ns (record s { current_sampler = none }) false

  drop_terminated-Closes :
      (s : OcdScope fl) (b : Bool) → Ensures (drop_terminated fl (s, b)) (λ r. Closes s r.0)
  unfolding drop_terminated
  drop_terminated-Closes s false = (λ h. h, refl)
  drop_terminated-Closes s true = go s.current_sampler refl
    where
      go :
          (o : Option Handle)
          → s.current_sampler ≡ o
          → Ensures (drop_terminated fl (s, true)) (λ r. Closes s r.0)
      go none e = rw (drop_terminated, e) tt
      go (some sampler) e = rw (drop_terminated, e) (λ h. h, refl)

  take_samples-Closes : (xs : List (Sample F64)) (s : OcdScope fl) → Closes s (take_samples fl xs s)
  take_samples-Closes xs s =
      let only = take_samples_only fl xs s in
      (
        λ h. sym (ap (λ (s : OcdScope fl). s.show_connect_dialog) only) ∙ h,
        ap (λ (s : OcdScope fl). s.buffer_auto_truncate_at) only,
      )

  auto_truncate-Closes : (s : OcdScope fl) → Ensures (auto_truncate fl s) (Closes s)
  unfolding auto_truncate
  auto_truncate-Closes s =
      either_way (λ m. Ensures m (Closes s)) s.buffer_auto_truncate _ (ok s)
        (Ensures->>= (λ _. Unit {0}) (Closes s)
          (truncate_all fl s.buffer_auto_truncate_at s.samples) _
          (Ensures-Unit (truncate_all fl s.buffer_auto_truncate_at s.samples))
          (λ bs _. (λ h. h, refl)))
        (λ h. h, refl)

  read_samples-Closes :
      (o : Option Handle) (s : OcdScope fl) (xs : List (Sample F64))
      → Ensures (read_samples fl o s xs) (Closes s)
  unfolding read_samples
  read_samples-Closes none s xs = (λ h. h, refl)
  read_samples-Closes (some sampler) s xs =
      let s1 = take_samples fl xs s in
      Ensures-weaken (Closes s1) (Closes s) (auto_truncate fl s1) (auto_truncate-Closes s1)
        (λ s' h. Closes-trans s s1 s' (take_samples-Closes xs s) h)

  pub handle_messages-Closes :
      (s : OcdScope fl) (inbox : Inbox fl)
      → Ensures (handle_messages fl s inbox) (λ r. Closes s r.0)
  unfolding handle_messages
  handle_messages-Closes s inbox =
      let told = read_notifications fl s.current_sampler s inbox.notifications in
      Ensures->>= (λ (r : OcdScope fl × _). Closes told.0 r.0)
        (λ (r : OcdScope fl × _). Closes s r.0) (drop_terminated fl told) _
        (drop_terminated-Closes told.0 told.1)
        (λ r h.
          Ensures->>= (Closes r.0) (λ (r : OcdScope fl × _). Closes s r.0)
            (read_samples fl r.0.current_sampler r.0 inbox.sampled) _
            (read_samples-Closes r.0.current_sampler r.0 inbox.sampled)
            (λ s' k.
              Closes-trans s told.0 s'
                (read_notifications-Closes s.current_sampler s inbox.notifications)
                (Closes-trans told.0 r.0 s' h k)))
