-- ===== src/App/Notified.antt =====
-- What the application makes of the notifications of its sampler (src/main.rs).
use ocdscope.Prelude.{
  ◌≡◌, refl, ◌∙◌, ◌||◌, Bool, true, false, Option, some, List, [], ◌∷◌, if◌then◌else◌,
}
use ocdscope.Float.{Floats}
use ocdscope.Sampler.{
  Status, terminated, same_status, Notification, new_status, rate_info, info, error,
}
use ocdscope.App.{OcdScope, show_error, close_all_dialogs}
use ocdscope.App.Messages.{take_notification, take_notifications}

-- The statuses that are notified.
unfoldable pub statuses_in : List Notification → List Status
statuses_in [] = []
statuses_in (new_status s ∷ ns) = s ∷ statuses_in ns
statuses_in (rate_info n m ∷ ns) = statuses_in ns
statuses_in (info m ∷ ns) = statuses_in ns
statuses_in (error f ∷ ns) = statuses_in ns

-- The status that is known after some were notified.
abbrev pub known : Option Status → List Status → Option Status
known s [] = s
known s (x ∷ xs) = known (some x) xs

-- Whether `Terminated` is one of them, and whether an error is notified.
unfoldable pub ends : List Status → Bool
ends [] = false
ends (x ∷ xs) = same_status x terminated || ends xs

unfoldable pub has_error : List Notification → Bool
has_error [] = false
has_error (error f ∷ ns) = true
has_error (new_status s ∷ ns) = has_error ns
has_error (rate_info n m ∷ ns) = has_error ns
has_error (info m ∷ ns) = has_error ns

module _ (fl : Floats) where
  -- What notifications leave as it is.
  abbrev pub Same : OcdScope fl → OcdScope fl → Type 0
  Same s s' =
      (s'.signals ≡ s.signals)
      × (s'.samples ≡ s.samples)
      × (s'.max_time ≡ s.max_time)
      × (s'.buffer_auto_truncate ≡ s.buffer_auto_truncate)
      × (s'.buffer_auto_truncate_at ≡ s.buffer_auto_truncate_at)

  -- What the notifications change, and what they leave.
  pub record Told (s s' : OcdScope fl) (ns : List Notification) : Type 0 where
    pub status : s'.current_sampler_status ≡ known s.current_sampler_status (statuses_in ns)
    pub error_dialog : s'.show_error_dialog ≡ has_error ns || s.show_error_dialog
    pub same : Same s s'

  abbrev Result : OcdScope fl → Bool → List Notification → Type 0
  Result s b ns =
      let (s', ended) = take_notifications fl ns (s, b) in
      Told s s' ns × (ended ≡ b || ends (statuses_in ns)) × (s'.current_sampler ≡ s.current_sampler)

  or-false : (b : Bool) → b ≡ b || false
  or-false true = refl
  or-false false = refl

  or-terminated : (a b c : Bool) → (if a then true else b) || c ≡ b || (a || c)
  or-terminated true true c = refl
  or-terminated true false c = refl
  or-terminated false b c = refl

  pub take_notifications-Told :
      (s : OcdScope fl) (b : Bool) (ns : List Notification) → Result s b ns
  unfolding take_notifications take_notification statuses_in has_error ends show_error
      close_all_dialogs
  take_notifications-Told s b [] = (
    record { status = refl; error_dialog = refl; same = (refl, refl, refl, refl, refl) },
    or-false b,
    refl,
  )
  take_notifications-Told s b (new_status x ∷ ns) =
      let (told, ended, kept) =
        take_notifications-Told (record s { current_sampler_status = some x })
          (if same_status x terminated then true else b) ns in
      (
        record { status = told.status; error_dialog = told.error_dialog; same = told.same },
        ended ∙ or-terminated (same_status x terminated) b (ends (statuses_in ns)),
        kept,
      )
  take_notifications-Told s b (rate_info n m ∷ ns) =
      let (told, ended, kept) =
        take_notifications-Told (take_notification fl (rate_info n m) (s, b)).0 b ns in
      (
        record { status = told.status; error_dialog = told.error_dialog; same = told.same },
        ended,
        kept,
      )
  take_notifications-Told s b (info m ∷ ns) =
      let (told, ended, kept) =
        take_notifications-Told (take_notification fl (info m) (s, b)).0 b ns in
      (
        record { status = told.status; error_dialog = told.error_dialog; same = told.same },
        ended,
        kept,
      )
  take_notifications-Told s b (error f ∷ ns) =
      let (told, ended, kept) =
        take_notifications-Told (take_notification fl (error f) (s, b)).0 b ns in
      (
        record {
          status = told.status;
          error_dialog = told.error_dialog ∙ go (has_error ns);
          same = told.same;
        },
        ended,
        kept,
      )
    where
      go : (b : Bool) → b || true ≡ true
      go true = refl
      go false = refl
