-- ===== src/Sampler/Lifecycle.antt =====
-- The status of a sampler thread: which changes there are, and how they are announced.
use ocdscope.Prelude.{
  ◌≡◌, ◌⊎◌, refl, sym, ap, ◌∙◌, Bool, true, false, Option, none, some, List, [], ◌∷◌, ◌++◌, map,
  if◌then◌else◌,
}
use mathlib.Core.Path.{subst}
use ocdscope.Sampler.{
  blocked, Status, initializing, sampling, paused, terminated, same_status, new_status, rate_info,
  info, error, Sample, Effect, sent, notified, Next, continue, finished, failed_with, waits, died,
  ends_with, Failure, panicked, command_channel_closed, remote_closed, packet_decode_failed,
  timestamp_not_provided, sample_receiver_gone, notification_receiver_gone, server_stop_failed,
  invalid_signals, unexpected_reply, still_running, startup_failed, gdb_failed, switch_status,
  conclude,
}

-- The changes of the status; `Terminated` is left only by the end of the thread.
pub data Moves : Status → Status → Type 0 where
  stays : (s : Status) → Moves s s
  starts : Moves initializing sampling
  pauses : Moves sampling paused
  resumes : Moves paused sampling
  stops : Moves sampling terminated
  stops_paused : Moves paused terminated

-- A status that is wanted may follow.
abbrev pub Wants : Status → Option Status → Type 0
Wants s none = Unit
Wants s (some x) = Moves s x

-- The thread samples or is paused.
abbrev pub Works : Status → Type 0
Works s = (s ≡ sampling) ⊎ (s ≡ paused)

-- What is announced when the status is `s'` after it was `s`.
abbrev pub announced : Status → Status → List Status
announced s s' = if same_status s' s then [] else s' ∷ []

pub same_status_refl : (s : Status) → same_status s s ≡ true
unfolding same_status
same_status_refl initializing = refl
same_status_refl sampling = refl
same_status_refl paused = refl
same_status_refl terminated = refl

module _ {V : Type 0} where
  -- The statuses that effects announce.
  unfoldable pub statuses : List (Effect V) → List Status
  statuses [] = []
  statuses (sent x ∷ es) = statuses es
  statuses (notified (new_status s) ∷ es) = s ∷ statuses es
  statuses (notified (rate_info n m) ∷ es) = statuses es
  statuses (notified (info m) ∷ es) = statuses es
  statuses (notified (error f) ∷ es) = statuses es

  pub statuses-append : (xs ys : List (Effect V)) → statuses (xs ++ ys) ≡ statuses xs ++ statuses ys
  unfolding statuses
  statuses-append [] ys = refl
  statuses-append (sent x ∷ es) ys = statuses-append es ys
  statuses-append (notified (new_status s) ∷ es) ys = ap (λ l. s ∷ l) (statuses-append es ys)
  statuses-append (notified (rate_info n m) ∷ es) ys = statuses-append es ys
  statuses-append (notified (info m) ∷ es) ys = statuses-append es ys
  statuses-append (notified (error f) ∷ es) ys = statuses-append es ys

  pub statuses-sent : (xs : List (Sample V)) → statuses (map sent xs) ≡ []
  unfolding statuses
  statuses-sent [] = refl
  statuses-sent (x ∷ xs) = statuses-sent xs

module _ {V S : Type 0} (status_of : S → Status) where
  -- A round goes on in a status that may follow, having announced exactly that change; it ends the
  -- thread well only in `Terminated`; and where it fails, panics, is blocked or still waits it announces nothing.
  abbrev pub IsLawful : Status → List (Effect V) × Next S → Type 0
  IsLawful s (es, continue t) = Moves s (status_of t) × (statuses es ≡ announced s (status_of t))
  IsLawful s (es, finished) = (s ≡ terminated) × (statuses es ≡ [])
  IsLawful s (es, failed_with f) = statuses es ≡ []
  IsLawful s (es, waits t) = (status_of t ≡ s) × (statuses es ≡ [])
  IsLawful s (es, blocked t) = (status_of t ≡ s) × (statuses es ≡ [])
  IsLawful s (es, died t) = (status_of t ≡ s) × (statuses es ≡ [])

  pub IsLawful-ends_with :
      (s : Status) (t : S) (es : List (Effect V)) (f : Failure)
      → status_of t ≡ s
      → statuses es ≡ []
      → IsLawful s (es, ends_with t f)
  unfolding ends_with
  IsLawful-ends_with s t es panicked e quiet = (e, quiet)
  IsLawful-ends_with s t es command_channel_closed e quiet = quiet
  IsLawful-ends_with s t es remote_closed e quiet = quiet
  IsLawful-ends_with s t es packet_decode_failed e quiet = quiet
  IsLawful-ends_with s t es timestamp_not_provided e quiet = quiet
  IsLawful-ends_with s t es sample_receiver_gone e quiet = quiet
  IsLawful-ends_with s t es notification_receiver_gone e quiet = quiet
  IsLawful-ends_with s t es server_stop_failed e quiet = quiet
  IsLawful-ends_with s t es invalid_signals e quiet = quiet
  IsLawful-ends_with s t es unexpected_reply e quiet = quiet
  IsLawful-ends_with s t es still_running e quiet = (e, quiet)
  IsLawful-ends_with s t es startup_failed e quiet = quiet
  IsLawful-ends_with s t es (gdb_failed g) e quiet = quiet

  -- A round that keeps the status and announces none is lawful.
  pub IsLawful-stays :
      (s : Status) (t : S) (es : List (Effect V))
      → status_of t ≡ s
      → statuses es ≡ []
      → IsLawful s (es, continue t)
  IsLawful-stays s t es e quiet = (
    subst (Moves s) (sym e) (stays s),
    quiet ∙ sym (ap (announced s) e ∙ ap (λ b. if b then [] else s ∷ []) (same_status_refl s)),
  )

  module _ (with_status : Status → S) (t : S) (open_ : Bool) (es : List (Effect V))
      (law : (s : Status) → status_of (with_status s) ≡ s) (quiet : statuses es ≡ []) where
    -- A change that is wanted is announced, if the receiver is there to hear of it.
    conclude-some :
        (s x : Status)
        → Moves s x
        → announced s x ≡ x ∷ []
        → (o : Bool) → IsLawful s (conclude with_status t o (some x) es)
    unfolding conclude statuses
    conclude-some s x m e true = (
      subst (Moves s) (sym (law x)) m,
      statuses-append es (notified (new_status x) ∷ [])
          ∙ ap (λ l. l ++ x ∷ []) quiet
          ∙ sym e
          ∙ ap (announced s) (sym (law x)),
    )
    conclude-some s x m e false = quiet

    conclude-none :
        (s : Status) → status_of t ≡ s → IsLawful s (conclude with_status t open_ none es)
    unfolding conclude
    conclude-none s e = IsLawful-stays s t es e quiet

    -- A round that ends by taking over what is wanted is lawful.
    pub conclude-IsLawful :
        (s : Status) (wanted : Option Status)
        → status_of t ≡ s
        → Wants s wanted
        → IsLawful s (conclude with_status t open_ (switch_status s wanted) es)
    unfolding switch_status same_status
    conclude-IsLawful s none e w = conclude-none s e
    conclude-IsLawful s (some x) e w = go s x w e
      where
        go :
            (s x : Status)
            → Moves s x
            → status_of t ≡ s
            → IsLawful s (conclude with_status t open_ (switch_status s (some x)) es)
        go _ _ (stays s) e = rw (switch_status, same_status_refl s) (conclude-none s e)
        go _ _ starts e = conclude-some _ _ starts refl open_
        go _ _ pauses e = conclude-some _ _ pauses refl open_
        go _ _ resumes e = conclude-some _ _ resumes refl open_
        go _ _ stops e = conclude-some _ _ stops refl open_
        go _ _ stops_paused e = conclude-some _ _ stops_paused refl open_
