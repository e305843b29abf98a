-- ===== src/Sampler/Stopping.antt =====
-- A sampler thread that is told to stop ends, for any loop that heeds its commands.
use ocdscope.Prelude.{
  ◌≢◌, All, ◌+◌, ◌≤◌, ◌≡◌, refl, sym, ◌∙◌, ◌⊎◌, inl, inr, Bool, true, false, Option, none, some,
  List, [], ◌∷◌, ◌++◌, length, ok, debug_assert, ◌||◌, Bool-cases, arith,
}
use mathlib.Core.Path.{subst}
use ocdscope.Sampler.{
  blocked, ends_with, Failure, panicked, command_channel_closed, remote_closed,
  packet_decode_failed, timestamp_not_provided, sample_receiver_gone, notification_receiver_gone,
  server_stop_failed, invalid_signals, unexpected_reply, still_running, startup_failed, gdb_failed,
  Status, initializing, sampling, paused, terminated, same_status, Effect, TryRecv, received, empty,
  Next, continue, finished, failed_with, waits, died, ends_with, Failure, switch_status, conclude,
  after, run_on,
}
use ocdscope.Sampler.Lifecycle.{
  Works, Moves, stays, starts, pauses, resumes, stops, stops_paused, Wants,
}
use ocdscope.Sampler.History.{same_status-eq}
use ocdscope.Sampler.Channel.{Worker, taken, is_open, send, serve, join_by, join, stop_worker}

-- The status after one that is wanted.
unfoldable pub then_status : Status → Option Status → Status
then_status s none = s
then_status s (some x) = x

pub switched_none : (s x : Status) → same_status x s ≡ true → switch_status s (some x) ≡ none
unfolding switch_status
switched_none s x e = rw e refl

pub switched_some : (s x : Status) → same_status x s ≡ false → switch_status s (some x) ≡ some x
unfolding switch_status
switched_some s x e = rw e refl

Moves-Works : (s x : Status) → Works s → Moves s x → Works x ⊎ (x ≡ terminated)
Moves-Works _ _ w (stays s) = inl w
Moves-Works _ _ w starts = inl (inl refl)
Moves-Works _ _ w pauses = inl (inr refl)
Moves-Works _ _ w resumes = inl (inl refl)
Moves-Works _ _ w stops = inr refl
Moves-Works _ _ w stops_paused = inr refl

then_status-Works :
    (s : Status) (wanted : Option Status)
    → Works s
    → Wants s wanted
    → Works (then_status s wanted) ⊎ (then_status s wanted ≡ terminated)
unfolding then_status
then_status-Works s none w h = inl w
then_status-Works s (some x) w h = Moves-Works s x w h

module _ {S : Type 0} where
  -- The thread has a sample to send, and the channel is full.
  abbrev pub IsBlocked : Next S → Type 0
  IsBlocked (continue t) = ⊥
  IsBlocked finished = ⊥
  IsBlocked (failed_with f) = ⊥
  IsBlocked (died t) = ⊥
  IsBlocked (waits t) = ⊥
  IsBlocked (blocked t) = Unit

module _ {V S : Type 0} (status_of : S → Status) (Waits : Type 0) where
  -- A round that goes on does so in the status `s`; whether it may still wait is `Waits`.
  abbrev pub LeadsTo : Status → List (Effect V) × Next S → Type 0
  LeadsTo s (es, continue t) = status_of t ≡ s
  LeadsTo s (es, finished) = Unit
  LeadsTo s (es, failed_with f) = Unit
  LeadsTo s (es, died t) = Unit
  LeadsTo s (es, waits t) = Waits
  LeadsTo s (es, blocked t) = ⊥

  -- The thread has ended, well, with an error or with a panic.
  abbrev pub HasEnded : List (Effect V) × Next S → Type 0
  HasEnded (es, continue t) = ⊥
  HasEnded (es, finished) = Unit
  HasEnded (es, failed_with f) = Unit
  HasEnded (es, died t) = Unit
  HasEnded (es, waits t) = Waits
  HasEnded (es, blocked t) = ⊥

  pub ends_with-LeadsTo :
      (s : Status) (t : S) (es : List (Effect V)) (f : Failure)
      → f ≢ still_running
      → LeadsTo s (es, ends_with t f)
  unfolding ends_with
  ends_with-LeadsTo s t es panicked other = tt
  ends_with-LeadsTo s t es command_channel_closed other = tt
  ends_with-LeadsTo s t es remote_closed other = tt
  ends_with-LeadsTo s t es packet_decode_failed other = tt
  ends_with-LeadsTo s t es timestamp_not_provided other = tt
  ends_with-LeadsTo s t es sample_receiver_gone other = tt
  ends_with-LeadsTo s t es notification_receiver_gone other = tt
  ends_with-LeadsTo s t es server_stop_failed other = tt
  ends_with-LeadsTo s t es invalid_signals other = tt
  ends_with-LeadsTo s t es unexpected_reply other = tt
  ends_with-LeadsTo s t es still_running other = absurd (other refl)
  ends_with-LeadsTo s t es startup_failed other = tt
  ends_with-LeadsTo s t es (gdb_failed g) other = tt

  pub conclude-LeadsTo :
      (with_status : Status → S) (t : S) (open_ : Bool) (es : List (Effect V)) (s : Status)
      (wanted : Option Status)
      → ((x : Status) → status_of (with_status x) ≡ x)
      → status_of t ≡ s
      → LeadsTo (then_status s wanted) (conclude with_status t open_ (switch_status s wanted) es)
  unfolding conclude switch_status then_status
  conclude-LeadsTo with_status t open_ es s none law e = e
  conclude-LeadsTo with_status t open_ es s (some x) law e = elim (Bool-cases (same_status x s)) [
    | inl f ↦
        subst (λ o. LeadsTo x (conclude with_status t open_ o es)) (sym (switched_none s x f))
          (e ∙ sym (same_status-eq x s f))
    | inr f ↦
        subst (λ o. LeadsTo x (conclude with_status t open_ o es)) (sym (switched_some s x f))
          (told open_)
  ]
    where
      told : (o : Bool) → LeadsTo x (conclude with_status t o (some x) es)
      told true = law x
      told false = tt

  module _ {C R : Type 0} (give : TryRecv C → R → R) (round : S → R → List (Effect V) × Next S)
      (wanted : Status → C → Option Status) (Fair : R → Type 0) where
    -- In rounds that are fair the loop heeds its commands: it begins to sample; a command that it takes leads to the status
    -- that it asks for; and once `Terminated` it ends.
    pub record IsObedient : Type 0 where
      pub begins :
          (t : S) (r : R)
          → Fair r
          → status_of t ≡ initializing
          → LeadsTo sampling (round t (give empty r))
      pub heeds :
          (t : S) (r : R) (c : C)
          → Fair r
          → Works (status_of t)
          → LeadsTo
              (then_status (status_of t) (wanted (status_of t) c))
              (round t (give (received c) r))
      pub ends :
          (t : S) (r : R) → Fair r → status_of t ≡ terminated → HasEnded (round t (give empty r))

    module _ (obeys : IsObedient) (stop : C)
        (law : (s : Status) (c : C) → Works s → Wants s (wanted s c))
        (law_stop : (s : Status) → Works s → wanted s stop ≡ some terminated) where
      after-HasEnded :
          (es : List (Effect V)) (x : List (Effect V) × Next S) → HasEnded x → HasEnded (after es x)
      after-HasEnded es (es', continue t) h = h
      after-HasEnded es (es', finished) h = h
      after-HasEnded es (es', failed_with f) h = h
      after-HasEnded es (es', died t) h = h
      after-HasEnded es (es', waits t) h = h
      after-HasEnded es (es', blocked t) h = h

      run_on-HasEnded :
          (s : Status) (rest : S → List (Effect V) × Next S) (x : List (Effect V) × Next S)
          → LeadsTo s x
          → ((t : S) → status_of t ≡ s → HasEnded (rest t))
          → HasEnded (run_on rest x)
      unfolding run_on
      run_on-HasEnded s rest (es, continue t) h k = after-HasEnded es (rest t) (k t h)
      run_on-HasEnded s rest (es, finished) h k = h
      run_on-HasEnded s rest (es, failed_with f) h k = h
      run_on-HasEnded s rest (es, died t) h k = h
      run_on-HasEnded s rest (es, waits t) h k = h
      run_on-HasEnded s rest (es, blocked t) h k = h

      run_on-ended :
          (rest : S → List (Effect V) × Next S) (x : List (Effect V) × Next S)
          → HasEnded x
          → HasEnded (run_on rest x)
      unfolding run_on
      run_on-ended rest (es, continue t) h = absurd h
      run_on-ended rest (es, finished) h = h
      run_on-ended rest (es, failed_with f) h = h
      run_on-ended rest (es, died t) h = h
      run_on-ended rest (es, waits t) h = h
      run_on-ended rest (es, blocked t) h = h

      serve-terminated :
          (rs : List R) (q : List C) (t : S)
          → status_of t ≡ terminated
          → 1 ≤ length rs
          → All Fair rs
          → HasEnded (serve status_of give round rs q t)
      unfolding serve taken
      serve-terminated [] q t e h fair = absurd (omega arith)
      serve-terminated (r ∷ rs) q t e h (now, later) =
          rw e (run_on-ended (serve status_of give round rs q) _ (obeys.ends t r now e))

      -- A command is taken in a status in which the thread works.
      taken-Works : (s : Status) (c : C) (q : List C) → Works s → taken s (c ∷ q) ≡ (received c, q)
      unfolding taken
      taken-Works s c q (inl e) = rw e refl
      taken-Works s c q (inr e) = rw e refl

      serve-Works :
          (q : List C) (rs : List R) (t : S)
          → Works (status_of t)
          → length q + 2 ≤ length rs
          → All Fair rs
          → HasEnded (serve status_of give round rs (q ++ stop ∷ []) t)
      unfolding serve then_status
      serve-Works q [] t w h fair = absurd (omega arith)
      serve-Works [] (r ∷ rs) t w h (now, later) = rw (taken-Works (status_of t) stop [] w) (
          run_on-HasEnded terminated (serve status_of give round rs []) _
            (subst (λ o. LeadsTo (then_status (status_of t) o) (round t (give (received stop) r)))
              (law_stop (status_of t) w) (obeys.heeds t r stop now w))
            (λ t' e. serve-terminated rs [] t' e (omega arith) later))
      serve-Works (c ∷ q) (r ∷ rs) t w h (now, later) =
          rw (taken-Works (status_of t) c (q ++ stop ∷ []) w) (
            run_on-HasEnded (then_status (status_of t) (wanted (status_of t) c))
              (serve status_of give round rs (q ++ stop ∷ [])) _ (obeys.heeds t r c now w)
              (λ t' e.
                elim (then_status-Works (status_of t) (wanted (status_of t) c) w
                  (law (status_of t) c w)) [
                    | inl w' ↦ serve-Works q rs t' (subst Works (sym e) w') (omega arith) later
                    | inr f ↦ serve-terminated rs (q ++ stop ∷ []) t' (e ∙ f) (omega arith) later
                  ]))

      serve-HasEnded :
          (s : Status) (q : List C) (rs : List R) (t : S)
          → status_of t ≡ s
          → length q + 3 ≤ length rs
          → All Fair rs
          → HasEnded (serve status_of give round rs (q ++ stop ∷ []) t)
      unfolding serve taken
      serve-HasEnded sampling q rs t e h fair = serve-Works q rs t (inl e) (omega arith) fair
      serve-HasEnded paused q rs t e h fair = serve-Works q rs t (inr e) (omega arith) fair
      serve-HasEnded terminated q rs t e h fair =
          serve-terminated rs (q ++ stop ∷ []) t e (omega arith) fair
      serve-HasEnded initializing q [] t e h fair = absurd (omega arith)
      serve-HasEnded initializing q (r ∷ rs) t e h (now, later) = rw e (
          run_on-HasEnded sampling (serve status_of give round rs (q ++ stop ∷ [])) _
            (obeys.begins t r now e) (λ t' f. serve-Works q rs t' (inl f) (omega arith) later))

      join_by-HasEnded :
          (next : Next S) (q : List C) (rs : List R)
          → ¬ IsBlocked next
          → length q + 3 ≤ length rs
          → All Fair rs
          → HasEnded
              (join status_of give round rs (send stop (record { queue = q; thread = next })).0)
      unfolding send join join_by is_open
      join_by-HasEnded (continue t) q rs free h fair =
          serve-HasEnded (status_of t) q rs t refl h fair
      join_by-HasEnded (waits t) q rs free h fair = serve-HasEnded (status_of t) q rs t refl h fair
      join_by-HasEnded (blocked t) q rs free h fair = free tt
      join_by-HasEnded finished q rs free h fair = tt
      join_by-HasEnded (failed_with f) q rs free h fair = tt
      join_by-HasEnded (died t) q rs free h fair = tt

      -- The asserted: a thread that takes no command any more is finished.
      asserted :
          {E : Type 0} (debug is_finished : Bool) (next : Next S) (q : List C)
          → (debug ≡ true → is_open next ≡ false → is_finished ≡ true)
          → debug_assert {E = E} debug
              ((send stop (record { queue = q; thread = next })).1 || is_finished)
            ≡ ok tt
      unfolding debug_assert send is_open
      asserted false is_finished next q h = refl
      asserted true is_finished (continue t) q h = refl
      asserted true is_finished (waits t) q h = refl
      asserted true is_finished (blocked t) q h = refl
      asserted true is_finished finished q h = rw (h refl refl) refl
      asserted true is_finished (failed_with f) q h = rw (h refl refl) refl
      asserted true is_finished (died t) q h = rw (h refl refl) refl

      -- `stop` returns, if the thread is not blocked: in fair rounds the thread ends within as many rounds as there are commands before, and three.
      pub stop_worker-HasEnded :
          {E : Type 0} (debug is_finished : Bool) (rs : List R) (w : Worker C S)
          → (debug ≡ true → is_open w.thread ≡ false → is_finished ≡ true)
          → ¬ IsBlocked w.thread
          → length w.queue + 3 ≤ length rs
          → All Fair rs
          → (x : List (Effect V) × Next S) × (stop_worker status_of give round {E = E} debug
                is_finished stop rs w
              ≡ ok x)
            × HasEnded x
      unfolding stop_worker
      stop_worker-HasEnded debug is_finished rs w h free enough fair = (
        join status_of give round rs (send stop w).0,
        rw (asserted debug is_finished w.thread w.queue h) refl,
        join_by-HasEnded w.thread w.queue rs free enough fair,
      )

module _ {V C S R : Type 0} (status_of : S → Status) (give : TryRecv C → R → R)
    (round : S → R → List (Effect V) × Next S) where
  -- `stop` of a thread that is blocked as it sends a sample does not get past `join`: whatever rounds
  -- it might still meet, the thread is blocked.
  stop_worker-blocked :
      {E : Type 0} (debug is_finished : Bool) (c : C) (rs : List R) (q : List C) (t : S)
      → stop_worker status_of give round {E = E} debug is_finished c rs
          (record { queue = q; thread = blocked t })
        ≡ ok ([], blocked t)
  unfolding stop_worker send join join_by is_open debug_assert
  stop_worker-blocked true is_finished c rs q t = refl
  stop_worker-blocked false is_finished c rs q t = refl
