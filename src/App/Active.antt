-- ===== src/App/Active.antt =====
-- The signals that the sampler is asked for, and those that the application shows as enabled
-- (src/main.rs).
use ocdscope.Prelude.{
  true_ne_false, ℕ, ◌≡◌, refl, sym, ap, ◌∙◌, ◌||◌, false, some, List, [], ◌∷◌, ◌++◌, append-nil,
  Outcome, ok, err, panic, Bool-cases, inl, inr, Ensures-eq_ok,
}
use ocdscope.Text.{Bytes}
use ocdscope.Float.{Floats}
use ocdscope.Sampler.Commands.{Command}
use ocdscope.App.{Message, Handle, SignalConfig, OcdScope, new_signal, active_ids, add_address}
use ocdscope.App.Messages.{Inbox, handle_messages}
use ocdscope.App.Unasked.{asked_after, Unasked, handle_messages-Unasked, toolbar-Unasked}
use ocdscope.App.Connect.{
  Starts, Clicks, Edit, start, to_signals, enable_first, try_connect_sampler, connect, connected_by,
  take_over, toolbar, edit_signals, ask_active, list_signals,
}

module _ (fl : Floats) where
  open fl use {F64}

  -- The states of the application with a sampler, and the signals that the sampler is asked for.
  pub data Reaches : OcdScope fl → List ℕ → Type 0 where
    connected :
        (s : OcdScope fl) (starts : Starts fl) (sampler : Handle)
        → (connect fl s starts).sampler ≡ ok sampler
        → Reaches (connect fl s starts).scope (asked_after [] (connect fl s starts).to_new)
    handled :
        (s s' : OcdScope fl) (asked : List ℕ) (inbox : Inbox fl) (calls : List Command)
        → Reaches s asked
        → handle_messages fl s inbox ≡ ok (s', calls)
        → Reaches s' (asked_after asked calls)
    listed :
        (s : OcdScope fl) (asked : List ℕ) (sampler : Handle) (edits : List (Edit fl))
        → Reaches s asked
        → s.current_sampler ≡ some sampler
        → Reaches (list_signals fl s edits).0 (asked_after asked (list_signals fl s edits).1)
    added : (s : OcdScope fl) (asked : List ℕ) → Reaches s asked → Reaches (add_address fl s) asked
    used_toolbar :
        (s s' : OcdScope fl) (asked : List ℕ) (clicks : Clicks) (calls : List Command)
        → Reaches s asked
        → toolbar fl s clicks ≡ ok (s', calls)
        → Reaches s' (asked_after asked calls)

  active_ids-append :
      (xs ys : List (SignalConfig fl))
      → active_ids fl (xs ++ ys) ≡ active_ids fl xs ++ active_ids fl ys
  unfolding active_ids
  active_ids-append [] ys = refl
  active_ids-append (x ∷ xs) ys = elim (Bool-cases x.enabled) [
    | inl e ↦ rw (active_ids, e) (ap (λ l. x.id ∷ l) (active_ids-append xs ys))
    | inr e ↦ rw (active_ids, e) (active_ids-append xs ys)
  ]

  -- Signals none of whose boxes is clicked are enabled as before.
  edit_signals-active_ids :
      (edits : List (Edit fl)) (signals : List (SignalConfig fl))
      → (edit_signals fl edits signals).1 ≡ false
      → active_ids fl (edit_signals fl edits signals).0 ≡ active_ids fl signals
  unfolding edit_signals active_ids
  edit_signals-active_ids [] signals h = refl
  edit_signals-active_ids (e ∷ edits) [] h = refl
  edit_signals-active_ids (e ∷ edits) (x ∷ xs) h = elim (Bool-cases e.clicked) [
    | inl f ↦ absurd (true_ne_false (sym (ap (λ b. b || (edit_signals fl edits xs).1) f) ∙ h))
    | inr f ↦
        let g : (edit_signals fl edits xs).1 ≡ false =
          sym (ap (λ b. b || (edit_signals fl edits xs).1) f) ∙ h in
        elim (Bool-cases x.enabled) [
          | inl k ↦
              rw (edit_signals, f, active_ids, k)
                (ap (λ l. x.id ∷ l) (edit_signals-active_ids edits xs g))
          | inr k ↦ rw (edit_signals, f, active_ids, k) (edit_signals-active_ids edits xs g)
        ]
  ]

  to_signals-disabled :
      (available : List (ℕ × Bytes)) → active_ids fl (to_signals fl available) ≡ []
  unfolding to_signals active_ids new_signal
  to_signals-disabled [] = refl
  to_signals-disabled ((id, name) ∷ available) = to_signals-disabled available

  pub enable_first-asked :
      (available : List (ℕ × Bytes))
      → let (signals, asked) = enable_first fl (to_signals fl available) in
        asked_after [] asked ≡ active_ids fl signals
  unfolding enable_first to_signals asked_after active_ids new_signal
  enable_first-asked [] = refl
  enable_first-asked ((id, name) ∷ available) =
      ap (λ l. id ∷ l) (sym (to_signals-disabled available))

  connected_by-asked :
      (s : OcdScope fl) (o : Outcome Message Handle) (sampler : Handle)
      → let c = take_over fl (connected_by fl s o) (connected_by fl s o).sampler in
        c.sampler ≡ ok sampler → asked_after [] c.to_new ≡ active_ids fl c.scope.signals
  unfolding take_over connected_by
  connected_by-asked s (ok h) sampler e = enable_first-asked h.available_signals
  connected_by-asked s (err m) sampler e = cc
  connected_by-asked s panic sampler e = cc

  pub list_signals-asked :
      (s : OcdScope fl) (asked : List ℕ) (sampler : Handle) (edits : List (Edit fl))
      → asked ≡ active_ids fl s.signals
      → s.current_sampler ≡ some sampler
      → asked_after asked (list_signals fl s edits).1
        ≡ active_ids fl (list_signals fl s edits).0.signals
  unfolding list_signals ask_active asked_after
  list_signals-asked s asked sampler edits h e =
      elim (Bool-cases (edit_signals fl edits s.signals).1) [
        | inl f ↦ rw (list_signals, e, ask_active, f) refl
        | inr f ↦
            rw (list_signals, e, ask_active, f)
              (h ∙ sym (edit_signals-active_ids edits s.signals f))
      ]

  -- An address that is added is not enabled.
  pub active_ids-add_address :
      (s : OcdScope fl) → active_ids fl (add_address fl s).signals ≡ active_ids fl s.signals
  unfolding add_address active_ids new_signal
  active_ids-add_address s = active_ids-append s.signals _ ∙ append-nil (active_ids fl s.signals)

  -- In every state that the application reaches with a sampler, by a connection and then any frames,
  -- clicks in the toolbar and in the list of signals, and added addresses, the sampler is asked for
  -- exactly the signals that are enabled, in their order.
  pub Reaches-active_ids :
      (s : OcdScope fl) (asked : List ℕ) → Reaches s asked → asked ≡ active_ids fl s.signals
  unfolding connect try_connect_sampler
  Reaches-active_ids _ _ (connected s starts sampler e) =
      connected_by-asked (record s { show_connect_dialog = false })
        (start fl (record s { show_connect_dialog = false }) starts) sampler e
  Reaches-active_ids _ _ (handled s s' asked inbox calls r e) =
      let (same, quiet) =
        Ensures-eq_ok (Unasked fl s.signals) (handle_messages fl s inbox)
          (handle_messages-Unasked fl s inbox) e in
      quiet asked ∙ Reaches-active_ids s asked r ∙ ap (active_ids fl) (sym same)
  Reaches-active_ids _ _ (listed s asked sampler edits r e) =
      list_signals-asked s asked sampler edits (Reaches-active_ids s asked r) e
  Reaches-active_ids _ _ (added s asked r) =
      Reaches-active_ids s asked r ∙ sym (active_ids-add_address s)
  Reaches-active_ids _ _ (used_toolbar s s' asked clicks calls r e) =
      let (same, quiet) =
        Ensures-eq_ok (Unasked fl s.signals) (toolbar fl s clicks) (toolbar-Unasked fl s clicks)
          e in
      quiet asked ∙ Reaches-active_ids s asked r ∙ ap (active_ids fl) (sym same)
