-- ===== src/App/Frame/Dialogs.antt =====
-- The sidebar, the plot and the dialogs for addresses and errors in a frame (src/main.rs).
use ocdscope.Prelude.{
  refl, ◌≡◌, ◌>>=◌, panic, ◌≢◌, ℕ, sym, ◌∙◌, Bool, not, Option, none, some, List, map, ok, err,
  panic, Outcome, Bool-cases, inl, inr, either_way,
}
use ocdscope.Text.{Bytes, codes, same, lower_byte}
use ocdscope.Buffer.{Run}
use ocdscope.Float.{Floats, IsIeee}
use ocdscope.Export.{ExportError}
use ocdscope.App.{OcdScope, Message, add_address, show_error, close_all_dialogs}
use ocdscope.App.Timed.{IsClock}
use ocdscope.App.Unasked.{asked_after}
use ocdscope.App.Connect.{Edit, list_signals}
use ocdscope.App.Active.{list_signals-asked, active_ids-add_address}
use ocdscope.App.Picked.{nothing, Written, reported, export_by, export_picked}
use ocdscope.App.Frame.{
  Controls, AddressInput, set_controls, offer_address, reads_memory, stop_following, address_dialog,
  error_dialog,
}
use ocdscope.App.Frame.Steps.{IsWell}

module _ (fl : Floats) (ieee : IsIeee fl) where
  open fl use {F64}

  show_error-IsWell :
      (s : OcdScope fl) (asked : List ℕ) (title : Bytes) (message : Message)
      → IsWell fl ieee s asked
      → IsWell fl ieee (show_error fl s title message) asked
  unfolding show_error close_all_dialogs
  show_error-IsWell s asked title message w = record {
    connectable = λ h. absurd (cc);
    drawable = w.drawable;
    clock = w.clock;
    asks = w.asks;
  }

  module _ (display : F64 → Bytes) (export_message : ExportError → Message) where
    -- If it does not panic, an export leaves a well-formed state.
    abbrev Exports : List ℕ → Run (OcdScope fl × Written fl) → Type 0
    Exports asked m =
        m ≢ panic → (r : OcdScope fl × Written fl) × (m ≡ ok r) × IsWell fl ieee r.0 asked

    reported-Exports :
        (s : OcdScope fl) (asked : List ℕ) (title : Bytes) (o : Outcome ExportError (Unit {0}))
        (x : Written fl)
        → IsWell fl ieee s asked
        → Exports asked (reported fl display export_message s title o >>= λ s'. ok (s', x))
    unfolding reported
    reported-Exports s asked title (ok _) x w h = ((s, x), refl, w)
    reported-Exports s asked title (err e) x w h =
        (_, refl, show_error-IsWell s asked title (export_message e) w)
    reported-Exports s asked title panic x w h = absurd (h refl)

    export_by-Exports :
        (debug : Bool) (s : OcdScope fl) (asked : List ℕ) (ext : Bytes)
        → IsWell fl ieee s asked
        → Exports asked (export_by fl display export_message debug s ext)
    unfolding export_by
    export_by-Exports debug s asked ext w = elim (Bool-cases (same ext (codes "csv"))) [
      | inl e ↦ rw (export_by, e) (reported-Exports s asked _ _ _ w)
      | inr e ↦ elim (Bool-cases (same ext (codes "npy"))) [
        | inl f ↦ rw (export_by, e, f) (reported-Exports s asked _ _ _ w)
        | inr f ↦ rw (export_by, e, f) (λ h. (_, refl, show_error-IsWell s asked _ _ w))
      ]
    ]

    pub export_picked-Exports :
        (debug : Bool) (s : OcdScope fl) (asked : List ℕ) (picked : Option (Option Bytes))
        → IsWell fl ieee s asked
        → Exports asked (export_picked fl display export_message debug s picked)
    unfolding export_picked
    export_picked-Exports debug s asked none w h = ((s, nothing), refl, w)
    export_picked-Exports debug s asked (some none) w h = absurd (h refl)
    export_picked-Exports debug s asked (some (some extension)) w h =
        export_by-Exports debug s asked (map lower_byte extension) w h

  pub set_controls-IsWell :
      (s : OcdScope fl) (asked : List ℕ) (c : Controls fl)
      → IsWell fl ieee s asked
      → IsClock fl ieee c.truncate_at
      → IsWell fl ieee (set_controls fl s c) asked
  unfolding set_controls
  set_controls-IsWell s asked c w clock = record {
    connectable = w.connectable;
    drawable = w.drawable;
    clock = either_way (IsClock fl ieee) _ c.truncate_at s.buffer_auto_truncate_at clock w.clock;
    asks = w.asks;
  }

  pub list_signals-IsWell :
      (s : OcdScope fl) (asked : List ℕ) (edits : List (Edit fl))
      → IsWell fl ieee s asked
      → IsWell fl ieee (list_signals fl s edits).0 (asked_after asked (list_signals fl s edits).1)
  unfolding list_signals
  list_signals-IsWell s asked edits w = record {
    connectable = w.connectable;
    drawable = w.drawable;
    clock = w.clock;
    asks = λ sampler e. list_signals-asked fl s asked sampler edits (w.asks sampler e) e;
  }

  pub offer_address-IsWell :
      (s : OcdScope fl) (asked : List ℕ) (clicked : Bool)
      → IsWell fl ieee s asked
      → IsWell fl ieee (offer_address fl s clicked) asked
  unfolding offer_address
  offer_address-IsWell s asked clicked w =
      let P = λ (s : OcdScope fl). IsWell fl ieee s asked in
      either_way P (reads_memory s.sampling_method) _ s
        (either_way P clicked _ s
          (record {
            connectable = w.connectable;
            drawable = w.drawable;
            clock = w.clock;
            asks = w.asks;
          })
          w)
        w

  pub stop_following-IsWell :
      (test : Bool) (s : OcdScope fl) (asked : List ℕ)
      → IsWell fl ieee s asked
      → IsWell fl ieee (stop_following fl test s) asked
  unfolding stop_following
  stop_following-IsWell test s asked w =
      either_way (λ (s : OcdScope fl). IsWell fl ieee s asked) test _ s
        (record {
          connectable = w.connectable;
          drawable = w.drawable;
          clock = w.clock;
          asks = w.asks;
        })
        w

  pub error_dialog-IsWell :
      (s : OcdScope fl) (asked : List ℕ) (closed : Bool)
      → IsWell fl ieee s asked
      → IsWell fl ieee (error_dialog fl s closed) asked
  unfolding error_dialog
  error_dialog-IsWell s asked closed w =
      let P = λ (s : OcdScope fl). IsWell fl ieee s asked in
      either_way P s.show_error_dialog _ s
        (either_way P closed _ s
          (record {
            connectable = w.connectable;
            drawable = w.drawable;
            clock = w.clock;
            asks = w.asks;
          })
          w)
        w

  pub address_dialog-IsWell :
      (s : OcdScope fl) (asked : List ℕ) (i : AddressInput)
      → IsWell fl ieee s asked
      → IsWell fl ieee (address_dialog fl s i) asked
  unfolding address_dialog add_address
  address_dialog-IsWell s asked i w =
      let P = λ (s : OcdScope fl). IsWell fl ieee s asked in
      let s' = record s {
        memory_address_to_add = i.address;
        show_add_address_dialog = not i.cancelled;
      } in
      either_way P s.show_add_address_dialog _ s
        (either_way P i.added (add_address fl s') s'
          (record {
            connectable = w.connectable;
            drawable = w.drawable;
            clock = w.clock;
            asks = λ sampler e. w.asks sampler e ∙ sym (active_ids-add_address fl s');
          })
          (record {
            connectable = w.connectable;
            drawable = w.drawable;
            clock = w.clock;
            asks = w.asks;
          }))
        w
