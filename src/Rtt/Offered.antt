-- ===== src/Rtt/Offered.antt =====
-- The signals that the RTT sampler of src/sampler/rttsampler.rs offers, and those of its samples.
use ocdscope.Prelude.{
  ℕ, zero, suc, ◌+◌, ◌≡◌, refl, sym, ap, ◌∙◌, ◌⊎◌, inl, inr, true, false, Option, none, some, List,
  [], ◌∷◌, map, length, Outcome, ok, err, panic,
}
use ocdscope.Text.{Bytes}
use ocdscope.Float.{Floats}
use ocdscope.Sampler.{timestamp_not_provided, Sample}
use ocdscope.Telnet.Lines.{Stop}
use ocdscope.Telnet.Channels.{RttChannel}
use ocdscope.Rtt.Packet.{
  RttScopePacketField, RttScopePacketStructure, parse_scope_packet_structure, Maybe, packet_size,
  decode_bytes,
}
use ocdscope.Rtt.Fields.{has_time, decode_bytes_total}
use ocdscope.Rtt.Sampler.{enumerate, to_sample}
use ocdscope.Rtt.Setup.{
  pick_channel, StartError, structure_of, choose, signal_name, available_signals,
}

indices : ℕ → ℕ → List ℕ
indices i zero = []
indices i (suc n) = i ∷ indices (i + 1) n

abbrev pub ids : {A : Type 0} → List (ℕ × A) → List ℕ
ids xs = map (λ x. x.0) xs

ids-enumerate : {A : Type 0} (i : ℕ) (xs : List A) → ids (enumerate i xs) ≡ indices i (length xs)
unfolding enumerate indices
ids-enumerate i [] = refl
ids-enumerate i (x ∷ xs) = ap (λ l. i ∷ l) (ids-enumerate (i + 1) xs)

ids-available :
    (i : ℕ) (fields : List RttScopePacketField)
    → ids (map (λ (x : ℕ × RttScopePacketField). (x.0, signal_name x.0 x.1)) (enumerate i fields))
      ≡ indices i (length fields)
unfolding enumerate indices
ids-available i [] = refl
ids-available i (f ∷ fields) = ap (λ l. i ∷ l) (ids-available (i + 1) fields)

length-map : {A B : Type 0} (f : A → B) (xs : List A) → length (map f xs) ≡ length xs
length-map f [] = refl
length-map f (x ∷ xs) = ap suc (length-map f xs)

structure_of-parsed :
    (channel chosen : RttChannel) (st : RttScopePacketStructure)
    → structure_of channel ≡ ok (chosen, st)
    → parse_scope_packet_structure chosen.name ≡ ok st
unfolding structure_of
structure_of-parsed channel chosen st e = go (parse_scope_packet_structure channel.name) refl
  where
    go :
        (p : Maybe RttScopePacketStructure)
        → parse_scope_packet_structure channel.name ≡ p
        → parse_scope_packet_structure chosen.name ≡ ok st
    go (ok s) f =
        let same : ◌≡◌ {A = Outcome StartError (RttChannel × RttScopePacketStructure)}
            (ok (channel, s)) (ok (chosen, st)) =
          sym (rw (structure_of, f) refl) ∙ e in
        let left : channel ≡ chosen = cc in
        let right : s ≡ st = cc in
        ap (λ (c : RttChannel). parse_scope_packet_structure c.name) (sym left) ∙ f ∙ ap ok right
    go (err n) f =
        let same : ◌≡◌ {A = Outcome StartError (RttChannel × RttScopePacketStructure)}
            (err StartError.not_parsed) (ok (chosen, st)) =
          sym (rw (structure_of, f) refl) ∙ e in
        absurd (cc)
    go panic f =
        let same : ◌≡◌ {A = Outcome StartError (RttChannel × RttScopePacketStructure)} panic
            (ok (chosen, st)) =
          sym (rw (structure_of, f) refl) ∙ e in
        absurd (cc)

choose-parsed :
    (r : Outcome Stop (List RttChannel)) (chosen : RttChannel) (st : RttScopePacketStructure)
    → choose r ≡ ok (chosen, st)
    → parse_scope_packet_structure chosen.name ≡ ok st
unfolding choose
choose-parsed (err e) chosen st h = cc
choose-parsed panic chosen st h = cc
choose-parsed (ok channels) chosen st h = go (pick_channel channels) refl
  where
    go :
        (p : Option RttChannel)
        → pick_channel channels ≡ p
        → parse_scope_packet_structure chosen.name ≡ ok st
    go none f =
        let same : ◌≡◌ {A = Outcome StartError (RttChannel × RttScopePacketStructure)}
            (err StartError.no_channel) (ok (chosen, st)) =
          sym (rw (choose, f) refl) ∙ h in
        absurd (cc)
    go (some channel) f = structure_of-parsed channel chosen st (sym (rw (choose, f) refl) ∙ h)

module _ (fl : Floats) where
  -- If a channel is chosen at the start, then every packet of its size decodes without a panic: if
  -- the name of the channel has a time, to a sample with a value for exactly the signals that are
  -- offered, in their order; and if not, to the error that the timestamp is missing.
  pub choose-to_sample :
      (r : Outcome Stop (List RttChannel)) (channel : RttChannel) (st : RttScopePacketStructure)
      (s : Bytes)
      → choose r ≡ ok (channel, st)
      → length s ≡ packet_size st
      → (st.has_u32_us_time ≡ true)
          × ((x : Sample fl.F64) × (to_sample fl (decode_bytes fl st s) ≡ ok x)
              × (ids x.1 ≡ ids (available_signals st)))
        ⊎ (st.has_u32_us_time ≡ false)
          × (to_sample fl (decode_bytes fl st s) ≡ err timestamp_not_provided)
  unfolding to_sample available_signals
  choose-to_sample r channel st s h size =
      let (t, vs, decoded, timed, count) =
        decode_bytes_total fl channel.name s (choose-parsed r channel st h) size in
      go t vs decoded timed count
    where
      go :
          (t : Option ℕ) (vs : List fl.F32)
          → decode_bytes fl st s ≡ ok (t, vs)
          → has_time fl t ≡ st.has_u32_us_time
          → length vs ≡ length st.fields
          → (st.has_u32_us_time ≡ true)
              × ((x : Sample fl.F64) × (to_sample fl (decode_bytes fl st s) ≡ ok x)
                  × (ids x.1 ≡ ids (available_signals st)))
            ⊎ (st.has_u32_us_time ≡ false)
              × (to_sample fl (decode_bytes fl st s) ≡ err timestamp_not_provided)
      go none vs decoded timed count = inr (sym timed, rw decoded refl)
      go (some t) vs decoded timed count = inl (
        sym timed,
        (
          (t, enumerate 0 (map fl.widen vs)),
          rw decoded refl,
          ids-enumerate 0 (map fl.widen vs)
              ∙ ap (indices 0) (length-map fl.widen vs ∙ count)
              ∙ sym (ids-available 0 st.fields),
        ),
      )
