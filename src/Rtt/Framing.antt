-- ===== src/Rtt/Framing.antt =====
-- The packets that `sampler_thread` of src/sampler/rttsampler.rs takes from its buffer.
use ocdscope.Prelude.{
  ℕ, zero, suc, ◌+◌, ◌-◌, ◌<◌, ◌≤◌, ◌≡◌, refl, sym, ap, ap₂, ◌∙◌, Bool, true, false, Option, none,
  some, List, [], ◌∷◌, ◌++◌, map, arith, leb, le→leb, if◌then◌else◌, length, length-append,
  length-take, length-drop, take, drop, take-append_le, drop-append_le, append_assoc, inl, inr, ◌⊎◌,
  Outcome, ok, err, panic,
}
use mathlib.Core.Path.{subst}
use ocdscope.Text.{Bytes}
use ocdscope.Float.{Floats}
use ocdscope.Sampler.{Failure, panicked, sample_receiver_gone, timestamp_not_provided, Sample}
use ocdscope.Rtt.Packet.{
  RttScopePacketStructure, packet_size, decode_bytes, parse_scope_packet_structure,
}
use ocdscope.Rtt.Fields.{decode_bytes_total, has_time}
use ocdscope.Rtt.Sampler.{enumerate, to_sample, Drained, drain}

module _ (fl : Floats) where
  -- What a packet of the buffer leads to: the samples to send, or the end of the thread.
  abbrev pub deliver :
      Bool → Outcome Failure (Sample fl.F64) → Outcome Failure (List (Sample fl.F64))
  deliver open_ (ok x) = if open_ then ok (x ∷ []) else err sample_receiver_gone
  deliver open_ (err e) = err e
  deliver open_ panic = panic

  abbrev pub act :
      RttScopePacketStructure → Bool → Bool → Bytes → Outcome Failure (List (Sample fl.F64))
  act st false open_ p = ok []
  act st true open_ p = deliver open_ (to_sample fl (decode_bytes fl st p))

  abbrev pub sends : List (Sample fl.F64) → Drained fl → Drained fl
  sends xs d = record d { samples = xs ++ d.samples }

  abbrev stopped : Bytes → ℕ → Option Failure → Drained fl
  stopped rest count failure = record {
    samples = [];
    rest = rest;
    count = count;
    failure = failure;
  }

  abbrev pub proceed : Bytes → ℕ → Drained fl → Outcome Failure (List (Sample fl.F64)) → Drained fl
  proceed s count next (ok xs) = sends xs next
  proceed s count next (err e) = stopped s count (some e)
  proceed s count next panic = stopped s count (some panicked)

  module _ (st : RttScopePacketStructure) where
    -- The loop over the packets of a buffer, with the fuel that a round gives it.
    abbrev pub drained_of : Bool → Bool → Bytes → ℕ → Drained fl
    drained_of is_sampling open_ s count = drain fl st (suc (length s)) is_sampling open_ s count

    pub short_or_long : (s : Bytes) → (length s < packet_size st) ⊎ (packet_size st ≤ length s)
    short_or_long s = ground arith

    pub drain_waits :
        (fuel : ℕ) (is_sampling open_ : Bool) (s : Bytes) (count : ℕ)
        → length s < packet_size st
        → drain fl st (suc fuel) is_sampling open_ s count ≡ stopped s count none
    unfolding drain
    drain_waits fuel is_sampling open_ s count h =
        let short : leb (packet_size st) (length s) ≡ false = ground arith in rw (drain, short) refl

    pub drain-proceed :
        (fuel : ℕ) (is_sampling open_ : Bool) (s : Bytes) (count : ℕ)
        → packet_size st ≤ length s
        → drain fl st (suc fuel) is_sampling open_ s count
          ≡ proceed s count
              (drain fl st fuel is_sampling open_ (drop (packet_size st) s) (count + 1))
              (act st is_sampling open_ (take (packet_size st) s))
    unfolding drain
    drain-proceed fuel false open_ s count h = rw (drain, le→leb (packet_size st) (length s) h) refl
    drain-proceed fuel true open_ s count h =
        go (to_sample fl (decode_bytes fl st (take (packet_size st) s))) open_ refl
      where
        go :
            (m : Outcome Failure (Sample fl.F64)) (o : Bool)
            → to_sample fl (decode_bytes fl st (take (packet_size st) s)) ≡ m
            → drain fl st (suc fuel) true o s count
              ≡ proceed s count
                  (drain fl st fuel true o (drop (packet_size st) s) (count + 1))
                  (act st true o (take (packet_size st) s))
        go (ok x) true e = rw (drain, le→leb (packet_size st) (length s) h, e) refl
        go (ok x) false e = rw (drain, le→leb (packet_size st) (length s) h, e) refl
        go (err x) o e = rw (drain, le→leb (packet_size st) (length s) h, e) refl
        go panic o e = rw (drain, le→leb (packet_size st) (length s) h, e) refl

    module _ (is_sampling open_ : Bool) (some_size : 0 < packet_size st) where
      -- More fuel than bytes is enough.
      drain_fuel :
          (f g : ℕ) (s : Bytes) (count : ℕ)
          → length s < f
          → length s < g
          → drain fl st f is_sampling open_ s count ≡ drain fl st g is_sampling open_ s count
      drain_fuel zero g s count h k = absurd (omega arith)
      drain_fuel (suc f) zero s count h k = absurd (omega arith)
      drain_fuel (suc f) (suc g) s count h k = elim (short_or_long s) [
        | inl short ↦
            drain_waits f is_sampling open_ s count short
            ∙ sym (drain_waits g is_sampling open_ s count short)
        | inr long ↦
            drain-proceed f is_sampling open_ s count long
            ∙ ap (λ d. proceed s count d (act st is_sampling open_ (take (packet_size st) s)))
                (drain_fuel f g (drop (packet_size st) s) (count + 1)
                  (omega (arith, length-drop (packet_size st) s))
                  (omega (arith, length-drop (packet_size st) s)))
            ∙ sym (drain-proceed g is_sampling open_ s count long)
      ]

      -- The loop over the packets of a buffer, with enough fuel.
      abbrev drained : Bytes → ℕ → Drained fl
      drained s count = drain fl st (suc (length s)) is_sampling open_ s count

      -- What the loop does with what is left of one read and the bytes of the next.
      abbrev goes_on : Drained fl → Bytes → Drained fl
      goes_on d b = drained (d.rest ++ b) d.count

      sends-append :
          (xs ys : List (Sample fl.F64)) (d : Drained fl)
          → sends xs (sends ys d) ≡ sends (xs ++ ys) d
      sends-append xs ys d = ap (λ l. record d { samples = l }) (sym (append_assoc xs ys d.samples))

      proceed-goes_on :
          (m : Outcome Failure (List (Sample fl.F64))) (a b : Bytes) (count : ℕ)
          (next whole : Drained fl)
          → (proceed a count next m).failure ≡ none
          → (next.failure ≡ none → whole ≡ sends next.samples (goes_on next b))
          → proceed (a ++ b) count whole m
            ≡ sends (proceed a count next m).samples (goes_on (proceed a count next m) b)
      proceed-goes_on (ok xs) a b count next whole fine h =
          ap (sends xs) (h fine) ∙ sends-append xs next.samples (goes_on next b)
      proceed-goes_on (err e) a b count next whole fine h = absurd (cc)
      proceed-goes_on panic a b count next whole fine h = absurd (cc)

      drain_step :
          (a b : Bytes) (count : ℕ)
          → packet_size st ≤ length a
          → drained (a ++ b) count
            ≡ proceed
                (a ++ b)
                count
                (drained (drop (packet_size st) a ++ b) (count + 1))
                (act st is_sampling open_ (take (packet_size st) a))
      drain_step a b count long =
          let n = packet_size st in
          let total : length (a ++ b) ≡ length a + length b = length-append a b in
          let left : length (drop n a ++ b) ≡ length a - n + length b =
            length-append (drop n a) b ∙ ap (λ k. k + length b) (length-drop n a) in
          drain-proceed (length (a ++ b)) is_sampling open_ (a ++ b) count (omega arith)
          ∙ ap₂
              (λ p q.
                proceed (a ++ b) count
                  (drain fl st (length (a ++ b)) is_sampling open_ q (count + 1))
                  (act st is_sampling open_ p))
              (take-append_le n a b long) (drop-append_le n a b long)
          ∙ ap (λ d. proceed (a ++ b) count d (act st is_sampling open_ (take n a)))
              (drain_fuel (length (a ++ b)) (suc (length (drop n a ++ b))) (drop n a ++ b)
                (count + 1) (omega arith) (omega arith))

      drain-goes_on :
          (f : ℕ) (a b : Bytes) (count : ℕ)
          → length a < f
          → (drain fl st f is_sampling open_ a count).failure ≡ none
          → drained (a ++ b) count
            ≡ sends
                (drain fl st f is_sampling open_ a count).samples
                (goes_on (drain fl st f is_sampling open_ a count) b)
      drain-goes_on zero a b count h fine = absurd (omega arith)
      drain-goes_on (suc f) a b count h fine = elim (short_or_long a) [
        | inl short ↦ rw (drain_waits f is_sampling open_ a count short) refl
        | inr long ↦
            let step = drain-proceed f is_sampling open_ a count long in
            let next = drain fl st f is_sampling open_ (drop (packet_size st) a) (count + 1) in
            subst (λ (d : Drained fl). drained (a ++ b) count ≡ sends d.samples (goes_on d b))
              (sym step)
              (drain_step a b count long
                ∙ proceed-goes_on (act st is_sampling open_ (take (packet_size st) a)) a b count
                    next _ (sym (ap (λ (d : Drained fl). d.failure) step) ∙ fine)
                    (drain-goes_on f (drop (packet_size st) a) b (count + 1)
                      (omega (arith, length-drop (packet_size st) a))))
      ]

    -- Two reads give what one read of all their bytes gives: the same samples in order, the same
    -- bytes left over, the same count and the same end, whatever the place of the cut. It holds for
    -- packets of at least one byte, if the first read does not end the thread.
    pub drain-append :
        (is_sampling open_ : Bool) (a b : Bytes) (count : ℕ)
        → 0 < packet_size st
        → (drained_of is_sampling open_ a count).failure ≡ none
        → drained_of is_sampling open_ (a ++ b) count
          ≡ sends (drained_of is_sampling open_ a count).samples (
              drained_of is_sampling open_
                ((drained_of is_sampling open_ a count).rest ++ b)
                (drained_of is_sampling open_ a count).count)
    drain-append is_sampling open_ a b count some_size fine =
        drain-goes_on is_sampling open_ some_size (suc (length a)) a b count (omega arith) fine

  to_sample_timed :
      (t : ℕ) (vs : List fl.F32)
      → to_sample fl (ok (some t, vs)) ≡ ok (t, enumerate 0 (map fl.widen vs))
  unfolding to_sample
  to_sample_timed t vs = refl

  to_sample_untimed : (vs : List fl.F32) → to_sample fl (ok (none, vs)) ≡ err timestamp_not_provided
  unfolding to_sample
  to_sample_untimed vs = refl

  -- The packets of a named channel with a time always give a sample.
  act-ok :
      (name : Bytes) {st : RttScopePacketStructure} (is_sampling : Bool) (p : Bytes)
      → parse_scope_packet_structure name ≡ ok st
      → st.has_u32_us_time ≡ true
      → length p ≡ packet_size st
      → (xs : List (Sample fl.F64)) × (act st is_sampling true p ≡ ok xs)
  act-ok name {st} false p parsed timed h = ([], refl)
  act-ok name {st} true p parsed timed h =
      let (t, vs, e, has, _) = decode_bytes_total fl name p parsed h in go t vs e (has ∙ timed)
    where
      go :
          (t : Option ℕ) (vs : List fl.F32)
          → decode_bytes fl st p ≡ ok (t, vs)
          → has_time fl t ≡ true
          → (xs : List (Sample fl.F64)) × (act st true true p ≡ ok xs)
      go none vs e has = absurd (cc)
      go (some t) vs e has = (
        (t, enumerate 0 (map fl.widen vs)) ∷ [],
        ap (λ m. deliver true (to_sample fl m)) e ∙ ap (deliver true) (to_sample_timed t vs),
      )

  positive_size : (st : RttScopePacketStructure) → st.has_u32_us_time ≡ true → 0 < packet_size st
  unfolding packet_size
  positive_size st timed = rw timed (omega arith)

  -- The loop has taken every whole packet and met no failure.
  abbrev pub AllTaken : RttScopePacketStructure → Drained fl → Type 0
  AllTaken st d = (d.failure ≡ none) × (length d.rest < packet_size st)

  drain-AllTaken :
      (name : Bytes) {st : RttScopePacketStructure} (is_sampling : Bool) (fuel : ℕ) (s : Bytes)
      (count : ℕ)
      → parse_scope_packet_structure name ≡ ok st
      → st.has_u32_us_time ≡ true
      → length s < fuel
      → AllTaken st (drain fl st fuel is_sampling true s count)
  drain-AllTaken name {st} is_sampling zero s count parsed timed h = absurd (omega arith)
  drain-AllTaken name {st} is_sampling (suc fuel) s count parsed timed h =
      elim (short_or_long st s) [
        | inl short ↦
            subst (AllTaken st) (sym (drain_waits st fuel is_sampling true s count short))
              (refl, short)
        | inr long ↦
            let n = packet_size st in
            let some_size : 0 < n = positive_size st timed in
            let (xs, e) =
              act-ok name is_sampling (take n s) parsed timed (omega (arith, length-take n s)) in
            subst (AllTaken st)
              (sym (
                drain-proceed st fuel is_sampling true s count long
                ∙ ap (proceed s count (drain fl st fuel is_sampling true (drop n s) (count + 1)))
                    e))
              (drain-AllTaken name is_sampling fuel (drop n s) (count + 1) parsed timed
                (omega (arith, length-drop n s)))
      ]

  -- With a channel whose name is parsed to a structure with a time, and while samples are received,
  -- no bytes make the loop fail: it takes every whole packet and leaves less than one.
  pub drained_of-AllTaken :
      (name : Bytes) {st : RttScopePacketStructure} (is_sampling : Bool) (s : Bytes) (count : ℕ)
      → parse_scope_packet_structure name ≡ ok st
      → st.has_u32_us_time ≡ true
      → AllTaken st (drained_of st is_sampling true s count)
  drained_of-AllTaken name is_sampling s count parsed timed =
      drain-AllTaken name is_sampling (suc (length s)) s count parsed timed (omega arith)

  -- With a channel whose name is parsed to a structure without a time, the first whole packet ends
  -- the thread while it samples, whatever the bytes.
  pub drained_of_untimed :
      (name : Bytes) {st : RttScopePacketStructure} (open_ : Bool) (s : Bytes) (count : ℕ)
      → parse_scope_packet_structure name ≡ ok st
      → st.has_u32_us_time ≡ false
      → packet_size st ≤ length s
      → (drained_of st true open_ s count).failure ≡ some timestamp_not_provided
  drained_of_untimed name {st} open_ s count parsed untimed long =
      let n = packet_size st in
      let (t, vs, e, has, _) =
        decode_bytes_total fl name (take n s) parsed (omega (arith, length-take n s)) in
      go t vs e (has ∙ untimed)
    where
      go :
          (t : Option ℕ) (vs : List fl.F32)
          → decode_bytes fl st (take (packet_size st) s) ≡ ok (t, vs)
          → has_time fl t ≡ false
          → (drained_of st true open_ s count).failure ≡ some timestamp_not_provided
      go (some t) vs e has = absurd (cc)
      go none vs e has =
          ap (λ (d : Drained fl). d.failure)
            (drain-proceed st (length s) true open_ s count long
              ∙ ap
                  (λ m.
                    proceed s count
                      (drain fl st (length s) true open_ (drop (packet_size st) s) (count + 1))
                      (deliver open_ (to_sample fl m)))
                  e
              ∙ ap
                  (λ m.
                    proceed s count
                      (drain fl st (length s) true open_ (drop (packet_size st) s) (count + 1))
                      (deliver open_ m))
                  (to_sample_untimed vs))
