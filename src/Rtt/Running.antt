-- ===== src/Rtt/Running.antt =====
-- The loop over the packets of a buffer (src/sampler/rttsampler.rs) comes to its end, where a packet
-- has a byte at least.
use ocdscope.Prelude.{
  ℕ, zero, suc, ◌+◌, ◌<◌, ◌≡◌, ◌≢◌, sym, ap, ◌∙◌, inl, inr, Bool, true, false, some, none, Option,
  List, length, length-drop, take, drop, Outcome, ok, err, panic, arith,
}
use ocdscope.Text.{Bytes}
use ocdscope.Float.{Floats}
use ocdscope.Sampler.{Failure, still_running, Sample}
use ocdscope.Rtt.Packet.{RttScopePacketStructure, packet_size, decode_bytes, Maybe}
use ocdscope.Rtt.Sampler.{to_sample, drain}
use ocdscope.Rtt.Framing.{deliver, act, proceed, short_or_long, drain_waits, drain-proceed}

module _ (fl : Floats) where
  to_sample-ends : (m : Maybe (Option ℕ × List fl.F32)) → to_sample fl m ≢ err still_running
  unfolding to_sample
  to_sample-ends (ok (some time, values)) e = cc
  to_sample-ends (ok (none, values)) e = cc
  to_sample-ends (err f) e = cc
  to_sample-ends panic e = cc

  deliver-ends :
      (open_ : Bool) (m : Outcome Failure (Sample fl.F64))
      → m ≢ err still_running
      → deliver fl open_ m ≢ err still_running
  deliver-ends true (ok x) h e = cc
  deliver-ends false (ok x) h e = cc
  deliver-ends open_ (err f) h e = h (cc)
  deliver-ends open_ panic h e = cc

  module _ (st : RttScopePacketStructure) where
    act-ends :
        (is_sampling open_ : Bool) (p : Bytes) → act fl st is_sampling open_ p ≢ err still_running
    act-ends false open_ p e = cc
    act-ends true open_ p e =
        deliver-ends open_ (to_sample fl (decode_bytes fl st p))
          (to_sample-ends (decode_bytes fl st p)) e

    -- With more fuel than bytes the loop does not run out of it.
    pub drain-ends :
        (fuel : ℕ) (is_sampling open_ : Bool) (s : Bytes) (count : ℕ)
        → 0 < packet_size st
        → length s < fuel
        → (drain fl st fuel is_sampling open_ s count).failure ≢ some still_running
    drain-ends zero is_sampling open_ s count some_size h e = absurd (omega arith)
    drain-ends (suc fuel) is_sampling open_ s count some_size h e = elim (short_or_long fl st s) [
      | inl short ↦
          let f = ap (λ d. d.failure) (drain_waits fl st fuel is_sampling open_ s count short) in
          absurd (cc)
      | inr long ↦
          let rest = drop (packet_size st) s in
          let later =
            drain-ends fuel is_sampling open_ rest (count + 1) some_size
              (omega (arith, length-drop (packet_size st) s)) in
          go (act fl st is_sampling open_ (take (packet_size st) s))
            (act-ends is_sampling open_ (take (packet_size st) s)) later
            (sym (ap (λ d. d.failure) (drain-proceed fl st fuel is_sampling open_ s count long))
              ∙ e)
    ]
      where
        go :
            (m : Outcome Failure (List (Sample fl.F64)))
            → m ≢ err still_running
            → (drain fl st fuel is_sampling open_ (drop (packet_size st) s) (count + 1)).failure
              ≢ some still_running
            → (proceed fl s count
                (drain fl st fuel is_sampling open_ (drop (packet_size st) s) (count + 1))
                m).failure
              ≡ some still_running
            → ⊥
        go (ok xs) h k f = k f
        go (err x) h k f = h (cc)
        go panic h k f = cc
