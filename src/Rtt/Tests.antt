-- ===== src/Rtt/Tests.antt =====
-- The theorems on scope packets at concrete inputs.
use ocdscope.Rtt.Sampler.{ThreadCommand}
use ocdscope.Sampler.Channel.{Worker, is_open, send, tell}
use ocdscope.Prelude.{◌+◌}
use ocdscope.Sampler.{Effect, Next, continue}
use ocdscope.Sampler.Stopping.{IsBlocked, HasEnded}
use ocdscope.Rtt.Handle
use ocdscope.Rtt.Stopping.{status_of, rtt-stop_ends}
use ocdscope.Prelude.{
  ◌≡◌, refl, inl, inr, Option, some, List, [], ◌∷◌, ◌++◌, map, true, length, ok, arith,
}
use ocdscope.Prelude.{ℕ, ◌<◌, ◌≤◌, ◌⊎◌, none, false, err}
use ocdscope.Ttstream.{returned}
use ocdscope.Sampler.{Sample, sampling, received, timestamp_not_provided}
use ocdscope.Rtt.Sampler.{stop, Thread, Round, round, to_sample}
use ocdscope.Rtt.Lifecycle.{IsLawfulRound, round-IsLawful}
use ocdscope.Telnet.Channels.{RttChannel, up}
use ocdscope.Rtt.Setup.{choose, pick_channel, is_candidate, structure_of, available_signals}
use ocdscope.Rtt.Offered.{ids, choose-to_sample}
use ocdscope.Rtt.Framing.{
  drained_of, sends, AllTaken, drain-append, drained_of-AllTaken, drained_of_untimed,
}
use ocdscope.Text.{Bytes, codes, strip_prefix, lower_byte, contains, starts_with}
use ocdscope.Float.Sample.{numbers}
use ocdscope.Rtt.Packet.{
  boolean, signed, RttScopePacketField, RttScopePacketStructure, packet_size, fields_size,
  decode_bytes, parse_scope_packet_structure, chars, parse_field, last_part, is_char_boundary,
  parse_fields,
}
use ocdscope.Rtt.Names.{channel_name, parse_scope_packet_structure-channel_name}
use ocdscope.Rtt.RoundTrip.{Raw, to_le_bytes, encode_fields, value, decode_bytes-encode}

abbrev field : RttScopePacketField
field = record { type_ = signed; size = 2 }

abbrev structure : RttScopePacketStructure
structure = record {
  has_u32_us_time = true;
  fields = field ∷ record { type_ = boolean; size = 1 } ∷ [];
}

parse_scope_packet_structure-channel_name_example :
    parse_scope_packet_structure (channel_name (codes "JScope_") structure) ≡ ok structure
parse_scope_packet_structure-channel_name_example =
    parse_scope_packet_structure-channel_name (codes "JScope_") structure
      (inr (inl refl), (refl, tt))

parsed : parse_scope_packet_structure (codes "JScope_T4I2B1") ≡ ok structure
unfolding parse_scope_packet_structure parse_fields parse_field last_part is_char_boundary chars
    strip_prefix lower_byte
parsed = refl

abbrev packet : Bytes
packet = 1 ∷ 0 ∷ 0 ∷ 0 ∷ 255 ∷ 255 ∷ 1 ∷ []

sized : length packet ≡ packet_size structure
unfolding packet_size fields_size
sized = refl

abbrev raws : List Raw
raws = record { of = field; pattern_ = 65535 } ∷ []

decode_bytes-encode_example :
    decode_bytes numbers
      (record { has_u32_us_time = true; fields = field ∷ [] })
      (to_le_bytes 4 70000 ++ encode_fields raws)
    ≡ ok (some 70000, map (value numbers) raws)
decode_bytes-encode_example =
    decode_bytes-encode numbers 70000 raws (omega arith) ((inr (inl refl), omega arith), tt)

-- A packet and a half, and the rest of the second one.
drained : (drained_of numbers structure true true (packet ++ 2 ∷ 0 ∷ []) 0).failure ≡ none
drained =
    (drained_of-AllTaken numbers (codes "JScope_T4I2B1") true (packet ++ 2 ∷ 0 ∷ []) 0 parsed
      refl).0

some_size : 0 < packet_size structure
unfolding packet_size fields_size
some_size = omega arith

drain-append_example :
    drained_of numbers structure true true ((packet ++ 2 ∷ 0 ∷ []) ++ 0 ∷ 0 ∷ 5 ∷ 0 ∷ 0 ∷ []) 0
    ≡ sends numbers (drained_of numbers structure true true (packet ++ 2 ∷ 0 ∷ []) 0).samples (
        drained_of numbers structure true true
          ((drained_of numbers structure true true (packet ++ 2 ∷ 0 ∷ []) 0).rest
            ++ 0 ∷ 0 ∷ 5 ∷ 0 ∷ 0 ∷ [])
          (drained_of numbers structure true true (packet ++ 2 ∷ 0 ∷ []) 0).count)
drain-append_example =
    drain-append numbers structure true true (packet ++ 2 ∷ 0 ∷ []) (0 ∷ 0 ∷ 5 ∷ 0 ∷ 0 ∷ []) 0
      some_size drained

drained_of-AllTaken_example :
    AllTaken numbers structure (drained_of numbers structure true true packet 0)
drained_of-AllTaken_example =
    drained_of-AllTaken numbers (codes "JScope_T4I2B1") true packet 0 parsed refl

abbrev untimed : RttScopePacketStructure
untimed = record { has_u32_us_time = false; fields = field ∷ [] }

parsed_untimed : parse_scope_packet_structure (codes "JScope_I2") ≡ ok untimed
unfolding parse_scope_packet_structure parse_fields parse_field last_part is_char_boundary chars
    strip_prefix lower_byte
parsed_untimed = refl

one_packet : packet_size untimed ≤ 2
unfolding packet_size fields_size
one_packet = omega arith

drained_of_untimed_example :
    (drained_of numbers untimed true true (1 ∷ 2 ∷ []) 0).failure ≡ some timestamp_not_provided
drained_of_untimed_example =
    drained_of_untimed numbers (codes "JScope_I2") true (1 ∷ 2 ∷ []) 0 parsed_untimed refl
      one_packet

abbrev thread : Thread
thread = record {
  status = sampling;
  buffer = [];
  previous_rate_measurement = 0;
  rate_measurement_samples_received = 0;
}

abbrev stop_round : Round
stop_round = record {
  command = received stop;
  reading = returned packet;
  now = 1;
  samples_open = true;
  places = none;
  notifications_open = true;
  server_stops = true;
}

round-IsLawful_example :
    IsLawfulRound numbers structure sampling (round numbers structure thread stop_round)
round-IsLawful_example = round-IsLawful numbers structure thread stop_round

abbrev scope_channel : RttChannel
scope_channel = record {
  id = 1;
  name = codes "JScope_T4I2B1";
  buffer_size = 512;
  flags = 0;
  direction = up;
}

chosen : choose (ok (scope_channel ∷ [])) ≡ ok (scope_channel, structure)
unfolding choose pick_channel is_candidate contains starts_with structure_of
    parse_scope_packet_structure parse_fields parse_field last_part is_char_boundary chars
    strip_prefix lower_byte
chosen = refl

choose-to_sample_example :
    (structure.has_u32_us_time ≡ true)
      × ((x : Sample (Option ℕ)) × (to_sample numbers (decode_bytes numbers structure packet)
            ≡ ok x)
          × (ids x.1 ≡ ids (available_signals structure)))
    ⊎ (structure.has_u32_us_time ≡ false)
      × (to_sample numbers (decode_bytes numbers structure packet) ≡ err timestamp_not_provided)
choose-to_sample_example =
    choose-to_sample numbers (ok (scope_channel ∷ [])) scope_channel structure packet chosen sized

told : Worker ThreadCommand Thread
unfolding Handle.set_active_signals Handle.pause Handle.resume
told = Handle.resume (
    Handle.pause
      (Handle.set_active_signals (3 ∷ []) (record { queue = []; thread = continue thread })))

told-free : ¬ IsBlocked told.thread
unfolding told tell send is_open
told-free e = e

told-enough :
    length told.queue + 3
    ≤ length (stop_round ∷ stop_round ∷ stop_round ∷ stop_round ∷ stop_round ∷ [])
unfolding told tell send is_open
told-enough = omega arith

rtt-stop_ends_example :
    (x : List (Effect (Option ℕ)) × Next Thread) × (Handle.stop numbers structure {E = Unit {0}}
        true true
        (stop_round ∷ stop_round ∷ stop_round ∷ stop_round ∷ stop_round ∷ [])
        told
      ≡ ok x)
    × HasEnded {V = Option ℕ} status_of ⊥ x
rtt-stop_ends_example =
    rtt-stop_ends numbers structure some_size true true
      (stop_round ∷ stop_round ∷ stop_round ∷ stop_round ∷ stop_round ∷ []) told (λ _ _. refl)
      told-free told-enough (refl, (refl, (refl, (refl, (refl, tt)))))
