-- ===== src/Mem/Tests.antt =====
-- The theorems on the memory sampler at concrete inputs: the word is 1.5 as an `f32`.
use ocdscope.Prelude.{some, Option, ok, length}
use ocdscope.Sampler.{continue, paused, Effect, Next, waits}
use ocdscope.Sampler.Channel.{Worker, is_open, send as send_command, tell}
use ocdscope.Sampler.Stopping.{then_status, IsBlocked, HasEnded}
use ocdscope.Sampler.Channel.{Worker, is_open, send as send_command, tell}
use ocdscope.Mem.Handle
use ocdscope.Mem.Stopping.{mem-stop_ends}
use ocdscope.Prelude.{
  ℕ, ◌+◌, ◌≤◌, ◌≡◌, refl, Bool, true, false, none, List, [], ◌∷◌, append-nil, ok, arith,
}
use ocdscope.Text.{Bytes, codes, format_hex, hex_digit}
use ocdscope.Ttstream.{
  Timestamp, fallback, Sending, returned, failed, would_block, send, tx_stamp, get_tx_timestamp,
  stamp,
}
use ocdscope.Sampler.{sampling, initializing, TryRecv, received, empty, sent, run}
use ocdscope.Sampler.Commands.{Command, set_active, pause, stop}
use ocdscope.Sampler.History.{Announces}
use ocdscope.Gdb.Packet.{build_gdb_packet, checksum}
use ocdscope.Gdb.Stream.{encode}
use ocdscope.Mem.Session.{Reading, Exchange}
use ocdscope.Mem.Sampler.{Round, Thread, take_sample, round}
use ocdscope.Mem.Served.{IsIdle, Brings, Word, spelled_word, alive, at_once, later, Serves, values}
use ocdscope.Mem.Sampling.{announcement, take_sample-AllServed}
use ocdscope.Mem.Rounds.{status_of, mem-Announces}
use ocdscope.Float.Sample.{numbers}
use ocdscope.Gdb.Remote.{Response, packet, GdbRemote, has_start, has_byte}
use ocdscope.Mem.{read_request, sampled, on_response}
use ocdscope.Mem.Laws.{hex_of, on_response-hex_of}

on_response-hex_of_example :
    on_response numbers (packet (hex_of (0 ∷ 0 ∷ 0xC0 ∷ 0x3F ∷ [])))
    ≡ sampled (numbers.widen (numbers.bits_f32 0x3FC0_0000))
on_response-hex_of_example =
    on_response-hex_of numbers 0 0 0xC0 0x3F (omega arith) (omega arith) (omega arith) (omega arith)

-- A client that waits 100 nanoseconds, and a server that keeps the connection alive, then replies.
abbrev client : GdbRemote
client = record {
  stream = record { timestamping_enabled = true };
  timeout_after = 100;
  data_buffer = [];
  last_rx_packet_timestamp = none;
}

client-IsIdle : IsIdle 100 client
unfolding has_start has_byte
client-IsIdle = record { stamped_ = λ e. absurd (cc); emptied = refl; waits_for = refl }

abbrev word : Word
word = record {
  b0 = 0;
  b1 = 0;
  b2 = 0xC0;
  b3 = 0x3F;
  small = (omega arith, omega arith, omega arith, omega arith);
}

abbrev reading_of : Response → Reading
reading_of response = record {
  now = 0;
  polls =
      record {
        now = 1;
        reading = record { outcome = returned (encode response); control = []; read_at = 1 };
      }
      ∷ [];
}

reading_of-Brings : (d : Bytes) → Brings 100 (packet d) (reading_of (packet d))
unfolding encode build_gdb_packet
reading_of-Brings d = record {
  arrive = (record { early = omega arith; some_bytes = λ e. cc; sane = tt }, tt);
  spelled = append-nil (encode (packet d));
}

abbrev sending : Sending
sending = record {
  written = returned 16;
  sent_at = 7;
  errqueue = failed would_block;
  errqueue_control = [];
}

abbrev exchange : Exchange
exchange = record {
  sending = sending;
  readings = reading_of alive ∷ reading_of (spelled_word word) ∷ [];
}

sends_whole :
    (b : Bool)
    → (t : Timestamp) × (send
          (record { timestamping_enabled = b })
          (build_gdb_packet (read_request 16))
          sending
        ≡ ok t)
unfolding send tx_stamp get_tx_timestamp stamp build_gdb_packet read_request checksum format_hex
    hex_digit
sends_whole true = (fallback 7, refl)
sends_whole false = (fallback 7, refl)

exchange-Serves : Serves 100 16 word exchange
exchange-Serves = record {
  sends = λ s. sends_whole s.timestamping_enabled;
  replies = later _ _ (reading_of-Brings (codes "O")) (at_once _ _ (reading_of-Brings _));
}

abbrev thread : Thread
thread = record {
  status = sampling;
  last_sampled_at = 0;
  active_memory_addresses = 16 ∷ [];
  client = client;
  start = 0;
  period = 1_000_000;
}

abbrev round_of : TryRecv Command → Round
round_of c = record {
  command = c;
  now = 0;
  sending = sending;
  exchanges = exchange ∷ [];
  samples_open = true;
  has_place = true;
  notifications_open = true;
}

take_sample-AllServed_example :
    (g : GdbRemote) × (time : ℕ) × (take_sample numbers thread (round_of empty) (some paused) ≡ (
      sent (time, values numbers (16 ∷ []) (word ∷ []))
          ∷ announcement numbers thread.status (some paused),
      continue (record thread {
        status = then_status thread.status (some paused);
        last_sampled_at = 0 + 1_000_000;
        client = g;
      }),
    ))
    × IsIdle 100 g
take_sample-AllServed_example =
    take_sample-AllServed numbers 100 thread (round_of empty) (some paused) 16 [] word [] refl
      client-IsIdle refl refl refl (exchange-Serves, tt)

abbrev rounds : List Round
rounds =
    round_of empty
    ∷ round_of (received (set_active []))
    ∷ round_of (received pause)
    ∷ round_of (received stop)
    ∷ round_of empty
    ∷ []

abbrev started : Thread
started = record thread { status = initializing }

mem-Announces_example :
    Announces status_of (round numbers) initializing (run (round numbers) rounds started)
mem-Announces_example = mem-Announces numbers rounds started

told : Worker Command Thread
unfolding Handle.set_active_signals Handle.pause Handle.resume
told =
    Handle.resume
      (Handle.pause (Handle.set_active_signals [] (record { queue = []; thread = waits thread })))

told-free : ¬ IsBlocked told.thread
unfolding told tell send_command is_open
told-free e = e

told-enough : length told.queue + 3 ≤ length (round_of empty ∷ rounds)
unfolding told tell send_command is_open
told-enough = omega arith

mem-stop_ends_example :
    (x : List (Effect (Option ℕ)) × Next Thread) × (Handle.stop numbers {E = Unit {0}} true true
        (round_of empty ∷ rounds)
        told
      ≡ ok x)
    × HasEnded {V = Option ℕ} status_of (Unit {0}) x
mem-stop_ends_example =
    mem-stop_ends numbers true true (round_of empty ∷ rounds) told (λ _ _. refl) told-free
      told-enough (refl, (refl, (refl, (refl, (refl, (refl, tt))))))
