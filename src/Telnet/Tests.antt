-- ===== src/Telnet/Tests.antt =====
-- The theorems on the Telnet client at concrete inputs.
use ocdscope.Prelude.{◌≡◌, ◌++◌, refl, [], ◌∷◌, ℕ, arith}
use ocdscope.Text.{Bytes, codes, starts_with, is_ascii_whitespace}
use ocdscope.Telnet.Lines.{
  data_event, Poll, TelnetInterface, without_nul, read_line, wait_line_with,
}
use ocdscope.Telnet.Reading.{line_of, IsLine, to_come, Delivered, read_line-Delivered}
use ocdscope.Telnet.Budget.{WithinFuel, wait_line_with-WithinFuel}
use ocdscope.Telnet.Channels.{RttChannel, RttChannelDirection, up, down, parse_rtt_channels}
use ocdscope.Telnet.Channels.Laws.{IsListed, listing, parse_rtt_channels-listing}

abbrev poll : ℕ → Bytes → Poll
poll now s = record { now = now; event = data_event s }

-- Two events cut a line in two, and a NOP stands between its last bytes.
abbrev interface : TelnetInterface
interface = record {
  timeout_after = 200;
  buffer = codes "ha";
  polls = poll 1 (codes "lted\r") ∷ poll 2 (0 ∷ codes "\n> ") ∷ [];
  writes = [];
  written = [];
}

halted-IsLine : IsLine (codes "halted")
unfolding starts_with
halted-IsLine = record {
  lacks = (
    λ e. omega arith,
    (
      λ e. omega arith,
      (λ e. omega arith, (λ e. omega arith, (λ e. omega arith, (λ e. omega arith, tt)))),
    ),
  );
  kept = refl;
}

cut_line : interface.buffer ++ to_come interface.polls ≡ line_of (codes "halted") ++ codes "> "
unfolding without_nul
cut_line = refl

read_line-Delivered_example :
    Delivered (line_of (codes "halted")) (codes "> ") (read_line 100 interface)
read_line-Delivered_example =
    read_line-Delivered 100 interface (codes "halted") (codes "> ") halted-IsLine
      (record { early = omega arith; fine = tt }, (record { early = omega arith; fine = tt }, tt))
      cut_line

wait_line_with-WithinFuel_example :
    WithinFuel (wait_line_with 100 (starts_with (codes "ready")) interface)
wait_line_with-WithinFuel_example =
    wait_line_with-WithinFuel 100 (starts_with (codes "ready")) interface

abbrev channel : RttChannelDirection → RttChannel
channel d = record { id = 2; name = codes "T4"; buffer_size = 4096; flags = 0; direction = d }

channel-IsListed : (d : RttChannelDirection) → IsListed (channel d)
unfolding is_ascii_whitespace
channel-IsListed d = record {
  named = λ e. cc;
  word = (refl, (refl, tt));
  no_colon = (λ e. omega arith, (λ e. omega arith, tt));
  id_fits = omega arith;
  size_fits = omega arith;
  flags_fit = omega arith;
}

parse_rtt_channels-listing_example :
    parse_rtt_channels (listing (codes "up=1, down=1") (channel up ∷ []) (channel down ∷ []))
    ≡ channel up ∷ channel down ∷ []
parse_rtt_channels-listing_example =
    parse_rtt_channels-listing (codes "up=1, down=1") (channel up ∷ []) (channel down ∷ [])
      ((channel-IsListed up, refl), tt) ((channel-IsListed down, refl), tt)
