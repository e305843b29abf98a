-- ===== src/Ttstream/Tests.antt =====
-- The theorems on timestamped streams at concrete inputs.
use ocdscope.Prelude.{◌≡◌, ◌↔◌, refl, true, [], ◌∷◌, arith, ok}
use ocdscope.Text.{codes}
use ocdscope.Ttstream.{
  Timestamp, TimestampedTcpStream, scm_timestamping, unexpected_cmsg, Reading, Sending, returned,
  failed, would_block, receive, send,
}
use ocdscope.Ttstream.Laws.{best_stamp, receive_lem, send_whole}

abbrev stamping : TimestampedTcpStream
stamping = record { timestamping_enabled = true }

abbrev reading : Reading
reading = record {
  outcome = returned (codes "OK");
  control = unexpected_cmsg 1 2 ∷ scm_timestamping 3 4 ∷ [];
  read_at = 5;
}

receive_lem_example : receive stamping reading ≡ ok (codes "OK", best_stamp true reading.control 5)
receive_lem_example = receive_lem stamping reading (codes "OK") refl (tt, (omega arith, tt))

abbrev sending : Sending
sending = record {
  written = returned 2;
  sent_at = 7;
  errqueue = failed would_block;
  errqueue_control = [];
}

send_whole_example :
    ((t : Timestamp) × (send stamping (codes "OK") sending ≡ ok t)) ↔ (sending.written ≡ returned 2)
send_whole_example = send_whole stamping (codes "OK") sending refl tt
