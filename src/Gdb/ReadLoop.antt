-- ===== src/Gdb/ReadLoop.antt =====
-- One round of the loop of `read_response`, by what the buffer and the socket give.
use ocdscope.Prelude.{ℕ, ◌≡◌, refl, none, some, List, [], ◌∷◌, ok, err, panic}
use ocdscope.Gdb.Packet.{GdbRemoteError, Result}
use ocdscope.Gdb.Remote.{GdbRemote, Answer, Poll, attempt, feed_buffer_from_stream, read_loop}

pub read_loop-answered :
    (timeout_at : ℕ) (g g' : GdbRemote) (a : Answer) (ps : List Poll)
    → attempt g ≡ some (g', a)
    → read_loop timeout_at g ps ≡ record { client = g'; answer = some a; left = ps }
unfolding read_loop
read_loop-answered timeout_at g g' a [] e = rw (read_loop, e)
read_loop-answered timeout_at g g' a (p ∷ ps) e = rw (read_loop, e)

pub read_loop-waiting :
    (timeout_at : ℕ) (g : GdbRemote)
    → attempt g ≡ none
    → read_loop timeout_at g [] ≡ record { client = g; answer = none; left = [] }
unfolding read_loop
read_loop-waiting timeout_at g e = rw (read_loop, e)

-- How a round that has to feed the buffer goes on.
pub data Fed (timeout_at : ℕ) (g : GdbRemote) (p : Poll) (ps : List Poll) : Type 0 where
  more :
      (feed_buffer_from_stream timeout_at g p).1 ≡ ok tt
      → read_loop timeout_at g (p ∷ ps)
        ≡ read_loop timeout_at (feed_buffer_from_stream timeout_at g p).0 ps
      → Fed timeout_at g p ps
  gave_up :
      (e : GdbRemoteError)
      → (feed_buffer_from_stream timeout_at g p).1 ≡ err e
      → read_loop timeout_at g (p ∷ ps) ≡ record {
        client = (feed_buffer_from_stream timeout_at g p).0;
        answer = some (err e);
        left = ps;
      }
      → Fed timeout_at g p ps
  broke :
      (feed_buffer_from_stream timeout_at g p).1 ≡ panic
      → read_loop timeout_at g (p ∷ ps) ≡ record {
        client = (feed_buffer_from_stream timeout_at g p).0;
        answer = some panic;
        left = ps;
      }
      → Fed timeout_at g p ps

pub read_loop-Fed :
    (timeout_at : ℕ) (g : GdbRemote) (p : Poll) (ps : List Poll)
    → attempt g ≡ none
    → Fed timeout_at g p ps
unfolding read_loop
read_loop-Fed timeout_at g p ps e = go (feed_buffer_from_stream timeout_at g p).1 refl
  where
    go :
        (r : Result (Unit {0}))
        → (feed_buffer_from_stream timeout_at g p).1 ≡ r
        → Fed timeout_at g p ps
    go (ok tt) f = more f (rw (read_loop, e, f))
    go (err x) f = gave_up x f (rw (read_loop, e, f))
    go panic f = broke f (rw (read_loop, e, f))
