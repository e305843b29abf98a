-- ===== src/Sampler/Channel.antt =====
-- The handle of a sampler and the channel of its commands: `pause`, `resume`, `set_active_signals` and
-- `stop` of src/sampler/fakesampler.rs, src/sampler/memsampler.rs and src/sampler/rttsampler.rs.
use ocdscope.Prelude.{
  ◌++◌, ◌||◌, Bool, true, false, List, [], ◌∷◌, if◌then◌else◌, Outcome, ok, ◌>>◌, debug_assert,
}
use ocdscope.Sampler.{
  blocked, Status, initializing, sampling, paused, terminated, Effect, TryRecv, received, empty,
  Next, continue, finished, failed_with, waits, died, run_on,
}

-- A thread with the commands that are in its channel.
pub record Worker (C S : Type 0) : Type 0 where
  pub queue : List C
  pub thread : Next S

-- What the loop takes from the channel in a status: it does not look there before it samples, nor
-- when it has terminated.
unfoldable pub taken : {C : Type 0} → Status → List C → TryRecv C × List C
taken initializing q = (empty, q)
taken terminated q = (empty, q)
taken sampling [] = (empty, [])
taken sampling (c ∷ q) = (received c, q)
taken paused [] = (empty, [])
taken paused (c ∷ q) = (received c, q)

-- The receiver lives in the thread.
unfoldable pub is_open : {S : Type 0} → Next S → Bool
is_open (continue t) = true
is_open (waits t) = true
is_open (blocked t) = true
is_open finished = false
is_open (failed_with f) = false
is_open (died t) = false

module _ {C S : Type 0} where
  -- `command_tx.send`, and whether the command was sent.
  unfoldable pub send : C → Worker C S → Worker C S × Bool
  send c w = if is_open w.thread then (record w { queue = w.queue ++ c ∷ [] }, true) else (w, false)

  -- A command of the handle; that it was not sent is only logged.
  unfoldable pub tell : C → Worker C S → Worker C S
  unfolding send
  tell c w = (send c w).0

  module _ {V R : Type 0} (status_of : S → Status) (give : TryRecv C → R → R)
      (round : S → R → List (Effect V) × Next S) where
    -- The rounds of a thread whose commands come from the channel, while none is added.
    unfoldable pub serve : List R → List C → S → List (Effect V) × Next S
    unfolding run_on taken
    serve [] q t = ([], continue t)
    serve (r ∷ rs) q t =
        let (c, q') = taken (status_of t) q in run_on (serve rs q') (round t (give c r))

    -- `join_handle.join`: the thread is left to run. Nobody takes samples from their channel meanwhile,
    -- so a thread that is blocked stays blocked, and `join` does not return.
    unfoldable pub join_by : List R → List C → Next S → List (Effect V) × Next S
    unfolding serve
    join_by rs q (continue t) = serve rs q t
    join_by rs q (waits t) = serve rs q t
    join_by rs q next = ([], next)

    unfoldable pub join : List R → Worker C S → List (Effect V) × Next S
    unfolding join_by
    join rs w = join_by rs w.queue w.thread

    -- `stop` of a sampler: in debug builds it asserts that a thread which takes no command any more is
    -- finished.
    unfoldable pub stop_worker :
        {E : Type 0} → Bool → Bool → C → List R → Worker C S → Outcome E (List (Effect V) × Next S)
    unfolding send join
    stop_worker debug is_finished c rs w =
        let (w', was_sent) = send c w in
        debug_assert debug (was_sent || is_finished) >> ok (join rs w')
