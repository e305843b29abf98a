-- ===== src/Mem/Sampling.antt =====
-- What a round of the memory sampler (src/sampler/memsampler.rs) sends, and its time.
use ocdscope.Prelude.{
  refl, sym, if◌then◌else◌, inr, inl, Bool-cases, ℕ, ◌+◌, ◌-◌, ◌/◌, ◌^◌, ◌<◌, ◌≤◌, ◌≡◌, ap, ◌∙◌,
  true, Option, none, some, List, [], ◌∷◌, le→leb, ok, arith,
}
use ocdscope.Float.{Floats}
use ocdscope.Sampler.{
  Status, same_status, Sample, Effect, sent, notified, new_status, continue, switch_status,
  conclude,
}
use ocdscope.Sampler.History.{same_status-eq}
use ocdscope.Sampler.Stopping.{then_status}
use ocdscope.Gdb.Remote.{GdbRemote}
use ocdscope.Mem.Session.{Gathered, gather, micros_since, averaged}
use ocdscope.Mem.Sampler.{
  Round, Thread, settle, sample_time, send_sample, after_gather, take_sample,
}
use ocdscope.Mem.Served.{IsIdle, Word, AllServed, values, gather-AllRead}

-- If the request is sent after the start and the response comes no earlier than it, and both less
-- than 2 ^ 63 microseconds after the start, the time of the sample lies between their times.
pub averaged-between :
    (start request response : ℕ)
    → start ≤ request
    → request ≤ response
    → (response - start) / 1000 < 2 ^ 63
    → let time = averaged (micros_since start request) (micros_since start response) in
      ((request - start) / 1000 ≤ time) × (time ≤ (response - start) / 1000)
unfolding averaged micros_since
averaged-between start request response h k small =
    rw (le→leb start request h, le→leb start response (omega arith)) (omega arith, omega arith)

module _ (fl : Floats) where
  cons_nil : (a : ℕ) (xs : List ℕ) → a ∷ xs ≡ [] → ⊥
  cons_nil a xs e = cc

  after_gather-sent :
      (t : Thread) (r : Round) (wanted : Option Status) (x : Gathered fl) (y : ℕ × fl.F64)
      (ys : List (ℕ × fl.F64)) (requested response : ℕ)
      → x.samples ≡ y ∷ ys
      → x.requested_at ≡ some requested
      → x.received_at ≡ some response
      → r.samples_open ≡ true
      → r.has_place ≡ true
      → after_gather fl t r wanted (ok x)
        ≡ settle fl
            (record t { client = x.client })
            r
            wanted
            (sent
                (averaged (micros_since t.start requested) (micros_since t.start response), y ∷ ys)
              ∷ [])
  unfolding after_gather sample_time send_sample
  after_gather-sent t r wanted x y ys requested response s e f o k =
      let time = averaged (micros_since t.start requested) (micros_since t.start response) in
      rw (after_gather, s, e, f, send_sample, o, k)
        (ap (λ l. settle fl (record t { client = x.client }) r wanted (sent (time, l) ∷ [])) s)

  -- What is notified where a status is wanted.
  abbrev pub announcement : Status → Option Status → List (Effect fl.F64)
  announcement s none = []
  announcement s (some x) = if same_status x s then [] else notified (new_status x) ∷ []

  -- The end of a round whose notifications are received.
  settle-continue :
      (t : Thread) (r : Round) (wanted : Option Status) (x : Sample fl.F64)
      → r.notifications_open ≡ true
      → settle fl t r wanted (sent x ∷ []) ≡ (
        sent x ∷ announcement t.status wanted,
        continue (record t { status = then_status t.status wanted }),
      )
  unfolding settle conclude switch_status then_status
  settle-continue t r none x o = refl
  settle-continue t r (some y) x o = elim (Bool-cases (same_status y t.status)) [
    | inl e ↦ rw e (
        ap (λ z. (sent x ∷ [], continue (record t { status = z })))
          (sym (same_status-eq y t.status e)))
    | inr e ↦ rw (e, o) refl
  ]

  -- With some active addresses, an idle client, a place in the channel of samples, and receivers of the
  -- samples and the notifications, if the server replies to each request with a word, after any
  -- number of packets that keep the connection alive, and its packets come in time however they are
  -- cut, then the round does not wait, fail or panic: it sends one sample, with the float of its word
  -- for each address, in their order, and the thread goes on in the status that was wanted, which it
  -- has notified where it is another, with an idle client.
  pub take_sample-AllServed :
      (timeout : ℕ) (t : Thread) (r : Round) (wanted : Option Status) (a : ℕ) (addresses : List ℕ)
      (w : Word) (ws : List Word)
      → t.active_memory_addresses ≡ a ∷ addresses
      → IsIdle timeout t.client
      → r.samples_open ≡ true
      → r.has_place ≡ true
      → r.notifications_open ≡ true
      → AllServed timeout (a ∷ addresses) (w ∷ ws) r.exchanges
      → (g : GdbRemote) × (time : ℕ) × (take_sample fl t r wanted ≡ (
        sent (time, values fl (a ∷ addresses) (w ∷ ws)) ∷ announcement t.status wanted,
        continue (record t {
          status = then_status t.status wanted;
          last_sampled_at = t.last_sampled_at + t.period;
          client = g;
        }),
      ))
        × IsIdle timeout g
  unfolding take_sample
  take_sample-AllServed timeout t r wanted a addresses w ws active idle open_ place heard served =
      let all =
        gather-AllRead fl timeout (a ∷ addresses) (w ∷ ws) r.exchanges t.client none none idle
          served in
      let ((req, e), (res, f)) = all.times (λ h. absurd (cons_nil a addresses h)) in
      let t' = record t { last_sampled_at = t.last_sampled_at + t.period } in
      (
        all.gathered.client,
        averaged (micros_since t.start req) (micros_since t.start res),
        ap (λ l. after_gather fl t' r wanted (gather fl t.client none none l r.exchanges)) active
            ∙ ap (after_gather fl t' r wanted) all.result
            ∙ after_gather-sent t' r wanted all.gathered _ _ req res all.samples e f open_ place
            ∙ settle-continue (record t' { client = all.gathered.client }) r wanted _ heard,
        all.idle,
      )
