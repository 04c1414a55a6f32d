-- ===== src/Diagnostics/AsyncSink/Drains.antt =====
-- `flush` of ts-core/src/diagnostics/async-sink.ts comes to an end.
use mc_servant.Base.{
  ℕ, suc, ◌+◌, ◌<◌, ◌≡◌, refl, sym, ap, subst, ◌∙◌, Bool, true, false, not, List, [], ◌∷◌, ◌++◌,
  arith, length, is_none,
}
use mathlib.Core.List.{append-nil, append_assoc}
use mc_servant.Diagnostics.AsyncSink.{
  Sink, Event, runs, settles, settle, drain_next, drain, run_scheduled, step, run,
}
use mc_servant.Diagnostics.AsyncSink.Invariant.{Inv, awake}

-- A drain that is running and needs at most `k` more ends of writes, or nothing left to do.
record Quiet {R : Type 0} (k : ℕ) (s : Sink R) : Type 0 where
  alone : s.scheduled ≡ false
  busy : s.in_flight ≡ not (is_none s.writing)
  empty : s.in_flight ≡ false → s.queue ≡ []
  unheard : s.in_flight ≡ false → s.idle_waiters ≡ 0
  enough : s.in_flight ≡ true → length s.queue < k

-- From `s` to `t` nothing is lost: the records that waited are written, in their order, and the
-- waiters are called.
record Flushed {R : Type 0} (s t : Sink R) : Type 0 where
  pub records : t.written ++ t.queue ≡ s.written ++ s.queue
  pub waiters : t.resolved + t.idle_waiters ≡ s.resolved + s.idle_waiters

module _ {R : Type 0} where
  settle-Quiet : (k : ℕ) (ok : Bool) (s : Sink R) → Quiet (suc k) s → Quiet k (settle ok s)
  unfolding settle drain_next
  settle-Quiet k ok s h = record {
    alone = ground (arith, h.alone, h.busy);
    busy = ground (arith, h.busy);
    empty = λ q. ground (arith, h.busy, h.empty);
    unheard = λ q. ground (arith, h.alone, h.busy, h.unheard);
    enough = λ q. ground (arith, h.busy, h.enough);
  }

  settle-Flushed : (ok : Bool) (s : Sink R) → s.scheduled ≡ false → Flushed s (settle ok s)
  unfolding settle drain_next
  settle-Flushed ok s h = record { records = grind (arith, append_assoc); waiters = ground arith }

  -- The ends of writes, one after the other, each a success or a failure.
  abbrev pub ends : List Bool → List (Event R)
  ends [] = []
  ends (ok ∷ oks) = settles ok ∷ ends oks

  -- Nothing is left to do.
  record Idle (s : Sink R) : Type 0 where
    pub no_records : s.queue ≡ []
    pub no_drain : awake s ≡ false
    pub no_waiters : s.idle_waiters ≡ 0

  ends-Idle :
      (max : ℕ) (priority : R → ℕ) (oks : List Bool) (s : Sink R)
      → Quiet (length oks) s
      → Idle (run max priority s (ends oks)) × Flushed s (run max priority s (ends oks))
  unfolding run step
  ends-Idle max priority [] s h = (
    record {
      no_records = ground (arith, h.empty, h.enough);
      no_drain = ground (arith, h.alone, h.enough);
      no_waiters = ground (arith, h.unheard, h.enough);
    },
    record { records = refl; waiters = refl },
  )
  ends-Idle max priority (ok ∷ oks) s h =
      let (i, f) = ends-Idle max priority oks (settle ok s) (settle-Quiet (length oks) ok s h) in
      let g = settle-Flushed ok s h.alone in
      (i, record { records = f.records ∙ g.records; waiters = f.waiters ∙ g.waiters })

  runs-Quiet :
      (max n : ℕ) (s : Sink R) → Inv max n s → Quiet (suc (length s.queue)) (run_scheduled s)
  unfolding run_scheduled drain drain_next
  runs-Quiet max n s h = record {
    alone = ground arith;
    busy = ground (arith, h.busy);
    empty = λ q. ground (arith, h.served, h.single);
    unheard = λ q. ground (arith, h.heard, h.single);
    enough = λ q. ground arith;
  }

  runs-Flushed : (s : Sink R) → Flushed s (run_scheduled s)
  unfolding run_scheduled drain drain_next
  runs-Flushed s = record { records = grind (arith, append_assoc); waiters = ground arith }

  -- From every state that the calls can lead to, the pending drain and one end of a write more
  -- than there are records in the queue bring the sink to rest: each waiting `flush` is resolved,
  -- whether the writes fail or not, and the records are given to `write` in their order.
  pub run-Idle :
      (max n : ℕ) (priority : R → ℕ) (s : Sink R) (oks : List Bool)
      → Inv max n s
      → length oks ≡ suc (length s.queue)
      → let t = run max priority s (runs ∷ ends oks) in
        (t.queue ≡ [])
        × (awake t ≡ false)
        × (t.idle_waiters ≡ 0)
        × (t.resolved ≡ s.resolved + s.idle_waiters)
        × (t.written ≡ s.written ++ s.queue)
  unfolding run step
  run-Idle max n priority s oks h e =
      let (i, f) =
        ends-Idle max priority oks (run_scheduled s)
          (subst (λ k. Quiet k (run_scheduled s)) (sym e) (runs-Quiet max n s h)) in
      let g = runs-Flushed s in
      (
        i.no_records,
        i.no_drain,
        i.no_waiters,
        omega (arith, f.waiters, g.waiters, i.no_waiters),
        sym (append-nil _)
            ∙ ap (λ (q : List R). (run max priority s (runs ∷ ends oks)).written ++ q)
                (sym i.no_records)
            ∙ f.records
            ∙ g.records,
      )
