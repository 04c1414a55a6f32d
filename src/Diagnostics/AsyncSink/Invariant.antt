-- ===== src/Diagnostics/AsyncSink/Invariant.antt =====
-- What holds of ts-core/src/diagnostics/async-sink.ts after any history of calls, scheduler runs
-- and ended writes.
use mc_servant.Base.{
  ℕ, suc, ◌+◌, ◌≤◌, ◌≡◌, ◌≢◌, refl, subst, Bool, true, false, not, ◌&&◌, ◌||◌, List, [], ◌∷◌, arith,
  if◌then◌else◌, length, length-append, is_none,
}
use mc_servant.Diagnostics.AsyncSink.{
  Sink, Event, enqueues, flushes, runs, settles, create_async_diagnostic_sink, enqueue, flush,
  run_scheduled, settle, drain_next, step, run,
}
use mc_servant.Diagnostics.AsyncSink.Priority.{length-replace_lowest}

-- Whether a drain is pending or running.
abbrev pub awake : {R : Type 0} → Sink R → Bool
awake s = s.scheduled || s.in_flight

pub record Inv {R : Type 0} (max : ℕ) (n : ℕ) (s : Sink R) : Type 0 where
  pub bounded : length s.queue ≤ max
  -- The one drain that is in flight waits for the one record that is being written.
  pub busy : s.in_flight ≡ not (is_none s.writing)
  pub single : (s.scheduled && s.in_flight) ≡ false
  -- Records and waiters are not left alone.
  pub served : s.queue ≢ [] → awake s ≡ true
  pub heard : s.idle_waiters ≢ 0 → awake s ≡ true
  -- Of the `n` records so far, each waits, was given to `write`, or was dropped.
  pub counted : length s.queue + length s.written + s.dropped_count ≡ n
  -- A write that failed has ended.
  pub failed : s.error_count + (if is_none s.writing then 0 else 1) ≤ length s.written

module _ {R : Type 0} (max : ℕ) (priority : R → ℕ) (n : ℕ) (s : Sink R) (h : Inv max n s) where
  enqueue-Inv : (r : R) → Inv max (suc n) (enqueue max priority r s)
  unfolding enqueue
  enqueue-Inv r = record {
    bounded = ground (
      arith,
      h.bounded,
      length-replace_lowest priority r s.queue,
      length-append s.queue (r ∷ []),
    );
    busy = ground (arith, h.busy);
    single = ground (arith, h.single);
    served = λ q. ground arith;
    heard = λ q. ground arith;
    counted = ground (
      arith,
      h.counted,
      h.bounded,
      length-replace_lowest priority r s.queue,
      length-append s.queue (r ∷ []),
    );
    failed = ground (arith, h.failed);
  }

  flush-Inv : Inv max n (flush s)
  unfolding flush
  flush-Inv = record {
    bounded = ground (arith, h.bounded);
    busy = ground (arith, h.busy);
    single = ground (arith, h.single);
    served = λ q. ground (arith, h.served);
    heard = λ q. ground (arith, h.heard);
    counted = ground (arith, h.counted);
    failed = ground (arith, h.failed);
  }

  run_scheduled-Inv : Inv max n (run_scheduled s)
  unfolding run_scheduled drain_next
  run_scheduled-Inv = record {
    bounded = ground (arith, h.bounded);
    busy = ground (arith, h.busy);
    single = ground (arith, h.single);
    served = λ q. ground (arith, h.served, h.busy, h.single);
    heard = λ q. ground (arith, h.heard, h.busy, h.single);
    counted = grind (arith, h.counted, length-append);
    failed = grind (arith, h.failed, length-append);
  }

  settle-Inv : (ok : Bool) → Inv max n (settle ok s)
  unfolding settle drain_next
  settle-Inv ok = record {
    bounded = ground (arith, h.bounded);
    busy = ground (arith, h.busy);
    single = ground (arith, h.single, h.busy);
    served = λ q. ground (arith, h.served, h.busy, h.single);
    heard = λ q. ground (arith, h.heard, h.busy, h.single);
    counted = grind (arith, h.counted, length-append);
    failed = grind (arith, h.failed, length-append);
  }

-- The records that a history enqueues.
abbrev pub enqueued : {R : Type 0} → List (Event R) → ℕ
enqueued [] = 0
enqueued (enqueues r ∷ es) = suc (enqueued es)
enqueued (e ∷ es) = enqueued es

module _ {R : Type 0} (max : ℕ) (priority : R → ℕ) where
  pub run-Inv :
      (n : ℕ) (s : Sink R) (es : List (Event R))
      → Inv max n s
      → Inv max (n + enqueued es) (run max priority s es)
  unfolding run step
  run-Inv n s [] h = subst (λ k. Inv max k s) (omega arith) h
  run-Inv n s (enqueues r ∷ es) h =
      subst (λ k. Inv max k (run max priority (enqueue max priority r s) es)) (omega arith)
        (run-Inv (suc n) (enqueue max priority r s) es (enqueue-Inv max priority n s h r))
  run-Inv n s (flushes ∷ es) h = run-Inv n (flush s) es (flush-Inv max priority n s h)
  run-Inv n s (runs ∷ es) h = run-Inv n (run_scheduled s) es (run_scheduled-Inv max priority n s h)
  run-Inv n s (settles ok ∷ es) h = run-Inv n (settle ok s) es (settle-Inv max priority n s h ok)

  pub created-Inv : Inv max 0 (create_async_diagnostic_sink {R = R})
  unfolding create_async_diagnostic_sink
  created-Inv = record {
    bounded = omega arith;
    busy = refl;
    single = refl;
    served = λ q. absurd (q refl);
    heard = λ q. absurd (q refl);
    counted = refl;
    failed = omega arith;
  }

  module _ (es : List (Event R)) where
    abbrev after : Sink R
    after = run max priority create_async_diagnostic_sink es

    after-Inv : Inv max (enqueued es) after
    after-Inv =
        subst (λ k. Inv max k after) (omega arith)
          (run-Inv 0 create_async_diagnostic_sink es created-Inv)

    -- After any history the queue keeps its bound; each enqueued record waits in the queue, was
    -- given to `write`, or is counted as dropped; and no more failures are counted than writes.
    pub run-counted :
        (length after.queue ≤ max)
        × (length after.queue + length after.written + after.dropped_count ≡ enqueued es)
        × (after.error_count ≤ length after.written)
    run-counted = (after-Inv.bounded, after-Inv.counted, omega (arith, after-Inv.failed))

    -- After any history there is at most one drain, pending or running; while records or waiting
    -- `flush` calls are left there is one; and a running one waits for the end of one write.
    pub run-served :
        ((after.scheduled && after.in_flight) ≡ false)
        × (after.queue ≢ [] → awake after ≡ true)
        × (after.idle_waiters ≢ 0 → awake after ≡ true)
        × (after.in_flight ≡ not (is_none after.writing))
    run-served = (after-Inv.single, after-Inv.served, after-Inv.heard, after-Inv.busy)
