-- ===== src/Tests/DiagnosticsRuns.antt =====
-- ts-core/src/diagnostics/async-sink.ts on concrete histories; a record is its own priority.
use mc_servant.Base.{
  ℕ, suc, ◌+◌, ◌≤◌, ◌≡◌, ◌≢◌, refl, ap, true, false, none, not, ◌&&◌, List, [], ◌∷◌, ◌++◌, length,
  is_none, arith,
}
use mc_servant.Diagnostics.AsyncSink.{
  Sink, Event, enqueues, flushes, runs, create_async_diagnostic_sink, open_sink, enqueue, run, step,
  flush, find_lowest, splice, replace_lowest,
}
use mc_servant.Diagnostics.AsyncSink.Priority.{GivesUp, enqueue-GivesUp}
use mc_servant.Diagnostics.AsyncSink.Invariant.{
  awake, enqueued, run-Inv, created-Inv, run-counted, run-served,
}
use mc_servant.Diagnostics.AsyncSink.Drains.{ends, run-Idle}

refused : open_sink {R = ℕ} 0 ≡ none
unfolding open_sink
refused = refl

-- Two places; the third record finds them taken, and gives way to none.
abbrev crowded : List (Event ℕ)
crowded = enqueues 5 ∷ enqueues 7 ∷ enqueues 6 ∷ flushes ∷ []

abbrev full : Sink ℕ
full = run 2 (λ r. r) create_async_diagnostic_sink crowded

full_queue : full.queue ≡ 7 ∷ 6 ∷ []
unfolding run step create_async_diagnostic_sink enqueue flush find_lowest splice replace_lowest
full_queue = refl

run-counted_example :
    let a = run 2 (λ r. r) create_async_diagnostic_sink crowded in
    (length a.queue ≤ 2)
    × (length a.queue + length a.written + a.dropped_count ≡ enqueued crowded)
    × (a.error_count ≤ length a.written)
run-counted_example = run-counted 2 (λ r. r) crowded

run-served_example :
    let a = run 2 (λ r. r) create_async_diagnostic_sink crowded in
    ((a.scheduled && a.in_flight) ≡ false)
    × (a.queue ≢ [] → awake a ≡ true)
    × (a.idle_waiters ≢ 0 → awake a ≡ true)
    × (a.in_flight ≡ not (is_none a.writing))
run-served_example = run-served 2 (λ r. r) crowded

full_length : length full.queue ≡ 2
full_length = ap length full_queue

enqueue-GivesUp_example :
    let t = enqueue 2 (λ r. r) 9 full in
    (t.dropped_count ≡ suc full.dropped_count) × GivesUp (λ r. r) 9 full.queue t.queue
enqueue-GivesUp_example = enqueue-GivesUp 2 (λ r. r) 9 full (omega (arith, full_length))

run-Idle_example :
    let t = run 2 (λ r. r) full (runs ∷ ends (true ∷ false ∷ true ∷ [])) in
    (t.queue ≡ [])
    × (awake t ≡ false)
    × (t.idle_waiters ≡ 0)
    × (t.resolved ≡ full.resolved + full.idle_waiters)
    × (t.written ≡ full.written ++ full.queue)
run-Idle_example =
    run-Idle 2 3 (λ r. r) full (true ∷ false ∷ true ∷ [])
      (run-Inv 2 (λ r. r) 0 create_async_diagnostic_sink crowded (created-Inv 2 (λ r. r)))
      (omega (arith, full_length))
