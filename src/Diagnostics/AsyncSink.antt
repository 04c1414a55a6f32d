-- ===== src/Diagnostics/AsyncSink.antt =====
-- ts-core/src/diagnostics/async-sink.ts: a bounded queue that one background loop empties.
pub mod Priority
pub mod Invariant
pub mod Drains
use mc_servant.Base.{
  ℕ, zero, suc, ◌+◌, Bool, true, false, not, ◌&&◌, ◌||◌, Option, none, some, List, [], ◌∷◌, ◌++◌,
  if◌then◌else◌, length, ltb, leb, is_none,
}

-- The variables of `createAsyncDiagnosticSink`. `writing` is the record of the `drain` that waits
-- for `write`; `written` are the records that `write` was given, `resolved` the waiters that were
-- called.
pub record Sink {ℓ} (R : Type ℓ) : Type ℓ where
  pub queue : List R
  pub in_flight : Bool
  pub scheduled : Bool
  pub dropped_count : ℕ
  pub error_count : ℕ
  pub idle_waiters : ℕ
  pub writing : Option R
  pub written : List R
  pub resolved : ℕ

-- A call, the scheduler that runs the pending drain, or the end of a `write` (false: it failed).
pub data Event {ℓ} (R : Type ℓ) : Type ℓ where
  enqueues : R → Event R
  flushes : Event R
  runs : Event R
  settles : Bool → Event R

module _ {ℓ} {R : Type ℓ} where
  -- The variables as they are declared, once the bound has been checked; see `open_sink`.
  unfoldable pub create_async_diagnostic_sink : Sink R
  create_async_diagnostic_sink = record {
    queue = [];
    in_flight = false;
    scheduled = false;
    dropped_count = 0;
    error_count = 0;
    idle_waiters = 0;
    writing = none;
    written = [];
    resolved = 0;
  }

  -- The check of `maxQueueSize`, a natural number here, as are the priorities below.
  unfoldable pub open_sink : (max_queue_size : ℕ) → Option (Sink R)
  open_sink max_queue_size =
      if leb max_queue_size 0 then none else some create_async_diagnostic_sink

  abbrev pub is_empty : List R → Bool
  is_empty [] = true
  is_empty (r ∷ rs) = false

  unfoldable pub notify_idle_if_needed : Sink R → Sink R
  notify_idle_if_needed s =
      if s.in_flight || s.scheduled || not (is_empty s.queue)
      then s
      else record s { idle_waiters = 0; resolved = s.resolved + s.idle_waiters }

  unfoldable pub schedule_drain : Sink R → Sink R
  schedule_drain s = if s.scheduled || s.in_flight then s else record s { scheduled = true }

  -- The loop of `drain` up to its next `await`, or to its end.
  unfoldable pub drain_next : Sink R → Sink R
  unfolding notify_idle_if_needed
  drain_next s = elim s.queue [
    | [] ↦ notify_idle_if_needed (record s { in_flight = false; writing = none })
    | r ∷ rs ↦ record s { queue = rs; writing = some r; written = s.written ++ r ∷ [] }
  ]

  unfoldable pub drain : Sink R → Sink R
  drain s = if s.in_flight then s else drain_next (record s { in_flight = true })

  -- The function that is given to the scheduler.
  unfoldable pub run_scheduled : Sink R → Sink R
  unfolding drain
  run_scheduled s = if s.scheduled then drain (record s { scheduled = false }) else s

  -- The rest of the loop's body once `write` has ended.
  unfoldable pub settle : Bool → Sink R → Sink R
  settle ok s =
      if is_none s.writing
      then s
      else drain_next (record s { error_count = if ok then s.error_count else suc s.error_count })

  -- The index with the lowest priority below `lowest`, the first of equals, from `index` on.
  unfoldable pub find_lowest : (R → ℕ) → List R → ℕ → ℕ → Option ℕ → Option ℕ
  find_lowest priority [] index lowest drop_index = drop_index
  find_lowest priority (r ∷ rs) index lowest drop_index =
      let lower = ltb (priority r) lowest in
      find_lowest priority rs (suc index) (if lower then priority r else lowest)
        (if lower then some index else drop_index)

  -- `splice(index, 1)`.
  unfoldable pub splice : List R → ℕ → List R
  splice [] i = []
  splice (r ∷ rs) zero = rs
  splice (r ∷ rs) (suc i) = r ∷ splice rs i

  unfoldable pub replace_lowest : (R → ℕ) → R → List R → List R
  replace_lowest priority r queue = elim (find_lowest priority queue 0 (priority r) none) [
    | none ↦ queue
    | some i ↦ splice queue i ++ r ∷ []
  ]

  unfoldable pub enqueue : ℕ → (R → ℕ) → R → Sink R → Sink R
  unfolding schedule_drain
  enqueue max_queue_size priority r s =
      if leb max_queue_size (length s.queue)
      then schedule_drain (record s {
        queue = replace_lowest priority r s.queue;
        dropped_count = suc s.dropped_count;
      })
      else schedule_drain (record s { queue = s.queue ++ r ∷ [] })

  -- `flush` up to its `await`.
  unfoldable pub flush : Sink R → Sink R
  unfolding schedule_drain notify_idle_if_needed
  flush s =
      let t = schedule_drain s in
      if not (is_empty t.queue) || t.in_flight || t.scheduled
      then notify_idle_if_needed (record t { idle_waiters = suc t.idle_waiters })
      else t

  unfoldable pub step : ℕ → (R → ℕ) → Sink R → Event R → Sink R
  step max priority s (enqueues r) = enqueue max priority r s
  step max priority s flushes = flush s
  step max priority s runs = run_scheduled s
  step max priority s (settles ok) = settle ok s

  unfoldable pub run : ℕ → (R → ℕ) → Sink R → List (Event R) → Sink R
  run max priority s [] = s
  run max priority s (e ∷ es) = run max priority (step max priority s e) es
