-- ===== src/Runtime/Actor/Aborts.antt =====
-- What becomes of a task of ts-core/src/runtime/actor.ts that is interrupted, until its sandbox has
-- answered.
use mc_servant.Base.{ℕ, ◌<◌, ◌≡◌, ◌≢◌, true, none, some, List, [], ◌∷◌, ◌++◌, arith}
use mc_servant.Runtime.Contracts.{
  BotStatus, idle, executing, reflexing, InterruptSignal, InterruptSource, reflex,
}
use mc_servant.Runtime.StateMachine.{
  RuntimeEventType, task_interrupted, reflex_triggered, state_transition,
}
use mc_servant.Runtime.Actor.State.{Actor, Execution}
use mc_servant.Runtime.Actor.Calls.{interrupt_actor}

-- An execution after `interrupt`: its `AbortController` has been aborted with the signal.
abbrev pub aborted_by : InterruptSignal → Execution → Execution
aborted_by signal e = record e {
  aborted = true;
  interrupted = true;
  interrupt_signal = some signal;
}

-- Where a signal sends a bot that was executing, and what it emits.
abbrev pub status_after : InterruptSource → BotStatus
status_after (reflex threat) = reflexing
status_after other = idle

abbrev pub events_after : InterruptSource → List RuntimeEventType
events_after (reflex threat) = state_transition ∷ task_interrupted ∷ reflex_triggered ∷ []
events_after other = state_transition ∷ task_interrupted ∷ []

-- `interrupt` of a bot that is executing. The status changes in the same call: the execution stays
-- current, and its call in flight.
pub interrupt_actor-executing :
    (signal : InterruptSignal) (a : Actor) {x : ℕ}
    → a.status ≡ executing
    → a.current_execution ≡ some x
    → let b = (interrupt_actor signal a).0 in
      (b.executions x ≡ aborted_by signal (a.executions x))
      × (b.status ≡ status_after signal.source)
      × (b.emitted_events ≡ a.emitted_events ++ events_after signal.source)
      × (b.current_task ≡ none)
      × (b.current_execution ≡ some x)
unfolding interrupt_actor
interrupt_actor-executing signal a h k = ground arith

-- The current execution is one that has begun.
abbrev Begun : Actor → Type 0
Begun a = (x : ℕ) → a.current_execution ≡ some x → x < a.next_execution

-- The execution `x` is aborted, and while it is current the bot is not executing and has begun no
-- other: the next is still the `n`-th. (A later reflex may replace its signal.)
record Aborted (x n : ℕ) (a : Actor) : Type 0 where
  interrupted : (a.executions x).interrupted ≡ true
  aborted : (a.executions x).aborted ≡ true
  older : x < a.next_execution
  held :
      a.current_execution ≡ some x
      → (a.status ≢ executing) × (a.current_task ≡ none) × (a.next_execution ≡ n)
