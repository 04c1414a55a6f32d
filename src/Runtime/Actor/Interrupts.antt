-- ===== src/Runtime/Actor/Interrupts.antt =====
-- What an interrupt does to a task of ts-core/src/runtime/actor.ts, and what becomes of the answer
-- that the sandbox still gives.
use Prim.Native.String.{String}
use mc_servant.Base.{ℕ, ◌≡◌, ◌≢◌, true, none, arith}
use mc_servant.Runtime.Contracts.{idle, executing, shutdown, InterruptSignal}
use mc_servant.Runtime.Actor.State.{Actor, RecentEvent}
use mc_servant.Runtime.Actor.Calls.{interrupt_actor, shut_down}
use mc_servant.Runtime.Actor.Resume.{SandboxAnswer, returned, threw, after_sandbox}

-- An interrupt that arrives while the bot is starting, reacting, dead or shut down leaves every
-- variable as it was: a signal whose decision is `queue` is kept nowhere.
pub interrupt_actor-dropped :
    (signal : InterruptSignal) (a : Actor)
    → a.status ≢ idle
    → a.status ≢ executing
    → interrupt_actor signal a ≡ (a, none)
unfolding interrupt_actor
interrupt_actor-dropped signal a h k = ground arith

-- Whatever the sandbox answers for an interrupted execution, the task is not completed: the call
-- is rejected, no result is recorded, no event is emitted and the status stays.
pub after_sandbox-interrupted :
    (x : ℕ) (message_id : String) (answer : SandboxAnswer) (event : RecentEvent) (a : Actor)
    → (a.executions x).interrupted ≡ true
    → let p = after_sandbox x message_id answer event a in
      (p.1 ≢ none)
      × (p.0.code_executions ≡ a.code_executions)
      × (p.0.emitted_events ≡ a.emitted_events)
      × (p.0.status ≡ a.status)
unfolding after_sandbox
after_sandbox-interrupted x message_id (returned s n) event a h = ground arith
after_sandbox-interrupted x message_id (threw m) event a h = ground arith

-- `shutdown` closes the bot in every status, but the execution that is current goes on: it is
-- neither interrupted nor aborted, and its call keeps waiting.
pub shut_down-keeps_execution :
    (a : Actor)
    → let b = (shut_down a).0 in
      (b.status ≡ shutdown)
      × (b.current_execution ≡ a.current_execution)
      × (b.executions ≡ a.executions)
      × (b.threads ≡ a.threads)
unfolding shut_down
shut_down-keeps_execution a = ground arith
