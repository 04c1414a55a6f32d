-- ===== src/Runtime/Actor.antt =====
-- ts-core/src/runtime/actor.ts: the bot's single writer. Its calls interleave at their `await`s: a
-- step is a new call, or the answer to a waiting one, and runs to the next `await`.
pub mod State
pub mod Calls
pub mod Resume
pub mod Owners
pub mod Invariant
pub mod CallsKeep
pub mod CodeKeeps
pub mod ResumesKeep
pub mod Histories
pub mod Interrupts
pub mod Keeps
pub mod Shutdown
pub mod Snapshot
pub mod Aborts
use Prim.Native.String.{String}
use mc_servant.Base.{ℕ, Bool, Option, none, some, List, [], ◌∷◌, get_elem?}
use mc_servant.Runtime.Contracts.{
  initializing, ExternalAuthState, ExternalAuthPlan, InterruptSignal,
}
use State.{
  Actor, Outcome, Thread, ChatMethod, RecentEvent, connecting, logged_in, readying, writing,
  settled, running, reflexes, remove_at,
}
use Calls.{fresh_execution, start, broadcast, write_chat, execute_code, interrupt_actor, shut_down}
use Resume.{
  SandboxAnswer, ReflexAnswer, after_connect, after_chat, after_write, after_login, after_ready,
  after_sandbox, after_reflex,
}

-- The answer to an `await`: of the transport or of a resolved promise, of the sandbox, of a reflex.
pub data Answer : Type 0 where
  done : Bool → Answer
  sandbox : SandboxAnswer → RecentEvent → Answer
  reflexed : ReflexAnswer → Answer

pub data Event : Type 0 where
  starts : Event
  broadcasts : String → String → Event
  executes : String → Bool → Option String → RecentEvent → Event
  interrupts : InterruptSignal → Event
  chats : String → ChatMethod → String → Bool → Event
  shuts_down : Event
  resumes : ℕ → Answer → Event

-- What a waiting call does with an answer of its kind.
unfoldable pub continue : Thread → Answer → Option (Actor → Outcome)
continue connecting (done b) = some (after_connect b)
continue (writing promise w) (done b) = some (after_chat promise w b)
continue (settled promise w b) (done r) = some (after_write promise w b)
continue logged_in (done r) = some after_login
continue readying (done r) = some after_ready
continue (running x message_id) (sandbox answer event) =
    some (after_sandbox x message_id answer event)
continue (reflexes signal threat) (reflexed answer) = some (after_reflex threat answer)
continue _ _ = none

abbrev pub take_thread : ℕ → Actor → Actor
take_thread i a = record a { threads = remove_at a.threads i }

unfoldable pub resume : ℕ → Answer → Actor → Outcome
resume i answer a = elim (get_elem? a.threads i) [
  | none ↦ (a, none)
  | some t ↦ elim (continue t answer) [ none ↦ (a, none) | some rest ↦ rest (take_thread i a) ]
]

unfoldable pub step : Actor → Event → Outcome
step a starts = start a
step a (broadcasts message_id content) = broadcast message_id content a
step a (executes message_id world_ready refusal event) =
    execute_code message_id world_ready refusal event a
step a (interrupts signal) = interrupt_actor signal a
step a (chats job method message active) = write_chat job method message active a
step a shuts_down = shut_down a
step a (resumes i answer) = resume i answer a

unfoldable pub run : Actor → List Event → Actor
run a [] = a
run a (e ∷ es) = run (step a e).0 es

-- `createBotActorRuntime`.
unfoldable pub create_bot_actor_runtime : ExternalAuthState → ExternalAuthPlan → Actor
create_bot_actor_runtime auth plan = record {
  status = initializing;
  external_auth = auth;
  external_auth_plan = plan;
  current_task = none;
  current_execution = none;
  chat_write_in_flight = none;
  recent_reflex = none;
  emitted_events = [];
  chat_writes = [];
  code_executions = [];
  recent_events = [];
  executions = λ x. fresh_execution "";
  next_execution = 0;
  next_promise = 0;
  threads = [];
}
