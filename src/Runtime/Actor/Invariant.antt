-- ===== src/Runtime/Actor/Invariant.antt =====
-- What holds of the variables of ts-core/src/runtime/actor.ts between two steps.
use mc_servant.Base.{
  ℕ, ◌+◌, ◌≤◌, ◌≡◌, false, Option, none, some, List, [], ◌∷◌, ◌++◌, arith, if◌then◌else◌, is_none,
  length,
}
use mc_servant.Runtime.Contracts.{executing}
use mc_servant.Runtime.StateMachine.{
  RuntimeEventType, task_started, task_completed, task_failed, task_interrupted, chat_reply,
}
use mc_servant.Runtime.Actor.State.{Actor, max_recent_events}
use mc_servant.Runtime.Actor.Owners.{Owns, code_owner, chat_owner}

-- 1 while an execution is the current one and has not been interrupted.
abbrev pub live : Actor → ℕ
live a = elim a.current_execution [
  | none ↦ 0
  | some x ↦ if (a.executions x).interrupted then 0 else 1
]

abbrev pub is_start : RuntimeEventType → ℕ
is_start task_started = 1
is_start _ = 0

-- The events by which a task ends.
abbrev pub is_end : RuntimeEventType → ℕ
is_end task_completed = 1
is_end task_failed = 1
is_end task_interrupted = 1
is_end _ = 0

abbrev pub is_reply : RuntimeEventType → ℕ
is_reply chat_reply = 1
is_reply _ = 0

abbrev pub total : (RuntimeEventType → ℕ) → List RuntimeEventType → ℕ
total f [] = 0
total f (e ∷ es) = f e + total f es

pub total-append :
    (f : RuntimeEventType → ℕ) (xs ys : List RuntimeEventType)
    → total f (xs ++ ys) ≡ total f xs + total f ys
total-append f [] ys = omega arith
total-append f (x ∷ xs) ys = omega (arith, total-append f xs ys)

-- The variables without the calls in flight.
pub record Core (a : Actor) : Type 0 where
  -- The status `executing` belongs to an execution that is current and not interrupted.
  pub busy : a.status ≡ executing → live a ≡ 1
  -- So does a current task.
  pub task : is_none a.current_task ≡ false → live a ≡ 1
  pub bounded : length a.recent_events ≤ max_recent_events
  -- No task ends that has not started, and one that is live has not ended.
  pub ended : total is_end a.emitted_events + live a ≤ total is_start a.emitted_events
  -- Each `chat.reply` has its record.
  pub recorded : total is_reply a.emitted_events ≡ length a.chat_writes

-- The calls in flight, against the variables `o` for code and `c` for chat.
pub record Fits (o c : Option ℕ) (a : Actor) : Type 0 where
  pub code : Owns code_owner a.threads o
  pub chat : Owns chat_owner a.threads c

pub record Inv (a : Actor) : Type 0 where
  pub core : Core a
  pub fits : Fits a.current_execution a.chat_write_in_flight a
