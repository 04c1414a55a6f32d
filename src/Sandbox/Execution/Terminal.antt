-- ===== src/Sandbox/Execution/Terminal.antt =====
-- After the terminal error of an execution of ts-core/src/sandbox/execution.ts nothing succeeds.
use Prim.Native.String.{String}
use mathlib.Core.List.{append-nil}
use mc_servant.Base.{
  ℕ, ◌≡◌, refl, ◌∙◌, Option, none, some, List, [], ◌∷◌, ◌++◌, length, arith, set, length-set,
  length-map,
}
use mc_servant.Sandbox.ExecutionControl.{
  SandboxExecutionError, SandboxExecutionResourceLimits, SandboxExecutionControlState,
  mark_sandbox_terminal_error, assert_sandbox_host_call_allowed, message_of,
}
use mc_servant.Sandbox.Errors.{Thrown, sandbox_error}
use mc_servant.Sandbox.Steps.{SandboxStepResult, ok, err}
use mc_servant.Sandbox.HostCall.{
  Kind, act, attempt, read, sleep, Outcome, value, throws, HostAnswer, HostCall, Runtime, Reply,
  race, answer, abort_races_with,
}
use mc_servant.Sandbox.Resume.{
  resume_raced, resume_value, catch, catch_act, catch_attempt, record_step, value_of_action,
}
use mc_servant.Sandbox.Histories.{resume_open, resume_entry, answer_entry}

-- The steps that succeeded.
abbrev pub succeeded : List SandboxStepResult → List SandboxStepResult
succeeded [] = []
succeeded (s ∷ steps) =
    let later = succeeded steps in elim s.outcome [ ok result ↦ s ∷ later | err e ↦ later ]

succeeded-append :
    (xs ys : List SandboxStepResult) → succeeded (xs ++ ys) ≡ succeeded xs ++ succeeded ys
succeeded-append [] ys = refl
succeeded-append (s ∷ xs) ys = ground (arith, succeeded-append xs ys)

-- A runtime that was ended by an error, with these successes and so many calls.
pub record Ended (e : SandboxExecutionError) (steps : List SandboxStepResult) (calls : ℕ)
    (r : Runtime) : Type 0 where
  pub terminal : r.control.terminal_error ≡ some e
  pub same : succeeded r.step_results ≡ steps
  pub count : length r.calls ≡ calls

module _ (e : SandboxExecutionError) (steps : List SandboxStepResult) (calls : ℕ) where
  record_step-Ended :
      (c : HostCall) (now : ℕ) (error : SandboxExecutionError) (r : Runtime)
      → Ended e steps calls r
      → Ended e steps calls (record_step c now (err error) r)
  unfolding record_step
  record_step-Ended c now error r h = record {
    terminal = h.terminal;
    same = succeeded-append r.step_results _ ∙ append-nil (succeeded r.step_results) ∙ h.same;
    count = h.count;
  }

  -- What is marked after the terminal error is not.
  pub marked-Ended :
      (error : SandboxExecutionError) (r : Runtime)
      → Ended e steps calls r
      → Ended e steps calls (record r {
        last_host_call_error = some error;
        control = mark_sandbox_terminal_error r.control error;
      })
  unfolding mark_sandbox_terminal_error
  marked-Ended error r h = record { terminal = ground arith; same = h.same; count = h.count }

  catch_act-Ended :
      (c : HostCall) (now : ℕ) (foreign facade : Option SandboxExecutionError) (r : Runtime)
      → Ended e steps calls r
      → Ended e steps calls (catch_act c now foreign facade r).0
  unfolding catch_act
  catch_act-Ended c now (some terminal) facade r h = record_step-Ended c now terminal r h
  catch_act-Ended c now none none r h = h
  catch_act-Ended c now none (some error) r h =
      record_step-Ended c now error _ (marked-Ended error r h)

  catch_attempt-Ended :
      (c : HostCall) (now : ℕ) (foreign facade : Option SandboxExecutionError) (r : Runtime)
      → Ended e steps calls r
      → Ended e steps calls (catch_attempt c now foreign facade r).0
  unfolding catch_attempt
  catch_attempt-Ended c now (some terminal) facade r h = h
  catch_attempt-Ended c now none none r h = h
  catch_attempt-Ended c now none (some error) r h = record_step-Ended c now error r h

  catch-Ended :
      (kind : Kind) (c : HostCall) (now : ℕ) (t : Thrown) (r : Runtime)
      → Ended e steps calls r
      → Ended e steps calls (catch kind c now t r).0
  unfolding catch
  catch-Ended act c now t r h = catch_act-Ended c now _ _ r h
  catch-Ended attempt c now t r h = catch_attempt-Ended c now _ _ r h
  catch-Ended read c now t r h = h
  catch-Ended sleep c now t r h = h

  value_of_action-Ended :
      (kind : Kind) (c : HostCall) (now : ℕ) (v : String) (terminal : Option SandboxExecutionError)
      (r : Runtime)
      → terminal ≡ some e
      → Ended e steps calls r
      → Ended e steps calls (value_of_action kind c now v terminal r).0
  unfolding value_of_action
  value_of_action-Ended kind c now v (some t) r q h = catch-Ended kind c now (sandbox_error t) r h
  value_of_action-Ended kind c now v none r q h = cc q

  pub refused :
      (limits : SandboxExecutionResourceLimits) (control : SandboxExecutionControlState) (now : ℕ)
      → control.terminal_error ≡ some e
      → assert_sandbox_host_call_allowed control limits now ≡ (control, some (message_of e))
  unfolding assert_sandbox_host_call_allowed
  refused limits control now h = ground arith

  resume_value-Ended :
      (limits : SandboxExecutionResourceLimits) (kind : Kind) (c : HostCall) (now : ℕ) (v : String)
      (r : Runtime)
      → Ended e steps calls r
      → Ended e steps calls (resume_value limits kind c now v r).0
  unfolding resume_value
  resume_value-Ended limits act c now v r h =
      value_of_action-Ended act c now v r.control.terminal_error r h.terminal h
  resume_value-Ended limits attempt c now v r h =
      value_of_action-Ended attempt c now v r.control.terminal_error r h.terminal h
  resume_value-Ended limits read c now v r h = h
  resume_value-Ended limits sleep c now v r h = rw (refused limits r.control now h.terminal) h

  resume_raced-Ended :
      (limits : SandboxExecutionResourceLimits) (c : HostCall) (now : ℕ) (o : Outcome) (r : Runtime)
      → Ended e steps calls r
      → Ended e steps calls (resume_raced limits c now o r).0
  unfolding resume_raced
  resume_raced-Ended limits c now (value v) r h = resume_value-Ended limits c.kind c now v r h
  resume_raced-Ended limits c now (throws t) r h = catch-Ended c.kind c now t r h

  replaced-Ended :
      (i : ℕ) (c : HostCall) (r : Runtime)
      → Ended e steps calls r
      → Ended e steps calls (record r { calls = set r.calls i c })
  replaced-Ended i c r h = record {
    terminal = h.terminal;
    same = h.same;
    count = length-set r.calls i c ∙ h.count;
  }

  resume_open-Ended :
      (limits : SandboxExecutionResourceLimits) (i now : ℕ) (c : HostCall) (reply : Option Reply)
      (raced : Option Outcome) (r : Runtime)
      → Ended e steps calls r
      → Ended e steps calls (resume_open limits i now c reply raced r)
  unfolding resume_open
  resume_open-Ended limits i now c none (some o) r h =
      replaced-Ended i _ (resume_raced limits c now o r).0 (resume_raced-Ended limits c now o r h)
  resume_open-Ended limits i now c none none r h = h
  resume_open-Ended limits i now c (some reply) raced r h = h

  pub resume_entry-Ended :
      (limits : SandboxExecutionResourceLimits) (i now : ℕ) (entry : Option HostCall) (r : Runtime)
      → Ended e steps calls r
      → Ended e steps calls (resume_entry limits i now entry r)
  unfolding resume_entry
  resume_entry-Ended limits i now none r h = h
  resume_entry-Ended limits i now (some c) r h =
      resume_open-Ended limits i now c c.reply c.raced r h

  pub answer_entry-Ended :
      (i : ℕ) (a : HostAnswer) (entry : Option HostCall) (r : Runtime)
      → Ended e steps calls r
      → Ended e steps calls (answer_entry i a entry r)
  unfolding answer_entry
  answer_entry-Ended i a none r h = h
  answer_entry-Ended i a (some c) r h = replaced-Ended i (answer a c) r h

  pub abort_races_with-Ended :
      (aborted : Option SandboxExecutionError) (r : Runtime)
      → Ended e steps calls r
      → Ended e steps calls (abort_races_with aborted r)
  unfolding abort_races_with
  abort_races_with-Ended none r h = h
  abort_races_with-Ended (some error) r h = record {
    terminal = h.terminal;
    same = h.same;
    count = length-map (race (throws (sandbox_error error))) r.calls ∙ h.count;
  }
