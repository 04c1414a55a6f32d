-- ===== src/Sandbox/ExecutionControl/FirstError.antt =====
-- The first error of an execution in ts-core/src/sandbox/execution-control.ts stands.
use Prim.Native.String.{String}
use mc_servant.Base.Text.{is_blank}
use mc_servant.Base.{
  ℕ, ◌+◌, ◌<◌, ◌≡◌, ◌≢◌, ◌↔◌, ◌⊎◌, refl, ap, subst, ◌∙◌, true, none, some, List, [], ◌∷◌, arith,
}
use mc_servant.Sandbox.ExecutionControl.{
  SandboxExecutionError, message_of, SandboxExecutionResourceLimits, SandboxExecutionControlState,
  error_reason, string_reason, other_reason, Event, host_call, mark, abort, timer, step, run,
  create_sandbox_abort_error, create_sandbox_execution_control_state, abort_sandbox_host_calls,
  mark_sandbox_terminal_error, time_out, assert_sandbox_host_call_allowed, external_abort,
}

module _ (limits : SandboxExecutionResourceLimits) where
  step-aborted :
      (s : SandboxExecutionControlState) (e : Event)
      → s.aborted ≡ s.terminal_error
      → (step limits s e).aborted ≡ (step limits s e).terminal_error
  unfolding step assert_sandbox_host_call_allowed time_out mark_sandbox_terminal_error
      abort_sandbox_host_calls external_abort
  step-aborted s (host_call now) h = ground arith
  step-aborted s (mark error) h = ground arith
  step-aborted s (abort reason) h = ground arith
  step-aborted s timer h = ground arith

  step-deadline :
      (s : SandboxExecutionControlState) (e : Event) → (step limits s e).deadline_ms ≡ s.deadline_ms
  unfolding step assert_sandbox_host_call_allowed time_out mark_sandbox_terminal_error
      abort_sandbox_host_calls external_abort
  step-deadline s (host_call now) = ground arith
  step-deadline s (mark error) = ground arith
  step-deadline s (abort reason) = ground arith
  step-deadline s timer = ground arith

  run-aborted :
      (s : SandboxExecutionControlState) (es : List Event)
      → s.aborted ≡ s.terminal_error
      → (run limits s es).aborted ≡ (run limits s es).terminal_error
  unfolding run
  run-aborted s [] h = h
  run-aborted s (e ∷ es) h = run-aborted (step limits s e) es (step-aborted s e h)

  run-deadline :
      (s : SandboxExecutionControlState) (es : List Event)
      → (run limits s es).deadline_ms ≡ s.deadline_ms
  unfolding run
  run-deadline s [] = refl
  run-deadline s (e ∷ es) = run-deadline (step limits s e) es ∙ step-deadline s e

  step-ended :
      (s : SandboxExecutionControlState) (e : Event) (error : SandboxExecutionError)
      → s.terminal_error ≡ some error
      → s.aborted ≡ some error
      → step limits s e ≡ s
  unfolding step assert_sandbox_host_call_allowed time_out mark_sandbox_terminal_error
      abort_sandbox_host_calls external_abort
  step-ended s (host_call now) error h a = ground arith
  step-ended s (mark other) error h a = ground arith
  step-ended s (abort reason) error h a = ground arith
  step-ended s timer error h a = ground arith

  run-ended :
      (s : SandboxExecutionControlState) (es : List Event) (error : SandboxExecutionError)
      → s.terminal_error ≡ some error
      → s.aborted ≡ some error
      → run limits s es ≡ s
  unfolding run
  run-ended s [] error h a = refl
  run-ended s (e ∷ es) error h a =
      ap (λ (t : SandboxExecutionControlState). run limits t es) (step-ended s e error h a)
      ∙ run-ended s es error h a

  started :
      (started_at : ℕ) (es : List Event)
      → let c = run limits (create_sandbox_execution_control_state started_at limits) es in
        (c.aborted ≡ c.terminal_error) × (c.deadline_ms ≡ started_at + limits.timeout_ms)
  unfolding create_sandbox_execution_control_state
  started started_at es =
      let c = create_sandbox_execution_control_state started_at limits in
      (run-aborted c es refl, run-deadline c es)

  refused :
      (c : SandboxExecutionControlState) (error : SandboxExecutionError) (now : ℕ)
      → c.terminal_error ≡ some error
      → assert_sandbox_host_call_allowed c limits now ≡ (c, some (message_of error))
  unfolding assert_sandbox_host_call_allowed
  refused c error now h = ground arith

  -- If a history of an execution has set a terminal error, then this error is also the reason of
  -- the abort signal, nothing that happens later changes the state, and every later host call is
  -- refused with the message of this error.
  pub run-first_error :
      (started_at : ℕ) (es later : List Event) (error : SandboxExecutionError)
      → let c = run limits (create_sandbox_execution_control_state started_at limits) es in
        c.terminal_error ≡ some error
        → (c.aborted ≡ some error)
          × (run limits c later ≡ c)
          × ((now : ℕ)
              → assert_sandbox_host_call_allowed c limits now ≡ (c, some (message_of error)))
  run-first_error started_at es later error h =
      let c = run limits (create_sandbox_execution_control_state started_at limits) es in
      let a : c.aborted ≡ some error = (started started_at es).0 ∙ h in
      (a, run-ended c later error h a, λ now. refused c error now h)

  asked :
      (c : SandboxExecutionControlState) (now : ℕ)
      → c.aborted ≡ c.terminal_error
      → ((assert_sandbox_host_call_allowed c limits now).1 ≡ none)
        ↔ ((c.terminal_error ≡ none) × (now < c.deadline_ms))
  unfolding assert_sandbox_host_call_allowed
  asked c now h = ground arith

  stopped :
      (c : SandboxExecutionControlState) (now : ℕ)
      → ((assert_sandbox_host_call_allowed c limits now).1 ≡ none)
        ⊎ ((assert_sandbox_host_call_allowed c limits now).0.terminal_error ≢ none)
  unfolding assert_sandbox_host_call_allowed time_out mark_sandbox_terminal_error
      abort_sandbox_host_calls
  stopped c now = ground arith

  -- In every history of an execution a host call is allowed exactly when there is no terminal error
  -- and the time is before the start plus the timeout; one that is refused leaves a terminal error.
  pub assert_sandbox_host_call_allowed-deadline :
      (started_at now : ℕ) (es : List Event)
      → let c = run limits (create_sandbox_execution_control_state started_at limits) es in
        let (after, thrown) = assert_sandbox_host_call_allowed c limits now in
        ((thrown ≡ none) ↔ ((c.terminal_error ≡ none) × (now < started_at + limits.timeout_ms)))
        × ((thrown ≡ none) ⊎ (after.terminal_error ≢ none))
  assert_sandbox_host_call_allowed-deadline started_at now es =
      let c = run limits (create_sandbox_execution_control_state started_at limits) es in
      let (a, d) = started started_at es in
      (
        subst
            (λ (n : ℕ).
              ((assert_sandbox_host_call_allowed c limits now).1 ≡ none)
              ↔ ((c.terminal_error ≡ none) × (now < n)))
            d (asked c now a),
        stopped c now,
      )

-- While there is no terminal error: an external abort for an error leaves none exactly when the
-- message of that error is blank, for then `createSandboxAbortError` throws in the listener; an
-- abort for any other reason leaves one.
pub external_abort-blank :
    (s : SandboxExecutionControlState) (message text : String)
    → s.terminal_error ≡ none
    → (((external_abort s (error_reason message)).terminal_error ≡ none)
        ↔ (is_blank message ≡ true))
      × ((external_abort s (string_reason text)).terminal_error ≢ none)
      × ((external_abort s other_reason).terminal_error ≢ none)
unfolding external_abort create_sandbox_abort_error mark_sandbox_terminal_error
    abort_sandbox_host_calls
external_abort-blank s message text h = (ground arith, ground arith, ground arith)
