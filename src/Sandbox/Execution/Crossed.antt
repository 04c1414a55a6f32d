-- ===== src/Sandbox/Execution/Crossed.antt =====
-- Two host calls at once in ts-core/src/sandbox/host-call.ts: the failure of one becomes that of the
-- other.
use mc_servant.Base.Text.{is_blank}
use mc_servant.Base.{
  ℕ, ◌≡◌, ◌≢◌, ◌⊎◌, inl, inr, refl, sym, ap, subst, ◌∙◌, false, ◌||◌, Option, none, some, get_elem?,
  get_elem?-set, get_elem?-map, set, arith,
}
use mc_servant.Sandbox.ExecutionControl.{
  SandboxExecutionError, facade_call_error, SandboxExecutionResourceLimits,
  SandboxExecutionControlState, mark_sandbox_terminal_error, abort_sandbox_host_calls,
}
use mc_servant.Sandbox.Errors.{
  Thrown, sandbox_error, text_of, read_facade_error_code, is_marked, create_facade_call_error,
}
use mc_servant.Sandbox.Steps.{action_text, err}
use mc_servant.Sandbox.HostCall.{
  act, throws, HostCall, Runtime, race, abort_races, abort_races_with,
}
use mc_servant.Sandbox.Resume.{
  error_reply, foreign_error, record_step, catch, catch_act, resume_raced,
}
use mc_servant.Sandbox.Histories.{resume_call, resume_entry, resume_open}

-- An action's call that has not ended, before its race and after it.
abbrev pub waiting : HostCall → HostCall
waiting c = record c { kind = act; raced = none; reply = none }

abbrev pub failing : HostCall → Thrown → HostCall
failing c t = record c { kind = act; raced = some (throws t); reply = none }

-- The error of a call that fails.
abbrev pub facade_error_of : HostCall → Thrown → SandboxExecutionError
facade_error_of c t =
    facade_call_error (text_of t) (action_text c.action) (read_facade_error_code t)
      (is_marked t || false)

-- What a failing call leaves.
abbrev after : HostCall → Thrown → (call now : ℕ) → SandboxExecutionError → Runtime → Runtime
after c t i now e r =
    record (record_step (failing c t) now (err e) (record r {
      last_host_call_error = some e;
      control = mark_sandbox_terminal_error r.control e;
    })) { calls = set r.calls i (record (failing c t) { reply = some (error_reply e) }) }

both : {A B : Type 0} {a c : A} {b d : B} → a ≡ c → b ≡ d → ◌≡◌ {A = A × B} (a, b) (c, d)
both p q = cc

kept :
    (aborted : Option SandboxExecutionError) (r : Runtime)
    → ((abort_races_with aborted r).control ≡ r.control)
      × ((abort_races_with aborted r).last_host_call_error ≡ r.last_host_call_error)
unfolding abort_races_with
kept none r = (refl, refl)
kept (some e) r = (refl, refl)

mark-first :
    (control : SandboxExecutionControlState) (e : SandboxExecutionError)
    → control.terminal_error ≡ none
    → control.aborted ≡ none
    → let m = mark_sandbox_terminal_error control e in
      (m.terminal_error ≡ some e) × (m.aborted ≡ some e)
unfolding mark_sandbox_terminal_error abort_sandbox_host_calls
mark-first control e ht ha = ground arith

mark-later :
    (control : SandboxExecutionControlState) (e f : SandboxExecutionError)
    → control.terminal_error ≡ some e
    → (mark_sandbox_terminal_error control f).terminal_error ≡ some e
unfolding mark_sandbox_terminal_error abort_sandbox_host_calls
mark-later control e f h = ground arith

resume_call-failing :
    (limits : SandboxExecutionResourceLimits) (i now : ℕ) (c : HostCall) (t : Thrown) (r : Runtime)
    (e : SandboxExecutionError)
    → get_elem? r.calls i ≡ some (failing c t)
    → foreign_error r.control ≡ none
    → create_facade_call_error (action_text c.action) t false ≡ some e
    → resume_call limits i now r ≡ after c t i now e r
unfolding resume_call resume_entry resume_open resume_raced catch catch_act record_step
resume_call-failing limits i now c t r e h f k =
    ap (λ (o : Option HostCall). resume_entry limits i now o r) h
    ∙ ap
        (λ (p : Option SandboxExecutionError × Option SandboxExecutionError).
          let (a, reply) = catch_act (failing c t) now p.0 p.1 r in
          record a { calls = set a.calls i (record (failing c t) { reply = some reply }) })
        (both f k)

-- The record of an abort in the races.
aborted-calls :
    (r : Runtime) (e : SandboxExecutionError) (j : ℕ) (d : HostCall)
    → r.control.aborted ≡ some e
    → get_elem? r.calls j ≡ some (waiting d)
    → get_elem? (abort_races r).calls j ≡ some (failing d (sandbox_error e))
unfolding abort_races abort_races_with race
aborted-calls r e j d a h =
    subst
      (λ (o : Option SandboxExecutionError).
        get_elem? (abort_races_with o r).calls j ≡ some (failing d (sandbox_error e)))
      (sym a) (get_elem?-map (race (throws (sandbox_error e))) r.calls j (waiting d) h)

abort_races-keeps :
    (r : Runtime)
    → ((abort_races r).control ≡ r.control)
      × ((abort_races r).last_host_call_error ≡ r.last_host_call_error)
unfolding abort_races
abort_races-keeps r = kept r.control.aborted r

facade_error-some :
    (c : HostCall) (t : Thrown)
    → is_blank (text_of t) ≡ false
    → create_facade_call_error (action_text c.action) t false ≡ some (facade_error_of c t)
unfolding create_facade_call_error
facade_error-some c t h = rw h

object_text : (e : SandboxExecutionError) → is_blank (text_of (sandbox_error e)) ≡ false
unfolding is_blank text_of
object_text e = refl

foreign-none :
    (control : SandboxExecutionControlState) (c : HostCall) (t : Thrown)
    → (control.terminal_error ≡ none) ⊎ (control.terminal_error ≡ some (facade_error_of c t))
    → foreign_error control ≡ none
unfolding foreign_error
foreign-none control c t h = ground arith

-- While two actions are under way, without a terminal error: if the host's answer to the first fails
-- with a message that is not blank, and then the second goes on, the terminal error is that of the
-- first, but the last failed call of the host, which the result tells, is the second, with the
-- message "[object Object]".
pub resume_call-crossed :
    (limits : SandboxExecutionResourceLimits) (i j now later : ℕ) (c d : HostCall) (t : Thrown)
    (r : Runtime)
    → i ≢ j
    → get_elem? r.calls i ≡ some (failing c t)
    → get_elem? r.calls j ≡ some (waiting d)
    → r.control.terminal_error ≡ none
    → r.control.aborted ≡ none
    → is_blank (text_of t) ≡ false
    → let first = facade_error_of c t in
      let s = abort_races (resume_call limits j later (abort_races (resume_call limits i now r))) in
      (s.control.terminal_error ≡ some first)
      × (s.last_host_call_error
          ≡ some (
              facade_call_error "[object Object]"
                (action_text d.action)
                (read_facade_error_code (sandbox_error first))
                (is_marked (sandbox_error first) || false)))
unfolding record_step text_of
resume_call-crossed limits i j now later c d t r n hi hj ht ha hb =
    let e = facade_error_of c t in
    let r1 = after c t i now e r in
    let p : resume_call limits i now r ≡ r1 =
      resume_call-failing limits i now c t r e hi (foreign-none r.control c t (inl ht))
        (facade_error-some c t hb) in
    let marked = mark-first r.control e ht ha in
    let r2 = abort_races r1 in
    let k2 = abort_races-keeps r1 in
    let terminal2 : r2.control.terminal_error ≡ some e =
      ap (λ (x : SandboxExecutionControlState). x.terminal_error) k2.0 ∙ marked.0 in
    let e2 = facade_error_of d (sandbox_error e) in
    let r3 = after d (sandbox_error e) j later e2 r2 in
    let q : resume_call limits j later r2 ≡ r3 =
      resume_call-failing limits j later d (sandbox_error e) r2 e2
        (aborted-calls r1 e j d marked.1 (get_elem?-set r.calls i j _ n ∙ hj))
        (foreign-none r2.control c t (inr terminal2))
        (facade_error-some d (sandbox_error e) (object_text e)) in
    let whole : abort_races (resume_call limits j later (abort_races (resume_call limits i now r)))
        ≡ abort_races r3 =
      ap (λ (x : Runtime). abort_races (resume_call limits j later (abort_races x))) p
      ∙ ap abort_races q in
    let k3 = abort_races-keeps r3 in
    (
      ap (λ (x : Runtime). x.control.terminal_error) whole
          ∙ ap (λ (x : SandboxExecutionControlState). x.terminal_error) k3.0
          ∙ mark-later r2.control e e2 terminal2,
      ap (λ (x : Runtime). x.last_host_call_error) whole ∙ k3.1,
    )
