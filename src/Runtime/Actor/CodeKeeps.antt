-- ===== src/Runtime/Actor/CodeKeeps.antt =====
-- `executeCode` and `interrupt` of ts-core/src/runtime/actor.ts keep the invariant.
use Prim.Native.String.{String}
use mathlib.Core.Path.{subst₂}
use mc_servant.Base.{
  ℕ, suc, ◌≡◌, refl, sym, ◌∙◌, Bool, true, false, Option, none, some, arith, if◌then◌else◌,
}
use mc_servant.Runtime.Contracts.{InterruptSignal, InterruptSource, reflex, control, triage, system}
use mc_servant.Runtime.StateMachine.{resolve_transition, exec_job_pulled, interrupt}
use mc_servant.Runtime.Actor.State.{
  Actor, Outcome, code_failed, running, reflexes, RecentEvent, ActorError, update, take_decision,
}
use mc_servant.Runtime.Actor.Calls.{
  react, mark_interrupted, spawn, fresh_execution, fail_execution, execute_code, interrupt_actor,
}
use mc_servant.Runtime.Actor.Owners.{
  Owns, code_owner, chat_owner, Owns-append-none, Owns-append-some,
}
use mc_servant.Runtime.Actor.Invariant.{Core, Fits, Inv, total-append, is_end, is_start, is_reply}
use mc_servant.Runtime.Actor.CallsKeep.{
  fail_execution-Core, fail_execution-current, spawn-Core, spawn-Fits, Fits-eq,
}

-- The state in which `executeCode` hands over to the sandbox, or to its `catch`.
unfoldable pub begun : String → Actor → Actor
unfolding resolve_transition
begun message_id a =
    record (take_decision (resolve_transition a.status (exec_job_pulled true true)) a) {
      current_task = some message_id;
      current_execution = some a.next_execution;
      executions = update a.executions a.next_execution (fresh_execution message_id);
      next_execution = suc a.next_execution;
    }

begun-Core :
    (message_id : String) (a : Actor)
    → a.current_execution ≡ none
    → (resolve_transition a.status (exec_job_pulled true true)).accepted ≡ true
    → Core a
    → Core (begun message_id a)
unfolding begun
begun-Core message_id a e k h =
    let events = (resolve_transition a.status (exec_job_pulled true true)).emitted_events in
    ground (
      arith,
      total-append is_end a.emitted_events events,
      total-append is_start a.emitted_events events,
      total-append is_reply a.emitted_events events,
    )

interrupt_actor-Core :
    (signal : InterruptSignal) (a : Actor) → Core a → Core (interrupt_actor signal a).0
unfolding interrupt_actor
interrupt_actor-Core signal a h =
    let events = (resolve_transition a.status (interrupt signal)).emitted_events in
    ground (
      arith,
      total-append is_end a.emitted_events events,
      total-append is_start a.emitted_events events,
      total-append is_reply a.emitted_events events,
    )

fail_execution-threads :
    (x : ℕ) (event : RecentEvent) (error : ActorError) (a : Actor)
    → let b = (fail_execution x event error a).0 in
      (b.threads ≡ a.threads) × (b.chat_write_in_flight ≡ a.chat_write_in_flight)
unfolding fail_execution
fail_execution-threads x event error a = ground arith

-- The `catch` of an execution whose call has left the calls in flight.
pub fail_execution-Inv :
    (x : ℕ) (event : RecentEvent) (error : ActorError) (a : Actor)
    → a.current_execution ≡ some x
    → Core a
    → Fits none a.chat_write_in_flight a
    → Inv (fail_execution x event error a).0
fail_execution-Inv x event error a e h f =
    let b = (fail_execution x event error a).0 in
    let (t, c) = fail_execution-threads x event error a in
    record {
      core = fail_execution-Core x event error a e h;
      fits = record {
        code =
            subst₂ (Owns code_owner) (sym t) (sym (fail_execution-current x event error a e))
              f.code;
        chat = subst₂ (Owns chat_owner) (sym t) (sym c) f.chat;
      };
    }

begun-Inv :
    (message_id : String) (a : Actor)
    → a.current_execution ≡ none
    → (resolve_transition a.status (exec_job_pulled true true)).accepted ≡ true
    → Inv a
    → Inv (spawn (running a.next_execution message_id) (begun message_id a))
unfolding begun
begun-Inv message_id a e k h =
    let t = running a.next_execution message_id in
    record {
      core = spawn-Core t (begun message_id a) (begun-Core message_id a e k h.core);
      fits = record {
        code = Owns-append-some code_owner a.threads t refl (rw e at (h.fits.code));
        chat = Owns-append-none chat_owner a.threads a.chat_write_in_flight t refl h.fits.chat;
      };
    }

begun-Fits :
    (message_id : String) (a : Actor)
    → a.current_execution ≡ none
    → Inv a
    → Fits none a.chat_write_in_flight (begun message_id a)
unfolding begun
begun-Fits message_id a e h = record { code = rw e at (h.fits.code); chat = h.fits.chat }

begun_failed-Inv :
    (message_id message : String) (event : RecentEvent) (a : Actor)
    → a.current_execution ≡ none
    → (resolve_transition a.status (exec_job_pulled true true)).accepted ≡ true
    → Inv a
    → Inv (fail_execution a.next_execution event (code_failed message) (begun message_id a)).0
unfolding begun
begun_failed-Inv message_id message event a e k h =
    fail_execution-Inv a.next_execution event (code_failed message) (begun message_id a) refl
      (begun-Core message_id a e k h.core) (begun-Fits message_id a e h)

pub execute_code-Inv :
    (message_id : String) (world_ready : Bool) (refusal : Option String) (event : RecentEvent)
    (a : Actor)
    → Inv a
    → Inv (execute_code message_id world_ready refusal event a).0
unfolding execute_code begun
execute_code-Inv message_id world_ready none event a h = ground (arith, begun-Inv message_id a)
execute_code-Inv message_id world_ready (some message) event a h =
    ground (arith, begun_failed-Inv message_id message event a)

react-Fits :
    (signal : InterruptSignal) (source : InterruptSource) (a : Actor) (o c : Option ℕ)
    → Fits o c a
    → Fits o c (react signal source a)
unfolding react
react-Fits signal (reflex threat) a o c h =
    spawn-Fits (reflexes signal threat) o c (record a { current_task = none }) refl refl
      (Fits-eq a _ o c refl h)
react-Fits signal (control command epoch) a o c h = Fits-eq a _ o c refl h
react-Fits signal (triage epoch) a o c h = Fits-eq a _ o c refl h
react-Fits signal (system cause) a o c h = Fits-eq a _ o c refl h

react-variables :
    (signal : InterruptSignal) (source : InterruptSource) (a : Actor)
    → let b = react signal source (mark_interrupted signal a) in
      (b.current_execution ≡ a.current_execution)
      × (b.chat_write_in_flight ≡ a.chat_write_in_flight)
      × ((mark_interrupted signal a).threads ≡ a.threads)
unfolding react mark_interrupted
react-variables signal source a = ground arith

abbrev Owned : Actor → Type 0
Owned a = Fits a.current_execution a.chat_write_in_flight a

either :
    (t : Bool) (a b : Actor)
    → Owned b
    → Owned a
    → Owned (let p : Outcome = if t then (b, none) else (a, none) in p.0)
either true a b h k = h
either false a b h k = k

interrupted-Owned :
    (signal : InterruptSignal) (a b : Actor)
    → b.current_execution ≡ a.current_execution
    → b.chat_write_in_flight ≡ a.chat_write_in_flight
    → b.threads ≡ a.threads
    → Owned a
    → Owned (react signal signal.source (mark_interrupted signal b))
interrupted-Owned signal a b e w t h =
    let marked = mark_interrupted signal b in
    let (e', w', t') = react-variables signal signal.source b in
    let f =
      react-Fits signal signal.source marked a.current_execution a.chat_write_in_flight
        (Fits-eq a marked a.current_execution a.chat_write_in_flight (t' ∙ t) h) in
    subst₂ (λ o c. Fits o c (react signal signal.source marked)) (sym (e' ∙ e)) (sym (w' ∙ w)) f

pub interrupt_actor-Inv :
    (signal : InterruptSignal) (a : Actor) → Inv a → Inv (interrupt_actor signal a).0
unfolding interrupt_actor
interrupt_actor-Inv signal a h =
    let d = resolve_transition a.status (interrupt signal) in
    record {
      core = interrupt_actor-Core signal a h.core;
      fits =
          either d.accepted a
            (react signal signal.source (mark_interrupted signal (take_decision d a)))
            (interrupted-Owned signal a (take_decision d a) refl refl refl h.fits) h.fits;
    }
