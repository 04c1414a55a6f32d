-- ===== src/Runtime/Actor/Histories.antt =====
-- Every history of calls and answers of ts-core/src/runtime/actor.ts.
use mc_servant.Base.{
  ℕ, ◌+◌, ◌≤◌, ◌≡◌, refl, false, Option, none, some, List, [], ◌∷◌, arith, if◌then◌else◌, is_none,
  length, get_elem?,
}
use mc_servant.Runtime.Contracts.{ExternalAuthState, ExternalAuthPlan, executing}
use mc_servant.Runtime.Actor.State.{
  Actor, Outcome, Thread, connecting, logged_in, readying, writing, settled, running, reflexes,
}
use mc_servant.Runtime.Actor.{
  Answer, done, sandbox, reflexed, Event, starts, broadcasts, executes, interrupts, chats,
  shuts_down, resumes, continue, take_thread, resume, step, run, create_bot_actor_runtime,
}
use mc_servant.Runtime.Actor.Owners.{
  code_owner, chat_owner, owners, owners-Owns, Owns-remove_at-none, Owns-remove_at-some,
}
use mc_servant.Runtime.Actor.Invariant.{Core, Fits, Inv, total, is_end, is_start, is_reply, live}
use mc_servant.Runtime.Actor.CallsKeep.{start-Inv, broadcast-Inv, write_chat-Inv, shut_down-Inv}
use mc_servant.Runtime.Actor.CodeKeeps.{execute_code-Inv, interrupt_actor-Inv}
use mc_servant.Runtime.Actor.ResumesKeep.{
  after_connect-Inv, after_chat-Inv, after_write-Inv, after_login-Inv, after_ready-Inv,
  after_sandbox-Inv, after_reflex-Inv,
}

taken-Core : (i : ℕ) (a : Actor) → Core a → Core (take_thread i a)
taken-Core i a h = record {
  busy = h.busy;
  task = h.task;
  bounded = h.bounded;
  ended = h.ended;
  recorded = h.recorded;
}

-- A call without an owner is answered.
taken-Inv :
    (i : ℕ) (a : Actor) {t : Thread}
    → get_elem? a.threads i ≡ some t
    → code_owner t ≡ none
    → chat_owner t ≡ none
    → Inv a
    → Inv (take_thread i a)
taken-Inv i a g e k h = record {
  core = taken-Core i a h.core;
  fits = record {
    code = Owns-remove_at-none code_owner a.threads a.current_execution i g e h.fits.code;
    chat = Owns-remove_at-none chat_owner a.threads a.chat_write_in_flight i g k h.fits.chat;
  };
}

-- A chat write is answered.
taken_chat :
    (i : ℕ) (a : Actor) {t : Thread} {p : ℕ}
    → get_elem? a.threads i ≡ some t
    → code_owner t ≡ none
    → chat_owner t ≡ some p
    → Inv a
    → (a.chat_write_in_flight ≡ some p) × Fits a.current_execution none (take_thread i a)
taken_chat i a g e k h =
    let (held, chat) =
      Owns-remove_at-some chat_owner a.threads a.chat_write_in_flight i g k h.fits.chat in
    (
      held,
      record {
        code = Owns-remove_at-none code_owner a.threads a.current_execution i g e h.fits.code;
        chat = chat;
      },
    )

taken_code :
    (i : ℕ) (a : Actor) {t : Thread} {x : ℕ}
    → get_elem? a.threads i ≡ some t
    → code_owner t ≡ some x
    → chat_owner t ≡ none
    → Inv a
    → (a.current_execution ≡ some x) × Fits none a.chat_write_in_flight (take_thread i a)
taken_code i a g e k h =
    let (held, code) =
      Owns-remove_at-some code_owner a.threads a.current_execution i g e h.fits.code in
    (
      held,
      record {
        code = code;
        chat = Owns-remove_at-none chat_owner a.threads a.chat_write_in_flight i g k h.fits.chat;
      },
    )

-- What the rest of a call must do to the state that the call has left.
abbrev Safe : ℕ → Actor → Option (Actor → Outcome) → Type 0
Safe i a none = Unit
Safe i a (some rest) = Inv (rest (take_thread i a)).0

continue-Safe :
    (t : Thread) (answer : Answer) (i : ℕ) (a : Actor)
    → get_elem? a.threads i ≡ some t
    → Inv a
    → Safe i a (continue t answer)
unfolding continue
continue-Safe connecting (done b) i a g h = after_connect-Inv b _ (taken-Inv i a g refl refl h)
continue-Safe logged_in (done b) i a g h = after_login-Inv _ (taken-Inv i a g refl refl h)
continue-Safe readying (done b) i a g h = after_ready-Inv _ (taken-Inv i a g refl refl h)
continue-Safe (writing p w) (done b) i a g h =
    let (held, f) = taken_chat i a g refl refl h in
    after_chat-Inv p w b (take_thread i a) held (taken-Core i a h.core) f
continue-Safe (settled p w b) (done r) i a g h =
    let (held, f) = taken_chat i a g refl refl h in
    after_write-Inv p w b (take_thread i a) held (taken-Core i a h.core) f
continue-Safe (running x m) (sandbox answer event) i a g h =
    let (held, f) = taken_code i a g refl refl h in
    after_sandbox-Inv x m answer event (take_thread i a) held (taken-Core i a h.core) f
continue-Safe (reflexes signal threat) (reflexed answer) i a g h =
    after_reflex-Inv threat answer _ (taken-Inv i a g refl refl h)
continue-Safe _ _ i a g h = tt

resume-Inv : (i : ℕ) (answer : Answer) (a : Actor) → Inv a → Inv (resume i answer a).0
unfolding resume
resume-Inv i answer a h = found (get_elem? a.threads i) (λ t g. continue-Safe t answer i a g h)
  where
    answered :
        (o : Option (Actor → Outcome))
        → Safe i a o
        → Inv (
            let p : Outcome = elim o [ none ↦ (a, none) | some rest ↦ rest (take_thread i a) ] in
            p.0)
    answered none s = h
    answered (some rest) s = s

    found :
        (o : Option Thread)
        → ((t : Thread) → o ≡ some t → Safe i a (continue t answer))
        → Inv (
            let p : Outcome = elim o [
              | none ↦ (a, none)
              | some t ↦ elim (continue t answer) [
                | none ↦ (a, none)
                | some rest ↦ rest (take_thread i a)
              ]
            ] in
            p.0)
    found none s = h
    found (some t) s = answered (continue t answer) (s t refl)

-- Every call and every answer keeps the invariant.
pub step-Inv : (a : Actor) (e : Event) → Inv a → Inv (step a e).0
unfolding step
step-Inv a starts h = start-Inv a h
step-Inv a (broadcasts m c) h = broadcast-Inv m c a h
step-Inv a (executes m w r e) h = execute_code-Inv m w r e a h
step-Inv a (interrupts s) h = interrupt_actor-Inv s a h
step-Inv a (chats j m t b) h = write_chat-Inv j m t b a h
step-Inv a shuts_down h = shut_down-Inv a h
step-Inv a (resumes i answer) h = resume-Inv i answer a h

pub run-Inv : (a : Actor) (es : List Event) → Inv a → Inv (run a es)
unfolding run
run-Inv a [] h = h
run-Inv a (e ∷ es) h = run-Inv (step a e).0 es (step-Inv a e h)

pub created-Inv :
    (auth : ExternalAuthState) (plan : ExternalAuthPlan) → Inv (create_bot_actor_runtime auth plan)
unfolding create_bot_actor_runtime
created-Inv auth plan = record { core = ground arith; fits = record { code = refl; chat = refl } }

module _ (auth : ExternalAuthState) (plan : ExternalAuthPlan) (es : List Event) where
  abbrev after : Actor
  after = run (create_bot_actor_runtime auth plan) es

  after-Inv : Inv after
  after-Inv = run-Inv _ es (created-Inv auth plan)

  -- The single writer: after any history of calls and answers, at most one `executeCode` waits for
  -- the sandbox and at most one chat write is in flight; there is one exactly when the variable
  -- `currentExecution`, or `chatWriteInFlight`, is set.
  pub run-single_writer :
      (owners code_owner after.threads ≡ (if is_none after.current_execution then 0 else 1))
      × (owners chat_owner after.threads ≡ (if is_none after.chat_write_in_flight then 0 else 1))
  run-single_writer = (
    owners-Owns code_owner after.threads _ after-Inv.fits.code,
    owners-Owns chat_owner after.threads _ after-Inv.fits.chat,
  )

  -- After any history the status `executing`, and likewise a current task, means that an execution
  -- is current and has not been interrupted.
  pub run-executing :
      (after.status ≡ executing → live after ≡ 1)
      × (is_none after.current_task ≡ false → live after ≡ 1)
  run-executing = (after-Inv.core.busy, after-Inv.core.task)

  -- After any history, no more tasks have ended (completed, failed or interrupted) than have
  -- started, and fewer while an execution is current and not interrupted; each `chat.reply` event
  -- has its record; and `recentEvents` holds at most 50 entries.
  pub run-events :
      (total is_end after.emitted_events + live after ≤ total is_start after.emitted_events)
      × (total is_reply after.emitted_events ≡ length after.chat_writes)
      × (length after.recent_events ≤ 50)
  run-events = (after-Inv.core.ended, after-Inv.core.recorded, after-Inv.core.bounded)
