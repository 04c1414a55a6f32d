-- ===== src/Runtime/Actor/ResumesKeep.antt =====
-- The answered calls of ts-core/src/runtime/actor.ts keep the invariant. Each starts from a state
-- whose calls in flight no longer hold the answered one.
use Prim.Native.String.{String}
use mathlib.Core.Path.{subst, subst₂}
use mc_servant.Base.{
  ℕ, ◌≡◌, refl, sym, Bool, true, false, none, some, [], ◌∷◌, ◌++◌, arith, if◌then◌else◌,
  length-append, inl, inr, ◌⊎◌, Bool-cases,
}
use mc_servant.Runtime.Contracts.{ThreatAssessment}
use mc_servant.Runtime.StateMachine.{
  resolve_transition, task_completed, task_failed, ready, reflex_done, chat_reply,
}
use mc_servant.Runtime.Actor.State.{
  Actor, SandboxStatus, Thread, ChatWrite, RecentEvent, interrupted_error, code_failed, settled,
  logged_in, readying, external_auth_login,
}
use mc_servant.Runtime.Actor.Calls.{spawn, fail_execution}
use mc_servant.Runtime.Actor.Resume.{
  SandboxAnswer, returned, threw, ReflexAnswer, after_connect, after_chat, after_write, after_login,
  after_ready, after_sandbox, after_reflex, is_completed,
}
use mc_servant.Runtime.Actor.Owners.{code_owner, chat_owner, Owns-append-none, Owns-append-some}
use mc_servant.Runtime.Actor.Invariant.{Core, Fits, Inv, total-append, is_end, is_start, is_reply}
use mc_servant.Runtime.Actor.CallsKeep.{
  spawn-Core, spawn-Fits, Fits-eq, run_serialized_chat_write-Inv, length-append_recent_event,
}
use mc_servant.Runtime.Actor.CodeKeeps.{fail_execution-Inv}

spawned :
    (t : Thread) (a : Actor) → code_owner t ≡ none → chat_owner t ≡ none → Inv a → Inv (spawn t a)
spawned t a e k h = record {
  core = spawn-Core t a h.core;
  fits = spawn-Fits t a.current_execution a.chat_write_in_flight a e k h.fits;
}

pub after_connect-Inv : (b : Bool) (a : Actor) → Inv a → Inv (after_connect b a).0
unfolding after_connect
after_connect-Inv b a h =
    ground
      (arith, spawned readying a refl refl h, run_serialized_chat_write-Inv external_auth_login a h)

after_ready-Core : (a : Actor) → Core a → Core (after_ready a).0
unfolding after_ready
after_ready-Core a h =
    let events = (resolve_transition a.status (ready a.external_auth)).emitted_events in
    ground (
      arith,
      total-append is_end a.emitted_events events,
      total-append is_start a.emitted_events events,
      total-append is_reply a.emitted_events events,
    )

pub after_ready-Inv : (a : Actor) → Inv a → Inv (after_ready a).0
unfolding after_ready
after_ready-Inv a h = record {
  core = after_ready-Core a h.core;
  fits = Fits-eq a (after_ready a).0 _ _ refl h.fits;
}

after_reflex-Core :
    (t : ThreatAssessment) (r : ReflexAnswer) (a : Actor) → Core a → Core (after_reflex t r a).0
unfolding after_reflex
after_reflex-Core t r a h =
    let events = (resolve_transition a.status reflex_done).emitted_events in
    ground (
      arith,
      total-append is_end a.emitted_events events,
      total-append is_start a.emitted_events events,
      total-append is_reply a.emitted_events events,
    )

pub after_reflex-Inv :
    (t : ThreatAssessment) (r : ReflexAnswer) (a : Actor) → Inv a → Inv (after_reflex t r a).0
unfolding after_reflex
after_reflex-Inv t r a h = record {
  core = after_reflex-Core t r a h.core;
  fits = Fits-eq a (after_reflex t r a).0 _ _ refl h.fits;
}

pub after_login-Inv : (a : Actor) → Inv a → Inv (after_login a).0
unfolding after_login
after_login-Inv a h = record {
  core = record {
    busy = h.core.busy;
    task = h.core.task;
    bounded = h.core.bounded;
    ended = h.core.ended;
    recorded = h.core.recorded;
  };
  fits = record {
    code = Owns-append-none code_owner a.threads a.current_execution readying refl h.fits.code;
    chat = Owns-append-none chat_owner a.threads a.chat_write_in_flight readying refl h.fits.chat;
  };
}

-- The write with the promise `p` holds the chat, so it is put back in flight as `settled`.
pub after_chat-Inv :
    (p : ℕ) (w : ChatWrite) (ok : Bool) (a : Actor)
    → a.chat_write_in_flight ≡ some p
    → Core a
    → Fits a.current_execution none a
    → Inv (after_chat p w ok a).0
unfolding after_chat
after_chat-Inv p w true a e h f = record {
  core = record {
    busy = h.busy;
    task = h.task;
    bounded = h.bounded;
    ended = omega (
      arith,
      h.ended,
      total-append is_end a.emitted_events (chat_reply ∷ []),
      total-append is_start a.emitted_events (chat_reply ∷ []),
    );
    recorded = omega (
      arith,
      h.recorded,
      total-append is_reply a.emitted_events (chat_reply ∷ []),
      length-append a.chat_writes (w ∷ []),
    );
  };
  fits = record {
    code = Owns-append-none code_owner a.threads a.current_execution (settled p w true) refl f.code;
    chat = rw e (Owns-append-some chat_owner a.threads (settled p w true) refl f.chat);
  };
}
after_chat-Inv p w false a e h f = record {
  core = spawn-Core (settled p w false) a h;
  fits = record {
    code =
        Owns-append-none code_owner a.threads a.current_execution (settled p w false) refl f.code;
    chat = rw e (Owns-append-some chat_owner a.threads (settled p w false) refl f.chat);
  };
}

-- What a released write leaves: the chat is free, and a login goes on.
after_write-variables :
    (p : ℕ) (w : ChatWrite) (ok : Bool) (a : Actor)
    → a.chat_write_in_flight ≡ some p
    → let b = (after_write p w ok a).0 in
      (b.chat_write_in_flight ≡ none)
      × (b.current_execution ≡ a.current_execution)
      × ((b.threads ≡ a.threads) ⊎ (b.threads ≡ a.threads ++ logged_in ∷ []))
unfolding after_write
after_write-variables p w ok a e = ground arith

after_write-Core :
    (p : ℕ) (w : ChatWrite) (ok : Bool) (a : Actor) → Core a → Core (after_write p w ok a).0
unfolding after_write
after_write-Core p w ok a h = ground arith

pub after_write-Inv :
    (p : ℕ) (w : ChatWrite) (ok : Bool) (a : Actor)
    → a.chat_write_in_flight ≡ some p
    → Core a
    → Fits a.current_execution none a
    → Inv (after_write p w ok a).0
after_write-Inv p w ok a e h f =
    let b = (after_write p w ok a).0 in
    let (c, x, t) = after_write-variables p w ok a e in
    record {
      core = after_write-Core p w ok a h;
      fits =
          subst₂ (λ o q. Fits o q b) (sym x) (sym c)
            (elim t [
              | inl same ↦ Fits-eq a b _ _ same f
              | inr more ↦
                  Fits-eq (spawn logged_in a) b _ _ more (spawn-Fits logged_in _ _ a refl refl f)
            ]);
    }

-- The call of the execution `x` leaves the calls in flight; the variable is still to be cleared.
after_sandbox-Core :
    (x : ℕ) (message_id : String) (s : SandboxStatus) (n : ℕ) (event : RecentEvent) (a : Actor)
    → a.current_execution ≡ some x
    → (a.executions x).interrupted ≡ false
    → Core a
    → Core (after_sandbox x message_id (returned s n) event a).0
unfolding after_sandbox
after_sandbox-Core x message_id s n event a e u h =
    let reason = if is_completed s then task_completed else task_failed in
    let events = (resolve_transition a.status reason).emitted_events in
    ground (
      arith,
      total-append is_end a.emitted_events events,
      total-append is_start a.emitted_events events,
      total-append is_reply a.emitted_events events,
      length-append_recent_event event a.recent_events,
    )

after_sandbox-variables :
    (x : ℕ) (message_id : String) (s : SandboxStatus) (n : ℕ) (event : RecentEvent) (a : Actor)
    → a.current_execution ≡ some x
    → (a.executions x).interrupted ≡ false
    → let b = (after_sandbox x message_id (returned s n) event a).0 in
      (b.current_execution ≡ none)
      × (b.chat_write_in_flight ≡ a.chat_write_in_flight)
      × (b.threads ≡ a.threads)
unfolding after_sandbox
after_sandbox-variables x message_id s n event a e u = ground arith

after_sandbox_interrupted :
    (x : ℕ) (message_id : String) (s : SandboxStatus) (n : ℕ) (event : RecentEvent) (a : Actor)
    → (a.executions x).interrupted ≡ true
    → after_sandbox x message_id (returned s n) event a
      ≡ fail_execution x event (interrupted_error (a.executions x).interrupt_signal) a
unfolding after_sandbox
after_sandbox_interrupted x message_id s n event a i = rw i

pub after_sandbox-Inv :
    (x : ℕ) (message_id : String) (answer : SandboxAnswer) (event : RecentEvent) (a : Actor)
    → a.current_execution ≡ some x
    → Core a
    → Fits none a.chat_write_in_flight a
    → Inv (after_sandbox x message_id answer event a).0
after_sandbox-Inv x message_id (threw message) event a e h f =
    unfold after_sandbox in fail_execution-Inv x event (code_failed message) a e h f
after_sandbox-Inv x message_id (returned s n) event a e h f =
    elim (Bool-cases (a.executions x).interrupted) [
      | inl i ↦
          subst (λ q. Inv q.0) (sym (after_sandbox_interrupted x message_id s n event a i))
            (fail_execution-Inv x event (interrupted_error (a.executions x).interrupt_signal) a e h
              f)
      | inr u ↦
          let b = (after_sandbox x message_id (returned s n) event a).0 in
          let (o, c, t) = after_sandbox-variables x message_id s n event a e u in
          record {
            core = after_sandbox-Core x message_id s n event a e u h;
            fits = subst₂ (λ p q. Fits p q b) (sym o) (sym c) (Fits-eq a b _ _ t f);
          }
    ]
