-- ===== src/Runtime/Actor/CallsKeep.antt =====
-- The calls of ts-core/src/runtime/actor.ts keep the invariant.
use Prim.Native.String.{String}
use mathlib.Core.Path.{subst}
use mc_servant.Base.{
  ℕ, ◌-◌, ◌≤◌, ◌≡◌, refl, sym, Bool, Option, none, some, List, [], ◌∷◌, ◌++◌, arith, length,
  Option-cases, inl, inr, length-drop,
}
use mc_servant.Runtime.StateMachine.{resolve_transition, shutdown_requested, task_failed}
use mc_servant.Runtime.Actor.State.{
  Actor, broadcast_reply, sandbox_chat, Thread, ChatWrite, ChatMethod, connecting, writing,
  RecentEvent, ActorError, append_recent_event, max_recent_events,
}
use mc_servant.Runtime.Actor.Calls.{
  shut_down, start, spawn, run_serialized_chat_write, broadcast, write_chat, fail_execution,
}
use mc_servant.Runtime.Actor.Owners.{
  Owns, code_owner, chat_owner, Owns-append-none, Owns-append-some,
}
use mc_servant.Runtime.Actor.Invariant.{Core, Fits, Inv, total-append, is_end, is_start, is_reply}

pub length-append_recent_event :
    (e : RecentEvent) (es : List RecentEvent)
    → length (append_recent_event e es) ≤ max_recent_events
length-append_recent_event e es =
    omega (arith, length-drop (length (es ++ e ∷ []) - max_recent_events) (es ++ e ∷ []))

pub shut_down-Core : (a : Actor) → Core a → Core (shut_down a).0
unfolding shut_down
shut_down-Core a h =
    let events = (resolve_transition a.status shutdown_requested).emitted_events in
    ground (
      arith,
      total-append is_end a.emitted_events events,
      total-append is_start a.emitted_events events,
      total-append is_reply a.emitted_events events,
    )

pub fail_execution-Core :
    (x : ℕ) (event : RecentEvent) (error : ActorError) (a : Actor)
    → a.current_execution ≡ some x
    → Core a
    → Core (fail_execution x event error a).0
unfolding fail_execution
fail_execution-Core x event error a e h =
    let events = (resolve_transition a.status task_failed).emitted_events in
    ground (
      arith,
      total-append is_end a.emitted_events events,
      total-append is_start a.emitted_events events,
      total-append is_reply a.emitted_events events,
      length-append_recent_event event a.recent_events,
    )

pub fail_execution-current :
    (x : ℕ) (event : RecentEvent) (error : ActorError) (a : Actor)
    → a.current_execution ≡ some x
    → (fail_execution x event error a).0.current_execution ≡ none
unfolding fail_execution
fail_execution-current x event error a e = ground arith

pub spawn-Core : (t : Thread) (a : Actor) → Core a → Core (spawn t a)
spawn-Core t a h = record {
  busy = h.busy;
  task = h.task;
  bounded = h.bounded;
  ended = h.ended;
  recorded = h.recorded;
}

pub spawn-Fits :
    (t : Thread) (o c : Option ℕ) (a : Actor)
    → code_owner t ≡ none
    → chat_owner t ≡ none
    → Fits o c a
    → Fits o c (spawn t a)
spawn-Fits t o c a e k h = record {
  code = Owns-append-none code_owner a.threads o t e h.code;
  chat = Owns-append-none chat_owner a.threads c t k h.chat;
}

-- Where the calls in flight and the variables they hold stay, so does what they own.
pub Fits-eq : (a b : Actor) (o c : Option ℕ) → b.threads ≡ a.threads → Fits o c a → Fits o c b
Fits-eq a b o c e h = record {
  code = subst (λ ts. Owns code_owner ts o) (sym e) h.code;
  chat = subst (λ ts. Owns chat_owner ts c) (sym e) h.chat;
}

pub start-Inv : (a : Actor) → Inv a → Inv (start a).0
unfolding start
start-Inv a h = ground (
  arith,
  spawn-Core connecting a h.core,
  spawn-Fits connecting a.current_execution a.chat_write_in_flight a refl refl h.fits,
)

pub run_serialized_chat_write-Inv :
    (w : ChatWrite) (a : Actor) → Inv a → Inv (run_serialized_chat_write w a).0
unfolding run_serialized_chat_write
run_serialized_chat_write-Inv w a h = elim (Option-cases a.chat_write_in_flight) [
  | inr (p, e) ↦ rw (e, run_serialized_chat_write) h
  | inl e ↦
      let t = writing a.next_promise w in
      rw (e, run_serialized_chat_write)
        (record {
          core = record {
            busy = h.core.busy;
            task = h.core.task;
            bounded = h.core.bounded;
            ended = h.core.ended;
            recorded = h.core.recorded;
          };
          fits = record {
            code = Owns-append-none code_owner a.threads a.current_execution t refl h.fits.code;
            chat = Owns-append-some chat_owner a.threads t refl (rw e at (h.fits.chat));
          };
        })
]

pub broadcast-Inv :
    (message_id content : String) (a : Actor) → Inv a → Inv (broadcast message_id content a).0
unfolding broadcast
broadcast-Inv message_id content a h =
    ground (arith, run_serialized_chat_write-Inv (broadcast_reply message_id) a h)

pub write_chat-Inv :
    (job : String) (method : ChatMethod) (message : String) (active : Bool) (a : Actor)
    → Inv a
    → Inv (write_chat job method message active a).0
unfolding write_chat
write_chat-Inv job method message active a h =
    ground (arith, run_serialized_chat_write-Inv (sandbox_chat job method) a h)

pub shut_down-Inv : (a : Actor) → Inv a → Inv (shut_down a).0
unfolding shut_down
shut_down-Inv a h = record {
  core = shut_down-Core a h.core;
  fits = Fits-eq a (shut_down a).0 _ _ refl h.fits;
}
