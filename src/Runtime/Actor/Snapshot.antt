-- ===== src/Runtime/Actor/Snapshot.antt =====
-- ts-core/src/runtime/actor.ts: what every call of the actor returns, its snapshot. The bot's id
-- and the transport's own snapshot are a parameter.
use Prim.Native.String.{String}
use mc_servant.Base.{◌≡◌, false, Option, List, [], ◌≢◌, arith}
use mc_servant.Runtime.Contracts.{
  BotStatus, shutdown, ExternalAuthState, ExternalAuthPlan, ReadyGate, create_runtime_ready_gate,
}
use mc_servant.Runtime.StateMachine.{RuntimeEventType}
use mc_servant.Runtime.Actor.State.{Actor, ReflexSummary, ChatWrite, CodeExecution, RecentEvent}
use mc_servant.Runtime.Actor.{Event, run}
use mc_servant.Runtime.Actor.Shutdown.{run-shutdown}

-- Skill executions are left out: the actor appends none.
record ActorSnapshot (Transport : Type 0) : Type 0 where
  status : BotStatus
  transport : Transport
  ready_gate : ReadyGate
  external_auth : ExternalAuthState
  external_auth_plan : ExternalAuthPlan
  current_task : Option String
  recent_reflex : Option ReflexSummary
  emitted_events : List RuntimeEventType
  chat_writes : List ChatWrite
  code_executions : List CodeExecution
  recent_events : List RecentEvent

unfoldable create_snapshot : {Transport : Type 0} → Transport → Actor → ActorSnapshot Transport
create_snapshot transport a = record {
  status = a.status;
  transport = transport;
  ready_gate = create_runtime_ready_gate a.status a.external_auth;
  external_auth = a.external_auth;
  external_auth_plan = a.external_auth_plan;
  current_task = a.current_task;
  recent_reflex = a.recent_reflex;
  emitted_events = a.emitted_events;
  chat_writes = a.chat_writes;
  code_executions = a.code_executions;
  recent_events = a.recent_events;
}

-- After shutdown every snapshot, whatever calls and answers come, shows the shutdown and a gate
-- that lets nothing through and tells why.
create_snapshot-shutdown :
    {Transport : Type 0} (transport : Transport) (a : Actor) (es : List Event)
    → a.status ≡ shutdown
    → let s = create_snapshot transport (run a es) in
      (s.status ≡ shutdown)
      × (s.ready_gate.ready ≡ false)
      × (s.ready_gate.can_open_http ≡ false)
      × (s.ready_gate.can_open_realtime ≡ false)
      × (s.ready_gate.blocked_by ≢ [])
unfolding create_snapshot create_runtime_ready_gate
create_snapshot-shutdown transport a es h = ground (arith, run-shutdown a es h)
