-- ===== src/Lib.antt =====
-- The execution kernel of ts-core, the TypeScript service that drives Minecraft bots.
--
-- A bot has one actor, its single writer (ts-core/src/runtime/actor.ts). The actor's status is
-- changed only by decisions of the state machine (ts-core/src/runtime/state-machine.ts), and what
-- it may do in a status is told by the ready gate (ts-core/src/runtime/contracts.ts).
--
-- Runtime/Contracts: the unions of `ExternalAuthState` and `ExternalAuthExecutionPlan`,
--   `createExternalAuthExecutionPlan`, `createRuntimeReadyGate`. A thrown error is a `Failure`.
--   Contracts/Scaffold: `createExternalAuthState`, `createExternalAuthPublicState` and
--   `createRuntimeScaffold`.
-- Runtime/StateMachine: `canTransition`, `resolveInterruptDecision`, `resolveTransition`,
--   `createTransitionDecision`. Graph has the edges as a relation; Documented has the transition
--   table of ts-core/Docs/02_RUNTIME_SPEC.md as a family.
-- Runtime/Actor: the variables of `createBotActorRuntime` (State), what each call does up to its
--   first `await` (Calls), and what it does when an `await` is answered (Resume). Calls in flight
--   are a list of threads, and a history is a list of events: a call, or the answer to the call at
--   an index. So every interleaving is a list. Owners and Invariant hold the invariant, CallsKeep
--   and ResumesKeep its preservation, Keeps the case of an answer, Histories, Interrupts, Aborts and
--   Shutdown what follows. Snapshot is what each call returns, `createSnapshot`.
-- Mining: `planMineRoute` of ts-core/src/runtime/transport/mining/planner.ts, which the bot's
--   transport asks for a way to a block. Position (blocks, directions, sets of positions), World
--   (what is read of the world), Node (actions, search nodes), Route (`expandSuccessors`), Heap
--   (`MinHeap`), Visited (`stateKey`), Outcome (the inputs and results) and Planner (the search). The
--   `while` loop is recursion on `maxExpanded - expanded`, the bound that
--   the code itself keeps; the loops of the heap run on the index, or the length, as fuel, and
--   Heap/Fuel shows it enough. Heap/Contents has what `push` and `pop` keep, Heap/Order, Heap/Descent and
--   Heap/Least the order. Legal says what a route is, apart from the search.
-- Terrain: `planTerrainRoute` of ts-core/src/runtime/transport/terrain/router.ts, the general planner
--   that walks, jumps, drops, digs and places blocks. Action (actions, search nodes, results), World
--   (what is read of the world), Candidates (`expandSuccessors`), Phases (`createSearchPhases`),
--   Visited (`stateKey`), Outcome (results and lines), Search (`searchTerrainPhase`, recursion on
--   the states left, the bound the code keeps) and Router (the phases in turn, under a total budget).
--   Legal says what a route is on a ground that its own actions change; its children show it of each
--   candidate and then of the search. The heap is that of Mining, which the source declares a second time.
-- Diagnostics/AsyncSink: `createAsyncDiagnosticSink` of ts-core/src/diagnostics/async-sink.ts, the
--   bounded queue beside the runtime. `drain` is a loop over awaited writes: a step runs it to its
--   next `await`, and the end of a write is an event. So is the scheduler's call of its callback.
-- Workers/BotWorker: `processTask` of ts-core/src/workers/bot-worker.ts, which takes jobs from the
--   queue, has the actor execute them and reports their life cycle. The answer of `executeCode` and
--   what the action sink throws are inputs; each await is passed in turn, since a queue's worker has
--   a concurrency of one.
-- Conversation/InventoryDiff: `createConversationInventoryDiffCache` of
--   ts-core/src/conversation/inventory-diff-cache.ts, from which the conversation worker takes the
--   changes of a bot's inventory for a prompt. The returned contexts, whose `advanceBaseline` closes
--   over a flag, are part of the state. Base/Maps is the JavaScript `Map` in its insertion order. A
--   line is the list of its entries instead of their text.
-- Sandbox: `executeSandboxCodeRequest` of ts-core/src/sandbox/execution.ts, which runs the code of a
--   task. ExecutionControl (the deadline, abort signal and terminal error that the host calls share),
--   StaticPolicy (resource-limits.ts), Errors, Steps, HostCall and Resume (host-call.ts: the beginning of
--   a call, and its going on after the race of the host's answer with the abort), Execution (the
--   function between its awaits) and Histories (what the script, the host, the timers and the external
--   signal do, one event after the other).
-- Interfaces/ServerBridge: ts-core/src/interfaces/server-bridge, the WebSocket by which the mod in a
--   Minecraft server reports. Json (what `JSON.parse`, a parameter, gives), Protocol
--   (`parseServerBridgeInboundFrame`), Envelope (what is passed on), Connection
--   (`checkAuthorization` and the variables of one connection) and Route (its listeners; a history is
--   a list of messages, timeouts and ends). Connection/Window has the set and the queue of message ids.
-- Tests: the definitions on concrete inputs.
--
-- The planners' double arithmetic (distances, the samples along a ray, the estimate) is a parameter,
-- the record `World` of each, and so are the clock, the memory of blocks that a bot placed itself, the
-- reads of blocks and what is known of a block. A state key is its parts instead of their text, and a
-- line of diagnostics is its label and its numbers.
--
-- For the actor, transports, sandboxes and reflex executors are not run: their answers are events, so
-- a theorem on all histories holds for every behaviour of theirs; so it is with the isolate, the script
-- and the host of a sandbox. The error object, the formatter of recent events and the clock are inputs
-- too: an event carries the line it appends.
--
-- Not modelled: the calls of mineflayer that carry a route out, the brain and conversation workers
-- with their prompts and calls of a language model, the skills, the database, the HTTP and realtime
-- interfaces, the host bridge by which an actor runs skills, the wiring of the application, and the
-- parts in Python and Java. They are input and output, texts for a model or glue around the kernel;
-- what the kernel needs of them is an event or a parameter.
pub mod Base
pub mod Runtime
pub mod Interfaces
pub mod Mining
pub mod Diagnostics
pub mod Workers
pub mod Conversation
pub mod Sandbox
pub mod Terrain
mod Tests
