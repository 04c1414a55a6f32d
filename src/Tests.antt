-- ===== src/Tests.antt =====
-- Runs of the models on concrete inputs, and the theorems at such inputs.
mod ExecutionRuns
mod BridgeRuns
mod ContractsRuns
mod ConversationRuns
mod DiagnosticsRuns
mod MiningRuns
mod RuntimeRuns
mod SandboxRuns
mod StateMachineRuns
mod TerrainRuns
mod WorkersRuns
