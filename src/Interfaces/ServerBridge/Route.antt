-- ===== src/Interfaces/ServerBridge/Route.antt =====
-- `registerServerBridgeWsRoute` of ts-core/src/interfaces/server-bridge/route.ts: the listeners of one
-- connection. A history is a list of what happens to it: messages, the timer, the end.
pub mod Sessions
pub mod Timer
pub mod Histories
use Prim.Native.String.{String}
use mc_servant.Base.{
  ℕ, Bool, true, false, Option, none, some, List, [], ◌∷◌, ◌++◌, ◌==◌, if◌then◌else◌,
}
use mc_servant.Interfaces.ServerBridge.Json.{Json, json_string, json_number, natural, Record}
use mc_servant.Interfaces.ServerBridge.Envelope.{
  ServerBridgeEventEnvelope, create_server_bridge_event_envelope,
  create_server_bridge_envelope_from_frame,
}
use mc_servant.Interfaces.ServerBridge.Protocol.{
  ServerBridgeErrorCode, protocol_version_mismatch, invalid_field, ServerBridgeInboundFrame,
  frame_type, ServerBridgeFrameParseFailure, ParseResult, ok, refused,
  parse_server_bridge_inbound_frame, ServerBridgeErrorFrame, ServerBridgeAckFrame,
}
use mc_servant.Interfaces.ServerBridge.Connection.{
  ConnectionState, reset_heartbeat_timeout, validate_frame, accept_frame, close, redact_raw,
}

-- What a listener does, in its order; `thrown` is an envelope's refusal, which ends the listener.
pub data Effect : Type 0 where
  send_ack : ServerBridgeAckFrame → Effect
  send_error : ServerBridgeErrorFrame → Effect
  close_socket : ℕ → String → Effect
  on_event : ServerBridgeInboundFrame → ServerBridgeEventEnvelope → (received_at : String) → Effect
  on_lifecycle_event : ServerBridgeEventEnvelope → (received_at : String) → Effect
  on_parse_failure : (raw : String) → ServerBridgeFrameParseFailure → Effect
  on_close : ℕ → String → Effect
  thrown : Effect

pub data Event : Type 0 where
  message : (raw now event_id : String) → Event
  heartbeat_timeout : (now event_id : String) → Event
  socket_closed : (code : ℕ) → (reason now event_id : String) → Event
  on_event_failed : (cause : String) → Event

pub record ServerBridgeWsRouteOptions : Type 0 where
  pub access_token : String
  pub bot_id : String
  pub heartbeat_timeout_ms : ℕ

pub record Connection : Type 0 where
  pub state : ConnectionState
  pub effects : List Effect

-- `shouldCloseOnFailure`.
unfoldable pub should_close_on_failure : ServerBridgeErrorCode → Bool
should_close_on_failure protocol_version_mismatch = true
should_close_on_failure other = false

-- The text of the code `protocol_version_mismatch`, the only one with which a socket is closed.
abbrev pub mismatch_text : String
mismatch_text = "protocol_version_mismatch"

-- `JSON.parse` is a parameter: `none` where it throws.
module _ (parse_json : String → Option Json) (options : ServerBridgeWsRouteOptions) where
  abbrev create_connection_state : ConnectionState
  create_connection_state = record {
    handshaken = false;
    closed = false;
    heartbeat_timer = false;
    seen_message_ids = [];
    seen_message_id_order = [];
  }

  -- `emitLifecycle`, and what its listener does after it.
  unfoldable pub emit_lifecycle :
      (event_type now event_id : String) → Record → List Effect → List Effect
  emit_lifecycle event_type now event_id payload rest =
      elim (create_server_bridge_event_envelope options.bot_id event_id event_type now payload) [
        | none ↦ thrown ∷ []
        | some envelope ↦ on_lifecycle_event envelope now ∷ rest
      ]

  -- The handler of a new connection. If the envelope is refused, the code sets no listener, and nothing
  -- follows.
  unfoldable pub connect : (now event_id : String) → Connection
  connect now event_id = record {
    state = reset_heartbeat_timeout create_connection_state;
    effects =
        emit_lifecycle "server_bridge.connected" now event_id
          (("connection_state", json_string "connected")
            ∷ ("heartbeat_timeout_ms", json_number (natural options.heartbeat_timeout_ms))
            ∷ [])
          [];
  }

  -- A frame that is refused, by the parser or by `validateFrame`.
  unfoldable pub refuse_frame : (raw now : String) → ServerBridgeFrameParseFailure → List Effect
  refuse_frame raw now failure =
      on_parse_failure (redact_raw raw options.access_token) failure
      ∷ send_error (record { code = failure.code; message = failure.message; timestamp = now })
      ∷ []

  -- A frame that is accepted, after `acceptFrame`; `onEvent` does not throw before it returns.
  unfoldable pub report_frame : (now event_id : String) → ServerBridgeInboundFrame → List Effect
  report_frame now event_id frame =
      elim (create_server_bridge_envelope_from_frame frame options.bot_id event_id now) [
        | none ↦ thrown ∷ []
        | some envelope ↦
            on_event frame envelope now
            ∷ send_ack (record { ack_type = frame_type frame; timestamp = now })
            ∷ []
      ]

  -- A frame, with the answer of `validateFrame`.
  unfoldable pub handle_frame :
      ConnectionState
      → (raw now event_id : String) → ServerBridgeInboundFrame
      → Option ServerBridgeFrameParseFailure
      → ConnectionState × List Effect
  handle_frame c raw now event_id frame (some failure) = (c, refuse_frame raw now failure)
  handle_frame c raw now event_id frame none =
      (accept_frame c frame, report_frame now event_id frame)

  -- The answer of the parser.
  unfoldable pub handle_parsed :
      ConnectionState
      → (raw now event_id : String) → ParseResult ServerBridgeInboundFrame
      → ConnectionState × List Effect
  handle_parsed c raw now event_id (refused failure) = (
    c,
    refuse_frame raw now failure
        ++ (if should_close_on_failure failure.code
            then close_socket 4001 mismatch_text ∷ []
            else []),
  )
  handle_parsed c raw now event_id (ok frame) =
      handle_frame c raw now event_id frame (validate_frame c frame)

  -- The listener of "message".
  unfoldable pub handle_message :
      ConnectionState → (raw now event_id : String) → ConnectionState × List Effect
  handle_message c raw now event_id =
      handle_parsed c raw now event_id (parse_server_bridge_inbound_frame (parse_json raw))

  -- The callback of the heartbeat timer, if the timer is set.
  unfoldable pub handle_timeout :
      ConnectionState → (now event_id : String) → ConnectionState × List Effect
  handle_timeout c now event_id =
      if c.heartbeat_timer
      then (
        record c { heartbeat_timer = false },
        if c.closed
            then []
            else emit_lifecycle "server_bridge.heartbeat_timeout" now event_id
                (("timeout_ms", json_number (natural options.heartbeat_timeout_ms)) ∷ [])
                (close_socket 4002 "heartbeat_timeout" ∷ []),
      )
      else (c, [])

  -- The listener of "close".
  unfoldable pub handle_close :
      ConnectionState → (code : ℕ) → (reason now event_id : String) → ConnectionState × List Effect
  handle_close c code reason now event_id =
      let text = redact_raw reason options.access_token in
      (
        close c,
        emit_lifecycle
            (if code == 1000 then "server_bridge.closed" else "server_bridge.disconnected") now
            event_id (("code", json_number (natural code)) ∷ ("reason", json_string text) ∷ [])
            (on_close code text ∷ []),
      )

  unfoldable pub handle : ConnectionState → Event → ConnectionState × List Effect
  handle c (message raw now event_id) = handle_message c raw now event_id
  handle c (heartbeat_timeout now event_id) = handle_timeout c now event_id
  handle c (socket_closed code reason now event_id) = handle_close c code reason now event_id
  handle c (on_event_failed cause) = (
    c,
    on_parse_failure "(onEvent failed)" (record { code = invalid_field; message = cause }) ∷ [],
  )

  unfoldable pub step : Connection → Event → Connection
  step c event =
      let (state, effects) = handle c.state event in
      record { state = state; effects = c.effects ++ effects }

  unfoldable pub run : Connection → List Event → Connection
  run c [] = c
  run c (event ∷ events) = run (step c event) events
