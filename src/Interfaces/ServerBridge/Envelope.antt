-- ===== src/Interfaces/ServerBridge/Envelope.antt =====
-- What the bridge passes on of a frame or of a connection: `createServerBridgeEventEnvelope` of
-- ts-core/src/interfaces/server-bridge/contracts.ts and `createServerBridgeEnvelopeFromFrame` of
-- ts-core/src/interfaces/server-bridge/protocol.ts.
use Prim.Native.String.{String, ◌++◌}
use mc_servant.Base.Text.{is_blank}
use mc_servant.Base.{◌||◌, Option, none, some, if◌then◌else◌}
use mc_servant.Interfaces.ServerBridge.Json.{Record}
use mc_servant.Interfaces.ServerBridge.Protocol.{
  ServerBridgeInboundFrame, frame_type, type_text, build_envelope_payload,
}

-- `owner_id` is null; the source, the channel and `runtime_effect` are the constants below.
pub record ServerBridgeEventEnvelope : Type 0 where
  pub bot_id : String
  pub event_id : String
  pub source : String
  pub channel : String
  pub timestamp : String
  pub event_type : String
  pub runtime_effect : String
  pub payload : Record

-- An empty field makes it throw: `none`.
unfoldable pub create_server_bridge_event_envelope :
    (bot_id event_id event_type timestamp : String) → Record → Option ServerBridgeEventEnvelope
create_server_bridge_event_envelope bot_id event_id event_type timestamp payload =
    if is_blank event_type || is_blank bot_id || is_blank event_id || is_blank timestamp
    then none
    else some (record {
      bot_id = bot_id;
      event_id = event_id;
      source = "server_bridge";
      channel = "server_bridge";
      timestamp = timestamp;
      event_type = event_type;
      runtime_effect = "observe_only";
      payload = payload;
    })

unfoldable pub create_server_bridge_envelope_from_frame :
    ServerBridgeInboundFrame
    → (bot_id event_id received_at : String) → Option ServerBridgeEventEnvelope
create_server_bridge_envelope_from_frame frame bot_id event_id received_at =
    create_server_bridge_event_envelope bot_id event_id
      ("server_bridge." ++ type_text (frame_type frame)) received_at (build_envelope_payload frame)
