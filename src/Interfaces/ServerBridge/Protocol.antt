-- ===== src/Interfaces/ServerBridge/Protocol.antt =====
-- ts-core/src/interfaces/server-bridge/protocol.ts: the frames, and how a text becomes one.
pub mod Reads
pub mod Accepts
use Prim.Native.String.{String, ◌++◌}
use text.Mathlib.Text.{◌==◌}
use mc_servant.Base.Text.{is_blank}
use mc_servant.Base.{ℕ, Option, none, some, [], ◌∷◌, if◌then◌else◌}
use mc_servant.Interfaces.ServerBridge.Json.{
  JsonValue, json_string, json_number, json_null, json_array, json_object, json_boolean, natural,
  JsonNumber, negative_integer, not_an_integer, Record, Json, object_root, other_root, field,
}

pub data ServerBridgeErrorCode : Type 0 where
  invalid_json missing_type unknown_type protocol_version_mismatch missing_field :
      ServerBridgeErrorCode
  invalid_field handshake_required duplicate_hello duplicate_message_id : ServerBridgeErrorCode
  unauthorized : ServerBridgeErrorCode

pub data ServerBridgeInboundFrameType : Type 0 where
  hello heartbeat player_message : ServerBridgeInboundFrameType

-- The frames, less `type` and `protocol_version`, which are the same for each constructor.
pub data ServerBridgeInboundFrame : Type 0 where
  hello_frame : (mod_id mod_version connected_at instance_id : String) → ServerBridgeInboundFrame
  heartbeat_frame :
      (instance_id : String)
      → (sequence : ℕ) → (timestamp state : String) → ServerBridgeInboundFrame
  player_message_frame :
      (instance_id message_id player_uuid player_name content timestamp : String)
      → ServerBridgeInboundFrame

abbrev pub frame_type : ServerBridgeInboundFrame → ServerBridgeInboundFrameType
frame_type (hello_frame mod_id mod_version connected_at instance_id) = hello
frame_type (heartbeat_frame instance_id sequence timestamp state) = heartbeat
frame_type (player_message_frame instance_id message_id player_uuid player_name content timestamp) =
    player_message

abbrev pub type_text : ServerBridgeInboundFrameType → String
type_text hello = "hello"
type_text heartbeat = "heartbeat"
type_text player_message = "player_message"

pub record ServerBridgeFrameParseFailure : Type 0 where
  pub code : ServerBridgeErrorCode
  pub message : String

-- `{ ok: true, ... }` or a failure.
pub data ParseResult {ℓ} (A : Type ℓ) : Type ℓ where
  ok : A → ParseResult A
  refused : ServerBridgeFrameParseFailure → ParseResult A

infixl 5 ◌>>=◌
abbrev pub ◌>>=◌ {ℓ κ} :
    {A : Type ℓ} {B : Type κ} → ParseResult A → (A → ParseResult B) → ParseResult B
ok a >>= f = f a
refused failure >>= f = refused failure

abbrev pub refuse {ℓ} : {A : Type ℓ} → ServerBridgeErrorCode → String → ParseResult A
refuse code message = refused (record { code = code; message = message })

abbrev pub server_bridge_protocol_version : String
server_bridge_protocol_version = "server-bridge.v1"

unfoldable pub read_non_empty_string : Record → String → ParseResult String
read_non_empty_string object name = elim (field object name) [
  | none ↦ refuse missing_field ("frame." ++ name ++ " is required")
  | some json_null ↦ refuse missing_field ("frame." ++ name ++ " is required")
  | some (json_string value) ↦
      if is_blank value
      then refuse invalid_field ("frame." ++ name ++ " must be a non-empty string")
      else ok value
  | some _ ↦ refuse invalid_field ("frame." ++ name ++ " must be a string")
]

unfoldable pub read_non_negative_integer : Record → String → ParseResult ℕ
read_non_negative_integer object name = elim (field object name) [
  | none ↦ refuse missing_field ("frame." ++ name ++ " is required")
  | some json_null ↦ refuse missing_field ("frame." ++ name ++ " is required")
  | some (json_number (natural n)) ↦ ok n
  | some _ ↦ refuse invalid_field ("frame." ++ name ++ " must be a non-negative integer")
]

unfoldable pub read_hello_frame : Record → ParseResult ServerBridgeInboundFrame
read_hello_frame object = do
  mod_id ← read_non_empty_string object "mod_id"
  mod_version ← read_non_empty_string object "mod_version"
  connected_at ← read_non_empty_string object "connected_at"
  instance_id ← read_non_empty_string object "instance_id"
  ok (hello_frame mod_id mod_version connected_at instance_id)

unfoldable pub read_heartbeat_frame : Record → ParseResult ServerBridgeInboundFrame
read_heartbeat_frame object = do
  instance_id ← read_non_empty_string object "instance_id"
  sequence ← read_non_negative_integer object "sequence"
  timestamp ← read_non_empty_string object "timestamp"
  state ← read_non_empty_string object "state"
  ok (heartbeat_frame instance_id sequence timestamp state)

unfoldable pub read_player_message_frame : Record → ParseResult ServerBridgeInboundFrame
read_player_message_frame object = do
  instance_id ← read_non_empty_string object "instance_id"
  message_id ← read_non_empty_string object "message_id"
  player_uuid ← read_non_empty_string object "player_uuid"
  player_name ← read_non_empty_string object "player_name"
  content ← read_non_empty_string object "content"
  timestamp ← read_non_empty_string object "timestamp"
  ok (player_message_frame instance_id message_id player_uuid player_name content timestamp)

-- `isInboundFrameType`, with the type that the text names.
unfoldable pub inbound_frame_type : String → Option ServerBridgeInboundFrameType
inbound_frame_type value =
    if value == "hello"
    then some hello
    else if value == "heartbeat"
    then some heartbeat
    else if value == "player_message"
    then some player_message
    else none

unfoldable pub read_frame :
    ServerBridgeInboundFrameType → Record → ParseResult ServerBridgeInboundFrame
read_frame hello object = read_hello_frame object
read_frame heartbeat object = read_heartbeat_frame object
read_frame player_message object = read_player_message_frame object

-- The test of `record.protocol_version`.
unfoldable pub check_version : Option JsonValue → ParseResult (Unit {0})
check_version (some (json_string (String.◌∷◌ c s))) =
    if String.◌∷◌ c s == server_bridge_protocol_version
    then ok tt
    else refuse protocol_version_mismatch (
        "frame.protocol_version \""
        ++ String.◌∷◌ c s
        ++ "\" does not match \""
        ++ server_bridge_protocol_version
        ++ "\"")
check_version other = refuse missing_field "frame.protocol_version must be a non-empty string"

-- The tests of `record.type`.
unfoldable pub check_type : Option JsonValue → ParseResult ServerBridgeInboundFrameType
check_type (some (json_string (String.◌∷◌ c s))) = elim (inbound_frame_type (String.◌∷◌ c s)) [
  | some t ↦ ok t
  | none ↦ refuse unknown_type ("frame.type \"" ++ String.◌∷◌ c s ++ "\" is not supported")
]
check_type other = refuse missing_type "frame.type must be a non-empty string"

-- `parseServerBridgeInboundFrame` of a text for which `JSON.parse` gave `parsed`, or threw.
unfoldable pub parse_server_bridge_inbound_frame :
    Option Json → ParseResult ServerBridgeInboundFrame
parse_server_bridge_inbound_frame none = refuse invalid_json "frame is not valid JSON"
parse_server_bridge_inbound_frame (some other_root) =
    refuse invalid_json "frame must be a JSON object"
parse_server_bridge_inbound_frame (some (object_root object)) = do
  type ← check_type (field object "type")
  _ ← check_version (field object "protocol_version")
  read_frame type object

pub record ServerBridgeErrorFrame : Type 0 where
  pub code : ServerBridgeErrorCode
  pub message : String
  pub timestamp : String

pub record ServerBridgeAckFrame : Type 0 where
  pub ack_type : ServerBridgeInboundFrameType
  pub timestamp : String

-- `buildEnvelopePayload`.
unfoldable pub build_envelope_payload : ServerBridgeInboundFrame → Record
build_envelope_payload (hello_frame mod_id mod_version connected_at instance_id) =
    ("protocol_version", json_string server_bridge_protocol_version)
    ∷ ("mod_id", json_string mod_id)
    ∷ ("mod_version", json_string mod_version)
    ∷ ("connected_at", json_string connected_at)
    ∷ ("instance_id", json_string instance_id)
    ∷ []
build_envelope_payload (heartbeat_frame instance_id sequence timestamp state) =
    ("protocol_version", json_string server_bridge_protocol_version)
    ∷ ("instance_id", json_string instance_id)
    ∷ ("sequence", json_number (natural sequence))
    ∷ ("timestamp", json_string timestamp)
    ∷ ("state", json_string state)
    ∷ []
build_envelope_payload
      (player_message_frame instance_id message_id player_uuid player_name content timestamp) =
    ("protocol_version", json_string server_bridge_protocol_version)
    ∷ ("instance_id", json_string instance_id)
    ∷ ("message_id", json_string message_id)
    ∷ ("player_uuid", json_string player_uuid)
    ∷ ("player_name", json_string player_name)
    ∷ ("content", json_string content)
    ∷ ("timestamp", json_string timestamp)
    ∷ []
