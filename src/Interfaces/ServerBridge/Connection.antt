-- ===== src/Interfaces/ServerBridge/Connection.antt =====
-- ts-core/src/interfaces/server-bridge/route.ts: who may connect, and what a connection does with the
-- messages of the mod, its heartbeat timer and its end.
pub mod Authorization
pub mod Window
use Prim.Native.Char.{code}
use Prim.Native.String.{String, ◌++◌, count}
use text.Mathlib.Text.{◌==◌}
use mc_servant.Base.Text.{strip_prefix, trim}
use mc_servant.Base.{
  ℕ, zero, suc, ◌-◌, Bool, true, false, not, ◌&&◌, Option, none, some, List, [], ◌∷◌, length, leb,
  ltb, if◌then◌else◌,
}
use mc_servant.Base.{◌++◌ as ◌⧺◌}
use mc_servant.Base.Maps.{has, without}
use mc_servant.Interfaces.ServerBridge.Json.{Json, json_string, json_number, natural, Record}
use mc_servant.Interfaces.ServerBridge.Envelope.{
  ServerBridgeEventEnvelope, create_server_bridge_event_envelope,
  create_server_bridge_envelope_from_frame,
}
use mc_servant.Interfaces.ServerBridge.Protocol.{
  ServerBridgeErrorCode, protocol_version_mismatch, invalid_field, handshake_required,
  duplicate_hello, duplicate_message_id, ServerBridgeInboundFrame, hello_frame, heartbeat_frame,
  player_message_frame, frame_type, ServerBridgeFrameParseFailure, ok, refused,
  parse_server_bridge_inbound_frame, ServerBridgeErrorFrame, ServerBridgeAckFrame,
}

-- The end of `checkAuthorization`, with what follows "Bearer " in the header, if that begins it.
unfoldable pub check_bearer : Option String → String → Option String
check_bearer none token = some "Authorization header must start with 'Bearer '"
check_bearer (some rest) token =
    if trim rest == ""
    then some "Authorization Bearer token is empty"
    else if trim rest == token
    then none
    else some "Authorization Bearer token does not match"

-- `checkAuthorization`: the message of the failure.
unfoldable pub check_authorization : Option String → String → Option String
check_authorization header String.[] = some "server-bridge access token is not configured"
check_authorization none (String.◌∷◌ c t) = some "Authorization header is required"
check_authorization (some String.[]) (String.◌∷◌ c t) = some "Authorization header is required"
check_authorization (some (String.◌∷◌ h header)) (String.◌∷◌ c t) =
    check_bearer (strip_prefix "Bearer " (String.◌∷◌ h header)) (String.◌∷◌ c t)

-- `raw.split(token).join("[redacted]")` from a place on; `skip` characters belong to a token that
-- was met.
unfoldable pub redact_from : (token : String) → (skip : ℕ) → String → String
redact_from token skip String.[] = String.[]
redact_from token (suc skip) (String.◌∷◌ c s) = redact_from token skip s
redact_from token zero (String.◌∷◌ c s) = elim (strip_prefix token (String.◌∷◌ c s)) [
  | none ↦ String.◌∷◌ c (redact_from token zero s)
  | some rest ↦ "[redacted]" ++ redact_from token (count token - 1) s
]

unfoldable pub redact_raw : (raw token : String) → String
redact_raw raw String.[] = raw
redact_raw raw (String.◌∷◌ c t) = redact_from (String.◌∷◌ c t) 0 raw

abbrev pub message_id_dedup_window_size : ℕ
message_id_dedup_window_size = 1024

-- The variables of `createConnectionState`; of the timer, whether it is set and has not fired. A
-- `Set` is the list of its elements.
pub record ConnectionState : Type 0 where
  pub handshaken : Bool
  pub closed : Bool
  pub heartbeat_timer : Bool
  pub seen_message_ids : List String
  pub seen_message_id_order : List String

-- `resetHeartbeatTimeout`.
unfoldable pub reset_heartbeat_timeout : ConnectionState → ConnectionState
reset_heartbeat_timeout c = if c.closed then c else record c { heartbeat_timer = true }

abbrev pub failure_of : ServerBridgeErrorCode → String → Option ServerBridgeFrameParseFailure
failure_of code message = some (record { code = code; message = message })

-- `validateFrame`.
unfoldable pub validate_frame :
    ConnectionState → ServerBridgeInboundFrame → Option ServerBridgeFrameParseFailure
validate_frame c (hello_frame mod_id mod_version connected_at instance_id) =
    if c.handshaken
    then failure_of duplicate_hello "server-bridge hello was already accepted"
    else none
validate_frame c (heartbeat_frame instance_id sequence timestamp state) =
    if c.handshaken
    then none
    else failure_of handshake_required "server-bridge hello must be accepted before this frame"
validate_frame c
      (player_message_frame instance_id message_id player_uuid player_name content timestamp) =
    if not c.handshaken
    then failure_of handshake_required "server-bridge hello must be accepted before this frame"
    else if has message_id c.seen_message_ids
    then failure_of duplicate_message_id
        "server-bridge player_message message_id was already accepted"
    else none

-- `rememberMessageId` after its two additions: the oldest id leaves a full window.
unfoldable pub forget_oldest : List String → List String → List String × List String
forget_oldest seen [] = (seen, [])
forget_oldest seen (oldest ∷ order) =
    if leb (length (oldest ∷ order)) message_id_dedup_window_size
    then (seen, oldest ∷ order)
    else (without oldest seen, order)

unfoldable pub remember_message_id : List String → List String → String → List String × List String
remember_message_id seen order id =
    forget_oldest (if has id seen then seen else seen ⧺ (id ∷ [])) (order ⧺ (id ∷ []))

-- `acceptFrame`.
unfoldable pub accept_frame : ConnectionState → ServerBridgeInboundFrame → ConnectionState
accept_frame c (hello_frame mod_id mod_version connected_at instance_id) = record c {
  handshaken = true;
}
accept_frame c (heartbeat_frame instance_id sequence timestamp state) = reset_heartbeat_timeout c
accept_frame c
      (player_message_frame instance_id message_id player_uuid player_name content timestamp) =
    let (seen, order) = remember_message_id c.seen_message_ids c.seen_message_id_order message_id in
    record c { seen_message_ids = seen; seen_message_id_order = order }

-- `close`.
unfoldable pub close : ConnectionState → ConnectionState
close c = record c { closed = true; heartbeat_timer = false }
