-- ===== src/Interfaces/ServerBridge/Protocol/Accepts.antt =====
-- Which objects the parser of ts-core/src/interfaces/server-bridge/protocol.ts takes for a frame.
use Prim.Native.String.{String}
use mc_servant.Base.Text.{is_blank}
use mc_servant.Base.{◌≡◌, refl, ◌↔◌, inl, inr, false, some, List, [], ◌∷◌, All, arith}
use mc_servant.Interfaces.ServerBridge.Json.{json_string, Record, object_root, field, Within}
use mc_servant.Interfaces.ServerBridge.Protocol.{
  ServerBridgeInboundFrame, hello_frame, heartbeat_frame, player_message_frame, frame_type,
  type_text, ServerBridgeInboundFrameType, hello, heartbeat, player_message, ok,
  server_bridge_protocol_version, check_type, check_version, read_frame, read_hello_frame,
  read_heartbeat_frame, read_player_message_frame, parse_server_bridge_inbound_frame,
  build_envelope_payload,
}
use mc_servant.Interfaces.ServerBridge.Protocol.Reads.{
  read_non_empty_string-ok, read_non_negative_integer-ok, check_type-ok, check_version-ok,
  ParseResult-cases, string-cases, integer-cases,
}

-- The texts that a frame carries.
abbrev pub texts : ServerBridgeInboundFrame → List String
texts (hello_frame mod_id mod_version connected_at instance_id) =
    mod_id ∷ mod_version ∷ connected_at ∷ instance_id ∷ []
texts (heartbeat_frame instance_id sequence timestamp state) = instance_id ∷ timestamp ∷ state ∷ []
texts (player_message_frame instance_id message_id player_uuid player_name content timestamp) =
    instance_id ∷ message_id ∷ player_uuid ∷ player_name ∷ content ∷ timestamp ∷ []

abbrev pub WellFormed : ServerBridgeInboundFrame → Type 0
WellFormed frame = All (λ (t : String). is_blank t ≡ false) (texts frame)

-- `protocol_version` is the first property of every payload.
read_frame-Within :
    (object : Record) (t : ServerBridgeInboundFrameType) (f : ServerBridgeInboundFrame)
    → field object "protocol_version" ≡ some (json_string server_bridge_protocol_version)
    → read_frame t object ≡ ok f
    → (t ≡ frame_type f) × Within (build_envelope_payload f) object × WellFormed f
unfolding read_frame read_hello_frame read_heartbeat_frame read_player_message_frame
    build_envelope_payload
read_frame-Within object hello f v h = ground (
  arith,
  string-cases object "mod_id",
  string-cases object "mod_version",
  string-cases object "connected_at",
  string-cases object "instance_id",
)
read_frame-Within object heartbeat f v h = ground (
  arith,
  string-cases object "instance_id",
  integer-cases object "sequence",
  string-cases object "timestamp",
  string-cases object "state",
)
read_frame-Within object player_message f v h = ground (
  arith,
  string-cases object "instance_id",
  string-cases object "message_id",
  string-cases object "player_uuid",
  string-cases object "player_name",
  string-cases object "content",
  string-cases object "timestamp",
)

read_frame-ok :
    (object : Record) (f : ServerBridgeInboundFrame)
    → Within (build_envelope_payload f) object
    → WellFormed f
    → read_frame (frame_type f) object ≡ ok f
unfolding read_frame read_hello_frame read_heartbeat_frame read_player_message_frame
    build_envelope_payload
read_frame-ok object (hello_frame a b c d) w h = ground (
  arith,
  read_non_empty_string-ok object "mod_id" a,
  read_non_empty_string-ok object "mod_version" b,
  read_non_empty_string-ok object "connected_at" c,
  read_non_empty_string-ok object "instance_id" d,
)
read_frame-ok object (heartbeat_frame a n b c) w h = ground (
  arith,
  read_non_empty_string-ok object "instance_id" a,
  read_non_negative_integer-ok object "sequence" n,
  read_non_empty_string-ok object "timestamp" b,
  read_non_empty_string-ok object "state" c,
)
read_frame-ok object (player_message_frame a b c d e g) w h = ground (
  arith,
  read_non_empty_string-ok object "instance_id" a,
  read_non_empty_string-ok object "message_id" b,
  read_non_empty_string-ok object "player_uuid" c,
  read_non_empty_string-ok object "player_name" d,
  read_non_empty_string-ok object "content" e,
  read_non_empty_string-ok object "timestamp" g,
)

payload-version :
    (object : Record) (f : ServerBridgeInboundFrame)
    → Within (build_envelope_payload f) object
    → field object "protocol_version" ≡ some (json_string server_bridge_protocol_version)
unfolding build_envelope_payload
payload-version object (hello_frame a b c d) w = w.0
payload-version object (heartbeat_frame a n b c) w = w.0
payload-version object (player_message_frame a b c d e g) w = w.0

-- The parser takes an object for a frame exactly when the object's `type` names the frame's type,
-- every property of the frame's payload (the protocol version first) stands in the object with the
-- same value, and no text of the frame is blank. Other properties of the object do not matter.
pub parse_server_bridge_inbound_frame-accepts :
    (object : Record) (f : ServerBridgeInboundFrame)
    → (parse_server_bridge_inbound_frame (some (object_root object)) ≡ ok f) ↔ (
        (field object "type" ≡ some (json_string (type_text (frame_type f))))
        × Within (build_envelope_payload f) object
        × WellFormed f)
unfolding parse_server_bridge_inbound_frame
parse_server_bridge_inbound_frame-accepts object f = (
  λ h. elim (ParseResult-cases (check_type (field object "type"))) [
    | inl (t, ht) ↦ elim (ParseResult-cases (check_version (field object "protocol_version"))) [
      | inl (u, hv) ↦
          let v = (check_version-ok (field object "protocol_version")).0 hv in
          ground (arith, read_frame-Within object t f v, check_type-ok (field object "type") t)
      | inr (e, he) ↦ cc
    ]
    | inr (e, he) ↦ cc
  ],
  λ (t, w, h).
      let ht = (check_type-ok (field object "type") (frame_type f)).1 t in
      let hv =
        (check_version-ok (field object "protocol_version")).1 (payload-version object f w) in
      cc (ht, hv, read_frame-ok object f w h),
)

abbrev written : ServerBridgeInboundFrame → Record
written f = ("type", json_string (type_text (frame_type f))) ∷ build_envelope_payload f

written-Within : (f : ServerBridgeInboundFrame) → Within (build_envelope_payload f) (written f)
unfolding build_envelope_payload field
written-Within (hello_frame a b c d) = (refl, (refl, (refl, (refl, (refl, tt)))))
written-Within (heartbeat_frame a n b c) = (refl, (refl, (refl, (refl, (refl, tt)))))
written-Within (player_message_frame a b c d e g) =
    (refl, (refl, (refl, (refl, (refl, (refl, (refl, tt)))))))

written-type :
    (f : ServerBridgeInboundFrame)
    → field (written f) "type" ≡ some (json_string (type_text (frame_type f)))
unfolding field
written-type f = refl

-- A frame without blank texts, written as an object of its type and its payload, is parsed to
-- itself.
pub parse_server_bridge_inbound_frame-written :
    (f : ServerBridgeInboundFrame)
    → WellFormed f
    → parse_server_bridge_inbound_frame (
        some (
          object_root
            (("type", json_string (type_text (frame_type f))) ∷ build_envelope_payload f)))
      ≡ ok f
parse_server_bridge_inbound_frame-written f h =
    (parse_server_bridge_inbound_frame-accepts (written f) f).1
      (written-type f, written-Within f, h)
