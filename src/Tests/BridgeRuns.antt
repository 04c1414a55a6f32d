-- ===== src/Tests/BridgeRuns.antt =====
-- The server bridge of ts-core/src/interfaces/server-bridge on one short connection.
use Prim.Native.String.{String}
use text.Mathlib.Text.{◌==◌}
use mc_servant.Base.{
  ◌≡◌, ◌≢◌, ◌≤◌, ◌↔◌, refl, true, false, Option, none, some, List, [], ◌∷◌, All, length,
  if◌then◌else◌,
}
use mc_servant.Base.Maps.{has}
use mc_servant.Base.Text.{is_blank, trim, strip_prefix}
use mc_servant.Base.Text as Text
use mc_servant.Interfaces.ServerBridge.Json.{
  Json, object_root, json_string, json_number, natural, Record, field, Within,
}
use mc_servant.Interfaces.ServerBridge.Envelope as Envelope
use mc_servant.Interfaces.ServerBridge.Protocol as Protocol
use mc_servant.Interfaces.ServerBridge.Protocol.{
  ServerBridgeInboundFrame, hello_frame, heartbeat_frame, player_message_frame, frame_type,
  type_text, ok, refused, missing_field, parse_server_bridge_inbound_frame, build_envelope_payload,
}
use mc_servant.Interfaces.ServerBridge.Protocol.Accepts.{
  WellFormed, parse_server_bridge_inbound_frame-accepts, parse_server_bridge_inbound_frame-written,
}
use mc_servant.Interfaces.ServerBridge.Connection as Connection
use mc_servant.Interfaces.ServerBridge.Connection.{
  check_authorization, redact_raw, validate_frame, message_id_dedup_window_size,
}
use mc_servant.Interfaces.ServerBridge.Connection.Authorization.{check_authorization-admits}
use mc_servant.Interfaces.ServerBridge.Connection.Window.{recent}
use mc_servant.Interfaces.ServerBridge.Route as Route
use mc_servant.Interfaces.ServerBridge.Route.{
  Event, message, heartbeat_timeout, socket_closed, ServerBridgeWsRouteOptions, connect, run, step,
}
use mc_servant.Interfaces.ServerBridge.Route.Sessions.{reported, message_ids, Opened, Named}
use mc_servant.Interfaces.ServerBridge.Route.Histories.{run-Opened, validate_frame-recent}
use mc_servant.Interfaces.ServerBridge.Route.Timer.{run-no_timeout}

abbrev greeting : ServerBridgeInboundFrame
greeting = hello_frame "mc-servant" "1.0.0" "t0" "server-1"

abbrev chat : ServerBridgeInboundFrame
chat = player_message_frame "server-1" "m-1" "u-1" "Steve" "dig" "t1"

abbrev written : ServerBridgeInboundFrame → Record
unfolding build_envelope_payload
written f = ("type", json_string (type_text (frame_type f))) ∷ build_envelope_payload f

-- `JSON.parse`, for the two texts of the tests.
abbrev parse_json : String → Option Json
parse_json raw =
    if raw == "greeting"
    then some (object_root (written greeting))
    else if raw == "chat"
    then some (object_root (written chat))
    else none

abbrev options : ServerBridgeWsRouteOptions
options = record { access_token = "s3cret"; bot_id = "bot-1"; heartbeat_timeout_ms = 90000 }

abbrev events : List Event
events = message "greeting" "t1" "e1" ∷ message "chat" "t2" "e2" ∷ message "chat" "t3" "e3" ∷ []

-- The second copy of the message is not reported.
events-reported :
    reported (run parse_json options (connect parse_json options "t0" "e0") events).effects
    ≡ greeting ∷ chat ∷ []
unfolding run step connect Route.handle Route.handle_message Route.handle_parsed Route.handle_frame
    Route.report_frame Route.refuse_frame Route.emit_lifecycle
    Envelope.create_server_bridge_envelope_from_frame Envelope.create_server_bridge_event_envelope
    Connection.validate_frame Connection.accept_frame Connection.remember_message_id
    Connection.forget_oldest Connection.reset_heartbeat_timeout Text.is_blank has
    parse_server_bridge_inbound_frame Protocol.check_type Protocol.inbound_frame_type
    Protocol.check_version Protocol.read_frame Protocol.read_hello_frame
    Protocol.read_player_message_frame Protocol.read_non_empty_string build_envelope_payload field
events-reported = refl

-- A missing field is named.
no_state :
    parse_server_bridge_inbound_frame (
      some (
        object_root (
          ("type", json_string "heartbeat")
          ∷ ("protocol_version", json_string "server-bridge.v1")
          ∷ ("instance_id", json_string "server-1")
          ∷ ("sequence", json_number (natural 3))
          ∷ ("timestamp", json_string "t1")
          ∷ [])))
    ≡ refused (record { code = missing_field; message = "frame.state is required" })
unfolding parse_server_bridge_inbound_frame Protocol.check_type Protocol.inbound_frame_type
    Protocol.check_version Protocol.read_frame Protocol.read_heartbeat_frame
    Protocol.read_non_empty_string Protocol.read_non_negative_integer Text.is_blank field
no_state = refl

redacted : redact_raw "a s3cret and s3cret" "s3cret" ≡ "a [redacted] and [redacted]"
unfolding redact_raw Connection.redact_from strip_prefix
redacted = refl

chat-WellFormed : WellFormed chat
unfolding is_blank
chat-WellFormed = (refl, (refl, (refl, (refl, (refl, (refl, tt))))))

named : All Named events
unfolding is_blank
named = ((refl, refl), ((refl, refl), ((refl, refl), tt)))

bot_named : is_blank "bot-1" ≡ false
unfolding is_blank
bot_named = refl

parse_server_bridge_inbound_frame-accepts_example :
    (parse_server_bridge_inbound_frame (some (object_root (written chat))) ≡ ok chat) ↔ (
      (field (written chat) "type" ≡ some (json_string "player_message"))
      × Within (build_envelope_payload chat) (written chat)
      × WellFormed chat)
parse_server_bridge_inbound_frame-accepts_example =
    parse_server_bridge_inbound_frame-accepts (written chat) chat

parse_server_bridge_inbound_frame-written_example :
    parse_server_bridge_inbound_frame
      (some (object_root (("type", json_string "player_message") ∷ build_envelope_payload chat)))
    ≡ ok chat
parse_server_bridge_inbound_frame-written_example =
    parse_server_bridge_inbound_frame-written chat chat-WellFormed

check_authorization-admits_example :
    (check_authorization none "s3cret" ≢ none)
    × ((check_authorization (some "Bearer  s3cret") "s3cret" ≡ none) ↔ (
        (◌≢◌ {A = String} "s3cret" "")
        × ((rest : String) × (strip_prefix "Bearer " "Bearer  s3cret" ≡ some rest)
            × (trim rest ≡ "s3cret"))))
    × (check_authorization (some "Bearer  s3cret") "s3cret" ≡ none → trim "s3cret" ≡ "s3cret")
check_authorization-admits_example = check_authorization-admits "Bearer  s3cret" "s3cret"

run-Opened_example :
    let c = run parse_json options (connect parse_json options "t0" "e0") events in
    Opened c.state.handshaken (reported c.effects)
run-Opened_example = run-Opened parse_json options "t0" "e0" events bot_named named

validate_frame-recent_example :
    let c = run parse_json options (connect parse_json options "t0" "e0") events in
    ((validate_frame c.state chat ≡ none) ↔ (
      (c.state.handshaken ≡ true)
      × (has "m-1" (recent (message_ids (reported c.effects))) ≡ false)))
    × (length c.state.seen_message_id_order ≤ message_id_dedup_window_size)
validate_frame-recent_example =
    validate_frame-recent parse_json options "t0" "e0" events "server-1" "m-1" "u-1" "Steve" "dig"
      "t1" bot_named named

run-no_timeout_example :
    let c =
      run parse_json options
        (connect parse_json options "t0" "e0")
        (message "greeting" "t1" "e1" ∷ []) in
    let d =
      run parse_json options c
        (socket_closed 1000 "bye" "t2" "e2" ∷ message "chat" "t3" "e3" ∷ []) in
    step parse_json options d (heartbeat_timeout "t4" "e4") ≡ d
run-no_timeout_example =
    run-no_timeout parse_json options
      (run parse_json options (connect parse_json options "t0" "e0")
        (message "greeting" "t1" "e1" ∷ []))
      1000 "bye" "t2" "e2" (message "chat" "t3" "e3" ∷ []) "t4" "e4"
