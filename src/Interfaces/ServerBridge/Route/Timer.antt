-- ===== src/Interfaces/ServerBridge/Route/Timer.antt =====
-- The heartbeat timer of ts-core/src/interfaces/server-bridge/route.ts.
use Prim.Native.String.{String}
use mathlib.Core.List.{append-nil}
use mc_servant.Base.{ℕ, ◌≡◌, refl, true, false, Option, none, some, List, [], ◌∷◌, arith}
use mc_servant.Interfaces.ServerBridge.Json.{Json}
use mc_servant.Interfaces.ServerBridge.Protocol.{
  ServerBridgeInboundFrame, hello_frame, heartbeat_frame, player_message_frame,
  ServerBridgeFrameParseFailure, ParseResult, ok, refused, parse_server_bridge_inbound_frame,
}
use mc_servant.Interfaces.ServerBridge.Connection.{
  ConnectionState, reset_heartbeat_timeout, validate_frame, accept_frame, close,
}
use mc_servant.Interfaces.ServerBridge.Route.{
  Event, message, heartbeat_timeout, socket_closed, on_event_failed, ServerBridgeWsRouteOptions,
  Connection, handle_frame, handle_parsed, handle_message, handle_timeout, handle_close, handle,
  step, run,
}

-- Once closed, a connection stays closed and its timer stays off.
abbrev pub Ended : ConnectionState → Type 0
Ended s = (s.closed ≡ true) × (s.heartbeat_timer ≡ false)

accept_frame-Ended :
    (s : ConnectionState) (f : ServerBridgeInboundFrame) → Ended s → Ended (accept_frame s f)
unfolding accept_frame reset_heartbeat_timeout
accept_frame-Ended s (hello_frame a b c d) e = e
accept_frame-Ended s (heartbeat_frame a n b c) e = ground arith
accept_frame-Ended s (player_message_frame a b c d f g) e = e

module _ (parse_json : String → Option Json) (options : ServerBridgeWsRouteOptions) where
  handle_frame-Ended :
      (s : ConnectionState) (raw now event_id : String) (f : ServerBridgeInboundFrame)
      (o : Option ServerBridgeFrameParseFailure)
      → Ended s
      → Ended (handle_frame parse_json options s raw now event_id f o).0
  unfolding handle_frame
  handle_frame-Ended s raw now event_id f none e = accept_frame-Ended s f e
  handle_frame-Ended s raw now event_id f (some failure) e = e

  handle_parsed-Ended :
      (s : ConnectionState) (raw now event_id : String) (r : ParseResult ServerBridgeInboundFrame)
      → Ended s
      → Ended (handle_parsed parse_json options s raw now event_id r).0
  unfolding handle_parsed
  handle_parsed-Ended s raw now event_id (ok f) e =
      handle_frame-Ended s raw now event_id f (validate_frame s f) e
  handle_parsed-Ended s raw now event_id (refused failure) e = e

  close-Ended :
      (c : Connection) (code : ℕ) (reason now event_id : String)
      → Ended (step parse_json options c (socket_closed code reason now event_id)).state
  unfolding step handle handle_close close
  close-Ended c code reason now event_id = (refl, refl)

  handle-Ended :
      (s : ConnectionState) (e : Event) → Ended s → Ended (handle parse_json options s e).0
  unfolding handle handle_message handle_timeout handle_close close
  handle-Ended s (message raw now event_id) h =
      handle_parsed-Ended s raw now event_id (parse_server_bridge_inbound_frame (parse_json raw)) h
  handle-Ended s (heartbeat_timeout now event_id) h = ground arith
  handle-Ended s (socket_closed code reason now event_id) h = (refl, refl)
  handle-Ended s (on_event_failed cause) h = h

  run-Ended :
      (c : Connection) (es : List Event) → Ended c.state → Ended (run parse_json options c es).state
  unfolding run step
  run-Ended c [] h = h
  run-Ended c (e ∷ es) h = run-Ended (step parse_json options c e) es (handle-Ended c.state e h)

  off-step :
      (c : Connection) (now event_id : String)
      → c.state.heartbeat_timer ≡ false
      → step parse_json options c (heartbeat_timeout now event_id) ≡ c
  unfolding step handle handle_timeout
  off-step c now event_id h =
      let quiet : handle_timeout parse_json options c.state now event_id ≡ (c.state, []) =
        ground arith in
      cc (append-nil c.effects)

  -- After the socket of a connection has closed, whatever else happens to the connection, the
  -- heartbeat timer reports no timeout and closes nothing.
  pub run-no_timeout :
      (c : Connection) (code : ℕ) (reason now event_id : String) (es : List Event)
      (later later_id : String)
      → let d = run parse_json options c (socket_closed code reason now event_id ∷ es) in
        step parse_json options d (heartbeat_timeout later later_id) ≡ d
  unfolding run
  run-no_timeout c code reason now event_id es later later_id =
      let closed = step parse_json options c (socket_closed code reason now event_id) in
      off-step (run parse_json options closed es) later later_id
        (run-Ended closed es (close-Ended c code reason now event_id)).1
