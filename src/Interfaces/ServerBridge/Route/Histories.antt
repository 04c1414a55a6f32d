-- ===== src/Interfaces/ServerBridge/Route/Histories.antt =====
-- Every history of a connection of ts-core/src/interfaces/server-bridge/route.ts.
use Prim.Native.String.{String}
use mc_servant.Base.Text.{is_blank}
use mc_servant.Base.Maps.{has}
use mc_servant.Base.{
  ◌≤◌, ◌≡◌, ◌↔◌, refl, sym, ap, subst, ◌∙◌, true, false, Option, none, some, List, [], ◌∷◌, ◌++◌,
  All, arith, length, length-drop, ◌-◌,
}
use mc_servant.Interfaces.ServerBridge.Json.{Json}
use mc_servant.Interfaces.ServerBridge.Envelope.{
  create_server_bridge_event_envelope, create_server_bridge_envelope_from_frame,
}
use mc_servant.Interfaces.ServerBridge.Protocol.{
  ServerBridgeInboundFrame, hello_frame, heartbeat_frame, player_message_frame,
  ServerBridgeFrameParseFailure, ParseResult, ok, refused, parse_server_bridge_inbound_frame,
}
use mc_servant.Interfaces.ServerBridge.Connection.{
  ConnectionState, message_id_dedup_window_size, reset_heartbeat_timeout, validate_frame, close,
}
use mc_servant.Interfaces.ServerBridge.Connection.Window.{recent}
use mc_servant.Interfaces.ServerBridge.Route.{
  Event, message, heartbeat_timeout, socket_closed, on_event_failed, ServerBridgeWsRouteOptions,
  Connection, connect, emit_lifecycle, refuse_frame, report_frame, handle_message, handle_frame,
  handle_parsed, handle_timeout, handle_close, handle, step, run,
}
use mc_servant.Interfaces.ServerBridge.Route.Sessions.{
  reported, message_ids, reported-append, Opened, Named, Session, silent-Session,
  accept_frame-Session,
}

module _ (parse_json : String → Option Json) (options : ServerBridgeWsRouteOptions) where
  report_frame-reported :
      (now event_id : String) (f : ServerBridgeInboundFrame)
      → is_blank options.bot_id ≡ false
      → is_blank now ≡ false
      → is_blank event_id ≡ false
      → reported (report_frame parse_json options now event_id f) ≡ f ∷ []
  unfolding report_frame create_server_bridge_envelope_from_frame
      create_server_bridge_event_envelope is_blank
  report_frame-reported now event_id (hello_frame a b c d) hb hn he = ground arith
  report_frame-reported now event_id (heartbeat_frame a n b c) hb hn he = ground arith
  report_frame-reported now event_id (player_message_frame a b c d e g) hb hn he = ground arith

  handle_frame-Session :
      (fs : List ServerBridgeInboundFrame) (s : ConnectionState) (raw now event_id : String)
      (f : ServerBridgeInboundFrame) (o : Option ServerBridgeFrameParseFailure)
      → is_blank options.bot_id ≡ false
      → is_blank now ≡ false
      → is_blank event_id ≡ false
      → Session fs s
      → validate_frame s f ≡ o
      → let (t, es) = handle_frame parse_json options s raw now event_id f o in
        Session (fs ++ reported es) t
  unfolding handle_frame refuse_frame
  handle_frame-Session fs s raw now event_id f none b hn he i v =
      rw (report_frame-reported now event_id f b hn he) (accept_frame-Session fs f s i v)
  handle_frame-Session fs s raw now event_id f (some failure) b hn he i v =
      silent-Session fs s (handle_frame parse_json options s raw now event_id f (some failure)) i
        refl refl refl refl

  handle_parsed-Session :
      (fs : List ServerBridgeInboundFrame) (s : ConnectionState) (raw now event_id : String)
      (r : ParseResult ServerBridgeInboundFrame)
      → is_blank options.bot_id ≡ false
      → is_blank now ≡ false
      → is_blank event_id ≡ false
      → Session fs s
      → let (t, es) = handle_parsed parse_json options s raw now event_id r in
        Session (fs ++ reported es) t
  unfolding handle_parsed refuse_frame
  handle_parsed-Session fs s raw now event_id (ok f) b hn he i =
      handle_frame-Session fs s raw now event_id f (validate_frame s f) b hn he i refl
  handle_parsed-Session fs s raw now event_id (refused failure) b hn he i =
      silent-Session fs s (handle_parsed parse_json options s raw now event_id (refused failure)) i
        (ground arith) refl refl refl

  -- What a listener reports is added to the session.
  pub handle-Session :
      (fs : List ServerBridgeInboundFrame) (s : ConnectionState) (e : Event)
      → is_blank options.bot_id ≡ false
      → Named e
      → Session fs s
      → let (t, es) = handle parse_json options s e in Session (fs ++ reported es) t
  unfolding handle handle_message handle_timeout handle_close close emit_lifecycle
  handle-Session fs s (message raw now event_id) b (hn, he) i =
      handle_parsed-Session fs s raw now event_id
        (parse_server_bridge_inbound_frame (parse_json raw)) b hn he i
  handle-Session fs s (heartbeat_timeout now event_id) b n i =
      silent-Session fs s (handle_timeout parse_json options s now event_id) i (ground arith)
        (ground arith) (ground arith) (ground arith)
  handle-Session fs s (socket_closed code reason now event_id) b n i =
      silent-Session fs s (handle_close parse_json options s code reason now event_id) i
        (ground arith) refl refl refl
  handle-Session fs s (on_event_failed cause) b n i =
      silent-Session fs s (handle parse_json options s (on_event_failed cause)) i refl refl refl
        refl

  run-Session :
      (c : Connection) (es : List Event)
      → is_blank options.bot_id ≡ false
      → All Named es
      → Session (reported c.effects) c.state
      → let c' = run parse_json options c es in Session (reported c'.effects) c'.state
  unfolding run step
  run-Session c [] b n i = i
  run-Session c (e ∷ es) b n i = run-Session (step parse_json options c e) es b n.1 (
      subst
        (λ (fs : List ServerBridgeInboundFrame). Session fs (handle parse_json options c.state e).0)
        (sym (reported-append c.effects (handle parse_json options c.state e).1))
        (handle-Session (reported c.effects) c.state e b n.0 i))

  connect-Session :
      (now event_id : String)
      → let c = connect parse_json options now event_id in Session (reported c.effects) c.state
  unfolding connect emit_lifecycle reset_heartbeat_timeout has
  connect-Session now event_id =
      let c = connect parse_json options now event_id in
      let quiet : reported c.effects ≡ [] = ground arith in
      subst (λ (fs : List ServerBridgeInboundFrame). Session fs c.state) (sym quiet)
        (record {
          remembers = record { queued = refl; distinct = tt; same = λ x. refl };
          opened = refl;
        })

  history-Session :
      (now event_id : String) (es : List Event)
      → is_blank options.bot_id ≡ false
      → All Named es
      → let c = run parse_json options (connect parse_json options now event_id) es in
        Session (reported c.effects) c.state
  history-Session now event_id es b n =
      run-Session (connect parse_json options now event_id) es b n (connect-Session now event_id)

  -- For a bot id, times and event ids that are not blank: in every history of a connection the
  -- frames given to `onEvent` are none before the handshake, and after it one hello, the first of
  -- them, followed by frames that are no hello.
  pub run-Opened :
      (now event_id : String) (es : List Event)
      → is_blank options.bot_id ≡ false
      → All Named es
      → let c = run parse_json options (connect parse_json options now event_id) es in
        Opened c.state.handshaken (reported c.effects)
  run-Opened now event_id es b n = (history-Session now event_id es b n).opened

  -- For a bot id, times and event ids that are not blank: a player message is valid exactly after the
  -- handshake and if its id is not among the last 1024 ids of player messages given to `onEvent`; and
  -- the queue of ids never holds more than 1024.
  pub validate_frame-recent :
      (now event_id : String) (es : List Event)
      (instance_id id player_uuid player_name content timestamp : String)
      → is_blank options.bot_id ≡ false
      → All Named es
      → let c = run parse_json options (connect parse_json options now event_id) es in
        ((validate_frame c.state
              (player_message_frame instance_id id player_uuid player_name content timestamp)
            ≡ none)
          ↔ ((c.state.handshaken ≡ true)
              × (has id (recent (message_ids (reported c.effects))) ≡ false)))
        × (length c.state.seen_message_id_order ≤ message_id_dedup_window_size)
  unfolding validate_frame
  validate_frame-recent now event_id es instance_id id player_uuid player_name content timestamp b
        n =
      let c = run parse_json options (connect parse_json options now event_id) es in
      let r = (history-Session now event_id es b n).remembers in
      let ids = message_ids (reported c.effects) in
      let same : has id c.state.seen_message_ids ≡ has id (recent ids) =
        r.same id ∙ ap (has id) r.queued in
      let size = ap length r.queued ∙ length-drop (length ids - message_id_dedup_window_size) ids in
      (ground (arith, same), omega (arith, size))
