-- ===== src/Interfaces/ServerBridge/Route/Sessions.antt =====
-- What the mod's frames come to in a history of one connection of
-- ts-core/src/interfaces/server-bridge/route.ts.
use Prim.Native.String.{String}
use mathlib.Core.List.{append-nil}
use mc_servant.Base.Text.{is_blank}
use mc_servant.Base.Maps.{has}
use mc_servant.Base.{
  ◌≡◌, ◌≢◌, refl, sym, ap, subst, ◌∙◌, Bool, true, false, none, List, [], ◌∷◌, ◌++◌, All,
  All-append, arith,
}
use mc_servant.Interfaces.ServerBridge.Protocol.{
  hello, ServerBridgeInboundFrame, hello_frame, heartbeat_frame, player_message_frame, frame_type,
}
use mc_servant.Interfaces.ServerBridge.Connection.{
  ConnectionState, remember_message_id, reset_heartbeat_timeout, validate_frame, accept_frame,
}
use mc_servant.Interfaces.ServerBridge.Connection.Window.{Remembers, remember_message_id-Remembers}
use mc_servant.Interfaces.ServerBridge.Route.{
  Effect, send_ack, send_error, close_socket, on_event, on_lifecycle_event, on_parse_failure,
  on_close, thrown, Event, message,
}

-- The frames that were given to `onEvent`.
abbrev pub reported : List Effect → List ServerBridgeInboundFrame
reported [] = []
reported (on_event frame envelope now ∷ rest) = frame ∷ reported rest
reported (other ∷ rest) = reported rest

-- The message ids of the player messages.
abbrev pub message_ids : List ServerBridgeInboundFrame → List String
message_ids [] = []
message_ids (player_message_frame instance_id message_id player_uuid name content timestamp ∷ fs) =
    message_id ∷ message_ids fs
message_ids (other ∷ fs) = message_ids fs

pub reported-append : (xs ys : List Effect) → reported (xs ++ ys) ≡ reported xs ++ reported ys
reported-append [] ys = refl
reported-append (on_event frame envelope now ∷ xs) ys = ap (◌∷◌ frame) (reported-append xs ys)
reported-append (send_ack a ∷ xs) ys = reported-append xs ys
reported-append (send_error e ∷ xs) ys = reported-append xs ys
reported-append (close_socket c r ∷ xs) ys = reported-append xs ys
reported-append (on_lifecycle_event e n ∷ xs) ys = reported-append xs ys
reported-append (on_parse_failure r f ∷ xs) ys = reported-append xs ys
reported-append (on_close c r ∷ xs) ys = reported-append xs ys
reported-append (thrown ∷ xs) ys = reported-append xs ys

message_ids-append :
    (xs ys : List ServerBridgeInboundFrame)
    → message_ids (xs ++ ys) ≡ message_ids xs ++ message_ids ys
message_ids-append [] ys = refl
message_ids-append (hello_frame a b c d ∷ xs) ys = message_ids-append xs ys
message_ids-append (heartbeat_frame a n b c ∷ xs) ys = message_ids-append xs ys
message_ids-append (player_message_frame a id b c d e ∷ xs) ys =
    ap (◌∷◌ id) (message_ids-append xs ys)

-- Before the handshake nothing was reported; then a hello, and no other.
abbrev pub Opened : Bool → List ServerBridgeInboundFrame → Type 0
Opened false frames = frames ≡ []
Opened true [] = ⊥
Opened true (first ∷ rest) =
    (frame_type first ≡ hello) × All (λ (f : ServerBridgeInboundFrame). frame_type f ≢ hello) rest

-- A message comes with a time and an event id that are not blank.
abbrev pub Named : Event → Type 0
Named (message raw now event_id) = (is_blank now ≡ false) × (is_blank event_id ≡ false)
Named other = Unit

pub record Session (frames : List ServerBridgeInboundFrame) (s : ConnectionState) : Type 0 where
  pub remembers : Remembers (message_ids frames) s.seen_message_ids s.seen_message_id_order
  pub opened : Opened s.handshaken frames

first-Opened :
    (b : Bool) (fs : List ServerBridgeInboundFrame) (f : ServerBridgeInboundFrame)
    → Opened b fs
    → b ≡ false
    → frame_type f ≡ hello
    → Opened true (fs ++ f ∷ [])
first-Opened false [] f o h n = (n, tt)
first-Opened false (g ∷ fs) f o h n = cc o
first-Opened true fs f o h n = cc h

later-Opened :
    (b : Bool) (fs : List ServerBridgeInboundFrame) (f : ServerBridgeInboundFrame)
    → Opened b fs
    → b ≡ true
    → frame_type f ≢ hello
    → Opened true (fs ++ f ∷ [])
later-Opened true (g ∷ fs) f o h n = (
  o.0,
  All-append (λ (k : ServerBridgeInboundFrame). frame_type k ≢ hello) fs (f ∷ []) o.1 (n, tt),
)
later-Opened true [] f o h n = absurd o
later-Opened false fs f o h n = cc h

-- A frame that is not a player message leaves the window.
other-Remembers :
    (fs : List ServerBridgeInboundFrame) (f : ServerBridgeInboundFrame) (s : ConnectionState)
    → message_ids (f ∷ []) ≡ []
    → Remembers (message_ids fs) s.seen_message_ids s.seen_message_id_order
    → Remembers (message_ids (fs ++ f ∷ [])) s.seen_message_ids s.seen_message_id_order
other-Remembers fs f s h r =
    let same : message_ids fs ≡ message_ids (fs ++ f ∷ []) = sym (
      message_ids-append fs (f ∷ [])
      ∙ ap (λ (xs : List String). message_ids fs ++ xs) h
      ∙ append-nil (message_ids fs)) in
    subst (λ (ids : List String). Remembers ids s.seen_message_ids s.seen_message_id_order) same r

-- A session does not depend on the timer and the end.
pub quiet-Session :
    (fs : List ServerBridgeInboundFrame) (s t : ConnectionState)
    → Session fs s
    → t.handshaken ≡ s.handshaken
    → t.seen_message_ids ≡ s.seen_message_ids
    → t.seen_message_id_order ≡ s.seen_message_id_order
    → Session fs t
quiet-Session fs s t i h a b = record { remembers = rw (a, b) i.remembers; opened = rw h i.opened }

pub accept_frame-Session :
    (fs : List ServerBridgeInboundFrame) (f : ServerBridgeInboundFrame) (s : ConnectionState)
    → Session fs s
    → validate_frame s f ≡ none
    → Session (fs ++ f ∷ []) (accept_frame s f)
unfolding accept_frame validate_frame reset_heartbeat_timeout
accept_frame-Session fs (hello_frame a b c d) s i v = record {
  remembers = other-Remembers fs (hello_frame a b c d) s refl i.remembers;
  opened = first-Opened s.handshaken fs (hello_frame a b c d) i.opened (ground arith) refl;
}
accept_frame-Session fs (heartbeat_frame a n b c) s i v =
    let f = heartbeat_frame a n b c in
    let shaken : s.handshaken ≡ true = ground arith in
    quiet-Session (fs ++ f ∷ []) s (reset_heartbeat_timeout s)
      (record {
        remembers = other-Remembers fs f s refl i.remembers;
        opened =
            subst (λ (x : Bool). Opened x (fs ++ f ∷ [])) (sym shaken)
              (later-Opened s.handshaken fs f i.opened shaken (ground arith));
      })
      (ground arith) (ground arith) (ground arith)
accept_frame-Session fs (player_message_frame a id b c d e) s i v =
    let f = player_message_frame a id b c d e in
    let shaken : s.handshaken ≡ true = ground arith in
    let fresh : has id s.seen_message_ids ≡ false = ground arith in
    let (seen, order) = remember_message_id s.seen_message_ids s.seen_message_id_order id in
    record {
      remembers =
          subst (λ (ids : List String). Remembers ids seen order)
            (sym (message_ids-append fs (f ∷ [])))
            (remember_message_id-Remembers (message_ids fs) s.seen_message_ids
              s.seen_message_id_order id i.remembers fresh);
      opened =
          subst (λ (x : Bool). Opened x (fs ++ f ∷ [])) (sym shaken)
            (later-Opened s.handshaken fs f i.opened shaken (ground arith));
    }

-- What reports nothing, and changes no more than the timer and the end, keeps a session.
pub silent-Session :
    (fs : List ServerBridgeInboundFrame) (s : ConnectionState) (r : ConnectionState × List Effect)
    → Session fs s
    → reported r.1 ≡ []
    → r.0.handshaken ≡ s.handshaken
    → r.0.seen_message_ids ≡ s.seen_message_ids
    → r.0.seen_message_id_order ≡ s.seen_message_id_order
    → Session (fs ++ reported r.1) r.0
silent-Session fs s r i q h a b =
    subst (λ (xs : List ServerBridgeInboundFrame). Session xs r.0)
      (sym (ap (λ (xs : List ServerBridgeInboundFrame). fs ++ xs) q ∙ append-nil fs))
      (quiet-Session fs s r.0 i h a b)
