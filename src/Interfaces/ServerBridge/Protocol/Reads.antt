-- ===== src/Interfaces/ServerBridge/Protocol/Reads.antt =====
-- What the readers of single properties take: ts-core/src/interfaces/server-bridge/protocol.ts.
use Prim.Native.String.{String}
use text.Mathlib.TextEquality.{eq_iff}
use mc_servant.Base.Text.{is_blank}
use mc_servant.Base.{ℕ, ◌≡◌, refl, ◌↔◌, ◌⊎◌, inl, inr, false, Option, none, some, arith}
use mc_servant.Interfaces.ServerBridge.Json.{
  JsonValue, json_string, json_number, json_null, json_array, json_object, json_boolean, natural,
  Record, field,
}
use mc_servant.Interfaces.ServerBridge.Protocol.{
  type_text, ServerBridgeInboundFrameType, hello, heartbeat, player_message, ParseResult, ok,
  refused, ServerBridgeFrameParseFailure, server_bridge_protocol_version, read_non_empty_string,
  read_non_negative_integer, check_type, check_version, inbound_frame_type,
}

pub read_non_empty_string-ok :
    (object : Record) (name v : String)
    → (read_non_empty_string object name ≡ ok v)
      ↔ ((field object name ≡ some (json_string v)) × (is_blank v ≡ false))
unfolding read_non_empty_string
read_non_empty_string-ok object name v = ground arith

pub read_non_negative_integer-ok :
    (object : Record) (name : String) (n : ℕ)
    → (read_non_negative_integer object name ≡ ok n)
      ↔ (field object name ≡ some (json_number (natural n)))
unfolding read_non_negative_integer
read_non_negative_integer-ok object name n = ground arith

inbound_frame_type-some :
    (s : String) (t : ServerBridgeInboundFrameType)
    → (inbound_frame_type s ≡ some t) ↔ (s ≡ type_text t)
unfolding inbound_frame_type
inbound_frame_type-some s hello =
    ground (arith, eq_iff s "hello", eq_iff s "heartbeat", eq_iff s "player_message")
inbound_frame_type-some s heartbeat = ground (
  arith,
  eq_iff s "hello",
  eq_iff s "heartbeat",
  eq_iff s "player_message",
  eq_iff "heartbeat" "hello",
)
inbound_frame_type-some s player_message = ground (
  arith,
  eq_iff s "hello",
  eq_iff s "heartbeat",
  eq_iff s "player_message",
  eq_iff "player_message" "hello",
  eq_iff "player_message" "heartbeat",
)

pub check_type-ok :
    (v : Option JsonValue) (t : ServerBridgeInboundFrameType)
    → (check_type v ≡ ok t) ↔ (v ≡ some (json_string (type_text t)))
unfolding check_type
check_type-ok (some (json_string (String.◌∷◌ c s))) t =
    ground (arith, inbound_frame_type-some (String.◌∷◌ c s) t)
check_type-ok (some (json_string String.[])) hello = ground (arith, eq_iff "" "hello")
check_type-ok (some (json_string String.[])) heartbeat = ground (arith, eq_iff "" "heartbeat")
check_type-ok (some (json_string String.[])) player_message =
    ground (arith, eq_iff "" "player_message")
check_type-ok (some json_null) t = ground arith
check_type-ok (some json_array) t = ground arith
check_type-ok (some json_object) t = ground arith
check_type-ok (some (json_boolean b)) t = ground arith
check_type-ok (some (json_number n)) t = ground arith
check_type-ok none t = ground arith

pub check_version-ok :
    (v : Option JsonValue)
    → (check_version v ≡ ok tt) ↔ (v ≡ some (json_string server_bridge_protocol_version))
unfolding check_version
check_version-ok (some (json_string (String.◌∷◌ c s))) =
    ground (arith, eq_iff (String.◌∷◌ c s) server_bridge_protocol_version)
check_version-ok (some (json_string String.[])) =
    ground (arith, eq_iff "" server_bridge_protocol_version)
check_version-ok (some json_null) = ground arith
check_version-ok (some json_array) = ground arith
check_version-ok (some json_object) = ground arith
check_version-ok (some (json_boolean b)) = ground arith
check_version-ok (some (json_number n)) = ground arith
check_version-ok none = ground arith

pub ParseResult-cases :
    {A : Type 0} (r : ParseResult A)
    → ((a : A) × (r ≡ ok a)) ⊎ ((e : ServerBridgeFrameParseFailure) × (r ≡ refused e))
ParseResult-cases (ok a) = inl (a, refl)
ParseResult-cases (refused e) = inr (e, refl)

pub string-cases :
    (object : Record) (name : String)
    → ((v : String) × (read_non_empty_string object name ≡ ok v)
        × (field object name ≡ some (json_string v))
        × (is_blank v ≡ false))
      ⊎ ((e : ServerBridgeFrameParseFailure) × (read_non_empty_string object name ≡ refused e))
string-cases object name = elim (ParseResult-cases (read_non_empty_string object name)) [
  | inl (v, h) ↦
      let (stands, filled) = (read_non_empty_string-ok object name v).0 h in
      inl (v, h, stands, filled)
  | inr e ↦ inr e
]

pub integer-cases :
    (object : Record) (name : String)
    → ((n : ℕ) × (read_non_negative_integer object name ≡ ok n)
        × (field object name ≡ some (json_number (natural n))))
      ⊎ ((e : ServerBridgeFrameParseFailure) × (read_non_negative_integer object name ≡ refused e))
integer-cases object name = elim (ParseResult-cases (read_non_negative_integer object name)) [
  | inl (n, h) ↦ inl (n, h, (read_non_negative_integer-ok object name n).0 h)
  | inr e ↦ inr e
]
