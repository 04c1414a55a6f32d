-- ===== src/Interfaces/ServerBridge/Json.antt =====
-- What `JSON.parse` gives, as far as ts-core/src/interfaces/server-bridge/protocol.ts looks at it.
use Prim.Native.String.{String}
use text.Mathlib.Text.{◌==◌}
use mc_servant.Base.{ℕ, Option, none, some, List, [], ◌∷◌, ◌≡◌, Bool, All, if◌then◌else◌}

-- A number is told apart by `Number.isInteger` and its sign; -0 counts as 0.
pub data JsonNumber : Type 0 where
  natural negative_integer : ℕ → JsonNumber
  not_an_integer : JsonNumber

-- A property's value. An array and an object below the root are refused alike, whatever is in them.
pub data JsonValue : Type 0 where
  json_null json_array json_object : JsonValue
  json_boolean : Bool → JsonValue
  json_number : JsonNumber → JsonValue
  json_string : String → JsonValue

-- The properties of an object, each name once.
abbrev pub Record : Type 0
Record = List (String × JsonValue)

-- The root of what was parsed.
pub data Json : Type 0 where
  object_root : Record → Json
  other_root : Json

-- `record[field]`; `none` is `undefined`.
unfoldable pub field : Record → String → Option JsonValue
field [] name = none
field ((other, value) ∷ rest) name = if other == name then some value else field rest name

-- Every property of the first object stands in the second.
abbrev pub Within : Record → Record → Type 0
Within properties object = All (λ (p : String × JsonValue). field object p.0 ≡ some p.1) properties
