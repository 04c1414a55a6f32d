-- ===== src/Base/Text.antt =====
-- Texts as JavaScript sees them, as far as the code looks into them: blank texts, `trim`, prefixes.
pub mod Trims
use Prim.Native.Char.{Char, code}
use Prim.Native.String.{String}
use mc_servant.Base.{
  ℕ, ◌+◌, Bool, false, true, ◌&&◌, ◌||◌, Option, none, some, ◌==◌, leb, if◌then◌else◌,
}

-- The code points that `String.prototype.trim` removes (WhiteSpace and LineTerminator).
abbrev pub is_space : ℕ → Bool
is_space c =
    (leb 9 c && leb c 13)
    || c == 32
    || c == 160
    || c == 0x1680
    || (leb 0x2000 c && leb c 0x200a)
    || c == 0x2028
    || c == 0x2029
    || c == 0x202f
    || c == 0x205f
    || c == 0x3000
    || c == 0xfeff

-- `s.trim().length === 0`: every character is white space.
unfoldable pub is_blank : String → Bool
is_blank String.[] = true
is_blank (String.◌∷◌ c s) = is_space (code c) && is_blank s

-- `s.trimStart()`.
unfoldable pub trim_start : String → String
trim_start String.[] = String.[]
trim_start (String.◌∷◌ c s) = if is_space (code c) then trim_start s else String.◌∷◌ c s

-- A character before a text whose white space at the end is gone.
unfoldable pub cons_unless_blank : Char → String → String
cons_unless_blank c String.[] = if is_space (code c) then String.[] else String.◌∷◌ c String.[]
cons_unless_blank c (String.◌∷◌ d s) = String.◌∷◌ c (String.◌∷◌ d s)

-- `s.trimEnd()`.
unfoldable pub trim_end : String → String
trim_end String.[] = String.[]
trim_end (String.◌∷◌ c s) = cons_unless_blank c (trim_end s)

-- `s.trim()`.
unfoldable pub trim : String → String
trim s = trim_end (trim_start s)

-- What follows a prefix of a text: `s.slice(prefix.length)`, if `s.startsWith(prefix)`.
unfoldable pub strip_prefix : String → String → Option String
strip_prefix String.[] s = some s
strip_prefix (String.◌∷◌ c p) String.[] = none
strip_prefix (String.◌∷◌ c p) (String.◌∷◌ d s) = if code c == code d then strip_prefix p s else none

-- An upper case letter of ASCII in lower case.
abbrev pub lower : ℕ → ℕ
lower c = if leb 65 c && leb c 90 then c + 32 else c

-- Whether a text begins with another, up to a change `fold` of the characters.
unfoldable pub begins_with : (fold : ℕ → ℕ) → (pattern s : String) → Bool
begins_with fold String.[] s = true
begins_with fold (String.◌∷◌ c p) String.[] = false
begins_with fold (String.◌∷◌ c p) (String.◌∷◌ d s) =
    fold (code c) == fold (code d) && begins_with fold p s

-- `s.includes(pattern)`, up to a change of the characters.
unfoldable pub includes : (fold : ℕ → ℕ) → (pattern s : String) → Bool
includes fold pattern String.[] = begins_with fold pattern String.[]
includes fold pattern (String.◌∷◌ c s) =
    begins_with fold pattern (String.◌∷◌ c s) || includes fold pattern s
