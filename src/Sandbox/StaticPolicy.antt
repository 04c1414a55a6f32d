-- ===== src/Sandbox/StaticPolicy.antt =====
-- ts-core/src/sandbox/resource-limits.ts: the limits of an execution, and what the code may not name.
use Prim.Native.Char.{code}
use Prim.Native.String.{String, ◌++◌}
use mc_servant.Base.Text.{is_blank, is_space, strip_prefix}
use mc_servant.Base.{
  ℕ, Bool, true, false, not, ◌&&◌, ◌||◌, ◌==◌, Option, none, some, List, [], ◌∷◌, leb,
  if◌then◌else◌,
}
use mc_servant.Sandbox.ExecutionControl.{
  SandboxExecutionError, static_check_error, SandboxExecutionResourceLimits,
}

pub record PartialLimits : Type 0 where
  pub memory_limit_mb : Option ℕ
  pub timeout_ms : Option ℕ
  pub script_timeout_ms : Option ℕ
  pub max_sleep_ms : Option ℕ
  pub abort_cleanup_timeout_ms : Option ℕ

-- `value ?? fallback`.
abbrev pub or_else : Option ℕ → ℕ → ℕ
or_else none fallback = fallback
or_else (some n) fallback = n

-- `createSandboxResourceLimits` of natural numbers; `none` where it throws.
unfoldable pub create_sandbox_resource_limits :
    PartialLimits → Option SandboxExecutionResourceLimits
create_sandbox_resource_limits input =
    let timeout_ms = or_else input.timeout_ms 120000 in
    let script_timeout_ms = or_else input.script_timeout_ms 115000 in
    if leb timeout_ms script_timeout_ms
    then none
    else some (record {
      memory_limit_mb = or_else input.memory_limit_mb 128;
      timeout_ms = timeout_ms;
      script_timeout_ms = script_timeout_ms;
      max_sleep_ms = or_else input.max_sleep_ms 10000;
      abort_cleanup_timeout_ms = or_else input.abort_cleanup_timeout_ms 500;
    })

-- A character that `\w` matches.
abbrev pub is_word : ℕ → Bool
is_word c = (leb 48 c && leb c 57) || (leb 65 c && leb c 90) || (leb 97 c && leb c 122) || c == 95

-- What has to follow a word: `(?:\s|\()`, `\s*\(`, `\b` after a letter, or anything.
pub data Follow : Type 0 where
  space_or_open spaces_and_open boundary anything : Follow

unfoldable pub opens_after_spaces : String → Bool
opens_after_spaces String.[] = false
opens_after_spaces (String.◌∷◌ c s) = code c == 40 || (is_space (code c) && opens_after_spaces s)

unfoldable pub follows : Follow → String → Bool
follows space_or_open String.[] = false
follows space_or_open (String.◌∷◌ c s) = is_space (code c) || code c == 40
follows spaces_and_open s = opens_after_spaces s
follows boundary String.[] = true
follows boundary (String.◌∷◌ c s) = not (is_word (code c))
follows anything s = true

-- Whether one of the words stands at the beginning of a text, and is followed as it has to be.
unfoldable pub one_here : List String → Follow → String → Bool
one_here [] follow s = false
one_here (word ∷ words) follow s = elim (strip_prefix word s) [
  | none ↦ one_here words follow s
  | some rest ↦ follows follow rest || one_here words follow s
]

-- `pattern.test(code)` from a place on, where the character before is one of a word or not.
unfoldable pub matches : List String → Follow → (inside : Bool) → String → Bool
matches words follow inside String.[] = false
matches words follow inside (String.◌∷◌ c s) =
    (not inside && one_here words follow (String.◌∷◌ c s))
    || matches words follow (is_word (code c)) s

pub record Forbidden : Type 0 where
  pub name : String
  pub words : List String
  pub follow : Follow

-- `FORBIDDEN_SANDBOX_PATTERNS`.
abbrev pub forbidden_sandbox_patterns : List Forbidden
forbidden_sandbox_patterns =
    record { name = "import"; words = "import" ∷ []; follow = space_or_open }
    ∷ record { name = "require"; words = "require" ∷ []; follow = spaces_and_open }
    ∷ record { name = "process"; words = "process" ∷ []; follow = boundary }
    ∷ record { name = "globalThis"; words = "globalThis" ∷ []; follow = boundary }
    ∷ record { name = "sandbox_internal_bridge"; words = "__sandbox" ∷ []; follow = anything }
    ∷ record { name = "eval"; words = "eval" ∷ []; follow = spaces_and_open }
    ∷ record { name = "Function"; words = "Function" ∷ []; follow = spaces_and_open }
    ∷ record { name = "filesystem"; words = "fs" ∷ "node:fs" ∷ []; follow = boundary }
    ∷ record {
      name = "network";
      words =
          "net" ∷ "node:net" ∷ "http" ∷ "node:http" ∷ "https" ∷ "node:https" ∷ "fetch" ∷ "WebSocket"
          ∷ [];
      follow = boundary;
    }
    ∷ []

-- The loop over the patterns.
unfoldable pub first_forbidden : List Forbidden → String → Option SandboxExecutionError
first_forbidden [] source = none
first_forbidden (p ∷ ps) source =
    if matches p.words p.follow false source
    then some (static_check_error ("Forbidden sandbox capability detected: " ++ p.name) p.name)
    else first_forbidden ps source

-- `checkSandboxSourceStaticPolicy`: the error it returns. For a blank code it throws: the outer
-- `none`.
unfoldable pub check_sandbox_source_static_policy : String → Option (Option SandboxExecutionError)
check_sandbox_source_static_policy source =
    if is_blank source then none else some (first_forbidden forbidden_sandbox_patterns source)
