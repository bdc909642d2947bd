-- ===== src/Logger/Levels.antt =====
-- packages/logger/src/index.ts: the levels of the logger.
use jobilee.Prelude.{ℕ, String, Option, none, some, ◌==◌, string_eq, if◌then◌else◌}

-- `LOG_LEVELS`
pub data LogLevel : Type 0 where
  debug info warn error silent : LogLevel

-- `SEVERITY`
abbrev pub severity : LogLevel → ℕ
severity debug = 10
severity info = 20
severity warn = 30
severity error = 40
severity silent = 100

-- `isLogLevel` of a text, with what it is
abbrev pub log_level : String → Option LogLevel
log_level s =
    if s == "debug"
    then some debug
    else if s == "info"
    then some info
    else if s == "warn"
    then some warn
    else if s == "error"
    then some error
    else if s == "silent"
    then some silent
    else none

-- `defaultLevel`, from LOG_LEVEL in lower case and from NODE_ENV
unfoldable pub default_level : Option String → Option String → LogLevel
default_level from_env node_env = elim from_env [
  | none ↦ by_environment node_env
  | some s ↦ elim (log_level s) [ some level ↦ level | none ↦ by_environment node_env ]
]
  where
    by_environment : Option String → LogLevel
    by_environment none = info
    by_environment (some env) = if env == "development" then debug else info
