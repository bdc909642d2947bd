-- ===== src/ServiceKit/Env.antt =====
-- packages/service-kit/src/env.ts: the parse of the environment at the start of a service. The schema
-- is a parameter.
use Prim.Native.String.{◌++◌}
use jobilee.Prelude.{String, Option, none, some, List, map, join, ◌==◌, string_eq, if◌then◌else◌}

-- an issue of the schema: where it is and what it is
pub record Issue : Type 0 where
  pub path : List String
  pub message : String

-- the outcome of `safeParse`
pub data Checked (A : Type 0) : Type 0 where
  valid : A → Checked A
  invalid : List Issue → Checked A

-- what a service starts with, or the message that it dies with
pub data Boot (A : Type 0) : Type 0 where
  starts : A → Boot A
  dies : String → Boot A

abbrev pub problem : Issue → String
problem issue = "  " ++ (join "." issue.path ++ (": " ++ issue.message))

-- `parseEnv`
unfoldable pub parse_env : {E A : Type 0} → String → (E → Checked A) → E → Boot A
unfolding join
parse_env service schema env = elim (schema env) [
  | valid config ↦ starts config
  | invalid issues ↦
      dies ("invalid environment for " ++ (service ++ (":\n" ++ join "\n" (map problem issues))))
]

-- what `optionalUrl` makes of a variable before its schema
unfoldable pub unless_blank : Option String → Option String
unless_blank none = none
unless_blank (some value) = if value == "" then none else some value
