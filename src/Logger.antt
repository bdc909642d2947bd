-- ===== src/Logger.antt =====
-- packages/logger/src/index.ts: the structured logger. `JSON.stringify`, the sink and the clock are
-- parameters.
pub mod Levels
pub mod Sanitizer
pub mod Redaction
mod Tests
use jobilee.Prelude.{
  ℕ, String, Bool, Option, none, some, List, [], ◌∷◌, ltb, ◌==◌, string_eq, if◌then◌else◌,
}
use jobilee.Logger.Levels.{LogLevel, debug, info, warn, error, silent, severity}
use jobilee.Logger.Sanitizer.{
  Value, error_value, LoggedError, Fields, Heap, a_string, Clean, leaf, CleanFields, no_fields,
  field, sanitize, sanitize_fields,
}

-- A logger's options and bindings. `stringify` is `JSON.stringify`, which may throw on what an error
-- carries, and `stringify_texts` the one on an object of strings.
pub record Logger : Type 0 where
  pub level : LogLevel
  pub service : String
  pub bindings : Fields

pub record Sink : Type 0 where
  pub stringify : CleanFields → Option String
  pub stringify_texts : List (String × String) → String

-- `out[key] = value`, which keeps the place of a key that is there
unfoldable pub put_value : String → Value → Fields → Fields
put_value key v [] = (key, v) ∷ []
put_value key v ((k, w) ∷ rest) =
    let put = put_value key v rest in if k == key then (key, v) ∷ rest else (k, w) ∷ put

-- `{ ...a, ...b }`
unfoldable pub merge : Fields → Fields → Fields
unfolding put_value
merge a [] = a
merge a ((k, v) ∷ b) = merge (put_value k v a) b

unfoldable pub put_clean : String → Clean → CleanFields → CleanFields
put_clean key c no_fields = field key c no_fields
put_clean key c (field k d rest) =
    let put = put_clean key c rest in if k == key then field key c rest else field k d put

unfoldable pub merge_clean : CleanFields → CleanFields → CleanFields
unfolding put_clean
merge_clean a no_fields = a
merge_clean a (field k c b) = merge_clean (put_clean k c a) b

-- `child`
abbrev pub child : Logger → Fields → Logger
unfolding merge
child logger extra = record logger { bindings = merge logger.bindings extra }

abbrev pub level_name : LogLevel → String
level_name debug = "debug"
level_name info = "info"
level_name warn = "warn"
level_name error = "error"
level_name silent = "silent"

abbrev pub stamp : Logger → String → LogLevel → String → CleanFields
stamp logger time level msg = field "time" (leaf (a_string time)) (
    field "level" (leaf (a_string (level_name level))) (
      field "service" (leaf (a_string logger.service))
        (field "msg" (leaf (a_string msg)) no_fields)))

-- `record`: the fields are a new object, at the depth 0
unfoldable pub log_record : Heap → Logger → String → LogLevel → String → Fields → CleanFields
unfolding merge merge_clean sanitize_fields sanitize
log_record heap logger time level msg fields =
    merge_clean (stamp logger time level msg)
      (sanitize_fields (sanitize heap 7) (merge logger.bindings fields) []).0

-- `emit`, with the line that it writes
unfoldable pub emit : Sink → Heap → Logger → String → LogLevel → String → Fields → Option String
unfolding log_record
emit sink heap logger time level msg fields =
    if ltb (severity level) (severity logger.level)
    then none
    else elim (sink.stringify (log_record heap logger time level msg fields)) [
      | some line ↦ some line
      | none ↦ some (
          sink.stringify_texts (
            ("time", time)
            ∷ ("level", "error")
            ∷ ("service", logger.service)
            ∷ ("msg", "log serialization failed")
            ∷ ("originalMsg", msg)
            ∷ []))
    ]

-- the argument `err` of the method `error`
pub data ErrorArgument : Type 0 where
  nothing : ErrorArgument
  an_error : LoggedError → ErrorArgument
  bag : Fields → ErrorArgument

abbrev pub error_bag : ErrorArgument → Fields
error_bag nothing = []
error_bag (an_error e) = ("err", error_value e) ∷ []
error_bag (bag fields) = fields

-- the method `error`
unfoldable pub log_error :
    Sink → Heap → Logger → String → String → ErrorArgument → Fields → Option String
unfolding emit merge
log_error sink heap logger time msg err fields =
    emit sink heap logger time error msg (merge (error_bag err) fields)
