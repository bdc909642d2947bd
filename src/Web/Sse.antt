-- ===== src/Web/Sse.antt =====
-- apps/web/src/api/sse.ts: the reader of the event stream. The decoded text arrives in chunks that
-- are cut anywhere; the socket and the decoder are third-party code.
pub mod Chunks
pub mod Frames
use Prim.Native.String.{[], ◌∷◌, ◌++◌}
use Prim.Native.Char.{code}
use jobilee.Prelude.{
  ℕ, zero, suc, ◌+◌, String, Bool, true, false, Option, none, some, List, leb, ltb, ◌==◌, nat_eq,
  string_eq, if◌then◌else◌, ◌++◌ as append, trim, split_on, strip_prefix, split_first, join, size,
}
use jobilee.HttpClient.{Response, is_ok}

pub record SseMessage : Type 0 where
  pub event : String
  pub data_text : String

-- the variables of `parseEvent`
pub record Fields : Type 0 where
  pub event : String
  pub data_lines : List String

-- `raw.split("\n")`
unfoldable pub split_lines : String → List String
unfolding split_on
split_lines = split_on 10

abbrev pub with_data : Fields → String → Fields
with_data p v = record { event = p.event; data_lines = append p.data_lines (List.◌∷◌ v List.[]) }

-- the body of the loop over the lines
unfoldable pub read_line : Fields → String → Fields
unfolding strip_prefix trim
read_line p line = elim (strip_prefix ":" line) [
  | some _ ↦ p
  | none ↦ elim (strip_prefix "event:" line) [
    | some v ↦ record { event = trim v; data_lines = p.data_lines }
    | none ↦ elim (strip_prefix "data:" line) [ some v ↦ with_data p (trim v) | none ↦ p ]
  ]
]

unfoldable pub read_lines : Fields → List String → Fields
unfolding read_line
read_lines p List.[] = p
read_lines p (List.◌∷◌ line lines) = read_lines (read_line p line) lines

abbrev pub message_of : Fields → Option SseMessage
message_of p = elim p.data_lines [
  | List.[] ↦ none
  | List.◌∷◌ v vs ↦ some (record { event = p.event; data_text = join "\n" (List.◌∷◌ v vs) })
]

-- `parseEvent`
unfoldable pub parse_event : String → Option SseMessage
unfolding split_lines read_lines join
parse_event raw =
    message_of (read_lines (record { event = "message"; data_lines = List.[] }) (split_lines raw))

-- the messages yielded and the buffer that is left
pub record Drained : Type 0 where
  pub messages : List SseMessage
  pub buffer : String

abbrev pub yielded : Option SseMessage → Drained → Drained
yielded none d = d
yielded (some m) d = record { messages = List.◌∷◌ m d.messages; buffer = d.buffer }

-- the inner loop, on fuel; `drain` gives enough
unfoldable pub drain_from : ℕ → String → Drained
unfolding split_first parse_event
drain_from zero buffer = record { messages = List.[]; buffer = buffer }
drain_from (suc fuel) buffer = elim (split_first "\n\n" buffer) [
  | none ↦ record { messages = List.[]; buffer = buffer }
  | some (raw, rest) ↦ yielded (parse_event raw) (drain_from fuel rest)
]

unfoldable pub drain : String → Drained
unfolding drain_from size
drain buffer = drain_from (suc (size buffer)) buffer

abbrev pub before : List SseMessage → Drained → Drained
before ms d = record { messages = append ms d.messages; buffer = d.buffer }

-- the reading loop, over the chunks that `read` delivers until the stream ends
unfoldable pub read_chunks : String → List String → Drained
unfolding drain
read_chunks buffer List.[] = record { messages = List.[]; buffer = buffer }
read_chunks buffer (List.◌∷◌ chunk chunks) =
    let d = drain (buffer ++ chunk) in before d.messages (read_chunks d.buffer chunks)
