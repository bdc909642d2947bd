-- ===== src/Web/Sse/Frames.antt =====
-- The reader of apps/web/src/api/sse.ts on what
-- services/ai-service/src/tasks/task-stream.controller.ts writes.
use Prim.Native.String.{[], ◌∷◌, ◌++◌}
use Prim.Native.String.append.{cons as cons-append, nil as nil-append}
use jobilee.Prelude.{
  ◌≡◌, refl, sym, ◌∙◌, ap, String, true, none, some, List, nat_eq, split_on, trim, trim_start,
  arith, strip_prefix, split_first, join, map,
}
use jobilee.Prelude.Text.Split.{append_assoc}
use jobilee.Prelude.Text.Lines.{
  is_line, is_block, is_block-append, is_line-append, split_first-block, strip_prefix_self,
}
use jobilee.Ai.Tasks.{TaskEvent}
use jobilee.Ai.Stream.{Written, headers, task_event, ping, ended, frame, body_text}
use jobilee.Web.Sse.{
  SseMessage, Fields, with_data, read_line, read_lines, split_lines, parse_event, drain, yielded,
  read_chunks,
}
use jobilee.Web.Sse.Chunks.{drain-next, drain-drained, whole, read_chunks-chunking}

split_lines-line : (s : String) → is_line s ≡ true → split_lines s ≡ List.◌∷◌ s List.[]
unfolding split_lines split_on is_line
split_lines-line [] h = refl
split_lines-line (c ∷ s) h = ground (arith, split_lines-line s)

split_lines-append :
    (s t : String) → is_line s ≡ true → split_lines (s ++ ("\n" ++ t)) ≡ List.◌∷◌ s (split_lines t)
unfolding split_lines split_on is_line
split_lines-append [] t h = rw (nil-append, cons-append "\n" "" t, nil-append) refl
split_lines-append (c ∷ s) t h =
    rw (cons-append, split_lines, split_on) (ground (arith, split_lines-append s t))

no_comment : (s : String) → strip_prefix ":" ("data: " ++ s) ≡ none
unfolding strip_prefix
no_comment s = rw (cons-append "d" "ata: " s) refl

no_event : (s : String) → strip_prefix "event:" ("data: " ++ s) ≡ none
unfolding strip_prefix
no_event s = rw (cons-append "d" "ata: " s) refl

is_data : (s : String) → strip_prefix "data:" ("data: " ++ s) ≡ some (" " ++ s)
is_data s = rw (append_assoc "data:" " " s) (strip_prefix_self "data:" (" " ++ s))

trim-space : (s : String) → trim (" " ++ s) ≡ trim s
unfolding trim trim_start
trim-space s = rw (cons-append " " "" s, nil-append) refl

read_line-data : (p : Fields) (s : String) → read_line p ("data: " ++ s) ≡ with_data p (trim s)
unfolding read_line
read_line-data p s = rw (read_line, no_comment s, no_event s, is_data s, trim-space s) refl

-- the message of a text on one line
abbrev pub task_message : String → SseMessage
task_message json = record { event = "task"; data_text = json }

parse_event-task :
    (json : String)
    → is_line json ≡ true
    → trim json ≡ json
    → parse_event ("event: task\ndata: " ++ json) ≡ some (task_message json)
unfolding parse_event read_lines read_line is_line join
parse_event-task json h k =
    rw
      (
        append_assoc "event: task" "\ndata: " json,
        append_assoc "\n" "data: " json,
        split_lines-append "event: task" ("data: " ++ json) refl,
        split_lines-line ("data: " ++ json) (is_line-append "data: " json refl h),
        read_lines,
        read_line-data (record { event = "task"; data_lines = List.[] }) json,
        k,
      )
      refl

-- The events that were written.
unfoldable pub events_of : List Written → List TaskEvent
events_of List.[] = List.[]
events_of (List.◌∷◌ (task_event event) xs) = List.◌∷◌ event (events_of xs)
events_of (List.◌∷◌ headers xs) = events_of xs
events_of (List.◌∷◌ ping xs) = events_of xs
events_of (List.◌∷◌ ended xs) = events_of xs

-- What `JSON.stringify` gives for an object: one line, with no space around it.
abbrev pub IsJson : (TaskEvent → String) → Type 0
IsJson stringify =
    (event : TaskEvent)
    → (is_line (stringify event) ≡ true) × (trim (stringify event) ≡ stringify event)

drain-block :
    (raw t : String)
    → is_block raw ≡ true
    → drain (raw ++ ("\n\n" ++ t)) ≡ yielded (parse_event raw) (drain t)
drain-block raw t h = drain-next (raw ++ ("\n\n" ++ t)) raw t (split_first-block raw t h)

drain-task :
    (json t : String)
    → is_line json ≡ true
    → trim json ≡ json
    → drain (("event: task\ndata: " ++ (json ++ "\n\n")) ++ t)
      ≡ yielded (some (task_message json)) (drain t)
unfolding is_block
drain-task json t h k =
    rw
      (
        sym (append_assoc "event: task\ndata: " json "\n\n"),
        append_assoc ("event: task\ndata: " ++ json) "\n\n" t,
        drain-block ("event: task\ndata: " ++ json) t
            (is_block-append "event: task\ndata: " json refl h),
        parse_event-task json h k,
      )
      refl

drain-ping : (t : String) → drain (": ping\n\n" ++ t) ≡ drain t
unfolding is_block parse_event read_lines read_line split_lines strip_prefix
drain-ping t = rw (append_assoc ": ping" "\n\n" t, drain-block ": ping" t refl) refl

module _ (stringify : TaskEvent → String) (json : IsJson stringify) where
  drain-body_text :
      (xs : List Written)
      → drain (body_text stringify xs)
        ≡ record { messages = map (λ e. task_message (stringify e)) (events_of xs); buffer = "" }
  unfolding body_text frame events_of split_first
  drain-body_text List.[] = drain-drained "" refl
  drain-body_text (List.◌∷◌ (task_event event) xs) =
      rw
        (
          drain-task (stringify event) (body_text stringify xs) (json event).0 (json event).1,
          drain-body_text xs,
        )
        refl
  drain-body_text (List.◌∷◌ headers xs) = rw nil-append (drain-body_text xs)
  drain-body_text (List.◌∷◌ ping xs) = rw (drain-ping (body_text stringify xs)) (drain-body_text xs)
  drain-body_text (List.◌∷◌ ended xs) = rw nil-append (drain-body_text xs)

  -- The browser reads what ai-service writes: if `JSON.stringify` gives one line without space
  -- around it, then however the text of a stream's writes is cut into chunks, the reader yields one
  -- message `task` for each event written, in order and with the event's JSON, nothing for the
  -- headers and the pings, and keeps nothing back.
  pub read_chunks-body_text :
      (xs : List Written) (chunks : List String)
      → whole chunks ≡ body_text stringify xs
      → read_chunks "" chunks
        ≡ record { messages = map (λ e. task_message (stringify e)) (events_of xs); buffer = "" }
  read_chunks-body_text xs chunks h =
      read_chunks-chunking chunks ∙ (ap drain h ∙ drain-body_text xs)
