-- ===== src/Ai/Events.antt =====
-- services/ai-service/src/tasks/task-events.service.ts: the fan-out of the events of tasks to the
-- listeners of this process. `JSON.stringify` and `JSON.parse` are parameters, Redis carries a
-- message on a channel to every subscriber of the pattern.
use Prim.Native.String.{◌++◌}
use jobilee.Prelude.{
  ℕ, String, Bool, ◌&&◌, Option, none, some, List, [], ◌∷◌, ◌++◌ as append, filter, any, map, ◌==◌,
  nat_eq, string_eq, slice_from, if◌then◌else◌,
}
use jobilee.Ai.Tasks.{TaskEvent}

abbrev pub channel_prefix : String
channel_prefix = "task-events"

-- the channel of a task
unfoldable pub channel : String → String
channel task_id = channel_prefix ++ (":" ++ task_id)

-- `channel.slice(CHANNEL_PREFIX.length + 1)`
unfoldable pub task_id_of : String → String
unfolding slice_from
task_id_of c = slice_from 12 c

-- a listener, by the task that it listens to and its identity
pub record Listener : Type 0 where
  pub task_id : String
  pub listener : ℕ

-- `subscribe`: `emitter.on`
abbrev pub subscribe : String → ℕ → List Listener → List Listener
subscribe task_id l ls = append ls (record { task_id = task_id; listener = l } ∷ [])

abbrev pub is_registration : String → ℕ → Listener → Bool
is_registration task_id l x = x.task_id == task_id && x.listener == l

-- the function that it returns: `emitter.off`, which takes the newest of equal registrations off
unfoldable pub unsubscribe : String → ℕ → List Listener → List Listener
unsubscribe task_id l [] = []
unsubscribe task_id l (x ∷ xs) =
    let rest = unsubscribe task_id l xs in
    if any (is_registration task_id l) xs
    then x ∷ rest
    else if is_registration task_id l x
    then xs
    else x ∷ rest

abbrev pub is_listening : String → Listener → Bool
is_listening task_id x = x.task_id == task_id

abbrev pub receivers : String → List Listener → List ℕ
receivers task_id ls = map (λ x. x.listener) (filter (is_listening task_id) ls)

-- what is called with what: `emitter.emit`
abbrev pub emit : String → TaskEvent → List Listener → List (ℕ × TaskEvent)
emit task_id event ls = map (λ l. (l, event)) (receivers task_id ls)

-- a published message: its channel and its payload
abbrev pub publish : (TaskEvent → String) → TaskEvent → String × String
unfolding channel
publish stringify event = (channel event.task_id, stringify event)

-- the handler of `pmessage`; a malformed message is dropped
unfoldable pub on_message :
    (String → Option TaskEvent) → String × String → List Listener → List (ℕ × TaskEvent)
unfolding task_id_of
on_message parse (c, payload) ls = elim (parse payload) [
  | none ↦ []
  | some event ↦ emit (task_id_of c) event ls
]
