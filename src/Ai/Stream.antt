-- ===== src/Ai/Stream.antt =====
-- services/ai-service/src/tasks/task-stream.controller.ts: the events of a task, pushed to a browser. What happens after the handler's return is a list of signals.
pub mod Forwarding
mod Tests
use Prim.Native.String.{◌++◌}
use jobilee.Prelude.{
  String, Bool, true, false, Option, List, [], ◌∷◌, ◌++◌ as append, if◌then◌else◌,
}
use jobilee.Effect.{Action, pure, ◌>>=◌}
use jobilee.Shared.Ai.{is_terminal_status}
use jobilee.Ai.Tasks.{TaskEvent, Environment}
use jobilee.Ai.Service.{GenerationTask, get}

-- the calls on the response
pub data Written : Type 0 where
  headers : Written
  task_event : TaskEvent → Written
  ping : Written
  ended : Written

-- what the handler keeps: whether the stream was closed, its subscription and its two timers,
-- whether it listens to the response, and what it wrote
pub record Stream : Type 0 where
  pub closed : Bool
  pub subscribed : Bool
  pub heartbeat : Bool
  pub max_lifetime : Bool
  pub on_close : Bool
  pub written : List Written

abbrev pub write : Written → Stream → Stream
write x s = record s { written = append s.written (x ∷ []) }

-- `close`
unfoldable pub close : Stream → Stream
close s = if s.closed then s else record {
  closed = true;
  subscribed = false;
  heartbeat = false;
  max_lifetime = false;
  on_close = s.on_close;
  written = append s.written (ended ∷ []);
}

-- the listener that the handler gives to `subscribe`
unfoldable pub on_event : TaskEvent → Stream → Stream
unfolding close
on_event event s =
    if s.closed
    then s
    else if is_terminal_status event.status
    then close (write (task_event event) s)
    else write (task_event event) s

-- the callback of `setInterval`
unfoldable pub on_heartbeat : Stream → Stream
on_heartbeat s = if s.closed then s else write ping s

abbrev pub current : GenerationTask → TaskEvent
current task = record {
  task_id = task.id;
  status = task.status;
  result = task.result;
  error = task.error;
}

-- the handler once it has read the task
unfoldable pub opened : GenerationTask → Stream
opened task =
    if is_terminal_status task.status
    then record {
      closed = false;
      subscribed = false;
      heartbeat = false;
      max_lifetime = false;
      on_close = false;
      written = headers ∷ task_event (current task) ∷ ended ∷ [];
    }
    else record {
      closed = false;
      subscribed = true;
      heartbeat = true;
      max_lifetime = true;
      on_close = true;
      written = headers ∷ task_event (current task) ∷ [];
    }

-- the handler
unfoldable pub stream : {W : Type 0} → Environment W → String → String → Action W Stream
unfolding get opened
stream env user_id id = do task ← get env user_id id; pure (opened task)

-- what reaches an open stream: an event on its task, a tick of the interval, the time-out, the
-- close of the connection
pub data Signal : Type 0 where
  emitted : TaskEvent → Signal
  tick : Signal
  expired : Signal
  disconnected : Signal

-- A signal runs its callback while that is registered.
unfoldable pub receive : Stream → Signal → Stream
unfolding close on_event on_heartbeat
receive s (emitted event) = if s.subscribed then on_event event s else s
receive s tick = if s.heartbeat then on_heartbeat s else s
receive s expired = if s.max_lifetime then close s else s
receive s disconnected = if s.on_close then close s else s

unfoldable pub receive_all : Stream → List Signal → Stream
unfolding receive
receive_all s [] = s
receive_all s (x ∷ xs) = receive_all (receive s x) xs

-- the text that a call on the response sends; `stringify` is `JSON.stringify`
unfoldable pub frame : (TaskEvent → String) → Written → String
frame stringify (task_event event) = "event: task\ndata: " ++ (stringify event ++ "\n\n")
frame stringify ping = ": ping\n\n"
frame stringify headers = ""
frame stringify ended = ""

unfoldable pub body_text : (TaskEvent → String) → List Written → String
unfolding frame
body_text stringify [] = ""
body_text stringify (x ∷ xs) = frame stringify x ++ body_text stringify xs
