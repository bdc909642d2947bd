-- ===== src/Web/Generation/Browser.antt =====
-- The hook of apps/web/src/api/ai.ts over the client of a page: its requests, its stream and its state.
use Prim.Native.String.{◌++◌}
use jobilee.Prelude.{String, Bool, true, false, Option, none, List}
use jobilee.Effect.{Action, Outcome, returned, threw}
use jobilee.HttpClient.{Response}
use jobilee.Shared.Ai.{CreateTaskRequest}
use jobilee.Ai.Tasks.{TaskEvent}
use jobilee.Ai.Service.{GenerationTask}
use jobilee.Web.Client.{Browser, Page, outside}
use jobilee.Web.Requests.{create_task, get_task, stream_events}
use jobilee.Web.Generation.{GenerationState, Hook, idle_state}

-- a page with the state of a hook
pub record View (N : Type 0) : Type 0 where
  pub page : Page N
  pub state : GenerationState
  pub cancelled : Bool

-- the schemas, `JSON.stringify`, the chunks of a body and the timer
pub record Formats (N J : Type 0) : Type 0 where
  pub task_id_of : Option J → Option String
  pub task_of : Option J → Option GenerationTask
  pub event_of : String → Option TaskEvent
  pub stringify : CreateTaskRequest → String
  pub read_body : Response → Action N (Option (List String))
  pub sleep : Action N (Unit {0})

module _ {N J : Type 0} (browser : Browser N J) (formats : Formats N J) where
  abbrev pub in_view : {A : Type 0} → View N → Outcome (Page N) A → Outcome (View N) A
  in_view v (returned a p) = returned a (record v { page = p })
  in_view v (threw e p) = threw e (record v { page = p })

  unfoldable pub hook_on : Hook (View N)
  unfolding create_task get_task stream_events
  hook_on = record {
    create_task =
        λ body v. in_view v (create_task browser formats.task_id_of formats.stringify body v.page);
    get_task = λ task_id v. in_view v (get_task browser formats.task_of task_id v.page);
    stream_events = λ task_id v.
        in_view v
          (stream_events browser formats.read_body ("/ai/tasks/" ++ (task_id ++ "/stream")) v.page);
    sleep = λ v. in_view v (outside formats.sleep v.page);
    parse_event = formats.event_of;
    cancelled = λ v. v.cancelled;
    uncancel = λ v. record v { cancelled = false };
    set_state = λ f v. record v { state = f v.state };
  }

-- `reset`, and the clean-up of a component that is left; the abort ends the stream's reading
abbrev pub leave : {N : Type 0} → View N → View N
leave v = record v { cancelled = true }

unfoldable pub reset : {N : Type 0} → View N → View N
reset v = record v { cancelled = true; state = idle_state none }
