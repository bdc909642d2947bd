-- ===== src/Web/Requests.antt =====
-- apps/web/src/api/ai.ts (`createTask`, `getTask`) and the request of `streamEvents` in sse.ts. The
-- schemas, `JSON.stringify` and the reading of a response's body in chunks are parameters.
use Prim.Native.String.{◌++◌}
use jobilee.Prelude.{String, false, not, Option, none, some, List, ◌∷◌, string_eq, if◌then◌else◌}
use jobilee.Effect.{Action, pure, throw, ◌>>=◌}
use jobilee.Thrown.{zod_error, other}
use jobilee.Shared.Ai.{CreateTaskRequest}
use jobilee.HttpClient.{get, post, Response, is_ok}
use jobilee.Ai.Service.{GenerationTask}
use jobilee.Web.Tokens.{Tab, get_access_token}
use jobilee.Web.Sse.{SseMessage, read_chunks}
use jobilee.Web.Client.{
  Browser, Page, WebRequest, no_body, json_body, authorization, outside, api_fetch,
}

abbrev pub or_zod_error : {W A : Type 0} → Option A → Action W A
or_zod_error none = throw zod_error
or_zod_error (some a) = pure a

module _ {N J : Type 0} (browser : Browser N J) where
  module _ (task_id_of : Option J → Option String) (stringify : CreateTaskRequest → String) where
    -- `createTask`
    unfoldable pub create_task : CreateTaskRequest → Action (Page N) String
    unfolding api_fetch
    create_task body = do
      payload ←
          api_fetch browser "/ai/tasks"
            (record { method = post; body = json_body (stringify body); skip_refresh = false })
      or_zod_error (task_id_of payload)

  -- `getTask`
  unfoldable pub get_task :
      (Option J → Option GenerationTask) → String → Action (Page N) GenerationTask
  unfolding api_fetch
  get_task task_of task_id = do
    payload ←
        api_fetch browser ("/ai/tasks/" ++ task_id)
          (record { method = get; body = no_body; skip_refresh = false })
    or_zod_error (task_of payload)

  abbrev pub stream_request : Tab → String → WebRequest
  stream_request tab path = record {
    url = browser.api_base ++ path;
    method = get;
    headers = ("accept", "text/event-stream") ∷ authorization (get_access_token tab);
    body = no_body;
  }

  -- the chunks of a body, if there is one
  unfoldable pub messages_of : Option (List String) → Action (Page N) (List SseMessage)
  unfolding read_chunks
  messages_of none = throw other
  messages_of (some chunks) = pure (read_chunks "" chunks).messages

  module _ (read_body : Response → Action N (Option (List String))) where
    unfoldable pub read_stream : Response → Action (Page N) (List SseMessage)
    unfolding messages_of
    read_stream response = do chunks ← outside (read_body response); messages_of chunks

    -- `streamEvents`, with the messages that it yields before the stream ends
    unfoldable pub stream_events : String → Action (Page N) (List SseMessage)
    unfolding read_stream
    stream_events path page =
        (do
          response ← outside (browser.fetch (stream_request page.tab path))
          if not (is_ok response) then throw other else read_stream response)
          page
