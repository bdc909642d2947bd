-- ===== src/Web/Tests.antt =====
-- A browser whose access token has expired, and a generation that it follows.
use jobilee.Prelude.{
  ℕ, suc, ◌≡◌, refl, false, none, some, List, [], ◌∷◌, ◌==◌, nat_eq, String, string_eq,
  if◌then◌else◌, trim, map, split_first,
}
use jobilee.Prelude.Text.Lines.{is_line}
use jobilee.Effect.{returned}
use jobilee.Effect.Meets.{Meets}
use jobilee.Shared.Ai.{succeeded}
use jobilee.HttpClient.{get}
use jobilee.Ai.Tasks.{TaskEvent}
use jobilee.Ai.Stream.{headers, task_event, ping, body_text}
use jobilee.Web.Sse.{read_chunks, drain, parse_event}
use jobilee.Web.Sse.Chunks.{whole, read_chunks-chunking, drain-terminates}
use jobilee.Web.Sse.Frames.{IsJson, task_message, events_of, read_chunks-body_text}
use jobilee.Web.Tokens.{Tab, set_access_token}
use jobilee.Web.Client.{
  Browser, Page, RequestOptions, no_body, send, api_fetch, refresh_access_token,
}
use jobilee.Web.Client.Bounds.{CountsRequests, AtMost, Fails, api_fetch-AtMost}

abbrev cut_text : List String
cut_text = "event: task\nda" ∷ "ta: {}\n\n: ping\n" ∷ "\nevent: x" ∷ []

sse_test :
    read_chunks "" cut_text ≡ record { messages = task_message "{}" ∷ []; buffer = "event: x" }
unfolding read_chunks drain parse_event
sse_test = refl

read_chunks-chunking_example : read_chunks "" cut_text ≡ drain (whole cut_text)
read_chunks-chunking_example = read_chunks-chunking cut_text

drain-terminates_example : split_first "\n\n" (drain "a\n\nb\n\nc").buffer ≡ none
drain-terminates_example = drain-terminates "a\n\nb\n\nc"

abbrev stringify : TaskEvent → String
stringify event = "{}"

stringify-IsJson : IsJson stringify
unfolding is_line trim
stringify-IsJson event = (refl, refl)

abbrev done_event : TaskEvent
done_event = record { task_id = "t"; status = succeeded; result = some "brief"; error = none }

read_chunks-body_text_example :
    read_chunks "" ("event: task\ndata: " ∷ "{}\n\n: ping\n\nevent: task\nd" ∷ "ata: {}\n\n" ∷ [])
    ≡ record {
      messages =
          map
            (λ e. task_message (stringify e))
            (events_of (headers ∷ task_event done_event ∷ ping ∷ task_event done_event ∷ []));
      buffer = "";
    }
unfolding whole body_text
read_chunks-body_text_example =
    read_chunks-body_text stringify stringify-IsJson
      (headers ∷ task_event done_event ∷ ping ∷ task_event done_event ∷ [])
      ("event: task\ndata: " ∷ "{}\n\n: ping\n\nevent: task\nd" ∷ "ata: {}\n\n" ∷ []) refl

-- the world is the number of requests, and the first of them finds the token expired
abbrev browser : Browser ℕ ℕ
browser = record {
  api_base = "/api";
  fetch =
      λ r n. returned (record { status = if n == 0 then 401 else 200; body_text = "7" }) (suc n);
  json = λ r n. returned 7 n;
  stringify_refresh = λ t. t;
  access_token_of = λ j. some (some "fresh");
  is_api_error = λ j. none;
}

browser-CountsRequests : CountsRequests browser (λ n. n)
browser-CountsRequests = record { fetch_law = λ r n. refl; json_law = λ r n. refl }

abbrev options : RequestOptions
options = record { method = get; body = no_body; skip_refresh = false }

abbrev tab : Tab
tab = record { access_token = some "stale"; stored = some "refresh"; storage_throws = false }

abbrev page : ℕ → Page ℕ
page n = record { tab = tab; net = n }

api_fetch-AtMost_example :
    Meets
      (api_fetch browser "/jobs" options (page 0))
      (λ _. AtMost browser (λ n. n) 3)
      (Fails browser (λ n. n) browser-CountsRequests "/jobs" options 3)
api_fetch-AtMost_example =
    api_fetch-AtMost browser (λ n. n) browser-CountsRequests "/jobs" options (page 0)

abbrev fresh_page : Page ℕ
fresh_page = record { tab = set_access_token (some "fresh") tab; net = 2 }

replay_test :
    api_fetch browser "/jobs" options (page 0) ≡ returned (some 7) (record fresh_page { net = 3 })
unfolding send refresh_access_token api_fetch
replay_test = refl
