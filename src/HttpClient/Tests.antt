-- ===== src/HttpClient/Tests.antt =====
-- The client against a service that is down for its first answer.
use jobilee.Prelude.{ℕ, suc, refl, false, none, some, [], ◌==◌, nat_eq, if◌then◌else◌}
use jobilee.Effect.{returned}
use jobilee.HttpClient.{Network, CallOptions, FetchRequest, get, post, run}
use jobilee.Effect.Meets.{Meets}
use jobilee.HttpClient.Bounds.{CountsFetches, FetchesAtMost, FailsAsHttp, run-FetchesAtMost}

-- the world is the number of fetches
abbrev network : Network ℕ ℕ
network = record {
  fetch =
      λ r w. returned (record { status = if w == 0 then 503 else 200; body_text = "{}" }) (suc w);
  text = λ r w. returned r.body_text w;
  json_parse = λ s. some 0;
  api_error_schema = λ b. none;
  sleep = λ ms w. returned tt w;
  aborted = λ w. false;
  message_of = λ e. "failed";
}

network-CountsFetches :
    (opts : CallOptions ℕ ℕ) (request : FetchRequest) → CountsFetches network opts request (λ w. w)
network-CountsFetches opts request = record {
  fetch_law = λ r w. refl;
  text_law = λ r w. refl;
  sleep_law = λ ms w. (w, refl, refl);
}

abbrev opts : ℕ → CallOptions ℕ ℕ
opts n = record {
  name = "jobs";
  path = "/jobs";
  retry_base_ms = 200;
  max_attempts = n;
  schema = none;
}

abbrev reading : FetchRequest
reading = record { url = "http://jobs:3002/jobs"; method = get; headers = []; payload = none }

abbrev writing : FetchRequest
writing = record { url = "http://jobs:3002/jobs"; method = post; headers = []; payload = some "{}" }

run-FetchesAtMost_example :
    Meets
      (run network (opts 3) reading 0)
      (FetchesAtMost network (opts 3) reading (λ w. w) (network-CountsFetches (opts 3) reading) 3 0)
      (FailsAsHttp network (opts 3) reading (λ w. w) (network-CountsFetches (opts 3) reading) 3 0)
run-FetchesAtMost_example =
    run-FetchesAtMost network (opts 3) reading (λ w. w) (network-CountsFetches (opts 3) reading) 0
