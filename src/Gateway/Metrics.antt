-- ===== src/Gateway/Metrics.antt =====
-- services/gateway/src/middleware/observability.ts: the counters. Durations are in nanoseconds, as
-- `hrtime` gives them.
pub mod Labels
pub mod Traffic
pub mod Accounts
mod Tests
use Prim.Native.String.{◌++◌}
use jobilee.Prelude.{
  ℕ, zero, suc, ◌+◌, ◌/◌, ◌^◌, String, Bool, true, false, ◌&&◌, ◌||◌, Option, none, some, List, [],
  ◌∷◌, ◌++◌ as append, map, ltb, leb, show, ◌==◌, nat_eq, string_eq, if◌then◌else◌, codes, join,
  split_on,
}
use jobilee.Ai.Quota.{Count, nonneg, below}
use jobilee.Ai.Quota.Counting.{incremented, decremented}

-- a value of `durations`
pub record Entry : Type 0 where
  pub count : ℕ
  pub sum_ns : ℕ

-- the maps in the order of their insertion
pub record Metrics : Type 0 where
  pub requests : List (String × ℕ)
  pub durations : List (String × Entry)
  pub in_flight : Count

-- `requests.set(key, (requests.get(key) ?? 0) + 1)`
unfoldable pub bump : String → List (String × ℕ) → List (String × ℕ)
bump key [] = (key, 1) ∷ []
bump key ((k, n) ∷ rest) =
    let bumped = bump key rest in if k == key then (k, suc n) ∷ rest else (k, n) ∷ bumped

-- `entry.count += 1; entry.sumMs += durationMs`
unfoldable pub add_duration : String → ℕ → List (String × Entry) → List (String × Entry)
add_duration key ns [] = (key, record { count = 1; sum_ns = ns }) ∷ []
add_duration key ns ((k, e) ∷ rest) =
    let added = add_duration key ns rest in
    if k == key
    then (k, record { count = suc e.count; sum_ns = e.sum_ns + ns }) ∷ rest
    else (k, e) ∷ added

unfoldable pub observe : String → String → ℕ → ℕ → Metrics → Metrics
unfolding bump add_duration
observe route method status ns m = record {
  requests = bump (method ++ ("|" ++ (route ++ ("|" ++ show status)))) m.requests;
  durations = add_duration (method ++ ("|" ++ route)) ns m.durations;
  in_flight = m.in_flight;
}

abbrev pub enter : Metrics → Metrics
enter m = record m { in_flight = incremented m.in_flight }

abbrev pub leave : Metrics → Metrics
leave m = record m { in_flight = decremented m.in_flight }

-- an element of a destructured array; JavaScript prints a missing one so
abbrev pub part : ℕ → List String → String
part n [] = "undefined"
part zero (s ∷ ss) = s
part (suc n) (s ∷ ss) = part n ss

abbrev pub label : String → String → String
label name value = name ++ ("=\"" ++ (value ++ "\""))

abbrev pub show_count : Count → String
show_count (nonneg n) = show n
show_count (below n) = "-" ++ show (suc n)

abbrev pub request_line : String × ℕ → String
request_line (key, n) =
    let parts = split_on b'|' key in
    "jobilee_gateway_requests_total{"
    ++ (label "method" (part 0 parts)
        ++ (","
            ++ (label "route" (part 1 parts)
                ++ ("," ++ (label "status" (part 2 parts) ++ ("} " ++ show n))))))

abbrev pub duration_labels : String → String
duration_labels key =
    let parts = split_on b'|' key in
    "{" ++ (label "method" (part 0 parts) ++ ("," ++ (label "route" (part 1 parts) ++ "} ")))

abbrev pub duration_lines : (ℕ → String) → List (String × Entry) → List String
duration_lines show_ms [] = []
duration_lines show_ms ((key, e) ∷ rest) =
    ("jobilee_gateway_request_duration_ms_sum" ++ (duration_labels key ++ show_ms e.sum_ns))
    ∷ ("jobilee_gateway_request_duration_ms_count" ++ (duration_labels key ++ show e.count))
    ∷ duration_lines show_ms rest

-- `render`; `show_ms` prints a duration as JavaScript prints its milliseconds, a number with a
-- fraction, and the time since the start is in milliseconds
unfoldable pub render : (ℕ → String) → ℕ → Metrics → String
unfolding split_on show join
render show_ms since_start m =
    join "\n" (
      append
        ("# HELP jobilee_gateway_requests_total Requests handled, by method, route and status."
          ∷ "# TYPE jobilee_gateway_requests_total counter"
          ∷ map request_line m.requests)
        (append
          ("# HELP jobilee_gateway_request_duration_ms_sum Total request time in milliseconds."
            ∷ "# TYPE jobilee_gateway_request_duration_ms_sum counter"
            ∷ duration_lines show_ms m.durations)
          ("# HELP jobilee_gateway_requests_in_flight Requests currently being served."
            ∷ "# TYPE jobilee_gateway_requests_in_flight gauge"
            ∷ ("jobilee_gateway_requests_in_flight " ++ show_count m.in_flight)
            ∷ "# HELP jobilee_gateway_uptime_seconds Seconds since the gateway started."
            ∷ "# TYPE jobilee_gateway_uptime_seconds gauge"
            ∷ ("jobilee_gateway_uptime_seconds " ++ show (since_start / 1000))
            ∷ [])))
    ++ "\n"
