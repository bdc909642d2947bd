-- ===== src/Gateway/Metrics/Tests.antt =====
-- Two requests, one of which is closed between `end` and `finish`.
use jobilee.Prelude.{ℕ, String, ◌≡◌, refl, List, [], ◌∷◌, codes}
use jobilee.Ai.Quota.{nonneg}
use jobilee.Gateway.Metrics.{render, observe}
use jobilee.Gateway.Metrics.Labels.{route_label}
use jobilee.Gateway.Metrics.Traffic.{
  Event, arrived, moment, end_called, closed, finish_fired, traffic, no_traffic,
}
use jobilee.Gateway.Metrics.Accounts.{IsAccounted, traffic-IsAccounted}

label_test :
    route_label (codes "/api/jobs/0a1b2c3d-0000-4000-8000-00000000abCD/stage/12/x1")
    ≡ codes "/api/jobs/:id/stage/:n/x1"
unfolding route_label
label_test = refl

render_test :
    render (λ ns. "1.5") 2500 (observe "/api" "GET" 200 1500000 no_traffic.metrics)
    ≡ "# HELP jobilee_gateway_requests_total Requests handled, by method, route and status.\n# TYPE jobilee_gateway_requests_total counter\njobilee_gateway_requests_total{method=\"GET\",route=\"/api\",status=\"200\"} 1\n# HELP jobilee_gateway_request_duration_ms_sum Total request time in milliseconds.\n# TYPE jobilee_gateway_request_duration_ms_sum counter\njobilee_gateway_request_duration_ms_sum{method=\"GET\",route=\"/api\"} 1.5\njobilee_gateway_request_duration_ms_count{method=\"GET\",route=\"/api\"} 1\n# HELP jobilee_gateway_requests_in_flight Requests currently being served.\n# TYPE jobilee_gateway_requests_in_flight gauge\njobilee_gateway_requests_in_flight 0\n# HELP jobilee_gateway_uptime_seconds Seconds since the gateway started.\n# TYPE jobilee_gateway_uptime_seconds gauge\njobilee_gateway_uptime_seconds 2\n"
unfolding render observe
render_test = refl

abbrev events : List Event
events =
    arrived "GET" (codes "/api/jobs/1")
    ∷ arrived "POST" (codes "/api/ai/tasks")
    ∷ moment 0 end_called
    ∷ moment 0 (finish_fired 200 1500000)
    ∷ moment 1 end_called
    ∷ moment 1 closed
    ∷ moment 0 closed
    ∷ []

abbrev print : List ℕ → String
print path = "label"

-- The request that was lost stays in flight.
lost_test : (traffic print no_traffic events).metrics.in_flight ≡ nonneg 1
unfolding traffic
lost_test = refl

traffic-IsAccounted_example : IsAccounted (traffic print no_traffic events)
traffic-IsAccounted_example = traffic-IsAccounted print events
