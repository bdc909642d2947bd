-- ===== src/Gateway/Metrics/Traffic.antt =====
-- services/gateway/src/middleware/observability.ts, `createAccessLog`: what it does to the counters as
-- requests come, finish and close. The lines of the log are left out.
use jobilee.Prelude.{
  ℕ, zero, suc, String, Bool, true, false, List, [], ◌∷◌, ◌++◌ as append, if◌then◌else◌,
}
use jobilee.Ai.Quota.{nonneg}
use jobilee.Gateway.Metrics.{Metrics, observe, enter, leave}
use jobilee.Gateway.Metrics.Labels.{route_label}

-- How far a request has come: being answered, its response handed over by `end` but not sent, sent,
-- closed before `end`, or closed between `end` and `finish`.
pub data Phase : Type 0 where
  serving ending finished dropped lost : Phase

-- what the access log's closure keeps
pub record Served : Type 0 where
  pub method : String
  pub route : String
  pub phase : Phase

pub record Traffic : Type 0 where
  pub metrics : Metrics
  pub served : List Served

abbrev pub to_phase : Phase → Served → Served
to_phase p r = record r { phase = p }

-- the listener of `finish`, which Node calls once, after `end`
abbrev pub finish_metrics : Served → ℕ → ℕ → Metrics → Metrics
unfolding observe
finish_metrics r status ns m = observe r.route r.method status ns (leave m)

-- the listener of `close`, where `ended` is `res.writableEnded`
abbrev pub close_metrics : Bool → Metrics → Metrics
close_metrics ended m = if ended then m else leave m

-- what happens to a request: `res.end()`, `finish` with a status and a duration, `close`
pub data Moment : Type 0 where
  end_called closed : Moment
  finish_fired : ℕ → ℕ → Moment

-- a moment in a phase; what cannot come in a phase changes nothing
abbrev pub advance : Phase → Moment → Served → Metrics → Served × Metrics
unfolding finish_metrics
advance serving end_called r m = (to_phase ending r, m)
advance ending (finish_fired status ns) r m = (to_phase finished r, finish_metrics r status ns m)
advance serving closed r m = (to_phase dropped r, close_metrics false m)
advance ending closed r m = (to_phase lost r, close_metrics true m)
advance finished closed r m = (r, close_metrics true m)
advance serving (finish_fired status ns) r m = (r, m)
advance ending end_called r m = (r, m)
advance finished end_called r m = (r, m)
advance finished (finish_fired status ns) r m = (r, m)
advance dropped moment r m = (r, m)
advance lost moment r m = (r, m)

-- a moment of the request with a number
unfoldable pub at_request : ℕ → Moment → List Served → Metrics → List Served × Metrics
unfolding advance
at_request i moment [] m = ([], m)
at_request zero moment (r ∷ rs) m = let (r', m') = advance r.phase moment r m in (r' ∷ rs, m')
at_request (suc i) moment (r ∷ rs) m = let (rs', m') = at_request i moment rs m in (r ∷ rs', m')

pub data Event : Type 0 where
  -- `accessLog` is called with a method and a path
  arrived : String → List ℕ → Event
  moment : ℕ → Moment → Event

-- `accessLog`, where the path's label is printed, and the listeners that it registers
unfoldable pub traffic_step : (List ℕ → String) → Traffic → Event → Traffic
unfolding at_request route_label
traffic_step print t (arrived method path) = record {
  metrics = enter t.metrics;
  served =
      append t.served
        (record { method = method; route = print (route_label path); phase = serving } ∷ []);
}
traffic_step print t (moment i x) =
    let (rs, m) = at_request i x t.served t.metrics in record { metrics = m; served = rs }

unfoldable pub traffic : (List ℕ → String) → Traffic → List Event → Traffic
unfolding traffic_step
traffic print t [] = t
traffic print t (e ∷ es) = traffic print (traffic_step print t e) es

abbrev pub no_traffic : Traffic
no_traffic = record {
  metrics = record { requests = []; durations = []; in_flight = nonneg 0 };
  served = [];
}
