-- ===== src/Gateway/Metrics/Accounts.antt =====
-- What the counters of the gateway add up to.
use jobilee.Prelude.{
  ℕ, zero, suc, ◌+◌, ◌≡◌, refl, sym, ap, ◌∙◌, String, List, [], ◌∷◌, ◌++◌, arith, string_eq,
}
use jobilee.Ai.Quota.{Count, nonneg}
use jobilee.Ai.Quota.Counting.{incremented, decremented}
use jobilee.Gateway.Metrics.{Entry, Metrics, bump, add_duration, observe}
use jobilee.Gateway.Metrics.Labels.{route_label}
use jobilee.Gateway.Metrics.Traffic.{
  Phase, serving, ending, finished, dropped, lost, Served, Traffic, Moment, end_called, closed,
  finish_fired, advance, at_request, Event, arrived, moment, traffic_step, traffic, no_traffic,
}

-- the sum of `requests`, and of the counts of `durations`
abbrev pub total : List (String × ℕ) → ℕ
total [] = 0
total ((k, n) ∷ rest) = n + total rest

abbrev pub timed : List (String × Entry) → ℕ
timed [] = 0
timed ((k, e) ∷ rest) = e.count + timed rest

-- one for a request that `inFlight` counts
abbrev weight : Phase → ℕ
weight serving = 1
weight ending = 1
weight lost = 1
weight finished = 0
weight dropped = 0

-- one for a request whose response is not over
abbrev pub being_served : Phase → ℕ
being_served serving = 1
being_served ending = 1
being_served lost = 0
being_served finished = 0
being_served dropped = 0

-- one for a request that was closed between `end` and `finish`
abbrev pub leaked : Phase → ℕ
leaked lost = 1
leaked serving = 0
leaked ending = 0
leaked finished = 0
leaked dropped = 0

abbrev pub done : Phase → ℕ
done finished = 1
done serving = 0
done ending = 0
done lost = 0
done dropped = 0

abbrev pub sum_of : (Phase → ℕ) → List Served → ℕ
sum_of f [] = 0
sum_of f (r ∷ rs) = f r.phase + sum_of f rs

total-bump : (key : String) (m : List (String × ℕ)) → total (bump key m) ≡ suc (total m)
unfolding bump
total-bump key [] = omega arith
total-bump key ((k, n) ∷ rest) = ground (arith, total-bump key rest)

timed-add_duration :
    (key : String) (ns : ℕ) (m : List (String × Entry))
    → timed (add_duration key ns m) ≡ suc (timed m)
unfolding add_duration
timed-add_duration key ns [] = omega arith
timed-add_duration key ns ((k, e) ∷ rest) = ground (arith, timed-add_duration key ns rest)

sum_of-append :
    (f : Phase → ℕ) (rs ss : List Served) → sum_of f (rs ++ ss) ≡ sum_of f rs + sum_of f ss
sum_of-append f [] ss = omega arith
sum_of-append f (r ∷ rs) ss = omega (arith, sum_of-append f rs ss)

-- So many requests in flight, and so many in each of the maps.
abbrev pub Balanced : ℕ → ℕ → Metrics → Type 0
Balanced k f m = (m.in_flight ≡ nonneg k) × ((total m.requests ≡ f) × (timed m.durations ≡ f))

one_less : (c : Count) (k : ℕ) → c ≡ nonneg (1 + k) → decremented c ≡ nonneg (0 + k)
one_less c k h =
    let e : 1 + k ≡ suc k = omega arith in
    let d : k ≡ 0 + k = omega arith in ap decremented (h ∙ ap nonneg e) ∙ ap nonneg d

one_more : (c : Count) (k n : ℕ) → c ≡ nonneg k → n ≡ suc k → incremented c ≡ nonneg n
one_more c k n h e = ap incremented h ∙ ap nonneg (sym e)

abbrev Kept : ℕ → ℕ → Served × Metrics → Type 0
Kept k f (r, m) = Balanced (weight r.phase + k) (done r.phase + f) m

advance-Kept :
    (p : Phase) (x : Moment) (method route : String) (m : Metrics) (k f : ℕ)
    → Balanced (weight p + k) (done p + f) m
    → Kept k f (advance p x (record { method = method; route = route; phase = p }) m)
unfolding observe
advance-Kept serving end_called method route m k f h = h
advance-Kept ending (finish_fired status ns) method route m k f h = (
  one_less m.in_flight k h.0,
  (
    omega (arith, total-bump _ m.requests, h.1.0),
    omega (arith, timed-add_duration _ ns m.durations, h.1.1),
  ),
)
advance-Kept serving closed method route m k f h = (one_less m.in_flight k h.0, h.1)
advance-Kept ending closed method route m k f h = h
advance-Kept finished closed method route m k f h = h
advance-Kept serving (finish_fired status ns) method route m k f h = h
advance-Kept ending end_called method route m k f h = h
advance-Kept finished end_called method route m k f h = h
advance-Kept finished (finish_fired status ns) method route m k f h = h
advance-Kept dropped x method route m k f h = h
advance-Kept lost x method route m k f h = h

Balanced-cong : (k l f g : ℕ) (m : Metrics) → k ≡ l → f ≡ g → Balanced k f m → Balanced l g m
Balanced-cong k l f g m e d h = (h.0 ∙ ap nonneg e, (h.1.0 ∙ d, h.1.1 ∙ d))

abbrev KeptAll : ℕ → ℕ → List Served × Metrics → Type 0
KeptAll k f (rs, m) = Balanced (sum_of weight rs + k) (sum_of done rs + f) m

at_request-KeptAll :
    (i : ℕ) (x : Moment) (rs : List Served) (m : Metrics) (k f : ℕ)
    → Balanced (sum_of weight rs + k) (sum_of done rs + f) m
    → KeptAll k f (at_request i x rs m)
unfolding at_request
at_request-KeptAll i x [] m k f h = h
at_request-KeptAll zero x (r ∷ rs) m k f h =
    let (r', m') = advance r.phase x r m in
    Balanced-cong (weight r'.phase + (sum_of weight rs + k))
      (weight r'.phase + sum_of weight rs + k) (done r'.phase + (sum_of done rs + f))
      (done r'.phase + sum_of done rs + f) m' (omega arith) (omega arith)
      (advance-Kept r.phase x r.method r.route m (sum_of weight rs + k) (sum_of done rs + f) (
        Balanced-cong (sum_of weight (r ∷ rs) + k) (weight r.phase + (sum_of weight rs + k))
          (sum_of done (r ∷ rs) + f) (done r.phase + (sum_of done rs + f)) m (omega arith)
          (omega arith) h))
at_request-KeptAll (suc i) x (r ∷ rs) m k f h =
    let (rs', m') = at_request i x rs m in
    Balanced-cong (sum_of weight rs' + (weight r.phase + k))
      (weight r.phase + sum_of weight rs' + k) (sum_of done rs' + (done r.phase + f))
      (done r.phase + sum_of done rs' + f) m' (omega arith) (omega arith)
      (at_request-KeptAll i x rs m (weight r.phase + k) (done r.phase + f) (
        Balanced-cong (sum_of weight (r ∷ rs) + k) (sum_of weight rs + (weight r.phase + k))
          (sum_of done (r ∷ rs) + f) (sum_of done rs + (done r.phase + f)) m (omega arith)
          (omega arith) h))

abbrev IsBalanced : Traffic → Type 0
IsBalanced t = Balanced (sum_of weight t.served) (sum_of done t.served) t.metrics

weight-phase : (p : Phase) → weight p ≡ being_served p + leaked p
weight-phase serving = omega arith
weight-phase ending = omega arith
weight-phase finished = omega arith
weight-phase dropped = omega arith
weight-phase lost = omega arith

weight-split : (rs : List Served) → sum_of weight rs ≡ sum_of being_served rs + sum_of leaked rs
weight-split [] = omega arith
weight-split (r ∷ rs) = omega (arith, weight-phase r.phase, weight-split rs)

-- The gauge and the counts against the requests.
abbrev pub IsAccounted : Traffic → Type 0
IsAccounted t =
    (t.metrics.in_flight ≡ nonneg (sum_of being_served t.served + sum_of leaked t.served))
    × (sum_of leaked t.served ≡ 0 → t.metrics.in_flight ≡ nonneg (sum_of being_served t.served))
    × (total t.metrics.requests ≡ sum_of done t.served)
    × (timed t.metrics.durations ≡ sum_of done t.served)

module _ (print : List ℕ → String) where
  traffic_step-IsBalanced :
      (t : Traffic) (e : Event) → IsBalanced t → IsBalanced (traffic_step print t e)
  unfolding traffic_step
  traffic_step-IsBalanced t (arrived method path) h =
      let r : Served = record {
        method = method;
        route = print (route_label path);
        phase = serving;
      } in
      (
        one_more t.metrics.in_flight (sum_of weight t.served) _ h.0
            (omega (arith, sum_of-append weight t.served (r ∷ []))),
        (
          omega (arith, sum_of-append done t.served (r ∷ []), h.1.0),
          omega (arith, sum_of-append done t.served (r ∷ []), h.1.1),
        ),
      )
  traffic_step-IsBalanced t (moment i x) h =
      let (rs, m) = at_request i x t.served t.metrics in
      Balanced-cong (sum_of weight rs + 0) (sum_of weight rs) (sum_of done rs + 0) (sum_of done rs)
        m (omega arith) (omega arith)
        (at_request-KeptAll i x t.served t.metrics 0 0 (
          Balanced-cong (sum_of weight t.served) (sum_of weight t.served + 0) (sum_of done t.served)
            (sum_of done t.served + 0) t.metrics (omega arith) (omega arith) h))

  traffic-keeps : (es : List Event) (t : Traffic) → IsBalanced t → IsBalanced (traffic print t es)
  unfolding traffic
  traffic-keeps [] t h = h
  traffic-keeps (e ∷ es) t h =
      traffic-keeps es (traffic_step print t e) (traffic_step-IsBalanced t e h)

  -- After any requests, and any order in which they end, finish and close, the gauge of requests in
  -- flight exceeds the number of requests that are being served by exactly those that were closed
  -- between `end` and `finish`, so it is that number if there was none of these; and the counts of
  -- `requests`, and those of `durations`, each add up to the finished requests.
  pub traffic-IsAccounted : (es : List Event) → IsAccounted (traffic print no_traffic es)
  traffic-IsAccounted es =
      let t = traffic print no_traffic es in
      let h = traffic-keeps es no_traffic (refl, (refl, refl)) in
      let e : t.metrics.in_flight ≡ nonneg (sum_of being_served t.served + sum_of leaked t.served) =
        h.0 ∙ ap nonneg (weight-split t.served) in
      (e, (λ none_leaked. e ∙ ap nonneg (omega (arith, none_leaked))), h.1.0, h.1.1)
