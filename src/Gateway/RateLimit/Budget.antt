-- ===== src/Gateway/RateLimit/Budget.antt =====
-- How many requests a window lets through.
use text.Mathlib.Text.{starts_with as text_starts_with}
use jobilee.Prelude.{
  ℕ, suc, ◌+◌, ◌-◌, min, String, ◌≡◌, ◌≢◌, ap, ◌∙◌, subst, ltb, Bool, true, List, [], ◌∷◌, All,
  arith, eq_iff, ◌==◌, string_eq, if◌then◌else◌,
}
use jobilee.Effect.{Action, Outcome, returned, threw, after, catch, ◌>>=◌}
use jobilee.Redis.{Increments}
use jobilee.Gateway.Config.{Config}
use jobilee.Gateway.Identity.{Exchange, Step, next, respond}
use jobilee.Gateway.RateLimit.{Clock, Charge, charge_of, enforce, rate_limit}
use jobilee.Gateway.RateLimit.Keys.{limit_of_key}

-- A request and the clock readings that it meets.
abbrev pub Arrival : Type 0
Arrival = Clock × Exchange

abbrev passed : Step → ℕ
passed (next x) = 1
passed (respond status body x) = 0

abbrev pub IsUnderApi : Arrival → Type 0
IsUnderApi (clock, x) = text_starts_with x.request.path "/api/" ≡ true

module _ (config : Config) (key : String) where
  abbrev pub charged_to : Arrival → Bool
  charged_to (clock, x) = (charge_of config clock.at_start x.request).key == key

  -- requests that are charged to `key`
  pub charged : List Arrival → ℕ
  charged [] = 0
  charged (a ∷ rest) = if charged_to a then suc (charged rest) else charged rest

module _ {W : Type 0} (incr_expire : String → ℕ → Action W ℕ) (config : Config) (key : String) where
  abbrev passed_of : Arrival → Outcome W Step → ℕ
  passed_of a (returned step w) = if charged_to config key a then passed step else 0
  passed_of a (threw e w) = 0

  -- requests charged to `key` that the rate limiter lets through, when it meets the arrivals in turn
  pub let_through : List Arrival → W → ℕ
  let_through [] w = 0
  let_through ((clock, x) ∷ rest) w =
      let o = rate_limit incr_expire config clock x w in
      passed_of (clock, x) o + let_through rest (after o)

passed-enforce :
    (config : Config) (clock : Clock) (charge : Charge) (x : Exchange) (used : ℕ)
    → passed (enforce config clock charge x used) ≡ (if ltb charge.limit used then 0 else 1)
unfolding enforce
passed-enforce config clock charge x used = ground arith

module _ {W : Type 0} (count : W → String → ℕ) (incr_expire : String → ℕ → Action W ℕ)
    (increments : (k : String) (s : ℕ) (w : W) → Increments count k w (incr_expire k s w))
    (answers : (k : String) (s : ℕ) (w : W)
      → (n : ℕ) × (w' : W) × (incr_expire k s w ≡ returned n w'))
    (config : Config) where
  counted :
      (k : String) (s : ℕ) (w : W)
      → (w' : W) × (incr_expire k s w ≡ returned (suc (count w k)) w')
        × (count w' k ≡ suc (count w k))
        × ((j : String) → j ≢ k → count w' j ≡ count w j)
  counted k s w =
      let (n, w', e) = answers k s w in
      let (new, stored, others) = subst (Increments count k w) e (increments k s w) in
      (w', e ∙ ap (λ m. returned m w') new, stored ∙ new, others)

  -- one request under the API meets the counter of its key
  rate_limit-counted :
      (clock : Clock) (x : Exchange) (w w' : W)
      → IsUnderApi (clock, x)
      → incr_expire
          (charge_of config clock.at_start x.request).key
          config.rate_limit_window_seconds
          w
        ≡ returned (suc (count w (charge_of config clock.at_start x.request).key)) w'
      → rate_limit incr_expire config clock x w
        ≡ returned
            (enforce config clock
              (charge_of config clock.at_start x.request)
              x
              (suc (count w (charge_of config clock.at_start x.request).key)))
            w'
  unfolding rate_limit
  rate_limit-counted clock x w w' under e = rw (under, e, catch, ◌>>=◌)

  -- While Redis answers, and whatever other traffic comes between, the requests charged to one key
  -- in its window that pass are as many as came, or as many as the limit had left.
  pub let_through-min :
      (clock₀ : Clock) (x₀ : Exchange) (arrivals : List Arrival) (w : W)
      → All IsUnderApi arrivals
      → let charge = charge_of config clock₀.at_start x₀.request in
        let_through incr_expire config charge.key arrivals w
        ≡ min (charged config charge.key arrivals) (charge.limit - count w charge.key)
  unfolding let_through charged
  let_through-min clock₀ x₀ [] w h = omega arith
  let_through-min clock₀ x₀ ((clock, x) ∷ rest) w (under, h) =
      let (w', e, stored, others) =
        counted (charge_of config clock.at_start x.request).key config.rate_limit_window_seconds
          w in
      let ih = let_through-min clock₀ x₀ rest w' h in
      rw (rate_limit-counted clock x w w' under e) (
        ground (
          arith,
          eq_iff (charge_of config clock.at_start x.request).key
              (charge_of config clock₀.at_start x₀.request).key,
          passed-enforce config clock (charge_of config clock.at_start x.request) x
              (suc (count w (charge_of config clock.at_start x.request).key)),
          limit_of_key config clock.at_start clock₀.at_start x.request x₀.request,
          others (charge_of config clock₀.at_start x₀.request).key,
        ))
