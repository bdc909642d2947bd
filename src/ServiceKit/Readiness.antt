-- ===== src/ServiceKit/Readiness.antt =====
-- services/*/src/health/health.controller.ts of the services behind the gateway, and the probes that
-- they call: `isReachable` of PrismaService, QuotaService and StorageService.
use jobilee.Prelude.{
  ℕ, ◌/◌, ◌≡◌, ◌↔◌, arith, refl, String, Bool, true, false, ◌&&◌, none, some, List, ◌==◌, string_eq,
  [], ◌∷◌, if◌then◌else◌,
}
use jobilee.Effect.{Outcome, Action, returned, threw, pure, catch, ◌>>=◌}
use jobilee.Effect.Meets.{Meets, Meets-bind}
use jobilee.Gateway.Health.{Health, healthy, failing}

-- `health`, at an uptime in milliseconds
abbrev pub alive : String → ℕ → Health
alive service uptime = record {
  status = healthy;
  service = service;
  uptime_seconds = uptime / 1000;
  checks = none;
}

abbrev report : String → ℕ → Bool → List (String × Bool) → Health
report service uptime ok checks = record {
  status = if ok then healthy else failing;
  service = service;
  uptime_seconds = uptime / 1000;
  checks = some checks;
}

status_lem :
    (service : String) (uptime : ℕ) (a b : Bool) (checks : List (String × Bool))
    → ((report service uptime (a && b) checks).status ≡ healthy) ↔ ((a ≡ true) × (b ≡ true))
status_lem service uptime a b checks = ground arith

module _ {W : Type 0} where
  -- `isReachable` of PrismaService and StorageService: `ping` is `SELECT 1` or the HEAD of the bucket
  unfoldable pub is_reachable : Action W (Unit {0}) → Action W Bool
  is_reachable ping = catch (do _ ← ping; pure true) (λ _. pure false)

  -- `isReachable` of QuotaService, for Redis's PING
  unfoldable pub redis_is_reachable : Action W String → Action W Bool
  redis_is_reachable ping = catch (do answer ← ping; pure (answer == "PONG")) (λ _. pure false)

  -- `ready` of auth-service and jobs-service
  unfoldable pub ready_on_database : String → ℕ → Action W (Unit {0}) → Action W Health
  unfolding is_reachable
  ready_on_database service uptime database = do
    db_ok ← is_reachable database
    pure (report service uptime db_ok (("database", db_ok) ∷ []))

  -- `ready` of ai-service and resume-service, whose second dependency is called `name`; the probes run
  -- at the same time and do not depend on each other
  unfoldable pub ready_on_both :
      String → String → ℕ → Action W (Unit {0}) → Action W Bool → Action W Health
  unfolding is_reachable
  ready_on_both service name uptime database second = do
    db_ok ← is_reachable database
    second_ok ← second
    pure (report service uptime (db_ok && second_ok) (("database", db_ok) ∷ (name, second_ok) ∷ []))

  abbrev pub auth_ready : ℕ → Action W (Unit {0}) → Action W Health
  auth_ready = ready_on_database "auth-service"

  abbrev pub jobs_ready : ℕ → Action W (Unit {0}) → Action W Health
  jobs_ready = ready_on_database "jobs-service"

  abbrev pub ai_ready : ℕ → Action W (Unit {0}) → Action W String → Action W Health
  ai_ready uptime database ping =
      ready_on_both "ai-service" "redis" uptime database (redis_is_reachable ping)

  abbrev pub resume_ready : ℕ → Action W (Unit {0}) → Action W (Unit {0}) → Action W Health
  resume_ready uptime database head_bucket =
      ready_on_both "resume-service" "storage" uptime database (is_reachable head_bucket)

  -- A probe answers whether its ping returned, and never throws.
  abbrev HasReturned : {A : Type 0} → Outcome W A → Bool → Type 0
  HasReturned (returned a w) b = b ≡ true
  HasReturned (threw e w) b = b ≡ false

  is_reachable_lem :
      (ping : Action W (Unit {0})) (w : W)
      → Meets (is_reachable ping w) (λ b _. HasReturned (ping w) b) (λ _ _. ⊥)
  unfolding is_reachable
  is_reachable_lem ping w = answered (ping w)
    where
      answered :
          (o : Outcome W (Unit {0}))
          → Meets (is_reachable (λ _. o) w) (λ b _. HasReturned o b) (λ _ _. ⊥)
      answered (returned a w') = refl
      answered (threw e w') = refl

  -- Readiness never throws if the second probe does not. It is ok just when both checks are, and the one of the database says
  -- whether its ping returned.
  pub ready_on_both_lem :
      (service name : String) (uptime : ℕ) (database : Action W (Unit {0})) (second : Action W Bool)
      (w : W)
      → ((v : W) → Meets (second v) (λ _ _. Unit) (λ _ _. ⊥))
      → Meets
          (ready_on_both service name uptime database second w)
          (λ h _.
            (db_ok second_ok : Bool) × (h.checks
              ≡ some (("database", db_ok) ∷ (name, second_ok) ∷ []))
            × ((h.status ≡ healthy) ↔ ((db_ok ≡ true) × (second_ok ≡ true)))
            × HasReturned (database w) db_ok)
          (λ _ _. ⊥)
  unfolding ready_on_both
  ready_on_both_lem service name uptime database second w never =
      Meets-bind (is_reachable database) _ w (λ b _. HasReturned (database w) b) _ (λ _ _. ⊥)
        (is_reachable_lem database w)
        (λ a w' ha.
          Meets-bind second _ w' (λ b _. Unit) _ (λ _ _. ⊥) (never w')
            (λ b w'' _.
              (a, b, refl, status_lem service uptime a b (("database", a) ∷ (name, b) ∷ []), ha)))
