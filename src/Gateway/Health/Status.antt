-- ===== src/Gateway/Health/Status.antt =====
-- What readiness tells of the services.
use jobilee.Prelude.{
  ℕ, suc, ◌≡◌, ◌↔◌, ◌≤◌, ◌<◌, refl, ap, Bool-cases, inl, inr, String, Bool, true, false, Option,
  List, [], ◌∷◌, map, filter, length, All, arith, nat_eq,
}
use jobilee.Gateway.Config.{Config}
use jobilee.Gateway.Routes.{RouteDef, build_routes}
use jobilee.Gateway.Health.{healthy, failing, check, is_healthy, overall, ready}

module _ (probe : RouteDef → Option Bool) where
  abbrev result : RouteDef → String × Bool
  result route = (route.prefix, check (probe route))

  abbrev up : List RouteDef → ℕ
  up routes = length (filter is_healthy (map result routes))

  abbrev pub IsUp : RouteDef → Type 0
  IsUp route = check (probe route) ≡ true

  abbrev pub IsDown : RouteDef → Type 0
  IsDown route = check (probe route) ≡ false

  up-le : (routes : List RouteDef) → up routes ≤ length (map result routes)
  up-le [] = omega arith
  up-le (r ∷ rs) = ground (arith, up-le rs)

  every_up : (routes : List RouteDef) → (up routes ≡ length (map result routes)) ↔ All IsUp routes
  every_up [] = ((λ _. tt), (λ _. refl))
  every_up (r ∷ rs) = elim (Bool-cases (check (probe r))) [
    | inl e ↦
        rw e ((λ h. (refl, (every_up rs).0 (omega arith))), (λ h. ap suc ((every_up rs).1 h.1)))
    | inr e ↦ rw e ((λ h. absurd (omega (arith, up-le rs))), (λ h. absurd (ground arith)))
  ]

  no_service_up : (routes : List RouteDef) → (up routes ≡ 0) ↔ All IsDown routes
  no_service_up [] = ((λ _. tt), (λ _. refl))
  no_service_up (r ∷ rs) = elim (Bool-cases (check (probe r))) [
    | inl e ↦ rw e ((λ h. absurd (omega arith)), (λ h. absurd (ground arith)))
    | inr e ↦ rw e ((λ h. (refl, (no_service_up rs).0 h)), (λ h. (no_service_up rs).1 h.1))
  ]

  overall-healthy : (u n : ℕ) → (overall u n ≡ healthy) ↔ (u ≡ n)
  unfolding overall
  overall-healthy u n = ground arith

  overall-failing : (u n : ℕ) → 0 < n → u ≤ n → (overall u n ≡ failing) ↔ (u ≡ 0)
  unfolding overall
  overall-failing u n h k = ground arith

  -- Readiness is `ok` just when every configured service answers its probe with an ok response,
  -- `error` just when none does, and else `degraded`.
  pub ready-status :
      (config : Config) (uptime : ℕ)
      → (((ready probe config uptime).status ≡ healthy) ↔ All IsUp (build_routes config))
        × (((ready probe config uptime).status ≡ failing) ↔ All IsDown (build_routes config))
  unfolding ready build_routes
  ready-status config uptime =
      let routes = build_routes config in
      let a = every_up routes in
      let b = no_service_up routes in
      let c = overall-healthy (up routes) (length (map result routes)) in
      let d =
        overall-failing (up routes) (length (map result routes)) (omega arith) (up-le routes) in
      (((λ h. a.0 (c.0 h)), (λ h. c.1 (a.1 h))), ((λ h. b.0 (d.0 h)), (λ h. d.1 (b.1 h))))
