-- ===== src/Gateway/Routes.antt =====
-- services/gateway/src/routes.ts: public endpoints and the table of proxied prefixes.
use jobilee.Prelude.{
  String, Bool, true, false, ◌&&◌, Option, none, some, List, [], ◌∷◌, map, any, codes, codes_eq,
  to_upper, ◌==◌, string_eq,
}
use jobilee.Gateway.Config.{Config}

pub record RouteDef : Type 0 where
  pub prefix : String
  pub target : String
  pub rewrite_to : String
  pub long_lived : Bool

pub record Endpoint : Type 0 where
  pub method : String
  pub path : String

-- `PUBLIC_ROUTES`
abbrev pub public_routes : List Endpoint
public_routes =
    record { method = "POST"; path = "/api/auth/register" }
    ∷ record { method = "POST"; path = "/api/auth/login" }
    ∷ record { method = "POST"; path = "/api/auth/refresh" }
    ∷ []

-- The method is compared in upper case; a method has ASCII letters only.
unfoldable pub is_public_route : String → String → Bool
unfolding to_upper
is_public_route method path =
    any (λ route. codes_eq (codes route.method) (map to_upper (codes method)) && route.path == path)
      public_routes

-- A route for a service whose URL is configured; an empty URL was parsed as a missing one.
abbrev pub optional_route : Option String → String → String → Bool → List RouteDef → List RouteDef
optional_route none prefix rewrite_to long_lived rest = rest
optional_route (some url) prefix rewrite_to long_lived rest =
    record { prefix = prefix; target = url; rewrite_to = rewrite_to; long_lived = long_lived }
    ∷ rest

unfoldable pub build_routes : Config → List RouteDef
build_routes config =
    record {
      prefix = "/api/auth";
      target = config.auth_service_url;
      rewrite_to = "/auth";
      long_lived = false;
    }
    ∷ optional_route config.jobs_service_url "/api/jobs" "/jobs" false (
        optional_route config.resume_service_url "/api/resume" "/resume" false
          (optional_route config.ai_service_url "/api/ai" "/ai" true []))
