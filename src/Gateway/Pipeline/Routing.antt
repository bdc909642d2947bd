-- ===== src/Gateway/Pipeline/Routing.antt =====
-- Which service gets a request, and under which path.
use Prim.Native.String.{◌++◌}
use jobilee.Prelude.{
  String, ◌≡◌, refl, sym, subst, ap, ◌∙◌, ◌⊎◌, Bool, true, false, Option, none, some, List, [], ◌∷◌,
  strip_prefix, arith, size,
}
use jobilee.Prelude.Text.Split.{strip_prefix-append_none, strip_prefix-longer}
use jobilee.Gateway.Config.{Config}
use jobilee.Gateway.Routes.{RouteDef, build_routes, optional_route}
use jobilee.Gateway.Identity.{Exchange}
use jobilee.Gateway.Pipeline.PlainPath.{is_plain, is_plain-append}
use jobilee.Gateway.Pipeline.{Forwarded, Reply, forwarded, Proxy, forward, glob, dispatch}

-- the services behind the gateway
pub data Owner : Type 0 where
  auth jobs resume ai : Owner

abbrev pub prefix_of : Owner → String
prefix_of auth = "/api/auth"
prefix_of jobs = "/api/jobs"
prefix_of resume = "/api/resume"
prefix_of ai = "/api/ai"

-- the path that a service serves
abbrev pub root_of : Owner → String
root_of auth = "/auth"
root_of jobs = "/jobs"
root_of resume = "/resume"
root_of ai = "/ai"

abbrev pub url_of : Config → Owner → Option String
url_of config auth = some config.auth_service_url
url_of config jobs = config.jobs_service_url
url_of config resume = config.resume_service_url
url_of config ai = config.ai_service_url

-- What follows a prefix is nothing or starts a segment.
abbrev pub IsSegment : String → Type 0
IsSegment rest = (rest ≡ "") ⊎ ((more : String) × (rest ≡ "/" ++ more))

-- The proxy library's globs and rewrites on plain paths: `prefix/**` matches the prefix and the paths
-- below it, and none that does not start with the prefix.
pub record IsProxy (proxy : Proxy) : Type 0 where
  pub matches :
      (prefix rest : String)
      → is_plain prefix ≡ true
      → is_plain rest ≡ true
      → IsSegment rest
      → proxy.path_filter (prefix ++ "/**") (prefix ++ rest) ≡ true
  pub misses :
      (prefix path : String)
      → is_plain prefix ≡ true
      → is_plain path ≡ true
      → strip_prefix prefix path ≡ none
      → proxy.path_filter (prefix ++ "/**") path ≡ false
  pub rewrites :
      (prefix to rest : String)
      → is_plain prefix ≡ true
      → is_plain to ≡ true
      → is_plain rest ≡ true
      → proxy.path_rewrite prefix to (prefix ++ rest) ≡ to ++ rest

not_auth-jobs : (rest : String) → strip_prefix "/api/auth" ("/api/jobs" ++ rest) ≡ none
unfolding strip_prefix size
not_auth-jobs rest = strip_prefix-append_none "/api/auth" "/api/jobs" rest (omega arith) refl

not_auth-resume : (rest : String) → strip_prefix "/api/auth" ("/api/resume" ++ rest) ≡ none
unfolding strip_prefix size
not_auth-resume rest = strip_prefix-append_none "/api/auth" "/api/resume" rest (omega arith) refl

not_jobs-resume : (rest : String) → strip_prefix "/api/jobs" ("/api/resume" ++ rest) ≡ none
unfolding strip_prefix size
not_jobs-resume rest = strip_prefix-append_none "/api/jobs" "/api/resume" rest (omega arith) refl

not_auth-ai : (rest : String) → strip_prefix "/api/auth" ("/api/ai" ++ rest) ≡ none
unfolding strip_prefix size
not_auth-ai rest =
    strip_prefix-longer "/api/au" "th" ("/api/ai" ++ rest)
      (strip_prefix-append_none "/api/au" "/api/ai" rest (omega arith) refl)

not_jobs-ai : (rest : String) → strip_prefix "/api/jobs" ("/api/ai" ++ rest) ≡ none
unfolding strip_prefix size
not_jobs-ai rest =
    strip_prefix-longer "/api/jo" "bs" ("/api/ai" ++ rest)
      (strip_prefix-append_none "/api/jo" "/api/ai" rest (omega arith) refl)

not_resume-ai : (rest : String) → strip_prefix "/api/resume" ("/api/ai" ++ rest) ≡ none
unfolding strip_prefix size
not_resume-ai rest =
    strip_prefix-longer "/api/re" "sume" ("/api/ai" ++ rest)
      (strip_prefix-append_none "/api/re" "/api/ai" rest (omega arith) refl)

module _ (proxy : Proxy) (lawful : IsProxy proxy) where
  -- A route that does not take a request leaves it to the later ones.
  skipped :
      (r : RouteDef) (routes : List RouteDef) (x : Exchange)
      → is_plain r.prefix ≡ true
      → is_plain x.request.path ≡ true
      → strip_prefix r.prefix x.request.path ≡ none
      → dispatch proxy (r ∷ routes) x ≡ dispatch proxy routes x
  unfolding dispatch
  skipped r routes x plain ok h = rw (lawful.misses r.prefix x.request.path plain ok h) refl

  skipped_optional :
      (url : Option String) (prefix to : String) (long : Bool) (routes : List RouteDef)
      (x : Exchange)
      → is_plain prefix ≡ true
      → is_plain x.request.path ≡ true
      → strip_prefix prefix x.request.path ≡ none
      → dispatch proxy (optional_route url prefix to long routes) x ≡ dispatch proxy routes x
  skipped_optional none prefix to long routes x plain ok h = refl
  skipped_optional (some url) prefix to long routes x plain ok h =
      skipped (record { prefix = prefix; target = url; rewrite_to = to; long_lived = long }) routes
        x plain ok h

  -- Where a request went: to a service, under a path.
  abbrev pub IsSentTo : String → String → Reply → Type 0
  IsSentTo url path reply =
      (r : RouteDef) × (f : Forwarded) × (x : Exchange) × (reply ≡ forwarded r f x)
      × (f.target ≡ url)
      × (f.path ≡ path)

  taken :
      (r : RouteDef) (routes : List RouteDef) (x : Exchange) (rest : String)
      → x.request.path ≡ r.prefix ++ rest
      → is_plain r.prefix ≡ true
      → is_plain r.rewrite_to ≡ true
      → is_plain rest ≡ true
      → IsSegment rest
      → IsSentTo r.target (r.rewrite_to ++ rest) (dispatch proxy (r ∷ routes) x)
  unfolding dispatch forward
  taken r routes x rest e plain plain_to ok h = (
    r,
    forward proxy r x.request,
    x,
    rw (ap (proxy.path_filter (glob r)) e ∙ lawful.matches r.prefix rest plain ok h) refl,
    refl,
    ap (proxy.path_rewrite r.prefix r.rewrite_to) e
        ∙ lawful.rewrites r.prefix r.rewrite_to rest plain plain_to ok,
  )

  taken_optional :
      (url : Option String) (u prefix to : String) (long : Bool) (routes : List RouteDef)
      (x : Exchange) (rest : String)
      → url ≡ some u
      → x.request.path ≡ prefix ++ rest
      → is_plain prefix ≡ true
      → is_plain to ≡ true
      → is_plain rest ≡ true
      → IsSegment rest
      → IsSentTo u (to ++ rest) (dispatch proxy (optional_route url prefix to long routes) x)
  taken_optional url u prefix to long routes x rest h e plain plain_to ok seg =
      subst
        (λ o. IsSentTo u (to ++ rest) (dispatch proxy (optional_route o prefix to long routes) x))
        (sym h)
        (taken (record { prefix = prefix; target = u; rewrite_to = to; long_lived = long }) routes x
          rest e plain plain_to ok seg)

  module _ (config : Config) (url : String) (x : Exchange) (rest : String) (seg : IsSegment rest)
      (ok : is_plain rest ≡ true) where
    abbrev ai_routes : List RouteDef
    ai_routes = optional_route config.ai_service_url "/api/ai" "/ai" true []

    abbrev resume_routes : List RouteDef
    resume_routes = optional_route config.resume_service_url "/api/resume" "/resume" false ai_routes

    -- A request that is none for auth-service passes its route.
    past_auth :
        is_plain x.request.path ≡ true
        → strip_prefix "/api/auth" x.request.path ≡ none
        → dispatch proxy (build_routes config) x
          ≡ dispatch proxy
              (optional_route config.jobs_service_url "/api/jobs" "/jobs" false resume_routes)
              x
    unfolding build_routes is_plain
    past_auth p h = skipped _ _ x refl p h

    past_jobs :
        is_plain x.request.path ≡ true
        → strip_prefix "/api/auth" x.request.path ≡ none
        → strip_prefix "/api/jobs" x.request.path ≡ none
        → dispatch proxy (build_routes config) x ≡ dispatch proxy resume_routes x
    unfolding is_plain
    past_jobs p h k =
        past_auth p h
        ∙ skipped_optional config.jobs_service_url "/api/jobs" "/jobs" false resume_routes x refl p
            k

    past_resume :
        is_plain x.request.path ≡ true
        → strip_prefix "/api/auth" x.request.path ≡ none
        → strip_prefix "/api/jobs" x.request.path ≡ none
        → strip_prefix "/api/resume" x.request.path ≡ none
        → dispatch proxy (build_routes config) x ≡ dispatch proxy ai_routes x
    unfolding is_plain
    past_resume p h k l =
        past_jobs p h k
        ∙ skipped_optional config.resume_service_url "/api/resume" "/resume" false ai_routes x refl
            p l

    whole :
        (owner : Owner) → x.request.path ≡ prefix_of owner ++ rest → is_plain x.request.path ≡ true
    unfolding is_plain
    whole auth e = ap is_plain e ∙ is_plain-append "/api/auth" rest refl ok
    whole jobs e = ap is_plain e ∙ is_plain-append "/api/jobs" rest refl ok
    whole resume e = ap is_plain e ∙ is_plain-append "/api/resume" rest refl ok
    whole ai e = ap is_plain e ∙ is_plain-append "/api/ai" rest refl ok

    -- A request for a path of letters, digits, `-`, `_` and `/` below the prefix of a service whose URL is configured is sent to that
    -- service, under its own root and with the rest of the path, whatever other services there are.
    pub dispatch-IsSentTo :
        (owner : Owner)
        → url_of config owner ≡ some url
        → x.request.path ≡ prefix_of owner ++ rest
        → IsSentTo url (root_of owner ++ rest) (dispatch proxy (build_routes config) x)
    unfolding build_routes is_plain
    dispatch-IsSentTo auth h e =
        taken_optional (some config.auth_service_url) url "/api/auth" "/auth" false _ x rest h e
          refl refl ok seg
    dispatch-IsSentTo jobs h e =
        subst (IsSentTo url ("/jobs" ++ rest))
          (sym (past_auth (whole jobs e) (ap (strip_prefix "/api/auth") e ∙ not_auth-jobs rest)))
          (taken_optional config.jobs_service_url url "/api/jobs" "/jobs" false resume_routes x rest
            h e refl refl ok seg)
    dispatch-IsSentTo resume h e =
        subst (IsSentTo url ("/resume" ++ rest))
          (sym (
            past_jobs (whole resume e) (ap (strip_prefix "/api/auth") e ∙ not_auth-resume rest)
              (ap (strip_prefix "/api/jobs") e ∙ not_jobs-resume rest)))
          (taken_optional config.resume_service_url url "/api/resume" "/resume" false ai_routes x
            rest h e refl refl ok seg)
    dispatch-IsSentTo ai h e =
        subst (IsSentTo url ("/ai" ++ rest))
          (sym (
            past_resume (whole ai e) (ap (strip_prefix "/api/auth") e ∙ not_auth-ai rest)
              (ap (strip_prefix "/api/jobs") e ∙ not_jobs-ai rest)
              (ap (strip_prefix "/api/resume") e ∙ not_resume-ai rest)))
          (taken_optional config.ai_service_url url "/api/ai" "/ai" true [] x rest h e refl refl ok
            seg)
