-- ===== src/Gateway/Pipeline/Tests.antt =====
-- A proxy library over prefixes of texts, and a gateway without a resume service.
use Prim.Native.String.{◌++◌, len, slice, [], ◌∷◌}
use Prim.Native.String.append.{cons as cons-append, nil as nil-append}
use jobilee.Prelude.{
  ◌-◌, String, ◌≡◌, refl, ap, ◌∙◌, inl, inr, Bool, true, false, Option, none, some, ◌||◌, arith,
  strip_prefix, ◌==◌, nat_eq, string_eq,
}
use text.Mathlib.TextPositions.{len-append, slice-append_left}
use mathlib.Core.List
use jobilee.Gateway.Config.{Config}
use jobilee.Gateway.Routes.{build_routes}
use jobilee.Gateway.Identity.{Exchange}
use jobilee.Gateway.Pipeline.{Proxy, dispatch}
use jobilee.Web.Queries.Routing.{job_stage, path_of-IsSentTo}
use jobilee.Gateway.Pipeline.PlainPath.{is_plain}
use jobilee.Gateway.Pipeline.Routing.{ai, IsSegment, IsProxy, IsSentTo, dispatch-IsSentTo}

-- the pattern without its last three characters
abbrev without_glob : String → String
without_glob pattern = slice pattern 0 (len pattern - 3)

without_glob-glob : (prefix : String) → without_glob (prefix ++ "/**") ≡ prefix
without_glob-glob prefix =
    let e : len (prefix ++ "/**") - 3 ≡ len prefix = rw (len-append prefix "/**") (omega arith) in
    rw e (slice-append_left prefix "/**")

abbrev is_found : Option String → Bool
is_found none = false
is_found (some s) = true

abbrev is_segment : Option String → Bool
is_segment none = false
is_segment (some rest) = rest == "" || is_found (strip_prefix "/" rest)

abbrev moved : String → String → Option String → String
moved path to none = path
moved path to (some rest) = to ++ rest

abbrev proxy : Proxy
proxy = record {
  path_filter = λ pattern path. is_segment (strip_prefix (without_glob pattern) path);
  path_rewrite = λ prefix to path. moved path to (strip_prefix prefix path);
}

strip_prefix_self : (p s : String) → strip_prefix p (p ++ s) ≡ some s
unfolding strip_prefix
strip_prefix_self [] s = rw nil-append refl
strip_prefix_self (c ∷ p) s = rw (cons-append, strip_prefix) (ground (arith, strip_prefix_self p s))

segment_lem : (rest : String) → IsSegment rest → is_segment (some rest) ≡ true
unfolding strip_prefix
segment_lem rest (inl e) = rw e refl
segment_lem rest (inr (more, e)) =
    ground (arith, ap (strip_prefix "/") e ∙ strip_prefix_self "/" more)

proxy-IsProxy : IsProxy proxy
proxy-IsProxy = record {
  matches = λ prefix rest plain ok seg.
      rw (without_glob-glob prefix, strip_prefix_self prefix rest) (segment_lem rest seg);
  misses = λ prefix path plain ok h. rw (without_glob-glob prefix, h) refl;
  rewrites = λ prefix to rest plain plain_to ok. rw (strip_prefix_self prefix rest) refl;
}

abbrev config : Config
config = record {
  jwt_secret = "secret";
  auth_service_url = "http://auth:3001";
  jobs_service_url = some "http://jobs:3002";
  resume_service_url = none;
  ai_service_url = some "http://ai:3004";
  rate_limit_window_seconds = 60;
  rate_limit_max = 2;
  rate_limit_auth_max = 1;
  trust_proxy = false;
}

abbrev at : String → Exchange
at path = record {
  request = record {
    method = "GET";
    path = path;
    headers = List.[];
    ip = none;
    remote_address = none;
    user_id = none;
    request_id = none;
  };
  response_headers = List.[];
}

dispatch-IsSentTo_example :
    IsSentTo proxy proxy-IsProxy "http://ai:3004" "/ai/tasks"
      (dispatch proxy (build_routes config) (at "/api/ai/tasks"))
unfolding is_plain
dispatch-IsSentTo_example =
    dispatch-IsSentTo proxy proxy-IsProxy config "http://ai:3004" (at "/api/ai/tasks") "/tasks"
      (inr ("tasks", refl)) refl ai refl refl

path_of-IsSentTo_example :
    IsSentTo proxy proxy-IsProxy "http://jobs:3002" "/jobs/7/stage"
      (dispatch proxy (build_routes config) (at "/api/jobs/7/stage"))
unfolding is_plain
path_of-IsSentTo_example =
    path_of-IsSentTo proxy proxy-IsProxy config "http://jobs:3002" (at "/api/jobs/7/stage")
      (job_stage "7") refl refl refl
