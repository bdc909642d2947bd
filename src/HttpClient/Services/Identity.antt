-- ===== src/HttpClient/Services/Identity.antt =====
-- The caller's identity on its way from one service to the next.
use jobilee.Prelude.{
  ◌≡◌, ◌≢◌, refl, sym, subst, ◌∙◌, ap, Bool, true, not, ◌||◌, All, map, codes, codes_eq, to_lower,
  Bool-cases, inl, inr, String, Option, none, some, [], ◌∷◌, arith, eq_iff, ◌==◌, string_eq,
}
use jobilee.Effect.{returned}
use jobilee.Shared.Errors.{user_id_header, request_id_header}
use jobilee.Gateway.Pipeline.PlainPath.{is_plain}
use jobilee.Gateway.Headers.{
  Headers, header, set_header, delete_header, header-set_self, header-set_ne,
}
use jobilee.HttpClient.{Body}
use jobilee.HttpClient.Client.{
  RequestContext, set_if, with_context_headers, with_headers, ClientOptions, or_bound,
  with_content_type, request_headers,
}
use jobilee.HttpClient.Services.{
  ServiceBody, Schema, ContextCall, list_jobs, create_job, get_job, update_job, remove_job,
  change_stage, get_artifact, put_artifact, get_base, put_base, list_tailored, create_tailored,
  create_task, get_task, context_call, settings_of,
}
use jobilee.ServiceKit.UserId.{user_id, caller}

-- None of these calls has headers of its own.
context_call-headers : (c : ContextCall) → (context_call c).headers ≡ []
unfolding context_call
context_call-headers list_jobs = refl
context_call-headers (create_job body) = refl
context_call-headers (get_job id) = refl
context_call-headers (update_job id body) = refl
context_call-headers (remove_job id) = refl
context_call-headers (change_stage id stage) = refl
context_call-headers (get_artifact id type) = refl
context_call-headers (put_artifact id type text) = refl
context_call-headers get_base = refl
context_call-headers (put_base text) = refl
context_call-headers (list_tailored job_id) = refl
context_call-headers (create_tailored body) = refl
context_call-headers (create_task body) = refl
context_call-headers (get_task id) = refl

set_if-ne :
    (name : String) (value : Option String) (hs : Headers)
    → user_id_header ≢ name
    → header user_id_header (set_if name value hs) ≡ header user_id_header hs
set_if-ne name none hs h = refl
set_if-ne name (some value) hs h = elim (Bool-cases (value == "")) [
  | inl e ↦ rw e refl
  | inr e ↦ rw e (header-set_ne user_id_header name value hs h)
]

set_if_self :
    (name value : String) (hs : Headers)
    → value ≢ ""
    → header name (set_if name (some value) hs) ≡ some value
set_if_self name value hs h = elim (Bool-cases (value == "")) [
  | inl e ↦ absurd (h ((eq_iff value "").0 e))
  | inr e ↦ rw e (header-set_self name value hs)
]

with_context_headers-user_id :
    (request : Option String) (user : String) (hs : Headers)
    → user ≢ ""
    → header user_id_header
        (with_context_headers (record { user_id = some user; request_id = request }) hs)
      ≡ some user
unfolding with_context_headers
with_context_headers-user_id request user hs h =
    set_if-ne request_id_header request (set_if user_id_header (some user) hs)
      (ground (arith, eq_iff user_id_header request_id_header))
    ∙ set_if_self user_id_header user hs h

caller_returns :
    {W : Type 0} (user : String) (w : W) → user ≢ "" → caller (some user) w ≡ returned user w
caller_returns user w h = elim (Bool-cases (user == "")) [
  | inl e ↦ absurd (h ((eq_iff user "").0 e))
  | inr e ↦ rw e refl
]

-- A header's name is no other spelling of `x-user-id`, in other letters.
abbrev pub is_spelled : String × String → Bool
is_spelled (k, v) =
    not (codes_eq (map to_lower (codes k)) (codes user_id_header)) || k == user_id_header

abbrev pub AreSpelled : Headers → Type 0
AreSpelled hs = All (λ kv. is_spelled kv ≡ true) hs

-- What a service receives of the headers that `fetch` is called with. The platform writes names in
-- lower case and joins the values of equal ones, so a header that is there in one spelling only, with
-- a value of letters, digits, `-`, `_` and `/`, arrives as it is.
pub record Delivers (deliver : Headers → Headers) : Type 0 where
  pub deliver_law :
      (hs : Headers) (value : String)
      → AreSpelled hs
      → header user_id_header hs ≡ some value
      → is_plain value ≡ true
      → header user_id_header (deliver hs) ≡ some value

delete_header-AreSpelled :
    (name : String) (hs : Headers) → AreSpelled hs → AreSpelled (delete_header name hs)
unfolding delete_header
delete_header-AreSpelled name [] h = tt
delete_header-AreSpelled name ((k, v) ∷ hs) h = elim (Bool-cases (k == name)) [
  | inl e ↦ rw (delete_header, e) (delete_header-AreSpelled name hs h.1)
  | inr e ↦ rw (delete_header, e) (h.0, delete_header-AreSpelled name hs h.1)
]

set_header-AreSpelled :
    (name value : String) (hs : Headers)
    → is_spelled (name, value) ≡ true
    → AreSpelled hs
    → AreSpelled (set_header name value hs)
unfolding set_header
set_header-AreSpelled name value hs e h = (e, delete_header-AreSpelled name hs h)

with_headers-AreSpelled :
    (extra hs : Headers) → AreSpelled extra → AreSpelled hs → AreSpelled (with_headers extra hs)
unfolding with_headers
with_headers-AreSpelled [] hs k h = h
with_headers-AreSpelled ((name, value) ∷ extra) hs k h =
    with_headers-AreSpelled extra (set_header name value hs) k.1
      (set_header-AreSpelled name value hs k.0 h)

set_if-AreSpelled :
    (name : String) (value : Option String) (hs : Headers)
    → ((v : String) → is_spelled (name, v) ≡ true)
    → AreSpelled hs
    → AreSpelled (set_if name value hs)
set_if-AreSpelled name none hs e h = h
set_if-AreSpelled name (some value) hs e h = elim (Bool-cases (value == "")) [
  | inl b ↦ rw b h
  | inr b ↦ rw b (set_header-AreSpelled name value hs (e value) h)
]

with_context_headers-AreSpelled :
    (ctx : RequestContext) (hs : Headers) → AreSpelled hs → AreSpelled (with_context_headers ctx hs)
unfolding with_context_headers to_lower
with_context_headers-AreSpelled ctx hs h =
    set_if-AreSpelled request_id_header ctx.request_id _ (λ v. refl)
      (set_if-AreSpelled user_id_header ctx.user_id hs (λ v. refl) h)

module _ (client : ClientOptions ServiceBody) where
  with_content_type-AreSpelled :
      (body : Option ServiceBody) (hs : Headers)
      → AreSpelled hs
      → AreSpelled (with_content_type client body hs)
  unfolding with_content_type to_lower
  with_content_type-AreSpelled none hs h = h
  with_content_type-AreSpelled (some body) hs h =
      set_header-AreSpelled "content-type" "application/json" hs refl h

  with_content_type-ne :
      (body : Option ServiceBody) (hs : Headers)
      → header user_id_header (with_content_type client body hs) ≡ header user_id_header hs
  unfolding with_content_type
  with_content_type-ne none hs = refl
  with_content_type-ne (some body) hs =
      header-set_ne user_id_header "content-type" "application/json" hs
        (ground (arith, eq_iff user_id_header "content-type"))

  -- A call of jobs-service, resume-service or ai-service on behalf of a user reaches the service as
  -- that user, whoever the client is bound to: the decorator `UserId` reads back the user of the
  -- call's context from the headers that the service receives. The user is not empty and consists of
  -- letters, digits, `-`, `_` and `/`, and no header that the client adds to every request is another
  -- spelling of `x-user-id`.
  pub user_id-context_call :
      {W J T : Type 0} (deliver : Headers → Headers) (parse : Schema → Body J → Option T)
      (bound : RequestContext) (c : ContextCall) (user : String) (request : Option String) (w : W)
      → Delivers deliver
      → AreSpelled client.headers
      → user ≢ ""
      → is_plain user ≡ true
      → let ctx : RequestContext = record { user_id = some user; request_id = request } in
        user_id
          (deliver (
            request_headers client bound
              (context_call c).method
              (context_call c).path
              (settings_of parse ctx (context_call c))))
          w
        ≡ returned user w
  unfolding user_id request_headers settings_of with_headers to_lower
  user_id-context_call deliver parse bound c user request w delivers spelled h plain =
      let own = with_headers client.headers (("accept", "application/json") ∷ []) in
      let ctx : RequestContext = record {
        user_id = some user;
        request_id = or_bound request bound.request_id;
      } in
      let sent = with_headers (context_call c).headers (with_context_headers ctx own) in
      let read : header user_id_header (with_content_type client (context_call c).body sent)
          ≡ some user =
        with_content_type-ne (context_call c).body sent
        ∙ (ap (λ hs. header user_id_header (with_headers hs (with_context_headers ctx own)))
              (context_call-headers c)
            ∙ with_context_headers-user_id (or_bound request bound.request_id) user own h) in
      let all : AreSpelled sent =
        with_headers-AreSpelled (context_call c).headers (with_context_headers ctx own)
          (subst AreSpelled (sym (context_call-headers c)) tt)
          (with_context_headers-AreSpelled ctx own
            (with_headers-AreSpelled client.headers _ spelled (refl, tt))) in
      ap (λ o. caller o w)
        (delivers.deliver_law _ user (with_content_type-AreSpelled (context_call c).body sent all)
          read plain)
      ∙ caller_returns user w h
