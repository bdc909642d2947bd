-- ===== src/Web/Pages/SignIn.antt =====
-- apps/web/src/auth/ProtectedRoute.tsx and routes/AuthForm.tsx: who is not signed in is sent to the
-- form, and from there back to where they were headed.
use jobilee.Prelude.{String, ◌≡◌, refl, Bool, true, false, Option, none, some, if◌then◌else◌}
use jobilee.Effect.{Outcome, Action, returned, threw, catch, ◌>>=◌}
use jobilee.Effect.Meets.{Meets}
use jobilee.Thrown.{Thrown}
use jobilee.Shared.Auth.{User, Credentials}
use jobilee.Web.Tokens.{Tab, set_access_token, set_refresh_token}
use jobilee.Web.Client.{Browser, Page, api_fetch}
use jobilee.Web.Session
use jobilee.Web.Session.{
  SessionAnswer, Session, Screen, in_screen, fetching, read_payload, or_unreadable, set_user, adopt,
  post_options,
}
use jobilee.Web.Pages.View.{Shown, on_view, calling, reason}

-- what `ProtectedRoute` renders; `to_login` carries the state `from`
pub data Gate : Type 0 where
  restoring outlet : Gate
  to_login : String → Gate

unfoldable pub protect : Session → String → Gate
protect session path =
    if session.loading
    then restoring
    else elim session.user [ none ↦ to_login path | some user ↦ outlet ]

pub data Mode : Type 0 where
  logs_in registers : Mode

pub record AuthForm : Type 0 where
  pub email : String
  pub password : String
  pub error : Option String
  pub submitting : Bool
  -- where `navigate` went
  pub went_to : Option String

abbrev pub set_email : String → AuthForm → AuthForm
set_email email v = record v { email = email }

abbrev pub set_password : String → AuthForm → AuthForm
set_password password v = record v { password = password }

abbrev pub or_root : Option String → String
or_root none = "/"
or_root (some from) = from

module _ {N J : Type 0} (browser : Browser N J) (me_of : J → Option (Option User))
    (session_of : J → Option SessionAnswer) (stringify : Credentials → String) where
  -- `isRegister ? register(…) : login(…)`
  abbrev pub enter : Mode → Credentials → Action (Screen N) (Unit {0})
  enter logs_in body = Session.login browser me_of session_of stringify body
  enter registers body = Session.register browser me_of session_of stringify body

  module _ (mode : Mode) (from : Option String) where
    abbrev pub go_back : Credentials → Action (Shown AuthForm (Screen N)) (Unit {0})
    go_back body = do
      _ ← calling (enter mode body)
      on_view (λ v. record v { went_to = some (or_root from) })

    abbrev pub show_failure : Thrown → Action (Shown AuthForm (Screen N)) (Unit {0})
    show_failure cause =
        on_view
          (λ v. record v { error = some (reason "Something went wrong. Please try again." cause) })

    abbrev pub finally_submitted : Action (Shown AuthForm (Screen N)) (Unit {0})
    finally_submitted = on_view (λ v. record v { submitting = false })

    -- `handleSubmit`
    unfoldable pub submit_credentials : Action (Shown AuthForm (Screen N)) (Unit {0})
    submit_credentials s =
        (do
          _ ← on_view (λ v. record v { error = none; submitting = true })
          _ ←
              catch (go_back (record { email = s.view.email; password = s.view.password }))
                show_failure
          finally_submitted)
          s

  abbrev pub with_tab : Option SessionAnswer → Page N → Option (SessionAnswer × Tab)
  with_tab none p = none
  with_tab (some x) p = some (x, p.tab)

  -- the answer that a submission had, and the tab that it came to, if it is one that can be read
  abbrev pub answer_in : Outcome (Page N) (Option J) → Option (SessionAnswer × Tab)
  answer_in (returned none p) = none
  answer_in (returned (some payload) p) = with_tab (session_of payload) p
  answer_in (threw e p) = none

  abbrev pub path_for : Mode → String
  path_for logs_in = "/auth/login"
  path_for registers = "/auth/register"

  abbrev pub body_of : AuthForm → Credentials
  body_of v = record { email = v.email; password = v.password }

  -- what the call for the form's mode and fields ends with
  abbrev pub sent : Mode → Shown AuthForm (Screen N) → Outcome (Page N) (Option J)
  sent mode s =
      api_fetch browser (path_for mode)
        (post_options browser me_of session_of stringify (body_of s.view)) s.world.page

  -- Signed in as the answer says, with its tokens, and sent to where the visitor came from; there the
  -- user of the answer is let through, and an answer without one is sent back to the form.
  abbrev pub Entered : Option String → SessionAnswer → Tab → Shown AuthForm (Screen N) → Type 0
  Entered from x tab t =
      (t.view.went_to ≡ some (or_root from))
      × (t.world.session ≡ record { user = x.user; loading = false })
      × (t.world.page.tab ≡ set_refresh_token x.refresh_token (set_access_token x.access_token tab))
      × ((path : String)
          → protect t.world.session path
            ≡ elim x.user [ none ↦ to_login path | some user ↦ outlet ])

  -- An error is shown, and who is signed in has not changed.
  abbrev pub Refused : Shown AuthForm (Screen N) → Shown AuthForm (Screen N) → Type 0
  Refused s t =
      ((e : String) × (t.view.error ≡ some e))
      × (t.view.went_to ≡ s.view.went_to)
      × (t.world.session ≡ s.world.session)

  abbrev pub IsSettled :
      Option String
      → Option (SessionAnswer × Tab)
      → Shown AuthForm (Screen N)
      → Shown AuthForm (Screen N)
      → Type 0
  IsSettled from none s t = Refused s t
  IsSettled from (some (x, tab)) s t = Entered from x tab t

  -- a submission whose call ends as given
  abbrev submission_of :
      Mode
      → Option String
      → Outcome (Screen N) (Option J)
      → Action (Shown AuthForm (Screen N)) (Unit {0})
  submission_of mode from o = do
    _ ← on_view (λ v. record v { error = none; submitting = true })
    _ ←
        catch
          (do
            _ ← calling (do
              answer ← (λ _. o)
              x ← read_payload browser me_of session_of stringify session_of answer
              adopt browser me_of session_of stringify x)
            on_view (λ v. record v { went_to = some (or_root from) }))
          (show_failure mode from)
    finally_submitted mode from

  -- … and has a payload in which `x` was read
  abbrev adoption_of :
      Mode → Option String → Option SessionAnswer → Action (Shown AuthForm (Screen N)) (Unit {0})
  adoption_of mode from o = do
    _ ←
        catch
          (do
            _ ← calling (do
              x ← or_unreadable browser me_of session_of stringify o
              adopt browser me_of session_of stringify x)
            on_view (λ v. record v { went_to = some (or_root from) }))
          (show_failure mode from)
    finally_submitted mode from

  abbrev NeverThrows : Thrown → Shown AuthForm (Screen N) → Type 0
  NeverThrows _ _ = ⊥

  shown_to :
      (user : Option User) (session : Session) (path : String)
      → session ≡ record { user = user; loading = false }
      → protect session path ≡ elim user [ none ↦ to_login path | some user ↦ outlet ]
  unfolding protect
  shown_to none session path e = rw e refl
  shown_to (some user) session path e = rw e refl

  started : Shown AuthForm (Screen N) → Page N → Shown AuthForm (Screen N)
  started s p = record {
    view = record s.view { error = none; submitting = true };
    world = record s.world { page = p };
  }

  adoption-IsSettled :
      (mode : Mode) (from : Option String) (s : Shown AuthForm (Screen N)) (p : Page N)
      (o : Option SessionAnswer)
      → s.world.session.loading ≡ false
      → Meets
          (adoption_of mode from o (started s p))
          (λ _ t. (t.view.submitting ≡ false) × IsSettled from (with_tab o p) s t)
          NeverThrows
  unfolding calling adopt started
  adoption-IsSettled mode from s p none h = (refl, ((_, refl), refl, refl))
  adoption-IsSettled mode from s p (some x) h =
      let e : set_user browser me_of session_of stringify x.user s.world.session
          ≡ record { user = x.user; loading = false } =
        λ i. record { user = x.user; loading = h i } in
      (refl, (refl, e, refl, λ path. shown_to x.user _ path e))

  submission-IsSettled :
      (mode : Mode) (from : Option String) (s : Shown AuthForm (Screen N))
      (o : Outcome (Page N) (Option J))
      → s.world.session.loading ≡ false
      → Meets
          (submission_of mode from (in_screen browser me_of session_of stringify s.world o) s)
          (λ _ t. (t.view.submitting ≡ false) × IsSettled from (answer_in o) s t)
          NeverThrows
  unfolding calling adopt started
  submission-IsSettled mode from s (returned none p) h = (refl, ((_, refl), refl, refl))
  submission-IsSettled mode from s (returned (some payload) p) h =
      adoption-IsSettled mode from s p (session_of payload) h
  submission-IsSettled mode from s (threw t p) h = (refl, ((_, refl), refl, refl))

  -- A submission never throws and leaves the form ready, if no session is being restored when it
  -- starts. Where the service answers with a payload that can be read, the visitor is signed in as it
  -- says, with its tokens, and sent on to the path that they came from, where the page is shown to the
  -- user of the answer and an answer without a user leads back to the form. Else an error is shown, and
  -- neither the session nor the place has changed.
  pub submit_credentials-IsSettled :
      (mode : Mode) (from : Option String) (s : Shown AuthForm (Screen N))
      → s.world.session.loading ≡ false
      → Meets
          (submit_credentials mode from s)
          (λ _ t. (t.view.submitting ≡ false) × IsSettled from (answer_in (sent mode s)) s t)
          NeverThrows
  unfolding submit_credentials calling Session.login Session.register fetching adopt
  submit_credentials-IsSettled logs_in from s h =
      submission-IsSettled logs_in from s (sent logs_in s) h
  submit_credentials-IsSettled registers from s h =
      submission-IsSettled registers from s (sent registers s) h
