-- ===== src/Web/Pages/Gate.antt =====
-- apps/web/src/auth/ProtectedRoute.tsx after the session check of AuthProvider.tsx.
use jobilee.Prelude.{String, ◌≡◌, ◌⊎◌, inl, inr, refl, Bool, true, false, Option, none, some}
use jobilee.Effect.{Outcome, Action, returned, threw, catch, ◌>>=◌}
use jobilee.Effect.Meets.{Meets}
use jobilee.Thrown.{Thrown}
use jobilee.Shared.Auth.{User, Credentials}
use jobilee.Web.Tokens.{clear_tokens, get_refresh_token}
use jobilee.Web.Client.{Browser, Page, is_set, api_fetch}
use jobilee.Web.Session.{
  SessionAnswer, read_payload, or_unreadable, Session, Screen, in_screen, fetching, unless_left,
  set_user, loaded, get_options, restore_with, restore, on_tab,
}
use jobilee.Web.Pages.SignIn.{outlet, to_login, protect}

-- What the gate shows once a session is known: the page for a user, and the form for nobody.
abbrev pub IsDecided : Session → Type 0
IsDecided session =
    ((user : User) × (session.user ≡ some user) × ((path : String) → protect session path ≡ outlet))
    ⊎ ((session.user ≡ none) × ((path : String) → protect session path ≡ to_login path))

decided : (session : Session) → session.loading ≡ false → IsDecided session
unfolding protect
decided session h = by_user session.user refl
  where
    by_user : (o : Option User) → session.user ≡ o → IsDecided session
    by_user (some user) e = inl (user, e, λ path. rw (h, e) refl)
    by_user none e = inr (e, λ path. rw (h, e) refl)

module _ {N J : Type 0} (browser : Browser N J) (me_of : J → Option (Option User))
    (session_of : J → Option SessionAnswer) (stringify : Credentials → String) where
  -- the user that a call of `/auth/me` gave, which may be missing, if it gave an answer that can be read
  abbrev pub me_in : Outcome (Page N) (Option J) → Option (Option User)
  me_in (returned none p) = none
  me_in (returned (some payload) p) = me_of payload
  me_in (threw e p) = none

  abbrev pub page_after : Outcome (Page N) (Option J) → Page N
  page_after (returned payload p) = p
  page_after (threw e p) = p

  abbrev pub asked : Screen N → Outcome (Page N) (Option J)
  asked s = api_fetch browser "/auth/me" (get_options browser me_of session_of stringify) s.page

  -- what the check leaves of a screen that has a refresh token
  abbrev pub with_me : Screen N → Outcome (Page N) (Option J) → Option (Option User) → Screen N
  with_me s o (some me) = record {
    session = record { user = me; loading = false };
    cancelled = s.cancelled;
    page = page_after o;
  }
  with_me s o none = record {
    session = record { user = s.session.user; loading = false };
    cancelled = s.cancelled;
    page = record { tab = clear_tokens (page_after o).tab; net = (page_after o).net };
  }

  -- … and of any
  abbrev pub restored : Bool → Screen N → Screen N
  restored false s = record s { session = record s.session { loading = false } }
  restored true s = with_me s (asked s) (me_in (asked s))

  abbrev Restores : Screen N → Bool → Screen N → Type 0
  Restores s b t = (t ≡ restored b s) × IsDecided t.session

  abbrev NeverThrows : Thrown → Screen N → Type 0
  NeverThrows _ _ = ⊥

  -- the check where `/auth/me` ends as given
  abbrev check_of : Outcome (Screen N) (Option J) → Action (Screen N) (Unit {0})
  check_of o = do
    _ ←
        catch
          (do
            answer ← (λ _. o)
            me ← read_payload browser me_of session_of stringify me_of answer
            unless_left browser me_of session_of stringify
                (set_user browser me_of session_of stringify me))
          (λ _. on_tab browser me_of session_of stringify clear_tokens)
    unless_left browser me_of session_of stringify (loaded browser me_of session_of stringify)

  abbrev Checked : Screen N → Outcome (Page N) (Option J) → Option (Option User) → Type 0
  Checked s o me =
      Meets (check_of (in_screen browser me_of session_of stringify s o) s)
        (λ _ t. (t ≡ with_me s o me) × IsDecided t.session) NeverThrows

  -- the check where a payload came and `me` was read in it
  abbrev check_me : Option (Option User) → Action (Screen N) (Unit {0})
  check_me o = do
    _ ←
        catch
          (do
            me ← or_unreadable browser me_of session_of stringify o
            unless_left browser me_of session_of stringify
                (set_user browser me_of session_of stringify me))
          (λ _. on_tab browser me_of session_of stringify clear_tokens)
    unless_left browser me_of session_of stringify (loaded browser me_of session_of stringify)

  check_me-with_me :
      (s : Screen N) (payload : J) (p : Page N) (me : Option (Option User))
      → s.cancelled ≡ false
      → Meets
          (check_me me (record s { page = p }))
          (λ _ t. (t ≡ with_me s (returned (some payload) p) me) × IsDecided t.session)
          NeverThrows
  check_me-with_me s payload p (some me) h = rw h (refl, decided _ refl)
  check_me-with_me s payload p none h = rw h (refl, decided _ refl)

  check_of-with_me :
      (s : Screen N) (o : Outcome (Page N) (Option J)) → s.cancelled ≡ false → Checked s o (me_in o)
  check_of-with_me s (returned none p) h = rw h (refl, decided _ refl)
  check_of-with_me s (returned (some payload) p) h = check_me-with_me s payload p (me_of payload) h
  check_of-with_me s (threw t p) h = rw h (refl, decided _ refl)

  with_token :
      (s : Screen N)
      → s.cancelled ≡ false
      → Meets
          (restore_with browser me_of session_of stringify true s)
          (λ _ t. (t ≡ with_me s (asked s) (me_in (asked s))) × IsDecided t.session)
          NeverThrows
  unfolding fetching
  with_token s h = check_of-with_me s (asked s) h

  -- The check of the session at the start never throws. While the page is not left it ends with the
  -- user whom `/auth/me` names, the tokens kept; if there is no answer that can be read, with nobody
  -- new and the tokens cleared; and without a refresh token with nothing asked. The session is then
  -- loaded: the gate shows the page to a user and sends everybody else to the form, with the path to
  -- come back to.
  pub restore-IsRestored :
      (s : Screen N)
      → s.cancelled ≡ false
      → Meets
          (restore browser me_of session_of stringify s)
          (λ _ t. (t ≡ restored (is_set (get_refresh_token s.page.tab)) s) × IsDecided t.session)
          NeverThrows
  unfolding restore
  restore-IsRestored s h = by_token (is_set (get_refresh_token s.page.tab))
    where
      by_token :
          (b : Bool)
          → Meets
              (restore_with browser me_of session_of stringify b s)
              (λ _ t. (t ≡ restored b s) × IsDecided t.session)
              NeverThrows
      by_token false = rw h (refl, decided _ refl)
      by_token true = with_token s h
