-- ===== src/Web/Session.antt =====
-- apps/web/src/auth/AuthProvider.tsx: the session of a page. React's state is a part of the world;
-- a page that is left is `cancelled`.
use jobilee.Prelude.{String, Bool, true, false, Option, none, some, if◌then◌else◌}
use jobilee.Effect.{Action, Outcome, returned, threw, pure, throw, catch, ◌>>=◌}
use jobilee.Thrown.{other}
use jobilee.HttpClient.{get, post}
use jobilee.Shared.Auth.{User, Credentials}
use jobilee.Web.Tokens.{Tab, set_access_token, set_refresh_token, get_refresh_token, clear_tokens}
use jobilee.Web.Client.{Browser, Page, RequestOptions, no_body, json_body, is_set, api_fetch}

-- `user` and `loading`
pub record Session : Type 0 where
  pub user : Option User
  pub loading : Bool

pub record Screen (N : Type 0) : Type 0 where
  pub session : Session
  pub cancelled : Bool
  pub page : Page N

-- What `adopt` reads in a payload, which is not checked: the tokens as the setters take them, where
-- `none` is null and a missing refresh token is stored as the text "undefined", and the user, if there
-- is one.
pub record SessionAnswer : Type 0 where
  pub access_token : Option String
  pub refresh_token : Option String
  pub user : Option User

-- `me_of` and `session_of` read a payload, and have nothing where reading a field of it throws; the
-- user of `/auth/me` may be missing too.
module _ {N J : Type 0} (browser : Browser N J) (me_of : J → Option (Option User))
    (session_of : J → Option SessionAnswer) (stringify : Credentials → String) where
  abbrev pub or_unreadable : {A : Type 0} → Option A → Action (Screen N) A
  or_unreadable none = throw other
  or_unreadable (some a) = pure a

  -- the fields of a payload, which may be `undefined`
  abbrev pub read_payload : {A : Type 0} → (J → Option A) → Option J → Action (Screen N) A
  read_payload read none = throw other
  read_payload read (some payload) = or_unreadable (read payload)

  abbrev pub in_screen : {A : Type 0} → Screen N → Outcome (Page N) A → Outcome (Screen N) A
  in_screen s (returned a p) = returned a (record s { page = p })
  in_screen s (threw e p) = threw e (record s { page = p })

  -- a call of `apiFetch`
  unfoldable pub fetching : String → RequestOptions → Action (Screen N) (Option J)
  unfolding api_fetch
  fetching path options s = in_screen s (api_fetch browser path options s.page)

  abbrev pub on_tab : (Tab → Tab) → Action (Screen N) (Unit {0})
  on_tab f s = returned tt (record s { page = record s.page { tab = f s.page.tab } })

  -- `if (!cancelled) set…`
  abbrev pub unless_left : (Session → Session) → Action (Screen N) (Unit {0})
  unless_left f s = returned tt (if s.cancelled then s else record s { session = f s.session })

  abbrev pub set_user : Option User → Session → Session
  set_user user x = record x { user = user }

  abbrev pub loaded : Session → Session
  loaded x = record x { loading = false }

  abbrev pub get_options : RequestOptions
  get_options = record { method = get; body = no_body; skip_refresh = false }

  abbrev pub post_options : Credentials → RequestOptions
  post_options body = record {
    method = post;
    body = json_body (stringify body);
    skip_refresh = false;
  }

  -- the `try` and the `catch` of the effect
  abbrev pub recover_user : Action (Screen N) (Unit {0})
  recover_user =
      catch
        (do
          answer ← fetching "/auth/me" get_options
          me ← read_payload me_of answer
          unless_left (set_user me))
        (λ _. on_tab clear_tokens)

  abbrev pub restore_with : Bool → Action (Screen N) (Unit {0})
  restore_with false = unless_left loaded
  restore_with true = do _ ← recover_user; unless_left loaded

  -- the effect that runs at the start
  unfoldable pub restore : Action (Screen N) (Unit {0})
  unfolding fetching clear_tokens get_refresh_token
  restore s = restore_with (is_set (get_refresh_token s.page.tab)) s

  -- `adopt`
  unfoldable pub adopt : SessionAnswer → Action (Screen N) (Unit {0})
  unfolding set_refresh_token
  adopt x s = returned tt (record s {
    session = set_user x.user s.session;
    page = record s.page {
      tab = set_refresh_token x.refresh_token (set_access_token x.access_token s.page.tab);
    };
  })

  unfoldable pub login : Credentials → Action (Screen N) (Unit {0})
  unfolding fetching adopt
  login body = do
    answer ← fetching "/auth/login" (post_options body)
    x ← read_payload session_of answer
    adopt x

  unfoldable pub register : Credentials → Action (Screen N) (Unit {0})
  unfolding fetching adopt
  register body = do
    answer ← fetching "/auth/register" (post_options body)
    x ← read_payload session_of answer
    adopt x

  unfoldable pub logout : Action (Screen N) (Unit {0})
  unfolding clear_tokens
  logout s = returned tt (record s {
    session = set_user none s.session;
    page = record s.page { tab = clear_tokens s.page.tab };
  })
