-- ===== src/Auth/Service.antt =====
-- services/auth-service/src/auth/auth.service.ts, class `AuthService`.
use jobilee.Prelude.{ℕ, String, Bool, Option, none, some, if◌then◌else◌}
use jobilee.Effect.{Action, pure, throw, catch, ◌>>=◌}
use jobilee.Thrown.{Thrown, app_error, unique_violation}
use jobilee.Shared.Errors.{conflict, unauthorized, not_found}
use jobilee.Shared.Auth.{refresh, User, Credentials, AccessTokenResponse, AuthResponse}
use jobilee.Auth.Tokens.{Config, Jose, issue_access_token, issue_refresh_token, verify}

-- a row of `users`
pub record UserRow : Type 0 where
  pub id : String
  pub email : String
  pub password_hash : String
  pub created_at : ℕ

-- What the service calls: argon2 with the source's options, and the queries on `users`.
pub record Accounts (W : Type 0) : Type 0 where
  pub hash : String → Action W String
  pub verify_hash : String → String → Action W Bool
  pub create_user : String → String → Action W UserRow
  pub find_by_email : String → Action W (Option UserRow)
  pub find_by_id : String → Action W (Option UserRow)

-- without `passwordHash`
abbrev pub to_user : UserRow → User
to_user row = record { id = row.id; email = row.email; created_at = row.created_at }

-- the handler around `user.create`
abbrev pub as_conflict : {W A : Type 0} → Thrown → Action W A
as_conflict unique_violation =
    throw (app_error conflict "an account with that email already exists")
as_conflict e = throw e

module _ {W P : Type 0} (accounts : Accounts W) (jose : Jose P) (config : Config) where
  abbrev pub session : ℕ → UserRow → AuthResponse
  session ms user = record {
    user = to_user user;
    access_token = issue_access_token jose config ms user.id user.email;
    refresh_token = issue_refresh_token jose config ms user.id user.email;
    expires_in = config.jwt_access_ttl;
  }

  -- `ms` is the reading of `Date.now()` when the tokens are signed
  unfoldable pub issue_session : ℕ → UserRow → Action W AuthResponse
  unfolding issue_access_token issue_refresh_token
  issue_session ms user = pure (session ms user)

  unfoldable pub register : ℕ → Credentials → Action W AuthResponse
  unfolding issue_session
  register ms body = do
    password_hash ← accounts.hash body.password
    user ← catch (accounts.create_user body.email password_hash) as_conflict
    issue_session ms user

  abbrev pub refuse : {A : Type 0} → Action W A
  refuse = throw (app_error unauthorized "invalid email or password")

  abbrev pub admit : ℕ → UserRow → Bool → Action W AuthResponse
  admit ms user matches = if matches then issue_session ms user else refuse

  abbrev pub login_row : ℕ → String → Option UserRow → Action W AuthResponse
  login_row ms password none = do _ ← accounts.hash password; refuse
  login_row ms password (some user) = do
    matches ← accounts.verify_hash user.password_hash password
    admit ms user matches

  unfoldable pub login : ℕ → Credentials → Action W AuthResponse
  unfolding issue_session
  login ms body = do user ← accounts.find_by_email body.email; login_row ms body.password user

  abbrev pub refreshed : ℕ → Option UserRow → Action W AccessTokenResponse
  refreshed ms none = throw (app_error unauthorized "invalid or expired token")
  refreshed ms (some user) = pure (record {
    access_token = issue_access_token jose config ms user.id user.email;
    expires_in = config.jwt_access_ttl;
  })

  -- `refresh`; `now` is the time of the verification, in seconds
  unfoldable pub refresh_session : ℕ → ℕ → String → Action W AccessTokenResponse
  unfolding verify issue_access_token
  refresh_session now ms token = do
    claims ← verify jose config now token refresh
    user ← accounts.find_by_id claims.sub
    refreshed ms user

  abbrev pub known : Option UserRow → Action W User
  known none = throw (app_error not_found "user not found")
  known (some user) = pure (to_user user)

  unfoldable pub me : String → Action W User
  me user_id = do user ← accounts.find_by_id user_id; known user
