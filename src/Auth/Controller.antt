-- ===== src/Auth/Controller.antt =====
-- services/auth-service/src/auth/auth.controller.ts: what each route checks and calls.
use jobilee.Prelude.{ℕ, String, Option}
use jobilee.Effect.{Action, ◌>>=◌}
use jobilee.Shared.Auth.{User, Credentials, AccessTokenResponse, AuthResponse}
use jobilee.ServiceKit.ZodPipe.{transform}
use jobilee.Auth.Tokens.{Config, Jose}
use jobilee.Auth.Service
use jobilee.Auth.Service.{Accounts}

-- the schemas of the bodies, `R` being the type of what was sent
pub record AuthSchemas (R : Type 0) : Type 0 where
  pub credentials_to_register : R → Option Credentials
  pub credentials_to_login : R → Option Credentials
  pub refresh_token : R → Option String

module _ {W P R : Type 0} (accounts : Accounts W) (jose : Jose P) (config : Config)
    (schemas : AuthSchemas R) where
  unfoldable pub register_route : ℕ → R → Action W AuthResponse
  unfolding Service.register
  register_route ms raw = do
    body ← transform schemas.credentials_to_register raw
    Service.register accounts jose config ms body

  unfoldable pub login_route : ℕ → R → Action W AuthResponse
  unfolding Service.login
  login_route ms raw = do
    body ← transform schemas.credentials_to_login raw
    Service.login accounts jose config ms body

  -- `now` is the time of the verification, in seconds
  unfoldable pub refresh_route : ℕ → ℕ → R → Action W AccessTokenResponse
  unfolding Service.refresh_session
  refresh_route now ms raw = do
    token ← transform schemas.refresh_token raw
    Service.refresh_session accounts jose config now ms token

  -- the identity is the one that the gateway injected
  unfoldable pub me_route : String → Action W User
  unfolding Service.me
  me_route user_id = Service.me accounts jose config user_id
