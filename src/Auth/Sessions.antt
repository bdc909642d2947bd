-- ===== src/Auth/Sessions.antt =====
-- What a session is worth: at the gateway, at a refresh, and at the next login.
use jobilee.Prelude.{
  ℕ, ◌+◌, ◌/◌, ◌<◌, String, ◌≡◌, refl, sym, ap, ◌∙◌, subst, Bool, true, false, Option, none, some,
  arith,
}
use jobilee.Effect.{returned, threw, catch}
use jobilee.Effect.Rules.{
  Ensures, Ensures-bind, Ensures-mono, Ensures-catch, Ensures-any, Ensures-returned, bind_returned,
}
use jobilee.Thrown.{Thrown, app_error, unique_violation}
use jobilee.Shared.Errors.{unauthorized}
use jobilee.Shared.Auth.{TokenType, access, refresh, JwtClaims, Credentials, AuthResponse}
use jobilee.Auth.Tokens.{
  Config, Jose, IsLawful, sign, issue_access_token, issue_refresh_token, verify,
}
use jobilee.Auth.Service.{
  UserRow, Accounts, session, issue_session, register, admit, login_row, login, refresh_session,
  as_conflict,
}
use jobilee.Gateway.Config.{Config as GatewayConfig}
use jobilee.Gateway.Identity.{verified_claims}

module _ {W P : Type 0} (accounts : Accounts W) (jose : Jose P) (config : Config)
    (is_uuid is_email : String → Bool) where
  -- a session of some user
  abbrev IsSession : ℕ → AuthResponse → W → Type 0
  IsSession ms r w = (user : UserRow) × (r ≡ session accounts jose config ms user)

  admit_lem :
      (ms : ℕ) (user : UserRow) (matches : Bool) (w : W)
      → Ensures (admit accounts jose config ms user matches w) (IsSession ms) (λ _. Unit)
  unfolding issue_session
  admit_lem ms user true w = (user, refl)
  admit_lem ms user false w = tt

  login_row_lem :
      (ms : ℕ) (password : String) (o : Option UserRow) (w : W)
      → Ensures (login_row accounts jose config ms password o w) (IsSession ms) (λ _. Unit)
  login_row_lem ms password none w =
      Ensures-bind (accounts.hash password) _ w (λ _ _. Unit) (IsSession ms) (λ _. Unit)
        (Ensures-any _) (λ _ _ _. tt)
  login_row_lem ms password (some user) w =
      Ensures-bind (accounts.verify_hash user.password_hash password) _ w (λ _ _. Unit)
        (IsSession ms) (λ _. Unit) (Ensures-any _) (λ matches w' _. admit_lem ms user matches w')

  login_lem :
      (ms : ℕ) (body : Credentials) (w : W)
      → Ensures (login accounts jose config ms body w) (IsSession ms) (λ _. Unit)
  unfolding login
  login_lem ms body w =
      Ensures-bind (accounts.find_by_email body.email) _ w (λ _ _. Unit) (IsSession ms) (λ _. Unit)
        (Ensures-any _) (λ o w' _. login_row_lem ms body.password o w')

  -- what a verifier with the secret reads in a token
  abbrev pub Reads : GatewayConfig → ℕ → String → String → TokenType → Type 0
  Reads gateway now token sub typ =
      (claims : JwtClaims) × (verified_claims (λ secret. jose.verify secret now) jose.parse_claims
          gateway token
        ≡ some claims)
      × (claims.sub ≡ sub)
      × (claims.typ ≡ typ)

  signed-Reads :
      (gateway : GatewayConfig) (now ms ttl : ℕ) (user_id email : String) (typ : TokenType)
      → IsLawful jose is_uuid is_email
      → gateway.jwt_secret ≡ config.jwt_secret
      → now < ms / 1000 + ttl
      → is_uuid user_id ≡ true
      → is_email email ≡ true
      → Reads gateway now (sign jose config ms user_id email typ ttl) user_id typ
  unfolding verified_claims sign
  signed-Reads gateway now ms ttl user_id email typ lawful same_secret fresh uuid mail =
      let claims : JwtClaims = record {
        sub = user_id;
        email = email;
        typ = typ;
        iat = ms / 1000;
        exp = ms / 1000 + ttl;
      } in
      let (payload, v, c) = lawful.verify-sign config.jwt_secret claims now fresh uuid mail in
      (claims, rw (same_secret, v) c, refl, refl)

  -- At any time before its tokens expire, a session of a login, of a user whose id is a uuid and
  -- whose email the schema accepts, gives the user's id to a gateway with the same secret: as an
  -- access token, and as a refresh token.
  pub login-Reads :
      (gateway : GatewayConfig) (now ms : ℕ) (body : Credentials) (r : AuthResponse) (w w' : W)
      → IsLawful jose is_uuid is_email
      → gateway.jwt_secret ≡ config.jwt_secret
      → now < ms / 1000 + config.jwt_access_ttl
      → now < ms / 1000 + config.jwt_refresh_ttl
      → login accounts jose config ms body w ≡ returned r w'
      → is_uuid r.user.id ≡ true
      → is_email r.user.email ≡ true
      → Reads gateway now r.access_token r.user.id access
        × Reads gateway now r.refresh_token r.user.id refresh
  unfolding issue_access_token issue_refresh_token
  login-Reads gateway now ms body r w w' lawful same_secret access_fresh refresh_fresh e uuid mail =
      let (user, s) = Ensures-returned _ (IsSession ms) (λ _. Unit) r w' e (login_lem ms body w) in
      rw s (
        signed-Reads gateway now ms config.jwt_access_ttl user.id user.email access lawful
            same_secret access_fresh (ap (λ q. is_uuid q.user.id) (sym s) ∙ uuid)
            (ap (λ q. is_email q.user.email) (sym s) ∙ mail),
        signed-Reads gateway now ms config.jwt_refresh_ttl user.id user.email refresh lawful
            same_secret refresh_fresh (ap (λ q. is_uuid q.user.id) (sym s) ∙ uuid)
            (ap (λ q. is_email q.user.email) (sym s) ∙ mail),
      )

  -- Until it expires, the access token of a login of a user whose id is a uuid and whose email the
  -- schema accepts is refused as no refresh token.
  pub refresh_session-login :
      (now ms ms' : ℕ) (body : Credentials) (r : AuthResponse) (w w' v : W)
      → IsLawful jose is_uuid is_email
      → now < ms / 1000 + config.jwt_access_ttl
      → login accounts jose config ms body w ≡ returned r w'
      → is_uuid r.user.id ≡ true
      → is_email r.user.email ≡ true
      → refresh_session accounts jose config now ms' r.access_token v
        ≡ threw (app_error unauthorized "expected a refresh token") v
  unfolding issue_access_token sign refresh_session verify
  refresh_session-login now ms ms' body r w w' v lawful fresh e uuid mail =
      let (user, s) = Ensures-returned _ (IsSession ms) (λ _. Unit) r w' e (login_lem ms body w) in
      let claims : JwtClaims = record {
        sub = user.id;
        email = user.email;
        typ = access;
        iat = ms / 1000;
        exp = ms / 1000 + config.jwt_access_ttl;
      } in
      let (payload, p, c) =
        lawful.verify-sign config.jwt_secret claims now fresh
          (ap (λ q. is_uuid q.user.id) (sym s) ∙ uuid)
          (ap (λ q. is_email q.user.email) (sym s) ∙ mail) in
      rw s (ground (arith, p, c))

as_conflict_lem :
    {W A : Type 0} (e : Thrown) (w : W) (good : A → W → Type 0)
    → Ensures (as_conflict e w) good (λ _. Unit)
as_conflict_lem unique_violation w good = tt
as_conflict_lem e w good = tt

-- argon2 knows a password again, and the database finds a user that it has stored.
pub record Keeps {W : Type 0} (accounts : Accounts W) : Type 1 where
  pub Matches : String → String → Type 0
  pub hash_law :
      (password : String) (w : W)
      → Ensures (accounts.hash password w) (λ h _. Matches h password) (λ _. Unit)
  pub verify_hash_law :
      (h password : String) (w : W)
      → Matches h password
      → accounts.verify_hash h password w ≡ returned true w
  pub create_user_law :
      (email h : String) (w : W)
      → Ensures
          (accounts.create_user email h w)
          (λ u w'. (u.password_hash ≡ h) × (accounts.find_by_email email w' ≡ returned (some u) w'))
          (λ _. Unit)

module _ {W P : Type 0} (accounts : Accounts W) (jose : Jose P) (config : Config)
    (keeps : Keeps accounts) where
  -- the account of a registration: its user and a hash of its password
  abbrev IsRegistered : ℕ → Credentials → AuthResponse → W → Type 0
  IsRegistered ms body r w =
      (user : UserRow) × (r ≡ session accounts jose config ms user)
      × keeps.Matches user.password_hash body.password
      × (accounts.find_by_email body.email w ≡ returned (some user) w)

  abbrev IsCreated : Credentials → UserRow → W → Type 0
  IsCreated body user w =
      keeps.Matches user.password_hash body.password
      × (accounts.find_by_email body.email w ≡ returned (some user) w)

  create_user-IsCreated :
      (body : Credentials) (h : String) (w : W)
      → keeps.Matches h body.password
      → Ensures
          (catch (accounts.create_user body.email h) as_conflict w)
          (IsCreated body)
          (λ _. Unit)
  create_user-IsCreated body h w matches =
      Ensures-catch (accounts.create_user body.email h) as_conflict w (IsCreated body) (λ _. Unit)
        (λ _. Unit)
        (Ensures-mono _
          (λ u v.
            (u.password_hash ≡ h) × (accounts.find_by_email body.email v ≡ returned (some u) v))
          (IsCreated body) (λ _. Unit) (λ _. Unit) (keeps.create_user_law body.email h w)
          (λ u v (same, found).
            (subst (λ g. keeps.Matches g body.password) (sym same) matches, found))
          (λ _ _. tt))
        (λ e v _. as_conflict_lem e v (IsCreated body))

  register_lem :
      (ms : ℕ) (body : Credentials) (w : W)
      → Ensures (register accounts jose config ms body w) (IsRegistered ms body) (λ _. Unit)
  unfolding register issue_session
  register_lem ms body w =
      Ensures-bind (accounts.hash body.password) _ w (λ h _. keeps.Matches h body.password)
        (IsRegistered ms body) (λ _. Unit) (keeps.hash_law body.password w)
        (λ h v matches.
          Ensures-bind (catch (accounts.create_user body.email h) as_conflict) _ v (IsCreated body)
            (IsRegistered ms body) (λ _. Unit) (create_user-IsCreated body h v matches)
            (λ user v' (m, f). (user, refl, m, f)))

  -- Who has registered can log in right away with the same credentials, and is the same user.
  pub login-register :
      (ms ms' : ℕ) (body : Credentials) (r : AuthResponse) (w w' : W)
      → register accounts jose config ms body w ≡ returned r w'
      → (r' : AuthResponse) × (login accounts jose config ms' body w' ≡ returned r' w')
        × (r'.user ≡ r.user)
  unfolding login issue_session
  login-register ms ms' body r w w' e =
      let (user, s, m, f) =
        Ensures-returned _ (IsRegistered ms body) (λ _. Unit) r w' e (register_lem ms body w) in
      (
        session accounts jose config ms' user,
        bind_returned (accounts.find_by_email body.email) _ w' w' (some user) f
            ∙ bind_returned (accounts.verify_hash user.password_hash body.password) _ w' w' true
                (keeps.verify_hash_law user.password_hash body.password w' m),
        sym (ap (λ q. q.user) s),
      )
