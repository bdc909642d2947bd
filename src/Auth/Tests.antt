-- ===== src/Auth/Tests.antt =====
-- Sessions over one account in memory. Tokens are the claims in clear behind the secret: a text is
-- written with an "x" before each character, a number in ones, and a point ends both.
use Prim.Native.Char.{Char, code}
use Prim.Native.String.{[], ◌∷◌, len, slice}
use jobilee.Prelude.{
  ℕ, zero, suc, ◌+◌, String, ◌≡◌, refl, ap, ◌∙◌, Bool, false, ◌&&◌, ◌||◌, Option, none, some, ltb,
  arith, eq_iff, ◌==◌, nat_eq, string_eq, if◌then◌else◌, lt→ltb,
}
use jobilee.Effect.{Outcome, returned, threw}
use jobilee.Effect.Rules.{Ensures}
use jobilee.Thrown.{app_error, unique_violation}
use jobilee.Shared.Errors.{unauthorized}
use jobilee.Shared.Auth.{TokenType, access, refresh, JwtClaims, Credentials, AuthResponse}
use jobilee.Auth.Tokens.{Config, Jose, IsLawful}
use jobilee.Auth.Service.{UserRow, Accounts, session, login, refresh_session, issue_session}
use jobilee.Auth.Sessions.{Reads, login-Reads, refresh_session-login, Keeps}
use jobilee.Gateway.Config.{Config as GatewayConfig}

abbrev and_then : {A B : Type 0} → Option A → (A → Option B) → Option B
and_then none f = none
and_then (some a) f = f a

write_text : String → String → String
write_text [] rest = "." ∷ rest
write_text (c ∷ s) rest = "x" ∷ (c ∷ write_text s rest)

abbrev prepend : Char → Option (String × String) → Option (String × String)
prepend c none = none
prepend c (some (s, rest)) = some (c ∷ s, rest)

read_text : String → Option (String × String)
read_text [] = none
read_text (c ∷ []) = if code c == b'.' then some ("", "") else none
read_text (c ∷ (d ∷ rest)) =
    let later = read_text rest in if code c == b'.' then some ("", d ∷ rest) else prepend d later

read_text-write_text : (s rest : String) → read_text (write_text s rest) ≡ some (s, rest)
unfolding read_text write_text
read_text-write_text [] [] = refl
read_text-write_text [] (d ∷ rest) = refl
read_text-write_text (c ∷ s) rest = ap (prepend c) (read_text-write_text s rest)

write_number : ℕ → String → String
write_number zero rest = "." ∷ rest
write_number (suc n) rest = "1" ∷ write_number n rest

abbrev increase : Option (ℕ × String) → Option (ℕ × String)
increase none = none
increase (some (n, rest)) = some (suc n, rest)

read_number : String → Option (ℕ × String)
read_number [] = none
read_number (c ∷ rest) =
    let later = read_number rest in if code c == b'.' then some (0, rest) else increase later

read_number-write_number :
    (n : ℕ) (rest : String) → read_number (write_number n rest) ≡ some (n, rest)
unfolding read_number write_number
read_number-write_number zero rest = refl
read_number-write_number (suc n) rest = ap increase (read_number-write_number n rest)

abbrev write_type : TokenType → String
write_type access = "a"
write_type refresh = "r"

abbrev read_type : String → Option TokenType
read_type s = if s == "a" then some access else some refresh

write_token : String → JwtClaims → String
write_token secret c = write_text secret (
    write_text c.sub (
      write_text c.email
        (write_text (write_type c.typ) (write_number c.iat (write_number c.exp "")))))

read_token : String → Option (String × JwtClaims)
read_token token = and_then (read_text token) (λ (secret, t₁). and_then (read_text t₁) (λ (sub, t₂).
    and_then (read_text t₂) (λ (email, t₃). and_then (read_text t₃) (λ (typ, t₄).
      and_then (read_type typ) (λ typ. and_then (read_number t₄) (λ (iat, t₅).
        and_then (read_number t₅) (λ (exp, t₆).
          some (secret, record { sub = sub; email = email; typ = typ; iat = iat; exp = exp }))))))))

read_type-write_type : (typ : TokenType) → read_type (write_type typ) ≡ some typ
read_type-write_type access = refl
read_type-write_type refresh = refl

read_token-write_token :
    (secret : String) (c : JwtClaims) → read_token (write_token secret c) ≡ some (secret, c)
unfolding read_token write_token
read_token-write_token secret c =
    rw
      (
        read_text-write_text, read_text-write_text, read_text-write_text, read_text-write_text,
        read_type-write_type, read_number-write_number, read_number-write_number,
      )
      refl

-- the secret must match, and the time must lie before the expiry
abbrev accept : String → ℕ → String × JwtClaims → Option JwtClaims
accept secret now (s, c) = if s == secret then (if ltb now c.exp then some c else none) else none

-- eight characters, a dash, four and a dash three times, and twelve
abbrev has_dash : String → ℕ → Bool
has_dash s i = slice s i (i + 1) == "-"

abbrev is_uuid : String → Bool
is_uuid s = len s == 36 && (has_dash s 8 && (has_dash s 13 && (has_dash s 18 && has_dash s 23)))

-- an "@" in the text
is_email : String → Bool
is_email [] = false
is_email (c ∷ s) = code c == b'@' || is_email s

abbrev jose : Jose JwtClaims
jose = record {
  sign = write_token;
  verify = λ secret now token. and_then (read_token token) (accept secret now);
  parse_claims = λ c. if is_uuid c.sub && is_email c.email then some c else none;
}

jose-IsLawful : IsLawful jose is_uuid is_email
jose-IsLawful = record {
  verify-sign = λ secret claims now fresh uuid mail. (
    claims,
    ap (λ t. and_then t (accept secret now)) (read_token-write_token secret claims)
        ∙ ground (arith, eq_iff secret secret, lt→ltb now claims.exp fresh),
    rw (uuid, mail) refl,
  );
}

-- the world is the one account, if there is one
abbrev ann_id : String
ann_id = "0b1f3c52-6d7e-4a8b-9c0d-1e2f3a4b5c6d"

abbrev account : String → String → UserRow
account email password_hash = record {
  id = ann_id;
  email = email;
  password_hash = password_hash;
  created_at = 0;
}

abbrev insert : String → String → Option UserRow → Outcome (Option UserRow) UserRow
insert email h none = returned (account email h) (some (account email h))
insert email h (some row) = threw unique_violation (some row)

abbrev find : String → Option UserRow → Option UserRow
find email none = none
find email (some row) = if row.email == email then some row else none

abbrev accounts : Accounts (Option UserRow)
accounts = record {
  hash = λ password w. returned ("#" ∷ password) w;
  verify_hash = λ h password w. returned (h == ("#" ∷ password)) w;
  create_user = insert;
  find_by_email = λ email w. returned (find email w) w;
  find_by_id = λ id w. returned w w;
}

insert_law :
    (email h : String) (w : Option UserRow)
    → Ensures
        (insert email h w)
        (λ u w'. (u.password_hash ≡ h) × (accounts.find_by_email email w' ≡ returned (some u) w'))
        (λ _. Unit)
insert_law email h none = (refl, ground (arith, eq_iff email email))
insert_law email h (some row) = tt

accounts-Keeps : Keeps accounts
accounts-Keeps = record {
  Matches = λ h password. h ≡ "#" ∷ password;
  hash_law = λ password w. refl;
  verify_hash_law = λ h password w m. ground (arith, eq_iff h ("#" ∷ password));
  create_user_law = insert_law;
}

abbrev config : Config
config = record { jwt_secret = "k"; jwt_access_ttl = 2; jwt_refresh_ttl = 3 }

abbrev gateway : GatewayConfig
gateway = record {
  jwt_secret = "k";
  auth_service_url = "http://auth:3001";
  jobs_service_url = none;
  resume_service_url = none;
  ai_service_url = none;
  rate_limit_window_seconds = 60;
  rate_limit_max = 300;
  rate_limit_auth_max = 20;
  trust_proxy = false;
}

abbrev ann : Credentials
ann = record { email = "ann@example.org"; password = "12345678" }

abbrev row : UserRow
row = account "ann@example.org" "#12345678"

abbrev ann_session : AuthResponse
ann_session = session accounts jose config 1000 row

login-Reads_example :
    Reads accounts jose config is_uuid is_email gateway 2 ann_session.access_token ann_id access
    × Reads accounts jose config is_uuid is_email gateway 2 ann_session.refresh_token ann_id refresh
unfolding login issue_session is_email
login-Reads_example =
    login-Reads accounts jose config is_uuid is_email gateway 2 1000 ann ann_session (some row)
      (some row) jose-IsLawful refl (omega arith) (omega arith) refl refl refl

refresh_session-login_example :
    refresh_session accounts jose config 2 2000 ann_session.access_token (some row)
    ≡ threw (app_error unauthorized "expected a refresh token") (some row)
unfolding login issue_session is_email
refresh_session-login_example =
    refresh_session-login accounts jose config is_uuid is_email 2 1000 2000 ann ann_session
      (some row) (some row) (some row) jose-IsLawful (omega arith) refl refl refl
