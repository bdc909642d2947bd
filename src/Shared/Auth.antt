-- ===== src/Shared/Auth.antt =====
-- packages/shared-types/src/auth.ts: accounts, tokens and the claims of a token.
use jobilee.Prelude.{ℕ, String, ◌≡◌, ◌↔◌, Bool, true, false, arith, Eq}

-- the claim `typ`
pub data TokenType : Type 0 where
  access refresh : TokenType

abbrev pub TokenType-beq : TokenType → TokenType → Bool
TokenType-beq access access = true
TokenType-beq refresh refresh = true
TokenType-beq _ _ = false

pub TokenType-beq_iff : (a b : TokenType) → (TokenType-beq a b ≡ true) ↔ (a ≡ b)
TokenType-beq_iff a b = ground arith

instance abbrev pub token_type_eq : Eq TokenType
token_type_eq = record { beq = TokenType-beq; beq_iff = TokenType-beq_iff }

-- `jwtClaimsSchema`
pub record JwtClaims : Type 0 where
  pub sub : String
  pub email : String
  pub typ : TokenType
  pub iat : ℕ
  pub exp : ℕ

pub record User : Type 0 where
  pub id : String
  pub email : String
  pub created_at : ℕ

pub record Credentials : Type 0 where
  pub email : String
  pub password : String

pub record AccessTokenResponse : Type 0 where
  pub access_token : String
  pub expires_in : ℕ

pub record AuthResponse : Type 0 where
  pub user : User
  pub access_token : String
  pub refresh_token : String
  pub expires_in : ℕ
