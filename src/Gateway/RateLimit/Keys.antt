-- ===== src/Gateway/RateLimit/Keys.antt =====
-- Who pays: equal keys mean the same client, the same kind of route and the same limit.
use Prim.Native.Char.{Char, code}
use Prim.Native.String.{◌++◌, ◌∷◌}
use text.Mathlib.TextLemmas.{
  append_cancel_left, append_cancel_right, cons-append, head-eq_of_cons-eq, tail-eq_of_cons-eq,
}
use jobilee.Prelude.{
  ℕ, String, ◌≡◌, ◌≢◌, refl, sym, ap, ◌∙◌, Bool, true, false, some, arith, ◌⊎◌, inl, inr,
  Option-cases, ◌==◌, string_eq, Bool-cases, show, if◌then◌else◌, eq_iff,
}
use jobilee.Gateway.Config.{Config}
use jobilee.Gateway.Routes.{is_public_route}
use jobilee.Gateway.Identity.{GatewayRequest}
use jobilee.Gateway.RateLimit.{charge_of, identity_of, client_ip}

abbrev kind : Bool → String
kind b = if b then "auth" else "api"

-- Texts that begin alike are equal only if they go on alike.
strip : (c : Char) (a b s t : String) → (c ∷ a) ++ s ≡ (c ∷ b) ++ t → a ++ s ≡ b ++ t
strip c a b s t e = tail-eq_of_cons-eq (sym (cons-append c a s) ∙ e ∙ cons-append c b t)

-- Texts that begin differently differ.
apart : (c d : Char) (a b s t : String) → code c ≢ code d → (c ∷ a) ++ s ≢ (d ∷ b) ++ t
apart c d a b s t h e =
    h (ap code (head-eq_of_cons-eq (sym (cons-append c a s) ∙ e ∙ cons-append d b t)))

auth_ne_api : (s t : String) → "auth" ++ s ≢ "api" ++ t
auth_ne_api s t e = apart "u" "p" "th" "i" s t (omega arith) (strip "a" "uth" "pi" s t e)

user_ne_ip : (s t : String) → "user:" ++ s ≢ "ip:" ++ t
user_ne_ip s t e = apart "u" "i" "ser:" "p:" s t (omega arith) e

kind_injective : (a b : Bool) (s t : String) → kind a ++ s ≡ kind b ++ t → (a ≡ b) × (s ≡ t)
kind_injective true true s t e = (refl, append_cancel_left "auth" s t e)
kind_injective false false s t e = (refl, append_cancel_left "api" s t e)
kind_injective true false s t e = absurd (auth_ne_api s t e)
kind_injective false true s t e = absurd (auth_ne_api t s (sym e))

identity_of_user :
    (config : Config) (r : GatewayRequest) (u : String)
    → r.user_id ≡ some u
    → u ≢ ""
    → identity_of config false r ≡ "user:" ++ u
unfolding identity_of
identity_of_user config r u e ne = ground (arith, eq_iff u "")

identity_cases :
    (config : Config) (b : Bool) (r : GatewayRequest)
    → (identity_of config b r ≡ "ip:" ++ client_ip config r)
      ⊎ ((u : String) × (r.user_id ≡ some u)
          × (b ≡ false)
          × (identity_of config b r ≡ "user:" ++ u))
unfolding identity_of
identity_cases config true r = inl refl
identity_cases config false r = elim (Option-cases r.user_id) [
  | inl missing ↦ inl (rw missing)
  | inr (u, e) ↦ elim (Bool-cases (u == "")) [
    | inl empty ↦ inl (ground arith)
    | inr full ↦ inr (u, e, refl, ground arith)
  ]
]

module _ (config : Config) (now now' : ℕ) (r r' : GatewayRequest) where
  abbrev is_auth : GatewayRequest → Bool
  is_auth q = is_public_route q.method q.path

  key_parts :
      (charge_of config now r).key ≡ (charge_of config now' r').key
      → (is_auth r ≡ is_auth r')
        × (identity_of config (is_auth r) r ++ (":" ++ show (charge_of config now r).bucket)
            ≡ identity_of config (is_auth r') r' ++ (":" ++ show (charge_of config now' r').bucket))
  unfolding charge_of
  key_parts e =
      let (same, rest) = kind_injective _ _ _ _ (append_cancel_left "ratelimit:" _ _ e) in
      (same, append_cancel_left ":" _ _ rest)

  -- A key has one limit.
  pub limit_of_key :
      (charge_of config now r).key ≡ (charge_of config now' r').key
      → (charge_of config now r).limit ≡ (charge_of config now' r').limit
  unfolding charge_of
  limit_of_key e = rw (key_parts e).0

  -- A request with the key of an authenticated request of the same window is itself from that user.
  pub user_of_key :
      (u : String)
      → is_auth r ≡ false
      → r.user_id ≡ some u
      → u ≢ ""
      → (charge_of config now r).bucket ≡ (charge_of config now' r').bucket
      → (charge_of config now r).key ≡ (charge_of config now' r').key
      → (is_auth r' ≡ false) × (r'.user_id ≡ some u)
  user_of_key u private e ne window same =
      let (kinds, rest) = key_parts same in
      let ids = rw private at (append_cancel_right _ _ _ (rw window at rest)) in
      let mine = identity_of_user config r u e ne in
      elim (identity_cases config (is_auth r') r') [
        | inl ip ↦ absurd (user_ne_ip u (client_ip config r') (sym mine ∙ ids ∙ ip))
        | inr (u', e', private', theirs) ↦
            (private', e' ∙ ap some (append_cancel_left "user:" u' u (sym theirs ∙ sym ids ∙ mine)))
      ]
