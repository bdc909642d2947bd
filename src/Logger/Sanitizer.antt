-- ===== src/Logger/Sanitizer.antt =====
-- packages/logger/src/index.ts, `sanitize` and `serializeError`. Objects live in a heap, by address,
-- since the sanitizer tells them apart by identity.
use jobilee.Prelude.{
  ℕ, zero, suc, String, Bool, List, [], ◌∷◌, ◌++◌, map, any, ◌==◌, nat_eq, if◌then◌else◌, codes,
  codes_eq, to_lower,
}

-- `REDACTED_KEYS`
abbrev pub redacted_keys : List String
redacted_keys =
    "password" ∷ "passwordhash" ∷ "token" ∷ "accesstoken" ∷ "refreshtoken" ∷ "authorization"
    ∷ "cookie" ∷ "apikey" ∷ "api_key" ∷ "anthropic_api_key" ∷ "jwt_secret" ∷ "secret"
    ∷ "s3_secret_key" ∷ []

-- `REDACTED_KEYS.has(key.toLowerCase())`
unfoldable pub is_redacted : String → Bool
unfolding to_lower
is_redacted key = any (λ k. codes_eq (map to_lower (codes key)) (codes k)) redacted_keys

-- `null`, `undefined`, and the primitive values that JSON has
pub data Scalar : Type 0 where
  null undefined : Scalar
  a_bool : Bool → Scalar
  a_number : ℕ → Scalar
  a_string : String → Scalar

-- A value to log: a bigint and a date by their texts, an array or an object by its address.
mutual
  pub data Value : Type 0 where
    scalar : Scalar → Value
    bigint : String → Value
    date : String → Value
    error_value : LoggedError → Value
    reference : ℕ → Value

  -- an Error: its name, its message, its stack, those of `code`, `status` and `statusCode` that it
  -- has, and its cause
  pub data LoggedError : Type 0 where
    logged_error : String → String → String → Enrichments → Cause → LoggedError

  pub data Enrichments : Type 0 where
    no_more : Enrichments
    enriched : String → Value → Enrichments → Enrichments

  pub data Cause : Type 0 where
    no_cause : Cause
    caused_by : LoggedError → Cause
    other_cause : Value → Cause

abbrev pub Fields : Type 0
Fields = List (String × Value)

pub data Node : Type 0 where
  array : List Value → Node
  object : Fields → Node

abbrev pub Heap : Type 0
Heap = ℕ → Node

-- what `serializeError` gives: fields, whose values are the error's own, and a cause
pub data ErrorFields : Type 0 where
  error_fields : Fields → ErrorFields
  with_cause : Fields → ErrorFields → ErrorFields

-- what `sanitize` gives
mutual
  pub data Clean : Type 0 where
    leaf : Scalar → Clean
    serialized : ErrorFields → Clean
    cleaned_array : CleanItems → Clean
    cleaned_object : CleanFields → Clean

  pub data CleanItems : Type 0 where
    no_items : CleanItems
    item : Clean → CleanItems → CleanItems

  pub data CleanFields : Type 0 where
    no_fields : CleanFields
    field : String → Clean → CleanFields → CleanFields

abbrev pub enrichments : Enrichments → Fields
enrichments no_more = []
enrichments (enriched key v rest) = (key, v) ∷ enrichments rest

abbrev named : String → String → String → Enrichments → Fields
named name message stack enriching =
    ("name", scalar (a_string name))
    ∷ ("message", scalar (a_string message))
    ∷ ("stack", scalar (a_string stack))
    ∷ enrichments enriching

-- `serializeError`
unfoldable mutual
  pub serialize_error : LoggedError → ErrorFields
  serialize_error (logged_error name message stack enriching cause) =
      add_cause (named name message stack enriching) cause

  pub add_cause : Fields → Cause → ErrorFields
  add_cause out no_cause = error_fields out
  add_cause out (caused_by e) = with_cause out (serialize_error e)
  add_cause out (other_cause v) = error_fields (out ++ ("cause", v) ∷ [])

-- the addresses in `seen`
abbrev pub has_seen : ℕ → List ℕ → Bool
has_seen a seen = any (λ b. b == a) seen

-- `value.map(…)`, with `seen` passed on
unfoldable pub sanitize_items :
    (Value → List ℕ → Clean × List ℕ) → List Value → List ℕ → CleanItems × List ℕ
sanitize_items each [] seen = (no_items, seen)
sanitize_items each (v ∷ vs) seen =
    let (c, seen') = each v seen in
    let (cs, seen'') = sanitize_items each vs seen' in (item c cs, seen'')

-- the loop over the entries
unfoldable pub sanitize_fields :
    (Value → List ℕ → Clean × List ℕ) → Fields → List ℕ → CleanFields × List ℕ
unfolding is_redacted
sanitize_fields each [] seen = (no_fields, seen)
sanitize_fields each ((key, v) ∷ rest) seen =
    let (c, seen') =
      if is_redacted key then (leaf (a_string "[redacted]"), seen) else each v seen in
    let (cs, seen'') = sanitize_fields each rest seen' in (field key c cs, seen'')

unfoldable pub sanitize_node : (Value → List ℕ → Clean × List ℕ) → Node → List ℕ → Clean × List ℕ
unfolding sanitize_items sanitize_fields
sanitize_node each (array items) seen =
    let (cs, seen') = sanitize_items each items seen in (cleaned_array cs, seen')
sanitize_node each (object fields) seen =
    let (cs, seen') = sanitize_fields each fields seen in (cleaned_object cs, seen')

-- `sanitize`, with the levels that are left below the limit of 8
unfoldable pub sanitize : Heap → ℕ → Value → List ℕ → Clean × List ℕ
unfolding sanitize_node serialize_error
sanitize heap left (scalar s) seen = (leaf s, seen)
sanitize heap left (bigint s) seen = (leaf (a_string s), seen)
sanitize heap left (error_value e) seen = (serialized (serialize_error e), seen)
sanitize heap left (date s) seen = (leaf (a_string s), seen)
sanitize heap zero (reference a) seen = (leaf (a_string "[depth-limit]"), seen)
sanitize heap (suc left) (reference a) seen =
    if has_seen a seen
    then (leaf (a_string "[circular]"), seen)
    else sanitize_node (sanitize heap left) (heap a) (a ∷ seen)
