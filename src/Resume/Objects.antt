-- ===== src/Resume/Objects.antt =====
-- services/resume-service/src/storage/storage.service.ts: the keys and the calls of the object
-- storage. The S3 client and its signer, the random ids and the clock are parameters.
use Prim.Native.String.{[], ◌∷◌, ◌++◌}
use Prim.Native.Char.{Char, code}
use jobilee.Prelude.{
  ℕ, ◌+◌, ◌*◌, String, Bool, true, false, Option, none, some, ◌==◌, nat_eq, if◌then◌else◌,
}
use jobilee.Effect.{Action, pure, catch, ignore_errors, ◌>>=◌}

-- the commands of the bucket; the bytes are of type `B`
pub record Bucket (W B : Type 0) : Type 0 where
  pub head_bucket : Action W (Unit {0})
  pub create_bucket : Action W (Unit {0})
  pub put_object : String → B → String → Action W (Unit {0})
  pub delete_object : String → Action W (Unit {0})
  -- `getSignedUrl` of a GetObjectCommand with a key and a content disposition, for so many seconds
  pub get_signed_url : String → String → ℕ → Action W String
  -- the milliseconds of `Date.now()`
  pub now : W → ℕ
  pub signed_url_ttl : ℕ

-- `slice(lastIndexOf("."))` where there is a "."
abbrev extend : Char → String → Option String → Option String
extend c s (some extension) = some extension
extend c s none = if code c == b'.' then some (c ∷ s) else none

unfoldable pub last_extension : String → Option String
last_extension [] = none
last_extension (c ∷ s) = extend c s (last_extension s)

abbrev pub or_empty : Option String → String
or_empty none = ""
or_empty (some s) = s

-- `replace(/"/g, "")`
unfoldable pub without_quotes : String → String
without_quotes [] = []
without_quotes (c ∷ s) = let rest = without_quotes s in if code c == b'"' then rest else c ∷ rest

pub record SignedUrl : Type 0 where
  pub url : String
  pub expires_at : ℕ

-- the key of a user's file, with a random id
unfoldable pub object_key : (String → String) → String → String → String → String
unfolding last_extension
object_key to_lower_case user_id filename id =
    "u/" ++ (user_id ++ ("/" ++ (id ++ to_lower_case (or_empty (last_extension filename)))))

-- `buildObjectKey`
unfoldable pub build_object_key :
    {W : Type 0} → Action W String → (String → String) → String → String → Action W String
unfolding object_key
build_object_key random_uuid to_lower_case user_id filename = do
  id ← random_uuid
  pure (object_key to_lower_case user_id filename id)

module _ {W B : Type 0} (bucket : Bucket W B) where
  unfoldable pub put : String → B → String → Action W (Unit {0})
  put object_key body content_type = bucket.put_object object_key body content_type

  unfoldable pub remove : String → Action W (Unit {0})
  remove object_key = bucket.delete_object object_key

  abbrev read_clock : Action W ℕ
  read_clock w = pure (bucket.now w) w

  unfoldable pub signed_download_url : String → String → Action W SignedUrl
  unfolding without_quotes
  signed_download_url object_key filename = do
    url ←
        bucket.get_signed_url object_key
          ("attachment; filename=\"" ++ (without_quotes filename ++ "\"")) bucket.signed_url_ttl
    now ← read_clock
    pure (record { url = url; expires_at = now + bucket.signed_url_ttl * 1000 })

  unfoldable pub is_reachable : Action W Bool
  is_reachable = catch (do _ ← bucket.head_bucket; pure true) (λ _. pure false)

  -- `onModuleInit`, without its log lines
  unfoldable pub on_module_init : Action W (Unit {0})
  on_module_init = catch bucket.head_bucket (λ _. ignore_errors bucket.create_bucket)
