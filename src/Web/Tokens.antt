-- ===== src/Web/Tokens.antt =====
-- apps/web/src/api/tokens.ts: the access token in memory and the refresh token in the browser's
-- storage, which may refuse every access.
use jobilee.Prelude.{String, Bool, Option, none, if◌then◌else◌}

pub record Tab : Type 0 where
  -- `accessToken`
  pub access_token : Option String
  -- the entry `jobilee.refreshToken` of localStorage, and whether localStorage throws
  pub stored : Option String
  pub storage_throws : Bool

abbrev pub get_access_token : Tab → Option String
get_access_token t = t.access_token

abbrev pub set_access_token : Option String → Tab → Tab
set_access_token token t = record t { access_token = token }

unfoldable pub get_refresh_token : Tab → Option String
get_refresh_token t = if t.storage_throws then none else t.stored

unfoldable pub set_refresh_token : Option String → Tab → Tab
set_refresh_token token t = if t.storage_throws then t else record t { stored = token }

unfoldable pub clear_tokens : Tab → Tab
unfolding set_refresh_token
clear_tokens t = set_refresh_token none (set_access_token none t)
