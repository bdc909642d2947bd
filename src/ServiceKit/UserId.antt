-- ===== src/ServiceKit/UserId.antt =====
-- packages/service-kit/src/user-id.decorator.ts: the caller's id, from the header that the gateway
-- and the services' clients set. `request.header(name)` reads the header.
use jobilee.Prelude.{String, Option, none, some, ◌==◌, string_eq, if◌then◌else◌}
use jobilee.Effect.{Action, pure, throw}
use jobilee.Thrown.{app_error}
use jobilee.Shared.Errors.{user_id_header, unauthorized}
use jobilee.Gateway.Headers.{Headers, header}

abbrev pub caller : {W : Type 0} → Option String → Action W String
caller none = throw (app_error unauthorized "missing user context")
caller (some user_id) =
    if user_id == "" then throw (app_error unauthorized "missing user context") else pure user_id

-- `UserId`
unfoldable pub user_id : {W : Type 0} → Headers → Action W String
unfolding header
user_id headers = caller (header user_id_header headers)
