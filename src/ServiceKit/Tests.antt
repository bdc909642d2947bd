-- ===== src/ServiceKit/Tests.antt =====
-- The error filter on a failed schema.
use jobilee.Prelude.{◌≡◌, refl, some}
use jobilee.Thrown.{zod_error}
use jobilee.ServiceKit.ErrorFilter.{envelope}

malformed_test : (envelope (some "id") zod_error).status ≡ 400
unfolding envelope
malformed_test = refl
