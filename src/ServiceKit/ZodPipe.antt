-- ===== src/ServiceKit/ZodPipe.antt =====
-- packages/service-kit/src/zod.pipe.ts: the pipe that checks an argument of a handler by its schema.
use jobilee.Prelude.{Option, none, some}
use jobilee.Effect.{Action, pure, throw}
use jobilee.Thrown.{zod_error}

-- `ZodValidationPipe.transform`; the schema is a parameter
abbrev pub transform : {W R A : Type 0} → (R → Option A) → R → Action W A
transform schema value = elim (schema value) [ none ↦ throw zod_error | some a ↦ pure a ]
