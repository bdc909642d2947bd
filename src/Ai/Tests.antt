-- ===== src/Ai/Tests.antt =====
-- ai-service run on the memory of Ai/Tests/Memory.
mod Memory
use jobilee.Prelude.{
  ℕ, zero, suc, ◌+◌, min, String, ◌≡◌, refl, ◌⊎◌, inl, inr, Option, none, some, List, [], ◌∷◌,
  arith, eq_iff, ◌==◌, string_eq, if◌then◌else◌,
}
use jobilee.Effect.{Action, returned, threw, after}
use jobilee.Effect.Rules.{Ensures}
use jobilee.Thrown.{other}
use jobilee.Shared.Ai.{queued, running, CreateTaskRequest, research}
use jobilee.Ai.Quota.{Count, nonneg, Redis, Now}
use jobilee.Ai.Quota.Counting.{incremented, decremented, IsCounting, SameCounts}
use jobilee.Ai.Quota.Budget.{accepted_of, requested, accepted_of-min}
use jobilee.Ai.Tasks.{
  TaskRow, TaskPatch, patch_task, Message, ModelRequest, pause_turn, end_turn, text_block,
  other_block, Environment,
}
use jobilee.Ai.Generation.{generate}
use jobilee.Ai.Generation.Billing.{Meters, Bills, CallsAtMost, generate-Bills}
use jobilee.Ai.Service.{create}
use jobilee.Ai.Service.Charges.{LeavesCounts, CountsTo, create-charges}
use jobilee.Ai.Worker.{GenerationJob, process}
use jobilee.Ai.Worker.Keeper.{Delivery, artifact, tailored_resume, Keeper, Keeps, Updated, IsKept}
use jobilee.Ai.Worker.Delivered.{Done, Safe, process-Done}
use jobilee.Ai.Worker.Attempts.{with_stream, process-with_stream}
use jobilee.Ai.Worker.Settled.{IsAnswering, Settled, process-Settled}
use jobilee.Ai.Tests.Memory.{
  redis, new_row, now, env, keeper, env-IsKept, env-IsAnswering, counts_of, redis-IsCounting,
  env-LeavesCounts, meters, brief, job, start, stored_row,
}

generate-Bills_example :
    Ensures
      (generate env brief (start none))
      (Bills env meters 6 0 0 (start none))
      (CallsAtMost env meters 6 (start none))
generate-Bills_example = generate-Bills env meters (λ r w. (refl, refl, refl)) brief (start none)

process-Done_example :
    Ensures
      (process env job 0 (start (some (new_row "ann" brief))))
      (λ _. Done env job keeper)
      (Safe env job keeper)
process-Done_example =
    process-Done env job keeper env-IsKept 0 (new_row "ann" brief)
      (start (some (new_row "ann" brief))) refl (λ e. ground arith)

process-with_stream_example :
    process (with_stream env job (λ r w. threw other w)) job 1 (start (some stored_row))
    ≡ process env job 1 (start (some stored_row))
process-with_stream_example =
    process-with_stream env job keeper env-IsKept (λ r w. threw other w) 1 stored_row "a brief"
      (start (some stored_row)) refl refl

process-Settled_example :
    Settled env job keeper env-IsKept env-IsAnswering
      (after (process env job 2 (start (some stored_row))))
process-Settled_example =
    process-Settled env job keeper env-IsKept env-IsAnswering 2 stored_row (start (some stored_row))
      (omega arith) refl

create-charges_example :
    Ensures
      (create env "ann" brief (start none))
      (λ r w'. (r.status ≡ queued) × CountsTo env counts_of env-LeavesCounts "ann" now 2 w')
      (CountsTo env counts_of env-LeavesCounts "ann" now 1)
create-charges_example =
    create-charges env counts_of env-LeavesCounts "ann" now (λ w. refl) brief 1 (start none) refl
      (omega arith)

accepted_of-min_example :
    accepted_of redis 2 now "ann" ("ann" ∷ "bob" ∷ "ann" ∷ []) (start none)
    ≡ min (requested "ann" ("ann" ∷ "bob" ∷ "ann" ∷ [])) 1
accepted_of-min_example =
    accepted_of-min counts_of redis redis-IsCounting 2 now "ann" ("ann" ∷ "bob" ∷ "ann" ∷ []) 1
      (start none) refl
