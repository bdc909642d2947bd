-- ===== src/Ai/Worker/Settled.antt =====
-- What the last attempt leaves.
use jobilee.Prelude.{
  ℕ, suc, String, ◌≡◌, refl, sym, ◌∙◌, subst, Bool, true, false, ◌&&◌, Option, none, some, ltb, ◌≤◌,
  arith, if◌then◌else◌,
}
use jobilee.Effect.{Outcome, returned, throw, after, catch, ignore_errors}
use jobilee.Effect.Rules.{Ensures, Ensures-bind, Ensures-mono, Ensures-catch, Ensures-after}
use jobilee.Thrown.{Thrown}
use jobilee.Shared.Ai.{TaskStatus, running, failed, is_terminal_status}
use jobilee.Ai.Tasks.{TaskRow, TaskPatch, patch_task, to_status, TaskEvent, Environment, refund_now}
use jobilee.Ai.Generation.{describe_failure}
use jobilee.Ai.Worker.{GenerationJob, event, attempt, recover, give_up, process_row, process}
use jobilee.Ai.Worker.Keeper.{Keeper, Keeps, Updated, IsKept, refund-Keeps}
use jobilee.Ai.Worker.Delivered.{At, Done, Safe, Safe-At, Keeps-At, step, attempt_lem}

-- A database and a Redis that answer.
pub record IsAnswering {W : Type 0} (env : Environment W) (k : Keeper W) : Type 0 where
  pub find_answers :
      (id : String) (w : W) → (o : Option TaskRow) × (w' : W) × (env.find_task id w ≡ returned o w')
  pub update_answers :
      (id : String) (patch : TaskPatch) (row : TaskRow) (w : W)
      → k.row w id ≡ some row
      → (w' : W) × (env.update_task id patch w ≡ returned tt w')
  pub publish_answers : (e : TaskEvent) (w : W) → (w' : W) × (env.publish e w ≡ returned tt w')

-- what a call ensures that is known to return
sure :
    {W A : Type 0} (o : Outcome W A) (good : A → W → Type 0) (bad bad' : W → Type 0) (a : A) (w : W)
    → o ≡ returned a w
    → Ensures o good bad
    → Ensures o good bad'
sure o good bad bad' a w e h =
    subst (λ p. Ensures p good bad') (sym e) (subst (λ p. Ensures p good bad) e h)

no_retry : (can_retry : Bool) (n m : ℕ) → m ≤ suc n → (can_retry && ltb (suc n) m) ≡ false
no_retry can_retry n m h = ground arith

module _ {W : Type 0} (env : Environment W) (job : GenerationJob) (k : Keeper W)
    (kept : IsKept env k) (answering : IsAnswering env k) where
  -- the row is SUCCEEDED or FAILED
  abbrev pub Settled : W → Type 0
  Settled w =
      (row : TaskRow) × (k.row w job.task_id ≡ some row) × (is_terminal_status row.status ≡ true)

  update_sure :
      (status old : TaskStatus) (error result : Option String) (w : W) (bad : W → Type 0)
      → At env job k old result w
      → Ensures
          (env.update_task job.task_id (to_status status error) w)
          (λ _. At env job k status result)
          bad
  unfolding patch_task
  update_sure status old error result w bad (r, a, s, b) =
      let (w', e) = answering.update_answers job.task_id (to_status status error) r w a in
      sure _ (λ _. At env job k status result) (λ _. Unit) bad tt w' e
        (Ensures-mono _ (λ _. Updated k w job.task_id (to_status status error)) _ (Keeps k w)
          (λ _. Unit) (kept.update_law job.task_id (to_status status error) w)
          (λ _ v (r', a', u, h). (_, u, refl, ground arith)) (λ _ _. tt))

  publish_sure :
      (status : TaskStatus) (result : Option String) (e : TaskEvent) (w : W) (bad : W → Type 0)
      → At env job k status result w
      → Ensures (env.publish e w) (λ _. At env job k status result) bad
  publish_sure status result e w bad a =
      let (w', p) = answering.publish_answers e w in
      sure _ (λ _. At env job k status result) (λ _. Unit) bad tt w' p
        (step env job k kept _ w (At env job k status result) (λ _. Unit) (kept.publish_law e w)
          (λ v h. Keeps-At env job k status result w v h a) (λ _ _. tt))

  failed-Settled : (result : Option String) (w : W) → At env job k failed result w → Settled w
  failed-Settled result w (r, a, s, b) = (r, a, ground arith)

  give_up-Settled :
      (message : String) (status : TaskStatus) (result : Option String) (w : W)
      → At env job k status result w
      → Ensures (give_up env job message w) (λ _. Settled) Settled
  give_up-Settled message status result w a =
      Ensures-bind (env.update_task job.task_id (to_status failed (some message))) _ w
        (λ _. At env job k failed result) (λ _. Settled) Settled
        (update_sure failed status (some message) result w Settled a)
        (λ _ w' b.
          Ensures-bind (env.publish (event env job failed none (some message))) _ w'
            (λ _. At env job k failed result) (λ _. Settled) Settled
            (publish_sure failed result _ w' Settled b)
            (λ _ w'' c.
              Ensures-bind (ignore_errors (refund_now env job.user_id)) _ w''
                (λ _. At env job k failed result) (λ _. Settled) Settled
                (Ensures-catch (refund_now env job.user_id) _ w'' (λ _. At env job k failed result)
                  (At env job k failed result) Settled
                  (step env job k kept _ w'' (At env job k failed result)
                    (At env job k failed result) (refund-Keeps env k kept job.user_id w'')
                    (λ v h. Keeps-At env job k failed result w'' v h c)
                    (λ v h. Keeps-At env job k failed result w'' v h c))
                  (λ e v d. d))
                (λ _ v d. failed-Settled result v d)))

  last_branch :
      (retry : Bool) (error : Thrown) (message : String) (status : TaskStatus)
      (result : Option String) (w : W)
      → retry ≡ false
      → At env job k status result w
      → Ensures ((if retry then throw error else give_up env job message) w) (λ _. Settled) Settled
  last_branch true error message status result w e a = cc
  last_branch false error message status result w e a = give_up-Settled message status result w a

  recover-Settled :
      (attempts_made : ℕ) (error : Thrown) (status : TaskStatus) (result : Option String) (w : W)
      → env.ai_max_attempts ≤ suc attempts_made
      → At env job k status result w
      → Ensures (recover env job attempts_made error w) (λ _. Settled) Settled
  unfolding recover
  recover-Settled attempts_made error status result w last a =
      last_branch _ error _ status result w
        (no_retry (describe_failure error).can_retry attempts_made env.ai_max_attempts last) a

  Done-Settled : (w : W) → Done env job k w → Settled w
  Done-Settled w (result, (r, a, s, b), h) = (r, a, ground arith)

  caught-Settled :
      (attempts_made : ℕ) (stored : Option String) (w : W)
      → env.ai_max_attempts ≤ suc attempts_made
      → At env job k running stored w
      → Ensures
          (catch (attempt env job stored) (recover env job attempts_made) w)
          (λ _. Settled)
          Settled
  caught-Settled attempts_made stored w last a =
      Ensures-catch (attempt env job stored) (recover env job attempts_made) w (λ _. Settled)
        (Safe env job k) Settled
        (Ensures-mono _ (λ _. Done env job k) (λ _. Settled) (Safe env job k) (Safe env job k)
          (attempt_lem env job k kept stored w a) (λ _ v d. Done-Settled v d) (λ v s. s))
        (λ e v s.
          let (status, result, b) = Safe-At env job k kept v s in
          recover-Settled attempts_made e status result v last b)

  start-Settled :
      (attempts_made : ℕ) (o : Option TaskRow) (row : TaskRow) (w : W)
      → env.ai_max_attempts ≤ suc attempts_made
      → o ≡ some row
      → k.row w job.task_id ≡ some row
      → Ensures (process_row env job attempts_made o w) (λ _. Settled) Settled
  start-Settled attempts_made none row w last e at_row = cc
  start-Settled attempts_made (some row') row w last e at_row =
      Ensures-bind (env.update_task job.task_id (to_status running none)) _ w
        (λ _. At env job k running row'.result) (λ _. Settled) Settled
        (update_sure running row'.status none row'.result w Settled
          (row', at_row ∙ sym e, refl, refl))
        (λ _ w' a.
          Ensures-bind (env.publish (event env job running none none)) _ w'
            (λ _. At env job k running row'.result) (λ _. Settled) Settled
            (publish_sure running row'.result _ w' Settled a)
            (λ _ w'' b. caught-Settled attempts_made row'.result w'' last b))

  -- While the database and Redis answer, the last attempt that a task has leaves its row SUCCEEDED
  -- or FAILED, whatever the model and the other services do, and whatever it left before.
  pub process-Settled :
      (attempts_made : ℕ) (row : TaskRow) (w : W)
      → env.ai_max_attempts ≤ suc attempts_made
      → k.row w job.task_id ≡ some row
      → Settled (after (process env job attempts_made w))
  unfolding process
  process-Settled attempts_made row w last at_row =
      let (o, w', found) = answering.find_answers job.task_id w in
      Ensures-after _ (λ _. Settled) Settled Settled
        (Ensures-bind (env.find_task job.task_id) _ w
          (λ o v. (o ≡ k.row w job.task_id) × Keeps k w v) (λ _. Settled) Settled
          (sure _ (λ o v. (o ≡ k.row w job.task_id) × Keeps k w v) (Keeps k w) Settled o w' found
            (kept.find_law job.task_id w))
          (λ o v (e, kp).
            start-Settled attempts_made o row v last (e ∙ at_row) (kp.0 job.task_id ∙ at_row)))
        (λ _ v s. s) (λ v s. s)
