-- ===== src/Ai/Worker/Delivered.antt =====
-- A task that is SUCCEEDED has been delivered.
use jobilee.Prelude.{
  ℕ, String, ◌≡◌, ◌≢◌, refl, sym, ◌∙◌, ◌⊎◌, inl, inr, Bool, true, false, Option, none, some, arith,
  if◌then◌else◌,
}
use jobilee.Effect.{Outcome, throw, ignore_errors}
use jobilee.Effect.Rules.{Ensures, Ensures-bind, Ensures-mono, Ensures-catch}
use jobilee.Thrown.{Thrown}
use jobilee.Shared.Ai.{TaskStatus, running, succeeded, failed}
use jobilee.Ai.Tasks.{TaskRow, patch_task, to_status, Environment, refund_now}
use jobilee.Ai.Generation.{GenerationResult, generate}
use jobilee.Ai.Delivery.{deliver}
use jobilee.Ai.Worker.{
  GenerationJob, obtain, finish, attempt, recover, give_up, process_row, process, to_result,
}
use jobilee.Ai.Worker.Keeper.{
  Delivery, delivery_of, Keeper, Keeps, KeepsRows, KeepsBoth, Updated, IsKept, generate-Keeps,
  refund-Keeps, deliver-Holds,
}

running_ne : running ≢ succeeded
running_ne e = ground arith

failed_ne : failed ≢ succeeded
failed_ne e = ground arith

module _ {W : Type 0} (env : Environment W) (job : GenerationJob) (k : Keeper W) where
  -- the task's row, its status and its result
  abbrev pub At : TaskStatus → Option String → W → Type 0
  At status result w =
      (r : TaskRow) × (k.row w job.task_id ≡ some r) × (r.status ≡ status) × (r.result ≡ result)

  -- The row is SUCCEEDED, and the service that owns the result holds it.
  abbrev pub Done : W → Type 0
  Done w =
      (result : String) × At succeeded (some result) w
      × k.Holds (delivery_of job.user_id job.request result) w

  abbrev pub Unfinished : W → Type 0
  Unfinished w = (r : TaskRow) × (k.row w job.task_id ≡ some r) × (r.status ≢ succeeded)

  abbrev pub Safe : W → Type 0
  Safe w = Unfinished w ⊎ Done w

  KeepsRows-At :
      (status : TaskStatus) (result : Option String) (w w' : W)
      → KeepsRows k w w'
      → At status result w
      → At status result w'
  KeepsRows-At status result w w' e (r, a, s, b) = (r, e job.task_id ∙ a, s, b)

  pub Keeps-At :
      (status : TaskStatus) (result : Option String) (w w' : W)
      → Keeps k w w'
      → At status result w
      → At status result w'
  Keeps-At status result w w' e h = KeepsRows-At status result w w' e.0 h

  Keeps-Done : (w w' : W) → Keeps k w w' → Done w → Done w'
  Keeps-Done w w' e (result, a, h) = (result, Keeps-At succeeded (some result) w w' e a, e.1 _ h)

  Keeps-Safe : (w w' : W) → Keeps k w w' → Safe w → Safe w'
  Keeps-Safe w w' e (inl (r, a, s)) = inl (r, e.0 job.task_id ∙ a, s)
  Keeps-Safe w w' e (inr (result, a, h)) = inr (Keeps-Done w w' e (result, a, h))

  running-Safe : (result : Option String) (w : W) → At running result w → Safe w
  running-Safe result w (r, a, s, b) = inl (r, a, λ e. running_ne (sym s ∙ e))

  module _ (kept : IsKept env k) where
    -- a step that keeps, between states that Keeps preserves
    pub step :
        {A : Type 0} (o : Outcome W A) (w : W) (P B : W → Type 0)
        → KeepsBoth k w o
        → ((w' : W) → Keeps k w w' → P w')
        → ((w' : W) → Keeps k w w' → B w')
        → Ensures o (λ _. P) B
    step o w P B h g b = Ensures-mono o (λ _. Keeps k w) (λ _. P) (Keeps k w) B h (λ _. g) b

    pub set_status :
        (status old : TaskStatus) (error result : Option String) (w : W)
        → At old result w
        → Safe w
        → Ensures
            (env.update_task job.task_id (to_status status error) w)
            (λ _ w'. At status result w' × ((d : Delivery) → k.Holds d w → k.Holds d w'))
            Safe
    unfolding patch_task
    set_status status old error result w (r, a, s, b) safe =
        Ensures-mono _ (λ _. Updated k w job.task_id (to_status status error)) _ (Keeps k w) Safe
          (kept.update_law job.task_id (to_status status error) w)
          (λ _ w' (r', a', e, h). ((_, e, refl, ground arith), h)) (λ w' e. Keeps-Safe w w' e safe)

    set_result :
        (g : GenerationResult) (w : W)
        → At running none w
        → Ensures (env.update_task job.task_id (to_result g) w) (λ _. At running (some g.text)) Safe
    unfolding patch_task
    set_result g w (r, a, s, b) =
        Ensures-mono _ (λ _. Updated k w job.task_id (to_result g)) _ (Keeps k w) Safe
          (kept.update_law job.task_id (to_result g) w)
          (λ _ w' (r', a', e, h). (_, e, ground arith, refl))
          (λ w' e. Keeps-Safe w w' e (running-Safe none w (r, a, s, b)))

    obtain_lem :
        (stored : Option String) (w : W)
        → At running stored w
        → Ensures (obtain env job stored w) (λ result. At running (some result)) Safe
    obtain_lem (some result) w h = h
    obtain_lem none w h =
        Ensures-bind (generate env job.request) _ w (λ _. At running none)
          (λ result. At running (some result)) Safe
          (step _ w (At running none) Safe (generate-Keeps env k kept job.request w)
            (λ w' e. Keeps-At running none w w' e h)
            (λ w' e. Keeps-Safe w w' e (running-Safe none w h)))
          (λ g w' a.
            Ensures-bind (env.update_task job.task_id (to_result g)) _ w'
              (λ _. At running (some g.text)) (λ result. At running (some result)) Safe
              (set_result g w' a) (λ _ w'' h. h))

    -- not SUCCEEDED yet, but the result is where it belongs
    abbrev Saved : String → W → Type 0
    Saved result w =
        At running (some result) w × k.Holds (delivery_of job.user_id job.request result) w

    finish_lem :
        (result : String) (w : W)
        → At running (some result) w
        → Ensures (finish env job result w) (λ _. Done) Safe
    finish_lem result w h =
        Ensures-bind (deliver env job.user_id job.request result) _ w (λ _. Saved result)
          (λ _. Done) Safe
          (Ensures-mono _
            (λ _ w'. KeepsRows k w w' × k.Holds (delivery_of job.user_id job.request result) w')
            (λ _. Saved result) (KeepsRows k w) Safe
            (deliver-Holds env k kept job.user_id job.request result w)
            (λ _ w' (e, d). (KeepsRows-At running (some result) w w' e h, d))
            (λ w' e. running-Safe (some result) w' (KeepsRows-At running (some result) w w' e h)))
          (λ _ w' (a, d).
            Ensures-bind (env.update_task job.task_id (to_status succeeded none)) _ w' (λ _. Done)
              (λ _. Done) Safe
              (Ensures-mono _
                (λ _ v.
                  At succeeded (some result) v × ((d : Delivery) → k.Holds d w' → k.Holds d v))
                (λ _. Done) Safe Safe
                (set_status succeeded running none (some result) w' a
                  (running-Safe (some result) w' a))
                (λ _ w'' (a', keep). (result, a', keep _ d)) (λ w'' s. s))
              (λ _ w'' done.
                step _ w'' Done Safe (kept.publish_law _ w'') (λ v e. Keeps-Done w'' v e done)
                  (λ v e. inr (Keeps-Done w'' v e done))))

    pub attempt_lem :
        (stored : Option String) (w : W)
        → At running stored w
        → Ensures (attempt env job stored w) (λ _. Done) Safe
    unfolding attempt
    attempt_lem stored w h =
        Ensures-bind (obtain env job stored) _ w (λ result. At running (some result)) (λ _. Done)
          Safe (obtain_lem stored w h) (λ result w' a. finish_lem result w' a)

    failed-Safe : (result : Option String) (w : W) → At failed result w → Safe w
    failed-Safe result w (r, a, s, b) = inl (r, a, λ e. failed_ne (sym s ∙ e))

    pub Safe-At :
        (w : W) → Safe w → (status : TaskStatus) × (result : Option String) × At status result w
    Safe-At w (inl (r, a, s)) = (r.status, r.result, (r, a, refl, refl))
    Safe-At w (inr (result, a, h)) = (succeeded, some result, a)

    refund_lem :
        (w : W) → Safe w → Ensures (ignore_errors (refund_now env job.user_id) w) (λ _. Safe) Safe
    refund_lem w safe =
        Ensures-catch (refund_now env job.user_id) _ w (λ _. Safe) Safe Safe
          (step _ w Safe Safe (refund-Keeps env k kept job.user_id w)
            (λ w' e. Keeps-Safe w w' e safe) (λ w' e. Keeps-Safe w w' e safe))
          (λ e w' s. s)

    give_up_lem :
        (message : String) (w : W) → Safe w → Ensures (give_up env job message w) (λ _. Done) Safe
    give_up_lem message w safe =
        let (status, result, a) = Safe-At w safe in
        Ensures-bind (env.update_task job.task_id (to_status failed (some message))) _ w (λ _. Safe)
          (λ _. Done) Safe
          (Ensures-mono _ (λ _ v. At failed result v × ((d : Delivery) → k.Holds d w → k.Holds d v))
            (λ _. Safe) Safe Safe (set_status failed status (some message) result w a safe)
            (λ _ v (b, h). failed-Safe result v b) (λ v s. s))
          (λ _ w' s.
            Ensures-bind (env.publish _) _ w' (λ _. Safe) (λ _. Done) Safe
              (step _ w' Safe Safe (kept.publish_law _ w') (λ v e. Keeps-Safe w' v e s)
                (λ v e. Keeps-Safe w' v e s))
              (λ _ w'' s'.
                Ensures-bind (ignore_errors (refund_now env job.user_id)) _ w'' (λ _. Safe)
                  (λ _. Done) Safe (refund_lem w'' s') (λ _ v s''. s'')))

    branch_lem :
        (retry : Bool) (error : Thrown) (message : String) (w : W)
        → Safe w
        → Ensures ((if retry then throw error else give_up env job message) w) (λ _. Done) Safe
    branch_lem true error message w safe = safe
    branch_lem false error message w safe = give_up_lem message w safe

    recover_lem :
        (attempts_made : ℕ) (error : Thrown) (w : W)
        → Safe w
        → Ensures (recover env job attempts_made error w) (λ _. Done) Safe
    unfolding recover
    recover_lem attempts_made error w safe = branch_lem _ error _ w safe

    start_lem :
        (attempts_made : ℕ) (row : TaskRow) (w : W)
        → k.row w job.task_id ≡ some row
        → row.status ≢ succeeded
        → Ensures (process_row env job attempts_made (some row) w) (λ _. Done) Safe
    start_lem attempts_made row w at_row ne =
        Ensures-bind (env.update_task job.task_id (to_status running none)) _ w
          (λ _. At running row.result) (λ _. Done) Safe
          (Ensures-mono _
            (λ _ v. At running row.result v × ((d : Delivery) → k.Holds d w → k.Holds d v))
            (λ _. At running row.result) Safe Safe
            (set_status running row.status none row.result w (row, at_row, refl, refl)
              (inl (row, at_row, ne)))
            (λ _ v (b, h). b) (λ v s. s))
          (λ _ w' a.
            Ensures-bind (env.publish _) _ w' (λ _. At running row.result) (λ _. Done) Safe
              (step _ w' (At running row.result) Safe (kept.publish_law _ w')
                (λ v e. Keeps-At running row.result w' v e a)
                (λ v e. Keeps-Safe w' v e (running-Safe row.result w' a)))
              (λ _ w'' a'.
                Ensures-catch (attempt env job row.result) (recover env job attempts_made) w''
                  (λ _. Done) Safe Safe (attempt_lem row.result w'' a')
                  (λ e v s. recover_lem attempts_made e v s)))

    found_lem :
        (attempts_made : ℕ) (o : Option TaskRow) (row : TaskRow) (w : W)
        → o ≡ some row
        → k.row w job.task_id ≡ some row
        → row.status ≢ succeeded
        → Ensures (process_row env job attempts_made o w) (λ _. Done) Safe
    found_lem attempts_made none row w e at_row ne = cc
    found_lem attempts_made (some row') row w e at_row ne =
        start_lem attempts_made row' w (at_row ∙ sym e) (ground arith)

    -- An attempt that returns leaves the row SUCCEEDED, with a result that the service it belongs
    -- to holds. One that throws leaves it so too, or leaves the row not SUCCEEDED.
    pub process-Done :
        (attempts_made : ℕ) (row : TaskRow) (w : W)
        → k.row w job.task_id ≡ some row
        → row.status ≢ succeeded
        → Ensures (process env job attempts_made w) (λ _. Done) Safe
    unfolding process
    process-Done attempts_made row w at_row ne =
        Ensures-bind (env.find_task job.task_id) _ w
          (λ o w'. (o ≡ k.row w job.task_id) × Keeps k w w') (λ _. Done) Safe
          (Ensures-mono _ (λ o w'. (o ≡ k.row w job.task_id) × Keeps k w w')
            (λ o w'. (o ≡ k.row w job.task_id) × Keeps k w w') (Keeps k w) Safe
            (kept.find_law job.task_id w) (λ o w' h. h)
            (λ w' e. Keeps-Safe w w' e (inl (row, at_row, ne))))
          (λ o w' (e, kp).
            found_lem attempts_made o row w' (e ∙ at_row) (kp.0 job.task_id ∙ at_row) ne)
