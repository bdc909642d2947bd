-- ===== src/Ai/Service/Charges.antt =====
-- What the creation of a task costs.
use Prim.Native.String.{◌++◌}
use jobilee.Prelude.{ℕ, suc, ◌<◌, String, ◌≡◌, refl, ◌∙◌, ap, subst, sym, Option, none, some, arith}
use jobilee.Effect.{Outcome, catch, ignore_errors}
use jobilee.Effect.Rules.{Ensures, Ensures-bind, Ensures-mono, Ensures-catch}
use jobilee.Thrown.{Thrown}
use jobilee.Shared.Ai.{CreateTaskRequest, queued}
use jobilee.Ai.Quota.{Count, nonneg, Now, key_for}
use jobilee.Ai.Quota.Counting.{
  IsCounting, SameCounts, incremented, consume-counted, refund-counted, passes,
}
use jobilee.Ai.Tasks.{TaskRow, TaskPatch, Environment, refund_now}
use jobilee.Ai.Service.{mark_failed, undo, enqueue_new, consume_now, create}

module _ {W : Type 0} (env : Environment W) (count : W → String → Count) where
  -- Redis counts, and the database and the queue leave its counters alone.
  pub record LeavesCounts : Type 0 where
    pub counting : IsCounting count env.redis
    pub create_law :
        (u : String) (r : CreateTaskRequest) (w : W)
        → Ensures (env.create_task u r w) (λ _. SameCounts count w) (SameCounts count w)
    pub enqueue_law :
        (id u : String) (r : CreateTaskRequest) (w : W)
        → Ensures (env.enqueue id u r w) (λ _. SameCounts count w) (SameCounts count w)
    pub update_law :
        (id : String) (p : TaskPatch) (w : W)
        → Ensures (env.update_task id p w) (λ _. SameCounts count w) (SameCounts count w)

module _ {W : Type 0} (env : Environment W) (count : W → String → Count)
    (leaves : LeavesCounts env count) (user_id : String) (day : Now) where
  abbrev pub CountsTo : ℕ → W → Type 0
  CountsTo n w = count w (key_for day user_id) ≡ nonneg n

  -- Whenever the clock is read, it is that day.
  abbrev pub IsOneDay : Type 0
  IsOneDay = (w : W) → (env.now w).today ≡ day.today

  same_key : IsOneDay → (w : W) → key_for (env.now w) user_id ≡ key_for day user_id
  same_key same w = ap (λ today. "quota:generations:" ++ (today ++ (":" ++ user_id))) (same w)

  -- a step that leaves the counters alone
  kept :
      {A : Type 0} (o : Outcome W A) (n : ℕ) (w : W)
      → Ensures o (λ _. SameCounts count w) (SameCounts count w)
      → CountsTo n w
      → Ensures o (λ _. CountsTo n) (CountsTo n)
  kept o n w h c =
      Ensures-mono o (λ _. SameCounts count w) (λ _. CountsTo n) (SameCounts count w) (CountsTo n) h
        (λ _ w' s. s _ ∙ c) (λ w' s. s _ ∙ c)

  mark_failed_lem :
      (task : Option TaskRow) (n : ℕ) (w : W)
      → CountsTo n w
      → Ensures (mark_failed env task w) (λ _. CountsTo n) (CountsTo n)
  mark_failed_lem none n w c = c
  mark_failed_lem (some task) n w c =
      Ensures-catch (env.update_task task.id _) _ w (λ _. CountsTo n) (CountsTo n) (CountsTo n)
        (kept _ n w (leaves.update_law task.id _ w) c) (λ e w' c'. c')

  module _ (same : IsOneDay) where
    refund_lem :
        (n : ℕ) (w : W)
        → CountsTo (suc n) w
        → Ensures (ignore_errors (refund_now env user_id) w) (λ _. CountsTo n) (CountsTo n)
    unfolding refund_now
    refund_lem n w c =
        let (w', e, (s, others)) =
          refund-counted count env.redis leaves.counting env.ai_daily_task_cap (env.now w) user_id
            (suc n) w (ap (count w) (same_key same w) ∙ c) in
        Ensures-catch (refund_now env user_id) _ w (λ _. CountsTo n) (CountsTo n) (CountsTo n)
          (subst (λ o. Ensures o (λ _. CountsTo n) (CountsTo n)) (sym e)
            (ap (count w') (sym (same_key same w)) ∙ (s ∙ ap nonneg (omega arith))))
          (λ e w'' c'. c')

    undo_lem :
        {A : Type 0} (task : Option TaskRow) (error : Thrown) (n : ℕ) (w : W)
        (good : A → W → Type 0)
        → CountsTo (suc n) w
        → Ensures (undo env {A = A} user_id task error w) good (CountsTo n)
    undo_lem task error n w good c =
        Ensures-bind (ignore_errors (refund_now env user_id)) _ w (λ _. CountsTo n) good
          (CountsTo n) (refund_lem n w c)
          (λ _ w' c'.
            Ensures-bind (mark_failed env task) _ w' (λ _. CountsTo n) good (CountsTo n)
              (mark_failed_lem task n w' c') (λ _ w'' c''. c''))

    enqueue_new_lem :
        (body : CreateTaskRequest) (n : ℕ) (w : W)
        → CountsTo (suc n) w
        → Ensures (enqueue_new env user_id body w) (λ _. CountsTo (suc n)) (CountsTo n)
    enqueue_new_lem body n w c =
        Ensures-bind (catch (env.create_task user_id body) (undo env user_id none)) _ w
          (λ _. CountsTo (suc n)) (λ _. CountsTo (suc n)) (CountsTo n)
          (Ensures-catch (env.create_task user_id body) (undo env user_id none) w
            (λ _. CountsTo (suc n)) (CountsTo (suc n)) (CountsTo n)
            (kept _ (suc n) w (leaves.create_law user_id body w) c)
            (λ e w' c'. undo_lem none e n w' (λ _. CountsTo (suc n)) c'))
          (λ task w' c'.
            Ensures-bind (catch (env.enqueue task.id user_id body) (undo env user_id (some task))) _
              w' (λ _. CountsTo (suc n)) (λ _. CountsTo (suc n)) (CountsTo n)
              (Ensures-catch (env.enqueue task.id user_id body) (undo env user_id (some task)) w'
                (λ _. CountsTo (suc n)) (CountsTo (suc n)) (CountsTo n)
                (kept _ (suc n) w' (leaves.enqueue_law task.id user_id body w') c')
                (λ e v d. undo_lem (some task) e n v (λ _. CountsTo (suc n)) d))
              (λ _ v d. d))

    -- Under the cap, while Redis answers and if the clock stays within one day, a creation that returns costs one generation and
    -- answers QUEUED, and one that fails, in the database or in the queue, costs none.
    pub create-charges :
        (body : CreateTaskRequest) (n : ℕ) (w : W)
        → CountsTo n w
        → n < env.ai_daily_task_cap
        → Ensures
            (create env user_id body w)
            (λ r w'. (r.status ≡ queued) × CountsTo (suc n) w')
            (CountsTo n)
    unfolding create
    create-charges body n w c under =
        let (w', e, (s, others)) =
          consume-counted count env.redis leaves.counting env.ai_daily_task_cap (env.now w) user_id
            w in
        let charged =
          e
          ∙ passes count env.redis leaves.counting env.ai_daily_task_cap _ n w'
              (ap (count w) (same_key same w) ∙ c) under in
        Ensures-bind (consume_now env user_id) _ w (λ _. CountsTo (suc n))
          (λ r w'. (r.status ≡ queued) × CountsTo (suc n) w') (CountsTo n)
          (subst (λ o. Ensures o (λ _. CountsTo (suc n)) (CountsTo n)) (sym charged)
            (ap (count w') (sym (same_key same w))
              ∙ (s ∙ ap incremented (ap (count w) (same_key same w) ∙ c))))
          (λ _ v d.
            Ensures-bind (enqueue_new env user_id body) _ v (λ _. CountsTo (suc n))
              (λ r w'. (r.status ≡ queued) × CountsTo (suc n) w') (CountsTo n)
              (enqueue_new_lem body n v d) (λ task v' d'. (refl, d')))
