-- ===== src/Web/Generation/Polling.antt =====
-- How long the browser polls for a task, and what it makes of the answers.
use jobilee.Prelude.{ℕ, zero, suc, ◌+◌, ◌≤◌, ◌≡◌, String, Option, arith}
use jobilee.Effect.{Action}
use jobilee.Effect.Meets.{Meets, Meets-bind, Meets-mono}
use jobilee.Shared.Ai.{TaskStatus, queued, running, succeeded, failed}
use jobilee.Web.Generation.Rules.{cancelled-Meets, terminal-Meets}
use jobilee.Web.Generation.{
  generating, GenerationState, Settled, Hook, on_status, max_polls, poll_once, poll_after_sleep,
  poll, await_via_polling,
}

module _ {W : Type 0} (hook : Hook W) (reads : W → ℕ) where
  -- A reading of the task counts once, whether it returns or throws; nothing else counts.
  pub record CountsReads : Type 0 where
    pub get_law :
        (task_id : String) (w : W)
        → Meets
            (hook.get_task task_id w)
            (λ _ w'. reads w' ≡ suc (reads w))
            (λ _ w'. reads w' ≡ suc (reads w))
    pub sleep_law :
        (w : W) → Meets (hook.sleep w) (λ _ w'. reads w' ≡ reads w) (λ _ w'. reads w' ≡ reads w)
    pub set_law :
        (f : GenerationState → GenerationState) (w : W) → reads (hook.set_state f w) ≡ reads w

  abbrev pub AtMost : ℕ → W → Type 0
  AtMost k w = reads w ≤ k

  module _ (counts : CountsReads) (task_id : String) where
    on_status_lem :
        (status : TaskStatus) (k : ℕ) (w : W)
        → AtMost k w
        → Meets (on_status hook status w) (λ _. AtMost k) (λ _. AtMost k)
    unfolding on_status
    on_status_lem running k w h =
        omega (arith, counts.set_law (λ s. record s { phase = generating }) w)
    on_status_lem queued k w h = h
    on_status_lem succeeded k w h = h
    on_status_lem failed k w h = h

    get_lem :
        (k : ℕ) (w : W)
        → AtMost k w
        → Meets (hook.get_task task_id w) (λ _. AtMost (suc k)) (λ _. AtMost (suc k))
    get_lem k w h =
        Meets-mono (hook.get_task task_id w) (λ _ w'. reads w' ≡ suc (reads w))
          (λ _. AtMost (suc k)) (λ _ w'. reads w' ≡ suc (reads w)) (λ _. AtMost (suc k))
          (counts.get_law task_id w) (λ _ w' e. omega arith) (λ _ w' e. omega arith)

    sleep_lem : (k : ℕ) (w : W) → AtMost k w → Meets (hook.sleep w) (λ _. AtMost k) (λ _. AtMost k)
    sleep_lem k w h =
        Meets-mono (hook.sleep w) (λ _ w'. reads w' ≡ reads w) (λ _. AtMost k)
          (λ _ w'. reads w' ≡ reads w) (λ _. AtMost k) (counts.sleep_law w) (λ _ w' e. omega arith)
          (λ _ w' e. omega arith)

    module _ (next : Action W (Option Settled)) (k limit : ℕ) (fits : suc k ≤ limit)
        (rest : (w : W)
          → AtMost (suc k) w
          → Meets (next w) (λ _. AtMost limit) (λ _. AtMost limit)) where
      poll_once_lem :
          (w : W)
          → AtMost k w
          → Meets (poll_once hook task_id next w) (λ _. AtMost limit) (λ _. AtMost limit)
      poll_once_lem w h =
          Meets-bind (hook.get_task task_id) _ w (λ _. AtMost (suc k)) (λ _. AtMost limit)
            (λ _. AtMost limit)
            (Meets-mono (hook.get_task task_id w) (λ _. AtMost (suc k)) (λ _. AtMost (suc k))
              (λ _. AtMost (suc k)) (λ _. AtMost limit) (get_lem k w h) (λ _ _ c. c)
              (λ _ _ c. omega arith))
            (λ task p c.
              Meets-bind (on_status hook task.status) _ p (λ _. AtMost (suc k)) (λ _. AtMost limit)
                (λ _. AtMost limit)
                (Meets-mono (on_status hook task.status p) (λ _. AtMost (suc k))
                  (λ _. AtMost (suc k)) (λ _. AtMost (suc k)) (λ _. AtMost limit)
                  (on_status_lem task.status (suc k) p c) (λ _ _ d. d) (λ _ _ d. omega arith))
                (λ _ q d.
                  terminal-Meets hook next q (λ _. AtMost limit) (λ _. AtMost limit) task.status
                    task.result task.error (λ _. omega arith) (rest q d)))

      poll_after_sleep_lem :
          (w : W)
          → AtMost k w
          → Meets (poll_after_sleep hook task_id next w) (λ _. AtMost limit) (λ _. AtMost limit)
      poll_after_sleep_lem w h =
          Meets-bind hook.sleep _ w (λ _. AtMost k) (λ _. AtMost limit) (λ _. AtMost limit)
            (Meets-mono (hook.sleep w) (λ _. AtMost k) (λ _. AtMost k) (λ _. AtMost k)
              (λ _. AtMost limit) (sleep_lem k w h) (λ _ _ c. c) (λ _ _ c. omega arith))
            (λ _ p c.
              cancelled-Meets hook (poll_once hook task_id next) p (λ _. AtMost limit)
                (λ _. AtMost limit) (λ _. omega arith) (poll_once_lem p c))

    poll_lem :
        (left k : ℕ) (w : W)
        → AtMost k w
        → Meets (poll hook left task_id w) (λ _. AtMost (left + k)) (λ _. AtMost (left + k))
    unfolding poll
    poll_lem zero k w h = omega arith
    poll_lem (suc left) k w h =
        cancelled-Meets hook (poll_after_sleep hook task_id (poll hook left task_id)) w
          (λ _. AtMost (suc left + k)) (λ _. AtMost (suc left + k)) (λ _. omega arith)
          (poll_after_sleep_lem (poll hook left task_id) k (suc left + k) (omega arith)
            (λ p c.
              Meets-mono (poll hook left task_id p) (λ _. AtMost (left + suc k))
                (λ _. AtMost (suc left + k)) (λ _. AtMost (left + suc k))
                (λ _. AtMost (suc left + k)) (poll_lem left (suc k) p c) (λ _ _ d. omega arith)
                (λ _ _ d. omega arith))
            w h)

    -- Polling ends after at most 400 readings of the task, whatever it is answered.
    pub await_via_polling-AtMost :
        (w : W)
        → Meets
            (await_via_polling hook task_id w)
            (λ _ w'. reads w' ≤ 400 + reads w)
            (λ _ w'. reads w' ≤ 400 + reads w)
    unfolding await_via_polling
    await_via_polling-AtMost w = poll_lem max_polls (reads w) w (omega arith)
