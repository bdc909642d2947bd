-- ===== src/Ai/Worker/Attempts.antt =====
-- What an attempt does with the result that an earlier one left.
use jobilee.Prelude.{ℕ, String, ◌≡◌, ◌≢◌, refl, Option, none, some, arith}
use jobilee.Effect.{Action, Outcome, returned, threw, ◌>>=◌, catch}
use jobilee.Effect.Rules.{Ensures, Ensures-mono}
use jobilee.Shared.Ai.{running}
use jobilee.Ai.Tasks.{TaskRow, to_status, Environment, ModelRequest, Message}
use jobilee.Ai.Worker.{GenerationJob, event, attempt, recover, process_row, process}
use jobilee.Ai.Worker.Keeper.{Keeper, Keeps, IsKept}

outcome_cong :
    {W A B : Type 0} (o : Outcome W A) (f g : A → Action W B)
    → ((a : A) (w : W) → f a w ≡ g a w)
    → Path
        (Outcome W B)
        (elim o [ returned a w ↦ f a w | threw e w ↦ threw e w ])
        (elim o [ returned a w ↦ g a w | threw e w ↦ threw e w ])
outcome_cong (returned a w) f g h = h a w
outcome_cong (threw e w) f g h = refl

bind_cong :
    {W A B : Type 0} (m : Action W A) (f g : A → Action W B) (w : W)
    → ((a : A) (w' : W) → f a w' ≡ g a w')
    → (m >>= f) w ≡ (m >>= g) w
bind_cong m f g w h = outcome_cong (m w) f g h

module _ {W : Type 0} (env : Environment W) (job : GenerationJob) where
  -- the same surroundings with another model
  abbrev pub with_stream : (ModelRequest → Action W Message) → Environment W
  with_stream stream = record env { stream = stream }

  abbrev HasResult : Option TaskRow → Type 0
  HasResult o = (row : TaskRow) → o ≡ some row → row.result ≢ none

  resumed :
      (stream : ModelRequest → Action W Message) (attempts_made : ℕ) (stored : Option String)
      (w : W)
      → stored ≢ none
      → catch
          (attempt (with_stream stream) job stored)
          (recover (with_stream stream) job attempts_made)
          w
        ≡ catch (attempt env job stored) (recover env job attempts_made) w
  unfolding attempt recover
  resumed stream attempts_made none w h = absurd (h refl)
  resumed stream attempts_made (some result) w h = refl

  process_row-with_stream :
      (stream : ModelRequest → Action W Message) (attempts_made : ℕ) (o : Option TaskRow) (w : W)
      → HasResult o
      → process_row (with_stream stream) job attempts_made o w
        ≡ process_row env job attempts_made o w
  process_row-with_stream stream n none w h = refl
  process_row-with_stream stream n (some row) w h =
      bind_cong (env.update_task job.task_id (to_status running none)) _ _ w (λ _ w'.
        bind_cong (env.publish (event env job running none none)) _ _ w'
          (λ _ w''. resumed stream n row.result w'' (h row refl)))

  found-with_stream :
      (stream : ModelRequest → Action W Message) (attempts_made : ℕ)
      (o : Outcome W (Option TaskRow))
      → Ensures o (λ found w'. HasResult found) (λ w'. Unit)
      → Path
          (Outcome W (Unit {0}))
          (elim o [
            | returned a w' ↦ process_row (with_stream stream) job attempts_made a w'
            | threw e w' ↦ threw e w'
          ])
          (elim o [
            | returned a w' ↦ process_row env job attempts_made a w'
            | threw e w' ↦ threw e w'
          ])
  found-with_stream stream n (returned found w') h = process_row-with_stream stream n found w' h
  found-with_stream stream n (threw e w') h = refl

  -- An attempt at a task whose row has a result does the same whatever the model would answer: it
  -- is not asked again, and no generation is billed twice.
  pub process-with_stream :
      (k : Keeper W)
      → IsKept env k
      → (stream : ModelRequest → Action W Message) (attempts_made : ℕ) (row : TaskRow)
        (result : String) (w : W)
      → k.row w job.task_id ≡ some row
      → row.result ≡ some result
      → process (with_stream stream) job attempts_made w ≡ process env job attempts_made w
  unfolding process
  process-with_stream k kept stream n row result w at_row stored =
      found-with_stream stream n (env.find_task job.task_id w) (
        Ensures-mono _ (λ o w'. (o ≡ k.row w job.task_id) × Keeps k w w') (λ o w'. HasResult o)
          (Keeps k w) (λ _. Unit) (kept.find_law job.task_id w) (λ o w' (e, _) r f. ground arith)
          (λ _ _. tt))
